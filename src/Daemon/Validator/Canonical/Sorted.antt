-- ===== src/Daemon/Validator/Canonical/Sorted.antt =====
-- The order of the members that `sorted_value` gives.
use Prim.Native.Nat.{Ordering}
use logfence.Prelude.{[], ◌∷◌, ◌≡◌, refl, arith, sym, subst, Bytes}
use logfence.Daemon.Json.{
  Value, null, bool, number, string, array, object, Values, no_values, item, Members, no_members,
  member,
}
use logfence.Daemon.Validator.Canonical.{
  compare_bytes, insert_member, sorted_value, sorted_values, sorted_members,
}

pub compare_bytes-gt :
    (s t : Bytes) → compare_bytes s t ≡ Ordering.gt → compare_bytes t s ≡ Ordering.lt
unfolding compare_bytes
compare_bytes-gt [] [] h = absurd (cc)
compare_bytes-gt [] (y ∷ t) h = absurd (cc)
compare_bytes-gt (x ∷ s) [] h = refl
compare_bytes-gt (x ∷ s) (y ∷ t) h = ground (arith, compare_bytes-gt s t)

pub compare_bytes-eq : (s t : Bytes) → compare_bytes s t ≡ Ordering.eq → s ≡ t
unfolding compare_bytes
compare_bytes-eq [] [] h = refl
compare_bytes-eq [] (y ∷ t) h = absurd (cc)
compare_bytes-eq (x ∷ s) [] h = absurd (cc)
compare_bytes-eq (x ∷ s) (y ∷ t) h = ground (arith, compare_bytes-eq s t)

-- The key is before that of the first member.
abbrev Below : Bytes → Members → Type 0
Below key no_members = Unit
Below key (member k v ms) = compare_bytes key k ≡ Ordering.lt

-- The members of every object in the value have strictly increasing keys.
mutual
  pub IsCanonical : Value → Type 0
  IsCanonical null = Unit
  IsCanonical (bool b) = Unit
  IsCanonical (number n) = Unit
  IsCanonical (string s) = Unit
  IsCanonical (array vs) = AreCanonical vs
  IsCanonical (object ms) = Increasing ms

  pub AreCanonical : Values → Type 0
  AreCanonical no_values = Unit
  AreCanonical (item v vs) = IsCanonical v × AreCanonical vs

  pub Increasing : Members → Type 0
  Increasing no_members = Unit
  Increasing (member k v ms) = Below k ms × IsCanonical v × Increasing ms

insert_member-Below :
    (key : Bytes) (v : Value) (k : Bytes) (ms : Members)
    → Below k ms
    → compare_bytes k key ≡ Ordering.lt
    → Below k (insert_member key v ms)
unfolding insert_member
insert_member-Below key v k no_members b h = h
insert_member-Below key v k (member k2 w ms) b h = ground arith

-- One step of the insertion, by how the keys compare.
insert_step :
    (key : Bytes) (v : Value) (k : Bytes) (w : Value) (ms : Members) (o : Ordering)
    → compare_bytes key k ≡ o
    → IsCanonical v
    → Below k ms
    → IsCanonical w
    → Increasing ms
    → Increasing (insert_member key v ms)
    → Increasing (insert_member key v (member k w ms))
unfolding insert_member IsCanonical
insert_step key v k w ms Ordering.lt h c b cw i later = rw (h, insert_member) (h, c, (b, cw, i))
insert_step key v k w ms Ordering.eq h c b cw i later =
    rw (h, insert_member) (subst (λ x. Below x ms) (sym (compare_bytes-eq key k h)) b, c, i)
insert_step key v k w ms Ordering.gt h c b cw i later =
    rw (h, insert_member) (insert_member-Below key v k ms b (compare_bytes-gt key k h), cw, later)

insert_member-Increasing :
    (key : Bytes) (v : Value) (ms : Members)
    → IsCanonical v
    → Increasing ms
    → Increasing (insert_member key v ms)
unfolding insert_member IsCanonical
insert_member-Increasing key v no_members c i = (tt, c, tt)
insert_member-Increasing key v (member k w ms) c (b, cw, i) =
    insert_step key v k w ms _ refl c b cw i (insert_member-Increasing key v ms c i)

mutual
  unfolding sorted_value IsCanonical

  IsCanonical-sorted_value : (v : Value) → IsCanonical (sorted_value v)
  IsCanonical-sorted_value null = tt
  IsCanonical-sorted_value (bool b) = tt
  IsCanonical-sorted_value (number n) = tt
  IsCanonical-sorted_value (string s) = tt
  IsCanonical-sorted_value (array vs) = AreCanonical-sorted_values vs
  IsCanonical-sorted_value (object ms) = Increasing-sorted_members no_members ms tt

  AreCanonical-sorted_values : (vs : Values) → AreCanonical (sorted_values vs)
  AreCanonical-sorted_values no_values = tt
  AreCanonical-sorted_values (item v vs) =
      (IsCanonical-sorted_value v, AreCanonical-sorted_values vs)

  Increasing-sorted_members :
      (sorted ms : Members) → Increasing sorted → Increasing (sorted_members sorted ms)
  Increasing-sorted_members sorted no_members i = i
  Increasing-sorted_members sorted (member k v ms) i =
      Increasing-sorted_members (insert_member k (sorted_value v) sorted) ms
        (insert_member-Increasing k (sorted_value v) sorted (IsCanonical-sorted_value v) i)

-- In what `sorted_value` returns, the members of every object, at any depth, have strictly
-- increasing keys in the order of their bytes.
pub sorted_value-IsCanonical : (v : Value) → IsCanonical (sorted_value v)
sorted_value-IsCanonical v = IsCanonical-sorted_value v
