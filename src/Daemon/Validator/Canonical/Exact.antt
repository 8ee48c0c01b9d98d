-- ===== src/Daemon/Validator/Canonical/Exact.antt =====
-- When `sorted_value` makes the same of two values.
use Prim.Native.Nat.{Ordering}
use logfence.Prelude.{◌≡◌, ◌≢◌, ◌↔◌, refl, sym, subst, Bytes}
use logfence.Daemon.Json.{
  Value, null, bool, number, string, array, object, Values, no_values, item, Members, no_members,
  member,
}
use logfence.Daemon.Validator.Canonical.{
  compare_bytes, insert_member, sorted_value, sorted_values, sorted_members,
}
use logfence.Daemon.Validator.Canonical.Sorted.{compare_bytes-eq}
use logfence.Daemon.Validator.Canonical.Order.{insert-lt, insert-eq, insert-gt}
use logfence.Daemon.Validator.Canonical.Reordered.{
  Reordered, same, via, in_array, in_object, ReorderedValues, end_of_array, items, ReorderedMembers,
  end_of_object, kept, swapped, through, sorted_value-Reordered, Reordered-sym,
}

-- No member has the key.
abbrev pub Absent : Bytes → Members → Type 0
Absent k no_members = Unit
Absent k (member l w ms) = (k ≢ l) × Absent k ms

-- In every object, at any depth, each key stands once, as in a map of serde_json.
unfoldable mutual
  pub HasKeysOnce : Value → Type 0
  HasKeysOnce null = Unit
  HasKeysOnce (bool b) = Unit
  HasKeysOnce (number n) = Unit
  HasKeysOnce (string s) = Unit
  HasKeysOnce (array vs) = HaveKeysOnce vs
  HasKeysOnce (object ms) = KeysOnce ms

  pub HaveKeysOnce : Values → Type 0
  HaveKeysOnce no_values = Unit
  HaveKeysOnce (item v vs) = HasKeysOnce v × HaveKeysOnce vs

  pub KeysOnce : Members → Type 0
  KeysOnce no_members = Unit
  KeysOnce (member k v ms) = Absent k ms × HasKeysOnce v × KeysOnce ms

-- The keys of `ms` are not those of `sorted`.
abbrev Apart : Members → Members → Type 0
Apart sorted no_members = Unit
Apart sorted (member k v ms) = Absent k sorted × Apart sorted ms

abbrev join : Members → Members → Members
join no_members ns = ns
join (member k v ms) ns = member k v (join ms ns)

Apart-nil : (ms : Members) → Apart no_members ms
Apart-nil no_members = tt
Apart-nil (member k v ms) = (tt, Apart-nil ms)

ReorderedMembers-refl : (ms : Members) → ReorderedMembers ms ms
ReorderedMembers-refl no_members = end_of_object
ReorderedMembers-refl (member k v ms) = kept k (same v) (ReorderedMembers-refl ms)

join-Reordered :
    {ms ns : Members}
    → ReorderedMembers ms ns
    → (os : Members) → ReorderedMembers (join ms os) (join ns os)
join-Reordered end_of_object os = ReorderedMembers-refl os
join-Reordered (kept k r rs) os = kept k r (join-Reordered rs os)
join-Reordered (swapped k l v w ms apart) os = swapped k l v w (join ms os) apart
join-Reordered (through r s) os = through (join-Reordered r os) (join-Reordered s os)

-- A member is moved to the front.
moved :
    (k : Bytes) (v w : Value) (sorted ms : Members)
    → Absent k sorted
    → Reordered v w
    → ReorderedMembers (join sorted (member k v ms)) (member k w (join sorted ms))
moved k v w no_members ms h r = kept k r (ReorderedMembers-refl ms)
moved k v w (member l x sorted) ms (apart, h) r =
    through (kept l (same x) (moved k v w sorted ms h r))
      (swapped l k x w (join sorted ms) (λ e. apart (sym e)))

inserted_by :
    (k : Bytes) (v : Value) (l : Bytes) (w : Value) (ms : Members) (o : Ordering)
    → compare_bytes k l ≡ o
    → k ≢ l
    → ReorderedMembers (member k v ms) (insert_member k v ms)
    → ReorderedMembers (member k v (member l w ms)) (insert_member k v (member l w ms))
inserted_by k v l w ms Ordering.lt h apart later =
    subst (ReorderedMembers (member k v (member l w ms))) (sym (insert-lt k v l w ms h))
      (ReorderedMembers-refl (member k v (member l w ms)))
inserted_by k v l w ms Ordering.eq h apart later = absurd (apart (compare_bytes-eq k l h))
inserted_by k v l w ms Ordering.gt h apart later =
    subst (ReorderedMembers (member k v (member l w ms))) (sym (insert-gt k v l w ms h))
      (through (swapped k l v w ms apart) (kept l (same w) later))

inserted :
    (k : Bytes) (v : Value) (ms : Members)
    → Absent k ms
    → ReorderedMembers (member k v ms) (insert_member k v ms)
unfolding insert_member
inserted k v no_members h = kept k (same v) end_of_object
inserted k v (member l w ms) (apart, h) = inserted_by k v l w ms _ refl apart (inserted k v ms h)

Absent-insert_by :
    (l k : Bytes) (v : Value) (h : Bytes) (w : Value) (ms : Members) (o : Ordering)
    → compare_bytes k h ≡ o
    → l ≢ k
    → l ≢ h
    → Absent l ms
    → Absent l (insert_member k v ms)
    → Absent l (insert_member k v (member h w ms))
Absent-insert_by l k v h w ms Ordering.lt e apart other absent later =
    subst (Absent l) (sym (insert-lt k v h w ms e)) (apart, (other, absent))
Absent-insert_by l k v h w ms Ordering.eq e apart other absent later =
    subst (Absent l) (sym (insert-eq k v h w ms e)) (apart, absent)
Absent-insert_by l k v h w ms Ordering.gt e apart other absent later =
    subst (Absent l) (sym (insert-gt k v h w ms e)) (other, later)

Absent-insert :
    (l k : Bytes) (v : Value) (ms : Members) → l ≢ k → Absent l ms → Absent l (insert_member k v ms)
unfolding insert_member
Absent-insert l k v no_members apart absent = (apart, tt)
Absent-insert l k v (member h w ms) apart (other, absent) =
    Absent-insert_by l k v h w ms _ refl apart other absent (Absent-insert l k v ms apart absent)

Apart-insert :
    (sorted : Members) (k : Bytes) (v : Value) (ms : Members)
    → Apart sorted ms
    → Absent k ms
    → Apart (insert_member k v sorted) ms
Apart-insert sorted k v no_members h absent = tt
Apart-insert sorted k v (member l w ms) (here, h) (apart, absent) =
    (Absent-insert l k v sorted (λ e. apart (sym e)) here, Apart-insert sorted k v ms h absent)

join-nil : (ms : Members) → ReorderedMembers (join ms no_members) ms
join-nil no_members = end_of_object
join-nil (member k v ms) = kept k (same v) (join-nil ms)

mutual
  unfolding sorted_value HasKeysOnce

  Reordered-sorted_value : (v : Value) → HasKeysOnce v → Reordered v (sorted_value v)
  Reordered-sorted_value null h = same null
  Reordered-sorted_value (bool b) h = same (bool b)
  Reordered-sorted_value (number n) h = same (number n)
  Reordered-sorted_value (string s) h = same (string s)
  Reordered-sorted_value (array vs) h = in_array (Reordered-sorted_values vs h)
  Reordered-sorted_value (object ms) h =
      in_object (Reordered-sorted_members no_members ms h (Apart-nil ms))

  Reordered-sorted_values : (vs : Values) → HaveKeysOnce vs → ReorderedValues vs (sorted_values vs)
  Reordered-sorted_values no_values h = end_of_array
  Reordered-sorted_values (item v vs) (h, hs) =
      items (Reordered-sorted_value v h) (Reordered-sorted_values vs hs)

  Reordered-sorted_members :
      (sorted ms : Members)
      → KeysOnce ms
      → Apart sorted ms
      → ReorderedMembers (join sorted ms) (sorted_members sorted ms)
  Reordered-sorted_members sorted no_members h apart = join-nil sorted
  Reordered-sorted_members sorted (member k v ms) (absent, h, hs) (here, apart) =
      through (moved k v (sorted_value v) sorted ms here (Reordered-sorted_value v h)) (
        through (join-Reordered (inserted k (sorted_value v) sorted here) ms) (
          Reordered-sorted_members (insert_member k (sorted_value v) sorted) ms hs
            (Apart-insert sorted k (sorted_value v) ms apart absent)))

-- Of two values whose objects have each key once, `sorted_value` makes the same exactly if they
-- differ only in the order of the members of their objects, at any depth.
pub sorted_value_iff :
    (v w : Value)
    → HasKeysOnce v
    → HasKeysOnce w
    → (sorted_value v ≡ sorted_value w) ↔ Reordered v w
sorted_value_iff v w hv hw = (
  λ e.
      via (Reordered-sorted_value v hv)
        (subst (λ x. Reordered x w) (sym e) (Reordered-sym (Reordered-sorted_value w hw))),
  λ r. sorted_value-Reordered r,
)
