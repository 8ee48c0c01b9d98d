-- ===== src/Client/Builder/Fields.antt =====
-- The fields of a builder as a map.
use Prim.Native.Nat.{Ordering}
use logfence.Prelude.{
  [], ◌∷◌, ◌≡◌, ◌≢◌, refl, sym, ap, ◌∙◌, arith, true, false, some, Bytes, bytes_eq, bytes_eq_iff,
  inl, inr, Bool-cases, ok, err, ◌⊎◌, if◌then◌else◌,
}
use logfence.Daemon.Json.{Value, Members, no_members, member, member_of}
use logfence.Daemon.Validator.Canonical.{compare_bytes, insert_member}
use logfence.Daemon.Validator.Canonical.Sorted.{compare_bytes-eq}
use logfence.Daemon.Validator.Canonical.Order.{compare_bytes_refl}
use logfence.Client.Builder.{MessageBuilder, kv}
use logfence.Client.Error.{empty_key, serialize}

bytes_eq_refl : (k : Bytes) → bytes_eq k k ≡ true
bytes_eq_refl k = (bytes_eq_iff k k).1 refl

bytes_eq-ne : (j k : Bytes) → j ≢ k → bytes_eq j k ≡ false
bytes_eq-ne j k h = elim (Bool-cases (bytes_eq j k)) [
  | inl same ↦ absurd (h ((bytes_eq_iff j k).0 same))
  | inr other ↦ other
]

-- One step of the insertion, by how the keys compare.
insert_step :
    (key j k : Bytes) (v w : Value) (ms : Members) (o : Ordering)
    → compare_bytes key k ≡ o
    → member_of j (insert_member key v ms) ≡ (if bytes_eq key j then some v else member_of j ms)
    → member_of j (insert_member key v (member k w ms))
      ≡ (if bytes_eq key j then some v else member_of j (member k w ms))
unfolding member_of insert_member
insert_step key j k v w ms Ordering.lt h later = rw (h, insert_member)
insert_step key j k v w ms Ordering.eq h later =
    let same : bytes_eq k j ≡ bytes_eq key j =
      ap (λ x. bytes_eq x j) (sym (compare_bytes-eq key k h)) in
    rw (h, insert_member) (rw same (ground arith))
insert_step key j k v w ms Ordering.gt h later =
    let differ : key ≢ k = λ e. cc (h, compare_bytes_refl k, ap (λ x. compare_bytes x k) e) in
    rw (h, insert_member)
      (elim (Bool-cases (bytes_eq k j)) [
        | inl here ↦
            let e = (bytes_eq_iff k j).0 here in
            rw here (rw (bytes_eq-ne key j (λ f. differ (f ∙ sym e))))
        | inr other ↦ rw other later
      ])

-- In the map after an insertion the key has the value, and every other key what it had.
member_of-insert_member :
    (key j : Bytes) (v : Value) (ms : Members)
    → member_of j (insert_member key v ms) ≡ (if bytes_eq key j then some v else member_of j ms)
unfolding member_of insert_member
member_of-insert_member key j v no_members = refl
member_of-insert_member key j v (member k w ms) =
    insert_step key j k v w ms _ refl (member_of-insert_member key j v ms)

-- `kv` refuses the empty key and a value that has no JSON, and otherwise changes only the map of
-- fields: the key has the value given last, and every other key what it had.
pub kv-member_of :
    (b : MessageBuilder) (key j : Bytes) (val : Bytes ⊎ Value)
    → (key ≡ [] → kv b key val ≡ err empty_key)
      × ((e : Bytes) → key ≢ [] → val ≡ inl e → kv b key val ≡ err (serialize e))
      × ((value : Value)
          → key ≢ []
          → val ≡ inr value
          → (fields : Members) × (kv b key val ≡ ok (record b { fields = fields }))
            × (member_of j fields ≡ (if bytes_eq key j then some value else member_of j b.fields)))
unfolding kv
kv-member_of b [] j val = (λ h. refl, λ e h. absurd (h refl), λ v h. absurd (h refl))
kv-member_of b (c ∷ key) j val = (
  (λ h. cc),
  (λ e ne h. rw h),
  (λ v ne h.
      (insert_member (c ∷ key) v b.fields, rw h, member_of-insert_member (c ∷ key) j v b.fields)),
)
