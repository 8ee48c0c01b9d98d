-- ===== src/Daemon/Validator/Canonical.antt =====
-- `sorted_value` of crates/logfence-daemon/src/validator.rs: the members of each object in the
-- order of a `BTreeMap` of strings, which is that of their bytes.
pub mod Sorted
pub mod Order
pub mod Reordered
pub mod Exact
pub mod Sent
use Prim.Native.Nat.{compare, Ordering}
use logfence.Prelude.{[], ◌∷◌, Bytes}
use logfence.Daemon.Json.{
  Value, null, bool, number, string, array, object, Values, no_values, item, Members, no_members,
  member,
}

-- `Ord` of strings.
unfoldable pub compare_bytes : Bytes → Bytes → Ordering
compare_bytes [] [] = Ordering.eq
compare_bytes [] (y ∷ t) = Ordering.lt
compare_bytes (x ∷ s) [] = Ordering.gt
compare_bytes (x ∷ s) (y ∷ t) =
    let rest = compare_bytes s t in
    elim (compare x y) [
      | Ordering.lt ↦ Ordering.lt
      | Ordering.eq ↦ rest
      | Ordering.gt ↦ Ordering.gt
    ]

-- `BTreeMap::insert`: a key that is there gets the new value.
unfoldable pub insert_member : Bytes → Value → Members → Members
insert_member key v no_members = member key v no_members
insert_member key v (member k w ms) =
    let rest = insert_member key v ms in
    elim (compare_bytes key k) [
      | Ordering.lt ↦ member key v (member k w ms)
      | Ordering.eq ↦ member key v ms
      | Ordering.gt ↦ member k w rest
    ]

unfoldable mutual
  pub sorted_value : Value → Value
  sorted_value null = null
  sorted_value (bool b) = bool b
  sorted_value (number n) = number n
  sorted_value (string s) = string s
  sorted_value (array vs) = array (sorted_values vs)
  sorted_value (object ms) = object (sorted_members no_members ms)

  pub sorted_values : Values → Values
  sorted_values no_values = no_values
  sorted_values (item v vs) = item (sorted_value v) (sorted_values vs)

  -- `collect`: the members are inserted from the first to the last.
  pub sorted_members : Members → Members → Members
  sorted_members sorted no_members = sorted
  sorted_members sorted (member k v ms) =
      sorted_members (insert_member k (sorted_value v) sorted) ms
