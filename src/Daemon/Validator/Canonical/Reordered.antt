-- ===== src/Daemon/Validator/Canonical/Reordered.antt =====
-- Values that differ only in the order of the members of their objects, and what `sorted_value`
-- makes of them.
use logfence.Prelude.{◌≡◌, ◌≢◌, refl, sym, ap, ◌∙◌, Bytes}
use logfence.Daemon.Json.{
  Value, array, object, Values, no_values, item, Members, no_members, member,
}
use logfence.Daemon.Validator.Canonical.{insert_member, sorted_value, sorted_values, sorted_members}
use logfence.Daemon.Validator.Canonical.Order.{insert_member_comm}

-- The members of objects, at any depth, in another order: two neighbours with different keys may
-- change places, again and again.
mutual
  pub data Reordered : Value → Value → Type 0 where
    same : (v : Value) → Reordered v v
    via : {u v w : Value} → Reordered u v → Reordered v w → Reordered u w
    in_array : {vs ws : Values} → ReorderedValues vs ws → Reordered (array vs) (array ws)
    in_object : {ms ns : Members} → ReorderedMembers ms ns → Reordered (object ms) (object ns)

  pub data ReorderedValues : Values → Values → Type 0 where
    end_of_array : ReorderedValues no_values no_values
    items :
        {v w : Value} {vs ws : Values}
        → Reordered v w
        → ReorderedValues vs ws
        → ReorderedValues (item v vs) (item w ws)

  pub data ReorderedMembers : Members → Members → Type 0 where
    end_of_object : ReorderedMembers no_members no_members
    kept :
        {v w : Value} {ms ns : Members} (k : Bytes)
        → Reordered v w
        → ReorderedMembers ms ns
        → ReorderedMembers (member k v ms) (member k w ns)
    swapped :
        (k l : Bytes) (v w : Value) (ms : Members)
        → k ≢ l
        → ReorderedMembers (member k v (member l w ms)) (member l w (member k v ms))
    through :
        {ms ns os : Members}
        → ReorderedMembers ms ns
        → ReorderedMembers ns os
        → ReorderedMembers ms os

mutual
  unfolding sorted_value

  pub sorted_value-Reordered : {v w : Value} → Reordered v w → sorted_value v ≡ sorted_value w
  sorted_value-Reordered (same v) = refl
  sorted_value-Reordered (via r s) = sorted_value-Reordered r ∙ sorted_value-Reordered s
  sorted_value-Reordered (in_array r) = ap array (sorted_values-Reordered r)
  sorted_value-Reordered (in_object r) = ap object (sorted_members-Reordered r no_members)

  sorted_values-Reordered :
      {vs ws : Values} → ReorderedValues vs ws → sorted_values vs ≡ sorted_values ws
  sorted_values-Reordered end_of_array = refl
  sorted_values-Reordered (items r rs) = cc (sorted_value-Reordered r, sorted_values-Reordered rs)

  sorted_members-Reordered :
      {ms ns : Members}
      → ReorderedMembers ms ns
      → (sorted : Members) → sorted_members sorted ms ≡ sorted_members sorted ns
  sorted_members-Reordered end_of_object sorted = refl
  sorted_members-Reordered (kept {v = v} {w = w} {ms = ms} {ns = ns} k r rs) sorted =
      sorted_members-Reordered rs (insert_member k (sorted_value v) sorted)
      ∙ ap (λ x. sorted_members (insert_member k x sorted) ns) (sorted_value-Reordered r)
  sorted_members-Reordered (swapped k l v w ms apart) sorted =
      ap (λ x. sorted_members x ms)
        (sym (insert_member_comm k (sorted_value v) l (sorted_value w) sorted apart))
  sorted_members-Reordered (through r s) sorted =
      sorted_members-Reordered r sorted ∙ sorted_members-Reordered s sorted

mutual
  pub Reordered-sym : {v w : Value} → Reordered v w → Reordered w v
  Reordered-sym (same v) = same v
  Reordered-sym (via r s) = via (Reordered-sym s) (Reordered-sym r)
  Reordered-sym (in_array r) = in_array (ReorderedValues-sym r)
  Reordered-sym (in_object r) = in_object (ReorderedMembers-sym r)

  ReorderedValues-sym : {vs ws : Values} → ReorderedValues vs ws → ReorderedValues ws vs
  ReorderedValues-sym end_of_array = end_of_array
  ReorderedValues-sym (items r rs) = items (Reordered-sym r) (ReorderedValues-sym rs)

  ReorderedMembers-sym : {ms ns : Members} → ReorderedMembers ms ns → ReorderedMembers ns ms
  ReorderedMembers-sym end_of_object = end_of_object
  ReorderedMembers-sym (kept k r rs) = kept k (Reordered-sym r) (ReorderedMembers-sym rs)
  ReorderedMembers-sym (swapped k l v w ms apart) = swapped l k w v ms (λ e. apart (sym e))
  ReorderedMembers-sym (through r s) = through (ReorderedMembers-sym s) (ReorderedMembers-sym r)
