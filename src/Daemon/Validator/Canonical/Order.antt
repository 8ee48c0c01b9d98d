-- ===== src/Daemon/Validator/Canonical/Order.antt =====
-- The order of the keys, and insertions in either order.
use Prim.Native.Nat.{Ordering}
use logfence.Prelude.{[], ◌∷◌, ◌≡◌, ◌≢◌, refl, arith, sym, ap, ◌∙◌, Bytes}
use logfence.Daemon.Json.{Value, Members, no_members, member}
use logfence.Daemon.Validator.Canonical.{compare_bytes, insert_member}
use logfence.Daemon.Validator.Canonical.Sorted.{compare_bytes-eq, compare_bytes-gt}

pub compare_bytes_refl : (s : Bytes) → compare_bytes s s ≡ Ordering.eq
unfolding compare_bytes
compare_bytes_refl [] = refl
compare_bytes_refl (x ∷ s) = ground (arith, compare_bytes_refl s)

pub compare_bytes-lt :
    (s t : Bytes) → compare_bytes s t ≡ Ordering.lt → compare_bytes t s ≡ Ordering.gt
unfolding compare_bytes
compare_bytes-lt [] [] h = absurd (cc)
compare_bytes-lt [] (y ∷ t) h = refl
compare_bytes-lt (x ∷ s) [] h = absurd (cc)
compare_bytes-lt (x ∷ s) (y ∷ t) h = ground (arith, compare_bytes-lt s t)

pub compare_bytes_trans :
    (s t u : Bytes)
    → compare_bytes s t ≡ Ordering.lt
    → compare_bytes t u ≡ Ordering.lt
    → compare_bytes s u ≡ Ordering.lt
unfolding compare_bytes
compare_bytes_trans [] [] u h k = absurd (cc)
compare_bytes_trans (x ∷ s) [] u h k = absurd (cc)
compare_bytes_trans s (y ∷ t) [] h k = absurd (cc)
compare_bytes_trans [] (y ∷ t) (z ∷ u) h k = refl
compare_bytes_trans (x ∷ s) (y ∷ t) (z ∷ u) h k = ground (arith, compare_bytes_trans s t u)

-- An insertion, by how the key compares with the first.
pub insert-lt :
    (key : Bytes) (v : Value) (k : Bytes) (w : Value) (ms : Members)
    → compare_bytes key k ≡ Ordering.lt
    → insert_member key v (member k w ms) ≡ member key v (member k w ms)
unfolding insert_member
insert-lt key v k w ms h = rw (h, insert_member) refl

pub insert-eq :
    (key : Bytes) (v : Value) (k : Bytes) (w : Value) (ms : Members)
    → compare_bytes key k ≡ Ordering.eq
    → insert_member key v (member k w ms) ≡ member key v ms
unfolding insert_member
insert-eq key v k w ms h = rw (h, insert_member) refl

pub insert-gt :
    (key : Bytes) (v : Value) (k : Bytes) (w : Value) (ms : Members)
    → compare_bytes key k ≡ Ordering.gt
    → insert_member key v (member k w ms) ≡ member k w (insert_member key v ms)
unfolding insert_member
insert-gt key v k w ms h = rw (h, insert_member) refl

-- The members with the key inserted, with how it compares with the first of them.
abbrev Commutes : Bytes → Value → Bytes → Value → Members → Type 0
Commutes k a l b ms =
    insert_member k a (insert_member l b ms) ≡ insert_member l b (insert_member k a ms)

Commutes-cases :
    (k : Bytes) (a : Value) (l : Bytes) (b : Value) (h : Bytes) (w : Value) (ms : Members)
    (o p : Ordering)
    → compare_bytes k l ≡ Ordering.lt
    → compare_bytes k h ≡ o
    → compare_bytes l h ≡ p
    → Commutes k a l b ms
    → Commutes k a l b (member h w ms)
Commutes-cases k a l b h w ms Ordering.lt Ordering.lt before kh lh later = cc (
  insert-lt l b h w ms lh,
  insert-lt k a l b (member h w ms) before,
  insert-lt k a h w ms kh,
  insert-gt l b k a (member h w ms) (compare_bytes-lt k l before),
)
Commutes-cases k a l b h w ms Ordering.lt Ordering.eq before kh lh later = cc (
  insert-eq l b h w ms lh,
  insert-lt k a l b ms before,
  insert-lt k a h w ms kh,
  insert-gt l b k a (member h w ms) (compare_bytes-lt k l before),
)
Commutes-cases k a l b h w ms Ordering.lt Ordering.gt before kh lh later = cc (
  insert-gt l b h w ms lh,
  insert-lt k a h w (insert_member l b ms) kh,
  insert-lt k a h w ms kh,
  insert-gt l b k a (member h w ms) (compare_bytes-lt k l before),
)
Commutes-cases k a l b h w ms Ordering.eq Ordering.lt before kh lh later =
    absurd (cc (compare_bytes-lt k l before, ap (compare_bytes l) (compare_bytes-eq k h kh), lh))
Commutes-cases k a l b h w ms Ordering.eq Ordering.eq before kh lh later =
    absurd (cc (compare_bytes-lt k l before, ap (compare_bytes l) (compare_bytes-eq k h kh), lh))
Commutes-cases k a l b h w ms Ordering.eq Ordering.gt before kh lh later = cc (
  insert-gt l b h w ms lh,
  insert-eq k a h w (insert_member l b ms) kh,
  insert-eq k a h w ms kh,
  insert-gt l b k a ms (compare_bytes-lt k l before),
)
Commutes-cases k a l b h w ms Ordering.gt Ordering.lt before kh lh later =
    absurd
      (cc (compare_bytes-lt k l before, compare_bytes_trans l h k lh (compare_bytes-gt k h kh)))
Commutes-cases k a l b h w ms Ordering.gt Ordering.eq before kh lh later =
    absurd (cc (before, ap (compare_bytes k) (compare_bytes-eq l h lh), kh))
Commutes-cases k a l b h w ms Ordering.gt Ordering.gt before kh lh later = cc (
  insert-gt l b h w ms lh,
  insert-gt k a h w (insert_member l b ms) kh,
  insert-gt k a h w ms kh,
  insert-gt l b h w (insert_member k a ms) lh,
  later,
)

Commutes-lt :
    (k : Bytes) (a : Value) (l : Bytes) (b : Value) (ms : Members)
    → compare_bytes k l ≡ Ordering.lt
    → Commutes k a l b ms
unfolding insert_member
Commutes-lt k a l b no_members before =
    insert-lt k a l b no_members before
    ∙ sym (insert-gt l b k a no_members (compare_bytes-lt k l before))
Commutes-lt k a l b (member h w ms) before =
    Commutes-cases k a l b h w ms _ _ before refl refl (Commutes-lt k a l b ms before)

Commutes-by :
    (k : Bytes) (a : Value) (l : Bytes) (b : Value) (ms : Members) (o : Ordering)
    → k ≢ l
    → compare_bytes k l ≡ o
    → Commutes k a l b ms
Commutes-by k a l b ms Ordering.lt apart h = Commutes-lt k a l b ms h
Commutes-by k a l b ms Ordering.eq apart h = absurd (apart (compare_bytes-eq k l h))
Commutes-by k a l b ms Ordering.gt apart h = sym (Commutes-lt l b k a ms (compare_bytes-gt k l h))

-- Two keys that differ may be inserted in either order.
pub insert_member_comm :
    (k : Bytes) (a : Value) (l : Bytes) (b : Value) (ms : Members)
    → k ≢ l
    → insert_member k a (insert_member l b ms) ≡ insert_member l b (insert_member k a ms)
insert_member_comm k a l b ms apart = Commutes-by k a l b ms _ apart refl
