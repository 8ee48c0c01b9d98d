-- ===== src/Daemon/Datagram/Pool/All.antt =====
-- What all workers have handled, whoever did.
use mathlib.Core.List.Perm
use mathlib.Core.List.{Perm, perm_middle}
use native.Mathlib.Nat.{mod-lt}
use logfence.Prelude.{
  ℕ, zero, suc, ◌+◌, ◌%◌, ◌≤◌, ◌<◌, true, Bool-cases, inl, inr, List, [], ◌∷◌, ◌++◌, ◌≡◌, ◌≢◌, refl,
  sym, subst, arith, ◌==◌, ==→eq, if◌then◌else◌,
}
use logfence.Daemon.Datagram.Pool.{returned, Pool, start, Steps}
use logfence.Daemon.Datagram.Pool.Share.{share}
use logfence.Daemon.Datagram.Pool.Got.{AllAlive}
use logfence.Daemon.Datagram.Pool.Shares.{Steps-handled}

module _ {A : Type 0} where
  -- The lists of the first `m`, one behind the other.
  abbrev pub gather : ℕ → (ℕ → List A) → List A
  gather zero lists = []
  gather (suc m) lists = gather m lists ++ lists m

  gather-same :
      (m : ℕ) (f g : ℕ → List A) (same : (i : ℕ) → i < m → f i ≡ g i) → gather m f ≡ gather m g
  gather-same zero f g same = refl
  gather-same (suc m) f g same =
      cc (gather-same m f g (λ i k. same i (omega (arith, k))), same m (omega arith))

  -- `x` in front of the list of `j`.
  abbrev given : ℕ → A → (ℕ → List A) → ℕ → List A
  given j x lists i = if j == i then x ∷ lists i else lists i

  given-other : (j i : ℕ) (x : A) (lists : ℕ → List A) → j ≢ i → given j x lists i ≡ lists i
  given-other j i x lists h = ground arith

  gather-given :
      (m j : ℕ) (x : A) (lists : ℕ → List A)
      → j < m
      → Perm (gather m (given j x lists)) (x ∷ gather m lists)
  gather-given zero j x lists h = absurd (omega (arith, h))
  gather-given (suc m) j x lists h = elim (Bool-cases (j == m)) [
    | inl last ↦ rw last (
        subst (λ front. Perm (front ++ x ∷ lists m) (x ∷ (gather m lists ++ lists m)))
          (sym (
            gather-same m (given j x lists) lists
              (λ i k. given-other j i x lists (λ e. absurd (omega (arith, k, e, ==→eq j m last))))))
          (perm_middle (gather m lists) (lists m)))
    | inr other ↦ rw other (Perm.append_right (lists m) (gather-given m j x lists ground arith))
  ]

  gather-nil : (m : ℕ) → gather m (λ i. []) ≡ []
  gather-nil zero = refl
  gather-nil (suc m) = cc (gather-nil m)

  -- The shares of a list are all of it.
  gather-share : (n k : ℕ) (xs : List A) → 1 ≤ n → Perm (gather n (λ i. share n i k xs)) xs
  gather-share n k [] h = subst (λ l. Perm l []) (sym (gather-nil n)) (Perm.refl [])
  gather-share n k (x ∷ xs) h =
      Perm.trans
        (gather-given n (k % n) x (λ i. share n i (k + 1) xs) (mod-lt k (omega (arith, h))))
        (Perm.cons x (gather-share n (k + 1) xs h))

-- With a worker or more: if the listener has returned without the timeout and no worker has
-- panicked, then each worker has handled, in order, the received items whose places are its own
-- index modulo the number of workers; and all that was handled, by whichever worker, is what
-- was received, each item once.
pub Steps-all_handled :
    (n size : ℕ) (s : Pool) (i : ℕ)
    → 1 ≤ n
    → Steps n size start s
    → s.phase ≡ returned true
    → AllAlive n s.workers
    → i < n
    → ((s.workers i).handled ≡ share n i 0 s.received)
      × Perm (gather n (λ j. (s.workers j).handled)) s.received
Steps-all_handled n size s i some_worker r at all below = (
  Steps-handled n size s i some_worker r at all below,
  subst (λ l. Perm l s.received)
      (sym (
        gather-same n (λ j. (s.workers j).handled) (λ j. share n j 0 s.received)
          (λ j k. Steps-handled n size s j some_worker r at all k)))
      (gather-share n 0 s.received some_worker),
)
