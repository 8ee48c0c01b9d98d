-- ===== src/Daemon/Datagram/Pool/Share.antt =====
-- Every n-th item of a list.
use logfence.Prelude.{
  ℕ, suc, ◌+◌, ◌%◌, Bool-cases, inl, inr, List, [], ◌∷◌, ◌++◌, ◌≡◌, refl, ap, ◌∙◌, arith, length,
  ◌==◌, if◌then◌else◌,
}

module _ {A : Type 0} (n i : ℕ) where
  -- The items of a list whose places, counted from `k`, are `i` modulo `n`.
  abbrev pub share : ℕ → List A → List A
  share k [] = []
  share k (x ∷ xs) = let rest = share (k + 1) xs in if k % n == i then x ∷ rest else rest

  abbrev pub last_share : ℕ → A → List A
  last_share k x = if k % n == i then x ∷ [] else []

  pub share_snoc :
      (k : ℕ) (xs : List A) (x : A)
      → share k (xs ++ x ∷ []) ≡ share k xs ++ last_share (k + length xs) x
  share_snoc k [] x = ap (λ m. last_share m x) (omega arith)
  share_snoc k (y ∷ xs) x =
      let rest : share (k + 1) (xs ++ x ∷ [])
          ≡ share (k + 1) xs ++ last_share (k + suc (length xs)) x =
        share_snoc (k + 1) xs x ∙ ap (λ m. share (k + 1) xs ++ last_share m x) (omega arith) in
      elim (Bool-cases (k % n == i)) [
        | inl his ↦ rw (his, rest) refl
        | inr other ↦ rw (other, rest) refl
      ]
