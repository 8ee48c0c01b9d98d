-- ===== src/Text/Trim.antt =====
-- Laws of `trim_end_matches`.
use logfence.Prelude.{ℕ, false, [], ◌∷◌, ◌++◌, ◌≡◌, ◌≢◌, refl, arith, Bytes, is_empty}
use logfence.Text.{trim_end, is_trimmed}

-- The text does not end in a byte that `trim_end_matches` takes away.
abbrev pub EndsClean : Bytes → Type 0
EndsClean s = trim_end s ≡ s

pub trim_end_idem : (s : Bytes) → EndsClean (trim_end s)
unfolding trim_end
trim_end_idem [] = refl
trim_end_idem (c ∷ s) = ground (arith, trim_end_idem s)

is_empty-append : (s t : Bytes) → t ≢ [] → is_empty (s ++ t) ≡ false
is_empty-append [] [] ne = absurd (ne refl)
is_empty-append [] (x ∷ t) ne = refl
is_empty-append (c ∷ s) t ne = refl

pub trim_end-append : (s t : Bytes) → t ≢ [] → EndsClean t → EndsClean (s ++ t)
unfolding trim_end
trim_end-append [] t ne h = h
trim_end-append (c ∷ s) t ne h = ground (arith, trim_end-append s t ne h, is_empty-append s t ne)

-- The rest of a text that ends clean does.
pub EndsClean-rest : (s t : Bytes) → EndsClean (s ++ t) → EndsClean t
unfolding trim_end
EndsClean-rest [] t h = h
EndsClean-rest (c ∷ s) t h = EndsClean-rest s t (ground arith)

-- One byte that is not trimmed keeps what stands before it.
pub EndsClean-byte : (s : Bytes) (c : ℕ) → is_trimmed c ≡ false → EndsClean (s ++ c ∷ [])
unfolding trim_end
EndsClean-byte s c h = trim_end-append s (c ∷ []) (λ e. cc) (rw h)
