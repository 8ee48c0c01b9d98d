-- ===== src/Text/Utf8.antt =====
-- Laws of the UTF-8 validation.
use logfence.Prelude.{
  ℕ, zero, suc, ◌<◌, Bool, true, [], ◌∷◌, ◌++◌, ◌≡◌, refl, arith, Option, none, some, Bytes, All,
}
use logfence.Text.{utf8_lead, utf8_next, utf8_from, is_utf8}

-- Between two characters the range of the next continuation byte does not matter.
utf8_from_zero : (lo hi : ℕ) (t : Bytes) → utf8_from 0 lo hi t ≡ utf8_from 0 0 0 t
unfolding utf8_from
utf8_from_zero lo hi [] = refl
utf8_from_zero lo hi (c ∷ t) = refl

utf8_next-imp :
    (f g : ℕ → ℕ → ℕ → Bool) (b : Bool) (o : Option (ℕ × ℕ × ℕ))
    → ((l lo hi : ℕ) → f l lo hi ≡ true → g l lo hi ≡ b)
    → utf8_next f o ≡ true
    → utf8_next g o ≡ b
utf8_next-imp f g b none h e = absurd (cc)
utf8_next-imp f g b (some (l, lo, hi)) h e = h l lo hi e

utf8_from-append :
    (left lo hi : ℕ) (s t : Bytes)
    → utf8_from left lo hi s ≡ true
    → utf8_from left lo hi (s ++ t) ≡ utf8_from 0 0 0 t
unfolding utf8_from
utf8_from-append zero lo hi [] t h = utf8_from_zero lo hi t
utf8_from-append (suc left) lo hi [] t h = absurd (cc)
utf8_from-append zero lo hi (c ∷ s) t h =
    utf8_next-imp (λ l a b. utf8_from l a b s) (λ l a b. utf8_from l a b (s ++ t)) _ (utf8_lead c)
      (λ l a b. utf8_from-append l a b s t) h
utf8_from-append (suc left) lo hi (c ∷ s) t h = ground (arith, utf8_from-append left 0x80 0xbf s t)

-- Well-formed text before other text leaves that text to be validated.
pub is_utf8-append : (s t : Bytes) → is_utf8 s ≡ true → is_utf8 (s ++ t) ≡ is_utf8 t
unfolding is_utf8
is_utf8-append s t = utf8_from-append 0 0 0 s t

utf8_lead-ascii : (c : ℕ) → c < 0x80 → utf8_lead c ≡ some (0, 0, 0)
unfolding utf8_lead
utf8_lead-ascii c h = ground arith

pub is_utf8-ascii : (s : Bytes) → All (λ c. c < 0x80) s → is_utf8 s ≡ true
unfolding is_utf8
is_utf8-ascii [] h = refl
is_utf8-ascii (c ∷ s) (hc, hs) = rw (utf8_lead-ascii c hc) (is_utf8-ascii s hs)
