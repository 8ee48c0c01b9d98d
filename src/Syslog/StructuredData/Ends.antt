-- ===== src/Syslog/StructuredData/Ends.antt =====
-- Where `find_structured_data_end` ends: behind a prefix of the text that does not depend on what
-- follows it.
use logfence.Prelude.{
  ℕ, ◌+◌, Bool, false, [], ◌∷◌, ◌++◌, ◌≡◌, ◌≢◌, refl, sym, ap, ◌∙◌, subst, arith, Bytes, length,
  ◌==◌, ok, ◌⊎◌, inl, inr, Bool-cases, append-nil, length-append, codes,
}
use mathlib.Core.List.{cons-ne-nil}
use logfence.Text.Trim.{EndsClean, EndsClean-byte, trim_end-append}
use logfence.Syslog.StructuredData.{
  ScanPlace, between_elements, in_element, scan_step, find_from, find_structured_data_end,
}

-- The text does not begin with `[`.
abbrev pub NoOpen : Bytes → Type 0
NoOpen [] = Unit
NoOpen (c ∷ s) = c ≢ b'['

abbrev Advances : ScanPlace → Bytes → Type 0
Advances between_elements t = Unit
Advances (in_element q e) t = t ≢ []

-- The scan of `s` from `p` ends behind `part`, with `j` for the offset.
record Ending (p : ScanPlace) (s : Bytes) (i j : ℕ) : Type 0 where
  part : Bytes
  after : Bytes
  splits : s ≡ part ++ after
  offset : j ≡ i + length part
  again : (r : Bytes) → NoOpen r → find_from p (part ++ r) i ≡ ok j
  advances : Advances p part
  clean : part ≢ [] → EndsClean part

find_from-NoOpen : (r : Bytes) (i : ℕ) → NoOpen r → find_from between_elements r i ≡ ok i
unfolding find_from
find_from-NoOpen [] i h = refl
find_from-NoOpen (c ∷ r) i h = ground arith

-- A step of the inner loop that ends the element reads a `]`.
scan_step-between : (q e : Bool) (c : ℕ) → scan_step q e c ≡ between_elements → c ≡ b']'
unfolding scan_step
scan_step-between q e c h = ground arith

clean-cons :
    (q e : Bool) (c : ℕ) (t : Bytes) (p : ScanPlace)
    → scan_step q e c ≡ p
    → Advances p t
    → (t ≢ [] → EndsClean t)
    → EndsClean (c ∷ t)
clean-cons q e c [] between_elements h a k = EndsClean-byte [] c (rw (scan_step-between q e c h))
clean-cons q e c [] (in_element q' e') h a k = absurd (a refl)
clean-cons q e c (x ∷ t) p h a k =
    trim_end-append (c ∷ []) (x ∷ t) (cons-ne-nil x t) (k (cons-ne-nil x t))

find_from-Ending : (p : ScanPlace) (s : Bytes) (i j : ℕ) → find_from p s i ≡ ok j → Ending p s i j
unfolding find_from
find_from-Ending between_elements [] i j h = record {
  part = [];
  after = [];
  splits = refl;
  offset = ground arith;
  again = λ r n. find_from-NoOpen r i n ∙ h;
  advances = tt;
  clean = λ n. absurd (n refl);
}
find_from-Ending between_elements (c ∷ s) i j h = elim (Bool-cases (c == b'[')) [
  | inl open_bracket ↦
      let rest = find_from-Ending (in_element false false) s (i + 1) j (rw open_bracket at h) in
      record {
        part = c ∷ rest.part;
        after = rest.after;
        splits = ap (◌∷◌ c) rest.splits;
        offset = omega (arith, rest.offset);
        again = λ r n. rw open_bracket (rest.again r n);
        advances = tt;
        clean = λ n. trim_end-append (c ∷ []) rest.part rest.advances (rest.clean rest.advances);
      }
  | inr other ↦ record {
    part = [];
    after = c ∷ s;
    splits = refl;
    offset = ground arith;
    again = λ r n. find_from-NoOpen r i n ∙ (rw other at h);
    advances = tt;
    clean = λ n. absurd (n refl);
  }
]
find_from-Ending (in_element q e) [] i j h = absurd (cc)
find_from-Ending (in_element q e) (c ∷ s) i j h =
    let rest = find_from-Ending (scan_step q e c) s (i + 1) j h in
    record {
      part = c ∷ rest.part;
      after = rest.after;
      splits = ap (◌∷◌ c) rest.splits;
      offset = omega (arith, rest.offset);
      again = λ r n. rest.again r n;
      advances = cons-ne-nil c rest.part;
      clean = λ n. clean-cons q e c rest.part (scan_step q e c) refl rest.advances rest.clean;
    }

-- The whole of `sd` is STRUCTURED-DATA: the nil value, or elements up to its end.
abbrev pub IsSdText : Bytes → Type 0
IsSdText sd =
    (sd ≡ codes "-")
    ⊎ ((t : Bytes) × (sd ≡ b'[' ∷ t) × (find_structured_data_end sd ≡ ok (length sd)))

length-zero : (s : Bytes) → length s ≡ 0 → s ≡ []
length-zero [] h = refl
length-zero (c ∷ s) h = absurd (omega arith)

whole_part : (sd : Bytes) (e : Ending between_elements sd 0 (length sd)) → Ending.part e ≡ sd
whole_part sd e =
    let none_left =
      length-zero e.after
        (omega (arith, e.offset, length-append e.part e.after, ap length e.splits)) in
    sym (e.splits ∙ ap (◌++◌ e.part) none_left ∙ append-nil e.part)

-- What follows the elements does not move their end.
pub find-append :
    (sd r : Bytes)
    → find_structured_data_end sd ≡ ok (length sd)
    → NoOpen r
    → find_structured_data_end (sd ++ r) ≡ ok (length sd)
unfolding find_structured_data_end
find-append sd r h n =
    let e = find_from-Ending between_elements sd 0 (length sd) h in
    subst (λ s. find_from between_elements (s ++ r) 0 ≡ ok (length sd)) (whole_part sd e)
      (e.again r n)

pub IsSdText-ne-nil : (sd : Bytes) → IsSdText sd → sd ≢ []
IsSdText-ne-nil sd (inl h) = rw h (cons-ne-nil _ _)
IsSdText-ne-nil sd (inr (t, h, _)) = rw h (cons-ne-nil _ _)

-- STRUCTURED-DATA ends in `-` or `]`, which no trimming takes away.
pub IsSdText-EndsClean : (sd : Bytes) → IsSdText sd → EndsClean sd
unfolding find_structured_data_end
IsSdText-EndsClean sd (inl h) = rw h (EndsClean-byte [] b'-' refl)
IsSdText-EndsClean sd (inr (t, h, found)) =
    let e = find_from-Ending between_elements sd 0 (length sd) found in
    subst EndsClean (whole_part sd e) (e.clean (rw (whole_part sd e) (rw h (cons-ne-nil _ _))))

-- The end that is found is inside the text, and the text before it is STRUCTURED-DATA.
pub found_sound :
    (t : Bytes) (n : ℕ)
    → find_structured_data_end (b'[' ∷ t) ≡ ok n
    → (sd after : Bytes) × (b'[' ∷ t ≡ sd ++ after) × (n ≡ length sd) × IsSdText sd
unfolding find_structured_data_end
found_sound t n h =
    let e = find_from-Ending (in_element false false) t 1 n h in
    let sd = b'[' ∷ e.part in
    let size : n ≡ length sd = omega (arith, e.offset) in
    let found : find_from between_elements sd 0 ≡ ok (length sd) =
      subst (λ s. find_from (in_element false false) s 1 ≡ ok (length sd)) (append-nil e.part)
        (e.again [] tt ∙ ap ok size) in
    (sd, e.after, ap (◌∷◌ b'[') e.splits, size, inr (e.part, refl, found))
