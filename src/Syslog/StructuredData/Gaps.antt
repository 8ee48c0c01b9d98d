-- ===== src/Syslog/StructuredData/Gaps.antt =====
-- What the content validation does with bytes behind a closed PARAM-VALUE that are neither SP nor
-- `]`: it takes the first of them for the `[` of a further element.
use logfence.Prelude.{
  ℕ, true, false, List, [], ◌∷◌, ◌++◌, ◌≡◌, ◌≢◌, refl, arith, Bytes, codes, bytes_eq, All, ok,
  panic, ap, ◌∙◌, inr, Outcome,
}
use logfence.Text.{slice, is_continuation}
use logfence.Syslog.Types.{ParseError}
use logfence.Syslog.StructuredData.Ends.{IsSdText}
use logfence.Syslog.StructuredData.Elements.{
  IsSdName, SdParam, render_params, IsSdParam, Ends, Ends-open, Ends-name, Ends-params, Ends-plain,
  Ends-step,
}
use logfence.Syslog.StructuredData.Content.{
  Comes, Comes-step, Comes-id, Comes-open, Comes-behind_id, Comes-close,
}
use logfence.Syslog.StructuredData.{
  between_elements, in_element, scan_step, find_from, find_structured_data_end, outer, sd_id,
  params, place_step, place_end, content_from, check_name, validate_structured_data_content,
}

-- One element with a parameter, and the bytes `junk` between its last value and its `]`.
abbrev pub element_with_junk : Bytes → SdParam → List SdParam → Bytes → Bytes
element_with_junk id p ps junk = b'[' ∷ (id ++ render_params (p ∷ ps) (junk ++ b']' ∷ []))

-- A byte that the scan for the end of the element passes over.
abbrev pub IsPlain : ℕ → Type 0
IsPlain c = (c ≢ b'"') × (c ≢ b'\\') × (c ≢ b']') × (c ≢ b' ')

Ends-junk : (junk : Bytes) → All IsPlain junk → Ends (in_element false false) (junk ++ b']' ∷ [])
Ends-junk [] h =
    Ends-step false false b']' between_elements [] (unfold scan_step in refl)
      (λ i. unfold find_from in ap ok (omega arith))
Ends-junk (c ∷ junk) (hc, hs) =
    Ends-plain false c (junk ++ b']' ∷ []) hc.0 hc.1 hc.2 (Ends-junk junk hs)

-- The scan for the end accepts such an element.
pub element_with_junk-IsSdText :
    (id : Bytes) (p : SdParam) (ps : List SdParam) (junk : Bytes)
    → IsSdName id
    → All IsSdParam (p ∷ ps)
    → All IsPlain junk
    → IsSdText (element_with_junk id p ps junk)
unfolding find_structured_data_end
element_with_junk-IsSdText id p ps junk hi hp hj = inr (
  _,
  refl,
  Ends-open _ (Ends-name id _ hi.2 (Ends-params (p ∷ ps) _ hp (Ends-junk junk hj))) 0
      ∙ ap ok (omega arith),
)

check_name-panics :
    (d : ℕ) (name field : Bytes) → is_continuation d ≡ true → check_name (d ∷ name) field ≡ panic
unfolding check_name slice
check_name-panics d name field h = rw h

-- An SD-ID that begins inside a character panics at its end, wherever that is.
sd_id-panics :
    (d : ℕ) (name s : Bytes) → is_continuation d ≡ true → content_from (sd_id (d ∷ name)) s ≡ panic
unfolding content_from place_step place_end
sd_id-panics d name [] h = check_name-panics d name (codes "SD-ID") h
sd_id-panics d name (c ∷ s) h =
    ground (arith, check_name-panics d name (codes "SD-ID") h, sd_id-panics d (name ++ c ∷ []) s h)

-- A byte behind a PARAM-VALUE is consumed as if it were the `[` of an element.
behind_value :
    (res : Outcome ParseError (Unit {0})) (id : Bytes) (p : SdParam) (ps : List SdParam) (c : ℕ)
    (r : Bytes)
    → IsSdName id
    → All IsSdParam (p ∷ ps)
    → IsPlain c
    → Comes res (sd_id []) r
    → Comes res outer (b'[' ∷ (id ++ render_params (p ∷ ps) (c ∷ r)))
behind_value res id p ps c r hi hp hc rest = Comes-open res id _ hi.2 (
    Comes-behind_id res id p ps (c ∷ r) hi hp
      (Comes-step res params (sd_id []) c r (unfold place_step in ground arith) rest))

-- A character above U+007F behind a PARAM-VALUE: its second byte is where the next slice begins,
-- and the validation panics.
pub validate-panics :
    (id : Bytes) (p : SdParam) (ps : List SdParam) (c d : ℕ) (junk : Bytes)
    → IsSdName id
    → All IsSdParam (p ∷ ps)
    → IsPlain c
    → is_continuation d ≡ true
    → validate_structured_data_content (element_with_junk id p ps (c ∷ d ∷ junk)) ≡ panic
unfolding validate_structured_data_content bytes_eq
validate-panics id p ps c d junk hi hp hc hd =
    behind_value panic id p ps c (d ∷ (junk ++ b']' ∷ [])) hi hp hc (
      Comes-step panic (sd_id []) (sd_id (d ∷ [])) d (junk ++ b']' ∷ [])
        (unfold place_step in ground arith) (sd_id-panics d [] (junk ++ b']' ∷ []) hd))

-- A byte that is no quote, backslash, bracket or SP, and a name behind it, are accepted between the
-- last PARAM-VALUE of an element and its `]`, where the grammar has nothing.
pub validate-junk :
    (id : Bytes) (p : SdParam) (ps : List SdParam) (c : ℕ) (name : Bytes)
    → IsSdName id
    → All IsSdParam (p ∷ ps)
    → IsPlain c
    → IsSdName name
    → validate_structured_data_content (element_with_junk id p ps (c ∷ name)) ≡ ok tt
unfolding validate_structured_data_content bytes_eq
validate-junk id p ps c name hi hp hc hn =
    behind_value (ok tt) id p ps c (name ++ b']' ∷ []) hi hp hc (
      Comes-id (ok tt) [] name (b']' ∷ []) hn.2
        (Comes-close (ok tt) name [] [] hn tt (unfold content_from place_end in refl)))
