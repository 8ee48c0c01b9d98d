-- ===== src/Syslog/StructuredData/Elements.antt =====
-- STRUCTURED-DATA as a list of elements, and the scan for its end over their text.
use logfence.Prelude.{
  ℕ, suc, ◌+◌, ◌≤◌, Bool, true, false, not, List, [], ◌∷◌, ◌++◌, ◌≡◌, ◌≢◌, refl, sym, ap, ◌∙◌,
  subst, arith, Bytes, length, All, ok, inr,
}
use logfence.Syslog.StructuredData.Ends.{IsSdText}
use logfence.Syslog.StructuredData.{
  ScanPlace, between_elements, in_element, scan_step, find_from, find_structured_data_end,
}

-- A character of an SD-NAME of RFC 5424, less the backslash: printable ASCII but `=`, `]`, `"`.
abbrev pub IsNameChar : ℕ → Type 0
IsNameChar c = (33 ≤ c) × (c ≤ 126) × (c ≢ b'=') × (c ≢ b']') × (c ≢ b'"') × (c ≢ b'\\')

abbrev pub IsSdName : Bytes → Type 0
IsSdName s = (s ≢ []) × (length s ≤ 32) × All IsNameChar s

-- The text of a PARAM-VALUE: `"`, `\` and `]` stand behind a backslash.
pub data IsParamText : Bytes → Type 0 where
  done : IsParamText []
  plain :
      {c : ℕ} {s : Bytes} → c ≢ b'"' → c ≢ b'\\' → c ≢ b']' → IsParamText s → IsParamText (c ∷ s)
  escaped : {d c : ℕ} {s : Bytes} → d ≡ b'\\' → IsParamText s → IsParamText (d ∷ c ∷ s)

pub record SdParam : Type 0 where
  pub name : Bytes
  pub value : Bytes

pub record SdElement : Type 0 where
  pub id : Bytes
  pub params : List SdParam

-- The text of the parts, each with the text behind it.
abbrev pub render_params : List SdParam → Bytes → Bytes
render_params [] rest = rest
render_params (p ∷ ps) rest =
    b' ' ∷ (p.name ++ b'=' ∷ b'"' ∷ (p.value ++ b'"' ∷ render_params ps rest))

abbrev pub render_elements : List SdElement → Bytes
render_elements [] = []
render_elements (e ∷ es) = b'[' ∷ (e.id ++ render_params e.params (b']' ∷ render_elements es))

abbrev pub IsSdParam : SdParam → Type 0
IsSdParam p = IsSdName p.name × IsParamText p.value

abbrev pub IsSdElement : SdElement → Type 0
IsSdElement e = IsSdName e.id × All IsSdParam e.params

-- The scan for the end of the elements runs to the end of `s`.
abbrev pub Ends : ScanPlace → Bytes → Type 0
Ends p s = (i : ℕ) → find_from p s i ≡ ok (i + length s)

pub Ends-step :
    (q e : Bool) (c : ℕ) (p : ScanPlace) (s : Bytes)
    → scan_step q e c ≡ p
    → Ends p s
    → Ends (in_element q e) (c ∷ s)
unfolding find_from
Ends-step q e c p s step h i =
    subst (λ x. find_from x s (i + 1) ≡ ok (i + suc (length s))) (sym step)
      (h (i + 1) ∙ ap ok (omega arith))

pub Ends-open : (s : Bytes) → Ends (in_element false false) s → Ends between_elements (b'[' ∷ s)
unfolding find_from
Ends-open s h i = h (i + 1) ∙ ap ok (omega arith)

scan_step-plain :
    (q : Bool) (c : ℕ) → c ≢ b'"' → c ≢ b'\\' → c ≢ b']' → scan_step q false c ≡ in_element q false
unfolding scan_step
scan_step-plain q c h k l = ground arith

pub Ends-plain :
    (q : Bool) (c : ℕ) (s : Bytes)
    → c ≢ b'"'
    → c ≢ b'\\'
    → c ≢ b']'
    → Ends (in_element q false) s
    → Ends (in_element q false) (c ∷ s)
Ends-plain q c s h k l = Ends-step q false c (in_element q false) s (scan_step-plain q c h k l)

scan_step-escape : (q : Bool) (c : ℕ) → c ≡ b'\\' → scan_step q false c ≡ in_element q true
unfolding scan_step
scan_step-escape q c h = ground arith

Ends-quote :
    (q : Bool) (s : Bytes)
    → Ends (in_element (not q) false) s
    → Ends (in_element q false) (b'"' ∷ s)
Ends-quote q s = Ends-step q false b'"' (in_element (not q) false) s (unfold scan_step in refl)

pub Ends-name :
    (n s : Bytes)
    → All IsNameChar n
    → Ends (in_element false false) s
    → Ends (in_element false false) (n ++ s)
Ends-name [] s h rest = rest
Ends-name (c ∷ n) s (hc, hn) rest =
    Ends-plain false c (n ++ s) hc.4 hc.5 hc.3 (Ends-name n s hn rest)

Ends-value :
    {v : Bytes} (s : Bytes)
    → IsParamText v
    → Ends (in_element true false) s
    → Ends (in_element true false) (v ++ s)
Ends-value r done rest = rest
Ends-value r (plain {c} {s} h k l t) rest = Ends-plain true c (s ++ r) h k l (Ends-value r t rest)
Ends-value r (escaped {d} {c} {s} h t) rest =
    Ends-step true false d (in_element true true) (c ∷ (s ++ r)) (scan_step-escape true d h) (
      Ends-step true true c (in_element true false) (s ++ r) (unfold scan_step in refl)
        (Ends-value r t rest))

pub Ends-params :
    (ps : List SdParam) (s : Bytes)
    → All IsSdParam ps
    → Ends (in_element false false) s
    → Ends (in_element false false) (render_params ps s)
Ends-params [] s h rest = rest
Ends-params (p ∷ ps) s ((hp, hv), hps) rest =
    let behind = Ends-quote true _ (Ends-params ps s hps rest) in
    let value = Ends-quote false _ (Ends-value _ hv behind) in
    let equals = Ends-plain false b'=' _ (omega arith) (omega arith) (omega arith) value in
    Ends-plain false b' ' _ (omega arith) (omega arith) (omega arith)
      (Ends-name p.name _ hp.2 equals)

Ends-elements :
    (es : List SdElement) → All IsSdElement es → Ends between_elements (render_elements es)
Ends-elements [] h = λ i. unfold find_from in ap ok (omega arith)
Ends-elements (e ∷ es) ((hi, hp), hes) =
    let close =
      Ends-step false false b']' between_elements (render_elements es) (unfold scan_step in refl)
        (Ends-elements es hes) in
    Ends-open _ (Ends-name e.id _ hi.2 (Ends-params e.params _ hp close))

-- The text of one or more elements is STRUCTURED-DATA up to its end.
pub render_elements-IsSdText :
    (e : SdElement) (es : List SdElement)
    → All IsSdElement (e ∷ es)
    → IsSdText (render_elements (e ∷ es))
unfolding find_structured_data_end
render_elements-IsSdText e es h = inr (_, refl, Ends-elements (e ∷ es) h 0 ∙ ap ok (omega arith))
