-- ===== src/Syslog/StructuredData/Content.antt =====
-- The content validation over the text of elements.
use logfence.Prelude.{
  ℕ, true, false, List, [], ◌∷◌, ◌++◌, ◌≡◌, refl, sym, subst, arith, Bytes, codes, length, All,
  Outcome, ok, append-nil, append_assoc, le→ltb, none, bytes_eq,
}
use logfence.Text.{slice}
use logfence.Syslog.Types.{ParseError}
use logfence.Syslog.Field.{first_outside}
use logfence.Syslog.StructuredData.Elements.{
  IsNameChar, IsSdName, IsParamText, done, plain, escaped, SdParam, SdElement, render_params,
  render_elements, IsSdParam, IsSdElement,
}
use logfence.Syslog.StructuredData.{
  is_name_char, validate_sd_name, Place, outer, sd_id, param, param_name, behind_equals,
  param_value, params, check_name, name_step, place_step, content_from, place_end,
  validate_structured_data_content,
}

first_outside-name : (n : Bytes) → All IsNameChar n → first_outside is_name_char n ≡ none
unfolding first_outside
first_outside-name [] h = refl
first_outside-name (c ∷ n) (hc, hn) = ground (arith, first_outside-name n hn)

validate_sd_name-IsSdName : (n field : Bytes) → IsSdName n → validate_sd_name n field ≡ ok tt
unfolding validate_sd_name
validate_sd_name-IsSdName [] field h = absurd (h.0 refl)
validate_sd_name-IsSdName (c ∷ n) field h =
    rw (le→ltb 32 (length (c ∷ n)) h.1, first_outside-name (c ∷ n) h.2)

pub check_name-IsSdName : (n field : Bytes) → IsSdName n → check_name n field ≡ ok tt
unfolding check_name slice
check_name-IsSdName [] field h = absurd (h.0 refl)
check_name-IsSdName (c ∷ n) field h = ground (arith, validate_sd_name-IsSdName (c ∷ n) field h)

module _ (res : Outcome ParseError (Unit {0})) where
  -- The content validation of `s` from `p` comes to `res`.
  abbrev pub Comes : Place → Bytes → Type 0
  Comes p s = content_from p s ≡ res

  pub Comes-step :
      (p q : Place) (c : ℕ) (s : Bytes) → place_step p c ≡ ok q → Comes q s → Comes p (c ∷ s)
  unfolding content_from
  Comes-step p q c s h rest = rw h rest

  pub Comes-id :
      (acc n s : Bytes) → All IsNameChar n → Comes (sd_id (acc ++ n)) s → Comes (sd_id acc) (n ++ s)
  Comes-id acc [] s h rest = subst (λ a. Comes (sd_id a) s) (append-nil acc) rest
  Comes-id acc (c ∷ n) s (hc, hn) rest =
      Comes-step (sd_id acc) (sd_id (acc ++ c ∷ [])) c (n ++ s) (unfold place_step in ground arith)
        (Comes-id (acc ++ c ∷ []) n s hn
          (subst (λ a. Comes (sd_id a) s) (sym (append_assoc acc (c ∷ []) n)) rest))

  Comes-param_name :
      (acc n s : Bytes)
      → All IsNameChar n
      → Comes (param_name (acc ++ n)) s
      → Comes (param_name acc) (n ++ s)
  Comes-param_name acc [] s h rest = subst (λ a. Comes (param_name a) s) (append-nil acc) rest
  Comes-param_name acc (c ∷ n) s (hc, hn) rest =
      Comes-step (param_name acc) (param_name (acc ++ c ∷ [])) c (n ++ s)
        (unfold place_step name_step in ground arith)
        (Comes-param_name (acc ++ c ∷ []) n s hn
          (subst (λ a. Comes (param_name a) s) (sym (append_assoc acc (c ∷ []) n)) rest))

  -- A PARAM-NAME behind its SP, with what follows it.
  Comes-param : (n s : Bytes) → IsSdName n → Comes (param_name n) s → Comes param (n ++ s)
  Comes-param [] s h rest = absurd (h.0 refl)
  Comes-param (c ∷ n) s h rest =
      Comes-step param (param_name (c ∷ [])) c (n ++ s)
        (unfold place_step name_step in let (hc, _) = h.2 in ground arith)
        (Comes-param_name (c ∷ []) n s h.2.1 rest)

  Comes-value :
      {v : Bytes} (r : Bytes)
      → IsParamText v
      → Comes (param_value false) r
      → Comes (param_value false) (v ++ r)
  Comes-value r done rest = rest
  Comes-value r (plain {c} {s} h k l t) rest =
      Comes-step (param_value false) (param_value false) c (s ++ r)
        (unfold place_step in ground arith) (Comes-value r t rest)
  Comes-value r (escaped {d} {c} {s} h t) rest =
      Comes-step (param_value false) (param_value true) d (c ∷ (s ++ r))
        (unfold place_step in ground arith)
        (Comes-step (param_value true) (param_value false) c (s ++ r) (unfold place_step in refl)
          (Comes-value r t rest))

  -- A parameter behind its SP, if what follows it passes.
  Comes-one :
      (p : SdParam) (r : Bytes)
      → IsSdParam p
      → Comes params r
      → Comes param (p.name ++ b'=' ∷ b'"' ∷ (p.value ++ b'"' ∷ r))
  Comes-one p r (hn, hv) rest = Comes-param p.name _ hn (
      Comes-step (param_name p.name) behind_equals b'=' _
        (unfold place_step name_step in rw (check_name-IsSdName p.name (codes "PARAM-NAME") hn))
        (Comes-step behind_equals (param_value false) b'"' _ (unfold place_step in refl) (
          Comes-value _ hv
            (Comes-step (param_value false) params b'"' r (unfold place_step in refl) rest))))

  Comes-params :
      (ps : List SdParam) (r : Bytes)
      → All IsSdParam ps
      → Comes params r
      → Comes params (render_params ps r)
  Comes-params [] r h rest = rest
  Comes-params (p ∷ ps) r (hp, hps) rest =
      Comes-step params param b' ' _ (unfold place_step in refl)
        (Comes-one p _ hp (Comes-params ps r hps rest))

  -- Behind an SD-ID: one parameter or more, and whatever follows them.
  pub Comes-behind_id :
      (n : Bytes) (p : SdParam) (ps : List SdParam) (r : Bytes)
      → IsSdName n
      → All IsSdParam (p ∷ ps)
      → Comes params r
      → Comes (sd_id n) (render_params (p ∷ ps) r)
  Comes-behind_id n p ps r hn (hp, hps) rest =
      Comes-step (sd_id n) param b' ' _
        (unfold place_step in rw (check_name-IsSdName n (codes "SD-ID") hn))
        (Comes-one p _ hp (Comes-params ps r hps rest))

  -- The parameters and the closing bracket behind an SD-ID.
  pub Comes-close :
      (n : Bytes) (ps : List SdParam) (r : Bytes)
      → IsSdName n
      → All IsSdParam ps
      → Comes outer r
      → Comes (sd_id n) (render_params ps (b']' ∷ r))
  Comes-close n [] r hn h rest =
      Comes-step (sd_id n) outer b']' r
        (unfold place_step in rw (check_name-IsSdName n (codes "SD-ID") hn)) rest
  Comes-close n (p ∷ ps) r hn h rest =
      Comes-behind_id n p ps (b']' ∷ r) hn h
        (Comes-step params outer b']' r (unfold place_step in refl) rest)

  -- The start of an element up to the end of its SD-ID.
  pub Comes-open :
      (n r : Bytes) → All IsNameChar n → Comes (sd_id n) r → Comes outer (b'[' ∷ (n ++ r))
  Comes-open n r h rest =
      Comes-step outer (sd_id []) b'[' (n ++ r) (unfold place_step in refl) (Comes-id [] n r h rest)

validate-elements :
    (es : List SdElement) → All IsSdElement es → Comes (ok tt) outer (render_elements es)
validate-elements [] h = unfold content_from place_end in refl
validate-elements (e ∷ es) ((hi, hp), hes) =
    Comes-open (ok tt) e.id _ hi.2
      (Comes-close (ok tt) e.id e.params (render_elements es) hi hp (validate-elements es hes))

-- The content validation accepts the text of one or more elements whose names are SD-NAMEs without
-- a backslash and whose values are escaped.
pub validate-render_elements :
    (e : SdElement) (es : List SdElement)
    → All IsSdElement (e ∷ es)
    → validate_structured_data_content (render_elements (e ∷ es)) ≡ ok tt
unfolding validate_structured_data_content bytes_eq
validate-render_elements e es h = validate-elements (e ∷ es) h
