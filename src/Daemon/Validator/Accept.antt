-- ===== src/Daemon/Validator/Accept.antt =====
-- What `validate` accepts.
use logfence.Prelude.{
  Bool, true, false, ◌++◌, ◌≡◌, ◌≢◌, ◌⊎◌, ◌↔◌, inl, inr, refl, sym, ap, ◌∙◌, arith, Option, none,
  some, Bytes, ok, >>=-eq-ok, map_err, of_result,
}
use logfence.Text.{strip_prefix, is_some}
use logfence.Text.Split.{strip_prefix_sound, strip_prefix-append}
use logfence.Syslog.Types.{SyslogMessage}
use logfence.Daemon.Config.{
  CeeCookieMode, never, optional, always, ValidationMode, strict, warn, off,
}
use logfence.Daemon.Json.{Value, is_object, JsonLibrary}
use logfence.Daemon.Validator.{
  cee_cookie, has_cookie, behind_cookie, json_part, verdict, Validator, schema_matches, validate,
  not_json,
}

-- A text does not begin with the cookie.
abbrev pub NoCookie : Bytes → Type 0
NoCookie s = (r : Bytes) → s ≢ cee_cookie ++ r

cookie_cases_at :
    (s : Bytes) (o : Option Bytes)
    → strip_prefix cee_cookie s ≡ o
    → ((is_some o ≡ true) × (s ≡ cee_cookie ++ behind_cookie s))
      ⊎ ((is_some o ≡ false) × NoCookie s)
cookie_cases_at s none h =
    inr (refl, λ r e. cc (h, ap (strip_prefix cee_cookie) e, strip_prefix-append cee_cookie r))
cookie_cases_at s (some r) h =
    let e = strip_prefix_sound cee_cookie s r h in
    inl (refl, e ∙ ap (λ t. cee_cookie ++ t) (sym (ap behind_cookie e)))

pub cookie_cases :
    (s : Bytes)
    → ((has_cookie s ≡ true) × (s ≡ cee_cookie ++ behind_cookie s))
      ⊎ ((has_cookie s ≡ false) × NoCookie s)
cookie_cases s = cookie_cases_at s _ refl

-- The text `json` is what a message `s` carries under an input mode.
abbrev pub Carries : CeeCookieMode → Bytes → Bytes → Type 0
Carries mode s json =
    ((mode ≢ always) × NoCookie s × (json ≡ s)) ⊎ ((mode ≢ never) × (s ≡ cee_cookie ++ json))

json_part_sound :
    (mode : CeeCookieMode) (s json : Bytes) → json_part mode s ≡ ok json → Carries mode s json
unfolding json_part
json_part_sound never s json h = elim (cookie_cases s) [
  | inl (present, e) ↦ absurd (ground arith)
  | inr (lacking, bare) ↦ inl (λ k. cc, bare, ground arith)
]
json_part_sound optional s json h = elim (cookie_cases s) [
  | inl (present, e) ↦
      let behind : behind_cookie s ≡ json = ground arith in
      inr (λ k. cc, e ∙ ap (λ t. cee_cookie ++ t) behind)
  | inr (lacking, bare) ↦ inl (λ k. cc, bare, ground arith)
]
json_part_sound always s json h = elim (cookie_cases s) [
  | inl (present, e) ↦
      let behind : behind_cookie s ≡ json = ground arith in
      inr (λ k. cc, e ∙ ap (λ t. cee_cookie ++ t) behind)
  | inr (lacking, bare) ↦ absurd (ground arith)
]

pub has_cookie-append : (s json : Bytes) → s ≡ cee_cookie ++ json → has_cookie s ≡ true
has_cookie-append s json e = rw e (rw (strip_prefix-append cee_cookie json))

pub has_cookie-none : (s : Bytes) → NoCookie s → has_cookie s ≡ false
has_cookie-none s h = elim (cookie_cases s) [
  | inl (present, e) ↦ absurd (h _ e)
  | inr (lacking, bare) ↦ lacking
]

json_part_complete :
    (mode : CeeCookieMode) (s json : Bytes) → Carries mode s json → json_part mode s ≡ ok json
unfolding json_part
json_part_complete never s json (inl (m, bare, e)) = rw (has_cookie-none s bare) (rw e)
json_part_complete optional s json (inl (m, bare, e)) = rw (has_cookie-none s bare) (rw e)
json_part_complete always s json (inl (m, bare, e)) = absurd (m refl)
json_part_complete never s json (inr (m, e)) = absurd (m refl)
json_part_complete optional s json (inr (m, e)) =
    rw (has_cookie-append s json e) (ap (λ t. ok (behind_cookie t)) e)
json_part_complete always s json (inr (m, e)) =
    rw (has_cookie-append s json e) (ap (λ t. ok (behind_cookie t)) e)

verdict_sound :
    (mode : ValidationMode) (b : Bool) → verdict mode b ≡ ok tt → mode ≡ strict → b ≡ true
verdict_sound strict true h m = refl
verdict_sound strict false h m = absurd (cc)
verdict_sound warn b h m = absurd (cc)
verdict_sound off b h m = absurd (cc)

verdict_complete :
    (mode : ValidationMode) (b : Bool) → (mode ≡ strict → b ≡ true) → verdict mode b ≡ ok tt
verdict_complete strict b h = rw (h refl)
verdict_complete warn b h = refl
verdict_complete off b h = refl

module _ (lib : JsonLibrary) where
  -- A message that a validator lets pass.
  pub record Accepted (v : Validator lib) (msg : SyslogMessage) : Type 0 where
    pub json : Bytes
    pub value : Value
    pub carries : Carries v.input_cee msg.msg json
    pub reads : lib.from_str json ≡ inr value
    pub object_value : is_object value ≡ true
    pub matches : v.mode ≡ strict → schema_matches lib v value ≡ true

  read_sound :
      (o : Bytes ⊎ Value) (value : Value)
      → map_err not_json (of_result o) ≡ ok value
      → o ≡ inr value
  read_sound (inr x) value h = cc
  read_sound (inl e) value h = absurd (cc)

  pub validate_sound :
      (v : Validator lib) (msg : SyslogMessage) → validate lib v msg ≡ ok tt → Accepted v msg
  unfolding validate
  validate_sound v msg h =
      let (json, part, h1) = >>=-eq-ok (json_part v.input_cee msg.msg) _ h in
      let (value, reads, h2) = >>=-eq-ok (map_err not_json (of_result (lib.from_str json))) _ h1 in
      let passed : (is_object value ≡ true)
          × (verdict v.mode (schema_matches lib v value) ≡ ok tt) =
        ground arith in
      record {
        json = json;
        value = value;
        carries = json_part_sound v.input_cee msg.msg json part;
        reads = read_sound (lib.from_str json) value reads;
        object_value = passed.0;
        matches = verdict_sound v.mode _ passed.1;
      }

  validate_complete :
      (v : Validator lib) (msg : SyslogMessage) → Accepted v msg → validate lib v msg ≡ ok tt
  unfolding validate
  validate_complete v msg a =
      rw (json_part_complete v.input_cee msg.msg a.json a.carries)
        (rw a.reads (rw a.object_value (verdict_complete v.mode _ a.matches)))

  -- `validate` accepts a message exactly if what it carries under the input mode (the text behind
  -- the cookie, which must or may be there, or all of a text without it) is read as a JSON object
  -- and, in strict mode, that object matches the schemas.
  pub validate_iff :
      (v : Validator lib) (msg : SyslogMessage) → (validate lib v msg ≡ ok tt) ↔ Accepted v msg
  validate_iff v msg = (validate_sound v msg, validate_complete v msg)
