-- ===== src/Daemon/Validator.antt =====
-- crates/logfence-daemon/src/validator.rs: `Validator`. Logging is left out, and so are the shared
-- references: `prepare_for_forwarding` returns the message that the `Cow` holds.
pub mod Canonical
pub mod Accept
pub mod Forward
use logfence.Prelude.{
  Bool, true, false, ◌&&◌, not, List, [], ◌∷◌, ◌++◌, Option, none, some, Bytes, codes, drop,
  is_empty, bytes_eq, if◌then◌else◌, Outcome, ok, err, panic, ◌>>=◌, ◌>>◌, reject_if, map_err,
  and_then, of_result, ◌⊎◌, inl, inr,
}
use logfence.Text.{starts_with, is_some}
use logfence.Syslog.Types.{SyslogMessage}
use logfence.Daemon.Config.{
  CeeCookieMode, never, optional, always, ValidationMode, strict, warn, off,
}
use logfence.Daemon.Json.{
  Value, null, bool, number, string, array, object, get, as_str, is_object, JsonLibrary,
}
use logfence.Daemon.Validator.Canonical.{sorted_value}

abbrev pub cee_cookie : Bytes
cee_cookie = codes "@cee:"

pub data ValidationError : Type 0 where
  -- the message of serde_json's error
  not_json : Bytes → ValidationError
  not_object : Bytes → ValidationError
  schema_rejected : ValidationError
  unexpected_cee_cookie : ValidationError
  missing_cee_cookie : ValidationError

-- The `#[error]` texts.
abbrev pub validation_error_text : ValidationError → Bytes
validation_error_text (not_json e) = codes "message is not valid JSON: " ++ e
validation_error_text (not_object kind) = codes "message must be a JSON object, got " ++ kind
validation_error_text schema_rejected = codes "message does not match any configured schema"
validation_error_text unexpected_cee_cookie =
    codes "message has CEE cookie but input_cee = \"never\""
validation_error_text missing_cee_cookie = codes "message is missing required CEE cookie (@cee:)"

abbrev pub json_kind : Value → Bytes
json_kind null = codes "null"
json_kind (bool b) = codes "boolean"
json_kind (number n) = codes "number"
json_kind (string s) = codes "string"
json_kind (array vs) = codes "array"
json_kind (object ms) = codes "object"

abbrev pub has_cookie : Bytes → Bool
has_cookie s = starts_with cee_cookie s

-- `&s[CEE_COOKIE.len()..]`, behind the cookie.
abbrev pub behind_cookie : Bytes → Bytes
behind_cookie s = drop 5 s

-- `bare_json`
abbrev pub bare_part : Bytes → Bytes
bare_part s = if has_cookie s then behind_cookie s else s

-- The text that `validate` reads as JSON.
unfoldable pub json_part : CeeCookieMode → Bytes → Outcome ValidationError Bytes
json_part never s = if has_cookie s then err unexpected_cee_cookie else ok s
json_part optional s = if has_cookie s then ok (behind_cookie s) else ok s
json_part always s = if not (has_cookie s) then err missing_cee_cookie else ok (behind_cookie s)

-- What `validate` makes of `schema_matches`; the mode `off` returns before that.
abbrev pub verdict : ValidationMode → Bool → Outcome ValidationError (Unit {0})
verdict off matches = ok tt
verdict warn matches = ok tt
verdict strict true = ok tt
verdict strict false = err schema_rejected

-- The text of a message for forwarding, if it changes.
unfoldable pub new_msg : CeeCookieMode → Bool → Option Bytes → Bytes → Option Bytes
new_msg never false none bare_json = none
new_msg never true none bare_json = some bare_json
new_msg never cookie (some json) bare_json = some json
new_msg optional cookie none bare_json = none
new_msg optional cookie (some json) bare_json = some (if cookie then cee_cookie ++ json else json)
new_msg always true none bare_json = none
new_msg always false none bare_json = some (cee_cookie ++ bare_json)
new_msg always cookie (some json) bare_json = some (cee_cookie ++ json)

-- `filter(|s| s.as_str() != bare_json)`
abbrev pub if_changed : Bytes → Option Bytes → Option Bytes
if_changed bare_json none = none
if_changed bare_json (some json) = if bytes_eq json bare_json then none else some json

abbrev pub with_msg : SyslogMessage → Option Bytes → SyslogMessage
with_msg msg none = msg
with_msg msg (some text) = record msg { msg = text }

-- `Result::ok`
abbrev pub ok_value {ℓ} : {A : Type ℓ} → Bytes ⊎ A → Option A
ok_value (inr v) = some v
ok_value (inl e) = none

module _ (lib : JsonLibrary) where
  -- The keyed schemas are an association list with the map's keys, each once.
  pub record DiscriminatorMap : Type 0 where
    pub field : Bytes
    pub map : List (Bytes × lib.Schema)

  pub record Validator : Type 0 where
    pub mode : ValidationMode
    pub schemas : List lib.Schema
    pub discriminator : Option DiscriminatorMap
    pub input_cee : CeeCookieMode
    pub output_cee : CeeCookieMode
    pub canonical_json : Bool

  -- `Validator::new`
  abbrev pub new_validator : ValidationMode → List lib.Schema → Validator
  new_validator mode schemas = record {
    mode = mode;
    schemas = schemas;
    discriminator = none;
    input_cee = never;
    output_cee = never;
    canonical_json = false;
  }

  abbrev pub with_canonical_json : Validator → Bool → Validator
  with_canonical_json v enabled = record v { canonical_json = enabled }

  abbrev pub with_input_cee : Validator → CeeCookieMode → Validator
  with_input_cee v mode = record v { input_cee = mode }

  abbrev pub with_output_cee : Validator → CeeCookieMode → Validator
  with_output_cee v mode = record v { output_cee = mode }

  -- `iter().any(|s| s.is_valid(value))`
  unfoldable pub any_valid : List lib.Schema → Value → Bool
  any_valid [] value = false
  any_valid (s ∷ ss) value =
      let later = any_valid ss value in if lib.is_valid s value then true else later

  unfoldable pub schema_for : Bytes → List (Bytes × lib.Schema) → Option lib.Schema
  schema_for key [] = none
  schema_for key ((k, s) ∷ rest) =
      let later = schema_for key rest in if bytes_eq k key then some s else later

  -- The value of the discriminator, and the schema under it.
  unfoldable pub discriminated : Option DiscriminatorMap → Value → Option lib.Schema
  discriminated none value = none
  discriminated (some disc) value =
      and_then (and_then (get disc.field value) as_str) (λ disc_val. schema_for disc_val disc.map)

  abbrev pub matches_any : List lib.Schema → Value → Bool
  matches_any [] value = true
  matches_any (s ∷ ss) value = any_valid (s ∷ ss) value

  unfoldable pub schema_matches : Validator → Value → Bool
  schema_matches v value = elim (discriminated v.discriminator value) [
    | some schema ↦ lib.is_valid schema value
    | none ↦ matches_any v.schemas value
  ]

  unfoldable pub validate : Validator → SyslogMessage → Outcome ValidationError (Unit {0})
  validate v msg = do
    json_str ← json_part v.input_cee msg.msg
    value ← map_err not_json (of_result (lib.from_str json_str))
    reject_if (not (is_object value)) (not_object (json_kind value))
    verdict v.mode (schema_matches v value)

  unfoldable pub canonicalize_json : Bytes → Option Bytes
  canonicalize_json json_str =
      and_then (ok_value (lib.from_str json_str)) (λ value. lib.to_string (sorted_value value))

  -- `canonical`
  unfoldable pub canonical : Bool → Bytes → Option Bytes
  canonical false bare_json = none
  canonical true bare_json = if_changed bare_json (canonicalize_json bare_json)

  unfoldable pub prepare_for_forwarding : Validator → SyslogMessage → SyslogMessage
  prepare_for_forwarding v msg =
      let bare_json = bare_part msg.msg in
      with_msg msg
        (new_msg v.output_cee (has_cookie msg.msg) (canonical v.canonical_json bare_json) bare_json)

  abbrev pub prepend_schema : lib.Schema → Bytes ⊎ List lib.Schema → Bytes ⊎ List lib.Schema
  prepend_schema s (inl e) = inl e
  prepend_schema s (inr ss) = inr (s ∷ ss)

  -- `collect::<Result<Vec<_>, _>>()` of the compiled documents: the first error is the result.
  unfoldable pub compile_all : List Value → Bytes ⊎ List lib.Schema
  compile_all [] = inr []
  compile_all (doc ∷ docs) =
      let rest = compile_all docs in
      elim (lib.validator_for doc) [ inl e ↦ inl e | inr s ↦ prepend_schema s rest ]

  unfoldable pub from_values : ValidationMode → List Value → Bytes ⊎ Validator
  from_values mode docs = elim (compile_all docs) [
    | inl e ↦ inl e
    | inr schemas ↦ inr (new_validator mode schemas)
  ]

  abbrev pub prepend_keyed :
      Bytes × lib.Schema → Bytes ⊎ List (Bytes × lib.Schema) → Bytes ⊎ List (Bytes × lib.Schema)
  prepend_keyed s (inl e) = inl e
  prepend_keyed s (inr ss) = inr (s ∷ ss)

  abbrev pub invalid_discriminator : Bytes → Bytes → Bytes
  invalid_discriminator key e =
      codes "invalid discriminator schema for '" ++ (key ++ (codes "': " ++ e))

  -- `collect::<Result<HashMap<_, _>, _>>()` of the compiled documents, in the order of the
  -- iteration.
  unfoldable pub compile_map : List (Bytes × Value) → Bytes ⊎ List (Bytes × lib.Schema)
  compile_map [] = inr []
  compile_map ((key, doc) ∷ docs) =
      let rest = compile_map docs in
      elim (lib.validator_for doc) [
        | inl e ↦ inl (invalid_discriminator key e)
        | inr s ↦ prepend_keyed (key, s) rest
      ]

  unfoldable pub with_discriminator_docs :
      Validator → Bytes → List (Bytes × Value) → Bytes ⊎ Validator
  with_discriminator_docs v field docs = elim (compile_map docs) [
    | inl e ↦ inl e
    | inr map ↦ inr (record v { discriminator = some (record { field = field; map = map }) })
  ]
