-- ===== src/Daemon/Validator/Forward.antt =====
-- What `prepare_for_forwarding` makes of a message that `validate` accepts.
use logfence.Prelude.{
  Bool, true, false, ◌++◌, ◌≡◌, inl, inr, refl, sym, ap, ◌∙◌, Option, none, some, get_or, Bytes,
  bytes_eq, bytes_eq_iff, Bool-cases,
}
use logfence.Syslog.Types.{SyslogMessage}
use logfence.Daemon.Config.{CeeCookieMode, never, optional, always}
use logfence.Daemon.Json.{Value, JsonLibrary}
use logfence.Daemon.Validator.Canonical.{sorted_value}
use logfence.Daemon.Validator.{
  cee_cookie, has_cookie, behind_cookie, new_msg, if_changed, with_msg, Validator,
  canonicalize_json, bare_part, canonical, prepare_for_forwarding,
}
use logfence.Daemon.Validator.Accept.{Carries, has_cookie-append, has_cookie-none, Accepted}

abbrev pub with_cookie : Bool → Bytes → Bytes
with_cookie true json = cee_cookie ++ json
with_cookie false json = json

-- The policy of `output_cee`, for a message that came with or without the cookie.
abbrev pub sends_cookie : CeeCookieMode → Bool → Bool
sends_cookie never came = false
sends_cookie optional came = came
sends_cookie always came = true

new_msg-text :
    (mode : CeeCookieMode) (came : Bool) (changed : Option Bytes) (s bare : Bytes)
    → s ≡ with_cookie came bare
    → get_or (new_msg mode came changed bare) s
      ≡ with_cookie (sends_cookie mode came) (get_or changed bare)
unfolding new_msg
new_msg-text never true none s bare e = refl
new_msg-text never false none s bare e = e
new_msg-text never true (some json) s bare e = refl
new_msg-text never false (some json) s bare e = refl
new_msg-text optional came none s bare e = e
new_msg-text optional true (some json) s bare e = refl
new_msg-text optional false (some json) s bare e = refl
new_msg-text always true none s bare e = e
new_msg-text always false none s bare e = refl
new_msg-text always true (some json) s bare e = refl
new_msg-text always false (some json) s bare e = refl

with_msg-get_or :
    (msg : SyslogMessage) (text : Option Bytes)
    → with_msg msg text ≡ record msg { msg = get_or text msg.msg }
with_msg-get_or msg none = refl
with_msg-get_or msg (some text) = refl

if_changed-get_or :
    (bare : Bytes) (o : Option Bytes) → get_or (if_changed bare o) bare ≡ get_or o bare
if_changed-get_or bare none = refl
if_changed-get_or bare (some json) = elim (Bool-cases (bytes_eq json bare)) [
  | inl same ↦ rw same (sym ((bytes_eq_iff json bare).0 same))
  | inr other ↦ rw other
]

Carries-came :
    (mode : CeeCookieMode) (s json : Bytes)
    → Carries mode s json
    → (s ≡ with_cookie (has_cookie s) json) × (bare_part s ≡ json)
Carries-came mode s json (inl (_, bare, e)) =
    (rw (has_cookie-none s bare) (sym e), rw (has_cookie-none s bare) (sym e))
Carries-came mode s json (inr (_, e)) =
    (rw (has_cookie-append s json e) e, rw (has_cookie-append s json e) (ap behind_cookie e))

module _ (lib : JsonLibrary) where
  -- The text that is sent for a value read from `json`: with `canonical_json`, the print of the
  -- value with its members sorted, where there is one.
  abbrev pub sent_json : Bool → Value → Bytes → Bytes
  sent_json false value json = json
  sent_json true value json = get_or (lib.to_string (sorted_value value)) json

  canonical-sent_json :
      (enabled : Bool) (value : Value) (json : Bytes)
      → lib.from_str json ≡ inr value
      → get_or (canonical lib enabled json) json ≡ sent_json enabled value json
  unfolding canonical canonicalize_json
  canonical-sent_json false value json h = refl
  canonical-sent_json true value json h =
      if_changed-get_or json (canonicalize_json lib json) ∙ (rw h)

  -- For an accepted message only MSG changes: it becomes the text carried, printed anew with sorted
  -- members under `canonical_json`, behind a cookie if `output_cee` is `Always`, or if it is
  -- `Optional` and the message came with one.
  pub prepare-Accepted :
      (v : Validator lib) (msg : SyslogMessage) (a : Accepted lib v msg)
      → prepare_for_forwarding lib v msg ≡ record msg {
        msg =
            with_cookie
              (sends_cookie v.output_cee (has_cookie msg.msg))
              (sent_json v.canonical_json a.value a.json);
      }
  unfolding prepare_for_forwarding
  prepare-Accepted v msg a =
      let (came, bare) = Carries-came v.input_cee msg.msg a.json a.carries in
      rw bare (
        with_msg-get_or msg _
        ∙ ap (λ t. record msg { msg = t })
            (new_msg-text v.output_cee (has_cookie msg.msg) (canonical lib v.canonical_json a.json)
                msg.msg a.json came
              ∙ ap (with_cookie (sends_cookie v.output_cee (has_cookie msg.msg)))
                  (canonical-sent_json v.canonical_json a.value a.json a.reads)))
