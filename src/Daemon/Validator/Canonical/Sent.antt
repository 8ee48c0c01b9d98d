-- ===== src/Daemon/Validator/Canonical/Sent.antt =====
-- When two messages are sent with the same text under `canonical_json`.
use logfence.Prelude.{
  Bool, true, false, ◌≡◌, ◌↔◌, inr, sym, ap, ◌∙◌, some, get_or, Bytes, append-cancel,
}
use logfence.Syslog.Types.{SyslogMessage}
use logfence.Daemon.Json.{Value, JsonLibrary}
use logfence.Daemon.Validator.{cee_cookie, has_cookie, Validator, prepare_for_forwarding}
use logfence.Daemon.Validator.Accept.{Accepted}
use logfence.Daemon.Validator.Canonical.{sorted_value}
use logfence.Daemon.Validator.Canonical.Reordered.{Reordered}
use logfence.Daemon.Validator.Canonical.Exact.{HasKeysOnce, sorted_value_iff}
use logfence.Daemon.Validator.Forward.{with_cookie, sends_cookie, sent_json, prepare-Accepted}

with_cookie-cancel :
    (cookie : Bool) (s t : Bytes) → with_cookie cookie s ≡ with_cookie cookie t → s ≡ t
with_cookie-cancel true s t h = append-cancel cee_cookie s t h
with_cookie-cancel false s t h = h

module _ (lib : JsonLibrary) where
  -- serde_json prints the value, and reads its print as the value.
  pub record Prints (value : Value) : Type 0 where
    pub text : Bytes
    pub printed : lib.to_string value ≡ some text
    pub read : lib.from_str text ≡ inr value

  sent_text :
      (v : Validator lib) (msg : SyslogMessage) (a : Accepted lib v msg)
      (p : Prints (sorted_value a.value))
      → v.canonical_json ≡ true
      → (prepare_for_forwarding lib v msg).msg
        ≡ with_cookie (sends_cookie v.output_cee (has_cookie msg.msg)) p.text
  sent_text v msg a p on =
      let cookie = sends_cookie v.output_cee (has_cookie msg.msg) in
      ap (λ m. m.msg) (prepare-Accepted lib v msg a)
      ∙ ap (λ enabled. with_cookie cookie (sent_json lib enabled a.value a.json)) on
      ∙ ap (λ o. with_cookie cookie (get_or o a.json)) p.printed

  -- Under `canonical_json`, of two accepted messages that are both sent with the cookie or both
  -- without it: the same MSG is sent exactly if the objects they carry differ only in the order of
  -- the members of objects, at any depth. This is for objects with each key once, and a print of
  -- serde_json that it reads back.
  pub prepare_iff :
      (v : Validator lib) (msg other : SyslogMessage) (a : Accepted lib v msg)
      (b : Accepted lib v other)
      → v.canonical_json ≡ true
      → sends_cookie v.output_cee (has_cookie msg.msg)
        ≡ sends_cookie v.output_cee (has_cookie other.msg)
      → Prints (sorted_value a.value)
      → Prints (sorted_value b.value)
      → HasKeysOnce a.value
      → HasKeysOnce b.value
      → ((prepare_for_forwarding lib v msg).msg ≡ (prepare_for_forwarding lib v other).msg)
        ↔ Reordered a.value b.value
  prepare_iff v msg other a b on cookies p q ha hb =
      let sent = sent_text v msg a p on in
      let sent_other = sent_text v other b q on in
      let cookie = sends_cookie v.output_cee (has_cookie other.msg) in
      (
        λ e.
            let texts : p.text ≡ q.text =
              with_cookie-cancel cookie p.text q.text
                (ap (λ c. with_cookie c p.text) (sym cookies) ∙ sym sent ∙ e ∙ sent_other) in
            (sorted_value_iff a.value b.value ha hb).0 (cc (p.read, q.read, texts)),
        λ r.
            let same = (sorted_value_iff a.value b.value ha hb).1 r in
            let texts : p.text ≡ q.text = cc (p.printed, q.printed, same) in
            sent
            ∙ ap (λ c. with_cookie c p.text) cookies
            ∙ ap (with_cookie cookie) texts
            ∙ sym sent_other,
      )
