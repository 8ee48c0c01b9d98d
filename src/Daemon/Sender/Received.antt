-- ===== src/Daemon/Sender/Received.antt =====
-- What a receiver of the forwarded text makes of a rewritten message.
use logfence.Prelude.{
  ℕ, ◌<◌, ◌^◌, [], ◌∷◌, ◌++◌, ◌≡◌, ◌≢◌, inr, inl, refl, sym, ap, ◌∙◌, subst, arith, some, Bytes,
  codes, bytes_eq, bytes_eq_iff, Bool-cases, All, All-imp, append_assoc, append-nil, ok, ◌==◌,
  if◌then◌else◌,
}
use mathlib.Core.List.{cons-ne-nil}
use logfence.Text.{decimal}
use logfence.Text.Trim.{EndsClean, EndsClean-byte, trim_end-append}
use logfence.Text.Decimal.{IsDigit, decimal-IsDigit, length-decimal, decimal-ne-nil}
use logfence.Syslog.Types.{SyslogMessage, as_integer}
use logfence.Syslog.Field.Grammar.{IsPrintUsAscii}
use logfence.Syslog.StructuredData.Elements.{
  IsParamText, done, plain, escaped, SdElement, render_elements, IsSdElement,
}
use logfence.Syslog.Parse.{parse, display, display_msg, display_field, or_nil}
use logfence.Syslog.Parse.Grammar.{
  IsRfcTimestamp, IsRfcField, IsRfcStructuredData, IsRfcHeader, parse-display_rfc,
}
use logfence.Daemon.Sender.{
  is_escaped, escape_sd_param, src_element, element_of, new_sd, rewrite_sender,
}

-- The reader of a PARAM-VALUE: a backslash is dropped before the byte that it escapes.
unfoldable pub unescape : Bytes → Bytes
unescape [] = []
unescape (c ∷ []) = c ∷ []
unescape (c ∷ d ∷ s) =
    let behind = unescape s in
    let rest = unescape (d ∷ s) in if c == b'\\' then d ∷ behind else c ∷ rest

escape-IsParamText : (s : Bytes) → IsParamText (escape_sd_param s)
unfolding escape_sd_param
escape-IsParamText [] = done
escape-IsParamText (c ∷ s) = elim (Bool-cases (is_escaped c)) [
  | inl special ↦ rw special (escaped refl (escape-IsParamText s))
  | inr other ↦ rw other (plain (ground arith) (ground arith) (ground arith) (escape-IsParamText s))
]

unescape-plain : (c : ℕ) (s : Bytes) → c ≢ b'\\' → unescape (c ∷ s) ≡ c ∷ unescape s
unfolding unescape
unescape-plain c [] h = refl
unescape-plain c (d ∷ s) h = ground arith

unescape-escaped : (c : ℕ) (s : Bytes) → unescape (b'\\' ∷ c ∷ s) ≡ c ∷ unescape s
unfolding unescape
unescape-escaped c s = refl

unescape-escape : (s : Bytes) → unescape (escape_sd_param s) ≡ s
unfolding escape_sd_param
unescape-escape [] = unfold unescape in refl
unescape-escape (c ∷ s) = elim (Bool-cases (is_escaped c)) [
  | inl special ↦
      rw special (unescape-escaped c (escape_sd_param s) ∙ ap (λ t. c ∷ t) (unescape-escape s))
  | inr other ↦
      rw other
        (unescape-plain c (escape_sd_param s) (ground arith) ∙ ap (λ t. c ∷ t) (unescape-escape s))
]

-- An escaped value is a PARAM-VALUE, and dropping the escapes gives back what was escaped.
pub escape_sd_param_lem :
    (s : Bytes) → IsParamText (escape_sd_param s) × (unescape (escape_sd_param s) ≡ s)
escape_sd_param_lem s = (escape-IsParamText s, unescape-escape s)

-- The inserted element.
abbrev pub src : SyslogMessage → SdElement
src m = record {
  id = codes "logfence-src@65944";
  params =
      record { name = codes "hostname"; value = escape_sd_param (or_nil m.hostname) }
      ∷ record { name = codes "app"; value = escape_sd_param (or_nil m.app_name) }
      ∷ record { name = codes "pid"; value = escape_sd_param (or_nil m.proc_id) }
      ∷ [];
}

render-src : (m : SyslogMessage) → render_elements (src m ∷ []) ≡ element_of m
render-src m = refl

src-IsSdElement : (m : SyslogMessage) → IsSdElement (src m)
src-IsSdElement m = (
  (cons-ne-nil _ _, omega arith, omega arith),
  (
    ((cons-ne-nil _ _, omega arith, omega arith), escape-IsParamText _),
    (
      ((cons-ne-nil _ _, omega arith, omega arith), escape-IsParamText _),
      (((cons-ne-nil _ _, omega arith, omega arith), escape-IsParamText _), tt),
    ),
  ),
)

pub process_id-IsRfcField : (n : ℕ) → n < 2 ^ 32 → IsRfcField 128 (some (decimal n))
process_id-IsRfcField n h =
    let digits = decimal-IsDigit n in
    (
      (
        decimal-ne-nil n,
        omega (arith, length-decimal n (omega arith)),
        All-imp IsDigit IsPrintUsAscii (λ c d. omega arith) (decimal n) digits,
      ),
      λ e. absurd (let minus : IsDigit b'-' = (subst (All IsDigit) e digits).0 in omega arith),
    )

-- The header of a rewritten message, whatever its STRUCTURED-DATA and MSG.
rewritten-IsRfcHeader :
    (process_id : ℕ) (m : SyslogMessage) (host sd text : Bytes)
    → process_id < 2 ^ 32
    → IsRfcField 255 (some host)
    → IsRfcTimestamp m.timestamp
    → IsRfcField 32 m.msg_id
    → EndsClean text
    → IsRfcHeader (record (rewrite_sender process_id m host) { structured_data = sd; msg = text })
unfolding rewrite_sender
rewritten-IsRfcHeader process_id m host sd text small host_rfc time id clean = record {
  timestamp_rfc = time;
  hostname_rfc = host_rfc;
  app_name_rfc = ((cons-ne-nil _ _, omega arith, omega arith), λ k. cc);
  proc_id_rfc = process_id-IsRfcField process_id small;
  msg_id_rfc = id;
  msg_clean = clean;
}

-- A message without STRUCTURED-DATA, whose TIMESTAMP and MSGID are those of the grammar and whose
-- MSG has no trailing LF, CR or NUL, is read back from the forwarded text as it was rewritten, if
-- the local hostname is a HOSTNAME other than the nil value and the process id has 32 bits: the
-- STRUCTURED-DATA is then the one element with the three original names escaped.
pub parse-rewrite_sender_nil :
    (process_id : ℕ) (m : SyslogMessage) (host : Bytes)
    → process_id < 2 ^ 32
    → IsRfcField 255 (some host)
    → IsRfcTimestamp m.timestamp
    → IsRfcField 32 m.msg_id
    → EndsClean m.msg
    → m.structured_data ≡ codes "-"
    → (parse (display (rewrite_sender process_id m host)) ≡ ok (rewrite_sender process_id m host))
      × ((rewrite_sender process_id m host).structured_data ≡ render_elements (src m ∷ []))
unfolding rewrite_sender new_sd
parse-rewrite_sender_nil process_id m host small host_rfc time id clean no_sd =
    let element : new_sd m.structured_data (element_of m) ≡ element_of m =
      rw no_sd (unfold bytes_eq in refl) in
    (
      parse-display_rfc (rewrite_sender process_id m host) (record {
        header = rewritten-IsRfcHeader process_id m host _ m.msg small host_rfc time id clean;
        sd_rfc = inr (src m, [], (src-IsSdElement m, tt), element);
      }),
      element,
    )

display_msg-EndsClean : (s t : Bytes) → EndsClean s → EndsClean t → EndsClean (s ++ display_msg t)
display_msg-EndsClean s [] h k = subst EndsClean (sym (append-nil s)) h
display_msg-EndsClean s (c ∷ t) h k =
    trim_end-append s (b' ' ∷ c ∷ t) (cons-ne-nil _ _)
      (trim_end-append (b' ' ∷ []) (c ∷ t) (cons-ne-nil _ _) k)

src_element-EndsClean : (hostname app pid : Bytes) → EndsClean (src_element hostname app pid)
src_element-EndsClean hostname app pid =
    let start = codes "[logfence-src@65944 hostname=\"" in
    let body =
      start
      ++ (hostname ++ (codes "\" app=\"" ++ (app ++ (codes "\" pid=\"" ++ (pid ++ b'"' ∷ []))))) in
    let e : body ++ b']' ∷ [] ≡ src_element hostname app pid = simp append_assoc in
    subst EndsClean e (EndsClean-byte body b']' refl)

new_sd-append :
    (sd element rest : Bytes)
    → sd ≢ codes "-"
    → new_sd sd element ++ rest ≡ sd ++ b' ' ∷ (element ++ rest)
unfolding new_sd
new_sd-append sd element rest h = elim (Bool-cases (bytes_eq sd (codes "-"))) [
  | inl same ↦ absurd (h ((bytes_eq_iff sd (codes "-")).0 same))
  | inr other ↦ rw other (append_assoc sd (b' ' ∷ element) rest)
]

-- The space that `rewrite_sender` puts behind other STRUCTURED-DATA ends it for the receiver.
display-moved :
    (process_id : ℕ) (m : SyslogMessage) (host : Bytes)
    → m.structured_data ≢ codes "-"
    → display (rewrite_sender process_id m host)
      ≡ display (record (rewrite_sender process_id m host) {
        structured_data = m.structured_data;
        msg = element_of m ++ display_msg m.msg;
      })
unfolding display rewrite_sender
display-moved process_id m host some_sd =
    ap
      (λ tail.
        b'<'
        ∷ (decimal (as_integer m.priority)
            ++ b'>'
              ∷ b'1'
              ∷ b' '
              ∷ display_field m.timestamp (
                  display_field (some host) (
                    display_field (some (codes "logfenced"))
                      (display_field (some (decimal process_id)) (display_field m.msg_id tail))))))
      (new_sd-append m.structured_data (element_of m) (display_msg m.msg) some_sd)

-- A message with STRUCTURED-DATA of the grammar that is not the nil value, whose TIMESTAMP and
-- MSGID are those of the grammar, or nil, and whose MSG has no trailing LF, CR or NUL, does not
-- keep the inserted element in its STRUCTURED-DATA, if the local hostname is a HOSTNAME other than
-- the nil value and the process id has 32 bits: `parse` reads the forwarded text, with the
-- STRUCTURED-DATA as it came, the inserted element and then the old MSG as its MSG, and the other
-- fields as they were rewritten.
pub parse-rewrite_sender_moved :
    (process_id : ℕ) (m : SyslogMessage) (host : Bytes)
    → process_id < 2 ^ 32
    → IsRfcField 255 (some host)
    → IsRfcTimestamp m.timestamp
    → IsRfcField 32 m.msg_id
    → EndsClean m.msg
    → IsRfcStructuredData m.structured_data
    → m.structured_data ≢ codes "-"
    → parse (display (rewrite_sender process_id m host))
      ≡ ok (record (rewrite_sender process_id m host) {
        structured_data = m.structured_data;
        msg = element_of m ++ display_msg m.msg;
      })
parse-rewrite_sender_moved process_id m host small host_rfc time id clean sd_rfc some_sd =
    let text_clean : EndsClean (element_of m ++ display_msg m.msg) =
      display_msg-EndsClean (element_of m) m.msg (src_element-EndsClean _ _ _) clean in
    rw (display-moved process_id m host some_sd) (
      parse-display_rfc _ (record {
        header =
            rewritten-IsRfcHeader process_id m host m.structured_data _ small host_rfc time id
              text_clean;
        sd_rfc = sd_rfc;
      }))
