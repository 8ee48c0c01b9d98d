-- ===== src/Syslog/Parse/Grammar.antt =====
-- The messages of the grammar of RFC 5424: each is well formed, so its rendering is parsed back.
use logfence.Prelude.{
  ℕ, bytes_eq, [], ◌∷◌, ◌≡◌, ◌≢◌, ◌⊎◌, inl, inr, refl, sym, subst, arith, Option, none, some, Bytes,
  codes, All, All-append, All-imp, Lacks, ok, ◌>>=◌, ◌∙◌, List,
}
use logfence.Text.Decimal.{IsDigit}
use logfence.Text.Trim.{EndsClean}
use logfence.Syslog.Types.{SyslogMessage}
use logfence.Syslog.Field.{validate_printusascii_field}
use logfence.Syslog.Field.Grammar.{IsPrintUsAscii, IsPrintField, validate_printusascii_field_iff}
use logfence.Syslog.Timestamp.{validate_timestamp}
use logfence.Syslog.Timestamp.Grammar.{
  Zone, utc, offset, Timestamp, IsTimestamp, timestamp_text, pad2, pad4, fraction_text, zone_text,
  validate-timestamp_text,
}
use logfence.Syslog.StructuredData.{validate_structured_data_content}
use logfence.Syslog.StructuredData.Ends.{IsSdText}
use logfence.Syslog.StructuredData.Elements.{
  SdElement, IsSdElement, render_elements, render_elements-IsSdText,
}
use logfence.Syslog.StructuredData.Content.{validate-render_elements}
use logfence.Syslog.Parse.RoundTrip.{
  IsHeaderField, IsRenderable, IsWellFormed, parse-display_renderable, parse-display,
}
use logfence.Syslog.Parse.{parse, display, validate_fields, if_some}

-- The TIMESTAMP, and a header field of at most `max_len` characters. A nil value is `none`.
abbrev pub IsRfcTimestamp : Option Bytes → Type 0
IsRfcTimestamp none = Unit
IsRfcTimestamp (some s) = (t : Timestamp) × IsTimestamp t × (s ≡ timestamp_text t)

abbrev pub IsRfcField : ℕ → Option Bytes → Type 0
IsRfcField max_len none = Unit
IsRfcField max_len (some s) = IsPrintField max_len s × (s ≢ codes "-")

abbrev pub IsRfcStructuredData : Bytes → Type 0
IsRfcStructuredData sd =
    (sd ≡ codes "-")
    ⊎ ((e : SdElement) × (es : List SdElement) × All IsSdElement (e ∷ es)
        × (sd ≡ render_elements (e ∷ es)))

IsRfcField-IsHeaderField : (n : ℕ) (f : Option Bytes) → IsRfcField n f → IsHeaderField f
IsRfcField-IsHeaderField n none h = tt
IsRfcField-IsHeaderField n (some s) ((_, _, printable), not_nil) =
    (All-imp IsPrintUsAscii (λ c. c ≢ b' ') (λ c k. omega arith) s printable, not_nil)

IsRfcField-valid :
    (n : ℕ) (name : Bytes) (f : Option Bytes)
    → IsRfcField n f
    → if_some (λ s. validate_printusascii_field s name n) f ≡ ok tt
IsRfcField-valid n name none h = refl
IsRfcField-valid n name (some s) h = (validate_printusascii_field_iff s name n).1 h.0

zone_text-Lacks : (z : Zone) → Lacks b' ' (zone_text z)
zone_text-Lacks utc = omega arith
zone_text-Lacks (offset plus h m) = ground arith

fraction_text-Lacks :
    (cs rest : Bytes) → All IsDigit cs → Lacks b' ' rest → Lacks b' ' (fraction_text cs rest)
fraction_text-Lacks [] rest h k = k
fraction_text-Lacks (c ∷ cs) rest h k = (
  omega arith,
  All-append (λ x. x ≢ b' ') (c ∷ cs) rest
      (All-imp IsDigit (λ x. x ≢ b' ') (λ x d. omega arith) (c ∷ cs) h) k,
)

-- The nineteen bytes before the fraction.
abbrev date_time : Timestamp → Bytes
date_time t = pad4 t.year (
    b'-'
    ∷ pad2 t.month
        (b'-' ∷ pad2 t.day (b'T' ∷ pad2 t.hour (b':' ∷ pad2 t.minute (b':' ∷ pad2 t.second [])))))

timestamp_text-Lacks : (t : Timestamp) → IsTimestamp t → Lacks b' ' (timestamp_text t)
timestamp_text-Lacks t h =
    All-append (λ c. c ≢ b' ') (date_time t) (fraction_text t.fraction (zone_text t.zone))
      (omega arith)
      (fraction_text-Lacks t.fraction (zone_text t.zone) h.fraction_digits (zone_text-Lacks t.zone))

IsRfcTimestamp-IsHeaderField : (f : Option Bytes) → IsRfcTimestamp f → IsHeaderField f
IsRfcTimestamp-IsHeaderField none h = tt
IsRfcTimestamp-IsHeaderField (some s) (t, h, e) = rw e (timestamp_text-Lacks t h, λ k. cc)

IsRfcTimestamp-valid : (f : Option Bytes) → IsRfcTimestamp f → if_some validate_timestamp f ≡ ok tt
IsRfcTimestamp-valid none h = refl
IsRfcTimestamp-valid (some s) (t, h, e) = rw e (validate-timestamp_text t h)

IsRfcStructuredData-IsSdText : (sd : Bytes) → IsRfcStructuredData sd → IsSdText sd
IsRfcStructuredData-IsSdText sd (inl h) = inl h
IsRfcStructuredData-IsSdText sd (inr (e, es, h, k)) =
    subst IsSdText (sym k) (render_elements-IsSdText e es h)

IsRfcStructuredData-valid :
    (sd : Bytes) → IsRfcStructuredData sd → validate_structured_data_content sd ≡ ok tt
IsRfcStructuredData-valid sd (inl h) =
    rw h (unfold validate_structured_data_content bytes_eq in refl)
IsRfcStructuredData-valid sd (inr (e, es, h, k)) = rw k (validate-render_elements e es h)

-- The header of a message is that of the grammar, and its MSG survives the trimming.
pub record IsRfcHeader (m : SyslogMessage) : Type 0 where
  pub timestamp_rfc : IsRfcTimestamp m.timestamp
  pub hostname_rfc : IsRfcField 255 m.hostname
  pub app_name_rfc : IsRfcField 48 m.app_name
  pub proc_id_rfc : IsRfcField 128 m.proc_id
  pub msg_id_rfc : IsRfcField 32 m.msg_id
  pub msg_clean : EndsClean m.msg

pub record IsRfcMessage (m : SyslogMessage) : Type 0 where
  pub header : IsRfcHeader m
  pub sd_rfc : IsRfcStructuredData m.structured_data

IsRfcHeader-IsRenderable :
    (m : SyslogMessage) → IsRfcHeader m → IsSdText m.structured_data → IsRenderable m
IsRfcHeader-IsRenderable m r text = record {
  timestamp_field = IsRfcTimestamp-IsHeaderField m.timestamp r.timestamp_rfc;
  hostname_field = IsRfcField-IsHeaderField 255 m.hostname r.hostname_rfc;
  app_name_field = IsRfcField-IsHeaderField 48 m.app_name r.app_name_rfc;
  proc_id_field = IsRfcField-IsHeaderField 128 m.proc_id r.proc_id_rfc;
  msg_id_field = IsRfcField-IsHeaderField 32 m.msg_id r.msg_id_rfc;
  sd_text = text;
  msg_clean = r.msg_clean;
}

-- Under such a header the content validation is that of the STRUCTURED-DATA.
validate_fields-header :
    (m : SyslogMessage)
    → IsRfcHeader m
    → validate_fields m ≡ validate_structured_data_content m.structured_data
unfolding validate_fields
validate_fields-header m r = rw (IsRfcTimestamp-valid m.timestamp r.timestamp_rfc) (
    rw (IsRfcField-valid 255 (codes "HOSTNAME") m.hostname r.hostname_rfc) (
      rw (IsRfcField-valid 48 (codes "APP-NAME") m.app_name r.app_name_rfc) (
        rw (IsRfcField-valid 128 (codes "PROCID") m.proc_id r.proc_id_rfc)
          (rw (IsRfcField-valid 32 (codes "MSGID") m.msg_id r.msg_id_rfc)))))

-- Parsing a rendering under such a header is up to the validation of the STRUCTURED-DATA.
pub parse-display_header :
    (m : SyslogMessage)
    → IsRfcHeader m
    → IsSdText m.structured_data
    → parse (display m) ≡ (validate_structured_data_content m.structured_data >>= λ _. ok m)
parse-display_header m r text =
    rw (parse-display_renderable m (IsRfcHeader-IsRenderable m r text))
      (rw (validate_fields-header m r))

pub IsRfcMessage-IsWellFormed : (m : SyslogMessage) → IsRfcMessage m → IsWellFormed m
IsRfcMessage-IsWellFormed m r = record {
  renderable =
      IsRfcHeader-IsRenderable m r.header (IsRfcStructuredData-IsSdText m.structured_data r.sd_rfc);
  valid = validate_fields-header m r.header ∙ IsRfcStructuredData-valid m.structured_data r.sd_rfc;
}

-- A message whose header fields, TIMESTAMP and STRUCTURED-DATA are those of the grammar of RFC 5424
-- (the values of parameters escaped, no backslash in a name), and whose MSG has no trailing LF, CR
-- or NUL, is read back by `parse` from its rendering. Spaces at the end of MSG are kept.
pub parse-display_rfc : (m : SyslogMessage) → IsRfcMessage m → parse (display m) ≡ ok m
parse-display_rfc m r = parse-display m (IsRfcMessage-IsWellFormed m r)
