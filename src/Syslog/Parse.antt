-- ===== src/Syslog/Parse.antt =====
-- `SyslogMessage::parse`, its helpers, and the `Display` of a message.
pub mod RoundTrip
pub mod Sound
pub mod Grammar
pub mod Panics
use logfence.Prelude.{
  ℕ, ◌+◌, Bool, true, false, [], ◌∷◌, ◌++◌, Option, none, some, get_or, Bytes, codes, take, drop,
  bytes_eq, is_empty, if◌then◌else◌, Outcome, ok, err, ◌>>=◌, ◌>>◌, ok_or, reject_if, not,
}
use logfence.Text.{
  strip_byte, strip_prefix, starts_with, split_once, trim_end, from_str_radix, u8_max, decimal,
  slice,
}
use logfence.Syslog.Types.{
  ParseError, malformed_header, invalid_priority, Priority, priority_from_integer, as_integer,
  SyslogMessage,
}
use logfence.Syslog.Field.{validate_printusascii_field}
use logfence.Syslog.Timestamp.{validate_timestamp}
use logfence.Syslog.StructuredData.{find_structured_data_end, validate_structured_data_content}

unfoldable pub nil_to_option : Bytes → Option Bytes
nil_to_option s = if bytes_eq s (codes "-") then none else some s

unfoldable pub split_header_field : Bytes → Bytes → Outcome ParseError (Option Bytes × Bytes)
split_header_field s field_name = do
  (raw, rest) ← ok_or (split_once b' ' s) (malformed_header (codes "expected " ++ field_name))
  ok (nil_to_option raw, rest)

-- The optional MSG behind the STRUCTURED-DATA: `strip_prefix(' ').unwrap_or("")`.
abbrev pub msg_of : Bytes → Bytes
msg_of rest = get_or (strip_byte b' ' rest) []

abbrev sd_start : ParseError
sd_start = malformed_header (codes "STRUCTURED-DATA must start with '-' or '['")

-- The branch for `[SD-ID ...]` blocks. Both slices are at one offset, and panic if it is inside a
-- character.
unfoldable pub parse_elements_and_msg : Bytes → Outcome ParseError (Bytes × Bytes)
parse_elements_and_msg s = do
  sd_end ← find_structured_data_end s
  rest ← slice (drop sd_end s)
  ok (take sd_end s, msg_of rest)

unfoldable pub parse_structured_data_and_msg : Bytes → Outcome ParseError (Bytes × Bytes)
parse_structured_data_and_msg s = elim (strip_byte b'-' s) [
  | some rest ↦ ok (codes "-", msg_of rest)
  | none ↦ do reject_if (not (starts_with (codes "[") s)) sd_start; parse_elements_and_msg s
]

-- `if let Some(x) = field { validate(x)?; }`
abbrev pub if_some :
    (Bytes → Outcome ParseError (Unit {0})) → Option Bytes → Outcome ParseError (Unit {0})
if_some validate none = ok tt
if_some validate (some x) = validate x

-- The content and range validation at the end of `parse`.
unfoldable pub validate_fields : SyslogMessage → Outcome ParseError (Unit {0})
validate_fields m = do
  if_some validate_timestamp m.timestamp
  if_some (λ h. validate_printusascii_field h (codes "HOSTNAME") 255) m.hostname
  if_some (λ a. validate_printusascii_field a (codes "APP-NAME") 48) m.app_name
  if_some (λ p. validate_printusascii_field p (codes "PROCID") 128) m.proc_id
  if_some (λ i. validate_printusascii_field i (codes "MSGID") 32) m.msg_id
  validate_structured_data_content m.structured_data

-- The part of `parse` behind the PRI: VERSION and the header fields.
unfoldable pub parse_header :
    Bytes
    → Outcome ParseError
        (Option Bytes × Option Bytes × Option Bytes × Option Bytes × Option Bytes × Bytes)
parse_header s = do
  s ← ok_or (strip_prefix (codes "1 ") s) (malformed_header (codes "expected VERSION '1'"))
  (timestamp, s) ← split_header_field s (codes "TIMESTAMP")
  (hostname, s) ← split_header_field s (codes "HOSTNAME")
  (app_name, s) ← split_header_field s (codes "APP-NAME")
  (proc_id, s) ← split_header_field s (codes "PROCID")
  (msg_id, s) ← split_header_field s (codes "MSGID")
  ok (timestamp, hostname, app_name, proc_id, msg_id, s)

-- The part of `parse` that reads `<PRI>`.
unfoldable pub parse_pri : Bytes → Outcome ParseError (Priority × Bytes)
parse_pri s = do
  s ← ok_or (strip_byte b'<' s) (malformed_header (codes "expected '<' to start PRI"))
  (pri_str, s) ← ok_or (split_once b'>' s) (malformed_header (codes "expected '>' to close PRI"))
  pri_val ← ok_or (from_str_radix 10 u8_max pri_str) (invalid_priority pri_str)
  priority ← priority_from_integer pri_val
  ok (priority, s)

-- The part of `parse` behind the PRI, up to the content validation.
unfoldable pub parse_body : Priority → Bytes → Outcome ParseError SyslogMessage
parse_body priority s = do
  (timestamp, hostname, app_name, proc_id, msg_id, s) ← parse_header s
  (structured_data, msg) ← parse_structured_data_and_msg s
  ok (record {
    priority = priority;
    timestamp = timestamp;
    hostname = hostname;
    app_name = app_name;
    proc_id = proc_id;
    msg_id = msg_id;
    structured_data = structured_data;
    msg = msg;
  })

-- `SyslogMessage::parse`
unfoldable pub parse : Bytes → Outcome ParseError SyslogMessage
parse raw = do
  (priority, s) ← parse_pri (trim_end raw)
  m ← parse_body priority s
  validate_fields m
  ok m

-- `field.as_deref().unwrap_or("-")`
abbrev pub or_nil : Option Bytes → Bytes
or_nil field = get_or field (codes "-")

-- `if !self.msg.is_empty() { write!(f, " {}", self.msg)?; }`
abbrev pub display_msg : Bytes → Bytes
display_msg [] = []
display_msg (c ∷ msg) = b' ' ∷ c ∷ msg

-- The rendered fields, and what follows them.
abbrev pub display_field : Option Bytes → Bytes → Bytes
display_field field rest = or_nil field ++ b' ' ∷ rest

-- `SyslogMessage::fmt`: "<{}>1 {} {} {} {} {} {}" and the message.
unfoldable pub display : SyslogMessage → Bytes
display m =
    b'<'
    ∷ (decimal (as_integer m.priority)
        ++ b'>'
          ∷ b'1'
          ∷ b' '
          ∷ display_field m.timestamp (
              display_field m.hostname (
                display_field m.app_name (
                  display_field m.proc_id
                    (display_field m.msg_id (m.structured_data ++ display_msg m.msg))))))
