-- ===== src/Client/Builder/Received.antt =====
-- A built message at the daemon: it is parsed as it was built, and the validator accepts it.
use logfence.Prelude.{Bool, true, false, [], ◌≡◌, ◌≢◌, inl, inr, refl, ◌⊎◌, Bytes, ok, codes}
use logfence.Text.Trim.{EndsClean, trim_end-append}
use logfence.Syslog.Types.{SyslogMessage}
use logfence.Syslog.Parse.{parse, display}
use logfence.Syslog.Parse.Grammar.{
  IsRfcTimestamp, IsRfcField, IsRfcHeader, IsRfcMessage, parse-display_rfc,
}
use logfence.Daemon.Config.{CeeCookieMode, never, always, strict}
use logfence.Daemon.Json.{Members, object, JsonLibrary}
use logfence.Daemon.Validator.{cee_cookie, Validator, schema_matches, validate}
use logfence.Daemon.Validator.Accept.{NoCookie, Carries, Accepted, validate_iff}
use logfence.Client.Builder.{MessageBuilder, body_text, build}

-- The header fields that were set are those of the grammar.
pub record IsRfcBuilder (b : MessageBuilder) : Type 0 where
  pub timestamp_rfc : IsRfcTimestamp b.timestamp
  pub hostname_rfc : IsRfcField 255 b.hostname
  pub app_name_rfc : IsRfcField 48 b.app_name
  pub proc_id_rfc : IsRfcField 128 b.proc_id
  pub msg_id_rfc : IsRfcField 32 b.msg_id

-- The input mode of a validator takes messages with the cookie, or without.
abbrev pub Takes : CeeCookieMode → Bool → Type 0
Takes mode true = mode ≢ never
Takes mode false = mode ≢ always

pub body_text-EndsClean :
    (c : Bool) (json : Bytes) → json ≢ [] → EndsClean json → EndsClean (body_text c json)
body_text-EndsClean true json ne clean = trim_end-append cee_cookie json ne clean
body_text-EndsClean false json ne clean = clean

pub body_text-Carries :
    (mode : CeeCookieMode) (c : Bool) (json : Bytes)
    → Takes mode c
    → NoCookie json
    → Carries mode (body_text c json) json
body_text-Carries mode true json h bare = inr (h, refl)
body_text-Carries mode false json h bare = inl (h, bare, refl)

-- If the header fields of a builder are those of the grammar and its fields print to a JSON text
-- `json` that ends in no LF, CR or NUL, then `build` returns a message that `parse` reads
-- back from its rendering; and a validator accepts that message if its library reads `json`
-- as an object that, in strict mode, matches the schemas, if its input mode takes messages as
-- they are built, with the cookie or without, and if `json` does not itself begin with one.
pub build-validate :
    (to_string : Members → Bytes ⊎ Bytes) (lib : JsonLibrary) (v : Validator lib)
    (b : MessageBuilder) (json : Bytes) (ms : Members)
    → to_string b.fields ≡ inr json
    → IsRfcBuilder b
    → json ≢ []
    → EndsClean json
    → NoCookie json
    → lib.from_str json ≡ inr (object ms)
    → (v.mode ≡ strict → schema_matches lib v (object ms) ≡ true)
    → Takes v.input_cee b.cee_cookie
    → (m : SyslogMessage) × (build to_string b ≡ ok m)
      × (parse (display m) ≡ ok m)
      × (validate lib v m ≡ ok tt)
unfolding build
build-validate to_string lib v b json ms printed r ne clean bare reads matches takes =
    let m : SyslogMessage = record {
      priority = record { facility = b.facility; severity = b.severity };
      timestamp = b.timestamp;
      hostname = b.hostname;
      app_name = b.app_name;
      proc_id = b.proc_id;
      msg_id = b.msg_id;
      structured_data = codes "-";
      msg = body_text b.cee_cookie json;
    } in
    let header : IsRfcHeader m = record {
      timestamp_rfc = r.timestamp_rfc;
      hostname_rfc = r.hostname_rfc;
      app_name_rfc = r.app_name_rfc;
      proc_id_rfc = r.proc_id_rfc;
      msg_id_rfc = r.msg_id_rfc;
      msg_clean = body_text-EndsClean b.cee_cookie json ne clean;
    } in
    let rfc : IsRfcMessage m = record { header = header; sd_rfc = inl refl } in
    let accepted : Accepted lib v m = record {
      json = json;
      value = object ms;
      carries = body_text-Carries v.input_cee b.cee_cookie json takes bare;
      reads = reads;
      object_value = refl;
      matches = matches;
    } in
    (m, rw printed, parse-display_rfc m rfc, (validate_iff lib v m).1 accepted)
