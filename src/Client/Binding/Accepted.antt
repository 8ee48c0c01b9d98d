-- ===== src/Client/Binding/Accepted.antt =====
-- A message of the C library at the daemon.
use logfence.Prelude.{
  ℕ, ◌<◌, ◌^◌, ◌≡◌, ◌≢◌, Bool, true, false, [], ◌++◌, Option, none, some, get_or, Bytes, codes,
  if◌then◌else◌, inl, inr, refl, sym, subst, ok,
}
use logfence.Text.{decimal}
use logfence.Text.Trim.{EndsClean}
use logfence.Syslog.Types.{Facility, Severity}
use logfence.Syslog.Parse.{parse, display}
use logfence.Syslog.Parse.Grammar.{
  IsRfcTimestamp, IsRfcField, IsRfcHeader, IsRfcMessage, parse-display_rfc,
}
use logfence.Daemon.Config.{strict}
use logfence.Daemon.Json.{Members, object, JsonLibrary}
use logfence.Daemon.Validator.{Validator, schema_matches, validate}
use logfence.Daemon.Validator.Accept.{NoCookie, Carries, Accepted, validate_iff}
use logfence.Daemon.Sender.Received.{process_id-IsRfcField}
use logfence.Client.Builder.{body_text}
use logfence.Client.Builder.Received.{Takes, body_text-EndsClean, body_text-Carries}
use logfence.Client.Calendar.{epoch_secs_to_rfc3339}
use logfence.Client.Calendar.Text.{moment, moment-IsTimestamp, epoch_secs_to_rfc3339_lem}
use logfence.Client.Binding.{LfMsgAttr, Fields, fields_of, Process, build_msg}

-- The attributes that are set are fields of the grammar.
pub record IsRfcFields (f : Fields) : Type 0 where
  pub timestamp_rfc : IsRfcTimestamp f.ts_override
  pub hostname_rfc : IsRfcField 255 f.hostname
  pub app_name_rfc : IsRfcField 48 f.app_name
  pub proc_id_rfc : IsRfcField 128 f.proc_id_override
  pub msg_id_rfc : IsRfcField 32 f.msg_id

now-IsRfcTimestamp :
    (now : ℕ) (o : Option Bytes)
    → now < 253402300800
    → IsRfcTimestamp o
    → IsRfcTimestamp (some (get_or o (epoch_secs_to_rfc3339 now)))
now-IsRfcTimestamp now none h k =
    (moment now, moment-IsTimestamp now h, (epoch_secs_to_rfc3339_lem now h).0)
now-IsRfcTimestamp now (some s) h k = k

pid-IsRfcField :
    (pid : ℕ) (o : Option Bytes)
    → pid < 2 ^ 32
    → IsRfcField 128 o
    → IsRfcField 128 (some (get_or o (decimal pid)))
pid-IsRfcField pid none h k = process_id-IsRfcField pid h
pid-IsRfcField pid (some s) h k = k

cee_text :
    (c : Bool) (body : Bytes) → (if c then codes "@cee:" ++ body else body) ≡ body_text c body
cee_text true body = refl
cee_text false body = refl

-- If the attributes that are set are fields of the grammar, the clock is before the year 10000, the
-- process id is a 32-bit number, and the body is a JSON text of an object that ends in no LF, CR or
-- NUL and does not begin with the cookie, then the message that the C library makes is parsed
-- back from its rendering; and a validator accepts it if, in strict mode, the object matches
-- the schemas, and if its input mode takes messages as this one is made, with the cookie or
-- without.
pub build_msg-validate :
    (process : Process) (lib : JsonLibrary) (v : Validator lib) (fac : Facility) (sev : Severity)
    (attr : Option LfMsgAttr) (body : Bytes) (ms : Members)
    → IsRfcFields (fields_of attr)
    → process.now < 253402300800
    → process.id < 2 ^ 32
    → body ≢ []
    → EndsClean body
    → NoCookie body
    → lib.from_str body ≡ inr (object ms)
    → (v.mode ≡ strict → schema_matches lib v (object ms) ≡ true)
    → Takes v.input_cee (fields_of attr).cee
    → (parse (display (build_msg process fac sev attr body))
        ≡ ok (build_msg process fac sev attr body))
      × (validate lib v (build_msg process fac sev attr body) ≡ ok tt)
unfolding build_msg
build_msg-validate process lib v fac sev attr body ms r clock word ne clean bare reads matches
      takes =
    let f = fields_of attr in
    let m = build_msg process fac sev attr body in
    let same = sym (cee_text f.cee body) in
    let header : IsRfcHeader m = record {
      timestamp_rfc = now-IsRfcTimestamp process.now f.ts_override clock r.timestamp_rfc;
      hostname_rfc = r.hostname_rfc;
      app_name_rfc = r.app_name_rfc;
      proc_id_rfc = pid-IsRfcField process.id f.proc_id_override word r.proc_id_rfc;
      msg_id_rfc = r.msg_id_rfc;
      msg_clean = subst EndsClean same (body_text-EndsClean f.cee body ne clean);
    } in
    let rfc : IsRfcMessage m = record { header = header; sd_rfc = inl refl } in
    let accepted : Accepted lib v m = record {
      json = body;
      value = object ms;
      carries =
          subst (λ x. Carries v.input_cee x body) same
            (body_text-Carries v.input_cee f.cee body takes bare);
      reads = reads;
      object_value = refl;
      matches = matches;
    } in
    (parse-display_rfc m rfc, (validate_iff lib v m).1 accepted)
