-- ===== src/Client/Builder.antt =====
-- `MessageBuilder` of crates/logfence-client/src/builder.rs. A builder is taken by value and
-- returned, so a call is a function. The map of fields is the list of its members in the order of
-- the keys. `serde_json::to_value` of a field and `to_string` of the map are parameters, and so is
-- `std::process::id()`.
pub mod Fields
pub mod Received
use logfence.Prelude.{
  ℕ, Bool, true, false, ◌++◌, Option, none, some, Bytes, codes, is_empty, if◌then◌else◌, ◌⊎◌, inl,
  inr, Outcome, ok, err, panic, ◌>>=◌, ◌>>◌, reject_if, map_err, of_result,
}
use logfence.Text.{decimal}
use logfence.Syslog.Types.{Facility, Severity, SyslogMessage}
use logfence.Daemon.Json.{Value, Members, no_members}
use logfence.Daemon.Validator.{cee_cookie}
use logfence.Daemon.Validator.Canonical.{insert_member}
use logfence.Client.Error.{BuildError, empty_key, serialize, ClientError, build_error}

pub record MessageBuilder : Type 0 where
  pub facility : Facility
  pub severity : Severity
  pub timestamp : Option Bytes
  pub hostname : Option Bytes
  pub app_name : Option Bytes
  pub proc_id : Option Bytes
  pub msg_id : Option Bytes
  pub fields : Members
  pub cee_cookie : Bool

-- `MessageBuilder::new`
abbrev pub new_builder : ℕ → Facility → Severity → MessageBuilder
new_builder process_id facility severity = record {
  facility = facility;
  severity = severity;
  timestamp = none;
  hostname = none;
  app_name = none;
  proc_id = some (decimal process_id);
  msg_id = none;
  fields = no_members;
  cee_cookie = false;
}

abbrev pub set_cee_cookie : MessageBuilder → Bool → MessageBuilder
set_cee_cookie b enabled = record b { cee_cookie = enabled }

abbrev pub set_timestamp : MessageBuilder → Bytes → MessageBuilder
set_timestamp b ts = record b { timestamp = some ts }

abbrev pub set_hostname : MessageBuilder → Bytes → MessageBuilder
set_hostname b h = record b { hostname = some h }

abbrev pub set_app_name : MessageBuilder → Bytes → MessageBuilder
set_app_name b name = record b { app_name = some name }

abbrev pub set_proc_id : MessageBuilder → Bytes → MessageBuilder
set_proc_id b pid = record b { proc_id = some pid }

abbrev pub set_msgid : MessageBuilder → Bytes → MessageBuilder
set_msgid b id = record b { msg_id = some id }

-- With what `serde_json::to_value(val)` returned.
unfoldable pub kv : MessageBuilder → Bytes → Bytes ⊎ Value → Outcome BuildError MessageBuilder
kv b key val = do
  reject_if (is_empty key) empty_key
  value ← map_err serialize (of_result val)
  ok (record b { fields = insert_member key value b.fields })

-- `format!("{CEE_COOKIE}{json}")` or the text itself.
abbrev pub body_text : Bool → Bytes → Bytes
body_text true json = cee_cookie ++ json
body_text false json = json

-- `send`, with what `build` returned.
abbrev pub send_built :
    {T : Type 0}
    → (SyslogMessage → T → Outcome ClientError (Unit {0}) × T)
    → Outcome BuildError SyslogMessage
    → T
    → Outcome ClientError (Unit {0}) × T
send_built transport_send (ok msg) t = transport_send msg t
send_built transport_send (err e) t = (err (build_error e), t)
send_built transport_send panic t = (panic, t)

module _ (to_string : Members → Bytes ⊎ Bytes) where
  unfoldable pub build : MessageBuilder → Outcome BuildError SyslogMessage
  build b = do
    json ← map_err serialize (of_result (to_string b.fields))
    ok (record {
      priority = record { facility = b.facility; severity = b.severity };
      timestamp = b.timestamp;
      hostname = b.hostname;
      app_name = b.app_name;
      proc_id = b.proc_id;
      msg_id = b.msg_id;
      structured_data = codes "-";
      msg = body_text b.cee_cookie json;
    })

  -- `MessageBuilder::send`, over a transport with its state.
  unfoldable pub send :
      {T : Type 0}
      → (SyslogMessage → T → Outcome ClientError (Unit {0}) × T)
      → MessageBuilder
      → T
      → Outcome ClientError (Unit {0}) × T
  send transport_send b t = send_built transport_send (build b) t
