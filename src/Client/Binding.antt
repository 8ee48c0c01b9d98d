-- ===== src/Client/Binding.antt =====
-- The C functions of crates/logfence-client-c/src/lib.rs. A pointer is an option, empty for NULL;
-- behind that of a C string are its bytes up to the NUL, and behind that of a client its transport,
-- which a call leaves changed. The runtime only drives the transport. serde_json, the process id
-- and the clock's seconds are parameters, and so are the calls of the operating system.
pub mod Codes
pub mod Accepted
use logfence.Prelude.{
  ℕ, Bool, true, false, not, ◌++◌, Option, none, some, get_or, Bytes, codes, ltb, ◌==◌,
  if◌then◌else◌, ◌⊎◌, inl, inr, Outcome, ok, err, panic,
}
use logfence.Text.{decimal, is_utf8}
use logfence.Syslog.Types.{
  Facility, facility_from_integer, Severity, severity_from_integer, ParseError, SyslogMessage,
}
use logfence.Daemon.Json.{Value, JsonLibrary, is_object}
use logfence.Client.Error.{ClientError}
use logfence.Client.Calendar.{epoch_secs_to_rfc3339, Int32, nonneg, negative}
use logfence.Client.Transport.{Sent, UnixTransport, new_unix, StreamSocket, unix_send}

-- `*const c_char`
abbrev pub CString : Type 0
CString = Option Bytes

abbrev pub lf_ok : ℕ
lf_ok = 0

abbrev pub lf_err_null : ℕ
lf_err_null = 1

abbrev pub lf_err_invalid : ℕ
lf_err_invalid = 2

abbrev pub lf_err_build : ℕ
lf_err_build = 3

abbrev pub lf_err_io : ℕ
lf_err_io = 4

pub record LfMsgAttr : Type 0 where
  pub hostname : CString
  pub app_name : CString
  pub msg_id : CString
  pub proc_id : CString
  pub timestamp : CString
  pub cee_cookie : Int32

-- `CStr::to_str`
abbrev pub to_str : Bytes → Option Bytes
to_str s = if is_utf8 s then some s else none

-- A client that `lf_client_new` makes, with whether the runtime could be made, and with the
-- transport's system.
unfoldable pub lf_client_new : {W : Type 0} → CString → ℕ → Bool → W → Option (UnixTransport W)
lf_client_new none max_msg_size has_runtime w = none
lf_client_new (some path) max_msg_size has_runtime w = elim (to_str path) [
  | none ↦ none
  | some path_str ↦ if has_runtime then some (new_unix max_msg_size w) else none
]

unfoldable pub cstr_to_opt : CString → Option Bytes
cstr_to_opt none = none
cstr_to_opt (some s) = to_str s

abbrev is_nonzero : Int32 → Bool
is_nonzero (nonneg n) = not (n == 0)
is_nonzero (negative n) = true

-- The tuple that `build_msg` reads the attributes into.
pub record Fields : Type 0 where
  pub ts_override : Option Bytes
  pub hostname : Option Bytes
  pub app_name : Option Bytes
  pub proc_id_override : Option Bytes
  pub msg_id : Option Bytes
  pub cee : Bool

unfoldable pub fields_of : Option LfMsgAttr → Fields
fields_of none = record {
  ts_override = none;
  hostname = none;
  app_name = none;
  proc_id_override = none;
  msg_id = none;
  cee = false;
}
fields_of (some a) = record {
  ts_override = cstr_to_opt a.timestamp;
  hostname = cstr_to_opt a.hostname;
  app_name = cstr_to_opt a.app_name;
  proc_id_override = cstr_to_opt a.proc_id;
  msg_id = cstr_to_opt a.msg_id;
  cee = is_nonzero a.cee_cookie;
}

-- What the process has around it: its id, and the seconds since the epoch.
pub record Process : Type 0 where
  pub id : ℕ
  pub now : ℕ

module _ (process : Process) where
  unfoldable pub build_msg : Facility → Severity → Option LfMsgAttr → Bytes → SyslogMessage
  build_msg fac sev attr body =
      let f = fields_of attr in
      record {
        priority = record { facility = fac; severity = sev };
        timestamp = some (get_or f.ts_override (epoch_secs_to_rfc3339 process.now));
        hostname = f.hostname;
        app_name = f.app_name;
        proc_id = some (get_or f.proc_id_override (decimal process.id));
        msg_id = f.msg_id;
        structured_data = codes "-";
        msg = if f.cee then codes "@cee:" ++ body else body;
      }

  -- `body`, unless it is not UTF-8.
  unfoldable pub body_of : CString → Option Bytes
  body_of none = some (codes "{}")
  body_of (some s) = to_str s

  module _ (lib : JsonLibrary) where
    abbrev pub parses_to_object : Bytes ⊎ Value → Bool
    parses_to_object (inl e) = false
    parses_to_object (inr value) = is_object value

    unfoldable pub is_json_object : Bytes → Bool
    is_json_object s = parses_to_object (lib.from_str s)

    module _ {W : Type 0} (os : StreamSocket W) where
      -- The code for what the transport returned. It does not panic.
      abbrev pub send_code : Outcome ClientError (Unit {0}) → ℕ
      send_code (ok done) = lf_ok
      send_code (err e) = lf_err_io
      send_code panic = lf_err_io

      abbrev pub deliver : SyslogMessage → UnixTransport W → ℕ × UnixTransport W
      deliver msg t = let (result, after) = unix_send os msg t in (send_code result, after)

      abbrev pub with_body :
          Facility
          → Severity
          → Option LfMsgAttr
          → Option Bytes
          → UnixTransport W
          → ℕ × UnixTransport W
      with_body fac sev attr none t = (lf_err_build, t)
      with_body fac sev attr (some body) t =
          if not (is_json_object body)
          then (lf_err_build, t)
          else deliver (build_msg fac sev attr body) t

      abbrev pub with_facility :
          Outcome ParseError Facility
          → ℕ
          → Option LfMsgAttr
          → CString
          → UnixTransport W
          → ℕ × UnixTransport W
      with_facility panic severity attr json_body t = (lf_err_invalid, t)
      with_facility (err e) severity attr json_body t = (lf_err_invalid, t)
      with_facility (ok fac) severity attr json_body t =
          if ltb 7 severity
          then (lf_err_invalid, t)
          else with_body fac (severity_from_integer severity) attr (body_of json_body) t

      -- The code, and the client behind the call.
      unfoldable pub lf_send :
          Option (UnixTransport W)
          → ℕ
          → ℕ
          → Option LfMsgAttr
          → CString
          → ℕ × Option (UnixTransport W)
      lf_send none facility severity attr json_body = (lf_err_null, none)
      lf_send (some t) facility severity attr json_body =
          let (code, after) =
            with_facility (facility_from_integer facility) severity attr json_body t in
          (code, some after)

unfoldable pub lf_strerror : Int32 → Bytes
lf_strerror (negative n) = codes "unknown error code"
lf_strerror (nonneg code) =
    if code == 0
    then codes "ok"
    else if code == 1
    then codes "null argument: client must not be NULL"
    else if code == 2
    then codes "invalid code: facility must be 0-23, severity must be 0-7"
    else if code == 3
    then codes "build error: json_body must be a valid JSON object string"
    else if code == 4
    then codes "I/O error: message could not be delivered to the socket"
    else codes "unknown error code"
