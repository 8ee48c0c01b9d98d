-- ===== src/Daemon/Session.antt =====
-- The session of crates/logfence-daemon/src/session.rs: the handling of a message and of a frame
-- error. The forwarder is a parameter: a call returns its error, if there is one, and the state
-- behind it. `std::process::id()` and the print of a JSON value are parameters too. Logging is left
-- out.
pub mod Accounting
pub mod Loop
pub mod Delivery
pub mod Run
pub mod Codecs
pub mod Invariant
pub mod Fuel
pub mod Reload
pub mod Vetted
use logfence.Prelude.{ℕ, [], ◌∷◌, ◌++◌, Option, none, some, Bytes, codes, Outcome, ok, err, panic}
use logfence.Text.{decimal}
use logfence.Io.{IoError}
use logfence.Syslog.Types.{ParseError, SyslogMessage, syslog, warning}
use logfence.Syslog.Parse.{or_nil}
use logfence.Frame.{
  FrameError, message_too_large, invalid_octet_count, invalid_utf8, octet_count_prefix_too_long,
  parse_error, io,
}
use logfence.Daemon.Config.{FramingMode, SenderMode, original, logfenced}
use logfence.Daemon.Metrics.{MetricsStore, inc_received, inc_forwarded, inc_dropped, inc_errors}
use logfence.Daemon.Json.{Value, string, object, no_members, member, JsonLibrary}
use logfence.Daemon.Sender.{rewrite_sender}
use logfence.Daemon.Validator.{
  ValidationError, validation_error_text, Validator, validate, prepare_for_forwarding,
}

pub record SessionConfig : Type 0 where
  pub framing : FramingMode
  pub max_message_size : ℕ
  pub sender_mode : SenderMode
  pub local_hostname : Bytes
  pub peer : Bytes

-- The counters and the forwarder's state.
pub record State (W : Type 0) : Type 0 where
  pub metrics : MetricsStore
  pub forwarder : W

-- What the daemon takes from elsewhere: the process id, the print of a `serde_json::Value`, the
-- text of a `ParseError`, and the forwarder.
pub record Outside (W : Type 0) : Type 0 where
  pub process_id : ℕ
  pub print : Value → Bytes
  pub parse_error_text : ParseError → Bytes
  pub forward : SyslogMessage → W → Option IoError × W

-- The message of `report_rejection`.
unfoldable pub rejection_report : ℕ → Bytes → Bytes → SyslogMessage
rejection_report process_id local_hostname payload = record {
  priority = record { facility = syslog; severity = warning };
  timestamp = none;
  hostname = some local_hostname;
  app_name = some (codes "logfenced");
  proc_id = some (decimal process_id);
  msg_id = none;
  structured_data = codes "-";
  msg = payload;
}

-- The payload of a message that `validate` refuses. serde_json keeps the members of an object in
-- the order of their keys.
abbrev pub dropped_payload : SessionConfig → SyslogMessage → Bytes → Value
dropped_payload cfg msg error = object (
    member (codes "error") (string error) (
      member (codes "event") (string (codes "message_dropped")) (
        member (codes "peer") (string cfg.peer) (
          member (codes "sender_app") (string (or_nil msg.app_name)) (
            member (codes "sender_hostname") (string (or_nil msg.hostname))
              (member (codes "sender_pid") (string (or_nil msg.proc_id)) no_members))))))

abbrev pub problem_payload : SessionConfig → Bytes → Value
problem_payload cfg problem = object (
    member (codes "error") (string problem) (
      member (codes "event") (string (codes "message_dropped"))
        (member (codes "peer") (string cfg.peer) no_members)))

-- The counter that goes up after the call of `forward`.
abbrev pub count_sent : Option IoError → MetricsStore → MetricsStore
count_sent none metrics = inc_forwarded metrics
count_sent (some e) metrics = inc_errors metrics

module _ {W : Type 0} (o : Outside W) where
  -- A failure to send the report is only logged.
  unfoldable pub report_rejection : Bytes → Value → State W → State W
  report_rejection local_hostname payload s = record s {
    forwarder =
        (o.forward (rejection_report o.process_id local_hostname (o.print payload)) s.forwarder).1;
  }

  abbrev pub problem_of : FrameError → Option Bytes
  problem_of (message_too_large max got) =
      some
        (codes "oversized message: got " ++ (decimal got ++ (codes " bytes, max " ++ decimal max)))
  problem_of invalid_octet_count = some (codes "invalid octet count")
  problem_of invalid_utf8 = some (codes "invalid UTF-8 encoding")
  problem_of octet_count_prefix_too_long = some (codes "octet count prefix too long")
  problem_of (parse_error inner) = some (codes "syslog parse error: " ++ o.parse_error_text inner)
  problem_of (io inner) = none

  abbrev pub report_problem : SessionConfig → Option Bytes → State W → State W
  report_problem cfg none s = s
  report_problem cfg (some problem) s =
      report_rejection cfg.local_hostname (problem_payload cfg problem) s

  unfoldable pub handle_frame_error : SessionConfig → FrameError → State W → State W
  handle_frame_error cfg e s = report_problem cfg (problem_of e) s

  -- `to_forward`
  unfoldable pub to_forward : SessionConfig → SenderMode → SyslogMessage → SyslogMessage
  to_forward cfg original prepared = prepared
  to_forward cfg logfenced prepared = rewrite_sender o.process_id prepared cfg.local_hostname

  unfoldable pub send : SyslogMessage → State W → State W
  send msg s =
      let (failure, after) = o.forward msg s.forwarder in
      record { metrics = count_sent failure s.metrics; forwarder = after }

  module _ (lib : JsonLibrary) where
    -- Behind `validate`. It does not panic, and a panic would unwind from here.
    unfoldable pub on_validated :
        Validator lib
        → SessionConfig
        → SyslogMessage
        → Outcome ValidationError (Unit {0})
        → State W
        → State W
    on_validated v cfg msg (err e) s =
        report_rejection cfg.local_hostname (dropped_payload cfg msg (validation_error_text e))
          (record s { metrics = inc_dropped s.metrics })
    on_validated v cfg msg (ok done) s =
        send (to_forward cfg cfg.sender_mode (prepare_for_forwarding lib v msg)) s
    on_validated v cfg msg panic s = s

    unfoldable pub handle_message :
        Validator lib → SessionConfig → SyslogMessage → State W → State W
    handle_message v cfg msg s =
        on_validated v cfg msg (validate lib v msg) (record s { metrics = inc_received s.metrics })
