-- ===== src/Daemon/Datagram.antt =====
-- `process_datagram` of crates/logfence-daemon/src/datagram_listener.rs, for one received datagram,
-- whose configuration names its peer. Receiving it and the worker tasks are in Pool.
pub mod Stream
pub mod Pool
pub mod Bind
use logfence.Prelude.{[], ◌∷◌, ◌++◌, Bytes, codes, Outcome, ok, err, panic, if◌then◌else◌}
use logfence.Text.{is_utf8}
use logfence.Syslog.Types.{ParseError, SyslogMessage}
use logfence.Syslog.Parse.{parse}
use logfence.Daemon.Json.{JsonLibrary}
use logfence.Daemon.Validator.{Validator}
use logfence.Daemon.Session.{
  SessionConfig, State, Outside, problem_payload, report_rejection, handle_message,
}

module _ {W : Type 0} (o : Outside W) (lib : JsonLibrary) (v : Validator lib)
    (cfg : SessionConfig) where
  -- With the result of `SyslogMessage::parse`. A panic there ends the worker.
  unfoldable pub on_parsed : Outcome ParseError SyslogMessage → State W → State W
  on_parsed (ok msg) s = handle_message o lib v cfg msg s
  on_parsed (err e) s =
      report_rejection o cfg.local_hostname
        (problem_payload cfg (codes "syslog parse error: " ++ o.parse_error_text e)) s
  on_parsed panic s = s

  unfoldable pub process_datagram : Bytes → State W → State W
  process_datagram msg_bytes s =
      let parsed = on_parsed (parse msg_bytes) s in
      if is_utf8 msg_bytes
      then parsed
      else report_rejection o cfg.local_hostname
          (problem_payload cfg (codes "invalid UTF-8 encoding")) s
