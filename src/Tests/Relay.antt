-- ===== src/Tests/Relay.antt =====
-- The theorems on the way of messages to rsyslog at concrete inputs.
use logfence.Prelude.{ℕ, List, [], ◌∷◌, refl, arith, Bytes, codes, All}
use logfence.Syslog.Types.{SyslogMessage}
use logfence.Client.Transport.{new_unix}
use logfence.Client.Transport.Same.{stream_socket}
use logfence.Client.Delivery.{Takes, fitting}
use logfence.Daemon.Forwarder.Forward.{ForwarderState}
use logfence.Daemon.Forwarder.Stream.{on_stream}
use logfence.Daemon.Metrics.{new_store}
use logfence.Daemon.Session.{State}
use logfence.Daemon.Session.Delivery.{stream}
use logfence.Daemon.Session.Loop.{bytes, eof}
use logfence.Daemon.Session.Run.{run_session}
use logfence.Daemon.Session.Vetted.{DeliversAsDecode, Vetted, logged, run_session-Vetted}
use logfence.Relay.Pipeline.{Relayed, send_each-Relayed}
use logfence.Tests.Messages.{request}
use logfence.Tests.Daemon.{
  braces, relay, counting, counted_lines, plain_eof, plain_eof-EndsQuietly, two_reads,
}
use logfence.Tests.Client.{log, log-Takes, log_calls, blank, request-Sendable, sent-two_reads}

plain_eof-DeliversAsDecode : DeliversAsDecode plain_eof
plain_eof-DeliversAsDecode decode buf rest m h = h

abbrev silent : State (List SyslogMessage × ℕ)
silent = record { metrics = new_store; forwarder = ([], 0) }

run_session-Vetted_example :
    All
      (Vetted counting braces relay counted_lines)
      (run_session plain_eof
        (logged counting)
        braces
        relay
        counted_lines
        (bytes (codes "4 oops") eof)
        silent).forwarder.0
run_session-Vetted_example =
    run_session-Vetted counting braces relay counted_lines plain_eof (bytes (codes "4 oops") eof)
      silent plain_eof-DeliversAsDecode tt

log_calls-Takes : Takes (stream_socket log_calls) (λ w. w)
log_calls-Takes = log-Takes

abbrev blank_state : State (ForwarderState Bytes)
blank_state = record { metrics = new_store; forwarder = blank }

send_each-Relayed_example :
    Relayed log_calls
      (λ w. w)
      log_calls-Takes
      counting
      braces
      relay
      counted_lines
      (fitting 100 (request ∷ []))
      blank_state
      (run_session plain_eof
        (on_stream log_calls counting)
        braces
        relay
        counted_lines
        (stream two_reads)
        blank_state)
send_each-Relayed_example =
    send_each-Relayed log (λ w. w) (new_unix 100 []) log_calls (λ w. w) log_calls-Takes plain_eof
      counting braces relay counted_lines (request ∷ []) two_reads blank_state log-Takes refl
      plain_eof-EndsQuietly (omega arith) refl (omega arith) (request-Sendable, tt) sent-two_reads
      (omega arith)
