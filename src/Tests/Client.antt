-- ===== src/Tests/Client.antt =====
-- The theorems on crates/logfence-client and crates/logfence-client-c at concrete inputs, and those
-- on the daemon's `forward`.
use logfence.Prelude.{
  ℕ, suc, ◌≤◌, true, false, [], ◌∷◌, ◌++◌, ◌≡◌, ◌⊎◌, inr, ◌↔◌, refl, arith, Option, none, some,
  Bytes, codes, ok, ◌∙◌, ap, sym, length, append-nil, le→ltb,
}
use mathlib.Core.List.{cons-ne-nil}
use logfence.Text.{trim_end}
use logfence.Text.Trim.{EndsClean}
use logfence.Io.{IoError, would_block}
use logfence.Syslog.Types.{SyslogMessage, local7, info}
use logfence.Syslog.Timestamp.{validate_timestamp}
use logfence.Syslog.Timestamp.Grammar.{timestamp_text}
use logfence.Syslog.Parse.{parse, display}
use logfence.Frame.Octet.{octet_frame}
use logfence.Daemon.Config.{strict, terminate, unix_dgram, unix_stream}
use logfence.Daemon.Json.{object, no_members, Members}
use logfence.Daemon.Validator.{validate, schema_matches, discriminated, any_valid}
use logfence.Daemon.Sender.Received.{process_id-IsRfcField}
use logfence.Daemon.Forwarder.Forward.{Sockets, Forwarder, ForwarderState, forward}
use logfence.Daemon.Forwarder.Retry.{FullBuffer, AllFull, tries}
use logfence.Daemon.Forwarder.Shutdown.{GivesUp, forward-Returned}
use logfence.Daemon.Session.{handle_message, handle_frame_error}
use logfence.Daemon.Session.Run.{run_session}
use logfence.Daemon.Session.Delivery.{stream, received, handle_all}
use logfence.Daemon.Session.Codecs.{octet_codec}
use logfence.Client.Calendar.{as_i32, civil_from_days, epoch_secs_to_rfc3339}
use logfence.Client.Calendar.Days.{date_after, civil_from_days-date_after}
use logfence.Client.Calendar.Text.{moment, epoch_secs_to_rfc3339_lem}
use logfence.Client.Builder.{new_builder, build}
use logfence.Client.Builder.Received.{IsRfcBuilder, build-validate}
use logfence.Client.Transport.{
  new_unix, unix_send, new_dgram, StreamSocket, DatagramSocket, dgram_send,
}
use logfence.Client.Transport.Held.{Held, dgram_send-Held}
use logfence.Client.Transport.Same.{stream_socket, as_result, unix_send-forward}
use logfence.Client.Delivery.{
  Takes, Sendable, fitting, frames, send_each, send_each-written, send_each-run_session,
}
use logfence.Client.Binding.{Process, lf_send}
use logfence.Client.Binding.Codes.{RefusesCodes, RefusesBody, Sends, lf_send-cases}
use logfence.Tests.Messages.{request, display-request-utf8, request-IsWellFormed}
use logfence.Tests.Daemon.{
  braces, relay, counting, counted_lines, fresh, plain_eof, plain_eof-EndsQuietly, two_reads,
  two_reads-display, display-request-short,
}

civil_from_days-date_after_example :
    civil_from_days 20587
    ≡ (as_i32 (date_after 20587).year, (date_after 20587).month, (date_after 20587).day)
civil_from_days-date_after_example = civil_from_days-date_after 20587 (omega arith)

epoch_secs_to_rfc3339_lem_example :
    (epoch_secs_to_rfc3339 1778760000 ≡ timestamp_text (moment 1778760000))
    × (validate_timestamp (epoch_secs_to_rfc3339 1778760000) ≡ ok tt)
epoch_secs_to_rfc3339_lem_example = epoch_secs_to_rfc3339_lem 1778760000 (omega arith)

-- A print of the fields, of which there are none.
abbrev print_fields : Members → Bytes ⊎ Bytes
print_fields ms = inr (codes "{}")

plain-IsRfcBuilder : IsRfcBuilder (new_builder 7 local7 info)
plain-IsRfcBuilder = record {
  timestamp_rfc = tt;
  hostname_rfc = tt;
  app_name_rfc = tt;
  proc_id_rfc = process_id-IsRfcField 7 (omega arith);
  msg_id_rfc = tt;
}

braces-EndsClean : EndsClean (codes "{}")
unfolding trim_end
braces-EndsClean = refl

empty-matches : relay.mode ≡ strict → schema_matches braces relay (object no_members) ≡ true
unfolding schema_matches discriminated any_valid
empty-matches k = refl

build-validate_example :
    (m : SyslogMessage) × (build print_fields (new_builder 7 local7 info) ≡ ok m)
    × (parse (display m) ≡ ok m)
    × (validate braces relay m ≡ ok tt)
build-validate_example =
    build-validate print_fields braces relay (new_builder 7 local7 info) (codes "{}") no_members
      refl plain-IsRfcBuilder (cons-ne-nil _ _) braces-EndsClean (λ r e. cc) refl empty-matches
      (λ e. cc)

-- A socket whose buffer stays full.
abbrev full_buffer : IoError
full_buffer = record { kind = would_block; raw_os_error = none }

abbrev stuck : Sockets ℕ
stuck = record {
  try_send_to = λ bs n. (some full_buffer, suc n);
  connect = λ n. (none, n);
  write_all = λ bs n. (none, n);
}

abbrev impatient : Forwarder
impatient = record {
  inner = unix_dgram;
  dgram_max_attempts = 4;
  dgram_exhausted = terminate;
  has_token = true;
}

abbrev idle : ForwarderState ℕ
idle = record { connected = false; cancelled = false; world = 0 }

forward-Returned_example :
    (before_last : ℕ) × (result : Option IoError) × (after : ForwarderState ℕ) × (forward stuck
        impatient 4 request idle
      ≡ some (result, after))
    × (suc before_last ≤ 4)
    × AllFull (stuck.try_send_to (display request)) 4 before_last 0
    × (result
        ≡ (stuck.try_send_to
            (display request)
            (tries (stuck.try_send_to (display request)) 4 before_last 0)).0)
    × ((¬ FullBuffer (stuck.try_send_to (display request)) 4 result) ⊎ (suc before_last ≡ 4))
    × (after.world ≡ tries (stuck.try_send_to (display request)) 4 (suc before_last) 0)
    × ((after.cancelled ≡ true) ↔ ((false ≡ true) ⊎ GivesUp impatient result))
    × (after.connected ≡ false)
forward-Returned_example =
    forward-Returned stuck impatient 4 request idle refl (λ e. absurd (omega (arith, e)))
      (omega arith) (omega arith)

abbrev stuck_client : DatagramSocket ℕ
stuck_client = record {
  unbound = λ n. (none, n);
  shutdown_read = λ n. (none, n);
  try_send_to = λ bs n. (some full_buffer, suc n);
}

dgram_send-Held_example : Held (dgram_send stuck_client 4 request (new_dgram 100 0))
dgram_send-Held_example =
    dgram_send-Held stuck_client 4 request (new_dgram 100 0) display-request-short
      (λ e. absurd (omega (arith, e))) (omega arith) (omega arith)

-- A socket that keeps what is written.
abbrev pub log : StreamSocket Bytes
log = record { connect = λ w. (none, w); write_all = λ bs w. (none, w ++ bs) }

pub log-Takes : Takes log (λ w. w)
log-Takes = record {
  connects = λ w. refl;
  connect-written = λ w. refl;
  writes = λ bs w. refl;
  write_all-written = λ bs w. refl;
}

fitting-request : fitting 100 (request ∷ []) ≡ request ∷ []
fitting-request = rw (le→ltb 100 (length (display request)) display-request-short) refl

pub sent-two_reads : received two_reads ≡ (send_each log (request ∷ []) (new_unix 100 [])).world
sent-two_reads =
    two_reads-display
    ∙ sym (append-nil (octet_frame (display request)))
    ∙ ap frames (sym fitting-request)
    ∙ sym (send_each-written log (λ w. w) log-Takes (request ∷ []) (new_unix 100 []))

pub request-Sendable : Sendable request
request-Sendable = record { well_formed = request-IsWellFormed; utf8 = display-request-utf8 }

send_each-run_session_example :
    run_session plain_eof counting braces relay counted_lines (stream two_reads) fresh
    ≡ handle_all
        (octet_codec plain_eof plain_eof-EndsQuietly 100 (omega arith))
        (handle_message counting braces relay counted_lines)
        (handle_frame_error counting counted_lines)
        (fitting 100 (request ∷ []))
        fresh
send_each-run_session_example =
    send_each-run_session log (λ w. w) (new_unix 100 []) plain_eof counting braces relay
      counted_lines (request ∷ []) two_reads fresh log-Takes refl plain_eof-EndsQuietly
      (omega arith) refl (omega arith) (request-Sendable, tt) sent-two_reads

abbrev daemon_process : Process
daemon_process = record { id = 7; now = 1778760000 }

lf_send-cases_example :
    RefusesCodes daemon_process braces log
      (new_unix 100 [])
      16
      6
      none
      none
      (lf_send daemon_process braces log (some (new_unix 100 [])) 16 6 none none)
    ⊎ (RefusesBody daemon_process braces log
          (new_unix 100 [])
          16
          6
          none
          none
          (lf_send daemon_process braces log (some (new_unix 100 [])) 16 6 none none)
        ⊎ Sends daemon_process braces log
            (new_unix 100 [])
            16
            6
            none
            none
            (lf_send daemon_process braces log (some (new_unix 100 [])) 16 6 none none))
lf_send-cases_example = lf_send-cases daemon_process braces log (new_unix 100 []) 16 6 none none

abbrev over_stream : Forwarder
over_stream = record impatient { inner = unix_stream }

-- The same log among the calls of the daemon.
abbrev pub log_calls : Sockets Bytes
log_calls = record {
  try_send_to = λ bs w. (none, w);
  connect = log.connect;
  write_all = log.write_all;
}

abbrev pub blank : ForwarderState Bytes
blank = record { connected = false; cancelled = false; world = [] }

unix_send-forward_example :
    (result : Option IoError) × (after : ForwarderState Bytes) × (forward log_calls over_stream 0
        request blank
      ≡ some (result, after))
    × ((unix_send (stream_socket log_calls) request (new_unix 100 [])).0 ≡ as_result result)
    × ((unix_send (stream_socket log_calls) request (new_unix 100 [])).1.connected
        ≡ after.connected)
    × ((unix_send (stream_socket log_calls) request (new_unix 100 [])).1.world ≡ after.world)
    × (after.cancelled ≡ false)
unix_send-forward_example =
    unix_send-forward log_calls over_stream 0 request (new_unix 100 []) blank refl refl refl
      display-request-short
