-- ===== src/Relay/Pipeline.antt =====
-- From a client to the stream of rsyslog, through a session that forwards over a stream.
use logfence.Prelude.{
  ℕ, ◌+◌, ◌%◌, ◌^◌, ◌≤◌, ◌<◌, List, [], ◌∷◌, ◌++◌, ◌≡◌, ◌⊎◌, inl, inr, refl, sym, ap, ◌∙◌, arith,
  subst, Bytes, length, All, Outcome, ok, err, panic, append-nil, append_assoc,
}
use logfence.Syslog.Types.{SyslogMessage}
use logfence.Syslog.Parse.{display}
use logfence.Frame.{Decoded}
use logfence.Frame.Octet.{octet_frame}
use logfence.Daemon.Config.{octet_count}
use logfence.Daemon.Json.{JsonLibrary}
use logfence.Daemon.Validator.{Validator, ValidationError, validation_error_text, validate}
use logfence.Daemon.Validator.Accept.{Accepted, validate_iff}
use logfence.Daemon.Metrics.{inc_received, inc_forwarded, inc_dropped}
use logfence.Daemon.Forwarder.Forward.{Sockets, ForwarderState}
use logfence.Daemon.Forwarder.Stream.{on_stream}
use logfence.Daemon.Main.Each.{Each}
use logfence.Daemon.Session.{
  SessionConfig, State, Outside, rejection_report, report_rejection, dropped_payload, to_forward,
  send, on_validated, handle_message, handle_frame_error,
}
use logfence.Daemon.Session.Accounting.{validate-no_panic}
use logfence.Daemon.Session.Codecs.{EndsQuietly, octet_codec}
use logfence.Daemon.Session.Delivery.{stream, received, handle_all}
use logfence.Daemon.Session.Run.{run_session}
use logfence.Daemon.Session.Vetted.{sent_form}
use logfence.Client.Transport.{UnixTransport, StreamSocket}
use logfence.Client.Transport.Same.{stream_socket}
use logfence.Client.Delivery.{Takes, Sendable, fitting, frames, send_each, send_each-run_session}
use logfence.Relay.{forward_stream-Wrote}

-- The state with one more message received.
abbrev counted : {W : Type 0} → State W → State W
counted s = record s { metrics = inc_received s.metrics }

module _ {W V : Type 0} (os : Sockets W) (written : W → Bytes)
    (takes : Takes (stream_socket os) written) (o : Outside V) (lib : JsonLibrary)
    (v : Validator lib) (cfg : SessionConfig) where
  -- What rsyslog is sent for the message `m` of a client: its forwarded form if the validator
  -- accepts it, and else a report with the validator's error.
  abbrev pub Answers : SyslogMessage → SyslogMessage → Type 0
  Answers m sent =
      (Accepted lib v m × (sent ≡ sent_form o lib v cfg m))
      ⊎ ((e : ValidationError) × (validate lib v m ≡ err e)
          × (sent
              ≡ rejection_report o.process_id cfg.local_hostname
                  (o.print (dropped_payload cfg m (validation_error_text e)))))

  -- From `s` to `t` a session answered the messages, each with one frame, in their order; it
  -- counted each as received, and none as failed.
  pub record Relayed (ms : List SyslogMessage) (s t : State (ForwarderState W)) : Type 0 where
    pub out : List SyslogMessage
    pub answered : Each Answers ms out
    pub on_wire : written t.forwarder.world ≡ written s.forwarder.world ++ frames out
    pub all_received : t.metrics.received ≡ (s.metrics.received + length ms) % 2 ^ 64
    pub no_errors : t.metrics.errors ≡ s.metrics.errors

  record Relayed1 (m : SyslogMessage) (s t : State (ForwarderState W)) : Type 0 where
    pub sent : SyslogMessage
    pub answers : Answers m sent
    pub on_wire :
        written t.forwarder.world ≡ written s.forwarder.world ++ octet_frame (display sent)
    pub one_received : t.metrics.received ≡ (s.metrics.received + 1) % 2 ^ 64
    pub no_errors : t.metrics.errors ≡ s.metrics.errors

  validated-Relayed :
      (m : SyslogMessage) (s : State (ForwarderState W)) (r : Outcome ValidationError (Unit {0}))
      → validate lib v m ≡ r
      → Relayed1 m s (on_validated (on_stream os o) lib v cfg m r (counted s))
  unfolding on_validated send report_rejection to_forward inc_received inc_forwarded inc_dropped
  validated-Relayed m s (ok done) h =
      let sent = sent_form o lib v cfg m in
      let wrote =
        forward_stream-Wrote os written takes sent s.forwarder.connected s.forwarder.world in
      record {
        sent = sent;
        answers = inl ((validate_iff lib v m).0 h, refl);
        on_wire = wrote.1;
        one_received = simp (wrote.0) refl;
        no_errors = simp (wrote.0) refl;
      }
  validated-Relayed m s (err e) h =
      let sent =
        rejection_report o.process_id cfg.local_hostname
          (o.print (dropped_payload cfg m (validation_error_text e))) in
      let wrote =
        forward_stream-Wrote os written takes sent s.forwarder.connected s.forwarder.world in
      record {
        sent = sent;
        answers = inr (e, h, refl);
        on_wire = wrote.1;
        one_received = refl;
        no_errors = refl;
      }
  validated-Relayed m s panic h = absurd (validate-no_panic lib v m h)

  handle_message-Relayed :
      (m : SyslogMessage) (s : State (ForwarderState W))
      → Relayed1 m s (handle_message (on_stream os o) lib v cfg m s)
  unfolding handle_message
  handle_message-Relayed m s = validated-Relayed m s (validate lib v m) refl

  module _ (decode_eof : (Bytes → Decoded) → Bytes → Decoded) (quiet : EndsQuietly decode_eof)
      (k : cfg.max_message_size + 21 < 2 ^ 64) where
    abbrev handled : List SyslogMessage → State (ForwarderState W) → State (ForwarderState W)
    handled ms s =
        handle_all (octet_codec decode_eof quiet cfg.max_message_size k)
          (handle_message (on_stream os o) lib v cfg) (handle_frame_error (on_stream os o) cfg) ms s

    Relayed-cons :
        (m : SyslogMessage) (ms : List SyslogMessage) (s t u : State (ForwarderState W))
        → Relayed1 m s t
        → Relayed ms t u
        → Relayed (m ∷ ms) s u
    Relayed-cons m ms s t u first rest = record {
      out = first.sent ∷ rest.out;
      answered = (first.answers, rest.answered);
      on_wire =
          rest.on_wire
          ∙ ap (λ b. b ++ frames rest.out) first.on_wire
          ∙ append_assoc (written s.forwarder.world) (octet_frame (display first.sent))
              (frames rest.out);
      all_received = omega (arith, rest.all_received, first.one_received);
      no_errors = rest.no_errors ∙ first.no_errors;
    }

    handled-Relayed :
        (ms : List SyslogMessage) (s : State (ForwarderState W))
        → s.metrics.received < 2 ^ 64
        → Relayed ms s (handled ms s)
    handled-Relayed [] s word = record {
      out = [];
      answered = tt;
      on_wire = sym (append-nil (written s.forwarder.world));
      all_received = omega (arith, word);
      no_errors = refl;
    }
    handled-Relayed (m ∷ ms) s word =
        let t = handle_message (on_stream os o) lib v cfg m s in
        let first = handle_message-Relayed m s in
        Relayed-cons m ms s t (handled ms t) first
          (handled-Relayed ms t (omega (arith, first.one_received)))

-- A client sends well-formed messages with a UTF-8 rendering, one after the other, with a limit no
-- greater than the daemon's, and the daemon's less than 2^64 - 21 bytes. Its socket takes
-- everything and has got nothing before, the framing is by octet counts, and the daemon forwards
-- over a stream that takes everything. Then, wherever the reads of the session cut the bytes, it
-- puts behind what was on the stream to rsyslog one frame for each message within the client's
-- limit, in their order: the form in which it forwards the message if the validator accepts it, and
-- else the report with the validator's error. It counts each as received, modulo 2^64, and none as
-- failed.
pub send_each-Relayed :
    {W V X : Type 0} (client : StreamSocket X) (sent : X → Bytes) (t : UnixTransport X)
    (os : Sockets W) (written : W → Bytes) (takes : Takes (stream_socket os) written)
    (decode_eof : (Bytes → Decoded) → Bytes → Decoded) (o : Outside V) (lib : JsonLibrary)
    (v : Validator lib) (cfg : SessionConfig) (ms : List SyslogMessage) (reads : List (ℕ × Bytes))
    (s : State (ForwarderState W))
    → Takes client sent
    → sent t.world ≡ []
    → EndsQuietly decode_eof
    → cfg.max_message_size + 21 < 2 ^ 64
    → cfg.framing ≡ octet_count
    → t.max_size ≤ cfg.max_message_size
    → All Sendable ms
    → received reads ≡ sent (send_each client ms t).world
    → s.metrics.received < 2 ^ 64
    → Relayed os written takes o lib v cfg
        (fitting t.max_size ms)
        s
        (run_session decode_eof (on_stream os o) lib v cfg (stream reads) s)
send_each-Relayed client sent t os written takes decode_eof o lib v cfg ms reads s takes_sent start
      quiet k framing le h same word =
    subst (Relayed os written takes o lib v cfg (fitting t.max_size ms) s)
      (sym (
        send_each-run_session client sent t decode_eof (on_stream os o) lib v cfg ms reads s
          takes_sent start quiet k framing le h same))
      (handled-Relayed os written takes o lib v cfg decode_eof quiet k (fitting t.max_size ms) s
        word)
