-- ===== src/Daemon/Session/Vetted.antt =====
-- What a session hands to the forwarder, whatever the client sends.
use logfence.Prelude.{
  ℕ, ◌≤◌, true, List, [], ◌∷◌, ◌++◌, ◌≡◌, ◌⊎◌, inl, inr, refl, Option, none, some, Bytes, length,
  All, All-append, ok, err, panic, Outcome,
}
use logfence.Text.{is_utf8}
use logfence.Syslog.Types.{SyslogMessage}
use logfence.Syslog.Parse.{parse}
use logfence.Frame.{FrameError, Decoded}
use logfence.Frame.Progress.{Delivered, octet_decode_sound, delimiter_decode_sound}
use logfence.Daemon.Config.{FramingMode, octet_count, newline}
use logfence.Daemon.Json.{Value, JsonLibrary}
use logfence.Daemon.Validator.{
  Validator, ValidationError, validation_error_text, validate, prepare_for_forwarding,
}
use logfence.Daemon.Validator.Accept.{Accepted, validate_iff}
use logfence.Daemon.Session.{
  SessionConfig, State, Outside, rejection_report, report_rejection, dropped_payload,
  problem_payload, problem_of, report_problem, to_forward, send, on_validated, handle_message,
  handle_frame_error,
}
use logfence.Daemon.Session.Loop.{Reads}
use logfence.Daemon.Session.Run.{codec_decode, run_session}
use logfence.Daemon.Session.Invariant.{run-keeps}

-- At the end of a stream `decode_eof` delivers only what `decode` does, as the default of
-- tokio_util.
abbrev pub DeliversAsDecode : ((Bytes → Decoded) → Bytes → Decoded) → Type 0
DeliversAsDecode decode_eof =
    (decode : Bytes → Decoded) (buf rest : Bytes) (m : SyslogMessage)
    → decode_eof decode buf ≡ (ok (some m), rest)
    → decode buf ≡ (ok (some m), rest)

-- The message was parsed from a text within the limit.
pub record Parsed (max_size : ℕ) (m : SyslogMessage) : Type 0 where
  pub text : Bytes
  pub within : length text ≤ max_size
  pub utf8 : is_utf8 text ≡ true
  pub parses : parse text ≡ ok m

Parsed-Delivered :
    (max_size : ℕ) (buf rest : Bytes) (m : SyslogMessage)
    → Delivered max_size buf rest m
    → Parsed max_size m
Parsed-Delivered max_size buf rest m d = record {
  text = d.text;
  within = d.within;
  utf8 = d.utf8;
  parses = d.parses;
}

codec-Parsed :
    (cfg : SessionConfig) (framing : FramingMode) (buf rest : Bytes) (m : SyslogMessage)
    → codec_decode cfg framing buf ≡ (ok (some m), rest)
    → Parsed cfg.max_message_size m
codec-Parsed cfg octet_count buf rest m h =
    Parsed-Delivered cfg.max_message_size buf rest m
      (octet_decode_sound cfg.max_message_size buf rest m h)
codec-Parsed cfg newline buf rest m h =
    Parsed-Delivered cfg.max_message_size buf rest m
      (delimiter_decode_sound b'\n' cfg.max_message_size buf rest m h)

module _ {W : Type 0} (o : Outside W) (lib : JsonLibrary) (v : Validator lib)
    (cfg : SessionConfig) where
  -- What `m` became: the form in which it is forwarded.
  abbrev pub sent_form : SyslogMessage → SyslogMessage
  sent_form m = to_forward o cfg cfg.sender_mode (prepare_for_forwarding lib v m)

  -- A report of the daemon, or a message of the client: parsed, accepted, and in the form in which
  -- it is to be forwarded.
  abbrev pub Vetted : SyslogMessage → Type 0
  Vetted sent =
      ((payload : Value) × (sent
          ≡ rejection_report o.process_id cfg.local_hostname (o.print payload)))
      ⊎ ((m : SyslogMessage) × Parsed cfg.max_message_size m
          × Accepted lib v m
          × (sent ≡ sent_form m))

  module _ (P : W → Type 0)
      (keeps : (m : SyslogMessage) (w : W) → Vetted m → P w → P (o.forward m w).1) where
    report-keeps :
        (payload : Value) (s : State W)
        → P s.forwarder
        → P (report_rejection o cfg.local_hostname payload s).forwarder
    unfolding report_rejection
    report-keeps payload s p = keeps _ s.forwarder (inl (payload, refl)) p

    problem-keeps :
        (problem : Option Bytes) (s : State W)
        → P s.forwarder
        → P (report_problem o cfg problem s).forwarder
    problem-keeps none s p = p
    problem-keeps (some problem) s p = report-keeps (problem_payload cfg problem) s p

    error-keeps :
        (e : FrameError) (s : State W) → P s.forwarder → P (handle_frame_error o cfg e s).forwarder
    unfolding handle_frame_error
    error-keeps e s p = problem-keeps (problem_of o e) s p

    validated-keeps :
        (m : SyslogMessage) (s : State W) (r : Outcome ValidationError (Unit {0}))
        → validate lib v m ≡ r
        → Parsed cfg.max_message_size m
        → P s.forwarder
        → P (on_validated o lib v cfg m r s).forwarder
    unfolding on_validated send
    validated-keeps m s (ok done) h parsed p =
        keeps (sent_form m) s.forwarder (inr (m, parsed, (validate_iff lib v m).0 h, refl)) p
    validated-keeps m s (err e) h parsed p =
        report-keeps (dropped_payload cfg m (validation_error_text e)) _ p
    validated-keeps m s panic h parsed p = p

    message-keeps :
        (m : SyslogMessage) (s : State W)
        → Parsed cfg.max_message_size m
        → P s.forwarder
        → P (handle_message o lib v cfg m s).forwarder
    unfolding handle_message
    message-keeps m s parsed p = validated-keeps m _ (validate lib v m) refl parsed p

    -- What every forwarding of a vetted message keeps, a session keeps.
    pub run_session-keeps :
        (decode_eof : (Bytes → Decoded) → Bytes → Decoded) (reads : Reads) (s : State W)
        → DeliversAsDecode decode_eof
        → P s.forwarder
        → P (run_session decode_eof o lib v cfg reads s).forwarder
    unfolding run_session
    run_session-keeps decode_eof reads s same p =
        let decode = codec_decode cfg cfg.framing in
        run-keeps decode (decode_eof decode) (handle_message o lib v cfg) (handle_frame_error o cfg)
          (λ t. P t.forwarder) (Parsed cfg.max_message_size) (codec-Parsed cfg cfg.framing)
          (λ buf rest m h. codec-Parsed cfg cfg.framing buf rest m (same decode buf rest m h))
          (λ m t q k. message-keeps m t q k) (λ e t k. error-keeps e t k) reads s p

-- The forwarder with a log of the messages that it was given.
abbrev pub logged : {W : Type 0} → Outside W → Outside (List SyslogMessage × W)
logged o = record {
  process_id = o.process_id;
  print = o.print;
  parse_error_text = o.parse_error_text;
  forward = λ m (log, w). ((o.forward m w).0, (log ++ m ∷ [], (o.forward m w).1));
}

-- Whatever the reads give, frame errors, panics and read errors included, and whatever the
-- forwarder does: each message that a session gives to the forwarder is a report of the daemon, or
-- the form in which it forwards a message that was parsed from a text within the limit and that the
-- validator accepts. Nothing else gets through. This is said of the log of the messages given to
-- the forwarder, if it holds of the log before; `decode_eof` may deliver only what `decode` does.
pub run_session-Vetted :
    {W : Type 0} (o : Outside W) (lib : JsonLibrary) (v : Validator lib) (cfg : SessionConfig)
    (decode_eof : (Bytes → Decoded) → Bytes → Decoded) (reads : Reads)
    (s : State (List SyslogMessage × W))
    → DeliversAsDecode decode_eof
    → All (Vetted o lib v cfg) s.forwarder.0
    → All (Vetted o lib v cfg) (run_session decode_eof (logged o) lib v cfg reads s).forwarder.0
unfolding to_forward
run_session-Vetted o lib v cfg decode_eof reads s same before =
    run_session-keeps (logged o) lib v cfg (λ w. All (Vetted o lib v cfg) w.0)
      (λ m w vetted p. All-append (Vetted o lib v cfg) w.0 (m ∷ []) p (vetted, tt)) decode_eof reads
      s same before
