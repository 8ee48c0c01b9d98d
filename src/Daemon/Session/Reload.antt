-- ===== src/Daemon/Session/Reload.antt =====
-- A session while the validator is replaced: `handle_message` of
-- crates/logfence-daemon/src/session.rs borrows the validator of the watch channel anew for each
-- message. Which one it finds is a function of the number of messages that the session has handled
-- before.
use logfence.Prelude.{
  ℕ, zero, suc, ◌+◌, ◌^◌, ◌≤◌, ◌<◌, List, [], ◌∷◌, ◌++◌, ◌≡◌, refl, ap, ◌∙◌, arith, Bytes, length,
  some, none, ok, err, panic, ltb, lt→ltb, le→ltb, if◌then◌else◌,
}
use logfence.Syslog.Types.{SyslogMessage}
use logfence.Frame.{FrameError, Decoded}
use logfence.Daemon.Config.{octet_count}
use logfence.Daemon.Json.{JsonLibrary}
use logfence.Daemon.Validator.{Validator}
use logfence.Daemon.Session.{SessionConfig, State, Outside, handle_message, handle_frame_error}
use logfence.Daemon.Session.Loop.{
  Reads, bytes, eof, failed, Turn, waiting, unwound, on_decode, on_decode_eof, follow, decode_all,
  drain_eof, after_turn, run_with_codec,
}
use logfence.Daemon.Session.Run.{codec_decode, run_session}
use logfence.Daemon.Session.Delivery.{stream, received, Wire, handle_all, run-handle_all}
use logfence.Daemon.Session.Codecs.{EndsQuietly, octet_codec}

-- The state of a session with the number of messages it has handled.
pub record Live (W : Type 0) : Type 0 where
  pub session : State W
  pub seen : ℕ

module _ {W : Type 0} (o : Outside W) (lib : JsonLibrary) (validators : ℕ → Validator lib)
    (cfg : SessionConfig) where
  -- `handle_message`, with the validator that is there now.
  abbrev pub handle_live : SyslogMessage → Live W → Live W
  handle_live msg s = record {
    session = handle_message o lib (validators s.seen) cfg msg s.session;
    seen = suc s.seen;
  }

  abbrev pub frame_error_live : FrameError → Live W → Live W
  frame_error_live e s = record s { session = handle_frame_error o cfg e s.session }

  -- `run_session`
  unfoldable pub run_live : ((Bytes → Decoded) → Bytes → Decoded) → Reads → Live W → Live W
  run_live decode_eof reads s =
      let decode = codec_decode cfg cfg.framing in
      run_with_codec decode (decode_eof decode) handle_live frame_error_live reads s

-- The loop under a function between two kinds of state that the handlers respect.
module _ {S T : Type 0} (f : S → T) (decode decode_eof : Bytes → Decoded)
    (hs : SyslogMessage → S → S) (es : FrameError → S → S) (ht : SyslogMessage → T → T)
    (et : FrameError → T → T) (on_message : (m : SyslogMessage) (s : S) → f (hs m s) ≡ ht m (f s))
    (on_error : (e : FrameError) (s : S) → f (es e s) ≡ et e (f s)) where
  abbrev turn_map : Turn S → Turn T
  turn_map (waiting buf s) = waiting buf (f s)
  turn_map (unwound s) = unwound (f s)

  decode_map :
      (fuel : ℕ) (d : Decoded) (s : S)
      → ((buf : Bytes) (r : S)
          → turn_map (decode_all decode decode_eof hs es fuel buf r)
            ≡ decode_all decode decode_eof ht et fuel buf (f r))
      → turn_map
          (follow (decode_all decode decode_eof hs es fuel) (on_decode decode decode_eof hs es d s))
        ≡ follow
            (decode_all decode decode_eof ht et fuel)
            (on_decode decode decode_eof ht et d (f s))
  decode_map fuel (ok (some msg), rest) s later =
      later rest (hs msg s) ∙ ap (decode_all decode decode_eof ht et fuel rest) (on_message msg s)
  decode_map fuel (ok none, rest) s later = refl
  decode_map fuel (err e, rest) s later = ap (waiting []) (on_error e s)
  decode_map fuel (panic, rest) s later = refl

  decode_all-map :
      (fuel : ℕ) (buf : Bytes) (s : S)
      → turn_map (decode_all decode decode_eof hs es fuel buf s)
        ≡ decode_all decode decode_eof ht et fuel buf (f s)
  unfolding decode_all
  decode_all-map zero buf s = refl
  decode_all-map (suc fuel) buf s = decode_map fuel (decode buf) s (decode_all-map fuel)

  drain_map :
      (fuel : ℕ) (d : Decoded) (s : S)
      → ((buf : Bytes) (r : S)
          → f (drain_eof decode decode_eof hs es fuel buf r)
            ≡ drain_eof decode decode_eof ht et fuel buf (f r))
      → f (
          follow
            (drain_eof decode decode_eof hs es fuel)
            (on_decode_eof decode decode_eof hs es d s))
        ≡ follow
            (drain_eof decode decode_eof ht et fuel)
            (on_decode_eof decode decode_eof ht et d (f s))
  drain_map fuel (ok (some msg), rest) s later =
      later rest (hs msg s) ∙ ap (drain_eof decode decode_eof ht et fuel rest) (on_message msg s)
  drain_map fuel (ok none, rest) s later = refl
  drain_map fuel (err e, rest) s later = on_error e s
  drain_map fuel (panic, rest) s later = refl

  drain_eof-map :
      (fuel : ℕ) (buf : Bytes) (s : S)
      → f (drain_eof decode decode_eof hs es fuel buf s)
        ≡ drain_eof decode decode_eof ht et fuel buf (f s)
  unfolding drain_eof
  drain_eof-map zero buf s = refl
  drain_eof-map (suc fuel) buf s = drain_map fuel (decode_eof buf) s (drain_eof-map fuel)

  after_turn-map :
      (reads : Reads) (turn : Turn S)
      → f (after_turn decode decode_eof hs es reads turn)
        ≡ after_turn decode decode_eof ht et reads (turn_map turn)
  unfolding after_turn
  after_turn-map eof (waiting buf s) = drain_eof-map (suc (length buf)) buf s
  after_turn-map eof (unwound s) = refl
  after_turn-map (failed e) (waiting buf s) = refl
  after_turn-map (failed e) (unwound s) = refl
  after_turn-map (bytes [] rest) (waiting buf s) = drain_eof-map (suc (length buf)) buf s
  after_turn-map (bytes bs rest) (unwound s) = refl
  after_turn-map (bytes (b ∷ bs) rest) (waiting buf s) =
      after_turn-map rest
        (decode_all decode decode_eof hs es (suc (length (buf ++ b ∷ bs))) (buf ++ b ∷ bs) s)
      ∙ ap (after_turn decode decode_eof ht et rest)
          (decode_all-map (suc (length (buf ++ b ∷ bs))) (buf ++ b ∷ bs) s)

  run_with_codec-map :
      (reads : Reads) (s : S)
      → f (run_with_codec decode decode_eof hs es reads s)
        ≡ run_with_codec decode decode_eof ht et reads (f s)
  unfolding run_with_codec
  run_with_codec-map reads s =
      after_turn-map reads (decode_all decode decode_eof hs es 1 [] s)
      ∙ ap (after_turn decode decode_eof ht et reads) (decode_all-map 1 [] s)

module _ {W : Type 0} (o : Outside W) (lib : JsonLibrary) (cfg : SessionConfig) where
  -- While no validator is put in its place, a session is the one that keeps its validator.
  pub run_live-run_session :
      (decode_eof : (Bytes → Decoded) → Bytes → Decoded) (v : Validator lib) (reads : Reads)
      (s : Live W)
      → (run_live o lib (λ n. v) cfg decode_eof reads s).session
        ≡ run_session decode_eof o lib v cfg reads s.session
  unfolding run_live run_session
  run_live-run_session decode_eof v reads s =
      let decode = codec_decode cfg cfg.framing in
      run_with_codec-map (λ l. l.session) decode (decode_eof decode)
        (handle_live o lib (λ n. v) cfg) (frame_error_live o lib (λ n. v) cfg)
        (handle_message o lib v cfg) (handle_frame_error o cfg) (λ m l. refl) (λ e l. refl) reads s

  module _ (decode_eof : (Bytes → Decoded) → Bytes → Decoded) (quiet : EndsQuietly decode_eof)
      (k : cfg.max_message_size + 21 < 2 ^ 64) where
    -- All messages with one validator.
    abbrev pub handle_with : Validator lib → List SyslogMessage → State W → State W
    handle_with v ms s =
        handle_all (octet_codec decode_eof quiet cfg.max_message_size k)
          (handle_message o lib v cfg) (handle_frame_error o cfg) ms s

    -- One validator for so many messages, and another from then on.
    abbrev pub replaced : ℕ → Validator lib → Validator lib → ℕ → Validator lib
    replaced count old new n = if ltb n count then old else new

    module _ (count : ℕ) (old new : Validator lib) where
      abbrev handle_each : List SyslogMessage → Live W → Live W
      handle_each ms s =
          handle_all (octet_codec decode_eof quiet cfg.max_message_size k)
            (handle_live o lib (replaced count old new) cfg)
            (frame_error_live o lib (replaced count old new) cfg) ms s

      handle_each-append :
          (ms rest : List SyslogMessage) (s : Live W)
          → handle_each (ms ++ rest) s ≡ handle_each rest (handle_each ms s)
      handle_each-append [] rest s = refl
      handle_each-append (m ∷ ms) rest s = handle_each-append ms rest _

      handle_each-old :
          (ms : List SyslogMessage) (s : Live W)
          → s.seen + length ms ≤ count
          → handle_each ms s
            ≡ record { session = handle_with old ms s.session; seen = s.seen + length ms }
      handle_each-old [] s h = ap (λ n. record { session = s.session; seen = n }) (omega arith)
      handle_each-old (m ∷ ms) s h =
          let first : replaced count old new s.seen ≡ old =
            rw (lt→ltb s.seen count (omega (arith, h))) refl in
          ap
            (λ v.
              handle_each ms
                (record { session = handle_message o lib v cfg m s.session; seen = suc s.seen }))
            first
          ∙ handle_each-old ms
              (record { session = handle_message o lib old cfg m s.session; seen = suc s.seen })
              (omega (arith, h))
          ∙ ap (λ n. record { session = handle_with old (m ∷ ms) s.session; seen = n })
              (omega arith)

      handle_each-new :
          (ms : List SyslogMessage) (s : Live W)
          → count ≤ s.seen
          → (handle_each ms s).session ≡ handle_with new ms s.session
      handle_each-new [] s h = refl
      handle_each-new (m ∷ ms) s h =
          let first : replaced count old new s.seen ≡ new = rw (le→ltb s.seen count h) refl in
          ap
            (λ v.
              (handle_each ms (record {
                session = handle_message o lib v cfg m s.session;
                seen = suc s.seen;
              })).session)
            first
          ∙ handle_each-new ms
              (record { session = handle_message o lib new cfg m s.session; seen = suc s.seen })
              (omega (arith, h))

    -- With octet counts and a limit of less than 2^64 - 21 bytes: if what a stream gives up to its
    -- end is the frames of two sequences of messages, one behind the other, and the validator is
    -- replaced when the session has handled the first sequence, then, wherever the reads cut the
    -- bytes, the session handles each message once and in order, those of the first sequence with
    -- the old validator and those of the second with the new one.
    pub run_live-replaced :
        (before later : List SyslogMessage) (old new : Validator lib) (reads : List (ℕ × Bytes))
        (s : State W)
        → cfg.framing ≡ octet_count
        → Wire
            (octet_codec decode_eof quiet cfg.max_message_size k)
            (before ++ later)
            (received reads)
        → (run_live o lib
            (replaced (length before) old new)
            cfg
            decode_eof
            (stream reads)
            (record { session = s; seen = 0 })).session
          ≡ handle_with new later (handle_with old before s)
    unfolding run_live
    run_live-replaced before later old new reads s framing w =
        let live = replaced (length before) old new in
        let codec = octet_codec decode_eof quiet cfg.max_message_size k in
        let begin : Live W = record { session = s; seen = 0 } in
        let behind : Live W = record {
          session = handle_with old before s;
          seen = 0 + length before;
        } in
        ap
          (λ d.
            (run_with_codec d (decode_eof d) (handle_live o lib live cfg)
              (frame_error_live o lib live cfg) (stream reads) begin).session)
          (ap (codec_decode cfg) framing)
        ∙ ap (λ l. l.session)
            (run-handle_all codec (handle_live o lib live cfg) (frame_error_live o lib live cfg)
              (before ++ later) reads begin w)
        ∙ ap (λ l. l.session) (handle_each-append (length before) old new before later begin)
        ∙ ap (λ l. (handle_each (length before) old new later l).session)
            (handle_each-old (length before) old new before begin (omega arith))
        ∙ handle_each-new (length before) old new later behind (omega arith)
