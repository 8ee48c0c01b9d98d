-- ===== src/Daemon/Session/Invariant.antt =====
-- What every turn of the loop keeps, and the balance of the counters over a session.
use logfence.Prelude.{
  ℕ, zero, suc, [], ◌∷◌, ◌++◌, ◌≡◌, refl, Option, none, some, Bytes, ok, err, panic,
}
use logfence.Syslog.Types.{SyslogMessage}
use logfence.Frame.{FrameError, Decoded}
use logfence.Daemon.Json.{JsonLibrary}
use logfence.Daemon.Validator.{Validator}
use logfence.Daemon.Session.{
  SessionConfig, State, Outside, report_problem, report_rejection, problem_of, handle_message,
  handle_frame_error,
}
use logfence.Daemon.Session.Accounting.{IsBalanced, handle_message-IsBalanced}
use logfence.Daemon.Session.Loop.{
  Reads, bytes, eof, failed, Turn, waiting, unwound, follow, on_decode, on_decode_eof, decode_all,
  drain_eof, after_turn, run_with_codec,
}
use logfence.Daemon.Session.Run.{codec_decode, run_session}

module _ {S : Type 0} (decode decode_eof : Bytes → Decoded) (handle : SyslogMessage → S → S)
    (handle_error : FrameError → S → S) (P : S → Type 0) (Q : SyslogMessage → Type 0)
    (delivers : (buf rest : Bytes) (m : SyslogMessage) → decode buf ≡ (ok (some m), rest) → Q m)
    (delivers_eof : (buf rest : Bytes) (m : SyslogMessage)
      → decode_eof buf ≡ (ok (some m), rest)
      → Q m)
    (keeps : (m : SyslogMessage) (s : S) → Q m → P s → P (handle m s))
    (keeps_error : (e : FrameError) (s : S) → P s → P (handle_error e s)) where
  abbrev OnTurn : Turn S → Type 0
  OnTurn (waiting buf s) = P s
  OnTurn (unwound s) = P s

  follow-turn :
      (go : Bytes → S → Turn S) (d : Decoded) (s : S)
      → ((rest : Bytes) (m : SyslogMessage) → d ≡ (ok (some m), rest) → Q m)
      → ((buf : Bytes) (s : S) → P s → OnTurn (go buf s))
      → P s
      → OnTurn (follow go (on_decode decode decode_eof handle handle_error d s))
  follow-turn go (ok (some m), rest) s q k p = k rest (handle m s) (keeps m s (q rest m refl) p)
  follow-turn go (ok none, rest) s q k p = p
  follow-turn go (err e, rest) s q k p = keeps_error e s p
  follow-turn go (panic, rest) s q k p = p

  follow-eof :
      (go : Bytes → S → S) (d : Decoded) (s : S)
      → ((rest : Bytes) (m : SyslogMessage) → d ≡ (ok (some m), rest) → Q m)
      → ((buf : Bytes) (s : S) → P s → P (go buf s))
      → P s
      → P (follow go (on_decode_eof decode decode_eof handle handle_error d s))
  follow-eof go (ok (some m), rest) s q k p = k rest (handle m s) (keeps m s (q rest m refl) p)
  follow-eof go (ok none, rest) s q k p = p
  follow-eof go (err e, rest) s q k p = keeps_error e s p
  follow-eof go (panic, rest) s q k p = p

  decode_all-keeps :
      (fuel : ℕ) (buf : Bytes) (s : S)
      → P s
      → OnTurn (decode_all decode decode_eof handle handle_error fuel buf s)
  unfolding decode_all
  decode_all-keeps zero buf s p = p
  decode_all-keeps (suc fuel) buf s p =
      follow-turn _ (decode buf) s (delivers buf) (decode_all-keeps fuel) p

  drain_eof-keeps :
      (fuel : ℕ) (buf : Bytes) (s : S)
      → P s
      → P (drain_eof decode decode_eof handle handle_error fuel buf s)
  unfolding drain_eof
  drain_eof-keeps zero buf s p = p
  drain_eof-keeps (suc fuel) buf s p =
      follow-eof _ (decode_eof buf) s (delivers_eof buf) (drain_eof-keeps fuel) p

  after_turn-keeps :
      (reads : Reads) (turn : Turn S)
      → OnTurn turn
      → P (after_turn decode decode_eof handle handle_error reads turn)
  unfolding after_turn
  after_turn-keeps eof (waiting buf s) p = drain_eof-keeps _ buf s p
  after_turn-keeps (failed e) (waiting buf s) p = p
  after_turn-keeps (bytes [] rest) (waiting buf s) p = drain_eof-keeps _ buf s p
  after_turn-keeps (bytes (b ∷ bs) rest) (waiting buf s) p =
      after_turn-keeps rest _ (decode_all-keeps _ (buf ++ b ∷ bs) s p)
  after_turn-keeps eof (unwound s) p = p
  after_turn-keeps (failed e) (unwound s) p = p
  after_turn-keeps (bytes [] rest) (unwound s) p = p
  after_turn-keeps (bytes (b ∷ bs) rest) (unwound s) p = p

  pub run-keeps :
      (reads : Reads) (s : S)
      → P s
      → P (run_with_codec decode decode_eof handle handle_error reads s)
  unfolding run_with_codec
  run-keeps reads s p = after_turn-keeps reads _ (decode_all-keeps 1 [] s p)

report_problem-IsBalanced :
    {W : Type 0} (o : Outside W) (cfg : SessionConfig) (problem : Option Bytes) (s : State W)
    → IsBalanced s.metrics
    → IsBalanced (report_problem o cfg problem s).metrics
unfolding report_rejection
report_problem-IsBalanced o cfg none s b = b
report_problem-IsBalanced o cfg (some problem) s b = b

handle_frame_error-IsBalanced :
    {W : Type 0} (o : Outside W) (cfg : SessionConfig) (e : FrameError) (s : State W)
    → IsBalanced s.metrics
    → IsBalanced (handle_frame_error o cfg e s).metrics
unfolding handle_frame_error
handle_frame_error-IsBalanced o cfg e s b = report_problem-IsBalanced o cfg (problem_of o e) s b

-- Whatever the reads give, frame errors, panics and read errors included, a session keeps the
-- balance of the counters: the messages received are, modulo 2^64, those forwarded, dropped, and
-- failed to be sent.
pub run_session-IsBalanced :
    {W : Type 0} (decode_eof : (Bytes → Decoded) → Bytes → Decoded) (o : Outside W)
    (lib : JsonLibrary) (v : Validator lib) (cfg : SessionConfig) (reads : Reads) (s : State W)
    → IsBalanced s.metrics
    → IsBalanced (run_session decode_eof o lib v cfg reads s).metrics
unfolding run_session
run_session-IsBalanced decode_eof o lib v cfg reads s b =
    run-keeps (codec_decode cfg cfg.framing) (decode_eof (codec_decode cfg cfg.framing))
      (handle_message o lib v cfg) (handle_frame_error o cfg) (λ t. IsBalanced t.metrics)
      (λ m. Unit) (λ buf rest m h. tt) (λ buf rest m h. tt)
      (λ m t q k. handle_message-IsBalanced lib o v cfg m t k)
      (λ e t k. handle_frame_error-IsBalanced o cfg e t k) reads s b
