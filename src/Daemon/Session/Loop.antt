-- ===== src/Daemon/Session/Loop.antt =====
-- `run_with_codec` of crates/logfence-daemon/src/session.rs. What the stream gives to each read is
-- a sequence. A codec is its `decode` and `decode_eof`, each a function of the buffer; the second
-- is a default of tokio_util. A codec's call is bounded by fuel, one more than the
-- bytes of the buffer, of which each message takes one or more.
use logfence.Prelude.{ℕ, zero, suc, [], ◌∷◌, ◌++◌, none, some, Bytes, length, ok, err, panic}
use logfence.Io.{IoError}
use logfence.Syslog.Types.{SyslogMessage}
use logfence.Frame.{FrameError, Decoded}

-- The reads of a stream: bytes, zero of them at its end, or an error.
pub data Reads : Type 0 where
  bytes : Bytes → Reads → Reads
  eof : Reads
  failed : IoError → Reads

-- After the calls of `decode`: the loop waits for a read, with its buffer, or a panic unwinds.
pub data Turn (S : Type 0) : Type 0 where
  waiting : Bytes → S → Turn S
  unwound : S → Turn S

-- One call of a codec: the loop goes around with the rest of the buffer, or stops.
pub data Round (S R : Type 0) : Type 0 where
  again : Bytes → S → Round S R
  stop : R → Round S R

abbrev pub follow : {S R : Type 0} → (Bytes → S → R) → Round S R → R
follow go (again rest after) = go rest after
follow go (stop result) = result

module _ {S : Type 0} (decode decode_eof : Bytes → Decoded) (handle_message : SyslogMessage → S → S)
    (handle_frame_error : FrameError → S → S) where
  -- The `match codec.decode(&mut buf)`. Behind an error the buffer is cleared.
  abbrev pub on_decode : Decoded → S → Round S (Turn S)
  on_decode (ok (some msg), rest) s = again rest (handle_message msg s)
  on_decode (ok none, rest) s = stop (waiting rest s)
  on_decode (err e, rest) s = stop (waiting [] (handle_frame_error e s))
  on_decode (panic, rest) s = stop (unwound s)

  -- The calls of `decode` up to the next read.
  unfoldable pub decode_all : ℕ → Bytes → S → Turn S
  decode_all zero buf s = waiting buf s
  decode_all (suc fuel) buf s = follow (decode_all fuel) (on_decode (decode buf) s)

  -- The `match codec.decode_eof(&mut buf)`.
  abbrev pub on_decode_eof : Decoded → S → Round S S
  on_decode_eof (ok (some msg), rest) s = again rest (handle_message msg s)
  on_decode_eof (ok none, rest) s = stop s
  on_decode_eof (err e, rest) s = stop (handle_frame_error e s)
  on_decode_eof (panic, rest) s = stop s

  -- The calls of `decode_eof` at the end of the stream.
  unfoldable pub drain_eof : ℕ → Bytes → S → S
  drain_eof zero buf s = s
  drain_eof (suc fuel) buf s = follow (drain_eof fuel) (on_decode_eof (decode_eof buf) s)

  unfoldable pub after_turn : Reads → Turn S → S
  after_turn eof (waiting buf s) = drain_eof (suc (length buf)) buf s
  after_turn (failed e) (waiting buf s) = s
  after_turn (bytes [] rest) (waiting buf s) = drain_eof (suc (length buf)) buf s
  after_turn (bytes (b ∷ bs) rest) (waiting buf s) =
      after_turn rest (decode_all (suc (length (buf ++ b ∷ bs))) (buf ++ b ∷ bs) s)
  after_turn eof (unwound s) = s
  after_turn (failed e) (unwound s) = s
  after_turn (bytes bs rest) (unwound s) = s

  unfoldable pub run_with_codec : Reads → S → S
  run_with_codec reads s = after_turn reads (decode_all 1 [] s)
