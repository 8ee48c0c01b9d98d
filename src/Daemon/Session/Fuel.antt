-- ===== src/Daemon/Session/Fuel.antt =====
-- The fuel of the loop over the calls of `decode`.
use logfence.Prelude.{
  ℕ, zero, suc, ◌<◌, ◌≡◌, refl, arith, none, some, Bytes, length, ok, err, panic,
}
use logfence.Syslog.Types.{SyslogMessage}
use logfence.Frame.{FrameError, Decoded}
use logfence.Frame.Progress.{Delivered-shorter, octet_decode_sound, delimiter_decode_sound}
use logfence.Daemon.Config.{FramingMode, octet_count, newline}
use logfence.Daemon.Session.{SessionConfig}
use logfence.Daemon.Session.Loop.{Turn, follow, on_decode, decode_all}
use logfence.Daemon.Session.Run.{codec_decode}

codec_decode-shorter :
    (cfg : SessionConfig) (framing : FramingMode) (buf rest : Bytes) (m : SyslogMessage)
    → codec_decode cfg framing buf ≡ (ok (some m), rest)
    → length rest < length buf
codec_decode-shorter cfg octet_count buf rest m h =
    Delivered-shorter cfg.max_message_size buf rest m
      (octet_decode_sound cfg.max_message_size buf rest m h)
codec_decode-shorter cfg newline buf rest m h =
    Delivered-shorter cfg.max_message_size buf rest m
      (delimiter_decode_sound b'\n' cfg.max_message_size buf rest m h)

module _ {S : Type 0} (cfg : SessionConfig) (framing : FramingMode) (decode_eof : Bytes → Decoded)
    (handle_message : SyslogMessage → S → S) (handle_frame_error : FrameError → S → S) where
  follow-same :
      (go on : Bytes → S → Turn S) (buf : Bytes) (s : S) (d : Decoded)
      → codec_decode cfg framing buf ≡ d
      → ((rest : Bytes) (t : S) → length rest < length buf → go rest t ≡ on rest t)
      → follow go
          (on_decode (codec_decode cfg framing) decode_eof handle_message handle_frame_error d s)
        ≡ follow on
            (on_decode (codec_decode cfg framing) decode_eof handle_message handle_frame_error d s)
  follow-same go on buf s (ok (some m), rest) h same =
      same rest (handle_message m s) (codec_decode-shorter cfg framing buf rest m h)
  follow-same go on buf s (ok none, rest) h same = refl
  follow-same go on buf s (err e, rest) h same = refl
  follow-same go on buf s (panic, rest) h same = refl

  -- For both codecs any fuel above the bytes of the buffer gives the same turn, so that the fuel of
  -- the loop, one more than the bytes, never ends it.
  pub decode_all_enough :
      (fuel more : ℕ) (buf : Bytes) (s : S)
      → length buf < fuel
      → length buf < more
      → decode_all
          (codec_decode cfg framing)
          decode_eof
          handle_message
          handle_frame_error
          fuel
          buf
          s
        ≡ decode_all
            (codec_decode cfg framing)
            decode_eof
            handle_message
            handle_frame_error
            more
            buf
            s
  unfolding decode_all
  decode_all_enough zero more buf s h k = absurd (omega arith)
  decode_all_enough (suc fuel) zero buf s h k = absurd (omega arith)
  decode_all_enough (suc fuel) (suc more) buf s h k =
      follow-same _ _ buf s (codec_decode cfg framing buf) refl
        (λ rest t short. decode_all_enough fuel more rest t (omega arith) (omega arith))
