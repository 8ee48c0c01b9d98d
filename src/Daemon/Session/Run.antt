-- ===== src/Daemon/Session/Run.antt =====
-- `run_session` of crates/logfence-daemon/src/session.rs: the codec of the configured framing under
-- the loop. tokio_util's `decode_eof`, a default on top of `decode`, is a parameter. The validator
-- is the one that the session starts with; its replacement is in Reload.
use logfence.Prelude.{Bytes}
use logfence.Frame.{Decoded, octet_decode, delimiter_decode}
use logfence.Daemon.Config.{FramingMode, octet_count, newline}
use logfence.Daemon.Json.{JsonLibrary}
use logfence.Daemon.Validator.{Validator}
use logfence.Daemon.Session.{SessionConfig, State, Outside, handle_message, handle_frame_error}
use logfence.Daemon.Session.Loop.{Reads, run_with_codec}

-- The `decode` of the codec that `run_session` makes.
abbrev pub codec_decode : SessionConfig → FramingMode → Bytes → Decoded
codec_decode cfg octet_count = octet_decode cfg.max_message_size
codec_decode cfg newline = delimiter_decode b'\n' cfg.max_message_size

unfoldable pub run_session :
    {W : Type 0}
    → ((Bytes → Decoded) → Bytes → Decoded)
    → Outside W
    → (lib : JsonLibrary) → Validator lib
    → SessionConfig
    → Reads
    → State W
    → State W
run_session decode_eof o lib v cfg reads s =
    let decode = codec_decode cfg cfg.framing in
    run_with_codec decode (decode_eof decode) (handle_message o lib v cfg)
      (handle_frame_error o cfg) reads s
