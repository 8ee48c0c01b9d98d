-- ===== src/Client/Error.antt =====
-- crates/logfence-client/src/error.rs.
use logfence.Prelude.{ℕ, Bytes}
use logfence.Io.{IoError}

pub data BuildError : Type 0 where
  empty_key : BuildError
  -- the message of serde_json's error
  serialize : Bytes → BuildError

pub data ClientError : Type 0 where
  build_error : BuildError → ClientError
  message_too_large : ℕ → ℕ → ClientError
  io : IoError → ClientError
