-- ===== src/Io.antt =====
-- What the crates read of a `std::io::Error`: its kind and its operating-system code.
use logfence.Prelude.{ℕ, Bool, true, false, ◌||◌, ◌==◌, Option, none, some}

pub data ErrorKind : Type 0 where
  would_block not_connected other_kind : ErrorKind

pub record IoError : Type 0 where
  pub kind : ErrorKind
  pub raw_os_error : Option ℕ

abbrev is_would_block : ErrorKind → Bool
is_would_block would_block = true
is_would_block not_connected = false
is_would_block other_kind = false

abbrev is_no_buffer_space : Option ℕ → Bool
is_no_buffer_space none = false
is_no_buffer_space (some code) = code == 105 || code == 55

-- `is_buffer_full` of the forwarder and of the client's transport.
unfoldable pub is_buffer_full : IoError → Bool
is_buffer_full e = is_would_block e.kind || is_no_buffer_space e.raw_os_error
