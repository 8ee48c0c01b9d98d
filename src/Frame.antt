-- ===== src/Frame.antt =====
-- crates/logfence-proto/src/frame.rs: the octet-count and the delimiter codec. A buffer is the
-- list of its bytes, and a call returns its result with the buffer that it leaves. Reserving
-- space has no effect on either.
pub mod Octet
pub mod Delimiter
pub mod Progress
use logfence.Prelude.{
  ℕ, ◌+◌, ◌%◌, ◌^◌, ◌≤◌, ◌<◌, Bool, true, false, [], ◌∷◌, ◌++◌, ◌≡◌, Option, none, some, Bytes,
  length, take, drop, ltb, if◌then◌else◌, Outcome, ok, err, panic, ◌>>=◌, map_err,
}
use logfence.Text.{split_once, from_str_radix, usize_max, decimal, is_utf8}
use logfence.Io.{IoError}
use logfence.Syslog.Types.{ParseError, SyslogMessage}
use logfence.Syslog.Parse.{parse, display}

pub data FrameError : Type 0 where
  message_too_large : ℕ → ℕ → FrameError
  invalid_octet_count : FrameError
  invalid_utf8 : FrameError
  octet_count_prefix_too_long : FrameError
  parse_error : ParseError → FrameError
  io : IoError → FrameError

abbrev pub max_digits : ℕ
max_digits = 20

-- What `decode` returns, and the buffer behind it.
abbrev pub Decoded : Type 0
Decoded = Outcome FrameError (Option SyslogMessage) × Bytes

-- What `encode` returns, and the destination behind it.
abbrev pub Encoded : Type 0
Encoded = Outcome FrameError (Unit {0}) × Bytes

-- A framed text: `from_utf8` and `SyslogMessage::parse`.
unfoldable pub decode_text : Bytes → Outcome FrameError (Option SyslogMessage)
decode_text text =
    if is_utf8 text
    then (do message ← map_err parse_error (parse text); ok (some message))
    else err invalid_utf8

-- `buf.split_to(msg_len)`, which panics out of range, and what is made of the bytes.
unfoldable pub octet_body : ℕ → Bytes → Decoded
octet_body msg_len rest =
    if ltb (length rest) msg_len
    then (panic, rest)
    else (decode_text (take msg_len rest), drop msg_len rest)

-- Behind the parse of the length prefix, which stands in `buf` before an SP and `rest`. The sum
-- is one of `usize`.
unfoldable pub octet_sized : ℕ → Bytes → Bytes → Bytes → Option ℕ → Decoded
octet_sized max_size buf len_str rest none = (err invalid_octet_count, buf)
octet_sized max_size buf len_str rest (some msg_len) =
    if ltb max_size msg_len
    then (err (message_too_large max_size msg_len), buf)
    else if ltb (length buf) ((length len_str + 1 + msg_len) % 2 ^ 64)
    then (ok none, buf)
    else octet_body msg_len rest

-- `from_utf8` and `parse` of the length prefix.
unfoldable pub octet_count : Bytes → Option ℕ
octet_count len_str = if is_utf8 len_str then from_str_radix 10 usize_max len_str else none

-- With the bytes before and behind the first SP of the buffer.
unfoldable pub octet_split : ℕ → Bytes → Option (Bytes × Bytes) → Decoded
octet_split max_size buf none =
    if ltb max_digits (length buf) then (err octet_count_prefix_too_long, buf) else (ok none, buf)
octet_split max_size buf (some (len_str, rest)) =
    octet_sized max_size buf len_str rest (octet_count len_str)

-- `OctetCountCodec::decode`
unfoldable pub octet_decode : ℕ → Bytes → Decoded
octet_decode max_size buf = octet_split max_size buf (split_once b' ' buf)

-- `OctetCountCodec::encode`
unfoldable pub octet_encode : ℕ → SyslogMessage → Bytes → Encoded
octet_encode max_size item dst =
    let msg = display item in
    let len = length msg in
    if ltb max_size len
    then (err (message_too_large max_size len), dst)
    else (ok tt, (dst ++ (decimal len ++ b' ' ∷ [])) ++ msg)

-- With the bytes before and behind the first delimiter of the buffer.
unfoldable pub delimiter_split : ℕ → Bytes → Option (Bytes × Bytes) → Decoded
delimiter_split max_size buf none =
    if ltb max_size (length buf)
    then (err (message_too_large max_size (length buf)), buf)
    else (ok none, buf)
delimiter_split max_size buf (some (text, rest)) =
    if ltb max_size (length text)
    then (err (message_too_large max_size (length text)), buf)
    else (decode_text text, rest)

-- `DelimiterCodec::decode`
unfoldable pub delimiter_decode : ℕ → ℕ → Bytes → Decoded
delimiter_decode delimiter max_size buf = delimiter_split max_size buf (split_once delimiter buf)

-- `DelimiterCodec::encode`
unfoldable pub delimiter_encode : ℕ → ℕ → SyslogMessage → Bytes → Encoded
delimiter_encode delimiter max_size item dst =
    let msg = display item in
    let len = length msg in
    if ltb max_size len
    then (err (message_too_large max_size len), dst)
    else (ok tt, (dst ++ msg) ++ delimiter ∷ [])
