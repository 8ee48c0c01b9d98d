-- ===== src/Daemon/Forwarder.antt =====
-- crates/logfence-daemon/src/forwarder.rs: the retries on a datagram socket, and `forward`. The
-- calls of the operating system are parameters, each with its error if there is one; the token that
-- starts a shutdown and the slot of the connection are state. Sleeping has no effect on it. Where
-- several calls open a stream one parameter stands for them, as nothing happens in between.
pub mod Delay
pub mod Retry
pub mod Forward
pub mod Shutdown
pub mod Stream
use logfence.Prelude.{
  ℕ, zero, suc, ◌+◌, ◌-◌, ◌*◌, ◌^◌, min, Bool, true, false, ◌&&◌, not, ◌∷◌, ◌++◌, Option, none,
  some, Bytes, length, ltb, ◌==◌, if◌then◌else◌,
}
use logfence.Text.{decimal}
use logfence.Io.{IoError, is_buffer_full}
use logfence.Syslog.Types.{SyslogMessage}
use logfence.Syslog.Parse.{display}
use logfence.Daemon.Config.{
  DgramExhausted, drop, terminate, ForwardTransport, unix_dgram, unix_stream, u32_max,
}

abbrev u64_max : ℕ
u64_max = 18446744073709551615

-- `1u64.checked_shl(shift)`
abbrev checked_shl : ℕ → Option ℕ
checked_shl shift = if ltb shift 64 then some (2 ^ shift) else none

-- `map_or(u64::MAX, |v| 100u64.saturating_mul(v))`
abbrev scaled : Option ℕ → ℕ
scaled none = u64_max
scaled (some v) = min (100 * v) u64_max

-- In microseconds.
unfoldable pub dgram_attempt_delay : ℕ → ℕ
dgram_attempt_delay attempt =
    let micros = scaled (checked_shl (attempt - 2)) in
    if ltb 1000000 micros then 1000000 else micros

-- `attempt.saturating_add(1)`
abbrev pub next_attempt : ℕ → ℕ
next_attempt attempt = min (attempt + 1) u32_max

-- What `try_send_to` came to: `Ok`, an error that is returned at once, or a full buffer.
pub data Try : Type 0 where
  sent : Try
  refused : IoError → Try
  full : IoError → Try

abbrev pub try_of : Option IoError → Try
try_of none = sent
try_of (some e) = if is_buffer_full e then full e else refused e

module _ {W : Type 0} (try_send_to : W → Option IoError × W) (max_attempts : ℕ) where
  -- Behind a try: with a full buffer there is another attempt.
  abbrev pub after_try :
      (IoError → W → Option (Option IoError × W)) → Option IoError × W → Option (Option IoError × W)
  after_try attempt_again (result, after) = elim (try_of result) [
    | sent ↦ some (none, after)
    | refused e ↦ some (some e, after)
    | full e ↦ attempt_again e after
  ]

  -- The loop, with `last_err`. Nothing is returned if the fuel runs out.
  unfoldable pub retry : ℕ → ℕ → IoError → W → Option (Option IoError × W)
  retry zero attempt last_err w = none
  retry (suc fuel) attempt last_err w = elim (not (max_attempts == 0) && ltb max_attempts attempt) [
    | true ↦ some (some last_err, w)
    | false ↦ after_try (retry fuel (next_attempt attempt)) (try_send_to w)
  ]

  unfoldable pub send_dgram_with_retry : ℕ → W → Option (Option IoError × W)
  send_dgram_with_retry fuel w = after_try (retry fuel 2) (try_send_to w)

-- `token.cancel()`, where there is a token: the shutdown is on.
unfoldable pub on_exhausted : DgramExhausted → Bool → IoError → Bool → Bool
on_exhausted drop has_token e cancelled = cancelled
on_exhausted terminate has_token e cancelled =
    if is_buffer_full e && has_token then true else cancelled

module _ {W : Type 0} (connect : W → Option IoError × W)
    (write_all : Bytes → W → Option IoError × W) where
  -- The text that `forward` writes to a stream.
  abbrev pub stream_frame : SyslogMessage → Bytes
  stream_frame msg = let wire = display msg in decimal (length wire) ++ b' ' ∷ wire

  -- With a connection: an error drops it.
  abbrev pub write_frame : SyslogMessage → W → Option IoError × Bool × W
  write_frame msg w =
      let (failure, after) = write_all (stream_frame msg) w in
      elim failure [ none ↦ (none, true, after) | some e ↦ (some e, false, after) ]

  -- The branch for `Inner::UnixStream`: its error, whether a connection is kept, and the state.
  unfoldable pub forward_stream : SyslogMessage → Bool → W → Option IoError × Bool × W
  forward_stream msg true w = write_frame msg w
  forward_stream msg false w =
      let (failure, after) = connect w in
      let written = write_frame msg after in
      elim failure [ none ↦ written | some e ↦ (some e, false, after) ]
