-- ===== src/Client/Transport.antt =====
-- crates/logfence-client/src/transport.rs. The calls of the operating system are parameters, each
-- with its error if there is one; where several calls open a stream one parameter stands for them,
-- as nothing happens in between. `is_buffer_full`, the delays and the loop of the retries are those
-- of the daemon's forwarder, in the same words, and stand there.
pub mod Held
pub mod Same
use logfence.Prelude.{
  ℕ, Bool, true, false, ◌∷◌, ◌++◌, Option, none, some, Bytes, length, ltb, if◌then◌else◌, Outcome,
  ok, err,
}
use logfence.Text.{decimal}
use logfence.Io.{IoError}
use logfence.Syslog.Types.{SyslogMessage}
use logfence.Syslog.Parse.{display}
use logfence.Client.Error.{ClientError, message_too_large, io}
use logfence.Daemon.Forwarder.{send_dgram_with_retry}
use logfence.Daemon.Forwarder.Forward.{is_not_connected}

-- What a `send` returns, with the transport behind it.
abbrev pub Sent : Type 0 → Type 0
Sent S = Outcome ClientError (Unit {0}) × S

pub record UnixTransport (W : Type 0) : Type 0 where
  pub max_size : ℕ
  -- `stream` is `Some`
  pub connected : Bool
  pub world : W

-- `UnixTransport::new`
abbrev pub new_unix : {W : Type 0} → ℕ → W → UnixTransport W
new_unix max_size w = record { max_size = max_size; connected = false; world = w }

pub record StreamSocket (W : Type 0) : Type 0 where
  pub connect : W → Option IoError × W
  pub write_all : Bytes → W → Option IoError × W

-- Behind `write_all`: an error drops the connection.
abbrev pub unix_written :
    {W : Type 0} → UnixTransport W → Option IoError × W → Sent (UnixTransport W)
unix_written t (none, w) = (ok tt, record t { connected = true; world = w })
unix_written t (some e, w) = (err (io e), record t { connected = false; world = w })

module _ {W : Type 0} (os : StreamSocket W) where
  -- With what connecting came to.
  abbrev pub unix_connected : Bytes → UnixTransport W → Option IoError × W → Sent (UnixTransport W)
  unix_connected frame t (none, w) = unix_written t (os.write_all frame w)
  unix_connected frame t (some e, w) = (err (io e), record t { world = w })

  -- `send` of `UnixTransport`
  unfoldable pub unix_send : SyslogMessage → UnixTransport W → Sent (UnixTransport W)
  unix_send msg t =
      let wire = display msg in
      let frame = decimal (length wire) ++ b' ' ∷ wire in
      if ltb t.max_size (length wire)
      then (err (message_too_large t.max_size (length wire)), t)
      else if t.connected
      then unix_written t (os.write_all frame t.world)
      else unix_connected frame t (os.connect t.world)

pub record UnixDatagramTransport (W : Type 0) : Type 0 where
  pub max_size : ℕ
  pub max_attempts : ℕ
  -- `socket` is `Some`
  pub has_socket : Bool
  pub world : W

-- `UnixDatagramTransport::new`
abbrev pub new_dgram : {W : Type 0} → ℕ → W → UnixDatagramTransport W
new_dgram max_size w = record {
  max_size = max_size;
  max_attempts = 4;
  has_socket = false;
  world = w;
}

-- `UnixDatagramTransport::max_attempts`
abbrev pub set_max_attempts : {W : Type 0} → UnixDatagramTransport W → ℕ → UnixDatagramTransport W
set_max_attempts t n = record t { max_attempts = n }

pub record DatagramSocket (W : Type 0) : Type 0 where
  pub unbound : W → Option IoError × W
  pub shutdown_read : W → Option IoError × W
  pub try_send_to : Bytes → W → Option IoError × W

module _ {W : Type 0} (os : DatagramSocket W) where
  -- The call of `shutdown`: its error, unless the socket is only not connected.
  abbrev shutdown_failure : Option IoError → Option IoError
  shutdown_failure none = none
  shutdown_failure (some e) = if is_not_connected e.kind then none else some e

  -- `unbound()?` and `shutdown`.
  abbrev pub open_socket : W → Option IoError × W
  open_socket w =
      let (failure, bound) = os.unbound w in
      let (shut, closed) = os.shutdown_read bound in
      elim failure [ none ↦ (shutdown_failure shut, closed) | some e ↦ (some e, bound) ]

  -- Behind the retries: every error drops the socket.
  abbrev pub dgram_result :
      UnixDatagramTransport W
      → Option (Option IoError × W)
      → Option (Sent (UnixDatagramTransport W))
  dgram_result t none = none
  dgram_result t (some (none, w)) = some (ok tt, record t { has_socket = true; world = w })
  dgram_result t (some (some e, w)) = some (err (io e), record t { has_socket = false; world = w })

  -- With a socket.
  abbrev pub dgram_deliver :
      ℕ → Bytes → UnixDatagramTransport W → W → Option (Sent (UnixDatagramTransport W))
  dgram_deliver fuel wire t w =
      dgram_result t (send_dgram_with_retry (os.try_send_to wire) t.max_attempts fuel w)

  -- With what opening a socket came to.
  abbrev pub dgram_opened :
      ℕ
      → Bytes
      → UnixDatagramTransport W
      → Option IoError × W
      → Option (Sent (UnixDatagramTransport W))
  dgram_opened fuel wire t (none, w) = dgram_deliver fuel wire t w
  dgram_opened fuel wire t (some e, w) = some (err (io e), record t { world = w })

  -- `send` of `UnixDatagramTransport`. Nothing is returned if the fuel of the retries runs out.
  unfoldable pub dgram_send :
      ℕ → SyslogMessage → UnixDatagramTransport W → Option (Sent (UnixDatagramTransport W))
  dgram_send fuel msg t =
      let wire = display msg in
      if ltb t.max_size (length wire)
      then some (err (message_too_large t.max_size (length wire)), t)
      else if t.has_socket
      then dgram_deliver fuel wire t t.world
      else dgram_opened fuel wire t (open_socket t.world)
