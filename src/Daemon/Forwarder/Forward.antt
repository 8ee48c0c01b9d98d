-- ===== src/Daemon/Forwarder/Forward.antt =====
-- `Forwarder` of crates/logfence-daemon/src/forwarder.rs: `from_config`, cloning and `forward`. The
-- state of a clone is whether its slot holds a connection, whether the shutdown token is cancelled
-- (which all clones share), and what the operating system keeps.
use logfence.Prelude.{ℕ, Bool, true, false, Option, none, some, Bytes, ◌⊎◌, inl, inr, if◌then◌else◌}
use logfence.Io.{ErrorKind, would_block, not_connected, other_kind, IoError}
use logfence.Syslog.Types.{SyslogMessage}
use logfence.Syslog.Parse.{display}
use logfence.Daemon.Config.{
  RsyslogConfig, DgramExhausted, ForwardTransport, unix_dgram, unix_stream,
}
use logfence.Daemon.Forwarder.{send_dgram_with_retry, on_exhausted, forward_stream}

-- The calls of the operating system, each on the path of the configuration.
pub record Sockets (W : Type 0) : Type 0 where
  pub try_send_to : Bytes → W → Option IoError × W
  pub connect : W → Option IoError × W
  pub write_all : Bytes → W → Option IoError × W

pub record Forwarder : Type 0 where
  pub inner : ForwardTransport
  pub dgram_max_attempts : ℕ
  pub dgram_exhausted : DgramExhausted
  -- `shutdown` is `Some`
  pub has_token : Bool

pub record ForwarderState (W : Type 0) : Type 0 where
  pub connected : Bool
  pub cancelled : Bool
  pub world : W

abbrev pub is_not_connected : ErrorKind → Bool
is_not_connected would_block = false
is_not_connected not_connected = true
is_not_connected other_kind = false

-- The result of opening a datagram socket: what `unbound` came to, and then `shutdown(Read)`.
unfoldable pub opened : Option IoError → Option IoError → Option IoError
opened (some e) shut = some e
opened none none = none
opened none (some e) = if is_not_connected e.kind then none else some e

abbrev forwarder_of : RsyslogConfig → Bool → Forwarder
forwarder_of cfg has_token = record {
  inner = cfg.transport;
  dgram_max_attempts = cfg.dgram_max_attempts;
  dgram_exhausted = cfg.dgram_exhausted;
  has_token = has_token;
}

-- `Forwarder::from_config`
unfoldable pub from_config :
    RsyslogConfig → Bool → Option IoError → Option IoError → IoError ⊎ Forwarder
from_config cfg has_token unbound shut = elim cfg.transport [
  | unix_stream ↦ inr (forwarder_of cfg has_token)
  | unix_dgram ↦ elim (opened unbound shut) [
    | none ↦ inr (forwarder_of cfg has_token)
    | some e ↦ inl e
  ]
]

-- `Clone for StreamConn`: the slot of the clone is empty.
abbrev pub clone_state : {W : Type 0} → ForwarderState W → ForwarderState W
clone_state s = record s { connected = false }

-- The token after the retries came to `result`.
unfoldable pub token_after : Forwarder → Option IoError → Bool → Bool
token_after fw none cancelled = cancelled
token_after fw (some e) cancelled = on_exhausted fw.dgram_exhausted fw.has_token e cancelled

module _ {W : Type 0} (os : Sockets W) (fw : Forwarder) where
  abbrev pub after_dgram :
      ForwarderState W → Option (Option IoError × W) → Option (Option IoError × ForwarderState W)
  after_dgram s none = none
  after_dgram s (some (result, w)) =
      some (result, record s { cancelled = token_after fw result s.cancelled; world = w })

  -- `Forwarder::forward`. Nothing is returned if the fuel of the retries runs out.
  unfoldable pub forward :
      ℕ → SyslogMessage → ForwarderState W → Option (Option IoError × ForwarderState W)
  forward fuel msg s = elim fw.inner [
    | unix_dgram ↦
        after_dgram s
          (send_dgram_with_retry (os.try_send_to (display msg)) fw.dgram_max_attempts fuel s.world)
    | unix_stream ↦
        let (result, connected, w) =
          forward_stream os.connect os.write_all msg s.connected s.world in
        some (result, record s { connected = connected; world = w })
  ]
