-- ===== src/Daemon/Datagram/Bind.antt =====
-- `DatagramListener::bind` of crates/logfence-daemon/src/datagram_listener.rs. Logging is left out.
use logfence.Prelude.{ℕ, Option, none, some, Bytes, if◌then◌else◌}
use logfence.Io.{IoError}
use logfence.Daemon.Config.{DaemonConfig}
use logfence.Daemon.Forwarder.Forward.{Forwarder, is_not_connected}
use logfence.Daemon.Listener.Bind.{ask, remove_stale, apply_socket_permissions, hostname}
use logfence.Daemon.Os.{
  System, bind_datagram, set_recv_buffer_size, shutdown_write, M, ◌>>=◌, ◌>>◌, pure, as_result,
}

abbrev pub recv_buffer_size : ℕ
recv_buffer_size = 1_048_576

pub record DatagramListener : Type 0 where
  pub cfg : DaemonConfig
  pub forwarder : Forwarder
  pub local_hostname : Bytes

-- That a socket is not connected is no error.
abbrev pub unless_not_connected : Option IoError → Option IoError
unless_not_connected none = none
unless_not_connected (some e) = if is_not_connected e.kind then none else some e

module _ {W : Type 0} (os : System W) where
  abbrev pub read_only : M IoError W (Unit {0})
  read_only w =
      let (failure, next) = os.call shutdown_write w in
      as_result (unless_not_connected failure, next)

  unfoldable pub bind : (Bytes → Bytes) → DaemonConfig → Forwarder → M IoError W DatagramListener
  bind trim cfg forwarder = do
    remove_stale os cfg.listen_socket
    ask os (bind_datagram cfg.listen_socket)
    apply_socket_permissions os cfg.listen_socket cfg.socket_mode
    ask os (set_recv_buffer_size recv_buffer_size)
    read_only
    local_hostname ← hostname os trim
    pure (record { cfg = cfg; forwarder = forwarder; local_hostname = local_hostname })
