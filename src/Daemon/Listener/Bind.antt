-- ===== src/Daemon/Listener/Bind.antt =====
-- `Listener::bind` of crates/logfence-daemon/src/listener.rs. Logging is left out.
use logfence.Prelude.{ℕ, Bool, true, false, Bytes}
use logfence.Io.{IoError}
use logfence.Daemon.Config.{DaemonConfig, permission_bits}
use logfence.Daemon.Forwarder.Forward.{Forwarder}
use logfence.Daemon.Listener.{detect_hostname}
use logfence.Daemon.Os.{
  System, Call, remove_file, bind_stream, set_permissions, M, ◌>>=◌, ◌>>◌, pure, as_result,
}

-- The semaphore is its number of permits.
pub record Listener : Type 0 where
  pub semaphore : ℕ
  pub cfg : DaemonConfig
  pub forwarder : Forwarder
  pub local_hostname : Bytes

module _ {W : Type 0} (os : System W) where
  abbrev pub ask : Call → M IoError W (Unit {0})
  ask c w = as_result (os.call c w)

  abbrev pub remove_if : Bool → Bytes → M IoError W (Unit {0})
  remove_if true path = ask (remove_file path)
  remove_if false path = pure tt

  -- `if path.exists() { std::fs::remove_file(path)?; }`
  abbrev pub remove_stale : Bytes → M IoError W (Unit {0})
  remove_stale path w = remove_if (os.exists path w) path w

  abbrev pub apply_socket_permissions : Bytes → Bytes → M IoError W (Unit {0})
  apply_socket_permissions path mode_str = ask (set_permissions path (permission_bits mode_str))

  -- `detect_hostname`
  abbrev pub hostname : (Bytes → Bytes) → M IoError W Bytes
  hostname trim w = pure (detect_hostname trim (os.read_hostname w)) w

  unfoldable pub bind : (Bytes → Bytes) → DaemonConfig → Forwarder → M IoError W Listener
  bind trim cfg forwarder = do
    remove_stale cfg.listen_socket
    ask (bind_stream cfg.listen_socket)
    apply_socket_permissions cfg.listen_socket cfg.socket_mode
    local_hostname ← hostname trim
    pure (record {
      semaphore = cfg.max_connections;
      cfg = cfg;
      forwarder = forwarder;
      local_hostname = local_hostname;
    })
