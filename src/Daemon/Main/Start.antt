-- ===== src/Daemon/Main/Start.antt =====
-- The start of `main` in crates/logfence-daemon/src/main.rs: what is loaded, built and opened
-- before the daemon waits for signals. Reading files leaves the system as it is; the file of the
-- log, the sockets and the task of the stats socket are calls. That task goes on beside the rest,
-- and what it does meanwhile to its own socket is part of the one call that spawns it.
use logfence.Prelude.{
  Bool, true, Option, none, some, Bytes, codes, Outcome, ok, err, panic, map_err, of_result,
  bytes_eq, if◌then◌else◌, ◌⊎◌,
}
use logfence.Io.{IoError}
use logfence.Daemon.Config.{
  Config, DaemonConfig, RsyslogConfig, ForwardTransport, MetricsConfig, ConfigError,
  ListenTransport, unix_stream, unix_dgram, load,
}
use logfence.Daemon.Json.{JsonLibrary}
use logfence.Daemon.Validator.{Validator}
use logfence.Daemon.Forwarder.Forward.{Forwarder, from_config}
use logfence.Daemon.Listener.Bind.{Listener}
use logfence.Daemon.Datagram.Bind.{DatagramListener}
use logfence.Daemon.Main.{Files, build_validator}
use logfence.Daemon.Os.{
  System, M, open_append, open_datagram, shutdown_read, spawn_stats, ◌>>=◌, ◌>>◌, pure, lift,
}

-- Where `main` returns `ExitCode::FAILURE`.
pub data StartError : Type 0 where
  config_failed : ConfigError → StartError
  validator_failed : Bytes → StartError
  forwarder_failed bind_failed : IoError → StartError

-- The listener that a task runs.
pub data ListenerTask : Type 0 where
  on_stream : Listener → ListenerTask
  on_datagrams : DatagramListener → ListenerTask

-- The settings of the log, which are the file's if it loads.
abbrev pub log_settings : Outcome ConfigError Config → Bytes × Bytes
log_settings (ok c) = (c.logging.level, c.logging.output)
log_settings (err e) = (codes "info", codes "stderr")
log_settings panic = (codes "info", codes "stderr")

pub data LogWriter : Type 0 where
  to_stderr : LogWriter
  to_file : Bytes → LogWriter

module _ {W : Type 0} (os : System W) (lib : JsonLibrary) where
  -- `init_logging`: the filter and the writer. Whether a text is a filter is another crate's. A
  -- file that cannot be opened to append to it is only reported.
  unfoldable pub init_logging : (Bytes → Bool) → Bytes → Bytes → W → (Bytes × LogWriter) × W
  init_logging is_filter level output w =
      let filter = if is_filter level then level else codes "info" in
      let (failure, opened) = os.call (open_append output) w in
      if bytes_eq output (codes "stderr")
      then ((filter, to_stderr), w)
      else ((filter, elim failure [ none ↦ to_file output | some e ↦ to_stderr ]), opened)

  abbrev pub logged : (Bytes → Bool) → Outcome ConfigError Config → W → (Bytes × LogWriter) × W
  logged is_filter cfg_result w =
      init_logging is_filter (log_settings cfg_result).0 (log_settings cfg_result).1 w

  -- What `from_config` comes to, and the state behind its calls: without a datagram socket there
  -- are none, and one that could not be opened is not shut.
  abbrev pub forwarder_result : RsyslogConfig → W → IoError ⊎ Forwarder
  forwarder_result cfg w =
      let (unbound, bound) = os.call open_datagram w in
      from_config cfg true unbound (os.call shutdown_read bound).0

  abbrev pub shut_state : Option IoError × W → W
  shut_state (none, bound) = (os.call shutdown_read bound).1
  shut_state (some e, after) = after

  abbrev pub forwarder_state : ForwardTransport → W → W
  forwarder_state ForwardTransport.unix_stream w = w
  forwarder_state ForwardTransport.unix_dgram w = shut_state (os.call open_datagram w)

  abbrev pub open_forwarder : RsyslogConfig → M StartError W Forwarder
  open_forwarder cfg w = (
    map_err forwarder_failed (of_result (forwarder_result cfg w)),
    forwarder_state cfg.transport w,
  )

  abbrev pub stats_state : MetricsConfig → W → W
  stats_state cfg w = if cfg.enabled then (os.call (spawn_stats cfg.socket) w).1 else w

  abbrev pub spawn_stats_task : MetricsConfig → M StartError W (Unit {0})
  spawn_stats_task cfg w = (ok tt, stats_state cfg w)

  -- What the daemon runs on.
  pub record Started : Type 0 where
    pub logging : Bytes × LogWriter
    pub cfg : Config
    pub validator : Validator lib
    -- the path of the stats socket, if it is served
    pub stats_socket : Option Bytes
    pub listener_task : ListenerTask

  abbrev pub stats_socket_of : MetricsConfig → Option Bytes
  stats_socket_of cfg = if cfg.enabled then some cfg.socket else none

  abbrev pub to_task :
      {A : Type 0}
      → (A → ListenerTask)
      → Outcome IoError A × W
      → Outcome StartError ListenerTask × W
  to_task task (ok listener, w) = (ok (task listener), w)
  to_task task (err e, w) = (err (bind_failed e), w)
  to_task task (panic, w) = (panic, w)

  abbrev pub bind_listener :
      (Bytes → Bytes) → ListenTransport → DaemonConfig → Forwarder → M StartError W ListenerTask
  bind_listener trim unix_stream cfg forwarder w =
      to_task on_stream (logfence.Daemon.Listener.Bind.bind os trim cfg forwarder w)
  bind_listener trim unix_dgram cfg forwarder w =
      to_task on_datagrams (logfence.Daemon.Datagram.Bind.bind os trim cfg forwarder w)

  -- Behind `init_logging`.
  abbrev pub start_logged :
      Files
      → (Bytes → Bytes)
      → Bytes × LogWriter
      → Outcome ConfigError Config
      → M StartError W Started
  start_logged files trim logging cfg_result = do
    cfg ← lift (map_err config_failed cfg_result)
    validator ← lift (map_err validator_failed (build_validator lib files cfg.validation))
    forwarder ← open_forwarder cfg.rsyslog
    spawn_stats_task cfg.metrics
    listener_task ← bind_listener trim cfg.daemon.listen_transport cfg.daemon forwarder
    pure (record {
      logging = logging;
      cfg = cfg;
      validator = validator;
      stats_socket = stats_socket_of cfg.metrics;
      listener_task = listener_task;
    })

  -- `main` up to `handle_signals`.
  unfoldable pub start :
      Bytes
      → Files
      → (Bytes → Outcome Bytes Config)
      → (Bytes → Bool)
      → (Bytes → Bytes)
      → M StartError W Started
  start config_path files from_toml is_filter trim w =
      let cfg_result = load config_path files.read_config from_toml in
      let (logging, after) = logged is_filter cfg_result w in
      start_logged files trim logging cfg_result after
