-- ===== src/Tests/Start.antt =====
-- The theorems on the start of the daemon at concrete inputs.
use logfence.Prelude.{
  ℕ, List, ◌%◌, ◌^◌, true, false, [], ◌∷◌, ◌≡◌, refl, Option, none, some, Bytes, codes, ok, err,
  inl, inr, bytes_eq,
}
use logfence.Io.{IoError, other_kind}
use logfence.Daemon.Config.{
  Config, ConfigError, io, unix_dgram, default_daemon, default_rsyslog, default_validation,
  default_logging, default_metrics,
}
use logfence.Daemon.Os.{
  System, Call, remove_file, bind_stream, bind_datagram, set_permissions, set_recv_buffer_size,
  shutdown_write, open_append, open_datagram, shutdown_read, spawn_stats,
}
use logfence.Daemon.Main.{Files, build_validator}
use logfence.Daemon.Main.Keyed.{keys, Once}
use logfence.Daemon.Main.Unordered.{build_validator-unordered}
use logfence.Tests.Messages.{request}
use mathlib.Core.List.Permᴰ
use logfence.Daemon.Main.Start.{start, init_logging, to_stderr, Started, on_datagrams, bind_failed}
use logfence.Daemon.Main.Bound.{HasModes}
use logfence.Daemon.Main.Started.{Runs, start-Runs}
use logfence.Daemon.Main.Refused.{Refusal, start-Refusal}
use logfence.Daemon.Validator.{Validator, new_validator, validate, prepare_for_forwarding}
use logfence.Daemon.Config.{ValidationConfig, strict}
use logfence.Tests.Daemon.{braces}

-- A system with one file, of which it keeps the mode.
abbrev one_call : Call → Option ℕ → Option IoError × Option ℕ
one_call (remove_file path) w = (none, none)
one_call (bind_stream path) w = (none, some 0o755)
one_call (bind_datagram path) w = (none, some 0o755)
one_call (set_permissions path bits) w = (none, some (bits % 2 ^ 12))
one_call (set_recv_buffer_size n) w = (none, w)
one_call shutdown_write w = (none, w)
one_call (open_append path) w = (none, w)
one_call open_datagram w = (none, w)
one_call shutdown_read w = (none, w)
one_call (spawn_stats path) w = (none, w)

abbrev one_file : System (Option ℕ)
one_file = record { exists = λ path w. false; read_hostname = λ w. none; call = one_call }

abbrev mode_of : Bytes → Option ℕ → Option ℕ
mode_of path w = w

one_file-HasModes : HasModes one_file mode_of
one_file-HasModes = record {
  sets = λ path bits w h. refl;
  buffer_keeps = λ path n w. refl;
  shutdown_keeps = λ path w. refl;
}

abbrev defaults : Config
defaults = record {
  daemon = record default_daemon { listen_transport = unix_dgram };
  rsyslog = default_rsyslog;
  validation = default_validation;
  logging = default_logging;
  metrics = default_metrics;
}

abbrev etc : Files
etc = record { read_config = ok []; read_to_string = λ path. inl (codes "not found") }

abbrev ready : Started one_file braces
ready = record {
  logging = (codes "info", to_stderr);
  cfg = defaults;
  validator = new_validator braces strict [];
  stats_socket = none;
  listener_task = on_datagrams (record {
    cfg = defaults.daemon;
    forwarder = record {
      inner = defaults.rsyslog.transport;
      dgram_max_attempts = 4;
      dgram_exhausted = defaults.rsyslog.dgram_exhausted;
      has_token = true;
    };
    local_hostname = codes "-";
  });
}

ready-start :
    start one_file braces [] etc (λ text. ok defaults) (λ level. true) (λ s. s) none
    ≡ (ok ready, some 0o660)
unfolding start init_logging bytes_eq logfence.Daemon.Config.load logfence.Daemon.Config.validate
    logfence.Daemon.Config.socket_mode_bits logfence.Text.from_str_radix
    logfence.Daemon.Config.trim_zeros logfence.Daemon.Main.build_validator
    logfence.Daemon.Main.load_schema_files logfence.Daemon.Validator.from_values
    logfence.Daemon.Validator.compile_all logfence.Daemon.Forwarder.Forward.from_config
    logfence.Daemon.Forwarder.Forward.opened logfence.Daemon.Datagram.Bind.bind
    logfence.Daemon.Listener.detect_hostname logfence.Daemon.Config.permission_bits
ready-start = refl

start-Runs_example :
    Runs one_file mode_of one_file-HasModes braces [] etc
      (λ text. ok defaults)
      (λ level. true)
      ready
      none
      (some 0o660)
start-Runs_example =
    start-Runs one_file mode_of one_file-HasModes braces [] etc (λ text. ok defaults)
      (λ level. true) (λ s. s) ready none (some 0o660) ready-start

-- Where the mode of a file cannot be set.
abbrev denied : IoError
denied = record { kind = other_kind; raw_os_error = some 1 }

abbrev deny : Call → Option ℕ → Option IoError × Option ℕ
deny (set_permissions path bits) w = (some denied, w)
deny c w = one_call c w

abbrev strict_file : System (Option ℕ)
strict_file = record one_file { call = deny }

denied-start :
    start strict_file braces [] etc (λ text. ok defaults) (λ level. true) (λ s. s) none
    ≡ (err (bind_failed denied), some 0o755)
unfolding start init_logging bytes_eq logfence.Daemon.Config.load logfence.Daemon.Config.validate
    logfence.Daemon.Config.socket_mode_bits logfence.Text.from_str_radix
    logfence.Daemon.Config.trim_zeros logfence.Daemon.Main.build_validator
    logfence.Daemon.Main.load_schema_files logfence.Daemon.Validator.from_values
    logfence.Daemon.Validator.compile_all logfence.Daemon.Forwarder.Forward.from_config
    logfence.Daemon.Forwarder.Forward.opened logfence.Daemon.Datagram.Bind.bind
    logfence.Daemon.Config.permission_bits
denied-start = refl

start-Refusal_example :
    Refusal strict_file braces [] etc
      (λ text. ok defaults)
      (λ level. true)
      (λ s. s)
      (bind_failed denied)
      none
      (some 0o755)
start-Refusal_example =
    start-Refusal strict_file braces [] etc (λ text. ok defaults) (λ level. true) (λ s. s)
      (bind_failed denied) none (some 0o755) denied-start

-- A file system in which every file has an object.
abbrev objects : Files
objects = record { read_config = ok []; read_to_string = λ path. inr (codes "{") }

abbrev by_type : List (Bytes × Bytes) → ValidationConfig
by_type paths = record default_validation {
  discriminator = some (codes "type");
  schema_map = paths;
}

abbrev a_and_b : List (Bytes × Bytes)
a_and_b = (codes "a", codes "a.json") ∷ (codes "b", codes "b.json") ∷ []

abbrev b_and_a : List (Bytes × Bytes)
b_and_a = (codes "b", codes "b.json") ∷ (codes "a", codes "a.json") ∷ []

abbrev typed : Validator braces
typed = record (new_validator braces strict []) {
  discriminator =
      some (record { field = codes "type"; map = (codes "a", tt) ∷ (codes "b", tt) ∷ [] });
}

typed-build : build_validator braces objects (by_type a_and_b) ≡ ok typed
unfolding build_validator logfence.Daemon.Main.load_schema_files
    logfence.Daemon.Validator.from_values logfence.Daemon.Validator.compile_all
    logfence.Daemon.Main.load_schema_files_map logfence.Daemon.Validator.with_discriminator_docs
    logfence.Daemon.Validator.compile_map
typed-build = refl

a_and_b-Once : Once (keys a_and_b)
a_and_b-Once = ((λ e. cc, tt), (tt, tt))

build_validator-unordered_example :
    (w : Validator braces) × (build_validator braces objects (by_type b_and_a) ≡ ok w)
    × (validate braces w request ≡ validate braces typed request)
    × (prepare_for_forwarding braces w request ≡ prepare_for_forwarding braces typed request)
build_validator-unordered_example =
    build_validator-unordered braces objects (by_type a_and_b) typed b_and_a request typed-build
      (Permᴰ.swap refl refl) a_and_b-Once
