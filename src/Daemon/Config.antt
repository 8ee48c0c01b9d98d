-- ===== src/Daemon/Config.antt =====
-- crates/logfence-daemon/src/config.rs: the configuration, its defaults, and `validate`. Reading
-- the file and parsing its TOML is done by the operating system and the toml crate.
pub mod Octal
pub mod Accept
use logfence.Prelude.{
  ℕ, Bool, false, ◌&&◌, not, List, [], ◌∷◌, ◌++◌, Option, none, Bytes, codes, is_empty, ◌==◌,
  if◌then◌else◌, Outcome, ok, ◌>>=◌, ◌>>◌, reject_if, ok_or, map_err, get_or,
}
use logfence.Text.{from_str_radix, is_some}

pub data ConfigError : Type 0 where
  -- the path, and the message of the error below
  io : Bytes → Bytes → ConfigError
  parse : Bytes → Bytes → ConfigError
  invalid : Bytes → ConfigError

pub data ListenTransport : Type 0 where
  unix_stream unix_dgram : ListenTransport

pub data FramingMode : Type 0 where
  octet_count newline : FramingMode

pub data SenderMode : Type 0 where
  original logfenced : SenderMode

pub data ForwardTransport : Type 0 where
  unix_dgram unix_stream : ForwardTransport

pub data DgramExhausted : Type 0 where
  drop terminate : DgramExhausted

pub data CeeCookieMode : Type 0 where
  never optional always : CeeCookieMode

pub data ValidationMode : Type 0 where
  strict warn off : ValidationMode

pub record DaemonConfig : Type 0 where
  pub listen_socket : Bytes
  pub socket_mode : Bytes
  pub socket_group : Option Bytes
  pub max_connections : ℕ
  pub max_message_size : ℕ
  pub listen_transport : ListenTransport
  pub framing : FramingMode
  pub sender : SenderMode

abbrev pub default_daemon : DaemonConfig
default_daemon = record {
  listen_socket = codes "/run/logfenced/logfenced.sock";
  socket_mode = codes "0660";
  socket_group = none;
  max_connections = 256;
  max_message_size = 65_536;
  listen_transport = ListenTransport.unix_stream;
  framing = octet_count;
  sender = original;
}

pub record RsyslogConfig : Type 0 where
  pub transport : ForwardTransport
  pub socket : Bytes
  pub dgram_max_attempts : ℕ
  pub dgram_exhausted : DgramExhausted

abbrev pub default_rsyslog : RsyslogConfig
default_rsyslog = record {
  transport = ForwardTransport.unix_dgram;
  socket = codes "/run/syslog";
  dgram_max_attempts = 4;
  dgram_exhausted = drop;
}

-- The map of schema paths is an association list.
pub record ValidationConfig : Type 0 where
  pub mode : ValidationMode
  pub schemas : List Bytes
  pub discriminator : Option Bytes
  pub schema_map : List (Bytes × Bytes)
  pub input_cee : CeeCookieMode
  pub output_cee : CeeCookieMode
  pub canonical_json : Bool

abbrev pub default_validation : ValidationConfig
default_validation = record {
  mode = strict;
  schemas = [];
  discriminator = none;
  schema_map = [];
  input_cee = never;
  output_cee = never;
  canonical_json = false;
}

pub record MetricsConfig : Type 0 where
  pub enabled : Bool
  pub socket : Bytes

abbrev pub default_metrics : MetricsConfig
default_metrics = record { enabled = false; socket = codes "/run/logfenced/logfenced.stats.sock" }

pub record LoggingConfig : Type 0 where
  pub level : Bytes
  pub output : Bytes

abbrev pub default_logging : LoggingConfig
default_logging = record { level = codes "info"; output = codes "stderr" }

pub record Config : Type 0 where
  pub daemon : DaemonConfig
  pub rsyslog : RsyslogConfig
  pub validation : ValidationConfig
  pub logging : LoggingConfig
  pub metrics : MetricsConfig

abbrev pub u32_max : ℕ
u32_max = 4294967295

-- `s.trim_start_matches('0')`
unfoldable pub trim_zeros : Bytes → Bytes
trim_zeros [] = []
trim_zeros (c ∷ s) = let rest = trim_zeros s in if c == b'0' then rest else c ∷ s

-- `if s.is_empty() { "0" } else { s }`
abbrev pub or_zero : Bytes → Bytes
or_zero [] = b'0' ∷ []
or_zero (c ∷ s) = c ∷ s

-- The octal reading of `socket_mode` in `validate`.
unfoldable pub socket_mode_bits : Bytes → Option ℕ
socket_mode_bits mode = from_str_radix 8 u32_max (or_zero (trim_zeros mode))

unfoldable pub validate : Config → Outcome ConfigError (Unit {0})
validate cfg = do
  mode ← ok_or (socket_mode_bits cfg.daemon.socket_mode) (
      invalid (
        codes "daemon.socket_mode '"
        ++ (cfg.daemon.socket_mode ++ codes "' is not a valid octal permission string")))
  reject_if (cfg.daemon.max_connections == 0)
      (invalid (codes "daemon.max_connections must be at least 1"))
  reject_if (cfg.daemon.max_message_size == 0)
      (invalid (codes "daemon.max_message_size must be at least 1"))
  reject_if (not (is_empty cfg.validation.schema_map) && not (is_some cfg.validation.discriminator))
      (invalid (codes "validation.schema_map requires validation.discriminator to be set"))

-- `load`, with what reading the file and parsing its TOML came to.
unfoldable pub load :
    Bytes → Outcome Bytes Bytes → (Bytes → Outcome Bytes Config) → Outcome ConfigError Config
load path read from_toml = do
  text ← map_err (io path) read
  cfg ← map_err (parse path) (from_toml text)
  validate cfg
  ok cfg

-- The permission bits that `apply_socket_permissions` in listener.rs sets on the socket.
unfoldable pub permission_bits : Bytes → ℕ
permission_bits mode_str =
    let trimmed = or_zero (trim_zeros mode_str) in get_or (from_str_radix 8 u32_max trimmed) 0o660
