-- ===== src/Daemon/Main.antt =====
-- crates/logfence-daemon/src/main.rs: building the validator, reloading it, and the loop over the
-- signals. The files are what they are at the time: a parameter for a build, and part of the signal
-- that reloads. The TOML library and the text of a `ConfigError` are parameters. What SIGUSR1 logs
-- is left out. The start of `main` is in Start, and what it is from then on in Process.
pub mod Each
pub mod Compile
pub mod Build
pub mod Keyed
pub mod Unordered
pub mod Signals
pub mod Start
pub mod Bound
pub mod Started
pub mod Failed
pub mod Refused
pub mod Process
use logfence.Prelude.{
  Bool, true, false, List, [], ◌∷◌, ◌++◌, Option, none, some, Bytes, codes, ◌⊎◌, inl, inr, Outcome,
  ok, err, panic, ◌>>=◌, map_err, of_result,
}
use logfence.Daemon.Config.{ValidationConfig, Config, ConfigError, load}
use logfence.Daemon.Json.{Value, JsonLibrary}
use logfence.Daemon.Validator.{
  Validator, from_values, with_input_cee, with_output_cee, with_canonical_json,
  with_discriminator_docs,
}

-- The file system: a file's text or the message of the error.
pub record Files : Type 0 where
  pub read_config : Outcome Bytes Bytes
  pub read_to_string : Bytes → Bytes ⊎ Bytes

-- `cannot <what> '<path>': <e>`
abbrev cannot : Bytes → Bytes → Bytes → Bytes
cannot what path e = codes "cannot " ++ (what ++ (codes " '" ++ (path ++ (codes "': " ++ e))))

module _ (lib : JsonLibrary) (files : Files) where
  -- One file of `load_schema_files` or `load_schema_files_map`, which differ in what they call it.
  abbrev pub load_schema_file : Bytes → Bytes → Outcome Bytes Value
  load_schema_file kind path = do
    text ← map_err (cannot (codes "read " ++ kind) path) (of_result (files.read_to_string path))
    map_err (cannot (codes "parse " ++ kind) path) (of_result (lib.from_str text))

  unfoldable pub load_schema_files : List Bytes → Outcome Bytes (List Value)
  load_schema_files [] = ok []
  load_schema_files (path ∷ paths) = do
    doc ← load_schema_file (codes "schema") path
    docs ← load_schema_files paths
    ok (doc ∷ docs)

  -- In the order of the map's iteration.
  unfoldable pub load_schema_files_map : List (Bytes × Bytes) → Outcome Bytes (List (Bytes × Value))
  load_schema_files_map [] = ok []
  load_schema_files_map ((key, path) ∷ schema_map) = do
    doc ← load_schema_file (codes "discriminator schema") path
    docs ← load_schema_files_map schema_map
    ok ((key, doc) ∷ docs)

  -- `v` with the modes of the configuration.
  abbrev pub with_modes : ValidationConfig → Validator lib → Validator lib
  with_modes cfg v =
      with_canonical_json lib
        (with_output_cee lib (with_input_cee lib v cfg.input_cee) cfg.output_cee) cfg.canonical_json

  abbrev pub with_discriminator :
      ValidationConfig → Option Bytes → Validator lib → Outcome Bytes (Validator lib)
  with_discriminator cfg none v = ok v
  with_discriminator cfg (some field) v = do
    disc_docs ← load_schema_files_map cfg.schema_map
    map_err (λ e. codes "invalid discriminator schema: " ++ e)
        (of_result (with_discriminator_docs lib v field disc_docs))

  unfoldable pub build_validator : ValidationConfig → Outcome Bytes (Validator lib)
  build_validator cfg = do
    docs ← load_schema_files cfg.schemas
    v ←
        map_err (λ e. codes "invalid JSON schema: " ++ e)
          (of_result (from_values lib cfg.mode docs))
    with_discriminator cfg cfg.discriminator (with_modes cfg v)

pub data Signal : Type 0 where
  sigterm : Signal
  sighup : Files → Signal
  sigusr1 : Signal

module _ (lib : JsonLibrary) (config_path : Bytes) (from_toml : Bytes → Outcome Bytes Config)
    (config_error_text : ConfigError → Bytes) where
  unfoldable pub reload_validator : Files → Outcome Bytes (ValidationConfig × Validator lib)
  reload_validator files = do
    cfg ← map_err config_error_text (load config_path files.read_config from_toml)
    v ← build_validator lib files cfg.validation
    ok (cfg.validation, v)

  -- The validator in the watch channel, which the listener's receiver keeps open; the configuration
  -- kept beside it; the token; and whether the function has returned.
  pub record SignalState : Type 0 where
    pub validator : Validator lib
    pub validation : ValidationConfig
    pub cancelled : Bool
    pub returned : Bool

  -- With what a reload came to. It does not panic, and a panic would unwind from here.
  abbrev pub on_reload :
      Outcome Bytes (ValidationConfig × Validator lib) → SignalState → SignalState
  on_reload (ok (new_cfg, v)) s = record s { validation = new_cfg; validator = v }
  on_reload (err e) s = s
  on_reload panic s = s

  -- The loop of `handle_signals`, over the signals as they come.
  unfoldable pub signal_loop : List Signal → SignalState → SignalState
  signal_loop [] s = s
  signal_loop (sigterm ∷ rest) s = record s { cancelled = true; returned = true }
  signal_loop (sighup files ∷ rest) s = signal_loop rest (on_reload (reload_validator files) s)
  signal_loop (sigusr1 ∷ rest) s = signal_loop rest s

  -- `handle_signals` on Unix, with whether its three handlers could be registered.
  unfoldable pub handle_signals : Bool → List Signal → SignalState → SignalState
  handle_signals false signals s = record s { returned = true }
  handle_signals true signals s = signal_loop signals s
