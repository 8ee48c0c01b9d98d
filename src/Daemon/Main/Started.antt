-- ===== src/Daemon/Main/Started.antt =====
-- What the daemon runs on when it has started.
use logfence.Prelude.{
  ℕ, Bool, ◌%◌, ◌^◌, ◌≡◌, inr, refl, sym, ap, ◌∙◌, subst, Option, some, Bytes, Outcome, ok, err,
  panic, map_err, >>=-eq-ok,
}
use logfence.Daemon.Config.{Config, ConfigError, io, parse, load, validate}
use logfence.Daemon.Config.Accept.{IsUsable, validate_iff_IsUsable}
use logfence.Daemon.Json.{JsonLibrary}
use logfence.Daemon.Forwarder.Forward.{Forwarder}
use logfence.Daemon.Main.{Files, build_validator}
use logfence.Daemon.Main.Build.{IsBuilt, build_validator_iff}
use logfence.Daemon.Main.Compile.{map_err-eq-ok}
use logfence.Daemon.Main.Start.{
  StartError, validator_failed, forwarder_failed, ListenerTask, Started, stats_socket_of,
  bind_listener, start, init_logging, logged, forwarder_result, open_forwarder, start_logged,
}
use logfence.Daemon.Main.Bound.{HasModes, IsTask, bind_listener-Listens}
use logfence.Daemon.Os.{System, after, lift, pure, M-eq-ok, ok-state}
use logfence.Daemon.Validator.{Validator}

-- `map_err` returns a value exactly if the call did.
pub map_err-ok :
    {A E F : Type 0} (f : E → F) (r : Outcome E A) (a : A) → map_err f r ≡ ok a → r ≡ ok a
map_err-ok f (ok b) a h = cc
map_err-ok f (err e) a h = absurd (cc)
map_err-ok f panic a h = absurd (cc)

-- The file was read to a configuration that can be used.
pub record IsLoaded (path : Bytes) (files : Files) (from_toml : Bytes → Outcome Bytes Config)
    (cfg : Config) : Type 0 where
  pub text : Bytes
  pub read : files.read_config ≡ ok text
  pub parsed : from_toml text ≡ ok cfg
  pub usable : IsUsable cfg

pub load-IsLoaded :
    (path : Bytes) (files : Files) (from_toml : Bytes → Outcome Bytes Config) (cfg : Config)
    → load path files.read_config from_toml ≡ ok cfg
    → IsLoaded path files from_toml cfg
unfolding load
load-IsLoaded path files from_toml cfg h =
    let (text, read, h1) = >>=-eq-ok (map_err (io path) files.read_config) _ h in
    let (c, parsed, h2) = >>=-eq-ok (map_err (parse path) (from_toml text)) _ h1 in
    let (done, valid, last) = >>=-eq-ok (validate c) _ h2 in
    let same : c ≡ cfg = cc in
    record {
      text = text;
      read = map_err-ok (io path) files.read_config text read;
      parsed = map_err-ok (parse path) (from_toml text) c parsed ∙ ap ok same;
      usable = (validate_iff_IsUsable cfg).0 (ap validate (sym same) ∙ valid);
    }

module _ {W : Type 0} (os : System W) (mode_of : Bytes → W → Option ℕ) (modes : HasModes os mode_of)
    (lib : JsonLibrary) (config_path : Bytes) (files : Files)
    (from_toml : Bytes → Outcome Bytes Config) (is_filter : Bytes → Bool) where
  -- The state behind the call that opens the log, which begins in `w`.
  abbrev pub behind_log : Config → W → W
  behind_log cfg w = (init_logging os lib is_filter cfg.logging.level cfg.logging.output w).1

  -- All that the daemon runs on is that of its configuration file, and the socket has the mode
  -- that the file spells, less what is beyond twelve bits.
  pub record Runs (st : Started os lib) (w z : W) : Type 0 where
    pub loaded : IsLoaded config_path files from_toml st.cfg
    pub log_of :
        st.logging ≡ (init_logging os lib is_filter st.cfg.logging.level st.cfg.logging.output w).0
    pub built : IsBuilt lib files st.cfg.validation st.validator
    pub stats : st.stats_socket ≡ stats_socket_of os lib st.cfg.metrics
    pub forwarder : Forwarder
    pub made : forwarder_result os lib st.cfg.rsyslog (behind_log st.cfg w) ≡ inr forwarder
    pub listens : IsTask os mode_of modes lib st.cfg forwarder st.listener_task
    pub mode_set : mode_of st.cfg.daemon.listen_socket z ≡ some (loaded.usable.mode_bits % 2 ^ 12)

  -- The record behind the last step.
  abbrev started : Config → Validator lib → W → ListenerTask → Started os lib
  started cfg v w task = record {
    logging = (init_logging os lib is_filter cfg.logging.level cfg.logging.output w).0;
    cfg = cfg;
    validator = v;
    stats_socket = stats_socket_of os lib cfg.metrics;
    listener_task = task;
  }

  started-Runs :
      (trim : Bytes → Bytes) (cfg : Config) (v : Validator lib) (fw : Forwarder)
      (st : Started os lib) (w before z : W)
      → IsLoaded config_path files from_toml cfg
      → IsBuilt lib files cfg.validation v
      → forwarder_result os lib cfg.rsyslog (behind_log cfg w) ≡ inr fw
      → after
          (λ task. pure {E = StartError} (started cfg v w task))
          (bind_listener os lib trim cfg.daemon.listen_transport cfg.daemon fw before)
        ≡ (ok st, z)
      → Runs st w z
  started-Runs trim cfg v fw st w before z loaded built made h =
      let p = bind_listener os lib trim cfg.daemon.listen_transport cfg.daemon fw before in
      let (task, binds, last) =
        M-eq-ok (λ task. pure {E = StartError} (started cfg v w task)) p h in
      let (same, there) = ok-state last in
      let (listens, mode) =
        bind_listener-Listens os mode_of modes lib trim cfg cfg.daemon.listen_transport fw task
          before p.1 refl (ap (λ r. (r, p.1)) binds) in
      let at_end : Runs (started cfg v w task) w z = record {
        loaded = loaded;
        log_of = refl;
        built = built;
        stats = refl;
        forwarder = fw;
        made = made;
        listens = listens;
        mode_set =
            ap (mode_of cfg.daemon.listen_socket) (sym there)
            ∙ mode
            ∙ ap (λ b. some (b % 2 ^ 12)) loaded.usable.bits_set;
      } in
      subst (λ x. Runs x w z) same at_end

  loaded-Runs :
      (trim : Bytes → Bytes) (st : Started os lib) (w z : W) (r : Outcome ConfigError Config)
      → load config_path files.read_config from_toml ≡ r
      → start_logged os lib files trim
          (logged os lib is_filter r w).0
          r
          (logged os lib is_filter r w).1
        ≡ (ok st, z)
      → Runs st w z
  loaded-Runs trim st w z (err e) loads h = absurd (cc)
  loaded-Runs trim st w z panic loads h = absurd (cc)
  loaded-Runs trim st w z (ok cfg) loads h =
      let w1 = behind_log cfg w in
      let (v, builds, h2) =
        M-eq-ok _ (lift (map_err validator_failed (build_validator lib files cfg.validation)) w1)
          h in
      let (fw, makes, h3) = M-eq-ok _ (open_forwarder os lib cfg.rsyslog w1) h2 in
      started-Runs trim cfg v fw st w _ z (load-IsLoaded config_path files from_toml cfg loads)
        ((build_validator_iff lib files cfg.validation v).0
          (map_err-ok validator_failed _ v builds))
        (map_err-eq-ok forwarder_failed (forwarder_result os lib cfg.rsyslog w1) fw makes) h3

  -- When `main` gets as far as to wait for signals: the configuration is what the file says, and
  -- usable; the log is that of its settings; the validator is built from the schemas that it names;
  -- the forwarder is that of its rsyslog section; the listener is of the kind, with the settings
  -- and with the permits that it says; and the socket has the mode that it spells in octal, of
  -- which the system keeps the last twelve bits. This is for a system where a mode that is set
  -- stays.
  pub start-Runs :
      (trim : Bytes → Bytes) (st : Started os lib) (w z : W)
      → start os lib config_path files from_toml is_filter trim w ≡ (ok st, z)
      → Runs st w z
  unfolding start
  start-Runs trim st w z h = loaded-Runs trim st w z _ refl h
