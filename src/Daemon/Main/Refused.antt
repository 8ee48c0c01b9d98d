-- ===== src/Daemon/Main/Refused.antt =====
-- Why a start of the daemon fails, and what it leaves.
use logfence.Prelude.{
  ◌≡◌, ◌⊎◌, inl, inr, refl, sym, subst, Bytes, Outcome, ok, err, panic, map_err, of_result, Bool,
  ap, ◌∙◌, bytes_eq,
}
use logfence.Daemon.Config.{Config, ConfigError, load}
use logfence.Daemon.Json.{JsonLibrary}
use logfence.Daemon.Validator.{Validator}
use logfence.Daemon.Forwarder.Forward.{Forwarder}
use logfence.Daemon.Main.{Files, build_validator}
use logfence.Daemon.Main.Build.{IsBuilt, build_validator_iff}
use logfence.Daemon.Main.Compile.{map_err-eq-ok}
use logfence.Daemon.Main.Start.{
  StartError, config_failed, validator_failed, forwarder_failed, bind_failed, LogWriter, Started,
  stats_socket_of, bind_listener, start, init_logging, logged, forwarder_result, forwarder_state,
  open_forwarder, stats_state, start_logged,
}
use logfence.Daemon.Main.Failed.{Fails, bind_listener-Fails}
use logfence.Daemon.Main.Started.{IsLoaded, load-IsLoaded, map_err-ok}
use logfence.Daemon.Os.{System, after, lift, pure, M, M-eq-err}

module _ {W : Type 0} (os : System W) (lib : JsonLibrary) (config_path : Bytes) (files : Files)
    (from_toml : Bytes → Outcome Bytes Config) (is_filter : Bytes → Bool)
    (trim : Bytes → Bytes) where
  -- The state behind the call that opens the log, which begins in `w`.
  abbrev log_opened : Config → W → W
  log_opened cfg w = (init_logging os lib is_filter cfg.logging.level cfg.logging.output w).1

  -- The state in which the listener is bound.
  abbrev unbound : Config → W → W
  unbound cfg w =
      stats_state os lib cfg.metrics
        (forwarder_state os lib cfg.rsyslog.transport (log_opened cfg w))

  -- What failed, with all before it done, and the state of the system behind it.
  abbrev pub Refusal : StartError → W → W → Type 0
  Refusal (config_failed e) w z = (load config_path files.read_config from_toml ≡ err e) × (z ≡ w)
  Refusal (validator_failed e) w z =
      (cfg : Config) × IsLoaded config_path files from_toml cfg
      × (build_validator lib files cfg.validation ≡ err e)
      × (z ≡ log_opened cfg w)
  Refusal (forwarder_failed e) w z =
      (cfg : Config) × IsLoaded config_path files from_toml cfg
      × ((v : Validator lib) × IsBuilt lib files cfg.validation v)
      × (forwarder_result os lib cfg.rsyslog (log_opened cfg w) ≡ inl e)
      × (z ≡ forwarder_state os lib cfg.rsyslog.transport (log_opened cfg w))
  Refusal (bind_failed e) w z =
      (cfg : Config) × IsLoaded config_path files from_toml cfg
      × ((v : Validator lib) × IsBuilt lib files cfg.validation v)
      × ((fw : Forwarder) × (forwarder_result os lib cfg.rsyslog (log_opened cfg w) ≡ inr fw)
          × (bind_listener os lib trim cfg.daemon.listen_transport cfg.daemon fw (unbound cfg w)
              ≡ (err (bind_failed e), z)))
      × Fails os cfg.daemon e z

  lifted-err :
      {E A : Type 0} (f : E → StartError) (r : Outcome E A) (e : StartError) (v z : W)
      → ◌≡◌ {A = Outcome StartError A × W} (map_err f r, v) (err e, z)
      → (cause : E) × (r ≡ err cause) × (e ≡ f cause) × (z ≡ v)
  lifted-err f (ok a) e v z h = absurd (cc)
  lifted-err f (err cause) e v z h = (cause, refl, cc, cc)
  lifted-err f panic e v z h = absurd (cc)

  of_result-err : {E A : Type 0} (r : E ⊎ A) (e : E) → of_result r ≡ err e → r ≡ inl e
  of_result-err (inl x) e h = cc
  of_result-err (inr a) e h = absurd (cc)

  abbrev log_parts : Config → W → Bytes × LogWriter
  log_parts cfg w = (init_logging os lib is_filter cfg.logging.level cfg.logging.output w).0

  abbrev bind_it :
      Bytes × LogWriter → Config → Validator lib → Forwarder → M StartError W (Started os lib)
  bind_it logging cfg v fw w =
      after
        (λ task. pure (record {
          logging = logging;
          cfg = cfg;
          validator = v;
          stats_socket = stats_socket_of os lib cfg.metrics;
          listener_task = task;
        }))
        (bind_listener os lib trim cfg.daemon.listen_transport cfg.daemon fw
          (stats_state os lib cfg.metrics w))

  bind_it-err :
      (logging : Bytes × LogWriter) (cfg : Config) (v : Validator lib) (fw : Forwarder)
      (e : StartError) (w z : W)
      → bind_it logging cfg v fw w ≡ (err e, z)
      → bind_listener os lib trim cfg.daemon.listen_transport cfg.daemon fw
          (stats_state os lib cfg.metrics w)
        ≡ (err e, z)
  bind_it-err logging cfg v fw e w z h = elim (M-eq-err _ _ h) [
    | inl early ↦ early
    | inr (task, bound, late) ↦ absurd (cc)
  ]

  forwarder_made-err :
      (cfg : Config) (v : Validator lib) (e : StartError) (w z : W)
      → IsLoaded config_path files from_toml cfg
      → IsBuilt lib files cfg.validation v
      → after
          (bind_it (log_parts cfg w) cfg v)
          (open_forwarder os lib cfg.rsyslog (log_opened cfg w))
        ≡ (err e, z)
      → Refusal e w z
  forwarder_made-err cfg v e w z loaded built h =
      let made = forwarder_result os lib cfg.rsyslog (log_opened cfg w) in
      elim (M-eq-err (bind_it (log_parts cfg w) cfg v)
        (open_forwarder os lib cfg.rsyslog (log_opened cfg w)) h) [
          | inl early ↦
              let (cause, failed, same, there) =
                lifted-err forwarder_failed (of_result made) e _ z early in
              subst (λ x. Refusal x w z) (sym same)
                (cfg, loaded, (v, built), of_result-err made cause failed, there)
          | inr (fw, opened, late) ↦
              let early = bind_it-err (log_parts cfg w) cfg v fw e _ z late in
              let (cause, same, fails) =
                bind_listener-Fails os lib trim cfg.daemon.listen_transport cfg.daemon fw e _ z refl
                  early in
              subst (λ x. Refusal x w z) (sym same)
                (
                  cfg,
                  loaded,
                  (v, built),
                  (
                    fw,
                    map_err-eq-ok forwarder_failed made fw opened,
                    early ∙ ap (λ x. (err x, z)) same,
                  ),
                  fails,
                )
        ]

  loaded-Refusal :
      (e : StartError) (w z : W) (r : Outcome ConfigError Config)
      → load config_path files.read_config from_toml ≡ r
      → start_logged os lib files trim
          (logged os lib is_filter r w).0
          r
          (logged os lib is_filter r w).1
        ≡ (err e, z)
      → Refusal e w z
  unfolding init_logging bytes_eq
  loaded-Refusal e w z panic loads h = absurd (cc)
  loaded-Refusal e w z (err cause) loads h =
      let same : e ≡ config_failed cause = cc in subst (λ x. Refusal x w z) (sym same) (loads, cc)
  loaded-Refusal e w z (ok cfg) loads h =
      let loaded = load-IsLoaded config_path files from_toml cfg loads in
      elim (M-eq-err
        (λ v w2. after (bind_it (log_parts cfg w) cfg v) (open_forwarder os lib cfg.rsyslog w2))
        (lift (map_err validator_failed (build_validator lib files cfg.validation))
          (log_opened cfg w))
        h) [
          | inl early ↦
              let (cause, failed, same, there) =
                lifted-err validator_failed (build_validator lib files cfg.validation) e _ z
                  early in
              subst (λ x. Refusal x w z) (sym same) (cfg, loaded, failed, there)
          | inr (v, built, late) ↦
              forwarder_made-err cfg v e w z loaded
                ((build_validator_iff lib files cfg.validation v).0
                  (map_err-ok validator_failed _ v built))
                late
        ]

  -- When the start fails, the error is that of the first step that fails: loading the
  -- configuration, building the validator, opening the forwarder, binding the listener, each with
  -- the steps before it done. Without a configuration the system is as it was. Without a validator
  -- only the file of the log was opened, and without a forwarder that and the forwarder's socket:
  -- what is at the path of the listener's socket is not removed. If binding fails, the error is
  -- that of a call of `bind` with the configuration's path and mode, and nothing was done behind
  -- it.
  pub start-Refusal :
      (e : StartError) (w z : W)
      → start os lib config_path files from_toml is_filter trim w ≡ (err e, z)
      → Refusal e w z
  unfolding start
  start-Refusal e w z h = loaded-Refusal e w z _ refl h
