-- ===== src/Daemon/Main/Process/Exits.antt =====
-- The process can always be brought to its end.
use logfence.Prelude.{true, false, List, ◌≡◌, Bytes, Outcome}
use logfence.Daemon.Config.{Config, ConfigError}
use logfence.Daemon.Json.{JsonLibrary}
use logfence.Daemon.Task.{Task}
use logfence.Daemon.Main.{Signal, SignalState}
use logfence.Daemon.Main.Process.{Process, launched, Life}

module _ (lib : JsonLibrary) (config_path : Bytes) (from_toml : Bytes → Outcome Bytes Config)
    (config_error_text : ConfigError → Bytes) (task : Task)
    (begin : SignalState lib config_path from_toml config_error_text) where
  -- Where the handlers of the signals could be registered.
  abbrev pub Lives : List Signal → Process lib config_path from_toml config_error_text task → Type 0
  Lives signals p =
      Life lib config_path from_toml config_error_text task
        (launched lib config_path from_toml config_error_text task true begin) signals p

  -- The process goes on, without a signal, to where its listener is in a state.
  record GoesOn (signals : List Signal)
      (p : Process lib config_path from_toml config_error_text task) (t : task.State) : Type 0 where
    pub later : Process lib config_path from_toml config_error_text task
    pub lives : Lives signals later
    pub there : later.listener ≡ t
    pub same_loop : later.signals.returned ≡ p.signals.returned
    pub inside : later.exited ≡ false
    pub sound : later.panicked ≡ false

  -- With the signals, `main` has returned.
  pub record Ends (signals : List Signal) : Type 0 where
    pub last : Process lib config_path from_toml config_error_text task
    pub lives : Lives signals last
    pub exited : last.exited ≡ true
