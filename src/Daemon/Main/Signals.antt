-- ===== src/Daemon/Main/Signals.antt =====
-- Which validator is in use after some signals, and when the daemon stops waiting for them.
use logfence.Prelude.{
  Bool, true, false, ◌||◌, List, [], ◌∷◌, ◌≡◌, refl, ap, ◌∙◌, Bytes, Outcome, ok, err, panic,
}
use logfence.Daemon.Config.{ValidationConfig, Config, ConfigError}
use logfence.Daemon.Json.{JsonLibrary}
use logfence.Daemon.Validator.{Validator}
use logfence.Daemon.Main.{
  Signal, sigterm, sighup, sigusr1, reload_validator, SignalState, on_reload, signal_loop,
  handle_signals,
}

-- A SIGTERM is among the signals.
abbrev pub has_sigterm : List Signal → Bool
has_sigterm [] = false
has_sigterm (sigterm ∷ rest) = true
has_sigterm (sighup files ∷ rest) = has_sigterm rest
has_sigterm (sigusr1 ∷ rest) = has_sigterm rest

module _ (lib : JsonLibrary) (config_path : Bytes) (from_toml : Bytes → Outcome Bytes Config)
    (config_error_text : ConfigError → Bytes) where
  abbrev pub Reloaded : Type 0
  Reloaded = ValidationConfig × Validator lib

  abbrev pub prepend_ok : Outcome Bytes Reloaded → List Reloaded → List Reloaded
  prepend_ok (ok r) rest = r ∷ rest
  prepend_ok (err e) rest = rest
  prepend_ok panic rest = rest

  -- The reloads that succeed, in their order, up to the first SIGTERM.
  abbrev pub reloads : List Signal → List Reloaded
  reloads [] = []
  reloads (sigterm ∷ rest) = []
  reloads (sighup files ∷ rest) =
      prepend_ok (reload_validator lib config_path from_toml config_error_text files) (reloads rest)
  reloads (sigusr1 ∷ rest) = reloads rest

  abbrev pub last_or : Reloaded → List Reloaded → Reloaded
  last_or r [] = r
  last_or r (next ∷ rest) = last_or next rest

  -- What the signals leave.
  pub record Served (signals : List Signal)
      (s t : SignalState lib config_path from_toml config_error_text) : Type 0 where
    pub last_reload :
        (t.validation, t.validator) ≡ last_or (s.validation, s.validator) (reloads signals)
    pub stops : t.cancelled ≡ (has_sigterm signals || s.cancelled)
    pub ends : t.returned ≡ (has_sigterm signals || s.returned)

  on_reload-Served :
      (result : Outcome Bytes Reloaded) (rest : List Signal)
      (s : SignalState lib config_path from_toml config_error_text)
      → last_or
          (
            (on_reload lib config_path from_toml config_error_text result s).validation,
            (on_reload lib config_path from_toml config_error_text result s).validator,
          )
          (reloads rest)
        ≡ last_or (s.validation, s.validator) (prepend_ok result (reloads rest))
  on_reload-Served (ok (cfg, v)) rest s = refl
  on_reload-Served (err e) rest s = refl
  on_reload-Served panic rest s = refl

  on_reload-cancelled :
      (result : Outcome Bytes Reloaded)
      (s : SignalState lib config_path from_toml config_error_text)
      → (on_reload lib config_path from_toml config_error_text result s).cancelled ≡ s.cancelled
  on_reload-cancelled (ok (cfg, v)) s = refl
  on_reload-cancelled (err e) s = refl
  on_reload-cancelled panic s = refl

  on_reload-returned :
      (result : Outcome Bytes Reloaded)
      (s : SignalState lib config_path from_toml config_error_text)
      → (on_reload lib config_path from_toml config_error_text result s).returned ≡ s.returned
  on_reload-returned (ok (cfg, v)) s = refl
  on_reload-returned (err e) s = refl
  on_reload-returned panic s = refl

  -- With the handlers registered: the validator in use and the
  -- configuration beside it are those of the last reload that succeeded before the first
  -- SIGTERM, or those of the start if none did; the function has returned exactly if there was a
  -- SIGTERM; and the token is cancelled exactly if there was one or it was cancelled before, which
  -- alone does not make the function return.
  pub handle_signals-Served :
      (signals : List Signal) (s : SignalState lib config_path from_toml config_error_text)
      → Served signals s (handle_signals lib config_path from_toml config_error_text true signals s)
  unfolding handle_signals signal_loop
  handle_signals-Served [] s = record { last_reload = refl; stops = refl; ends = refl }
  handle_signals-Served (sigterm ∷ rest) s = record {
    last_reload = refl;
    stops = refl;
    ends = refl;
  }
  handle_signals-Served (sigusr1 ∷ rest) s =
      let r = handle_signals-Served rest s in
      record { last_reload = r.last_reload; stops = r.stops; ends = r.ends }
  handle_signals-Served (sighup files ∷ rest) s =
      let result = reload_validator lib config_path from_toml config_error_text files in
      let r =
        handle_signals-Served rest
          (on_reload lib config_path from_toml config_error_text result s) in
      record {
        last_reload = r.last_reload ∙ on_reload-Served result rest s;
        stops = r.stops ∙ ap (λ c. has_sigterm rest || c) (on_reload-cancelled result s);
        ends = r.ends ∙ ap (λ c. has_sigterm rest || c) (on_reload-returned result s);
      }
