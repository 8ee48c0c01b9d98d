-- ===== src/Daemon/Main/Process.antt =====
-- The rest of `main` in crates/logfence-daemon/src/main.rs, once it has started: the loop over the
-- signals and the task of either listener run beside each other and share the shutdown token, which
-- the forwarder has too. `main` returns when both are done. Where a handler of a signal cannot be
-- registered, the loop does not begin; and the listener's task may end by a panic.
pub mod Lived
pub mod Exits
use logfence.Prelude.{ℕ, Bool, true, false, List, [], ◌∷◌, ◌++◌, ◌≡◌, ◌⊎◌, Bytes, Outcome}
use logfence.Daemon.Config.{Config, ConfigError}
use logfence.Daemon.Json.{JsonLibrary}
use logfence.Daemon.Task.{Task}
use logfence.Daemon.Main.{Signal, SignalState, signal_loop, handle_signals}

module _ (lib : JsonLibrary) (config_path : Bytes) (from_toml : Bytes → Outcome Bytes Config)
    (config_error_text : ConfigError → Bytes) (task : Task) where
  pub record Process : Type 0 where
    pub signals : SignalState lib config_path from_toml config_error_text
    pub listener : task.State
    -- the listener's task has ended by a panic
    pub panicked : Bool
    -- `main` has returned `ExitCode::SUCCESS`
    pub exited : Bool

  -- `handle_signals` before its first signal, with whether its handlers could be registered, and
  -- the listener at its start.
  abbrev pub launched : Bool → SignalState lib config_path from_toml config_error_text → Process
  launched registered signals = record {
    signals = handle_signals lib config_path from_toml config_error_text registered [] signals;
    listener = task.start;
    panicked = false;
    exited = false;
  }

  abbrev pub token_to : Bool → task.State → task.State
  token_to true s = task.cancel s
  token_to false s = s

  -- Behind a signal. The token is that of the listener.
  abbrev pub signalled : SignalState lib config_path from_toml config_error_text → Process → Process
  signalled signals p = record p {
    signals = signals;
    listener = token_to signals.cancelled p.listener;
  }

  -- Behind a step of the listener, or when someone else cancels the token.
  abbrev pub listened : task.State → Process → Process
  listened listener p = record p {
    signals = record p.signals { cancelled = task.cancelled listener };
    listener = listener;
  }

  -- What the process does, with the signals that came.
  pub data Life (start : Process) : List Signal → Process → Type 0 where
    begun : Life start [] start
    signal :
        {signals : List Signal} {p : Process} (s : Signal)
        → Life start signals p
        → p.signals.returned ≡ false
        → Life start (signals ++ s ∷ []) (
            signalled
              (signal_loop lib config_path from_toml config_error_text (s ∷ []) p.signals)
              p)
    listen :
        {signals : List Signal} {p : Process} {listener : task.State}
        → Life start signals p
        → p.exited ≡ false
        → p.panicked ≡ false
        → task.Step p.listener listener
        → Life start signals (listened listener p)
    listener_panics :
        {signals : List Signal} {p : Process}
        → Life start signals p
        → p.exited ≡ false
        → Life start signals (record p { panicked = true })
    -- The sessions go on behind a panic of the listener, and the forwarder may cancel the token.
    cancel :
        {signals : List Signal} {p : Process}
        → Life start signals p
        → p.exited ≡ false
        → Life start signals (listened (task.cancel p.listener) p)
    -- `handle_signals` and then `listener_task.await` have returned; the task's error is ignored.
    exit :
        {signals : List Signal} {p : Process}
        → Life start signals p
        → p.signals.returned ≡ true
        → task.HasReturned p.listener ⊎ (p.panicked ≡ true)
        → Life start signals (record p { exited = true })
