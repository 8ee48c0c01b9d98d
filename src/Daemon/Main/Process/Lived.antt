-- ===== src/Daemon/Main/Process/Lived.antt =====
-- What the signals that came say of the process.
use logfence.Prelude.{
  Bool, true, false, ◌||◌, not, List, [], ◌∷◌, ◌++◌, ◌≡◌, ◌⊎◌, inl, inr, refl, sym, ap, ◌∙◌, Bytes,
  Outcome, ok, err, panic,
}
use logfence.Daemon.Config.{Config, ConfigError}
use logfence.Daemon.Json.{JsonLibrary}
use logfence.Daemon.Task.{Task, Closure, here, next}
use logfence.Daemon.Main.{
  Signal, sigterm, sighup, sigusr1, SignalState, signal_loop, handle_signals, reload_validator,
}
use logfence.Daemon.Main.Signals.{
  has_sigterm, Reloaded, prepend_ok, reloads, last_or, handle_signals-Served,
}
use logfence.Daemon.Main.Process.{
  Process, token_to, launched, signalled, listened, Life, begun, signal, listen, listener_panics,
  cancel, exit,
}

has_sigterm-snoc :
    (signals : List Signal) (s : Signal)
    → has_sigterm (signals ++ s ∷ []) ≡ (has_sigterm signals || has_sigterm (s ∷ []))
has_sigterm-snoc [] s = refl
has_sigterm-snoc (sigterm ∷ rest) s = refl
has_sigterm-snoc (sighup files ∷ rest) s = has_sigterm-snoc rest s
has_sigterm-snoc (sigusr1 ∷ rest) s = has_sigterm-snoc rest s

module _ (lib : JsonLibrary) (config_path : Bytes) (from_toml : Bytes → Outcome Bytes Config)
    (config_error_text : ConfigError → Bytes) (task : Task) where
  abbrev reloads_of : List Signal → List (Reloaded lib config_path from_toml config_error_text)
  reloads_of signals = reloads lib config_path from_toml config_error_text signals

  abbrev last_of :
      Reloaded lib config_path from_toml config_error_text
      → List (Reloaded lib config_path from_toml config_error_text)
      → Reloaded lib config_path from_toml config_error_text
  last_of r rs = last_or lib config_path from_toml config_error_text r rs

  prepend_ok-append :
      (result : Outcome Bytes (Reloaded lib config_path from_toml config_error_text))
      (xs ys : List (Reloaded lib config_path from_toml config_error_text))
      → prepend_ok lib config_path from_toml config_error_text result (xs ++ ys)
        ≡ prepend_ok lib config_path from_toml config_error_text result xs ++ ys
  prepend_ok-append (ok r) xs ys = refl
  prepend_ok-append (err e) xs ys = refl
  prepend_ok-append panic xs ys = refl

  reloads-snoc :
      (signals : List Signal) (s : Signal)
      → has_sigterm signals ≡ false
      → reloads_of (signals ++ s ∷ []) ≡ reloads_of signals ++ reloads_of (s ∷ [])
  reloads-snoc [] s h = refl
  reloads-snoc (sigterm ∷ rest) s h = absurd (cc)
  reloads-snoc (sighup files ∷ rest) s h =
      let result = reload_validator lib config_path from_toml config_error_text files in
      ap (prepend_ok lib config_path from_toml config_error_text result) (reloads-snoc rest s h)
      ∙ prepend_ok-append result (reloads_of rest) (reloads_of (s ∷ []))
  reloads-snoc (sigusr1 ∷ rest) s h = reloads-snoc rest s h

  last_or-append :
      (r : Reloaded lib config_path from_toml config_error_text)
      (xs ys : List (Reloaded lib config_path from_toml config_error_text))
      → last_of r (xs ++ ys) ≡ last_of (last_of r xs) ys
  last_or-append r [] ys = refl
  last_or-append r (x ∷ xs) ys = last_or-append x xs ys

  -- The validator in use is that of the last reload that succeeded before a SIGTERM;
  -- `handle_signals` has returned exactly if a handler could not be registered or there was a
  -- SIGTERM, and with a SIGTERM the token is cancelled; the listener is in a state that it reaches
  -- on its own; and if `main` has returned, then `handle_signals` has, and the listener has
  -- returned or panicked.
  pub record Lived (registered : Bool)
      (begin : SignalState lib config_path from_toml config_error_text) (signals : List Signal)
      (p : Process lib config_path from_toml config_error_text task) : Type 0 where
    pub last_reload :
        (p.signals.validation, p.signals.validator)
        ≡ last_of (begin.validation, begin.validator) (reloads_of signals)
    pub ends : p.signals.returned ≡ (not registered || has_sigterm signals)
    pub same_token : p.signals.cancelled ≡ task.cancelled p.listener
    pub stops : (has_sigterm signals ≡ false) ⊎ (task.cancelled p.listener ≡ true)
    pub reached : Closure task.Step task.start p.listener
    pub exits :
        (p.exited ≡ false)
        ⊎ (((registered ≡ false) ⊎ (has_sigterm signals ≡ true))
            × (task.HasReturned p.listener ⊎ (p.panicked ≡ true)))

  token_to-reached :
      (c : Bool) (l : task.State)
      → Closure task.Step task.start l
      → Closure task.Step task.start (token_to lib config_path from_toml config_error_text task c l)
  token_to-reached true l r = next r (task.cancel_step l)
  token_to-reached false l r = r

  -- The token is never taken back.
  token_to-cancelled :
      (c : Bool) (l : task.State)
      → (c ≡ true) ⊎ (c ≡ task.cancelled l)
      → c ≡ task.cancelled (token_to lib config_path from_toml config_error_text task c l)
  token_to-cancelled true l h = sym (task.cancel-cancelled l)
  token_to-cancelled false l (inl now) = absurd (cc)
  token_to-cancelled false l (inr same) = same

  begun-Lived :
      (registered : Bool) (begin : SignalState lib config_path from_toml config_error_text)
      → begin.cancelled ≡ false
      → begin.returned ≡ false
      → Lived registered begin []
          (launched lib config_path from_toml config_error_text task registered begin)
  unfolding handle_signals signal_loop
  begun-Lived true begin uncancelled running = record {
    last_reload = refl;
    ends = running;
    same_token = uncancelled ∙ sym task.start-uncancelled;
    stops = inl refl;
    reached = here;
    exits = inl refl;
  }
  begun-Lived false begin uncancelled running = record {
    last_reload = refl;
    ends = refl;
    same_token = uncancelled ∙ sym task.start-uncancelled;
    stops = inl refl;
    reached = here;
    exits = inl refl;
  }

  neither : (a b c : Bool) → c ≡ (a || b) → c ≡ false → (a ≡ false) × (b ≡ false)
  neither true b c e h = absurd (cc)
  neither false b c e h = (refl, sym e ∙ h)

  either : (registered b : Bool) → (not registered || b) ≡ true → (registered ≡ false) ⊎ (b ≡ true)
  either true b h = inr h
  either false b h = inl refl

  stopped_by : (b c d : Bool) → c ≡ (b || d) → (c ≡ true) ⊎ (c ≡ d)
  stopped_by true c d h = inl h
  stopped_by false c d h = inr h

  or_swap : (b r t a : Bool) → t ≡ (b || r) → r ≡ false → a ≡ false → t ≡ (a || b)
  or_swap true r t a e h k = e ∙ sym (ap (λ x. x || true) k)
  or_swap false r t a e h k = e ∙ h ∙ sym (ap (λ x. x || false) k)

  stops_by :
      {t all : Bool} (a b c : Bool)
      → a ≡ false
      → all ≡ (a || b)
      → t ≡ (b || c)
      → (all ≡ false) ⊎ (t ≡ true)
  stops_by a true c k h e = inr e
  stops_by a false c k h e = inl (h ∙ ap (λ x. x || false) k)

  signal-Lived :
      (registered : Bool) (begin : SignalState lib config_path from_toml config_error_text)
      (signals : List Signal) (p : Process lib config_path from_toml config_error_text task)
      (s : Signal)
      → Lived registered begin signals p
      → p.signals.returned ≡ false
      → Lived registered begin (signals ++ s ∷ []) (
          signalled lib config_path from_toml config_error_text task
            (signal_loop lib config_path from_toml config_error_text (s ∷ []) p.signals)
            p)
  unfolding handle_signals
  signal-Lived registered begin signals p s l running =
      let after : SignalState lib config_path from_toml config_error_text =
        signal_loop lib config_path from_toml config_error_text (s ∷ []) p.signals in
      let served =
        handle_signals-Served lib config_path from_toml config_error_text (s ∷ []) p.signals in
      let (no_refusal, before) =
        neither (not registered) (has_sigterm signals) p.signals.returned l.ends running in
      let token = token_to-cancelled after.cancelled p.listener (
        stopped_by (has_sigterm (s ∷ [])) after.cancelled (task.cancelled p.listener)
          (served.stops ∙ ap (λ c. has_sigterm (s ∷ []) || c) l.same_token)) in
      record {
        last_reload =
            served.last_reload
            ∙ ap (λ r. last_of r (reloads_of (s ∷ []))) l.last_reload
            ∙ sym (
                last_or-append (begin.validation, begin.validator) (reloads_of signals)
                  (reloads_of (s ∷ [])))
            ∙ ap (last_of (begin.validation, begin.validator))
                (sym (reloads-snoc signals s before));
        ends =
            or_swap (has_sigterm (s ∷ [])) p.signals.returned _ (has_sigterm signals) served.ends
              running before
            ∙ sym (has_sigterm-snoc signals s)
            ∙ sym (ap (λ x. x || has_sigterm (signals ++ s ∷ [])) no_refusal);
        same_token = token;
        stops =
            elim (stops_by (has_sigterm signals) (has_sigterm (s ∷ [])) p.signals.cancelled before
              (has_sigterm-snoc signals s) served.stops) [
                | inl none_came ↦ inl none_came
                | inr now ↦ inr (sym token ∙ now)
              ];
        reached = token_to-reached after.cancelled p.listener l.reached;
        exits = elim l.exits [
          | inl inside ↦ inl inside
          | inr (inl refused, gone) ↦ absurd (cc (no_refusal, refused))
          | inr (inr ended, gone) ↦ absurd (cc (before, ended))
        ];
      }

  listen-Lived :
      (registered : Bool) (begin : SignalState lib config_path from_toml config_error_text)
      (signals : List Signal) (p : Process lib config_path from_toml config_error_text task)
      (t : task.State)
      → Lived registered begin signals p
      → p.exited ≡ false
      → task.Step p.listener t
      → Lived registered begin signals
          (listened lib config_path from_toml config_error_text task t p)
  listen-Lived registered begin signals p t l inside st = record {
    last_reload = l.last_reload;
    ends = l.ends;
    same_token = refl;
    stops = elim l.stops [
      | inl none_came ↦ inl none_came
      | inr was ↦ inr (task.Step-cancelled p.listener t st was)
    ];
    reached = next l.reached st;
    exits = inl inside;
  }

  -- The process from its start, with the signals that came, whatever its tasks and the forwarder
  -- do: the validator and the configuration in use are those of the last reload that succeeded
  -- before a SIGTERM, or those of the start; `handle_signals` has returned exactly if a handler
  -- could not be registered or there was a SIGTERM, and with a SIGTERM the token is cancelled; the
  -- listener is in a state that it reaches by its own steps; and if `main` has returned, there was
  -- a SIGTERM or a handler could not be registered, and the listener has returned or its task has
  -- panicked. The forwarder cancelling the token is not enough. This is so for either listener.
  pub Life-Lived :
      (registered : Bool) (begin : SignalState lib config_path from_toml config_error_text)
      (signals : List Signal) (p : Process lib config_path from_toml config_error_text task)
      → begin.cancelled ≡ false
      → begin.returned ≡ false
      → Life lib config_path from_toml config_error_text task
          (launched lib config_path from_toml config_error_text task registered begin)
          signals
          p
      → Lived registered begin signals p
  Life-Lived registered begin signals p uncancelled running begun =
      begun-Lived registered begin uncancelled running
  Life-Lived registered begin signals p uncancelled running (signal s r waiting) =
      signal-Lived registered begin _ _ s (Life-Lived registered begin _ _ uncancelled running r)
        waiting
  Life-Lived registered begin signals p uncancelled running (listen r inside sound st) =
      listen-Lived registered begin _ _ _ (Life-Lived registered begin _ _ uncancelled running r)
        inside st
  Life-Lived registered begin signals p uncancelled running (listener_panics r inside) =
      let l = Life-Lived registered begin _ _ uncancelled running r in
      record {
        last_reload = l.last_reload;
        ends = l.ends;
        same_token = l.same_token;
        stops = l.stops;
        reached = l.reached;
        exits = inl inside;
      }
  Life-Lived registered begin signals p uncancelled running (cancel {p = q} r inside) =
      listen-Lived registered begin _ _ _ (Life-Lived registered begin _ _ uncancelled running r)
        inside (task.cancel_step q.listener)
  Life-Lived registered begin signals p uncancelled running (exit {signals = came} r done gone) =
      let l = Life-Lived registered begin _ _ uncancelled running r in
      record {
        last_reload = l.last_reload;
        ends = l.ends;
        same_token = l.same_token;
        stops = l.stops;
        reached = l.reached;
        exits = inr (either registered (has_sigterm came) (sym l.ends ∙ done), gone);
      }
