-- ===== src/Daemon/Listener/Drain.antt =====
-- The listener can always be brought to its end.
use logfence.Prelude.{ℕ, zero, suc, ◌+◌, ◌-◌, Bool, true, ◌≡◌, ◌≢◌, refl, ap, ◌∙◌, arith}
use logfence.Daemon.Listener.{
  Phase, acquiring, accepting, draining, returned, ListenerState, start, cancel, stop_acquiring,
  stop_accepting, close, drained, Steps, here, next,
}
use logfence.Daemon.Listener.Bounds.{held, Steps-IsAccounted, start-IsAccounted}

pub Steps-trans :
    {max_connections : ℕ} {s t u : ListenerState}
    → Steps max_connections s t
    → Steps max_connections t u
    → Steps max_connections s u
Steps-trans first here = first
Steps-trans first (next r st) = next (Steps-trans first r) st

-- Some steps lead to a state of a phase.
record Leads (max_connections : ℕ) (s : ListenerState) (phase : Phase) : Type 0 where
  pub end_state : ListenerState
  pub path : Steps max_connections s end_state
  pub there : end_state.phase ≡ phase

-- The sessions close one after the other.
close_all :
    (max_connections n : ℕ) (s : ListenerState)
    → s.sessions ≡ n
    → (t : ListenerState) × Steps max_connections s t × (t.sessions ≡ 0) × (t.phase ≡ s.phase)
close_all max zero s e = (s, here, e, refl)
close_all max (suc n) s e =
    let closed : ListenerState = record s { sessions = s.sessions - 1; permits = s.permits + 1 } in
    let (t, path, none_left, same) = close_all max n closed (omega (arith, e)) in
    (t, Steps-trans (next here (close s (omega (arith, e)))) path, none_left, same)

-- Behind the loop, with the token cancelled.
stop_loop :
    (max_connections : ℕ) (s : ListenerState) (phase : Phase)
    → s.phase ≡ phase
    → ((all : Bool) → s.phase ≢ returned all)
    → Leads max_connections s draining
stop_loop max s acquiring at running = record {
  end_state = record s { cancelled = true; phase = draining };
  path = next (next here (cancel s)) (stop_acquiring (record s { cancelled = true }) at refl);
  there = refl;
}
stop_loop max s accepting at running = record {
  end_state = record s { cancelled = true; permits = s.permits + 1; phase = draining };
  path = next (next here (cancel s)) (stop_accepting (record s { cancelled = true }) at refl);
  there = refl;
}
stop_loop max s draining at running = record { end_state = s; path = here; there = at }
stop_loop max s (returned all) at running = absurd (running all at)

-- From every state that the listener reaches before it returns, steps lead to a state in which it
-- has returned without the timeout and no session runs: its permits are all there again once the
-- token is cancelled and the sessions have ended.
pub Steps-drained :
    (max_connections : ℕ) (s : ListenerState)
    → Steps max_connections (start max_connections) s
    → ((all : Bool) → s.phase ≢ returned all)
    → (t : ListenerState) × Steps max_connections s t
      × (t.phase ≡ returned true)
      × (t.sessions ≡ 0)
      × (t.permits ≡ max_connections)
Steps-drained max s r running =
    let stop = stop_loop max s s.phase refl running in
    let (t, path, none_left, same) = close_all max stop.end_state.sessions stop.end_state refl in
    let a =
      Steps-IsAccounted max (start-IsAccounted max) (Steps-trans r (Steps-trans stop.path path)) in
    let at : t.phase ≡ draining = same ∙ stop.there in
    let full : t.permits ≡ max = omega (arith, a.permits_sum, none_left, ap held at) in
    (
      record t { phase = returned true },
      next (Steps-trans stop.path path) (drained t at (omega (arith, full))),
      refl,
      none_left,
      full,
    )
