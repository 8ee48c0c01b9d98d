-- ===== src/Daemon/Listener/Task.antt =====
-- The stream listener as a task of the process.
use logfence.Prelude.{ℕ, Bool, true, ◌≡◌, ◌≢◌, ◌⊎◌, inl, inr, refl}
use logfence.Daemon.Task.{Task, Closure}
use logfence.Daemon.Listener.{
  Phase, acquiring, accepting, draining, returned, ListenerState, start, Step, cancel, acquire,
  stop_acquiring, accept, accept_failed, stop_accepting, close, drained, timed_out, Steps, here,
  next,
}
use logfence.Daemon.Listener.Drain.{Steps-drained}

abbrev pub HasReturned : ListenerState → Type 0
HasReturned s = (all : Bool) × (s.phase ≡ returned all)

pub Step-cancelled :
    {max_connections : ℕ} {s t : ListenerState}
    → Step max_connections s t
    → s.cancelled ≡ true
    → t.cancelled ≡ true
Step-cancelled (cancel s) h = refl
Step-cancelled (acquire s at running some_left) h = h
Step-cancelled (stop_acquiring s at stop) h = h
Step-cancelled (accept s at running) h = h
Step-cancelled (accept_failed s at running) h = h
Step-cancelled (stop_accepting s at stop) h = h
Step-cancelled (close s some_open) h = h
Step-cancelled (drained s at full) h = h
Step-cancelled (timed_out s at) h = h

is_returned :
    (phase : Phase)
    → ((all : Bool) × (phase ≡ returned all)) ⊎ ((all : Bool) → phase ≢ returned all)
is_returned acquiring = inr (λ all h. cc)
is_returned accepting = inr (λ all h. cc)
is_returned draining = inr (λ all h. cc)
is_returned (returned all) = inl (all, refl)

to_Steps :
    {max_connections : ℕ} {s t : ListenerState}
    → Closure (Step max_connections) s t
    → Steps max_connections s t
to_Steps Closure.here = here
to_Steps (Closure.next r st) = next (to_Steps r) st

to_Closure :
    {max_connections : ℕ} {s t : ListenerState}
    → Steps max_connections s t
    → Closure (Step max_connections) s t
to_Closure here = Closure.here
to_Closure (next r st) = Closure.next (to_Closure r) st

pub returns :
    (max_connections : ℕ) (s : ListenerState)
    → Closure (Step max_connections) (start max_connections) s
    → HasReturned s ⊎ ((t : ListenerState) × Closure (Step max_connections) s t × HasReturned t)
returns max s r = elim (is_returned s.phase) [
  | inl done ↦ inl done
  | inr runs ↦
      let (t, path, at, sessions, permits) = Steps-drained max s (to_Steps r) runs in
      inr (t, to_Closure path, (true, at))
]

abbrev pub stream_task : ℕ → Task
stream_task max_connections = record {
  State = ListenerState;
  Step = Step max_connections;
  start = start max_connections;
  cancelled = λ s. s.cancelled;
  cancel = λ s. record s { cancelled = true };
  HasReturned = HasReturned;
  start-uncancelled = refl;
  cancel-cancelled = λ s. refl;
  cancel_step = cancel;
  Step-cancelled = λ s t st h. Step-cancelled st h;
  returns = returns max_connections;
}
