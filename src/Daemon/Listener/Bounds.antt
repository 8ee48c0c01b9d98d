-- ===== src/Daemon/Listener/Bounds.antt =====
-- How many sessions the listener runs at once, and what it knows when it returns.
use logfence.Prelude.{ℕ, ◌+◌, ◌-◌, ◌≤◌, ◌<◌, true, false, ◌≡◌, ◌↔◌, refl, ap, arith}
use logfence.Daemon.Config.{u32_max}
use logfence.Daemon.Listener.{
  Phase, acquiring, accepting, draining, returned, ListenerState, start, drain_total, Step, cancel,
  acquire, stop_acquiring, accept, accept_failed, stop_accepting, close, drained, timed_out, Steps,
  here, next,
}

-- The permits that the loop itself holds.
abbrev pub held : Phase → ℕ
held acquiring = 0
held accepting = 1
held draining = 0
held (returned all) = 0

-- No permit is lost or made up.
pub record IsAccounted (max_connections : ℕ) (s : ListenerState) : Type 0 where
  pub permits_sum : s.permits + s.sessions + held s.phase ≡ max_connections
  pub at_end : s.phase ≡ returned true → s.sessions ≤ max_connections - drain_total max_connections

Step-IsAccounted :
    (max_connections : ℕ) {s t : ListenerState}
    → Step max_connections s t
    → IsAccounted max_connections s
    → IsAccounted max_connections t
Step-IsAccounted max (cancel s) a = record { permits_sum = a.permits_sum; at_end = a.at_end }
Step-IsAccounted max (acquire s at on some_left) a = record {
  permits_sum = omega (arith, a.permits_sum, ap held at);
  at_end = λ e. absurd (cc);
}
Step-IsAccounted max (stop_acquiring s at off) a = record {
  permits_sum = omega (arith, a.permits_sum, ap held at);
  at_end = λ e. absurd (cc);
}
Step-IsAccounted max (accept s at on) a = record {
  permits_sum = omega (arith, a.permits_sum, ap held at);
  at_end = λ e. absurd (cc);
}
Step-IsAccounted max (accept_failed s at on) a = record {
  permits_sum = omega (arith, a.permits_sum, ap held at);
  at_end = λ e. absurd (cc);
}
Step-IsAccounted max (stop_accepting s at off) a = record {
  permits_sum = omega (arith, a.permits_sum, ap held at);
  at_end = λ e. absurd (cc);
}
Step-IsAccounted max (close s one) a = record {
  permits_sum = omega (arith, a.permits_sum);
  at_end = λ e. omega (arith, a.at_end e);
}
Step-IsAccounted max (drained s at all) a = record {
  permits_sum = omega (arith, a.permits_sum, ap held at);
  at_end = λ e. omega (arith, a.permits_sum);
}
Step-IsAccounted max (timed_out s at) a = record {
  permits_sum = omega (arith, a.permits_sum, ap held at);
  at_end = λ e. absurd (cc);
}

pub Steps-IsAccounted :
    (max_connections : ℕ) {s t : ListenerState}
    → IsAccounted max_connections s
    → Steps max_connections s t
    → IsAccounted max_connections t
Steps-IsAccounted max a here = a
Steps-IsAccounted max a (next r st) = Step-IsAccounted max st (Steps-IsAccounted max a r)

pub start-IsAccounted : (max_connections : ℕ) → IsAccounted max_connections (start max_connections)
start-IsAccounted max = record { permits_sum = omega arith; at_end = λ e. absurd (cc) }

-- The sessions and the permits that there can be, by where the loop is.
abbrev pub KeepsTo : ℕ → ℕ → ℕ → Phase → Type 0
KeepsTo max_connections permits sessions acquiring =
    (sessions ≤ max_connections) × ((permits ≡ 0) ↔ (sessions ≡ max_connections))
KeepsTo max_connections permits sessions accepting = sessions < max_connections
KeepsTo max_connections permits sessions draining = sessions ≤ max_connections
KeepsTo max_connections permits sessions (returned true) = sessions ≡ 0
KeepsTo max_connections permits sessions (returned false) = sessions ≤ max_connections

KeepsTo-phase :
    (max_connections permits sessions : ℕ) (phase : Phase)
    → max_connections ≤ u32_max
    → permits + sessions + held phase ≡ max_connections
    → (phase ≡ returned true → sessions ≤ max_connections - drain_total max_connections)
    → KeepsTo max_connections permits sessions phase
KeepsTo-phase max p n acquiring word sum end = (
  omega (arith, sum),
  (λ none_left. omega (arith, sum, none_left), λ all. omega (arith, sum, all)),
)
KeepsTo-phase max p n accepting word sum end = omega (arith, sum)
KeepsTo-phase max p n draining word sum end = omega (arith, sum)
KeepsTo-phase max p n (returned true) word sum end = omega (arith, word, end refl)
KeepsTo-phase max p n (returned false) word sum end = omega (arith, sum)

-- In every state that the listener reaches, for a limit of connections that a 32-bit number holds:
-- at most so many sessions run, and less than so many while it has a permit and takes a
-- connection; before a permit there is none to be had exactly if all sessions are taken; and when
-- it has returned without the timeout, no session runs.
pub Steps-KeepsTo :
    (max_connections : ℕ) (t : ListenerState)
    → max_connections ≤ u32_max
    → Steps max_connections (start max_connections) t
    → KeepsTo max_connections t.permits t.sessions t.phase
Steps-KeepsTo max t word r =
    let a = Steps-IsAccounted max (start-IsAccounted max) r in
    KeepsTo-phase max t.permits t.sessions t.phase word a.permits_sum a.at_end
