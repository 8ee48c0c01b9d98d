-- ===== src/Daemon/Listener.antt =====
-- `Listener::run` of crates/logfence-daemon/src/listener.rs as a step relation: the accept loop,
-- the permits of its semaphore, the sessions, and the drain. A step is what the loop, a session or
-- the canceller of the token does next; each session is a task that ends on its own, and
-- `run_session` is modelled elsewhere. The semaphore is never closed, so that arm of the loop is
-- left out.
pub mod Bounds
pub mod Drain
pub mod Bind
pub mod Task
use logfence.Prelude.{
  ℕ, zero, suc, ◌+◌, ◌-◌, ◌≤◌, min, Bool, true, false, ◌≡◌, Option, none, some, Bytes, codes,
  is_empty, if◌then◌else◌,
}
use logfence.Daemon.Config.{u32_max}

-- `detect_hostname`, with what reading /etc/hostname returned, if it did. `str::trim` is a
-- parameter.
unfoldable pub detect_hostname : (Bytes → Bytes) → Option Bytes → Bytes
detect_hostname trim none = codes "-"
detect_hostname trim (some s) =
    let trimmed = trim s in if is_empty trimmed then codes "-" else trimmed

-- Where the loop is: before a permit, with a permit and before a connection, behind the loop, or
-- returned, with whether all permits were there again or the time was over.
pub data Phase : Type 0 where
  acquiring accepting draining : Phase
  returned : Bool → Phase

pub record ListenerState : Type 0 where
  pub permits : ℕ
  pub sessions : ℕ
  pub phase : Phase
  -- the token is cancelled
  pub cancelled : Bool

-- `Semaphore::new(cfg.max_connections)`, in front of the loop.
abbrev pub start : ℕ → ListenerState
start max_connections = record {
  permits = max_connections;
  sessions = 0;
  phase = acquiring;
  cancelled = false;
}

-- `total`
abbrev pub drain_total : ℕ → ℕ
drain_total max_connections = min max_connections u32_max

pub data Step (max_connections : ℕ) : ListenerState → ListenerState → Type 0 where
  cancel : (s : ListenerState) → Step max_connections s (record s { cancelled = true })
  acquire :
      (s : ListenerState)
      → s.phase ≡ acquiring
      → s.cancelled ≡ false
      → 1 ≤ s.permits
      → Step max_connections s (record s { permits = s.permits - 1; phase = accepting })
  stop_acquiring :
      (s : ListenerState)
      → s.phase ≡ acquiring
      → s.cancelled ≡ true
      → Step max_connections s (record s { phase = draining })
  -- The permit goes with the session's task.
  accept :
      (s : ListenerState)
      → s.phase ≡ accepting
      → s.cancelled ≡ false
      → Step max_connections s (record s { sessions = s.sessions + 1; phase = acquiring })
  -- `drop(permit); continue`
  accept_failed :
      (s : ListenerState)
      → s.phase ≡ accepting
      → s.cancelled ≡ false
      → Step max_connections s (record s { permits = s.permits + 1; phase = acquiring })
  -- The `break` drops the permit.
  stop_accepting :
      (s : ListenerState)
      → s.phase ≡ accepting
      → s.cancelled ≡ true
      → Step max_connections s (record s { permits = s.permits + 1; phase = draining })
  -- A session's task ends, also by a panic, and drops its permit.
  close :
      (s : ListenerState)
      → 1 ≤ s.sessions
      → Step max_connections s (record s { sessions = s.sessions - 1; permits = s.permits + 1 })
  -- `acquire_many(total)` returned.
  drained :
      (s : ListenerState)
      → s.phase ≡ draining
      → drain_total max_connections ≤ s.permits
      → Step max_connections s (record s { phase = returned true })
  -- The timeout is over.
  timed_out :
      (s : ListenerState)
      → s.phase ≡ draining
      → Step max_connections s (record s { phase = returned false })

pub data Steps (max_connections : ℕ) (s : ListenerState) : ListenerState → Type 0 where
  here : Steps max_connections s s
  next :
      {t u : ListenerState}
      → Steps max_connections s t
      → Step max_connections t u
      → Steps max_connections s u
