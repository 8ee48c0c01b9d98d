-- ===== src/Daemon/Task.antt =====
-- What the process asks of the task of a listener, whichever transport it serves.
use logfence.Prelude.{Bool, true, false, ◌≡◌, ◌⊎◌}

-- The states that steps lead to.
pub data Closure {S : Type 0} (Step : S → S → Type 0) (s : S) : S → Type 0 where
  here : Closure Step s s
  next : {t u : S} → Closure Step s t → Step t u → Closure Step s u

pub Closure-trans :
    {S : Type 0} {Step : S → S → Type 0} {s t u : S}
    → Closure Step s t
    → Closure Step t u
    → Closure Step s u
Closure-trans r here = r
Closure-trans r (next q st) = next (Closure-trans r q) st

pub record Task : Type 1 where
  pub State : Type 0
  pub Step : State → State → Type 0
  pub start : State
  -- the token that it shares with the process
  pub cancelled : State → Bool
  pub cancel : State → State
  pub HasReturned : State → Type 0
  pub start-uncancelled : cancelled start ≡ false
  -- Anyone with the token may cancel it, and it stays cancelled.
  pub cancel-cancelled : (s : State) → cancelled (cancel s) ≡ true
  pub cancel_step : (s : State) → Step s (cancel s)
  pub Step-cancelled : (s t : State) → Step s t → cancelled s ≡ true → cancelled t ≡ true
  -- It has returned, or steps lead to where it has.
  pub returns :
      (s : State)
      → Closure Step start s
      → HasReturned s ⊎ ((t : State) × Closure Step s t × HasReturned t)
