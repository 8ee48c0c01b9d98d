-- ===== src/Daemon/Datagram/Pool/Task.antt =====
-- The datagram listener as a task of the process.
use logfence.Prelude.{
  ℕ, ◌≤◌, ◌<◌, Bool, true, false, Bool-cases, List, [], ◌∷◌, ◌≡◌, ◌⊎◌, inl, inr, refl, ap, arith,
  length, ltb, eq→==,
}
use logfence.Daemon.Task.{Task, Closure, Closure-trans}
use logfence.Daemon.Datagram.Pool.{
  Item, Phase, receiving, dispatching, closing, returned, Pool, start, enqueued, handled_one,
  worker_channel_cap, Step, cancel, stop, receive, send, send_failed, batch_done, handle,
  worker_panic, finished, timed_out, Steps, here, next,
}
use logfence.Daemon.Datagram.Pool.Channels.{IsBounded, Step-IsBounded, Steps-IsBounded}

abbrev pub HasReturned : Pool → Type 0
HasReturned s = (all : Bool) × (s.phase ≡ returned all)

module _ {n size : ℕ} where
  pub Step-cancelled : {s t : Pool} → Step n size s t → s.cancelled ≡ true → t.cancelled ≡ true
  Step-cancelled (cancel s) h = refl
  Step-cancelled (stop s at off) h = h
  Step-cancelled (receive s datagrams at on) h = h
  Step-cancelled (send s item rest at alive room) h = h
  Step-cancelled (send_failed s item rest at dead) h = h
  Step-cancelled (batch_done s at) h = h
  Step-cancelled (handle s i item rest k alive front) h = h
  Step-cancelled (worker_panic s i item rest k alive front) h = h
  Step-cancelled (finished s at empty) h = h
  Step-cancelled (timed_out s at) h = h

  to_Steps : {s t : Pool} → Closure (Step n size) s t → Steps n size s t
  to_Steps Closure.here = here
  to_Steps (Closure.next r st) = next (to_Steps r) st

module _ (n size : ℕ) where
  -- Steps lead to where the senders are dropped.
  record Closes (s : Pool) : Type 0 where
    pub last : Pool
    pub path : Closure (Step n size) s last
    pub there : last.phase ≡ closing

  one_step : {s t : Pool} → Step n size s t → Closes t → Closes s
  one_step st c = record {
    last = c.last;
    path = Closure-trans (Closure.next Closure.here st) c.path;
    there = c.there;
  }

  receiving-Closes : (s : Pool) → s.phase ≡ receiving → Closes s
  receiving-Closes s at = one_step (cancel s) (
      one_step (stop (record s { cancelled = true }) at refl) (record {
        last = record s { cancelled = true; phase = closing };
        path = Closure.here;
        there = refl;
      }))

  -- An item is sent, or the loop is over as its worker is gone.
  sent-Closes :
      (s : Pool) (item : Item) (rest : List Item)
      → s.phase ≡ dispatching (item ∷ rest)
      → (s.workers s.worker_idx).alive ≡ true
      → length (s.workers s.worker_idx).queue < worker_channel_cap
      → (IsBounded n (enqueued n item rest s) → Closes (enqueued n item rest s))
      → IsBounded n s
      → Closes s
  sent-Closes s item rest at alive room later b =
      let st : Step n size s (enqueued n item rest s) = send s item rest at alive room in
      one_step st (later (Step-IsBounded n size st b))

  -- A worker handles the first item of its full queue.
  full-Closes :
      (s : Pool) (item : Item) (rest queue : List Item)
      → s.phase ≡ dispatching (item ∷ rest)
      → (s.workers s.worker_idx).alive ≡ true
      → (s.workers s.worker_idx).queue ≡ queue
      → worker_channel_cap ≤ length queue
      → ((t : Pool) → t.phase ≡ dispatching rest → IsBounded n t → Closes t)
      → IsBounded n s
      → Closes s
  full-Closes s item rest [] at alive front full later b = absurd (omega (arith, full))
  full-Closes s item rest (x ∷ queue) at alive front full later b =
      let st : Step n size s (handled_one s.worker_idx x queue s) =
        handle s s.worker_idx x queue b.in_range alive front in
      let bounded = Step-IsBounded n size st b in
      one_step st (
        sent-Closes (handled_one s.worker_idx x queue s) item rest at
          (rw (eq→== s.worker_idx s.worker_idx refl) alive)
          (rw (eq→== s.worker_idx s.worker_idx refl)
            (omega (arith, b.fits s.worker_idx, ap length front)))
          (λ c. later _ refl c) bounded)

  dispatching-Closes :
      (batch : List Item) (s : Pool) → s.phase ≡ dispatching batch → IsBounded n s → Closes s
  dispatching-Closes [] s at b =
      one_step (batch_done s at) (receiving-Closes (record s { phase = receiving }) refl)
  dispatching-Closes (item ∷ rest) s at b = elim (Bool-cases (s.workers s.worker_idx).alive) [
    | inl alive ↦
        elim (Bool-cases (ltb (length (s.workers s.worker_idx).queue) worker_channel_cap)) [
          | inl room ↦
              sent-Closes s item rest at alive (ground arith)
                (λ c. dispatching-Closes rest (enqueued n item rest s) refl c) b
          | inr full ↦
              full-Closes s item rest _ at alive refl (ground arith)
                (λ t on c. dispatching-Closes rest t on c) b
        ]
    | inr dead ↦ one_step (send_failed s item rest at dead) (record {
      last = record s { phase = closing; dropped = item ∷ rest };
      path = Closure.here;
      there = refl;
    })
  ]

  Closes-return : (s : Pool) → Closes s → (t : Pool) × Closure (Step n size) s t × HasReturned t
  Closes-return s c = (
    record c.last { phase = returned false },
    Closure.next c.path (timed_out c.last c.there),
    (false, refl),
  )

  returns_from :
      (s : Pool) (phase : Phase)
      → s.phase ≡ phase
      → IsBounded n s
      → HasReturned s ⊎ ((t : Pool) × Closure (Step n size) s t × HasReturned t)
  returns_from s receiving at b = inr (Closes-return s (receiving-Closes s at))
  returns_from s (dispatching batch) at b = inr (Closes-return s (dispatching-Closes batch s at b))
  returns_from s closing at b =
      inr (Closes-return s (record { last = s; path = Closure.here; there = at }))
  returns_from s (returned all) at b = inl (all, at)

  -- From every state that the listener reaches steps lead to where it has returned: a full channel
  -- is emptied by its worker, and behind a worker that is gone the loop is over.
  pub returns :
      (s : Pool)
      → 1 ≤ n
      → Closure (Step n size) start s
      → HasReturned s ⊎ ((t : Pool) × Closure (Step n size) s t × HasReturned t)
  returns s some_worker r =
      returns_from s s.phase refl (Steps-IsBounded n size some_worker (to_Steps r))

  abbrev pub datagram_task : 1 ≤ n → Task
  datagram_task some_worker = record {
    State = Pool;
    Step = Step n size;
    start = start;
    cancelled = λ s. s.cancelled;
    cancel = λ s. record s { cancelled = true };
    HasReturned = HasReturned;
    start-uncancelled = refl;
    cancel-cancelled = λ s. refl;
    cancel_step = cancel;
    Step-cancelled = λ s t st h. Step-cancelled st h;
    returns = λ s r. returns s some_worker r;
  }
