-- ===== src/Daemon/Datagram/Pool/Channels.antt =====
-- The bounds that the receive loop relies on.
use logfence.Prelude.{
  ℕ, ◌+◌, ◌≤◌, ◌<◌, Bool-cases, inl, inr, [], ◌∷◌, sym, ap, subst, arith, length, length-append,
  ◌==◌, ==→eq,
}
use native.Mathlib.Nat.{mod-lt}
use logfence.Daemon.Datagram.Pool.{
  Worker, Pool, start, update, worker_channel_cap, Step, cancel, stop, receive, send, send_failed,
  batch_done, handle, worker_panic, finished, timed_out, Steps, here, next,
}

-- What holds of every worker holds of every worker after an update with such a worker.
pub update-All :
    (P : ℕ → Worker → Type 0) (i : ℕ) (w : Worker) (workers : ℕ → Worker)
    → ((j : ℕ) → P j (workers j))
    → P i w
    → (j : ℕ) → P j (update i w workers j)
update-All P i w workers all new j = elim (Bool-cases (j == i)) [
  | inl same ↦ rw same (subst (λ k. P k w) (sym (==→eq j i same)) new)
  | inr other ↦ rw other (all j)
]

-- The index is that of a worker, and no channel has more than it can hold.
pub record IsBounded (num_workers : ℕ) (s : Pool) : Type 0 where
  pub in_range : s.worker_idx < num_workers
  pub fits : (i : ℕ) → length (s.workers i).queue ≤ worker_channel_cap

module _ (n size : ℕ) where
  pub Step-IsBounded : {s t : Pool} → Step n size s t → IsBounded n s → IsBounded n t
  Step-IsBounded (cancel s) b = record { in_range = b.in_range; fits = b.fits }
  Step-IsBounded (stop s at off) b = record { in_range = b.in_range; fits = b.fits }
  Step-IsBounded (receive s datagrams at on) b = record { in_range = b.in_range; fits = b.fits }
  Step-IsBounded (send s item rest at alive room) b = record {
    in_range = mod-lt (s.worker_idx + 1) (omega (arith, b.in_range));
    fits =
        update-All (λ i w. length w.queue ≤ worker_channel_cap) s.worker_idx _ s.workers b.fits
          (omega (arith, room, length-append (s.workers s.worker_idx).queue (item ∷ [])));
  }
  Step-IsBounded (send_failed s item rest at dead) b = record {
    in_range = b.in_range;
    fits = b.fits;
  }
  Step-IsBounded (batch_done s at) b = record { in_range = b.in_range; fits = b.fits }
  Step-IsBounded (handle s i item rest k alive front) b = record {
    in_range = b.in_range;
    fits =
        update-All (λ i w. length w.queue ≤ worker_channel_cap) i _ s.workers b.fits
          (omega (arith, b.fits i, ap length front));
  }
  Step-IsBounded (worker_panic s i item rest k alive front) b = record {
    in_range = b.in_range;
    fits =
        update-All (λ i w. length w.queue ≤ worker_channel_cap) i _ s.workers b.fits (omega arith);
  }
  Step-IsBounded (finished s at empty) b = record { in_range = b.in_range; fits = b.fits }
  Step-IsBounded (timed_out s at) b = record { in_range = b.in_range; fits = b.fits }

  -- With a worker or more: in every state that the listener reaches, the index it keeps is that of
  -- a worker, so it sends to a channel that there is, and no channel has more than 256 items.
  pub Steps-IsBounded : {s : Pool} → 1 ≤ n → Steps n size start s → IsBounded n s
  Steps-IsBounded some_worker here = record { in_range = some_worker; fits = λ i. omega arith }
  Steps-IsBounded some_worker (next r st) = Step-IsBounded st (Steps-IsBounded some_worker r)
