-- ===== src/Daemon/Datagram/Pool/Shares.antt =====
-- Which worker handles what.
use logfence.Prelude.{
  ℕ, ◌+◌, ◌%◌, ◌≤◌, ◌<◌, true, false, Bool-cases, inl, inr, [], ◌∷◌, ◌++◌, ◌≡◌, ◌⊎◌, refl, sym, ap,
  ◌∙◌, arith, length, length-append, append-nil, append_assoc,
}
use mathlib.Core.List.{map}
use native.Mathlib.Nat.{mod-add-mod, mod-eq_of_lt}
use logfence.Daemon.Datagram.Pool.{
  received_item, Pool, receiving, returned, start, Step, cancel, stop, receive, send, send_failed,
  batch_done, handle, worker_panic, finished, timed_out, Steps, here, next,
}
use logfence.Daemon.Datagram.Pool.Share.{share}
use logfence.Daemon.Datagram.Pool.Channels.{update-All, IsBounded, Steps-IsBounded}
use logfence.Daemon.Datagram.Pool.Got.{
  running, got, AllAlive, IsShared, alive-update, got-queue, got-handled, got-panicked, dead_now,
  update-shares, send-shares, kept_at, kept_whole,
}

module _ (n size : ℕ) where
  Step-IsShared : {s t : Pool} → Step n size s t → IsBounded n s → IsShared n s → IsShared n t
  Step-IsShared (cancel s) b h = record {
    turn = h.turn;
    shares = h.shares;
    lost_none = h.lost_none;
    kept = h.kept;
    whole = h.whole;
    broken_off = h.broken_off;
    emptied = h.emptied;
  }
  Step-IsShared (stop s at off) b h = record {
    turn = h.turn;
    shares = h.shares;
    lost_none = h.lost_none;
    kept = kept_at n s _ h at;
    whole = λ e. absurd (cc);
    broken_off = h.broken_off;
    emptied = λ e. absurd (cc);
  }
  Step-IsShared (receive s datagrams at on) b h = record {
    turn = h.turn;
    shares = h.shares;
    lost_none = h.lost_none;
    kept =
        ap (λ x. x ++ map (received_item size) datagrams)
          (kept_whole n s receiving h at refl ∙ append-nil s.dispatched)
        ∙ ap (λ x. s.dispatched ++ x)
            (sym (
              ap (λ x. map (received_item size) datagrams ++ x) (h.whole (ap running at))
              ∙ append-nil (map (received_item size) datagrams)));
    whole = λ e. h.whole (ap running at);
    broken_off = h.broken_off;
    emptied = λ e. absurd (cc);
  }
  Step-IsShared (send s item rest at alive room) b h = record {
    turn =
        ap (λ i. (i + 1) % n) h.turn
        ∙ mod-add-mod (length s.dispatched) n 1
        ∙ ap (λ m. m % n) (sym (length-append s.dispatched (item ∷ [])));
    shares = send-shares n s item _ h (got-queue (s.workers s.worker_idx) item);
    lost_none =
        update-All (λ j w. w.alive ≡ true → w.lost ≡ []) s.worker_idx _ s.workers h.lost_none
          (h.lost_none s.worker_idx);
    kept = kept_at n s _ h at ∙ sym (append_assoc s.dispatched (item ∷ []) (rest ++ s.dropped));
    whole = λ e. h.whole (ap running at);
    broken_off =
        λ all. h.broken_off (λ j k. sym (alive-update s.worker_idx _ s.workers refl j) ∙ all j k);
    emptied = λ e. absurd (cc);
  }
  Step-IsShared (send_failed s item rest at dead) b h = record {
    turn = h.turn;
    shares = h.shares;
    lost_none = h.lost_none;
    kept = kept_whole n s _ h at refl;
    whole = λ e. absurd (cc);
    broken_off = λ all. absurd (cc (dead, all s.worker_idx b.in_range));
    emptied = λ e. absurd (cc);
  }
  Step-IsShared (batch_done s at) b h = record {
    turn = h.turn;
    shares = h.shares;
    lost_none = h.lost_none;
    kept = kept_at n s _ h at;
    whole = λ e. h.whole (ap running at);
    broken_off = h.broken_off;
    emptied = λ e. absurd (cc);
  }
  Step-IsShared (handle s i item rest k alive front) b h = record {
    turn = h.turn;
    shares =
        update-shares n s i _ h (got-handled (s.workers i) item rest (h.lost_none i alive) front);
    lost_none =
        update-All (λ j w. w.alive ≡ true → w.lost ≡ []) i _ s.workers h.lost_none (h.lost_none i);
    kept = h.kept;
    whole = h.whole;
    broken_off = λ all. h.broken_off (λ j k. sym (alive-update i _ s.workers refl j) ∙ all j k);
    emptied = λ e. absurd (cc (h.emptied e i k, front));
  }
  Step-IsShared (worker_panic s i item rest k alive front) b h = record {
    turn = h.turn;
    shares = update-shares n s i _ h (got-panicked (s.workers i) (h.lost_none i alive));
    lost_none =
        update-All (λ j w. w.alive ≡ true → w.lost ≡ []) i _ s.workers h.lost_none
          (λ e. absurd (cc));
    kept = h.kept;
    whole = h.whole;
    broken_off = λ all. absurd (dead_now i (s.workers i) s.workers (all i k));
    emptied = λ e. absurd (cc (h.emptied e i k, front));
  }
  Step-IsShared (finished s at empty) b h = record {
    turn = h.turn;
    shares = h.shares;
    lost_none = h.lost_none;
    kept = kept_at n s _ h at;
    whole = λ e. absurd (cc);
    broken_off = h.broken_off;
    emptied = λ e. empty;
  }
  Step-IsShared (timed_out s at) b h = record {
    turn = h.turn;
    shares = h.shares;
    lost_none = h.lost_none;
    kept = kept_at n s _ h at;
    whole = λ e. absurd (cc);
    broken_off = h.broken_off;
    emptied = λ e. absurd (cc);
  }

  Steps-IsShared : {s : Pool} → 1 ≤ n → Steps n size start s → IsShared n s
  Steps-IsShared some_worker here = record {
    turn = omega (arith, mod-eq_of_lt {n = 0} {m = n} some_worker);
    shares = λ i. refl;
    lost_none = λ i e. refl;
    kept = refl;
    whole = λ e. refl;
    broken_off = λ all. refl;
    emptied = λ e. absurd (cc);
  }
  Steps-IsShared some_worker (next r st) =
      Step-IsShared st (Steps-IsBounded n size some_worker r) (Steps-IsShared some_worker r)

  -- With a worker or more, in every state that the listener reaches: what a worker handled, what
  -- it lost and what is in its channel, one behind the other, are the items sent whose places are
  -- its own index modulo the number of workers; and a worker that runs has lost none.
  pub Steps-share :
      (s : Pool) (i : ℕ)
      → 1 ≤ n
      → Steps n size start s
      → (got (s.workers i) ≡ share n i 0 s.dispatched)
        × (((s.workers i).alive ≡ false) ⊎ ((s.workers i).lost ≡ []))
  Steps-share s i some_worker r =
      let h = Steps-IsShared some_worker r in
      (
        h.shares i,
        elim (Bool-cases (s.workers i).alive) [
          | inl runs ↦ inr (h.lost_none i runs)
          | inr dead ↦ inl dead
        ],
      )

  -- With a worker or more: if the listener has returned without the timeout and no worker has
  -- panicked, then each worker has handled, in order, the received items whose places are its own
  -- index modulo the number of workers, each of them once.
  pub Steps-handled :
      (s : Pool) (i : ℕ)
      → 1 ≤ n
      → Steps n size start s
      → s.phase ≡ returned true
      → AllAlive n s.workers
      → i < n
      → (s.workers i).handled ≡ share n i 0 s.received
  Steps-handled s i some_worker r at all k =
      let h = Steps-IsShared some_worker r in
      let sent : s.received ≡ s.dispatched =
        kept_at n s _ h at
        ∙ ap (λ x. s.dispatched ++ x) (h.broken_off all)
        ∙ append-nil s.dispatched in
      let whole : got (s.workers i) ≡ (s.workers i).handled =
        rw (h.lost_none i (all i k), h.emptied at i k) (append-nil (s.workers i).handled) in
      sym whole ∙ h.shares i ∙ ap (share n i 0) (sym sent)
