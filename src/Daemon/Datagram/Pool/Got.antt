-- ===== src/Daemon/Datagram/Pool/Got.antt =====
-- What the workers of the pool got, and what a move of one of them changes of it.
use logfence.Prelude.{
  ℕ, ◌+◌, ◌%◌, ◌<◌, Bool, true, false, Bool-cases, inl, inr, List, [], ◌∷◌, ◌++◌, ◌≡◌, ◌≢◌, refl,
  sym, ap, ◌∙◌, arith, length, append-nil, append_assoc, ◌==◌, ==→eq, ==→ne, eq→==, ne→==,
  if◌then◌else◌,
}
use logfence.Daemon.Datagram.Pool.{
  Item, Worker, Pool, Phase, receiving, dispatching, closing, returned, update,
}
use logfence.Daemon.Datagram.Pool.Share.{share, last_share, share_snoc}
use logfence.Daemon.Datagram.Pool.Channels.{update-All}

-- The rest of the batch that is being sent.
abbrev pub pending : Phase → List Item
pending receiving = []
pending (dispatching batch) = batch
pending closing = []
pending (returned all) = []

-- The loop runs: its senders are there.
abbrev pub running : Phase → Bool
running receiving = true
running (dispatching batch) = true
running closing = false
running (returned all) = false

-- What a worker got.
abbrev pub got : Worker → List Item
got w = w.handled ++ (w.lost ++ w.queue)

abbrev pub AllAlive : ℕ → (ℕ → Worker) → Type 0
AllAlive n workers = (i : ℕ) → i < n → (workers i).alive ≡ true

-- Everything received is with the worker whose turn it was, or still in a batch, or dropped with
-- one; a batch is dropped only if a worker does not run.
pub record IsShared (n : ℕ) (s : Pool) : Type 0 where
  pub turn : s.worker_idx ≡ length s.dispatched % n
  pub shares : (i : ℕ) → got (s.workers i) ≡ share n i 0 s.dispatched
  pub lost_none : (i : ℕ) → (s.workers i).alive ≡ true → (s.workers i).lost ≡ []
  pub kept : s.received ≡ s.dispatched ++ (pending s.phase ++ s.dropped)
  pub whole : running s.phase ≡ true → s.dropped ≡ []
  pub broken_off : AllAlive n s.workers → s.dropped ≡ []
  pub emptied : s.phase ≡ returned true → (i : ℕ) → i < n → (s.workers i).queue ≡ []

pub alive-update :
    (i : ℕ) (w : Worker) (workers : ℕ → Worker)
    → w.alive ≡ (workers i).alive
    → (j : ℕ) → (update i w workers j).alive ≡ (workers j).alive
alive-update i w workers same j = elim (Bool-cases (j == i)) [
  | inl it ↦ rw it (same ∙ ap (λ k. (workers k).alive) (sym (==→eq j i it)))
  | inr other ↦ rw other refl
]

abbrev pub panicked_worker : Worker → Worker
panicked_worker w = record w { queue = []; lost = w.queue; alive = false }

pub dead_now :
    (i : ℕ) (w : Worker) (workers : ℕ → Worker)
    → (update i (panicked_worker w) workers i).alive ≢ true
dead_now i w workers = rw (eq→== i i refl) (λ e. cc)

pub got-queue :
    (w : Worker) (item : Item)
    → got (record w { queue = w.queue ++ item ∷ [] }) ≡ got w ++ item ∷ []
got-queue w item = simp append_assoc

pub got-handled :
    (w : Worker) (item : Item) (rest : List Item)
    → w.lost ≡ []
    → w.queue ≡ item ∷ rest
    → got (record w { queue = rest; handled = w.handled ++ item ∷ [] }) ≡ got w
got-handled w item rest none_lost front = rw (none_lost, front, append_assoc) refl

pub got-panicked :
    (w : Worker)
    → w.lost ≡ []
    → got (record w { queue = []; lost = w.queue; alive = false }) ≡ got w
got-panicked w none_lost = rw (none_lost, append-nil) refl

module _ (n : ℕ) where
  -- A worker takes part with another that got as much.
  pub update-shares :
      (s : Pool) (i : ℕ) (w : Worker)
      → IsShared n s
      → got w ≡ got (s.workers i)
      → (j : ℕ) → got (update i w s.workers j) ≡ share n j 0 s.dispatched
  update-shares s i w h same =
      update-All (λ j x. got x ≡ share n j 0 s.dispatched) i w s.workers h.shares
        (same ∙ h.shares i)

  last-mine :
      (s : Pool) (item : Item) (j : ℕ)
      → IsShared n s
      → j ≡ s.worker_idx
      → last_share n j (0 + length s.dispatched) item ≡ item ∷ []
  last-mine s item j h e =
      ap (λ b. if b then item ∷ [] else [])
        (eq→== ((0 + length s.dispatched) % n) j
          (ap (λ m. m % n) (omega arith) ∙ sym h.turn ∙ sym e))

  last-other :
      (s : Pool) (item : Item) (j : ℕ)
      → IsShared n s
      → j ≢ s.worker_idx
      → last_share n j (0 + length s.dispatched) item ≡ []
  last-other s item j h ne =
      ap (λ b. if b then item ∷ [] else [])
        (ne→== ((0 + length s.dispatched) % n) j
          (λ e. ne (sym e ∙ ap (λ m. m % n) (omega arith) ∙ sym h.turn)))

  pub send-shares :
      (s : Pool) (item : Item) (w : Worker)
      → IsShared n s
      → got w ≡ got (s.workers s.worker_idx) ++ item ∷ []
      → (j : ℕ) → got (update s.worker_idx w s.workers j) ≡ share n j 0 (s.dispatched ++ item ∷ [])
  send-shares s item w h more j = elim (Bool-cases (j == s.worker_idx)) [
    | inl it ↦ rw it (
        more
        ∙ ap (λ x. x ++ item ∷ [])
            (h.shares s.worker_idx
              ∙ ap (λ k. share n k 0 s.dispatched) (sym (==→eq j s.worker_idx it)))
        ∙ ap (λ x. share n j 0 s.dispatched ++ x)
            (sym (last-mine s item j h (==→eq j s.worker_idx it)))
        ∙ sym (share_snoc n j 0 s.dispatched item))
    | inr other ↦ rw other (
        h.shares j
        ∙ sym (append-nil (share n j 0 s.dispatched))
        ∙ ap (λ x. share n j 0 s.dispatched ++ x)
            (sym (last-other s item j h (==→ne j s.worker_idx other)))
        ∙ sym (share_snoc n j 0 s.dispatched item))
  ]

  -- What is left of `kept` in a phase that is known.
  pub kept_at :
      (s : Pool) (phase : Phase)
      → IsShared n s
      → s.phase ≡ phase
      → s.received ≡ s.dispatched ++ (pending phase ++ s.dropped)
  kept_at s phase h at = h.kept ∙ ap (λ p. s.dispatched ++ (pending p ++ s.dropped)) at

  pub kept_whole :
      (s : Pool) (phase : Phase)
      → IsShared n s
      → s.phase ≡ phase
      → running phase ≡ true
      → s.received ≡ s.dispatched ++ pending phase
  kept_whole s phase h at on =
      kept_at s phase h at
      ∙ ap (λ x. s.dispatched ++ (pending phase ++ x)) (h.whole (ap running at ∙ on))
      ∙ ap (λ x. s.dispatched ++ x) (append-nil (pending phase))
