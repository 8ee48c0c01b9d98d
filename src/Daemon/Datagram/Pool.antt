-- ===== src/Daemon/Datagram/Pool.antt =====
-- `DatagramListener::run` and `run_worker` of crates/logfence-daemon/src/datagram_listener.rs as a
-- step relation: the receive loop, the channels and the workers. A step is what the loop, a worker
-- or the canceller of the token does next. The socket decides what is received; what a worker does
-- with an item is `process_datagram`, and here only that it is done. A state also keeps what was
-- received, put into a channel, handled and lost, which the code does not look at.
pub mod Share
pub mod Channels
pub mod Got
pub mod Shares
pub mod All
pub mod Task
use logfence.Prelude.{
  ℕ, suc, ◌+◌, ◌%◌, ◌≤◌, ◌<◌, Bool, true, false, List, [], ◌∷◌, ◌++◌, ◌≡◌, Option, none, some,
  Bytes, codes, length, take, ◌==◌, if◌then◌else◌,
}
use mathlib.Core.List.{map}

abbrev pub worker_channel_cap : ℕ
worker_channel_cap = 256

-- The bytes and the peer.
abbrev pub Item : Type 0
Item = Bytes × Bytes

-- A datagram, with the path of its sender, as it comes out of a buffer of `max_message_size` bytes:
-- `try_recv_from` cuts off what does not fit.
abbrev pub received_item : ℕ → Bytes × Option Bytes → Item
received_item max_message_size (datagram, none) =
    (take max_message_size datagram, codes "<anonymous>")
received_item max_message_size (datagram, some path) = (take max_message_size datagram, path)

-- A worker and the channel before it.
pub record Worker : Type 0 where
  pub queue : List Item
  pub handled : List Item
  pub lost : List Item
  pub alive : Bool

abbrev pub new_worker : Worker
new_worker = record { queue = []; handled = []; lost = []; alive = true }

-- Where the receive loop is: before the socket, with the rest of a batch, behind the loop with the
-- senders dropped, or returned, with whether all workers had ended or the time was over.
pub data Phase : Type 0 where
  receiving : Phase
  dispatching : List Item → Phase
  closing : Phase
  returned : Bool → Phase

pub record Pool : Type 0 where
  pub phase : Phase
  pub cancelled : Bool
  pub worker_idx : ℕ
  pub workers : ℕ → Worker
  pub received : List Item
  pub dispatched : List Item
  -- the rest of a batch behind a closed channel
  pub dropped : List Item

abbrev pub start : Pool
start = record {
  phase = receiving;
  cancelled = false;
  worker_idx = 0;
  workers = λ i. new_worker;
  received = [];
  dispatched = [];
  dropped = [];
}

abbrev pub update : ℕ → Worker → (ℕ → Worker) → ℕ → Worker
update i w workers j = if j == i then w else workers j

-- The item is in the channel of the worker whose turn it is.
abbrev pub enqueued : ℕ → Item → List Item → Pool → Pool
enqueued num_workers item rest s =
    let worker = s.workers s.worker_idx in
    record s {
      phase = dispatching rest;
      worker_idx = (s.worker_idx + 1) % num_workers;
      workers = update s.worker_idx (record worker { queue = worker.queue ++ item ∷ [] }) s.workers;
      dispatched = s.dispatched ++ item ∷ [];
    }

-- Behind one item, of which the rest of the queue is left.
abbrev pub handled_one : ℕ → Item → List Item → Pool → Pool
handled_one i item rest s =
    let worker = s.workers i in
    record s {
      workers =
          update i (record worker { queue = rest; handled = worker.handled ++ item ∷ [] })
            s.workers;
    }

-- `process_datagram` panicked: the receiver goes with the task, and the queue with it.
abbrev pub panicked : ℕ → Pool → Pool
panicked i s =
    let worker = s.workers i in
    record s {
      workers =
          update i (record worker { queue = []; lost = worker.queue; alive = false }) s.workers;
    }

pub data Step (num_workers max_message_size : ℕ) : Pool → Pool → Type 0 where
  cancel : (s : Pool) → Step num_workers max_message_size s (record s { cancelled = true })
  stop :
      (s : Pool)
      → s.phase ≡ receiving
      → s.cancelled ≡ true
      → Step num_workers max_message_size s (record s { phase = closing })
  -- The drain of the socket, up to an error or until it would block.
  receive :
      (s : Pool) (datagrams : List (Bytes × Option Bytes))
      → s.phase ≡ receiving
      → s.cancelled ≡ false
      → Step num_workers max_message_size s (record s {
        phase = dispatching (map (received_item max_message_size) datagrams);
        received = s.received ++ map (received_item max_message_size) datagrams;
      })
  -- `try_send`, or `send` once there is room.
  send :
      (s : Pool) (item : Item) (rest : List Item)
      → s.phase ≡ dispatching (item ∷ rest)
      → (s.workers s.worker_idx).alive ≡ true
      → length (s.workers s.worker_idx).queue < worker_channel_cap
      → Step num_workers max_message_size s (enqueued num_workers item rest s)
  -- `break 'recv`
  send_failed :
      (s : Pool) (item : Item) (rest : List Item)
      → s.phase ≡ dispatching (item ∷ rest)
      → (s.workers s.worker_idx).alive ≡ false
      → Step num_workers max_message_size s (record s { phase = closing; dropped = item ∷ rest })
  batch_done :
      (s : Pool)
      → s.phase ≡ dispatching []
      → Step num_workers max_message_size s (record s { phase = receiving })
  handle :
      (s : Pool) (i : ℕ) (item : Item) (rest : List Item)
      → i < num_workers
      → (s.workers i).alive ≡ true
      → (s.workers i).queue ≡ item ∷ rest
      → Step num_workers max_message_size s (handled_one i item rest s)
  worker_panic :
      (s : Pool) (i : ℕ) (item : Item) (rest : List Item)
      → i < num_workers
      → (s.workers i).alive ≡ true
      → (s.workers i).queue ≡ item ∷ rest
      → Step num_workers max_message_size s (panicked i s)
  -- Every task has ended: with its channel closed, a worker ends on an empty queue.
  finished :
      (s : Pool)
      → s.phase ≡ closing
      → ((i : ℕ) → i < num_workers → (s.workers i).queue ≡ [])
      → Step num_workers max_message_size s (record s { phase = returned true })
  timed_out :
      (s : Pool)
      → s.phase ≡ closing
      → Step num_workers max_message_size s (record s { phase = returned false })

pub data Steps (num_workers max_message_size : ℕ) (s : Pool) : Pool → Type 0 where
  here : Steps num_workers max_message_size s s
  next :
      {t u : Pool}
      → Steps num_workers max_message_size s t
      → Step num_workers max_message_size t u
      → Steps num_workers max_message_size s u
