-- ===== src/Daemon/Metrics.antt =====
-- crates/logfence-daemon/src/metrics.rs: the counters. An increment is one of an `AtomicU64`, which
-- wraps around. A store is a value here.
pub mod Stats
use logfence.Prelude.{ℕ, ◌+◌, ◌%◌, ◌^◌}

pub record MetricsStore : Type 0 where
  pub received : ℕ
  pub forwarded : ℕ
  pub dropped : ℕ
  pub errors : ℕ

pub record Snapshot : Type 0 where
  pub received : ℕ
  pub forwarded : ℕ
  pub dropped : ℕ
  pub errors : ℕ

-- `fetch_add(1)`
abbrev pub add_one : ℕ → ℕ
add_one n = (n + 1) % 2 ^ 64

-- `MetricsStore::new`
abbrev pub new_store : MetricsStore
new_store = record { received = 0; forwarded = 0; dropped = 0; errors = 0 }

unfoldable pub inc_received : MetricsStore → MetricsStore
inc_received s = record s { received = add_one s.received }

unfoldable pub inc_forwarded : MetricsStore → MetricsStore
inc_forwarded s = record s { forwarded = add_one s.forwarded }

unfoldable pub inc_dropped : MetricsStore → MetricsStore
inc_dropped s = record s { dropped = add_one s.dropped }

unfoldable pub inc_errors : MetricsStore → MetricsStore
inc_errors s = record s { errors = add_one s.errors }

-- `MetricsStore::snapshot`, with no other task in between its four loads.
unfoldable pub snapshot : MetricsStore → Snapshot
snapshot s = record {
  received = s.received;
  forwarded = s.forwarded;
  dropped = s.dropped;
  errors = s.errors;
}
