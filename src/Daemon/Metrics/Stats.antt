-- ===== src/Daemon/Metrics/Stats.antt =====
-- `serve_stats_socket` of crates/logfence-daemon/src/metrics.rs, and the Display of a snapshot.
-- What happens at the socket is a sequence of events, and what is written to the clients is what
-- the function gives. serde_json's `to_string` of a snapshot is a parameter; a failed write is only
-- logged.
use logfence.Prelude.{[], ◌∷◌, ◌++◌, List, Bytes, codes, ◌⊎◌, inl, inr}
use logfence.Text.{decimal}
use logfence.Daemon.Metrics.{MetricsStore, Snapshot, snapshot}

unfoldable pub display_snapshot : Snapshot → Bytes
display_snapshot s =
    codes "received="
    ++ (decimal s.received
        ++ (codes " forwarded="
            ++ (decimal s.forwarded
                ++ (codes " dropped="
                    ++ (decimal s.dropped ++ (codes " errors=" ++ decimal s.errors))))))

-- What ends the wait of the loop: the token, an error of `accept`, a client whose read half cannot
-- be shut down, or a client, with the store at the time.
pub data StatsEvent : Type 0 where
  shutdown accept_failed write_only_failed : StatsEvent
  client : MetricsStore → StatsEvent

module _ (to_string : Snapshot → Bytes ⊎ Bytes) where
  -- The reply in front of the later ones, unless the snapshot has no JSON.
  abbrev reply : Bytes ⊎ Bytes → List Bytes → List Bytes
  reply (inl e) later = later
  reply (inr s) later = (s ++ b'\n' ∷ []) ∷ later

  unfoldable pub serve_stats : List StatsEvent → List Bytes
  serve_stats [] = []
  serve_stats (shutdown ∷ rest) = []
  serve_stats (accept_failed ∷ rest) = serve_stats rest
  serve_stats (write_only_failed ∷ rest) = serve_stats rest
  serve_stats (client store ∷ rest) = reply (to_string (snapshot store)) (serve_stats rest)
