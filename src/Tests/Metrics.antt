-- ===== src/Tests/Metrics.antt =====
-- The stats socket of crates/logfence-daemon.
use logfence.Prelude.{[], ◌∷◌, ◌≡◌, inr, refl, codes}
use logfence.Text.{decimal, decimal_on}
use logfence.Daemon.Metrics.{new_store, snapshot}
use logfence.Daemon.Metrics.Stats.{serve_stats, display_snapshot, accept_failed, client, shutdown}

serve_stats_test :
    serve_stats
      (λ s. inr (display_snapshot s))
      (accept_failed ∷ client new_store ∷ shutdown ∷ client new_store ∷ [])
    ≡ codes "received=0 forwarded=0 dropped=0 errors=0\n" ∷ []
unfolding serve_stats display_snapshot snapshot decimal decimal_on
serve_stats_test = refl
