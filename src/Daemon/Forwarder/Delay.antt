-- ===== src/Daemon/Forwarder/Delay.antt =====
-- The delays between the attempts.
use logfence.Prelude.{ℕ, ◌-◌, ◌*◌, ◌^◌, ◌≤◌, min, ◌≡◌, arith, Bool-cases, inl, inr, ltb}
use native.Mathlib.Nat.{pow-le-pow_right}
use logfence.Daemon.Forwarder.{dgram_attempt_delay}

-- The shifts and products of the source, capped one after the other, come to one formula: 100 µs
-- doubled for each attempt after the second, and one second at most.
pub dgram_attempt_delay_lem :
    (attempt : ℕ) → dgram_attempt_delay attempt ≡ min 1000000 (100 * 2 ^ (attempt - 2))
unfolding dgram_attempt_delay
dgram_attempt_delay_lem attempt = elim (Bool-cases (ltb (attempt - 2) 64)) [
  | inl small ↦ rw small (ground arith)
  | inr large ↦
      let huge : 2 ^ 64 ≤ 2 ^ (attempt - 2) =
        pow-le-pow_right {n = 2} (omega arith) {i = 64} {j = attempt - 2} (ground arith) in
      rw large (omega (arith, huge))
]
