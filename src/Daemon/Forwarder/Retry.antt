-- ===== src/Daemon/Forwarder/Retry.antt =====
-- How often a datagram is tried, and what is returned.
use logfence.Prelude.{
  ℕ, zero, suc, ◌+◌, ◌-◌, ◌≤◌, ◌<◌, ◌&&◌, not, ◌≡◌, ◌≢◌, refl, sym, ap, subst, true, ◌⊎◌, arith,
  Option, none, some, Bool-cases, inl, inr, ltb, ◌==◌,
}
use logfence.Io.{IoError, is_buffer_full}
use logfence.Daemon.Config.{u32_max}
use logfence.Daemon.Forwarder.{next_attempt, after_try, retry, send_dgram_with_retry}

module _ {W : Type 0} (try_send_to : W → Option IoError × W) (max_attempts : ℕ) where
  -- The state after so many tries.
  abbrev pub tries : ℕ → W → W
  tries zero w = w
  tries (suc n) w = tries n (try_send_to w).1

  abbrev pub FullBuffer : Option IoError → Type 0
  FullBuffer none = ⊥
  FullBuffer (some e) = is_buffer_full e ≡ true

  -- So many tries, from `w` on, each found the buffer full.
  abbrev pub AllFull : ℕ → W → Type 0
  AllFull zero w = Unit {0}
  AllFull (suc n) w = FullBuffer (try_send_to w).0 × AllFull n (try_send_to w).1

  -- Between one and `limit` tries were made from `w`: all but the last found the buffer full, the
  -- last did not or was the `limit`-th, and its result is the one returned.
  pub record Returned (limit : ℕ) (w : W) (r : Option (Option IoError × W)) : Type 0 where
    pub before_last : ℕ
    pub bounded : suc before_last ≤ limit
    pub returns : r ≡ some ((try_send_to (tries before_last w)).0, tries (suc before_last) w)
    pub full_before : AllFull before_last w
    pub stops : (¬ FullBuffer (try_send_to (tries before_last w)).0) ⊎ (suc before_last ≡ limit)

  Returned-after_try :
      (limit : ℕ) (w : W) (go : IoError → W → Option (Option IoError × W)) (p : Option IoError × W)
      → try_send_to w ≡ p
      → 1 ≤ limit
      → ((e : IoError) → p.0 ≡ some e → is_buffer_full e ≡ true → Returned limit w (go e p.1))
      → Returned limit w (after_try try_send_to max_attempts go p)
  Returned-after_try limit w go (none, after) h k again = record {
    before_last = 0;
    bounded = k;
    returns = ap some (sym h);
    full_before = tt;
    stops = inl (subst (λ q. ¬ FullBuffer q.0) (sym h) (λ x. x));
  }
  Returned-after_try limit w go (some e, after) h k again = elim (Bool-cases (is_buffer_full e)) [
    | inl full_buffer ↦ rw (full_buffer, after_try) (again e refl full_buffer)
    | inr other ↦
        rw (other, after_try)
          (record {
            before_last = 0;
            bounded = k;
            returns = ap some (sym h);
            full_before = tt;
            stops = inl (subst (λ q. ¬ FullBuffer q.0) (sym h) (λ x. absurd (cc (x, other))));
          })
  ]

  Returned-later :
      (limit : ℕ) (w : W) (r : Option (Option IoError × W))
      → FullBuffer (try_send_to w).0
      → Returned (limit - 1) (try_send_to w).1 r
      → Returned limit w r
  Returned-later limit w r full_buffer d = record {
    before_last = suc d.before_last;
    bounded = omega (arith, d.bounded);
    returns = d.returns;
    full_before = (full_buffer, d.full_before);
    stops = elim d.stops [
      | inl other ↦ inl other
      | inr last ↦ inr (omega (arith, d.bounded, last))
    ];
  }

  retry-Returned :
      (fuel attempt limit : ℕ) (e : IoError) (w : W)
      → max_attempts ≢ 0
      → max_attempts < u32_max
      → attempt + limit ≡ max_attempts + 2
      → 1 ≤ limit
      → limit ≤ fuel
      → (try_send_to w).0 ≡ some e
      → is_buffer_full e ≡ true
      → Returned limit w (retry try_send_to max_attempts fuel attempt e (try_send_to w).1)
  unfolding retry
  retry-Returned zero attempt limit e w nz small sum pos room h full_e = absurd (omega arith)
  retry-Returned (suc fuel) attempt limit e w nz small sum pos room h full_e =
      elim (Bool-cases (not (max_attempts == 0) && ltb max_attempts attempt)) [
        | inl exhausted ↦
            let spent : max_attempts < attempt = ground arith in
            rw (exhausted, retry)
              (record {
                before_last = 0;
                bounded = pos;
                returns = rw h;
                full_before = tt;
                stops = inr (omega (arith, spent, sum, pos));
              })
        | inr more ↦
            let left : attempt ≤ max_attempts = ground arith in
            rw (more, retry)
              (Returned-later limit w _ (subst FullBuffer (sym h) full_e) (
                Returned-after_try (limit - 1) (try_send_to w).1
                  (retry try_send_to max_attempts fuel (next_attempt attempt)) _ refl (omega arith)
                  (λ e2 h2 full_e2.
                    retry-Returned fuel (next_attempt attempt) (limit - 1) e2 (try_send_to w).1 nz
                      small (omega arith) (omega arith) (omega arith) h2 full_e2)))
      ]

  -- With a limit that is neither zero nor the greatest 32-bit number, and fuel up to it, the
  -- retries end: at least one and at most `max_attempts` tries were made, each but the last found
  -- the buffer full, the last did not or the limit was reached, and its result is returned, with
  -- the state behind it.
  pub send_dgram_with_retry-Returned :
      (fuel : ℕ) (w : W)
      → max_attempts ≢ 0
      → max_attempts < u32_max
      → max_attempts ≤ fuel
      → Returned max_attempts w (send_dgram_with_retry try_send_to max_attempts fuel w)
  unfolding send_dgram_with_retry
  send_dgram_with_retry-Returned fuel w nz small room =
      Returned-after_try max_attempts w (retry try_send_to max_attempts fuel 2) (try_send_to w) refl
        (omega arith)
        (λ e h full_e.
          retry-Returned fuel 2 max_attempts e w nz small (omega arith) (omega arith) room h full_e)
