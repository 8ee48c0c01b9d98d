-- ===== src/Daemon/Forwarder/Shutdown.antt =====
-- When forwarding a datagram starts the shutdown.
use logfence.Prelude.{
  ℕ, suc, ◌≤◌, ◌<◌, Bool, true, false, Bool-cases, ◌≡◌, ◌≢◌, ◌⊎◌, ◌↔◌, inl, inr, refl, ap, ◌∙◌,
  arith, Option, none, some,
}
use logfence.Io.{IoError, is_buffer_full}
use logfence.Syslog.Types.{SyslogMessage}
use logfence.Syslog.Parse.{display}
use logfence.Daemon.Config.{DgramExhausted, drop, terminate, unix_dgram, u32_max}
use logfence.Daemon.Forwarder.{on_exhausted, send_dgram_with_retry}
use logfence.Daemon.Forwarder.Retry.{tries, FullBuffer, AllFull, send_dgram_with_retry-Returned}
use logfence.Daemon.Forwarder.Forward.{
  Sockets, Forwarder, ForwarderState, token_after, after_dgram, forward,
}

-- The retries gave up on a full buffer, under a policy and with a token that ask for a shutdown.
abbrev pub GivesUp : Forwarder → Option IoError → Type 0
GivesUp fw none = ⊥
GivesUp fw (some e) =
    (fw.dgram_exhausted ≡ terminate) × (fw.has_token ≡ true) × (is_buffer_full e ≡ true)

on_exhausted_iff :
    (policy : DgramExhausted) (has_token : Bool) (e : IoError) (cancelled : Bool)
    → (on_exhausted policy has_token e cancelled ≡ true) ↔ (
        (cancelled ≡ true)
        ⊎ ((policy ≡ terminate) × (has_token ≡ true) × (is_buffer_full e ≡ true)))
unfolding on_exhausted
on_exhausted_iff drop has_token e cancelled = ground arith
on_exhausted_iff terminate false e cancelled = ground arith
on_exhausted_iff terminate true e cancelled = elim (Bool-cases (is_buffer_full e)) [
  | inl full ↦ rw full (ground arith)
  | inr other ↦ rw other (ground arith)
]

token_after_iff :
    (fw : Forwarder) (result : Option IoError) (cancelled : Bool)
    → (token_after fw result cancelled ≡ true) ↔ ((cancelled ≡ true) ⊎ GivesUp fw result)
unfolding token_after
token_after_iff fw none cancelled =
    (inl, λ c. elim c [ inl was ↦ was | inr gave_up ↦ absurd gave_up ])
token_after_iff fw (some e) cancelled = on_exhausted_iff fw.dgram_exhausted fw.has_token e cancelled

forward-unix_dgram :
    {W : Type 0} (os : Sockets W) (fw : Forwarder) (fuel : ℕ) (msg : SyslogMessage)
    (s : ForwarderState W)
    → fw.inner ≡ unix_dgram
    → forward os fw fuel msg s
      ≡ after_dgram os fw s
          (send_dgram_with_retry (os.try_send_to (display msg)) fw.dgram_max_attempts fuel s.world)
unfolding forward
forward-unix_dgram os fw fuel msg s dgram = rw dgram refl

-- With a limit on the tries that is neither zero nor the greatest 32-bit number, and fuel up to it:
-- a message is tried once at least and at most so often; every try but the last found the buffer
-- full, and the last did not, or was the last that the limit allows; what the last try returned is
-- returned, and the state of the system is that behind it; and the shutdown token is cancelled
-- afterwards exactly if it was before, or if the last try found the buffer full, the policy is
-- `Terminate` and there is a token.
pub forward-Returned :
    {W : Type 0} (os : Sockets W) (fw : Forwarder) (fuel : ℕ) (msg : SyslogMessage)
    (s : ForwarderState W)
    → fw.inner ≡ unix_dgram
    → fw.dgram_max_attempts ≢ 0
    → fw.dgram_max_attempts < u32_max
    → fw.dgram_max_attempts ≤ fuel
    → (before_last : ℕ) × (result : Option IoError) × (after : ForwarderState W) × (forward os fw
          fuel msg s
        ≡ some (result, after))
      × (suc before_last ≤ fw.dgram_max_attempts)
      × AllFull (os.try_send_to (display msg)) fw.dgram_max_attempts before_last s.world
      × (result
          ≡ (os.try_send_to
              (display msg)
              (tries (os.try_send_to (display msg)) fw.dgram_max_attempts before_last s.world)).0)
      × ((¬ FullBuffer (os.try_send_to (display msg)) fw.dgram_max_attempts result)
          ⊎ (suc before_last ≡ fw.dgram_max_attempts))
      × (after.world
          ≡ tries (os.try_send_to (display msg)) fw.dgram_max_attempts (suc before_last) s.world)
      × ((after.cancelled ≡ true) ↔ ((s.cancelled ≡ true) ⊎ GivesUp fw result))
      × (after.connected ≡ s.connected)
forward-Returned os fw fuel msg s dgram nz small room =
    let try = os.try_send_to (display msg) in
    let r = send_dgram_with_retry-Returned try fw.dgram_max_attempts fuel s.world nz small room in
    let result = (try (tries try fw.dgram_max_attempts r.before_last s.world)).0 in
    let world = tries try fw.dgram_max_attempts (suc r.before_last) s.world in
    (
      r.before_last,
      result,
      record s { cancelled = token_after fw result s.cancelled; world = world },
      forward-unix_dgram os fw fuel msg s dgram ∙ ap (after_dgram os fw s) r.returns,
      r.bounded,
      r.full_before,
      refl,
      r.stops,
      refl,
      token_after_iff fw result s.cancelled,
      refl,
    )
