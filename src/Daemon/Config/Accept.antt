-- ===== src/Daemon/Config/Accept.antt =====
-- What `validate` accepts, and what that gives the code that uses the configuration.
use logfence.Prelude.{
  ℕ, ◌≤◌, false, ◌&&◌, not, List, [], ◌∷◌, ◌≡◌, ◌≢◌, ◌↔◌, refl, arith, Option, none, some, Bytes,
  is_empty, ok, ap, get_or,
}
use logfence.Text.{is_some}
use logfence.Daemon.Config.{Config, socket_mode_bits, validate, permission_bits}
use logfence.Daemon.Config.Octal.{Spells, socket_mode_bits_iff}

-- A configuration that the daemon can run on: the mode of its socket is spelled in octal, and it is
-- what is set on the socket; it takes a connection and a byte; a map of schemas has its
-- discriminator.
pub record IsUsable (cfg : Config) : Type 0 where
  pub mode_bits : ℕ
  pub mode_spelled : Spells cfg.daemon.socket_mode mode_bits
  pub bits_set : permission_bits cfg.daemon.socket_mode ≡ mode_bits
  pub connections : 1 ≤ cfg.daemon.max_connections
  pub message_size : 1 ≤ cfg.daemon.max_message_size
  pub discriminated : cfg.validation.schema_map ≢ [] → cfg.validation.discriminator ≢ none

is_some-none : (o : Option Bytes) → is_some o ≡ false → o ≡ none
is_some-none none h = refl
is_some-none (some s) h = absurd (cc)

is_empty-false : (m : List (Bytes × Bytes)) → m ≢ [] → is_empty m ≡ false
is_empty-false [] h = absurd (h refl)
is_empty-false (x ∷ m) h = refl

discriminated_on :
    (m : List (Bytes × Bytes)) (d : Option Bytes)
    → (not (is_empty m) && not (is_some d) ≡ false) ↔ (m ≢ [] → d ≢ none)
discriminated_on [] d = (λ h ne. absurd (ne refl), λ h. refl)
discriminated_on (x ∷ m) none = (λ h ne e. cc, λ h. absurd (h (λ e. cc) refl))
discriminated_on (x ∷ m) (some d) = (λ h ne e. cc, λ h. refl)

-- What `validate` reads is what listener.rs sets.
permission_bits-read : (s : Bytes) (n : ℕ) → socket_mode_bits s ≡ some n → permission_bits s ≡ n
unfolding permission_bits socket_mode_bits
permission_bits-read s n h = ap (λ r. get_or r 0o660) h

-- The tests of `validate`, for the mode as it is read.
validate_on :
    (cfg : Config) (bits : Option ℕ)
    → socket_mode_bits cfg.daemon.socket_mode ≡ bits
    → (validate cfg ≡ ok tt) ↔ IsUsable cfg
unfolding validate
validate_on cfg none h = (
  λ e. absurd (ground arith),
  λ u. cc (h, (socket_mode_bits_iff cfg.daemon.socket_mode u.mode_bits).1 u.mode_spelled),
)
validate_on cfg (some bits) h = (
  (λ e. record {
    mode_bits = bits;
    mode_spelled = (socket_mode_bits_iff cfg.daemon.socket_mode bits).0 h;
    bits_set = permission_bits-read cfg.daemon.socket_mode bits h;
    connections = ground arith;
    message_size = ground arith;
    discriminated =
        (discriminated_on cfg.validation.schema_map cfg.validation.discriminator).0 (ground arith);
  }),
  (λ u. ground (
    arith,
    u.connections,
    u.message_size,
    (discriminated_on cfg.validation.schema_map cfg.validation.discriminator).1 u.discriminated,
  )),
)

-- `validate` accepts exactly the configurations that are usable: the mode of the socket is empty,
-- or octal digits, or a plus sign before octal digits and behind zeros or nothing, and spells a
-- number of 32 bits, so that the permissions set on the socket are those that it spells and never
-- the fallback; at least one connection and messages of one byte are allowed; and a map of schemas
-- has its discriminator.
pub validate_iff_IsUsable : (cfg : Config) → (validate cfg ≡ ok tt) ↔ IsUsable cfg
validate_iff_IsUsable cfg = validate_on cfg _ refl
