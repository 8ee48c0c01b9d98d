-- ===== src/Daemon/Os.antt =====
-- Calls of the operating system that the daemon makes while it starts, in a monad: the state `W` is
-- what the system keeps, and a step that fails ends the chain, as `?` does, and leaves the state it
-- came to.
use logfence.Prelude.{
  ℕ, Bool, ◌≡◌, refl, Option, none, some, Bytes, Outcome, ok, err, panic, ◌⊎◌, inl, inr,
}
use logfence.Io.{IoError}

pub data Call : Type 0 where
  -- std::fs::remove_file
  remove_file : Bytes → Call
  -- UnixListener::bind
  bind_stream : Bytes → Call
  -- UnixDatagram::bind
  bind_datagram : Bytes → Call
  -- std::fs::set_permissions
  set_permissions : Bytes → ℕ → Call
  -- SockRef::set_recv_buffer_size
  set_recv_buffer_size : ℕ → Call
  -- shutdown(Shutdown::Write)
  shutdown_write : Call
  -- OpenOptions::new().create(true).append(true).open
  open_append : Bytes → Call
  -- UnixDatagram::unbound, and shutdown(Shutdown::Read)
  open_datagram shutdown_read : Call
  -- tokio::spawn of serve_stats_socket, with what it does before the listener is bound
  spawn_stats : Bytes → Call

pub record System (W : Type 0) : Type 0 where
  -- Path::exists
  pub exists : Bytes → W → Bool
  -- what reading /etc/hostname returns, if it does
  pub read_hostname : W → Option Bytes
  pub call : Call → W → Option IoError × W

abbrev pub M : Type 0 → Type 0 → Type 0 → Type 0
M E W A = W → Outcome E A × W

-- What a chain goes on to do behind its first part.
abbrev pub after : {E W A B : Type 0} → (A → M E W B) → Outcome E A × W → Outcome E B × W
after next (ok value, w) = next value w
after next (err e, w) = (err e, w)
after next (panic, w) = (panic, w)

infixl 5 ◌>>=◌ ◌>>◌
abbrev pub ◌>>=◌ : {E W A B : Type 0} → M E W A → (A → M E W B) → M E W B
(first >>= next) w = after next (first w)

abbrev pub ◌>>◌ : {E W B : Type 0} → M E W (Unit {0}) → M E W B → M E W B
first >> next = first >>= λ done. next

abbrev pub pure : {E W A : Type 0} → A → M E W A
pure value w = (ok value, w)

abbrev pub lift : {E W A : Type 0} → Outcome E A → M E W A
lift result w = (result, w)

abbrev pub as_result : {W : Type 0} → Option IoError × W → Outcome IoError (Unit {0}) × W
as_result (none, w) = (ok tt, w)
as_result (some e, w) = (err e, w)

-- If a chain came to a value, then so did its first part, and the rest went on from there.
pub M-eq-ok :
    {E W A B : Type 0} {result : B} {last : W} (next : A → M E W B) (first : Outcome E A × W)
    → after next first ≡ (ok result, last)
    → (value : A) × (first.0 ≡ ok value) × (next value first.1 ≡ (ok result, last))
M-eq-ok next (ok value, w) h = (value, refl, h)
M-eq-ok next (err e, w) h = absurd (cc)
M-eq-ok next (panic, w) h = absurd (cc)

pub ok-state :
    {E W A : Type 0} {x y : A} {w z : W}
    → ◌≡◌ {A = Outcome E A × W} (ok x, w) (ok y, z)
    → (x ≡ y) × (w ≡ z)
ok-state h = (cc, cc)

-- If a chain failed, its first part did, or the rest that went on from there.
pub M-eq-err :
    {E W A B : Type 0} {e : E} {last : W} (next : A → M E W B) (first : Outcome E A × W)
    → after next first ≡ (err e, last)
    → (first ≡ (err e, last))
      ⊎ ((value : A) × (first.0 ≡ ok value) × (next value first.1 ≡ (err e, last)))
M-eq-err next (ok value, w) h = inr (value, refl, h)
M-eq-err next (err e, w) h = inl (cc)
M-eq-err next (panic, w) h = absurd (cc)
