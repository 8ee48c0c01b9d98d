-- ===== src/Client/Transport/Held.antt =====
-- When the datagram transport keeps its socket.
use logfence.Prelude.{
  ℕ, ◌≤◌, ◌<◌, true, false, Bool-cases, ◌≡◌, ◌≢◌, ◌↔◌, inl, inr, refl, sym, subst, Option, none,
  some, length, le→ltb, ok, err, Outcome, Bytes,
}
use logfence.Io.{IoError}
use logfence.Syslog.Types.{SyslogMessage}
use logfence.Syslog.Parse.{display}
use logfence.Daemon.Config.{u32_max}
use logfence.Daemon.Forwarder.Retry.{send_dgram_with_retry-Returned}
use logfence.Client.Error.{ClientError, io}
use logfence.Client.Transport.{
  Sent, UnixDatagramTransport, DatagramSocket, open_socket, dgram_result, dgram_deliver,
  dgram_opened, dgram_send,
}

-- A call returned, and it left a socket exactly if it returned `Ok`.
pub record Held {W : Type 0} (r : Option (Sent (UnixDatagramTransport W))) : Type 0 where
  pub result : Outcome ClientError (Unit {0})
  pub after : UnixDatagramTransport W
  pub returns : r ≡ some (result, after)
  pub held : (after.has_socket ≡ true) ↔ (result ≡ ok tt)

module _ {W : Type 0} (os : DatagramSocket W) where
  dgram_result-Held :
      (t : UnixDatagramTransport W) (p : Option IoError × W) → Held (dgram_result os t (some p))
  dgram_result-Held t (none, w) = record {
    result = ok tt;
    after = record t { has_socket = true; world = w };
    returns = refl;
    held = (λ h. refl, λ h. refl);
  }
  dgram_result-Held t (some e, w) = record {
    result = err (io e);
    after = record t { has_socket = false; world = w };
    returns = refl;
    held = (λ h. absurd (cc), λ h. absurd (cc));
  }

  dgram_deliver-Held :
      (fuel : ℕ) (wire : Bytes) (t : UnixDatagramTransport W) (w : W)
      → t.max_attempts ≢ 0
      → t.max_attempts < u32_max
      → t.max_attempts ≤ fuel
      → Held (dgram_deliver os fuel wire t w)
  dgram_deliver-Held fuel wire t w nz small room =
      let r =
        send_dgram_with_retry-Returned (os.try_send_to wire) t.max_attempts fuel w nz small room in
      subst (λ x. Held (dgram_result os t x)) (sym r.returns) (dgram_result-Held t _)

  dgram_opened-Held :
      (fuel : ℕ) (wire : Bytes) (t : UnixDatagramTransport W) (opened : Option IoError × W)
      → t.has_socket ≡ false
      → t.max_attempts ≢ 0
      → t.max_attempts < u32_max
      → t.max_attempts ≤ fuel
      → Held (dgram_opened os fuel wire t opened)
  dgram_opened-Held fuel wire t (none, w) lacks nz small room =
      dgram_deliver-Held fuel wire t w nz small room
  dgram_opened-Held fuel wire t (some e, w) lacks nz small room = record {
    result = err (io e);
    after = record t { world = w };
    returns = refl;
    held = (λ h. absurd (cc), λ h. absurd (cc));
  }

  -- A message within the size limit, with a limit on the tries that is neither zero nor the
  -- greatest 32-bit number, and fuel up to it: `send` returns, whatever the calls of the operating
  -- system come to, and the transport has a socket afterwards exactly if the result is `Ok`.
  pub dgram_send-Held :
      (fuel : ℕ) (msg : SyslogMessage) (t : UnixDatagramTransport W)
      → length (display msg) ≤ t.max_size
      → t.max_attempts ≢ 0
      → t.max_attempts < u32_max
      → t.max_attempts ≤ fuel
      → Held (dgram_send os fuel msg t)
  unfolding dgram_send
  dgram_send-Held fuel msg t fits nz small room =
      rw (le→ltb t.max_size (length (display msg)) fits) (elim (Bool-cases t.has_socket) [
        | inl has ↦ rw has (dgram_deliver-Held fuel (display msg) t t.world nz small room)
        | inr lacks ↦
            simp lacks
              (dgram_opened-Held fuel (display msg) t (open_socket os t.world) lacks nz small room)
      ])
