-- ===== src/Relay.antt =====
-- The way of messages through the daemon to the stream of rsyslog: the session of
-- crates/logfence-daemon/src/session.rs with the forwarder of forwarder.rs behind it, and the
-- stream transport of crates/logfence-client/src/transport.rs before it.
pub mod Written
pub mod Pipeline
use logfence.Prelude.{
  ℕ, Bool, true, false, List, [], ◌∷◌, ◌++◌, ◌≡◌, refl, sym, ap, ◌∙◌, Option, none, some, Bytes,
  append-nil, append_assoc,
}
use logfence.Io.{IoError}
use logfence.Syslog.Types.{SyslogMessage}
use logfence.Syslog.Parse.{display}
use logfence.Frame.Octet.{octet_frame}
use logfence.Daemon.Forwarder.{forward_stream, write_frame, stream_frame}
use logfence.Daemon.Forwarder.Forward.{Sockets, ForwarderState}
use logfence.Daemon.Forwarder.Stream.{forward_on_stream}
use logfence.Client.Transport.Same.{stream_socket}
use logfence.Client.Delivery.{Takes, frames}

pub frames-snoc :
    (ms : List SyslogMessage) (m : SyslogMessage)
    → frames (ms ++ m ∷ []) ≡ frames ms ++ octet_frame (display m)
frames-snoc [] m = append-nil (octet_frame (display m))
frames-snoc (x ∷ ms) m =
    ap (λ bs. octet_frame (display x) ++ bs) (frames-snoc ms m)
    ∙ sym (append_assoc (octet_frame (display x)) (frames ms) (octet_frame (display m)))

module _ {W : Type 0} (os : Sockets W) (written : W → Bytes)
    (takes : Takes (stream_socket os) written) where
  -- Nothing failed, and all of `bs` was written.
  abbrev pub Wrote : Bytes → W → Option IoError × Bool × W → Type 0
  Wrote bs before (failure, connected, after) =
      (failure ≡ none) × (written after ≡ written before ++ bs)

  frame-Wrote :
      (bs : Bytes) (before : W) (p : Option IoError × W)
      → p.0 ≡ none
      → written p.1 ≡ written before ++ bs
      → Wrote bs before (elim p.0 [ none ↦ (none, true, p.1) | some e ↦ (some e, false, p.1) ])
  frame-Wrote bs before (none, after) h grew = (refl, grew)
  frame-Wrote bs before (some e, after) h grew = absurd (cc)

  write_frame-Wrote :
      (msg : SyslogMessage) (before w : W)
      → written w ≡ written before
      → Wrote (octet_frame (display msg)) before (write_frame os.connect os.write_all msg w)
  write_frame-Wrote msg before w same =
      frame-Wrote (octet_frame (display msg)) before (os.write_all (octet_frame (display msg)) w)
        (takes.writes _ w)
        (takes.write_all-written _ w ∙ ap (λ b. b ++ octet_frame (display msg)) same)

  connect-Wrote :
      (msg : SyslogMessage) (before : W) (p : Option IoError × W)
      → p.0 ≡ none
      → written p.1 ≡ written before
      → Wrote (octet_frame (display msg)) before (elim p.0 [
        | none ↦ write_frame os.connect os.write_all msg p.1
        | some e ↦ (some e, false, p.1)
      ])
  connect-Wrote msg before (none, w) h same = write_frame-Wrote msg before w same
  connect-Wrote msg before (some e, w) h same = absurd (cc)

  -- The forwarder writes the frame of the message, and returns no error.
  pub forward_stream-Wrote :
      (msg : SyslogMessage) (connected : Bool) (w : W)
      → Wrote (octet_frame (display msg)) w (forward_stream os.connect os.write_all msg connected w)
  unfolding forward_stream
  forward_stream-Wrote msg true w = write_frame-Wrote msg w w refl
  forward_stream-Wrote msg false w =
      connect-Wrote msg w (os.connect w) (takes.connects w) (takes.connect-written w)
