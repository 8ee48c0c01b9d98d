-- ===== src/Relay/Written.antt =====
-- What a session writes to the stream of rsyslog, whatever the client sends.
use logfence.Prelude.{
  List, [], ◌∷◌, ◌++◌, ◌≡◌, sym, ap, ◌∙◌, Bytes, All, All-append, append-nil, append_assoc,
}
use logfence.Syslog.Types.{SyslogMessage}
use logfence.Syslog.Parse.{display}
use logfence.Frame.{Decoded}
use logfence.Frame.Octet.{octet_frame}
use logfence.Daemon.Json.{JsonLibrary}
use logfence.Daemon.Validator.{Validator}
use logfence.Daemon.Forwarder.Forward.{Sockets, ForwarderState}
use logfence.Daemon.Forwarder.Stream.{forward_on_stream, on_stream}
use logfence.Daemon.Session.{SessionConfig, State, Outside, to_forward}
use logfence.Daemon.Session.Loop.{Reads}
use logfence.Daemon.Session.Run.{run_session}
use logfence.Daemon.Session.Vetted.{DeliversAsDecode, Vetted, run_session-keeps}
use logfence.Client.Transport.Same.{stream_socket}
use logfence.Client.Delivery.{Takes, frames}
use logfence.Relay.{forward_stream-Wrote, frames-snoc}

module _ {W V : Type 0} (os : Sockets W) (written : W → Bytes)
    (takes : Takes (stream_socket os) written) (o : Outside V) (lib : JsonLibrary)
    (v : Validator lib) (cfg : SessionConfig) where
  -- Behind what was there the frames of vetted messages were written.
  abbrev WroteVetted : Bytes → ForwarderState W → Type 0
  WroteVetted before s =
      (out : List SyslogMessage) × All (Vetted o lib v cfg) out
      × (written s.world ≡ before ++ frames out)

  forward-WroteVetted :
      (before : Bytes) (m : SyslogMessage) (s : ForwarderState W)
      → Vetted o lib v cfg m
      → WroteVetted before s
      → WroteVetted before (forward_on_stream os m s).1
  forward-WroteVetted before m s vetted (out, all, was) = (
    out ++ m ∷ [],
    All-append (Vetted o lib v cfg) out (m ∷ []) all (vetted, tt),
    (forward_stream-Wrote os written takes m s.connected s.world).1
        ∙ ap (λ b. b ++ octet_frame (display m)) was
        ∙ append_assoc before (frames out) (octet_frame (display m))
        ∙ ap (λ b. before ++ b) (sym (frames-snoc out m)),
  )

  -- With a stream to rsyslog that takes everything: whatever the reads from a client give, what a
  -- session writes is octet-counted frames, one behind the other, each of a report of the daemon or
  -- of the form in which it forwards a message that was parsed from a text within the limit and
  -- that the validator accepts. `decode_eof` may deliver only what `decode` does.
  pub run_session-written :
      (decode_eof : (Bytes → Decoded) → Bytes → Decoded) (reads : Reads)
      (s : State (ForwarderState W))
      → DeliversAsDecode decode_eof
      → (out : List SyslogMessage) × All (Vetted o lib v cfg) out
        × (written (run_session decode_eof (on_stream os o) lib v cfg reads s).forwarder.world
            ≡ written s.forwarder.world ++ frames out)
  unfolding to_forward
  run_session-written decode_eof reads s same =
      run_session-keeps (on_stream os o) lib v cfg (WroteVetted (written s.forwarder.world))
        (forward-WroteVetted (written s.forwarder.world)) decode_eof reads s same
        ([], tt, sym (append-nil (written s.forwarder.world)))
