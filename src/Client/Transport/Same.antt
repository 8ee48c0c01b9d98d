-- ===== src/Client/Transport/Same.antt =====
-- The client's stream transport and the daemon's forwarder write the same.
use logfence.Prelude.{
  ℕ, ◌≤◌, Bool, true, false, ◌≡◌, refl, ap, ◌∙◌, Option, none, some, length, le→ltb, Outcome, ok,
  err, if◌then◌else◌,
}
use logfence.Io.{IoError}
use logfence.Syslog.Types.{SyslogMessage}
use logfence.Syslog.Parse.{display}
use logfence.Daemon.Config.{unix_stream}
use logfence.Daemon.Forwarder.{forward_stream, write_frame, stream_frame}
use logfence.Daemon.Forwarder.Forward.{Sockets, Forwarder, ForwarderState, forward}
use logfence.Daemon.Forwarder.Stream.{forward-unix_stream}
use logfence.Client.Error.{ClientError, io}
use logfence.Client.Transport.{
  Sent, UnixTransport, StreamSocket, unix_written, unix_connected, unix_send,
}

-- The socket of the client among the calls of the daemon.
abbrev pub stream_socket : {W : Type 0} → Sockets W → StreamSocket W
stream_socket os = record { connect = os.connect; write_all = os.write_all }

-- The client's result for the forwarder's.
abbrev pub as_result : Option IoError → Outcome ClientError (Unit {0})
as_result none = ok tt
as_result (some e) = err (io e)

-- The same result, and the same connection and world behind it.
pub record Agrees {W : Type 0} (r : Sent (UnixTransport W)) (q : Option IoError × Bool × W)
    : Type 0 where
  pub same_result : r.0 ≡ as_result q.0
  pub same_connected : r.1.connected ≡ q.1
  pub same_world : r.1.world ≡ q.2

module _ {W : Type 0} (os : Sockets W) where
  written-Agrees :
      (t : UnixTransport W) (p : Option IoError × W)
      → Agrees
          (unix_written t p)
          (elim p.0 [ none ↦ (none, true, p.1) | some e ↦ (some e, false, p.1) ])
  written-Agrees t (none, w) = record {
    same_result = refl;
    same_connected = refl;
    same_world = refl;
  }
  written-Agrees t (some e, w) = record {
    same_result = refl;
    same_connected = refl;
    same_world = refl;
  }

  connected-Agrees :
      (msg : SyslogMessage) (t : UnixTransport W) (p : Option IoError × W)
      → t.connected ≡ false
      → Agrees
          (unix_connected (stream_socket os) (stream_frame os.connect os.write_all msg) t p)
          (elim p.0 [
            | none ↦ write_frame os.connect os.write_all msg p.1
            | some e ↦ (some e, false, p.1)
          ])
  connected-Agrees msg t (none, w) h =
      written-Agrees t (os.write_all (stream_frame os.connect os.write_all msg) w)
  connected-Agrees msg t (some e, w) h = record {
    same_result = refl;
    same_connected = h;
    same_world = refl;
  }

  branches-Agrees :
      (msg : SyslogMessage) (t : UnixTransport W) (connected : Bool)
      → t.connected ≡ connected
      → Agrees
          (if connected
            then unix_written t (os.write_all (stream_frame os.connect os.write_all msg) t.world)
            else unix_connected
                (stream_socket os)
                (stream_frame os.connect os.write_all msg)
                t
                (os.connect t.world))
          (forward_stream os.connect os.write_all msg connected t.world)
  unfolding forward_stream
  branches-Agrees msg t true h =
      written-Agrees t (os.write_all (stream_frame os.connect os.write_all msg) t.world)
  branches-Agrees msg t false h = connected-Agrees msg t (os.connect t.world) h

  send-Agrees :
      (msg : SyslogMessage) (t : UnixTransport W)
      → length (display msg) ≤ t.max_size
      → Agrees
          (unix_send (stream_socket os) msg t)
          (forward_stream os.connect os.write_all msg t.connected t.world)
  unfolding unix_send
  send-Agrees msg t fits =
      rw (le→ltb t.max_size (length (display msg)) fits) (branches-Agrees msg t t.connected refl)

  -- A message within the client's limit: over a stream, and from the same connection and the same
  -- state of the operating system, the client's `send` and the daemon's `forward` return the
  -- same result and leave the same connection and the same state behind them, and the
  -- forwarder's token is as it was.
  pub unix_send-forward :
      (fw : Forwarder) (fuel : ℕ) (msg : SyslogMessage) (t : UnixTransport W) (s : ForwarderState W)
      → fw.inner ≡ unix_stream
      → s.connected ≡ t.connected
      → s.world ≡ t.world
      → length (display msg) ≤ t.max_size
      → (result : Option IoError) × (after : ForwarderState W) × (forward os fw fuel msg s
          ≡ some (result, after))
        × ((unix_send (stream_socket os) msg t).0 ≡ as_result result)
        × ((unix_send (stream_socket os) msg t).1.connected ≡ after.connected)
        × ((unix_send (stream_socket os) msg t).1.world ≡ after.world)
        × (after.cancelled ≡ s.cancelled)
  unix_send-forward fw fuel msg t s stream conn world fits =
      let a = send-Agrees msg t fits in
      let same : forward_stream os.connect os.write_all msg t.connected t.world
          ≡ forward_stream os.connect os.write_all msg s.connected s.world =
        rw (conn, world) refl in
      (
        (forward_stream os.connect os.write_all msg s.connected s.world).0,
        record s {
          connected = (forward_stream os.connect os.write_all msg s.connected s.world).1;
          world = (forward_stream os.connect os.write_all msg s.connected s.world).2;
        },
        forward-unix_stream os fw fuel msg s stream,
        a.same_result ∙ ap (λ q. as_result q.0) same,
        a.same_connected ∙ ap (λ q. q.1) same,
        a.same_world ∙ ap (λ q. q.2) same,
        refl,
      )
