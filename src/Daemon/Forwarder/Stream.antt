-- ===== src/Daemon/Forwarder/Stream.antt =====
-- `forward` over a stream, which takes no fuel, and a session that hands its messages to it.
use logfence.Prelude.{ℕ, ◌≡◌, refl, Option, some}
use logfence.Io.{IoError}
use logfence.Syslog.Types.{SyslogMessage}
use logfence.Daemon.Config.{unix_stream}
use logfence.Daemon.Session.{Outside}
use logfence.Daemon.Forwarder.{forward_stream}
use logfence.Daemon.Forwarder.Forward.{Sockets, Forwarder, ForwarderState, forward}

module _ {W : Type 0} (os : Sockets W) where
  -- What `forward` returns for `Inner::UnixStream`.
  abbrev pub forward_on_stream :
      SyslogMessage → ForwarderState W → Option IoError × ForwarderState W
  forward_on_stream msg s =
      let (result, connected, w) = forward_stream os.connect os.write_all msg s.connected s.world in
      (result, record s { connected = connected; world = w })

  pub forward-unix_stream :
      (fw : Forwarder) (fuel : ℕ) (msg : SyslogMessage) (s : ForwarderState W)
      → fw.inner ≡ unix_stream
      → forward os fw fuel msg s ≡ some (forward_on_stream msg s)
  unfolding forward
  forward-unix_stream fw fuel msg s stream = rw stream refl

  -- What a session takes from elsewhere, with that forwarder.
  abbrev pub on_stream : {V : Type 0} → Outside V → Outside (ForwarderState W)
  on_stream o = record {
    process_id = o.process_id;
    print = o.print;
    parse_error_text = o.parse_error_text;
    forward = forward_on_stream;
  }
