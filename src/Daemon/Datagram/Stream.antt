-- ===== src/Daemon/Datagram/Stream.antt =====
-- A message in a datagram and the same message on a stream.
use logfence.Prelude.{
  ℕ, ◌+◌, ◌^◌, ◌≤◌, ◌<◌, true, List, [], ◌∷◌, ◌≡◌, refl, sym, ◌∙◌, Bytes, length, append-nil,
}
use logfence.Text.{is_utf8}
use logfence.Syslog.Types.{SyslogMessage}
use logfence.Syslog.Parse.{display}
use logfence.Syslog.Parse.RoundTrip.{IsWellFormed, parse-display}
use logfence.Frame.{Decoded}
use logfence.Frame.Octet.{IsPayload, octet_frame}
use logfence.Daemon.Config.{octet_count}
use logfence.Daemon.Json.{JsonLibrary}
use logfence.Daemon.Validator.{Validator}
use logfence.Daemon.Session.{SessionConfig, State, Outside, handle_message}
use logfence.Daemon.Session.Run.{run_session}
use logfence.Daemon.Session.Delivery.{stream, received}
use logfence.Daemon.Session.Codecs.{EndsQuietly, run_session-octet_count}
use logfence.Daemon.Datagram.{process_datagram, on_parsed}

module _ {W : Type 0} (o : Outside W) (lib : JsonLibrary) (v : Validator lib)
    (cfg : SessionConfig) where
  process_datagram-display :
      (m : SyslogMessage) (s : State W)
      → IsWellFormed m
      → is_utf8 (display m) ≡ true
      → process_datagram o lib v cfg (display m) s ≡ handle_message o lib v cfg m s
  unfolding process_datagram on_parsed
  process_datagram-display m s w u = rw u (rw (parse-display m w))

  -- With octet counts and a limit of less than 2^64 - 21 bytes: a well-formed message within it,
  -- whose rendering is UTF-8, leaves the same counters and the same state of the forwarder whether
  -- it comes as a datagram or is all that a stream gives, in whatever pieces, with its octet count.
  pub process_datagram-run_session :
      (decode_eof : (Bytes → Decoded) → Bytes → Decoded) (m : SyslogMessage)
      (reads : List (ℕ × Bytes)) (s : State W)
      → EndsQuietly decode_eof
      → cfg.framing ≡ octet_count
      → cfg.max_message_size + 21 < 2 ^ 64
      → IsWellFormed m
      → is_utf8 (display m) ≡ true
      → length (display m) ≤ cfg.max_message_size
      → received reads ≡ octet_frame (display m)
      → process_datagram o lib v cfg (display m) s
        ≡ run_session decode_eof o lib v cfg (stream reads) s
  process_datagram-run_session decode_eof m reads s quiet framing k w u short e =
      let payload : IsPayload cfg.max_message_size (display m) m = record {
        utf8 = u;
        within = short;
        parses = parse-display m w;
      } in
      process_datagram-display m s w u
      ∙ sym (
          run_session-octet_count decode_eof quiet o lib v cfg (m ∷ []) reads s k framing
            (octet_frame (display m), [], (display m, payload, refl), e ∙ sym (append-nil _), refl))
