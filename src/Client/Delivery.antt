-- ===== src/Client/Delivery.antt =====
-- From the client to the daemon: what a stream transport writes to a socket that takes everything,
-- a session with octet counts reads.
use logfence.Prelude.{
  ℕ, ◌+◌, ◌^◌, ◌≤◌, ◌<◌, true, false, Bool-cases, List, [], ◌∷◌, ◌++◌, ◌≡◌, inl, inr, refl, sym, ap,
  ◌∙◌, subst, arith, Option, none, some, Bytes, length, All, ltb, append-nil, append_assoc,
  if◌then◌else◌,
}
use logfence.Text.{is_utf8}
use logfence.Io.{IoError}
use logfence.Syslog.Types.{SyslogMessage}
use logfence.Syslog.Parse.{display}
use logfence.Syslog.Parse.RoundTrip.{IsWellFormed, parse-display}
use logfence.Frame.{Decoded}
use logfence.Frame.Octet.{IsPayload, octet_frame}
use logfence.Daemon.Config.{octet_count}
use logfence.Daemon.Json.{JsonLibrary}
use logfence.Daemon.Validator.{Validator}
use logfence.Daemon.Session.{SessionConfig, State, Outside, handle_message, handle_frame_error}
use logfence.Daemon.Session.Delivery.{stream, received, Wire, handle_all}
use logfence.Daemon.Session.Run.{run_session}
use logfence.Daemon.Session.Codecs.{EndsQuietly, octet_codec, run_session-octet_count}
use logfence.Client.Transport.{UnixTransport, StreamSocket, unix_written, unix_connected, unix_send}

-- A socket that a connection can be made to and that takes every write: `written` is what it got.
pub record Takes {W : Type 0} (os : StreamSocket W) (written : W → Bytes) : Type 0 where
  pub connects : (w : W) → (os.connect w).0 ≡ none
  pub connect-written : (w : W) → written (os.connect w).1 ≡ written w
  pub writes : (bs : Bytes) (w : W) → (os.write_all bs w).0 ≡ none
  pub write_all-written : (bs : Bytes) (w : W) → written (os.write_all bs w).1 ≡ written w ++ bs

-- The messages whose rendering is within the limit.
abbrev pub fitting : ℕ → List SyslogMessage → List SyslogMessage
fitting max_size [] = []
fitting max_size (m ∷ ms) =
    let rest = fitting max_size ms in if ltb max_size (length (display m)) then rest else m ∷ rest

-- A message that is read back from its rendering, which is UTF-8.
pub record Sendable (m : SyslogMessage) : Type 0 where
  pub well_formed : IsWellFormed m
  pub utf8 : is_utf8 (display m) ≡ true

abbrev pub frames : List SyslogMessage → Bytes
frames [] = []
frames (m ∷ ms) = octet_frame (display m) ++ frames ms

module _ {W : Type 0} (os : StreamSocket W) where
  -- The messages are sent from the first to the last, whatever each call returns.
  abbrev pub send_each : List SyslogMessage → UnixTransport W → UnixTransport W
  send_each [] t = t
  send_each (m ∷ ms) t = send_each ms (unix_send os m t).1

  module _ (written : W → Bytes) (takes : Takes os written) where
    -- A call of the system that fails at nothing, then one that wrote all of `frame`.
    Grew : Bytes → UnixTransport W → UnixTransport W → Type 0
    Grew bs before after =
        (written after.world ≡ written before.world ++ bs) × (after.max_size ≡ before.max_size)

    unix_written-Grew :
        (bs : Bytes) (t : UnixTransport W) (p : Option IoError × W)
        → p.0 ≡ none
        → written p.1 ≡ written t.world ++ bs
        → Grew bs t (unix_written t p).1
    unfolding Grew
    unix_written-Grew bs t (none, w) h e = (e, refl)
    unix_written-Grew bs t (some e, w) h k = absurd (cc)

    unix_connected-Grew :
        (bs : Bytes) (t : UnixTransport W) (p : Option IoError × W)
        → p.0 ≡ none
        → written p.1 ≡ written t.world
        → Grew bs t (unix_connected os bs t p).1
    unix_connected-Grew bs t (none, w) h e =
        unix_written-Grew bs t (os.write_all bs w) (takes.writes bs w)
          (takes.write_all-written bs w ∙ ap (λ x. x ++ bs) e)
    unix_connected-Grew bs t (some e, w) h k = absurd (cc)

    unix_send-large :
        (m : SyslogMessage) (t : UnixTransport W)
        → ltb t.max_size (length (display m)) ≡ true
        → Grew [] t (unix_send os m t).1
    unfolding unix_send Grew
    unix_send-large m t large = rw large (sym (append-nil (written t.world)), refl)

    unix_send-fits :
        (m : SyslogMessage) (t : UnixTransport W)
        → ltb t.max_size (length (display m)) ≡ false
        → Grew (octet_frame (display m)) t (unix_send os m t).1
    unfolding unix_send
    unix_send-fits m t fits = rw fits (elim (Bool-cases t.connected) [
      | inl has ↦
          simp has
            (unix_written-Grew _ t _ (takes.writes _ t.world) (takes.write_all-written _ t.world))
      | inr lacks ↦ simp lacks (
          unix_connected-Grew _ t (os.connect t.world) (takes.connects t.world)
            (takes.connect-written t.world))
    ])

    then_each :
        (bs : Bytes) (ms : List SyslogMessage) (t next : UnixTransport W)
        → Grew bs t next
        → written (send_each ms next).world
          ≡ written next.world ++ frames (fitting next.max_size ms)
        → written (send_each ms next).world
          ≡ written t.world ++ (bs ++ frames (fitting t.max_size ms))
    unfolding Grew
    then_each bs ms t next (grew, size) rest =
        rest
        ∙ ap (λ x. x ++ frames (fitting next.max_size ms)) grew
        ∙ append_assoc (written t.world) bs (frames (fitting next.max_size ms))
        ∙ ap (λ n. written t.world ++ (bs ++ frames (fitting n ms))) size

    -- After the calls the socket has the frames of the messages that fit, behind what it had.
    pub send_each-written :
        (ms : List SyslogMessage) (t : UnixTransport W)
        → written (send_each ms t).world ≡ written t.world ++ frames (fitting t.max_size ms)
    send_each-written [] t = sym (append-nil (written t.world))
    send_each-written (m ∷ ms) t = elim (Bool-cases (ltb t.max_size (length (display m)))) [
      | inl large ↦ rw large (
          then_each [] ms t (unix_send os m t).1 (unix_send-large m t large)
            (send_each-written ms (unix_send os m t).1))
      | inr fits ↦ rw fits (
          then_each _ ms t (unix_send os m t).1 (unix_send-fits m t fits)
            (send_each-written ms (unix_send os m t).1))
    ]

-- Messages on the wire, as the codec of the daemon has it.
frames-Wire :
    (decode_eof : (Bytes → Decoded) → Bytes → Decoded) (quiet : EndsQuietly decode_eof)
    (limit max_size : ℕ) (k : max_size + 21 < 2 ^ 64) (ms : List SyslogMessage)
    → limit ≤ max_size
    → All Sendable ms
    → Wire (octet_codec decode_eof quiet max_size k) (fitting limit ms) (frames (fitting limit ms))
frames-Wire decode_eof quiet limit max_size k [] le h = refl
frames-Wire decode_eof quiet limit max_size k (m ∷ ms) le (h, hs) =
    elim (Bool-cases (ltb limit (length (display m)))) [
      | inl large ↦ rw large (frames-Wire decode_eof quiet limit max_size k ms le hs)
      | inr fits ↦
          let payload : IsPayload max_size (display m) m = record {
            utf8 = h.utf8;
            within = ground arith;
            parses = parse-display m h.well_formed;
          } in
          rw fits (
            octet_frame (display m),
            frames (fitting limit ms),
            (display m, payload, refl),
            refl,
            frames-Wire decode_eof quiet limit max_size k ms le hs,
          )
    ]

-- Well-formed messages with a UTF-8 rendering are sent one after the other, with a limit no greater
-- than the daemon's and the daemon's less than 2^64 - 21 bytes, to a socket that takes everything
-- and has got nothing. If a session with octet counts reads what was written, then, wherever the
-- reads cut the bytes, it handles the messages that are within the client's limit, each once and in
-- their order, and nothing else.
pub send_each-run_session :
    {W X : Type 0} (os : StreamSocket W) (written : W → Bytes) (t : UnixTransport W)
    (decode_eof : (Bytes → Decoded) → Bytes → Decoded) (o : Outside X) (lib : JsonLibrary)
    (v : Validator lib) (cfg : SessionConfig) (ms : List SyslogMessage) (reads : List (ℕ × Bytes))
    (s : State X)
    → Takes os written
    → written t.world ≡ []
    → (quiet : EndsQuietly decode_eof) → (k : cfg.max_message_size + 21 < 2 ^ 64)
    → cfg.framing ≡ octet_count
    → t.max_size ≤ cfg.max_message_size
    → All Sendable ms
    → received reads ≡ written (send_each os ms t).world
    → run_session decode_eof o lib v cfg (stream reads) s
      ≡ handle_all
          (octet_codec decode_eof quiet cfg.max_message_size k)
          (handle_message o lib v cfg)
          (handle_frame_error o cfg)
          (fitting t.max_size ms)
          s
send_each-run_session os written t decode_eof o lib v cfg ms reads s takes start quiet k framing le
      h same =
    let all : received reads ≡ frames (fitting t.max_size ms) =
      same
      ∙ send_each-written os written takes ms t
      ∙ ap (λ x. x ++ frames (fitting t.max_size ms)) start in
    run_session-octet_count decode_eof quiet o lib v cfg (fitting t.max_size ms) reads s k framing (
      subst (Wire (octet_codec decode_eof quiet cfg.max_message_size k) (fitting t.max_size ms))
        (sym all) (frames-Wire decode_eof quiet t.max_size cfg.max_message_size k ms le h))
