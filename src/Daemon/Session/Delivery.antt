-- ===== src/Daemon/Session/Delivery.antt =====
-- What a session does with a stream of frames, however the reads cut it.
use logfence.Prelude.{
  ℕ, zero, suc, ◌<◌, List, [], ◌∷◌, ◌++◌, ◌≡◌, ◌≢◌, ◌⊎◌, inl, inr, refl, sym, ap, ◌∙◌, subst, arith,
  none, some, Bytes, length, length-append, length-pos, append-cancel, append_assoc, append-nil,
  append_cases, ok,
}
use mathlib.Core.List.{cons-ne-nil, append-eq-nil_iff}
use logfence.Syslog.Types.{SyslogMessage}
use logfence.Frame.{FrameError, Decoded}
use logfence.Daemon.Session.Loop.{
  Reads, bytes, eof, Turn, waiting, on_decode, on_decode_eof, follow, decode_all, drain_eof,
  after_turn, run_with_codec,
}

-- What a codec promises of the frames it accepts, each with the message in it. A start of a frame
-- that is not all of it, the empty one too, waits for more; at the end of the stream an empty
-- buffer is no error.
pub record Codec : Type 1 where
  pub decode : Bytes → Decoded
  pub decode_eof : Bytes → Decoded
  pub IsFrame : Bytes → SyslogMessage → Type 0
  pub frame-ne-nil : (f : Bytes) (m : SyslogMessage) → IsFrame f m → f ≢ []
  pub decode-frame :
      (f rest : Bytes) (m : SyslogMessage) → IsFrame f m → decode (f ++ rest) ≡ (ok (some m), rest)
  pub decode-partial :
      (f p q : Bytes) (m : SyslogMessage)
      → IsFrame f m
      → f ≡ p ++ q
      → q ≢ []
      → decode p ≡ (ok none, p)
  pub decode-nil : decode [] ≡ (ok none, [])
  pub decode_eof-nil : decode_eof [] ≡ (ok none, [])

-- The bytes that a sequence of reads gives before the end of the stream, none of them empty.
abbrev pub stream : List (ℕ × Bytes) → Reads
stream [] = eof
stream ((b, bs) ∷ rest) = bytes (b ∷ bs) (stream rest)

abbrev pub received : List (ℕ × Bytes) → Bytes
received [] = []
received ((b, bs) ∷ rest) = b ∷ (bs ++ received rest)

-- The buffer has all of the first frame, or a start of it that is not all.
whole_or_part :
    (f after buf tail : Bytes)
    → f ++ after ≡ buf ++ tail
    → ((r : Bytes) × (buf ≡ f ++ r)) ⊎ ((q : Bytes) × (f ≡ buf ++ q) × (q ≢ []))
whole_or_part f after buf tail e = elim (append_cases f after buf tail e) [
  | inl whole ↦ inl whole
  | inr ([], all, behind) ↦ inl ([], sym (append-nil f ∙ all ∙ append-nil buf))
  | inr (q ∷ qs, part, behind) ↦ inr (q ∷ qs, part, cons-ne-nil q qs)
]

module _ (codec : Codec) where
  -- The bytes `w` are frames of the messages, one behind the other.
  abbrev pub Wire : List SyslogMessage → Bytes → Type 0
  Wire [] w = w ≡ []
  Wire (m ∷ ms) w =
      (f : Bytes) × (rest : Bytes) × codec.IsFrame f m × (w ≡ f ++ rest) × Wire ms rest

  module _ {S : Type 0} (handle_message : SyslogMessage → S → S)
      (handle_frame_error : FrameError → S → S) where
    -- The messages are handled from the first to the last.
    abbrev pub handle_all : List SyslogMessage → S → S
    handle_all [] s = s
    handle_all (m ∷ ms) s = handle_all ms (handle_message m s)

    abbrev turn_of : ℕ → Bytes → S → Turn S
    turn_of fuel buf s =
        decode_all codec.decode codec.decode_eof handle_message handle_frame_error fuel buf s

    abbrev drain_of : ℕ → Bytes → S → S
    drain_of fuel buf s =
        drain_eof codec.decode codec.decode_eof handle_message handle_frame_error fuel buf s

    -- After some of the messages the loop waits with a start of the frames of the others.
    record Pending (ms : List SyslogMessage) (tail : Bytes) (s : S) (turn : Turn S) : Type 0 where
      pub buf : Bytes
      pub state : S
      pub others : List SyslogMessage
      pub is_waiting : turn ≡ waiting buf state
      pub same_end : handle_all others state ≡ handle_all ms s
      pub wire : Wire others (buf ++ tail)
      pub short : codec.decode buf ≡ (ok none, buf)

    decode_all-message :
        (fuel : ℕ) (buf rest : Bytes) (m : SyslogMessage) (s : S)
        → codec.decode buf ≡ (ok (some m), rest)
        → turn_of (suc fuel) buf s ≡ turn_of fuel rest (handle_message m s)
    unfolding decode_all
    decode_all-message fuel buf rest m s h =
        ap
          (λ d.
            follow (turn_of fuel)
              (on_decode codec.decode codec.decode_eof handle_message handle_frame_error d s))
          h

    decode_all-none :
        (fuel : ℕ) (buf : Bytes) (s : S)
        → codec.decode buf ≡ (ok none, buf)
        → turn_of (suc fuel) buf s ≡ waiting buf s
    unfolding decode_all
    decode_all-none fuel buf s h =
        ap
          (λ d.
            follow (turn_of fuel)
              (on_decode codec.decode codec.decode_eof handle_message handle_frame_error d s))
          h

    decode_all-Wire :
        (fuel : ℕ) (ms : List SyslogMessage) (w buf tail : Bytes) (s : S)
        → Wire ms w
        → w ≡ buf ++ tail
        → length buf < fuel
        → Pending ms tail s (turn_of fuel buf s)
    decode_all-Wire zero ms w buf tail s h e k = absurd (omega arith)
    decode_all-Wire (suc fuel) [] w buf tail s h e k =
        let nil : buf ≡ [] = (append-eq-nil_iff.0 (sym e ∙ h)).0 in
        let short : codec.decode buf ≡ (ok none, buf) =
          subst (λ b. codec.decode b ≡ (ok none, b)) (sym nil) codec.decode-nil in
        record {
          buf = buf;
          state = s;
          others = [];
          is_waiting = decode_all-none fuel buf s short;
          same_end = refl;
          wire = sym e ∙ h;
          short = short;
        }
    decode_all-Wire (suc fuel) (m ∷ ms) w buf tail s (f, after, hf, hw, hs) e k =
        elim (whole_or_part f after buf tail (sym hw ∙ e)) [
          | inl (r, whole) ↦
              let left : after ≡ r ++ tail =
                append-cancel f after (r ++ tail)
                  (sym hw ∙ e ∙ ap (λ b. b ++ tail) whole ∙ append_assoc f r tail) in
              let room : length r < fuel = omega (
                arith,
                ap length whole,
                length-append f r,
                length-pos f (codec.frame-ne-nil f m hf),
              ) in
              let there : codec.decode buf ≡ (ok (some m), r) =
                subst (λ b. codec.decode b ≡ (ok (some m), r)) (sym whole)
                  (codec.decode-frame f r m hf) in
              let p = decode_all-Wire fuel ms after r tail (handle_message m s) hs left room in
              record {
                buf = p.buf;
                state = p.state;
                others = p.others;
                is_waiting = decode_all-message fuel buf r m s there ∙ p.is_waiting;
                same_end = p.same_end;
                wire = p.wire;
                short = p.short;
              }
          | inr (q, part, lacking) ↦
              let short = codec.decode-partial f buf q m hf part lacking in
              record {
                buf = buf;
                state = s;
                others = m ∷ ms;
                is_waiting = decode_all-none fuel buf s short;
                same_end = refl;
                wire = (f, after, hf, sym e ∙ hw, hs);
                short = short;
              }
        ]

    -- At the end of the stream nothing is left to deliver.
    nothing_left :
        (others : List SyslogMessage) (buf : Bytes)
        → Wire others (buf ++ [])
        → codec.decode buf ≡ (ok none, buf)
        → (others ≡ []) × (buf ≡ [])
    nothing_left [] buf w short = (refl, (append-eq-nil_iff.0 w).0)
    nothing_left (m ∷ ms) buf (f, rest, hf, hw, hs) short =
        absurd
          (cc (short, ap codec.decode (sym (append-nil buf) ∙ hw), codec.decode-frame f rest m hf))

    drain_eof-nil : (fuel : ℕ) (s : S) → drain_of (suc fuel) [] s ≡ s
    unfolding drain_eof
    drain_eof-nil fuel s =
        ap
          (λ d.
            follow (drain_of fuel)
              (on_decode_eof codec.decode codec.decode_eof handle_message handle_frame_error d s))
          codec.decode_eof-nil

    -- The reads that are left, from a turn that waits.
    after_turn-Wire :
        (reads : List (ℕ × Bytes)) (ms : List SyslogMessage) (s : S) (turn : Turn S)
        → Pending ms (received reads) s turn
        → after_turn codec.decode codec.decode_eof handle_message handle_frame_error
            (stream reads)
            turn
          ≡ handle_all ms s
    unfolding after_turn
    after_turn-Wire [] ms s turn p =
        let (done, empty) = nothing_left p.others p.buf p.wire p.short in
        rw p.is_waiting (
          subst (λ b. drain_of (suc (length b)) b p.state ≡ handle_all ms s) (sym empty)
            (drain_eof-nil 0 p.state ∙ ap (λ o. handle_all o p.state) (sym done) ∙ p.same_end))
    after_turn-Wire ((b, bs) ∷ rest) ms s turn p =
        let buf = p.buf ++ b ∷ bs in
        let pending =
          decode_all-Wire (suc (length buf)) p.others _ buf (received rest) p.state p.wire
            (sym (append_assoc p.buf (b ∷ bs) (received rest))) (omega arith) in
        rw p.is_waiting (after_turn-Wire rest p.others p.state _ pending ∙ p.same_end)

    -- If what a stream gives up to its end is frames of messages, one behind the other, then the
    -- session handles each of the messages once, in their order, and no frame error, wherever the
    -- reads cut the bytes.
    pub run-handle_all :
        (ms : List SyslogMessage) (reads : List (ℕ × Bytes)) (s : S)
        → Wire ms (received reads)
        → run_with_codec codec.decode codec.decode_eof handle_message handle_frame_error
            (stream reads)
            s
          ≡ handle_all ms s
    unfolding run_with_codec
    run-handle_all ms reads s w =
        after_turn-Wire reads ms s _
          (decode_all-Wire 1 ms (received reads) [] (received reads) s w refl (omega arith))
