-- ===== src/Daemon/Session/Codecs.antt =====
-- Both codecs keep the promise of `Codec`, so a session delivers what its stream frames.
use logfence.Prelude.{
  ℕ, ◌+◌, ◌<◌, ◌^◌, List, [], ◌∷◌, ◌++◌, ◌≡◌, ◌≢◌, inl, inr, refl, sym, ap, ◌∙◌, subst, arith, none,
  some, Bytes, length, length-append, append_assoc, append-nil, append_cases, Lacks, ok,
}
use mathlib.Core.List.{cons-ne-nil, append-eq-nil_iff}
use logfence.Text.{decimal, split_once}
use logfence.Syslog.Types.{SyslogMessage}
use logfence.Frame.{Decoded, octet_decode, delimiter_decode, octet_split}
use logfence.Frame.Octet.{IsPayload, octet_frame, octet_decode-frame, octet_decode-partial}
use logfence.Frame.Delimiter.{delimiter_decode-line, delimiter_decode-partial}
use logfence.Daemon.Config.{octet_count, newline}
use logfence.Daemon.Json.{JsonLibrary}
use logfence.Daemon.Validator.{Validator}
use logfence.Daemon.Session.{SessionConfig, State, Outside, handle_message, handle_frame_error}
use logfence.Daemon.Session.Delivery.{Codec, stream, received, Wire, handle_all, run-handle_all}
use logfence.Daemon.Session.Run.{codec_decode, run_session}
use logfence.Daemon.Session.Loop.{run_with_codec}

-- At the end of the stream an empty buffer holds no message.
abbrev pub EndsQuietly : ((Bytes → Decoded) → Bytes → Decoded) → Type 0
EndsQuietly decode_eof =
    (decode : Bytes → Decoded) → decode [] ≡ (ok none, []) → decode_eof decode [] ≡ (ok none, [])

pub octet_frame-ne-nil : (text : Bytes) → octet_frame text ≢ []
octet_frame-ne-nil text e =
    absurd (omega (arith, ap length e, length-append (decimal (length text)) (b' ' ∷ text)))

pub octet_nil : (max_size : ℕ) → octet_decode max_size [] ≡ (ok none, [])
unfolding octet_decode octet_split split_once
octet_nil max_size = refl

pub delimiter_nil :
    (delimiter max_size : ℕ) → delimiter_decode delimiter max_size [] ≡ (ok none, [])
delimiter_nil delimiter max_size =
    delimiter_decode-partial delimiter max_size [] [] (omega arith) tt

-- A start of a line that is not all of it lacks the delimiter.
pub line_part :
    (delimiter : ℕ) (text p q : Bytes)
    → text ++ delimiter ∷ [] ≡ p ++ q
    → q ≢ []
    → (t : Bytes) × (text ≡ p ++ t)
line_part delimiter text p q e ne = elim (append_cases p q text (delimiter ∷ []) (sym e)) [
  | inl (t, h) ↦ (t, h)
  | inr ([], h, k) ↦ ([], sym (append-nil p ∙ h ∙ append-nil text))
  | inr (x ∷ xs, h, k) ↦ let nil : xs ++ q ≡ [] = cc in absurd (ne (append-eq-nil_iff.0 nil).1)
]

module _ (decode_eof : (Bytes → Decoded) → Bytes → Decoded) (quiet : EndsQuietly decode_eof) where
  abbrev pub octet_codec : (max_size : ℕ) → max_size + 21 < 2 ^ 64 → Codec
  octet_codec max_size k = record {
    decode = octet_decode max_size;
    decode_eof = decode_eof (octet_decode max_size);
    IsFrame = λ f m. (text : Bytes) × IsPayload max_size text m × (f ≡ octet_frame text);
    frame-ne-nil = λ f m h e. octet_frame-ne-nil h.0 (sym h.2 ∙ e);
    decode-frame = λ f rest m (text, p, e).
        subst (λ x. octet_decode max_size (x ++ rest) ≡ (ok (some m), rest)) (sym e)
          (octet_decode-frame max_size text rest m k p);
    decode-partial = λ f p q m (text, payload, e) cut ne.
        octet_decode-partial max_size text p q k payload.within (sym e ∙ cut) ne;
    decode-nil = octet_nil max_size;
    decode_eof-nil = quiet (octet_decode max_size) (octet_nil max_size);
  }

  abbrev pub delimiter_codec : ℕ → ℕ → Codec
  delimiter_codec delimiter max_size = record {
    decode = delimiter_decode delimiter max_size;
    decode_eof = decode_eof (delimiter_decode delimiter max_size);
    IsFrame = λ f m.
        (text : Bytes) × IsPayload max_size text m
        × Lacks delimiter text
        × (f ≡ text ++ delimiter ∷ []);
    frame-ne-nil = λ f m h e. cons-ne-nil _ _ (append-eq-nil_iff.0 (sym h.3 ∙ e)).1;
    decode-frame = λ f rest m (text, p, l, e).
        subst (λ x. delimiter_decode delimiter max_size (x ++ rest) ≡ (ok (some m), rest)) (sym e)
          (rw append_assoc (delimiter_decode-line delimiter max_size text rest m p l));
    decode-partial = λ f p q m (text, payload, l, e) cut ne.
        let (t, whole) = line_part delimiter text p q (sym e ∙ cut) ne in
        delimiter_decode-partial delimiter max_size p t
          (omega (arith, ap length whole, payload.within)) (subst (Lacks delimiter) whole l);
    decode-nil = delimiter_nil delimiter max_size;
    decode_eof-nil = quiet (delimiter_decode delimiter max_size) (delimiter_nil delimiter max_size);
  }

  module _ {W : Type 0} (o : Outside W) (lib : JsonLibrary) (v : Validator lib)
      (cfg : SessionConfig) where
    -- With octet counts and a limit of less than 2^64 - 21 bytes: if what a stream gives up to its
    -- end is octet-counted texts within the limit, one behind the other, each valid UTF-8 and
    -- parsed to its message, then the session handles each message once, in order, wherever the
    -- reads cut the bytes.
    pub run_session-octet_count :
        (ms : List SyslogMessage) (reads : List (ℕ × Bytes)) (s : State W)
        (k : cfg.max_message_size + 21 < 2 ^ 64)
        → cfg.framing ≡ octet_count
        → Wire (octet_codec cfg.max_message_size k) ms (received reads)
        → run_session decode_eof o lib v cfg (stream reads) s
          ≡ handle_all
              (octet_codec cfg.max_message_size k)
              (handle_message o lib v cfg)
              (handle_frame_error o cfg)
              ms
              s
    unfolding run_session
    run_session-octet_count ms reads s k framing w =
        let chosen : codec_decode cfg cfg.framing ≡ octet_decode cfg.max_message_size =
          ap (codec_decode cfg) framing in
        ap
          (λ d.
            run_with_codec d (decode_eof d) (handle_message o lib v cfg) (handle_frame_error o cfg)
              (stream reads) s)
          chosen
        ∙ run-handle_all (octet_codec cfg.max_message_size k) (handle_message o lib v cfg)
            (handle_frame_error o cfg) ms reads s w

    -- With newline framing: if what a stream gives up to its end is lines within the limit, one
    -- behind the other, each valid UTF-8 and parsed to its message, then the session handles each
    -- message once, in order, wherever the reads cut the bytes.
    pub run_session-newline :
        (ms : List SyslogMessage) (reads : List (ℕ × Bytes)) (s : State W)
        → cfg.framing ≡ newline
        → Wire (delimiter_codec b'\n' cfg.max_message_size) ms (received reads)
        → run_session decode_eof o lib v cfg (stream reads) s
          ≡ handle_all
              (delimiter_codec b'\n' cfg.max_message_size)
              (handle_message o lib v cfg)
              (handle_frame_error o cfg)
              ms
              s
    unfolding run_session
    run_session-newline ms reads s framing w =
        let chosen : codec_decode cfg cfg.framing ≡ delimiter_decode b'\n' cfg.max_message_size =
          ap (codec_decode cfg) framing in
        ap
          (λ d.
            run_with_codec d (decode_eof d) (handle_message o lib v cfg) (handle_frame_error o cfg)
              (stream reads) s)
          chosen
        ∙ run-handle_all (delimiter_codec b'\n' cfg.max_message_size) (handle_message o lib v cfg)
            (handle_frame_error o cfg) ms reads s w
