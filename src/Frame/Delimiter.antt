-- ===== src/Frame/Delimiter.antt =====
-- The delimiter codec: what was encoded is decoded, if the rendering lacks the delimiter.
use logfence.Prelude.{
  ℕ, ◌≤◌, ◌<◌, true, [], ◌∷◌, ◌++◌, ◌≡◌, ◌≢◌, arith, none, some, Bytes, length, ok, err, Lacks,
  All-prefix, append_assoc, length-append, le→ltb, lt→ltb,
}
use logfence.Text.{is_utf8}
use logfence.Text.Split.{split_once-append, split_once-none}
use logfence.Syslog.Types.{SyslogMessage}
use logfence.Syslog.Parse.RoundTrip.{IsWellFormed, parse-display}
use logfence.Syslog.Parse.{display}
use logfence.Frame.Octet.{IsPayload, decode_text-IsPayload}
use logfence.Frame.{delimiter_decode, delimiter_encode, delimiter_split, message_too_large}

-- A line at the front of the buffer is decoded to its message, and leaves what is behind it.
pub delimiter_decode-line :
    (delimiter max_size : ℕ) (text rest : Bytes) (m : SyslogMessage)
    → IsPayload max_size text m
    → Lacks delimiter text
    → delimiter_decode delimiter max_size (text ++ delimiter ∷ rest) ≡ (ok (some m), rest)
unfolding delimiter_decode delimiter_split
delimiter_decode-line delimiter max_size text rest m p h =
    rw (split_once-append delimiter text rest h)
      (rw (le→ltb max_size (length text) p.within) (rw (decode_text-IsPayload max_size text m p)))

-- The start of a line that lacks the delimiter and is within the limit decodes to nothing and stays
-- in the buffer as it is.
pub delimiter_decode-partial :
    (delimiter max_size : ℕ) (p q : Bytes)
    → length (p ++ q) ≤ max_size
    → Lacks delimiter (p ++ q)
    → delimiter_decode delimiter max_size p ≡ (ok none, p)
unfolding delimiter_decode delimiter_split
delimiter_decode-partial delimiter max_size p q h k =
    rw (split_once-none delimiter p (All-prefix (λ c. c ≢ delimiter) p q k))
      (rw (le→ltb max_size (length p) (omega (arith, length-append p q))))

-- For a well-formed message whose rendering is UTF-8 and lacks the delimiter: if the rendering is
-- within the limit, it is encoded to bytes that decode to the same message, and whatever follows
-- them stays in the buffer; if not, it is refused, and the destination is left alone.
pub delimiter_decode-encode :
    (delimiter max_size : ℕ) (m : SyslogMessage) (rest : Bytes)
    → IsWellFormed m
    → is_utf8 (display m) ≡ true
    → Lacks delimiter (display m)
    → (length (display m) ≤ max_size
        → delimiter_decode delimiter max_size ((delimiter_encode delimiter max_size m []).1 ++ rest)
          ≡ (ok (some m), rest))
      × (max_size < length (display m)
          → delimiter_encode delimiter max_size m rest
            ≡ (err (message_too_large max_size (length (display m))), rest))
unfolding delimiter_encode
delimiter_decode-encode delimiter max_size m rest w u l = (
  (λ h. rw (le→ltb max_size (length (display m)) h) (
      rw append_assoc (
        delimiter_decode-line delimiter max_size (display m) rest m
          (record { utf8 = u; within = h; parses = parse-display m w }) l))),
  (λ h. rw (lt→ltb max_size (length (display m)) h)),
)
