-- ===== src/Frame/Octet.antt =====
-- The octet-count codec: what was encoded is decoded, in one piece or byte by byte.
use logfence.Prelude.{
  ℕ, ◌+◌, ◌^◌, ◌≤◌, ◌<◌, true, [], ◌∷◌, ◌++◌, ◌≡◌, ◌≢◌, sym, ap, ◌∙◌, subst, arith, none, some,
  Bytes, length, ltb, if◌then◌else◌, ok, err, Lacks, All-prefix, All-imp, append_cases, length-pos,
  append_assoc, append-nil, length-append, le→ltb, lt→ltb, take-append, drop-append, inl, inr,
}
use logfence.Text.{decimal, is_utf8}
use logfence.Text.Split.{split_once-append, split_once-none}
use logfence.Text.Decimal.{
  IsDigit, decimal-Lacks, decimal-IsDigit, length-decimal, from_str_radix-decimal,
}
use logfence.Text.Utf8.{is_utf8-ascii}
use logfence.Syslog.Types.{SyslogMessage}
use logfence.Syslog.Parse.RoundTrip.{IsWellFormed, parse-display}
use logfence.Syslog.Parse.{parse, display}
use logfence.Frame.{
  octet_decode, octet_encode, octet_split, octet_sized, octet_count, octet_body, decode_text,
  message_too_large,
}

-- A text that the framing carries: it is UTF-8, within the limit, and parsed to `m`.
pub record IsPayload (max_size : ℕ) (text : Bytes) (m : SyslogMessage) : Type 0 where
  pub utf8 : is_utf8 text ≡ true
  pub within : length text ≤ max_size
  pub parses : parse text ≡ ok m

abbrev pub octet_frame : Bytes → Bytes
octet_frame text = decimal (length text) ++ b' ' ∷ text

not_space : ¬ IsDigit b' '
not_space d = absurd (omega arith)

octet_count-decimal : (n : ℕ) → n < 2 ^ 64 → octet_count (decimal n) ≡ some n
unfolding octet_count
octet_count-decimal n h =
    rw
      (is_utf8-ascii (decimal n)
        (All-imp IsDigit (λ c. c < 0x80) (λ c d. omega arith) _ (decimal-IsDigit n)))
      (from_str_radix-decimal 18446744073709551615 n (omega arith))

pub decode_text-IsPayload :
    (max_size : ℕ) (text : Bytes) (m : SyslogMessage)
    → IsPayload max_size text m
    → decode_text text ≡ ok (some m)
unfolding decode_text
decode_text-IsPayload max_size text m p = rw p.utf8 (rw p.parses)

-- With the prefix and the SP in the buffer, what happens is up to the bytes behind them.
octet_decode-prefix :
    (max_size n : ℕ) (rest : Bytes)
    → n ≤ max_size
    → max_size + 21 < 2 ^ 64
    → octet_decode max_size (decimal n ++ b' ' ∷ rest)
      ≡ (if ltb (length rest) n then (ok none, decimal n ++ b' ' ∷ rest) else octet_body n rest)
unfolding octet_decode octet_split octet_sized
octet_decode-prefix max_size n rest h k =
    let size = length-append (decimal n) (b' ' ∷ rest) in
    let digits = length-decimal n (omega arith) in
    rw (split_once-append b' ' (decimal n) rest (decimal-Lacks n b' ' not_space)) (
      rw (octet_count-decimal n (omega arith))
        (rw (le→ltb max_size n h) (ground (arith, size, digits))))

-- Digits with no SP behind them wait for more, as there are at most twenty.
octet_decode-digits :
    (max_size n : ℕ) (p r : Bytes)
    → n < 2 ^ 64
    → decimal n ≡ p ++ r
    → octet_decode max_size p ≡ (ok none, p)
unfolding octet_decode octet_split
octet_decode-digits max_size n p r k e =
    let lacks =
      All-prefix (λ c. c ≢ b' ') p r (subst (Lacks b' ') e (decimal-Lacks n b' ' not_space)) in
    let short : length p ≤ 20 = omega (arith, length-decimal n k, length-append p r, ap length e) in
    rw (split_once-none b' ' p lacks) (rw (le→ltb 20 (length p) short))

-- A frame at the front of the buffer is decoded to its message, and leaves what is behind it.
pub octet_decode-frame :
    (max_size : ℕ) (text rest : Bytes) (m : SyslogMessage)
    → max_size + 21 < 2 ^ 64
    → IsPayload max_size text m
    → octet_decode max_size (octet_frame text ++ rest) ≡ (ok (some m), rest)
octet_decode-frame max_size text rest m k p =
    rw (append_assoc, octet_decode-prefix max_size (length text) (text ++ rest) p.within k)
      (unfold octet_body in
        rw (le→ltb (length (text ++ rest)) (length text) (omega (arith, length-append text rest))) (
          rw (take-append text rest, drop-append text rest)
            (rw (decode_text-IsPayload max_size text m p))))

-- Behind the SP a body that lacks a byte or more waits for the rest.
octet_decode-body :
    (max_size : ℕ) (text t q : Bytes)
    → max_size + 21 < 2 ^ 64
    → length text ≤ max_size
    → text ≡ t ++ q
    → q ≢ []
    → octet_decode max_size (decimal (length text) ++ b' ' ∷ t)
      ≡ (ok none, decimal (length text) ++ b' ' ∷ t)
octet_decode-body max_size text t q k h e ne =
    let short : length t < length text =
      omega (arith, ap length e, length-append t q, length-pos q ne) in
    rw (octet_decode-prefix max_size (length text) t h k)
      (rw (lt→ltb (length t) (length text) short))

space_first :
    (d : Bytes) (c : ℕ) (t q text : Bytes) → b' ' ∷ text ≡ c ∷ (t ++ q) → d ++ c ∷ t ≡ d ++ b' ' ∷ t
space_first d c t q text e = ap (λ x. d ++ x ∷ t) (cc)

-- The start of a frame, short of its last byte or more, decodes to nothing and stays in the buffer
-- as it is, if the text is within a limit of less than 2^64 - 21 bytes.
pub octet_decode-partial :
    (max_size : ℕ) (text p q : Bytes)
    → max_size + 21 < 2 ^ 64
    → length text ≤ max_size
    → octet_frame text ≡ p ++ q
    → q ≢ []
    → octet_decode max_size p ≡ (ok none, p)
octet_decode-partial max_size text p q k h e ne =
    elim (append_cases p q (decimal (length text)) (b' ' ∷ text) (sym e)) [
      | inl (r, digits) ↦ octet_decode-digits max_size (length text) p r (omega arith) digits
      | inr ([], at_end, tail) ↦
          octet_decode-digits max_size (length text) p [] (omega arith)
            (sym (ap (λ s. s ++ []) at_end ∙ append-nil _ ∙ append-nil _))
      | inr (c ∷ t, behind, tail) ↦
          subst (λ b. octet_decode max_size b ≡ (ok none, b))
            (sym (behind ∙ space_first _ c t q text tail))
            (octet_decode-body max_size text t q k h (cc) ne)
    ]

-- `encode` appends one frame, if the rendering is within the limit.
octet_encode-frame :
    (max_size : ℕ) (m : SyslogMessage) (dst : Bytes)
    → length (display m) ≤ max_size
    → octet_encode max_size m dst ≡ (ok tt, dst ++ octet_frame (display m))
unfolding octet_encode
octet_encode-frame max_size m dst h =
    rw (le→ltb max_size (length (display m)) h) (simp append_assoc)

-- With a limit of less than 2^64 - 21 bytes, for a well-formed message whose rendering is UTF-8: if
-- the rendering is within the limit, it is encoded to bytes that decode to the same message, and
-- whatever follows them stays in the buffer; if not, it is refused, and the destination is left
-- alone.
pub octet_decode-encode :
    (max_size : ℕ) (m : SyslogMessage) (rest : Bytes)
    → max_size + 21 < 2 ^ 64
    → IsWellFormed m
    → is_utf8 (display m) ≡ true
    → (length (display m) ≤ max_size
        → octet_decode max_size ((octet_encode max_size m []).1 ++ rest) ≡ (ok (some m), rest))
      × (max_size < length (display m)
          → octet_encode max_size m rest
            ≡ (err (message_too_large max_size (length (display m))), rest))
octet_decode-encode max_size m rest k w u = (
  (λ h. rw (octet_encode-frame max_size m [] h) (
      octet_decode-frame max_size (display m) rest m k
        (record { utf8 = u; within = h; parses = parse-display m w }))),
  (λ h. unfold octet_encode in rw (lt→ltb max_size (length (display m)) h)),
)
