-- ===== src/Syslog/Parse/RoundTrip.antt =====
-- Parsing what was rendered.
use logfence.Prelude.{
  [], ◌∷◌, ◌++◌, ◌≡◌, ◌≢◌, inl, inr, refl, sym, subst, arith, Option, none, some, Bytes, codes,
  length, Lacks, bytes_eq, bytes_eq_iff, ok, ◌>>=◌, append-nil, take-append, drop-append,
}
use mathlib.Core.List.{cons-ne-nil, append-ne-nil_of_right_ne-nil}
use logfence.Text.{slice, split_once, strip_byte, decimal, strip_prefix}
use logfence.Text.Trim.{EndsClean, trim_end-append}
use logfence.Text.Split.{split_once-append}
use logfence.Text.Decimal.{IsDigit, decimal-Lacks, from_str_radix-decimal}
use logfence.Syslog.Types.{ParseError, Priority, SyslogMessage, as_integer}
use logfence.Syslog.Priority.{priority_round_trip, as_integer-le}
use logfence.Syslog.StructuredData.{find_structured_data_end}
use logfence.Syslog.StructuredData.Ends.{
  IsSdText, NoOpen, find-append, IsSdText-ne-nil, IsSdText-EndsClean,
}
use logfence.Syslog.Parse.{
  parse, display, nil_to_option, split_header_field, msg_of, parse_structured_data_and_msg,
  parse_elements_and_msg, validate_fields, parse_header, parse_pri, parse_body, or_nil, display_msg,
  display_field,
}

-- A header field that the space-delimited format can carry: no space, and not the nil value.
abbrev pub IsHeaderField : Option Bytes → Type 0
IsHeaderField none = Unit
IsHeaderField (some s) = Lacks b' ' s × (s ≢ codes "-")

-- A message whose rendering `parse` takes apart again, whatever it makes of the content.
pub record IsRenderable (m : SyslogMessage) : Type 0 where
  pub timestamp_field : IsHeaderField m.timestamp
  pub hostname_field : IsHeaderField m.hostname
  pub app_name_field : IsHeaderField m.app_name
  pub proc_id_field : IsHeaderField m.proc_id
  pub msg_id_field : IsHeaderField m.msg_id
  pub sd_text : IsSdText m.structured_data
  pub msg_clean : EndsClean m.msg

-- So also is its content accepted.
pub record IsWellFormed (m : SyslogMessage) : Type 0 where
  pub renderable : IsRenderable m
  pub valid : validate_fields m ≡ ok tt

nil_to_option-some : (s : Bytes) → s ≢ codes "-" → nil_to_option s ≡ some s
unfolding nil_to_option
nil_to_option-some s h = ground (arith, bytes_eq_iff s (codes "-"))

split_header_field-display :
    (f : Option Bytes) (rest name : Bytes)
    → IsHeaderField f
    → split_header_field (display_field f rest) name ≡ ok (f, rest)
unfolding split_header_field
split_header_field-display none rest name h = unfold split_once nil_to_option bytes_eq in refl
split_header_field-display (some s) rest name (h, k) =
    rw (split_once-append b' ' s rest h) (rw (nil_to_option-some s k))

-- The PRI, the version and the header fields, with any text behind them.
parse_header-display :
    (m : SyslogMessage) (rest : Bytes)
    → IsRenderable m
    → parse_header (
        b'1'
        ∷ b' '
        ∷ display_field m.timestamp (
            display_field m.hostname
              (display_field m.app_name (display_field m.proc_id (display_field m.msg_id rest)))))
      ≡ ok (m.timestamp, m.hostname, m.app_name, m.proc_id, m.msg_id, rest)
unfolding parse_header strip_prefix
parse_header-display m rest w = rw (
  split_header_field-display m.timestamp _ _ w.timestamp_field,
  split_header_field-display m.hostname _ _ w.hostname_field,
  split_header_field-display m.app_name _ _ w.app_name_field,
  split_header_field-display m.proc_id _ _ w.proc_id_field,
  split_header_field-display m.msg_id _ _ w.msg_id_field,
)

NoOpen-display_msg : (msg : Bytes) → NoOpen (display_msg msg)
NoOpen-display_msg [] = tt
NoOpen-display_msg (c ∷ msg) = omega arith

slice-display_msg : (msg : Bytes) → slice {E = ParseError} (display_msg msg) ≡ ok (display_msg msg)
unfolding slice
slice-display_msg [] = refl
slice-display_msg (c ∷ msg) = refl

msg_of-display_msg : (msg : Bytes) → msg_of (display_msg msg) ≡ msg
unfolding strip_byte
msg_of-display_msg [] = refl
msg_of-display_msg (c ∷ msg) = refl

parse_elements-display :
    (sd msg : Bytes)
    → find_structured_data_end sd ≡ ok (length sd)
    → parse_elements_and_msg (sd ++ display_msg msg) ≡ ok (sd, msg)
unfolding parse_elements_and_msg
parse_elements-display sd msg found =
    rw (find-append sd (display_msg msg) found (NoOpen-display_msg msg)) (
      rw (drop-append sd (display_msg msg), slice-display_msg msg)
        (rw (take-append sd (display_msg msg), msg_of-display_msg msg)))

parse_sd-display :
    (sd msg : Bytes)
    → IsSdText sd
    → parse_structured_data_and_msg (sd ++ display_msg msg) ≡ ok (sd, msg)
unfolding parse_structured_data_and_msg strip_byte strip_prefix
parse_sd-display sd msg (inl h) = rw h (rw (msg_of-display_msg msg))
parse_sd-display sd msg (inr (t, h, found)) =
    subst (λ s. parse_structured_data_and_msg (s ++ display_msg msg) ≡ ok (s, msg)) (sym h)
      (parse_elements-display (b'[' ∷ t) msg
        (subst (λ s. find_structured_data_end s ≡ ok (length s)) h found))

-- A tail that ends clean and is not empty.
abbrev CleanTail : Bytes → Type 0
CleanTail t = (t ≢ []) × EndsClean t

CleanTail-append : (s t : Bytes) → CleanTail t → CleanTail (s ++ t)
CleanTail-append s t (ne, h) = (append-ne-nil_of_right_ne-nil s ne, trim_end-append s t ne h)

CleanTail-field : (f : Option Bytes) (t : Bytes) → CleanTail t → CleanTail (display_field f t)
CleanTail-field f t h = CleanTail-append (or_nil f) (b' ' ∷ t) (CleanTail-append (b' ' ∷ []) t h)

CleanTail-sd : (sd msg : Bytes) → IsSdText sd → EndsClean msg → CleanTail (sd ++ display_msg msg)
CleanTail-sd sd [] h k = rw append-nil (IsSdText-ne-nil sd h, IsSdText-EndsClean sd h)
CleanTail-sd sd (c ∷ msg) h k =
    CleanTail-append sd _ (CleanTail-append (b' ' ∷ []) (c ∷ msg) (cons-ne-nil c msg, k))

-- The rendering loses nothing to the trimming at the start of `parse`.
display-EndsClean : (m : SyslogMessage) → IsRenderable m → EndsClean (display m)
unfolding display
display-EndsClean m w =
    let tail = CleanTail-sd m.structured_data m.msg w.sd_text w.msg_clean in
    let fields = CleanTail-field m.timestamp _ (
      CleanTail-field m.hostname _ (
        CleanTail-field m.app_name _
          (CleanTail-field m.proc_id _ (CleanTail-field m.msg_id _ tail)))) in
    let version = CleanTail-append (b'>' ∷ b'1' ∷ b' ' ∷ []) _ fields in
    (CleanTail-append (b'<' ∷ decimal (as_integer m.priority)) _ version).1

not_greater : ¬ IsDigit b'>'
not_greater d = absurd (omega arith)

parse_pri-display :
    (p : Priority) (rest : Bytes)
    → parse_pri (b'<' ∷ (decimal (as_integer p) ++ b'>' ∷ rest)) ≡ ok (p, rest)
unfolding parse_pri strip_byte
parse_pri-display p rest =
    rw (split_once-append b'>' (decimal (as_integer p)) rest (decimal-Lacks _ b'>' not_greater)) (
      rw (from_str_radix-decimal 255 (as_integer p) (omega (arith, as_integer-le p)))
        (rw (priority_round_trip p)))

-- What parsing makes of a rendering is up to the content validation alone.
pub parse-display_renderable :
    (m : SyslogMessage) → IsRenderable m → parse (display m) ≡ (validate_fields m >>= λ _. ok m)
unfolding parse parse_body
parse-display_renderable m w = rw (display-EndsClean m w) (
    unfold display in
    rw (parse_pri-display m.priority _)
      (rw (parse_header-display m _ w) (rw (parse_sd-display m.structured_data m.msg w.sd_text))))

-- A well-formed message is read back from its rendering, field by field.
pub parse-display : (m : SyslogMessage) → IsWellFormed m → parse (display m) ≡ ok m
parse-display m w = rw (parse-display_renderable m w.renderable) (rw w.valid)
