-- ===== src/Frame/Progress.antt =====
-- What the codecs deliver: the text of a delivered message stood in the buffer, within the limit.
use logfence.Prelude.{
  ℕ, ◌+◌, ◌≤◌, ◌<◌, true, [], ◌∷◌, ◌++◌, ◌≡◌, refl, sym, ap, ◌∙◌, arith, Option, none, some, Bytes,
  length, take, drop, ok, take-drop, length-take, length-append, append_assoc,
}
use logfence.Text.{split_once, is_utf8}
use logfence.Text.Split.{split_once_sound}
use logfence.Syslog.Types.{SyslogMessage}
use logfence.Syslog.Parse.{parse}
use logfence.Frame.{
  octet_decode, octet_split, octet_sized, octet_body, decode_text, delimiter_decode,
  delimiter_split,
}

-- A message `m` was delivered from `buf`, which leaves `rest`: its text stood in the buffer
-- between framing of one byte or more, and was all that was taken besides it; it was no longer
-- than the limit, is UTF-8, and is parsed to `m`.
pub record Delivered (max_size : ℕ) (buf rest : Bytes) (m : SyslogMessage) : Type 0 where
  pub before : Bytes
  pub text : Bytes
  pub behind : Bytes
  pub splits : buf ≡ before ++ (text ++ (behind ++ rest))
  pub framed : 0 < length before + length behind
  pub within : length text ≤ max_size
  pub utf8 : is_utf8 text ≡ true
  pub parses : parse text ≡ ok m

-- So each delivery makes the buffer shorter.
pub Delivered-shorter :
    (max_size : ℕ) (buf rest : Bytes) (m : SyslogMessage)
    → Delivered max_size buf rest m
    → length rest < length buf
Delivered-shorter max_size buf rest m d = omega (
  arith,
  ap length d.splits,
  length-append d.before (d.text ++ (d.behind ++ rest)),
  length-append d.text (d.behind ++ rest),
  length-append d.behind rest,
  d.framed,
)

decode_text_sound :
    (t : Bytes) (m : SyslogMessage)
    → decode_text t ≡ ok (some m)
    → (is_utf8 t ≡ true) × (parse t ≡ ok m)
unfolding decode_text
decode_text_sound t m h = ground arith

octet_body_sound :
    (n : ℕ) (rest after : Bytes) (m : SyslogMessage)
    → octet_body n rest ≡ (ok (some m), after)
    → (n ≤ length rest) × (decode_text (take n rest) ≡ ok (some m)) × (drop n rest ≡ after)
unfolding octet_body
octet_body_sound n rest after m h = ground arith

octet_sized_sound :
    (max_size : ℕ) (buf pre rest after : Bytes) (count : Option ℕ) (m : SyslogMessage)
    → octet_sized max_size buf pre rest count ≡ (ok (some m), after)
    → (n : ℕ) × (count ≡ some n) × (n ≤ max_size) × (octet_body n rest ≡ (ok (some m), after))
unfolding octet_sized
octet_sized_sound max_size buf pre rest after none m h = absurd (cc)
octet_sized_sound max_size buf pre rest after (some n) m h = (n, refl, ground arith, ground arith)

octet_split_sound :
    (max_size : ℕ) (buf after : Bytes) (split : Option (Bytes × Bytes)) (m : SyslogMessage)
    → split_once b' ' buf ≡ split
    → octet_split max_size buf split ≡ (ok (some m), after)
    → Delivered max_size buf after m
unfolding octet_split
octet_split_sound max_size buf after none m e h = absurd (ground arith)
octet_split_sound max_size buf after (some (pre, rest)) m e h =
    let (splits, _) = split_once_sound b' ' buf pre rest e in
    let (n, counted, limit, body) = octet_sized_sound max_size buf pre rest after _ m h in
    let (enough, text, left) = octet_body_sound n rest after m body in
    let (utf8, parses) = decode_text_sound (take n rest) m text in
    record {
      before = pre ++ b' ' ∷ [];
      text = take n rest;
      behind = [];
      splits =
          splits
          ∙ ap (λ r. pre ++ b' ' ∷ r) (sym (take-drop n rest) ∙ ap (λ r. take n rest ++ r) left)
          ∙ sym (append_assoc pre (b' ' ∷ []) (take n rest ++ after));
      framed = omega (arith, length-append pre (b' ' ∷ []));
      within = omega (arith, length-take n rest enough);
      utf8 = utf8;
      parses = parses;
    }

-- What the octet-count codec delivers was one framed text of the buffer, within the limit, valid
-- UTF-8 and parsed to the message; text and framing, one byte or more, are all it took.
pub octet_decode_sound :
    (max_size : ℕ) (buf rest : Bytes) (m : SyslogMessage)
    → octet_decode max_size buf ≡ (ok (some m), rest)
    → Delivered max_size buf rest m
unfolding octet_decode
octet_decode_sound max_size buf rest m h = octet_split_sound max_size buf rest _ m refl h

delimiter_split_sound :
    (delimiter max_size : ℕ) (buf after : Bytes) (split : Option (Bytes × Bytes))
    (m : SyslogMessage)
    → split_once delimiter buf ≡ split
    → delimiter_split max_size buf split ≡ (ok (some m), after)
    → Delivered max_size buf after m
unfolding delimiter_split
delimiter_split_sound delimiter max_size buf after none m e h = absurd (ground arith)
delimiter_split_sound delimiter max_size buf after (some (text, rest)) m e h =
    let (splits, _) = split_once_sound delimiter buf text rest e in
    let kept : (length text ≤ max_size) × (decode_text text ≡ ok (some m)) × (rest ≡ after) =
      ground arith in
    let (limit, decoded, left) = kept in
    let (utf8, parses) = decode_text_sound text m decoded in
    record {
      before = [];
      text = text;
      behind = delimiter ∷ [];
      splits = splits ∙ ap (λ r. text ++ delimiter ∷ r) left;
      framed = omega arith;
      within = limit;
      utf8 = utf8;
      parses = parses;
    }

-- What the delimiter codec delivers was one framed text of the buffer, within the limit, valid
-- UTF-8 and parsed to the message; text and framing, one byte or more, are all it took.
pub delimiter_decode_sound :
    (delimiter max_size : ℕ) (buf rest : Bytes) (m : SyslogMessage)
    → delimiter_decode delimiter max_size buf ≡ (ok (some m), rest)
    → Delivered max_size buf rest m
unfolding delimiter_decode
delimiter_decode_sound delimiter max_size buf rest m h =
    delimiter_split_sound delimiter max_size buf rest _ m refl h
