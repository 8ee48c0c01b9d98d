-- ===== src/Syslog/Parse/Sound.antt =====
-- What a successful `parse` returns is well formed, so that it survives rendering and parsing.
use logfence.Prelude.{
  ℕ, [], ◌∷◌, ◌++◌, ◌≡◌, ◌≢◌, inl, inr, refl, sym, ap, ◌∙◌, subst, arith, Option, none, some, Bytes,
  codes, drop, Lacks, bytes_eq, bytes_eq_iff, Outcome, ok, >>=-eq-ok, append_assoc, Bool-cases,
  ok_or, ◌==◌, ==→eq, ==→ne, split_halves,
}
use logfence.Text.{trim_end, slice, split_once, strip_byte, strip_prefix, from_str_radix, u8_max}
use logfence.Text.Trim.{EndsClean, EndsClean-rest, trim_end_idem}
use logfence.Text.Split.{split_once_sound, strip_byte_sound, strip_prefix_sound}
use logfence.Syslog.Types.{ParseError, Priority, SyslogMessage, priority_from_integer}
use logfence.Syslog.StructuredData.{find_structured_data_end}
use logfence.Syslog.StructuredData.Ends.{IsSdText, found_sound}
use logfence.Syslog.Parse.RoundTrip.{IsHeaderField, IsWellFormed, parse-display}
use logfence.Syslog.Parse.{
  parse, display, nil_to_option, split_header_field, msg_of, parse_structured_data_and_msg,
  parse_elements_and_msg, validate_fields, parse_header, parse_pri, parse_body,
}

-- `t` is a rest of `s`.
abbrev IsRest : Bytes → Bytes → Type 0
IsRest s t = (p : Bytes) × (s ≡ p ++ t)

IsRest-trans : (s t u : Bytes) → IsRest s t → IsRest t u → IsRest s u
IsRest-trans s t u (p, e) (q, f) = (p ++ q, e ∙ ap (◌++◌ p) f ∙ sym (append_assoc p q u))

EndsClean-IsRest : (s t : Bytes) → IsRest s t → EndsClean s → EndsClean t
EndsClean-IsRest s t (p, e) h = EndsClean-rest p t (subst EndsClean e h)

ok_or-eq-ok : {A : Type 0} (o : Option A) (e : ParseError) (a : A) → ok_or o e ≡ ok a → o ≡ some a
ok_or-eq-ok none e a h = absurd (cc)
ok_or-eq-ok (some b) e a h = cc

nil_to_option-IsHeaderField : (s : Bytes) → Lacks b' ' s → IsHeaderField (nil_to_option s)
unfolding nil_to_option
nil_to_option-IsHeaderField s h = elim (Bool-cases (bytes_eq s (codes "-"))) [
  | inl nil ↦ rw nil tt
  | inr other ↦ rw other (h, ground (arith, bytes_eq_iff s (codes "-")))
]

ok_pair-injective :
    {A B : Type 0} (a a' : A) (b b' : B)
    → ◌≡◌ {A = Outcome ParseError (A × B)} (ok (a, b)) (ok (a', b'))
    → (a ≡ a') × (b ≡ b')
ok_pair-injective a a' b b' h = (cc, cc)

split_header_field_sound :
    (s name : Bytes) (f : Option Bytes) (rest : Bytes)
    → split_header_field s name ≡ ok (f, rest)
    → IsHeaderField f × IsRest s rest
unfolding split_header_field
split_header_field_sound s name f rest h =
    let (x, found, e) = >>=-eq-ok (ok_or (split_once b' ' s) _) _ h in
    let (splits, lacks) = split_once_sound b' ' s x.0 x.1 (ok_or-eq-ok _ _ _ found) in
    let (field, tail) = ok_pair-injective _ _ _ _ e in
    (
      subst IsHeaderField field (nil_to_option-IsHeaderField x.0 lacks),
      (x.0 ++ b' ' ∷ [], splits ∙ rw (append_assoc, tail)),
    )

-- A MSG is a rest of the text.
msg_of-EndsClean : (s : Bytes) → EndsClean s → EndsClean (msg_of s)
unfolding strip_byte trim_end
msg_of-EndsClean [] h = refl
msg_of-EndsClean (c ∷ s) h = elim (Bool-cases (c == b' ')) [
  | inl space ↦ rw space (EndsClean-rest (c ∷ []) s h)
  | inr other ↦ rw other refl
]

-- What the two branches of `parse_structured_data_and_msg` return.
abbrev IsSplit : Bytes → Bytes → Bytes → Type 0
IsSplit s sd msg = IsSdText sd × (EndsClean s → EndsClean msg)

slice_sound : (s r : Bytes) → slice {E = ParseError} s ≡ ok r → s ≡ r
unfolding slice
slice_sound [] r h = cc
slice_sound (c ∷ s) r h = ground arith

parse_elements_sound :
    (t sd msg : Bytes)
    → parse_elements_and_msg (b'[' ∷ t) ≡ ok (sd, msg)
    → IsSplit (b'[' ∷ t) sd msg
unfolding parse_elements_and_msg
parse_elements_sound t sd msg h =
    let (n, found, h1) = >>=-eq-ok (find_structured_data_end (b'[' ∷ t)) _ h in
    let (rest, sliced, h2) = >>=-eq-ok (slice (drop n (b'[' ∷ t))) _ h1 in
    let (part, after, splits, size, text) = found_sound t n found in
    let (sd_is, msg_is) = ok_pair-injective _ _ _ _ h2 in
    let (taken, dropped) = split_halves n (b'[' ∷ t) part after splits size in
    let rest_is : after ≡ rest = sym dropped ∙ slice_sound _ rest sliced in
    (
      subst IsSdText (sym taken ∙ sd_is) text,
      λ clean. subst EndsClean msg_is (
          msg_of-EndsClean rest
            (EndsClean-IsRest _ rest (part, splits ∙ ap (◌++◌ part) rest_is) clean)),
    )

-- STRUCTURED-DATA is the nil value, or opens with a bracket, or is refused.
parse_sd_refuses :
    (c : ℕ) (s sd msg : Bytes)
    → c ≢ b'-'
    → c ≢ b'['
    → parse_structured_data_and_msg (c ∷ s) ≡ ok (sd, msg)
    → ⊥
unfolding parse_structured_data_and_msg strip_byte strip_prefix
parse_sd_refuses c s sd msg n m h = ground arith

parse_sd_nil :
    (s sd msg : Bytes)
    → parse_structured_data_and_msg (b'-' ∷ s) ≡ ok (sd, msg)
    → IsSplit (b'-' ∷ s) sd msg
unfolding parse_structured_data_and_msg strip_byte
parse_sd_nil s sd msg h =
    let (sd_is, msg_is) = ok_pair-injective _ _ _ _ h in
    (
      inl (sym sd_is),
      λ clean. subst EndsClean msg_is (msg_of-EndsClean s (EndsClean-rest (b'-' ∷ []) s clean)),
    )

parse_sd_elements :
    (s sd msg : Bytes)
    → parse_structured_data_and_msg (b'[' ∷ s) ≡ ok (sd, msg)
    → IsSplit (b'[' ∷ s) sd msg
parse_sd_elements s sd msg h =
    parse_elements_sound s sd msg
      (unfold parse_structured_data_and_msg strip_byte strip_prefix in h)

parse_sd_sound :
    (s sd msg : Bytes) → parse_structured_data_and_msg s ≡ ok (sd, msg) → IsSplit s sd msg
parse_sd_sound [] sd msg h =
    absurd (unfold parse_structured_data_and_msg strip_byte strip_prefix in cc)
parse_sd_sound (c ∷ s) sd msg h = elim (Bool-cases (c == b'-')) [
  | inl nil ↦
      subst (λ k. parse_structured_data_and_msg (k ∷ s) ≡ ok (sd, msg) → IsSplit (k ∷ s) sd msg)
        (sym (==→eq c b'-' nil)) (parse_sd_nil s sd msg) h
  | inr other ↦ elim (Bool-cases (c == b'[')) [
    | inl open_bracket ↦
        subst (λ k. parse_structured_data_and_msg (k ∷ s) ≡ ok (sd, msg) → IsSplit (k ∷ s) sd msg)
          (sym (==→eq c b'[' open_bracket)) (parse_sd_elements s sd msg) h
    | inr neither ↦
        absurd (parse_sd_refuses c s sd msg (==→ne c b'-' other) (==→ne c b'[' neither) h)
  ]
]

strip_version-IsRest :
    (p s r : Bytes) (e : ParseError) → ok_or (strip_prefix p s) e ≡ ok r → IsRest s r
strip_version-IsRest p s r e h = (p, strip_prefix_sound p s r (ok_or-eq-ok _ _ _ h))

-- The header fields that `parse_header` returns, and the rest behind them.
abbrev AreHeaderFields :
    Bytes
    → Option Bytes × Option Bytes × Option Bytes × Option Bytes × Option Bytes × Bytes
    → Type 0
AreHeaderFields s x =
    IsHeaderField x.0
    × IsHeaderField x.1
    × IsHeaderField x.2
    × IsHeaderField x.3
    × IsHeaderField x.4
    × IsRest s x.5

ok-injective : {A : Type 0} (a b : A) → ◌≡◌ {A = Outcome ParseError A} (ok a) (ok b) → a ≡ b
ok-injective a b h = cc

parse_header_sound :
    (s : Bytes)
    (x : Option Bytes × Option Bytes × Option Bytes × Option Bytes × Option Bytes × Bytes)
    → parse_header s ≡ ok x
    → AreHeaderFields s x
unfolding parse_header
parse_header_sound s x h =
    let (s1, e1, h1) = >>=-eq-ok (ok_or (strip_prefix (codes "1 ") s) _) _ h in
    let (y2, e2, h2) = >>=-eq-ok (split_header_field s1 _) _ h1 in
    let (y3, e3, h3) = >>=-eq-ok (split_header_field y2.1 _) _ h2 in
    let (y4, e4, h4) = >>=-eq-ok (split_header_field y3.1 _) _ h3 in
    let (y5, e5, h5) = >>=-eq-ok (split_header_field y4.1 _) _ h4 in
    let (y6, e6, h6) = >>=-eq-ok (split_header_field y5.1 _) _ h5 in
    let r1 = strip_version-IsRest (codes "1 ") s s1 _ e1 in
    let (f2, r2) = split_header_field_sound s1 _ y2.0 y2.1 e2 in
    let (f3, r3) = split_header_field_sound y2.1 _ y3.0 y3.1 e3 in
    let (f4, r4) = split_header_field_sound y3.1 _ y4.0 y4.1 e4 in
    let (f5, r5) = split_header_field_sound y4.1 _ y5.0 y5.1 e5 in
    let (f6, r6) = split_header_field_sound y5.1 _ y6.0 y6.1 e6 in
    let rest = IsRest-trans s s1 _ r1 (
      IsRest-trans s1 y2.1 _ r2 (
        IsRest-trans y2.1 y3.1 _ r3
          (IsRest-trans y3.1 y4.1 _ r4 (IsRest-trans y4.1 y5.1 y6.1 r5 r6)))) in
    subst (AreHeaderFields s) (ok-injective _ _ h6) (f2, f3, f4, f5, f6, rest)

parse_pri_sound : (s : Bytes) (x : Priority × Bytes) → parse_pri s ≡ ok x → IsRest s x.1
unfolding parse_pri
parse_pri_sound s x h =
    let (s1, e1, h1) = >>=-eq-ok (ok_or (strip_byte b'<' s) _) _ h in
    let (y, e2, h2) = >>=-eq-ok (ok_or (split_once b'>' s1) _) _ h1 in
    let (pri_val, e3, h3) = >>=-eq-ok (ok_or (from_str_radix 10 u8_max y.0) _) _ h2 in
    let (priority, e4, h4) = >>=-eq-ok (priority_from_integer pri_val) _ h3 in
    let opened = strip_byte_sound b'<' s s1 (ok_or-eq-ok _ _ _ e1) in
    let (splits, _) = split_once_sound b'>' s1 y.0 y.1 (ok_or-eq-ok _ _ _ e2) in
    let rest : y.1 ≡ x.1 = ap (λ z. z.1) (ok-injective (priority, y.1) x h4) in
    (b'<' ∷ (y.0 ++ b'>' ∷ []), opened ∙ ap (◌∷◌ b'<') splits ∙ rw (append_assoc, rest))

-- What the parts of a message are before its content is validated.
record IsShaped (s : Bytes) (m : SyslogMessage) : Type 0 where
  timestamp_field : IsHeaderField m.timestamp
  hostname_field : IsHeaderField m.hostname
  app_name_field : IsHeaderField m.app_name
  proc_id_field : IsHeaderField m.proc_id
  msg_id_field : IsHeaderField m.msg_id
  sd_text : IsSdText m.structured_data
  msg_clean : EndsClean s → EndsClean m.msg

parse_body_sound :
    (p : Priority) (s : Bytes) (m : SyslogMessage) → parse_body p s ≡ ok m → IsShaped s m
unfolding parse_body
parse_body_sound p s m h =
    let (x, e1, h1) = >>=-eq-ok (parse_header s) _ h in
    let (z, e2, h2) = >>=-eq-ok (parse_structured_data_and_msg x.5) _ h1 in
    let (f0, f1, f2, f3, f4, rest) = parse_header_sound s x e1 in
    let (text, clean) = parse_sd_sound x.5 z.0 z.1 e2 in
    subst (IsShaped s) (ok-injective _ m h2) (record {
      timestamp_field = f0;
      hostname_field = f1;
      app_name_field = f2;
      proc_id_field = f3;
      msg_id_field = f4;
      sd_text = text;
      msg_clean = λ k. clean (EndsClean-IsRest s x.5 rest k);
    })

-- Every message that `parse` returns is well formed: no header field is the nil value or has an SP,
-- the scan for the end of the STRUCTURED-DATA takes all of it, no trailing LF, CR or NUL is left
-- in MSG, and the content validation accepts the fields.
pub parse-IsWellFormed : (raw : Bytes) (m : SyslogMessage) → parse raw ≡ ok m → IsWellFormed m
unfolding parse
parse-IsWellFormed raw m h =
    let (x, e1, h1) = >>=-eq-ok (parse_pri (trim_end raw)) _ h in
    let (m', e2, h2) = >>=-eq-ok (parse_body x.0 x.1) _ h1 in
    let (done, e3, h3) = >>=-eq-ok (validate_fields m') _ h2 in
    let w = parse_body_sound x.0 x.1 m' e2 in
    let clean = EndsClean-IsRest _ x.1 (parse_pri_sound _ x e1) (trim_end_idem raw) in
    subst IsWellFormed (ok-injective m' m h3) (record {
      renderable = record {
        timestamp_field = w.timestamp_field;
        hostname_field = w.hostname_field;
        app_name_field = w.app_name_field;
        proc_id_field = w.proc_id_field;
        msg_id_field = w.msg_id_field;
        sd_text = w.sd_text;
        msg_clean = w.msg_clean clean;
      };
      valid = e3;
    })

-- Whatever text `parse` accepts: rendering the message and parsing the rendering gives the same
-- message.
pub parse-display-parse :
    (raw : Bytes) (m : SyslogMessage) → parse raw ≡ ok m → parse (display m) ≡ ok m
parse-display-parse raw m h = parse-display m (parse-IsWellFormed raw m h)
