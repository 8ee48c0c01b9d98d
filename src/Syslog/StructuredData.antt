-- ===== src/Syslog/StructuredData.antt =====
-- STRUCTURED-DATA: `find_structured_data_end`, `validate_structured_data_content` and
-- `validate_sd_name`. Where a loop of the source stands is a value of a data type, and one byte
-- is one step; the offset into the bytes is the rest of the text there.
pub mod Ends
pub mod Elements
pub mod Content
pub mod Gaps
use logfence.Prelude.{
  ℕ, ◌+◌, Bool, true, false, ◌&&◌, ◌||◌, not, [], ◌∷◌, ◌++◌, Bytes, codes, length, is_empty, ltb,
  ◌==◌, if◌then◌else◌, Outcome, ok, err, ◌>>=◌, ◌>>◌, reject_if, bytes_eq,
}
use logfence.Text.{slice}
use logfence.Syslog.Types.{
  ParseError, malformed_header, invalid_field, message, too_long, bad_character,
}
use logfence.Syslog.Field.{first_outside, is_printusascii, reject_character}

-- Where `find_structured_data_end` stands: at the test of its outer loop, or in the inner loop
-- with `in_param_value` and `escaped`.
pub data ScanPlace : Type 0 where
  between_elements : ScanPlace
  in_element : Bool → Bool → ScanPlace

-- One round of the inner loop.
unfoldable pub scan_step : Bool → Bool → ℕ → ScanPlace
scan_step in_param_value true c = in_element in_param_value false
scan_step in_param_value false c =
    if c == b'\\'
    then in_element in_param_value true
    else if c == b'"'
    then in_element (not in_param_value) false
    else if c == b']' && not in_param_value
    then between_elements
    else in_element in_param_value false

unfoldable pub find_from : ScanPlace → Bytes → ℕ → Outcome ParseError ℕ
unfolding scan_step
find_from between_elements [] i = ok i
find_from between_elements (c ∷ s) i =
    let inside = find_from (in_element false false) s (i + 1) in if c == b'[' then inside else ok i
find_from (in_element q e) [] i =
    err (malformed_header (codes "unterminated SD-ELEMENT (missing ']')"))
find_from (in_element q e) (c ∷ s) i = find_from (scan_step q e c) s (i + 1)

unfoldable pub find_structured_data_end : Bytes → Outcome ParseError ℕ
unfolding find_from
find_structured_data_end s = find_from between_elements s 0

abbrev pub is_name_char : ℕ → Bool
is_name_char c = is_printusascii c && not (c == b'=' || c == b']' || c == b'"')

unfoldable pub validate_sd_name : Bytes → Bytes → Outcome ParseError (Unit {0})
unfolding first_outside
validate_sd_name s field = do
  reject_if (is_empty s) (invalid_field field (message (codes "must not be empty")))
  reject_if (ltb 32 (length s)) (invalid_field field (too_long 32 (length s)))
  reject_character field (codes "contains invalid character ") (first_outside is_name_char s)

-- Where `validate_structured_data_content` stands: at the test of the outer loop, in an SD-ID or
-- a PARAM-NAME with the bytes read of it, behind the SP of a parameter, behind its `=`, in the
-- loop over a PARAM-VALUE with `escaped`, or at the test of the loop over the parameters.
pub data Place : Type 0 where
  outer : Place
  sd_id : Bytes → Place
  param : Place
  param_name : Bytes → Place
  behind_equals : Place
  param_value : Bool → Place
  params : Place

abbrev sd_err : Bytes → ParseError
sd_err reason = invalid_field (codes "STRUCTURED-DATA") (message reason)

abbrev pub no_equals : ParseError
no_equals = sd_err (codes "PARAM-NAME not followed by '='")

abbrev pub not_quoted : ParseError
not_quoted = sd_err (codes "PARAM-VALUE must be quoted")

abbrev pub unterminated : ParseError
unterminated = sd_err (codes "unterminated PARAM-VALUE")

-- `validate_sd_name(&sd[start..pos], field)`, where the slice may panic.
unfoldable pub check_name : Bytes → Bytes → Outcome ParseError (Unit {0})
unfolding slice validate_sd_name
check_name name field = do s ← slice name; validate_sd_name s field

-- Behind a PARAM-NAME byte.
unfoldable pub name_step : Bytes → ℕ → Outcome ParseError Place
unfolding check_name
name_step name c =
    if c == b'='
    then (do check_name name (codes "PARAM-NAME"); ok behind_equals)
    else if c == b']'
    then err no_equals
    else ok (param_name (name ++ c ∷ []))

-- The byte `c` is read at a place. At the test of the outer loop any byte is consumed, as the
-- source does; so is a byte at the test of the loop over the parameters that is neither SP nor
-- `]`, which ends that loop and the round of the outer one.
unfoldable pub place_step : Place → ℕ → Outcome ParseError Place
unfolding check_name name_step
place_step outer c = ok (sd_id [])
place_step (sd_id name) c =
    if c == b' '
    then (do check_name name (codes "SD-ID"); ok param)
    else if c == b']'
    then (do check_name name (codes "SD-ID"); ok outer)
    else ok (sd_id (name ++ c ∷ []))
place_step param c = if c == b']' then ok outer else name_step [] c
place_step (param_name name) c = name_step name c
place_step behind_equals c = if c == b'"' then ok (param_value false) else err not_quoted
place_step (param_value true) c = ok (param_value false)
place_step (param_value false) c =
    if c == b'\\'
    then ok (param_value true)
    else if c == b'"'
    then ok params
    else ok (param_value false)
place_step params c = if c == b' ' then ok param else if c == b']' then ok outer else ok (sd_id [])

-- The bytes end at a place.
unfoldable pub place_end : Place → Outcome ParseError (Unit {0})
unfolding check_name
place_end outer = ok tt
place_end (sd_id name) = check_name name (codes "SD-ID")
place_end param = err no_equals
place_end (param_name name) = err no_equals
place_end behind_equals = err not_quoted
place_end (param_value e) = err unterminated
place_end params = ok tt

unfoldable pub content_from : Place → Bytes → Outcome ParseError (Unit {0})
unfolding place_step place_end
content_from p [] = place_end p
content_from p (c ∷ s) = do q ← place_step p c; content_from q s

unfoldable pub validate_structured_data_content : Bytes → Outcome ParseError (Unit {0})
unfolding content_from bytes_eq
validate_structured_data_content sd =
    if bytes_eq sd (codes "-") then ok tt else content_from outer sd
