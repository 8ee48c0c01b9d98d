-- ===== src/Syslog/Parse/Panics.antt =====
-- A message whose STRUCTURED-DATA makes `parse` panic.
use logfence.Prelude.{ℕ, true, List, ◌∷◌, ◌≡◌, All, Bytes, panic, subst, sym}
use logfence.Text.{is_continuation}
use logfence.Syslog.Types.{SyslogMessage}
use logfence.Syslog.StructuredData.Ends.{IsSdText}
use logfence.Syslog.StructuredData.Elements.{IsSdName, SdParam, IsSdParam}
use logfence.Syslog.StructuredData.Gaps.{
  element_with_junk, IsPlain, element_with_junk-IsSdText, validate-panics,
}
use logfence.Syslog.Parse.Grammar.{IsRfcHeader, parse-display_header}
use logfence.Syslog.Parse.{parse, display}

-- Under any header of the grammar, and with any MSG that the trimming leaves alone: if two bytes
-- stand between the last PARAM-VALUE of the one element and what follows up to its `]`, the
-- second of them a UTF-8 continuation byte and none a quote, backslash, bracket or space, then
-- `parse` neither returns a message nor an error, but panics.
pub parse-panics :
    (m : SyslogMessage) (id : Bytes) (p : SdParam) (ps : List SdParam) (c d : ℕ) (junk : Bytes)
    → IsRfcHeader m
    → IsSdName id
    → All IsSdParam (p ∷ ps)
    → All IsPlain (c ∷ d ∷ junk)
    → is_continuation d ≡ true
    → m.structured_data ≡ element_with_junk id p ps (c ∷ d ∷ junk)
    → parse (display m) ≡ panic
parse-panics m id p ps c d junk r hi hp hj hd e =
    let text = element_with_junk-IsSdText id p ps (c ∷ d ∷ junk) hi hp hj in
    rw (parse-display_header m r (subst IsSdText (sym e) text))
      (rw e (rw (validate-panics id p ps c d junk hi hp hj.0 hd)))
