-- ===== src/Tests/Syslog.antt =====
-- The theorems on crates/logfence-proto/src/syslog.rs at a message, and runs of `parse`.
use logfence.Prelude.{[], ◌≡◌, refl, arith, Bytes, codes, ok, panic}
use logfence.Syslog.Types.{Priority, local7, info, debug, as_integer, priority_from_integer}
use logfence.Syslog.Priority.Exact.{pri_of, from_tables, pri_of-IsEquiv}
use std.Equiv.{IsEquiv}
use logfence.Syslog.StructuredData.{validate_structured_data_content}
use logfence.Syslog.StructuredData.Gaps.{validate-junk}
use logfence.Syslog.Parse.{parse, display}
use logfence.Syslog.Parse.Grammar.{parse-display_rfc}
use logfence.Syslog.Parse.RoundTrip.{IsWellFormed}
use logfence.Syslog.Parse.Sound.{parse-IsWellFormed, parse-display-parse}
use logfence.Syslog.Parse.Panics.{parse-panics}
use logfence.Tests.Messages.{
  request, with_sd, with_sd-IsRfcHeader, b_param, b_param-IsSdParam, a-IsSdName,
  request-IsRfcMessage, request_text, parse-request_text,
}

parse-display_rfc_example : parse (display request) ≡ ok request
parse-display_rfc_example = parse-display_rfc request request-IsRfcMessage

parse-display-parse_example : parse (display request) ≡ ok request
parse-display-parse_example = parse-display-parse request_text request parse-request_text

parse-IsWellFormed_example : IsWellFormed request
parse-IsWellFormed_example = parse-IsWellFormed request_text request parse-request_text

abbrev broken_sd : Bytes
broken_sd = codes "[a b=\"c\"é]"

parse-panics_example : parse (display (with_sd broken_sd)) ≡ panic
parse-panics_example =
    parse-panics (with_sd broken_sd) (codes "a") b_param [] 0xc3 0xa9 []
      (with_sd-IsRfcHeader broken_sd) a-IsSdName (b_param-IsSdParam, tt) (omega arith) refl refl

validate-junk_example : validate_structured_data_content (codes "[a b=\"c\"xa]") ≡ ok tt
validate-junk_example =
    validate-junk (codes "a") b_param [] b'x' (codes "a") a-IsSdName (b_param-IsSdParam, tt)
      (omega arith) a-IsSdName

abbrev local7_info : Priority
local7_info = record { facility = local7; severity = info }

pri_of-IsEquiv_example :
    IsEquiv pri_of
    × (priority_from_integer 192 ≡ from_tables 192)
    × (priority_from_integer (as_integer local7_info) ≡ ok local7_info)
    × (from_tables (as_integer local7_info) ≡ ok local7_info)
pri_of-IsEquiv_example = pri_of-IsEquiv 192 local7_info

from_tables_test : from_tables 191 ≡ ok (record { facility = local7; severity = debug })
from_tables_test = refl
