-- ===== src/Tests/Messages.antt =====
-- The messages and texts that the tests share, and what is known of them.
use logfence.Prelude.{
  ◌∷◌, [], ◌≡◌, refl, sym, subst, arith, Bytes, codes, some, none, true, inr, ok,
}
use mathlib.Core.List.{cons-ne-nil}
use logfence.Text.{trim_end, decimal, decimal_on, is_utf8}
use logfence.Text.Trim.{EndsClean}
use logfence.Syslog.Types.{SyslogMessage, local7, info, as_integer, facility_code, severity_code}
use logfence.Syslog.Timestamp.Grammar.{utc, Timestamp, IsTimestamp}
use logfence.Syslog.StructuredData.Elements.{
  SdParam, SdElement, IsParamText, done, plain, IsSdName, IsSdParam, IsSdElement,
}
use logfence.Syslog.Parse.Grammar.{IsRfcHeader, IsRfcMessage, IsRfcMessage-IsWellFormed}
use logfence.Frame.Octet.{IsPayload}
use logfence.Syslog.Parse.RoundTrip.{IsWellFormed, parse-display}
use logfence.Syslog.Parse.{parse, display}

abbrev pub request : SyslogMessage
request = record {
  priority = record { facility = local7; severity = info };
  timestamp = some (codes "2026-05-14T12:00:00Z");
  hostname = some (codes "myhost");
  app_name = some (codes "myapp");
  proc_id = some (codes "7823");
  msg_id = none;
  structured_data = codes "[a b=\"c\"]";
  msg = codes "{\"user_id\":42}";
}

abbrev pub noon : Timestamp
noon = record {
  year = 2026;
  month = 5;
  day = 14;
  hour = 12;
  minute = 0;
  second = 0;
  fraction = [];
  zone = utc;
}

pub noon-IsTimestamp : IsTimestamp noon
noon-IsTimestamp = record {
  year_range = omega arith;
  month_range = omega arith;
  day_range = omega arith;
  hour_range = omega arith;
  minute_range = omega arith;
  second_range = omega arith;
  fraction_digits = tt;
  fraction_length = omega arith;
  zone_range = tt;
}

abbrev pub b_param : SdParam
b_param = record { name = codes "b"; value = codes "c" }

pub c-IsParamText : IsParamText (codes "c")
c-IsParamText = plain (omega arith) (omega arith) (omega arith) done

abbrev pub a_element : SdElement
a_element = record { id = codes "a"; params = b_param ∷ [] }

-- `request` with some other STRUCTURED-DATA.
abbrev pub with_sd : Bytes → SyslogMessage
with_sd sd = record request { structured_data = sd }

msg-EndsClean : EndsClean request.msg
unfolding trim_end
msg-EndsClean = refl

pub with_sd-IsRfcHeader : (sd : Bytes) → IsRfcHeader (with_sd sd)
with_sd-IsRfcHeader sd = record {
  timestamp_rfc = (noon, noon-IsTimestamp, refl);
  hostname_rfc = ((cons-ne-nil _ _, omega arith, omega arith), λ k. cc);
  app_name_rfc = ((cons-ne-nil _ _, omega arith, omega arith), λ k. cc);
  proc_id_rfc = ((cons-ne-nil _ _, omega arith, omega arith), λ k. cc);
  msg_id_rfc = tt;
  msg_clean = msg-EndsClean;
}

pub a-IsSdName : IsSdName (codes "a")
a-IsSdName = (cons-ne-nil _ _, omega arith, omega arith)

pub b_param-IsSdParam : IsSdParam b_param
b_param-IsSdParam = ((cons-ne-nil _ _, omega arith, omega arith), c-IsParamText)

pub a_element-IsSdElement : IsSdElement a_element
a_element-IsSdElement = (a-IsSdName, (b_param-IsSdParam, tt))

pub request-IsRfcMessage : IsRfcMessage request
request-IsRfcMessage = record {
  header = with_sd-IsRfcHeader _;
  sd_rfc = inr (a_element, [], (a_element-IsSdElement, tt), refl);
}

pub request-IsWellFormed : IsWellFormed request
request-IsWellFormed = IsRfcMessage-IsWellFormed request request-IsRfcMessage

-- The rendering of `request`, as bytes.
abbrev pub request_text : Bytes
request_text = codes "<190>1 2026-05-14T12:00:00Z myhost myapp 7823 - [a b=\"c\"] {\"user_id\":42}"

pub display-request : display request ≡ request_text
unfolding display decimal decimal_on as_integer facility_code severity_code
display-request = refl

pub parse-request_text : parse request_text ≡ ok request
parse-request_text =
    subst (λ t. parse t ≡ ok request) display-request (parse-display request request-IsWellFormed)

pub request_text-utf8 : is_utf8 request_text ≡ true
unfolding is_utf8
request_text-utf8 = refl

pub display-request-utf8 : is_utf8 (display request) ≡ true
display-request-utf8 = subst (λ t. is_utf8 t ≡ true) (sym display-request) request_text-utf8

pub request_text-IsPayload : IsPayload 100 request_text request
request_text-IsPayload = record {
  utf8 = request_text-utf8;
  within = omega arith;
  parses = parse-request_text;
}
