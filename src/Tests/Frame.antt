-- ===== src/Tests/Frame.antt =====
-- The theorems on crates/logfence-proto/src/frame.rs at a message.
use logfence.Prelude.{◌<◌, ◌≤◌, [], ◌++◌, ◌≡◌, refl, arith, Bytes, codes, length, ok, err, some}
use logfence.Text.{decimal, decimal_on}
use logfence.Syslog.Parse.{display}
use logfence.Frame.{octet_decode, octet_encode, message_too_large}
use logfence.Frame.Octet.{octet_frame, octet_decode-frame, octet_decode-encode}
use logfence.Frame.Progress.{Delivered, octet_decode_sound}
use logfence.Tests.Messages.{
  request, request_text, request-IsWellFormed, display-request-utf8, request_text-IsPayload,
}

octet_decode-encode_example :
    (length (display request) ≤ 100
      → octet_decode 100 ((octet_encode 100 request []).1 ++ codes "7 ")
        ≡ (ok (some request), codes "7 "))
    × (100 < length (display request)
        → octet_encode 100 request (codes "7 ")
          ≡ (err (message_too_large 100 (length (display request))), codes "7 "))
octet_decode-encode_example =
    octet_decode-encode 100 request (codes "7 ") (omega arith) request-IsWellFormed
      display-request-utf8

abbrev greeting : Bytes
greeting = codes "hello"

greeting_frame : octet_frame greeting ≡ codes "5 hel" ++ codes "lo"
unfolding decimal decimal_on
greeting_frame = refl

octet_decode_sound_example :
    Delivered 100 (octet_frame request_text ++ codes "7 ") (codes "7 ") request
octet_decode_sound_example =
    octet_decode_sound 100 (octet_frame request_text ++ codes "7 ") (codes "7 ") request (
      octet_decode-frame 100 request_text (codes "7 ") request (omega arith) request_text-IsPayload)
