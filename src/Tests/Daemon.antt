-- ===== src/Tests/Daemon.antt =====
-- The theorems on crates/logfence-daemon at a message, with simple functions in the place of the
-- libraries.
use logfence.Prelude.{
  ℕ, suc, true, false, List, [], ◌∷◌, ◌++◌, ◌≡◌, ◌⊎◌, inl, inr, ◌↔◌, refl, arith, none, some, Bytes,
  codes, ◌==◌, if◌then◌else◌, ok, ◌∙◌, ap, sym, subst, ◌≤◌, append-nil, length,
}
use logfence.Text.{decimal, decimal_on}
use logfence.Syslog.Parse.{display}
use logfence.Frame.{Decoded}
use logfence.Frame.Octet.{octet_frame}
use logfence.Daemon.Config.{strict, off, optional, always, octet_count, newline, original}
use logfence.Daemon.Metrics.{new_store}
use logfence.Daemon.Validator.Canonical.{sorted_value}
use logfence.Daemon.Validator.Canonical.Sorted.{IsCanonical, sorted_value-IsCanonical}
use logfence.Daemon.Json.{null, member, Value, object, no_members, JsonLibrary}
use logfence.Daemon.Validator.{
  Validator, new_validator, with_input_cee, with_output_cee, has_cookie, validate,
  prepare_for_forwarding, ValidationError, validation_error_text,
}
use logfence.Daemon.Validator.Accept.{Accepted, validate_iff}
use logfence.Daemon.Validator.Forward.{with_cookie, sends_cookie, sent_json, prepare-Accepted}
use logfence.Daemon.Session.{SessionConfig, State, Outside, handle_message, handle_frame_error}
use logfence.Daemon.Session.Accounting.{Forwards, Drops, IsBalanced, handle_message_cases}
use logfence.Daemon.Session.Loop.{eof, bytes}
use logfence.Daemon.Session.Run.{run_session}
use logfence.Daemon.Session.Invariant.{run_session-IsBalanced}
use logfence.Daemon.Session.Delivery.{stream, received, handle_all}
use logfence.Daemon.Session.Codecs.{EndsQuietly, octet_codec, run_session-octet_count}
use logfence.Daemon.Session.Reload.{run_live, replaced, handle_with, run_live-replaced}
use logfence.Daemon.Datagram.{process_datagram}
use logfence.Daemon.Datagram.Stream.{process_datagram-run_session}
use logfence.Tests.Messages.{
  display-request, display-request-utf8, request-IsWellFormed, request, request_text,
  request_text-IsPayload,
}

-- A reader of the text `{` and what follows it, as an object.
abbrev read_braces : Bytes → Bytes ⊎ Value
read_braces [] = inl (codes "EOF")
read_braces (c ∷ s) = if c == b'{' then inr (object no_members) else inl (codes "expected value")

abbrev pub braces : JsonLibrary
braces = record {
  Schema = Unit {0};
  from_str = read_braces;
  to_string = λ v. some (codes "{}");
  validator_for = λ v. inr tt;
  is_valid = λ s v. true;
}

abbrev pub relay : Validator braces
relay = record (new_validator braces strict (tt ∷ [])) { input_cee = optional; output_cee = always }

request-Accepted : Accepted braces relay request
unfolding logfence.Daemon.Validator.schema_matches logfence.Daemon.Validator.discriminated
    logfence.Daemon.Validator.any_valid
request-Accepted = record {
  json = request.msg;
  value = object no_members;
  carries = inl (λ k. cc, λ r e. cc, refl);
  reads = refl;
  object_value = refl;
  matches = λ k. refl;
}

validate_iff_example : (validate braces relay request ≡ ok tt) ↔ Accepted braces relay request
validate_iff_example = validate_iff braces relay request

prepare-Accepted_example : prepare_for_forwarding braces relay request ≡ record request {
  msg =
      with_cookie
        (sends_cookie always (has_cookie request.msg))
        (sent_json braces false request-Accepted.value request-Accepted.json);
}
prepare-Accepted_example = prepare-Accepted braces relay request request-Accepted

-- A forwarder that counts what it is given.
abbrev pub counting : Outside ℕ
counting = record {
  process_id = 7;
  print = λ v. codes "{}";
  parse_error_text = λ e. [];
  forward = λ m n. (none, suc n);
}

abbrev pub counted_lines : SessionConfig
counted_lines = record {
  framing = octet_count;
  max_message_size = 100;
  sender_mode = original;
  local_hostname = codes "relay";
  peer = codes "<anonymous>";
}

abbrev lines : SessionConfig
lines = record counted_lines { framing = newline }

abbrev pub fresh : State ℕ
fresh = record { metrics = new_store; forwarder = 0 }

fresh-IsBalanced : IsBalanced new_store
fresh-IsBalanced = record { received_word = omega arith; balance = refl }

handle_message_cases_example :
    Forwards braces counting relay lines request fresh
      (handle_message counting braces relay lines request fresh)
    ⊎ Drops braces counting relay lines request fresh
        (handle_message counting braces relay lines request fresh)
handle_message_cases_example = handle_message_cases braces counting relay lines request fresh

abbrev pub plain_eof : (Bytes → Decoded) → Bytes → Decoded
plain_eof decode buf = decode buf

pub plain_eof-EndsQuietly : EndsQuietly plain_eof
plain_eof-EndsQuietly decode h = h

run_session-IsBalanced_example :
    IsBalanced
      (run_session plain_eof counting braces relay lines
        (bytes (codes "<13>1 é\n") eof)
        fresh).metrics
run_session-IsBalanced_example =
    run_session-IsBalanced plain_eof counting braces relay lines (bytes (codes "<13>1 é\n") eof)
      fresh fresh-IsBalanced

-- One frame in two reads, the first of them inside the count.
abbrev pub two_reads : List (ℕ × Bytes)
two_reads = (b'7', []) ∷ (b'2', b' ' ∷ request_text) ∷ []

two_reads-frame : received two_reads ≡ octet_frame request_text ++ []
unfolding decimal decimal_on
two_reads-frame = refl

run_session-octet_count_example :
    run_session plain_eof counting braces relay counted_lines (stream two_reads) fresh
    ≡ handle_all
        (octet_codec plain_eof plain_eof-EndsQuietly 100 (omega arith))
        (handle_message counting braces relay counted_lines)
        (handle_frame_error counting counted_lines)
        (request ∷ [])
        fresh
run_session-octet_count_example =
    run_session-octet_count plain_eof plain_eof-EndsQuietly counting braces relay counted_lines
      (request ∷ []) two_reads fresh (omega arith) refl
      (
        octet_frame request_text,
        [],
        (request_text, request_text-IsPayload, refl),
        two_reads-frame,
        refl,
      )

pub two_reads-display : received two_reads ≡ octet_frame (display request)
two_reads-display =
    two_reads-frame ∙ append-nil (octet_frame request_text) ∙ ap octet_frame (sym display-request)

pub display-request-short : length (display request) ≤ 100
display-request-short = subst (λ t. length t ≤ 100) (sym display-request) (omega arith)

process_datagram-run_session_example :
    process_datagram counting braces relay counted_lines (display request) fresh
    ≡ run_session plain_eof counting braces relay counted_lines (stream two_reads) fresh
process_datagram-run_session_example =
    process_datagram-run_session counting braces relay counted_lines plain_eof request two_reads
      fresh plain_eof-EndsQuietly refl (omega arith) request-IsWellFormed display-request-utf8
      display-request-short two_reads-display

-- `{"b":{"d":null,"c":null},"a":null}`
abbrev unsorted : Value
unsorted = object (
    member (codes "b") (object (member (codes "d") null (member (codes "c") null no_members)))
      (member (codes "a") null no_members))

sorted_value-IsCanonical_example : IsCanonical (sorted_value unsorted)
sorted_value-IsCanonical_example = sorted_value-IsCanonical unsorted

abbrev four_reads : List (ℕ × Bytes)
four_reads = two_reads ++ two_reads

four_reads-frames :
    received four_reads ≡ octet_frame request_text ++ (octet_frame request_text ++ [])
unfolding decimal decimal_on
four_reads-frames = refl

run_live-replaced_example :
    (run_live counting braces
      (replaced counting braces counted_lines plain_eof plain_eof-EndsQuietly
        (omega arith)
        1
        relay
        (record relay { mode = off }))
      counted_lines
      plain_eof
      (stream four_reads)
      (record { session = fresh; seen = 0 })).session
    ≡ handle_with counting braces counted_lines plain_eof plain_eof-EndsQuietly
        (omega arith)
        (record relay { mode = off })
        (request ∷ [])
        (handle_with counting braces counted_lines plain_eof plain_eof-EndsQuietly
          (omega arith)
          relay
          (request ∷ [])
          fresh)
run_live-replaced_example =
    run_live-replaced counting braces counted_lines plain_eof plain_eof-EndsQuietly (omega arith)
      (request ∷ []) (request ∷ []) relay (record relay { mode = off }) four_reads fresh refl
      (
        octet_frame request_text,
        octet_frame request_text ++ [],
        (request_text, request_text-IsPayload, refl),
        four_reads-frames,
        (octet_frame request_text, [], (request_text, request_text-IsPayload, refl), refl, refl),
      )
