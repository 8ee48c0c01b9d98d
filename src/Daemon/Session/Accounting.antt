-- ===== src/Daemon/Session/Accounting.antt =====
-- What `handle_message` counts and sends.
use logfence.Prelude.{
  ◌+◌, ◌%◌, ◌^◌, ◌<◌, Bool, true, false, ◌≡◌, ◌≢◌, ◌⊎◌, inl, inr, refl, arith, Option, none, some,
  codes, Bool-cases, Bytes, Outcome, ok, err, panic, ◌>>=◌, map_err, of_result,
}
use logfence.Io.{IoError}
use logfence.Syslog.Types.{SyslogMessage, syslog, warning}
use logfence.Text.{decimal}
use logfence.Daemon.Sender.{rewrite_sender}
use logfence.Daemon.Config.{
  SenderMode, original, logfenced, CeeCookieMode, never, optional, always, ValidationMode, strict,
  warn, off,
}
use logfence.Daemon.Metrics.{MetricsStore, inc_received, inc_forwarded, inc_dropped, inc_errors}
use logfence.Daemon.Json.{Value, JsonLibrary, is_object}
use logfence.Daemon.Validator.{
  ValidationError, validation_error_text, not_json, json_part, verdict, Validator, schema_matches,
  validate, prepare_for_forwarding,
}
use logfence.Daemon.Validator.Accept.{Accepted, validate_iff}
use logfence.Daemon.Session.{
  SessionConfig, State, Outside, dropped_payload, rejection_report, report_rejection, to_forward,
  count_sent, send, on_validated, handle_message,
}

-- Each message received was forwarded, dropped or failed, counted modulo 2^64.
pub record IsBalanced (m : MetricsStore) : Type 0 where
  pub received_word : m.received < 2 ^ 64
  pub balance : m.received ≡ (m.forwarded + m.dropped + m.errors) % 2 ^ 64

forwarded-IsBalanced :
    (m : MetricsStore) → IsBalanced m → IsBalanced (inc_forwarded (inc_received m))
unfolding inc_forwarded inc_received
forwarded-IsBalanced m b = record {
  received_word = omega arith;
  balance = omega (arith, b.balance);
}

dropped-IsBalanced : (m : MetricsStore) → IsBalanced m → IsBalanced (inc_dropped (inc_received m))
unfolding inc_dropped inc_received
dropped-IsBalanced m b = record { received_word = omega arith; balance = omega (arith, b.balance) }

errors-IsBalanced : (m : MetricsStore) → IsBalanced m → IsBalanced (inc_errors (inc_received m))
unfolding inc_errors inc_received
errors-IsBalanced m b = record { received_word = omega arith; balance = omega (arith, b.balance) }

count_sent-IsBalanced :
    (failure : Option IoError) (m : MetricsStore)
    → IsBalanced m
    → IsBalanced (count_sent failure (inc_received m))
count_sent-IsBalanced none m b = forwarded-IsBalanced m b
count_sent-IsBalanced (some e) m b = errors-IsBalanced m b

json_part-no_panic : (mode : CeeCookieMode) (s : Bytes) → json_part mode s ≢ panic
unfolding json_part
json_part-no_panic never s h = ground arith
json_part-no_panic optional s h = ground arith
json_part-no_panic always s h = ground arith

verdict-no_panic : (mode : ValidationMode) (matches : Bool) → verdict mode matches ≢ panic
verdict-no_panic strict true h = cc
verdict-no_panic strict false h = cc
verdict-no_panic warn matches h = cc
verdict-no_panic off matches h = cc

>>=-no_panic {ℓ κ} :
    {E : Type 0} {A : Type ℓ} {B : Type κ} (m : Outcome E A) (f : A → Outcome E B)
    → m ≢ panic
    → ((a : A) → f a ≢ panic)
    → (m >>= f) ≢ panic
>>=-no_panic (ok a) f h k e = k a e
>>=-no_panic (err x) f h k e = cc
>>=-no_panic panic f h k e = h refl

read-no_panic : (o : Bytes ⊎ Value) → map_err not_json (of_result o) ≢ panic
read-no_panic (inl e) h = cc
read-no_panic (inr v) h = cc

-- The counters of a message whose `forward` returned an error, or none: one received, and one
-- failed or forwarded, modulo 2^64.
abbrev pub IsCounted : Option IoError → MetricsStore → MetricsStore → Type 0
IsCounted none m after =
    after
    ≡ record m { received = (m.received + 1) % 2 ^ 64; forwarded = (m.forwarded + 1) % 2 ^ 64 }
IsCounted (some e) m after =
    after ≡ record m { received = (m.received + 1) % 2 ^ 64; errors = (m.errors + 1) % 2 ^ 64 }

count_sent-IsCounted :
    (failure : Option IoError) (m : MetricsStore)
    → IsCounted failure m (count_sent failure (inc_received m))
unfolding inc_received inc_forwarded inc_errors
count_sent-IsCounted none m = refl
count_sent-IsCounted (some e) m = refl

module _ (lib : JsonLibrary) where
  pub validate-no_panic : (v : Validator lib) (msg : SyslogMessage) → validate lib v msg ≢ panic
  unfolding validate
  validate-no_panic v msg = >>=-no_panic _ _ (json_part-no_panic v.input_cee msg.msg) (λ json.
      >>=-no_panic _ _ (read-no_panic (lib.from_str json)) (λ value h.
        elim (Bool-cases (is_object value)) [
          | inl object ↦ verdict-no_panic v.mode (schema_matches lib v value) (ground arith)
          | inr other ↦ ground arith
        ]))

  module _ {W : Type 0} (o : Outside W) where
    on_validated-IsBalanced :
        (v : Validator lib) (cfg : SessionConfig) (msg : SyslogMessage) (s : State W)
        (r : Outcome ValidationError (Unit {0}))
        → r ≢ panic
        → IsBalanced s.metrics
        → IsBalanced
            (on_validated o lib v cfg msg r (record s { metrics = inc_received s.metrics })).metrics
    unfolding on_validated report_rejection send
    on_validated-IsBalanced v cfg msg s (ok done) h b = count_sent-IsBalanced _ s.metrics b
    on_validated-IsBalanced v cfg msg s (err e) h b = dropped-IsBalanced s.metrics b
    on_validated-IsBalanced v cfg msg s panic h b = absurd (h refl)

    -- Handling a message keeps the balance of the counters: what was received is, modulo 2^64, the
    -- sum of what was forwarded, dropped, and failed to be sent.
    pub handle_message-IsBalanced :
        (v : Validator lib) (cfg : SessionConfig) (msg : SyslogMessage) (s : State W)
        → IsBalanced s.metrics
        → IsBalanced (handle_message o lib v cfg msg s).metrics
    unfolding handle_message
    handle_message-IsBalanced v cfg msg s b =
        on_validated-IsBalanced v cfg msg s (validate lib v msg) (validate-no_panic v msg) b

    -- One message went to the forwarder: as it was prepared, or rewritten where the daemon is the
    -- sender. It is counted by what the forwarder returned.
    pub record Forwards (v : Validator lib) (cfg : SessionConfig) (msg : SyslogMessage)
        (s after : State W) : Type 0 where
      pub accepted : Accepted lib v msg
      pub sent : SyslogMessage
      pub made :
          ((cfg.sender_mode ≡ original) × (sent ≡ prepare_for_forwarding lib v msg))
          ⊎ ((cfg.sender_mode ≡ logfenced)
              × (sent
                  ≡ rewrite_sender o.process_id
                      (prepare_for_forwarding lib v msg)
                      cfg.local_hostname))
      pub behind : after.forwarder ≡ (o.forward sent s.forwarder).1
      pub counted : IsCounted (o.forward sent s.forwarder).0 s.metrics after.metrics

    -- The forwarder got a report with the error that the validator gave, and the message is counted
    -- as received and dropped, whatever the forwarder returned.
    pub record Drops (v : Validator lib) (cfg : SessionConfig) (msg : SyslogMessage)
        (s after : State W) : Type 0 where
      pub refused : ¬ Accepted lib v msg
      pub error : ValidationError
      pub cause : validate lib v msg ≡ err error
      pub behind :
          after.forwarder
          ≡ (o.forward
              (record {
                priority = record { facility = syslog; severity = warning };
                timestamp = none;
                hostname = some cfg.local_hostname;
                app_name = some (codes "logfenced");
                proc_id = some (decimal o.process_id);
                msg_id = none;
                structured_data = codes "-";
                msg = o.print (dropped_payload cfg msg (validation_error_text error));
              })
              s.forwarder).1
      pub counted : after.metrics ≡ record s.metrics {
        received = (s.metrics.received + 1) % 2 ^ 64;
        dropped = (s.metrics.dropped + 1) % 2 ^ 64;
      }

    to_forward-made :
        (cfg : SessionConfig) (mode : SenderMode) (msg : SyslogMessage)
        → ((mode ≡ original) × (to_forward o cfg mode msg ≡ msg))
          ⊎ ((mode ≡ logfenced)
              × (to_forward o cfg mode msg ≡ rewrite_sender o.process_id msg cfg.local_hostname))
    unfolding to_forward
    to_forward-made cfg original msg = inl (refl, refl)
    to_forward-made cfg logfenced msg = inr (refl, refl)

    cases_on :
        (v : Validator lib) (cfg : SessionConfig) (msg : SyslogMessage) (s : State W)
        (r : Outcome ValidationError (Unit {0}))
        → validate lib v msg ≡ r
        → r ≢ panic
        → Forwards v cfg msg s
            (on_validated o lib v cfg msg r (record s { metrics = inc_received s.metrics }))
          ⊎ Drops v cfg msg s
              (on_validated o lib v cfg msg r (record s { metrics = inc_received s.metrics }))
    unfolding on_validated send report_rejection rejection_report inc_received inc_dropped
    cases_on v cfg msg s (ok done) h k =
        let sent = to_forward o cfg cfg.sender_mode (prepare_for_forwarding lib v msg) in
        inl (record {
          accepted = (validate_iff lib v msg).0 h;
          sent = sent;
          made = to_forward-made cfg cfg.sender_mode (prepare_for_forwarding lib v msg);
          behind = refl;
          counted = count_sent-IsCounted (o.forward sent s.forwarder).0 s.metrics;
        })
    cases_on v cfg msg s (err e) h k = inr (record {
      refused = λ a. cc (h, (validate_iff lib v msg).1 a);
      error = e;
      cause = h;
      behind = refl;
      counted = refl;
    })
    cases_on v cfg msg s panic h k = absurd (k refl)

    -- A message that the validator accepts goes to the forwarder as it was prepared, or rewritten
    -- where the daemon is the sender, and is counted as received, and as forwarded if the forwarder
    -- returned no error and as an error if it did. Of any other the forwarder gets only a report
    -- from the daemon with the validator's error, and it is counted as received and as dropped. The
    -- other counters are as they were.
    pub handle_message_cases :
        (v : Validator lib) (cfg : SessionConfig) (msg : SyslogMessage) (s : State W)
        → Forwards v cfg msg s (handle_message o lib v cfg msg s)
          ⊎ Drops v cfg msg s (handle_message o lib v cfg msg s)
    unfolding handle_message
    handle_message_cases v cfg msg s =
        cases_on v cfg msg s (validate lib v msg) refl (validate-no_panic v msg)
