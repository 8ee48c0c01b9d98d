-- ===== src/Tests/Canonical.antt =====
-- The theorem on canonical JSON for two messages.
use logfence.Prelude.{true, [], ◌≡◌, ◌≢◌, ◌↔◌, inl, inr, refl, some, codes, bytes_eq, if◌then◌else◌}
use logfence.Syslog.Types.{SyslogMessage}
use logfence.Daemon.Config.{off, strict, never}
use logfence.Daemon.Json.{Value, null, object, no_members, member, JsonLibrary}
use logfence.Daemon.Validator.{Validator, new_validator, prepare_for_forwarding}
use logfence.Daemon.Validator.Accept.{Accepted, Carries}
use logfence.Daemon.Validator.Canonical.{sorted_value}
use logfence.Daemon.Validator.Canonical.Reordered.{Reordered}
use logfence.Daemon.Validator.Canonical.Exact.{HasKeysOnce}
use logfence.Daemon.Validator.Canonical.Sent.{Prints, prepare_iff}
use logfence.Tests.Messages.{request}

abbrev a_then_b : Value
a_then_b = object (member (codes "a") null (member (codes "b") null no_members))

abbrev b_then_a : Value
b_then_a = object (member (codes "b") null (member (codes "a") null no_members))

-- A reader of two texts, and a printer of the first.
abbrev two_texts : JsonLibrary
two_texts = record {
  Schema = Unit {0};
  from_str = λ s. if bytes_eq s (codes "{b,a}") then inr b_then_a else inr a_then_b;
  to_string = λ v. some (codes "{a,b}");
  validator_for = λ v. inr tt;
  is_valid = λ s v. true;
}

abbrev sorting : Validator two_texts
sorting = record (new_validator two_texts off []) { canonical_json = true }

abbrev first : SyslogMessage
first = record request { msg = codes "{a,b}" }

abbrev second : SyslogMessage
second = record request { msg = codes "{b,a}" }

not_strict : off ≢ strict
not_strict e = cc

first-read : two_texts.from_str first.msg ≡ inr a_then_b
unfolding bytes_eq
first-read = refl

first-bare : Carries never first.msg first.msg
first-bare = inl (λ k. cc, λ r e. cc, refl)

abbrev first-Accepted : Accepted two_texts sorting first
first-Accepted = record {
  json = first.msg;
  value = a_then_b;
  carries = first-bare;
  reads = first-read;
  object_value = refl;
  matches = λ k. absurd (not_strict k);
}

second-read : two_texts.from_str second.msg ≡ inr b_then_a
unfolding bytes_eq
second-read = refl

second-bare : Carries never second.msg second.msg
second-bare = inl (λ k. cc, λ r e. cc, refl)

abbrev second-Accepted : Accepted two_texts sorting second
second-Accepted = record {
  json = second.msg;
  value = b_then_a;
  carries = second-bare;
  reads = second-read;
  object_value = refl;
  matches = λ k. absurd (not_strict k);
}

first-Prints : Prints two_texts (sorted_value a_then_b)
unfolding sorted_value bytes_eq logfence.Daemon.Validator.Canonical.insert_member
    logfence.Daemon.Validator.Canonical.compare_bytes
first-Prints = record { text = codes "{a,b}"; printed = refl; read = refl }

second-Prints : Prints two_texts (sorted_value b_then_a)
unfolding sorted_value bytes_eq logfence.Daemon.Validator.Canonical.insert_member
    logfence.Daemon.Validator.Canonical.compare_bytes
second-Prints = record { text = codes "{a,b}"; printed = refl; read = refl }

a_then_b-HasKeysOnce : HasKeysOnce a_then_b
unfolding HasKeysOnce
a_then_b-HasKeysOnce = ((λ e. cc, tt), tt, (tt, tt, tt))

b_then_a-HasKeysOnce : HasKeysOnce b_then_a
unfolding HasKeysOnce
b_then_a-HasKeysOnce = ((λ e. cc, tt), tt, (tt, tt, tt))

prepare_iff_example :
    ((prepare_for_forwarding two_texts sorting first).msg
      ≡ (prepare_for_forwarding two_texts sorting second).msg)
    ↔ Reordered a_then_b b_then_a
prepare_iff_example =
    prepare_iff two_texts sorting first second first-Accepted second-Accepted refl refl first-Prints
      second-Prints a_then_b-HasKeysOnce b_then_a-HasKeysOnce
