-- ===== src/Syslog/Priority/Exact.antt =====
-- The priorities and their PRI values.
use std.Equiv.{IsEquiv, Iso, iso_to_equiv}
use mathlib.Core.HLevel.{Σ_prop_path}
use native.Mathlib.Bridge.{le_prop}
use logfence.Prelude.{
  ℕ, zero, suc, ◌/◌, ◌%◌, ◌≤◌, ◌≡◌, refl, sym, ap, ◌∙◌, subst, arith, Bool-cases, inl, inr, leb,
  List, [], ◌∷◌, Option, none, some, length, Outcome, ok, err,
}
use logfence.Text.{decimal}
use logfence.Syslog.Types.{
  Facility, Severity, Priority, ParseError, invalid_priority, facility_code, severity_code,
  priority_from_integer, as_integer,
}
use logfence.Syslog.Priority.{
  as_integer-le, as_integer-parts, priority_round_trip, priority_from_integer_exact,
}

-- The numbers that are PRI values.
abbrev pub Pri : Type 0
Pri = (pri : ℕ) × (pri ≤ 191)

Pri-eq : (x y : Pri) → x.0 ≡ y.0 → x ≡ y
Pri-eq x y e = Σ_prop_path (λ n. le_prop) e

abbrev pub pri_of : Priority → Pri
pri_of p = (as_integer p, as_integer-le p)

abbrev priority_of : Pri → Priority
priority_of (pri, h) = ((priority_from_integer_exact pri).0 h).0

priority_of-pri_of : (p : Priority) → priority_of (pri_of p) ≡ p
priority_of-pri_of p =
    let (q, found, code) = (priority_from_integer_exact (as_integer p)).0 (as_integer-le p) in
    cc (found, priority_round_trip p)

abbrev pri_Iso : Iso Priority Pri
pri_Iso = record {
  fun = pri_of;
  inv = priority_of;
  rinv = λ (pri, h).
      Pri-eq (pri_of (priority_of (pri, h))) (pri, h) ((priority_from_integer_exact pri).0 h).2;
  linv = priority_of-pri_of;
}

-- RFC 5424, tables 1 and 2, from code 0.
abbrev pub facilities : List Facility
facilities =
    Facility.kern ∷ Facility.user ∷ Facility.mail ∷ Facility.daemon ∷ Facility.auth
    ∷ Facility.syslog ∷ Facility.lpr ∷ Facility.news ∷ Facility.uucp ∷ Facility.cron
    ∷ Facility.auth_priv ∷ Facility.ftp ∷ Facility.ntp ∷ Facility.log_audit ∷ Facility.log_alert
    ∷ Facility.clock ∷ Facility.local0 ∷ Facility.local1 ∷ Facility.local2 ∷ Facility.local3
    ∷ Facility.local4 ∷ Facility.local5 ∷ Facility.local6 ∷ Facility.local7 ∷ []

abbrev pub severities : List Severity
severities =
    Severity.emergency ∷ Severity.alert ∷ Severity.critical ∷ Severity.error ∷ Severity.warning
    ∷ Severity.notice ∷ Severity.info ∷ Severity.debug ∷ []

abbrev pub at : {A : Type 0} → List A → ℕ → Option A
at [] n = none
at (x ∷ xs) zero = some x
at (x ∷ xs) (suc n) = at xs n

-- What the tables make of a number: the facility at its quotient by 8 and the severity at the rest,
-- or an error that shows the number.
abbrev pub table_entry : ℕ → Option Facility → Option Severity → Outcome ParseError Priority
table_entry pri (some f) (some s) = ok (record { facility = f; severity = s })
table_entry pri none s = err (invalid_priority (decimal pri))
table_entry pri (some f) none = err (invalid_priority (decimal pri))

abbrev pub from_tables : ℕ → Outcome ParseError Priority
from_tables pri = table_entry pri (at facilities (pri / 8)) (at severities (pri % 8))

facility_at : (f : Facility) → at facilities (facility_code f) ≡ some f
unfolding facility_code
facility_at Facility.kern = refl
facility_at _ = refl

severity_at : (s : Severity) → at severities (severity_code s) ≡ some s
unfolding severity_code
severity_at Severity.emergency = refl
severity_at _ = refl

at-none : {A : Type 0} (xs : List A) (n : ℕ) → length xs ≤ n → at xs n ≡ none
at-none [] n h = refl
at-none (x ∷ xs) zero h = absurd (omega (arith, h))
at-none (x ∷ xs) (suc n) h = at-none xs n (omega (arith, h))

from_tables-as_integer : (p : Priority) → from_tables (as_integer p) ≡ ok p
from_tables-as_integer p =
    let (f, s) = as_integer-parts p in
    rw (f, s) (rw (facility_at p.facility, severity_at p.severity))

priority_from_integer-tables : (pri : ℕ) → priority_from_integer pri ≡ from_tables pri
priority_from_integer-tables pri = elim (Bool-cases (leb pri 191)) [
  | inl small ↦
      let (p, found, code) = (priority_from_integer_exact pri).0 (ground arith) in
      found ∙ sym (subst (λ n. from_tables n ≡ ok p) code (from_tables-as_integer p))
  | inr large ↦
      (priority_from_integer_exact pri).1 (ground arith)
      ∙ sym (
          ap (λ f. table_entry pri f (at severities (pri % 8)))
            (at-none facilities (pri / 8) (ground arith)))
]

-- The PRI value is an equivalence between the priorities and the numbers up to 191: each of them is
-- the value of one priority, and of no other. `from_integer` returns for every number what the
-- tables of RFC 5424 have for it, the facility at the quotient by 8 and the severity at the rest,
-- or an error with the number where the tables end; and it reads every priority back from its PRI
-- value.
pub pri_of-IsEquiv :
    (pri : ℕ) (p : Priority)
    → IsEquiv pri_of
      × (priority_from_integer pri ≡ from_tables pri)
      × (priority_from_integer (as_integer p) ≡ ok p)
      × (from_tables (as_integer p) ≡ ok p)
pri_of-IsEquiv pri p = (
  (iso_to_equiv pri_Iso).1,
  priority_from_integer-tables pri,
  priority_round_trip p,
  from_tables-as_integer p,
)
