-- ===== src/Syslog/Priority.antt =====
-- The PRI value: `Facility`, `Severity` and `Priority` and their integers.
pub mod Exact
use logfence.Prelude.{
  ℕ, ◌/◌, ◌%◌, ◌≤◌, ◌<◌, ◌≡◌, refl, arith, Outcome, Bool, true, false, ok, err, panic, Bool-cases,
  inl, inr, ap, ◌∙◌, ltb, ◌==◌, ==→eq, tests_below, tests_below_sound, le→ltb, lt→ltb,
}
use logfence.Text.{decimal}
use logfence.Syslog.Types.{
  Facility, Severity, Priority, ParseError, invalid_priority, facility_from_integer, facility_code,
  severity_from_integer, severity_code, priority_from_integer, as_integer,
}

pub facility_code-lt : (f : Facility) → facility_code f < 24
unfolding facility_code
facility_code-lt Facility.kern = omega arith
facility_code-lt _ = omega arith

pub severity_code-lt : (s : Severity) → severity_code s < 8
unfolding severity_code
severity_code-lt Severity.emergency = omega arith
severity_code-lt _ = omega arith

facility_round_trip : (f : Facility) → facility_from_integer (facility_code f) ≡ ok f
unfolding facility_from_integer facility_code
facility_round_trip Facility.kern = refl
facility_round_trip _ = refl

severity_round_trip : (s : Severity) → severity_from_integer (severity_code s) ≡ s
unfolding severity_from_integer severity_code
severity_round_trip Severity.emergency = refl
severity_round_trip _ = refl

-- `n` is read as a facility whose code is `n`.
abbrev reads_back : ℕ → Outcome ParseError Facility → Bool
reads_back n (ok f) = facility_code f == n
reads_back n (err e) = false
reads_back n panic = false

reads_back_sound :
    (n : ℕ) (o : Outcome ParseError Facility)
    → reads_back n o ≡ true
    → (f : Facility) × (o ≡ ok f) × (facility_code f ≡ n)
reads_back_sound n (ok f) h = (f, refl, ==→eq (facility_code f) n h)
reads_back_sound n (err e) h = absurd (cc)
reads_back_sound n panic h = absurd (cc)

facility_table : tests_below (λ n. reads_back n (facility_from_integer n)) 24 ≡ true
unfolding tests_below facility_from_integer facility_code
facility_table = refl

pub facility_total :
    (n : ℕ) → n < 24 → (f : Facility) × (facility_from_integer n ≡ ok f) × (facility_code f ≡ n)
facility_total n h = reads_back_sound n _ (tests_below_sound _ 24 n h facility_table)

pub severity_exact : (n : ℕ) → n < 8 → severity_code (severity_from_integer n) ≡ n
unfolding severity_from_integer severity_code
severity_exact n h = ground arith

pub as_integer-le : (p : Priority) → as_integer p ≤ 191
unfolding as_integer
as_integer-le p = omega (arith, facility_code-lt p.facility, severity_code-lt p.severity)

pub as_integer-parts :
    (p : Priority)
    → (as_integer p / 8 ≡ facility_code p.facility) × (as_integer p % 8 ≡ severity_code p.severity)
unfolding as_integer
as_integer-parts p =
    let f = facility_code-lt p.facility in
    let s = severity_code-lt p.severity in (omega arith, omega arith)

-- Every priority is read back from its PRI value.
pub priority_round_trip : (p : Priority) → priority_from_integer (as_integer p) ≡ ok p
unfolding priority_from_integer
priority_round_trip p =
    let (f, s) = as_integer-parts p in
    rw (le→ltb 191 (as_integer p) (as_integer-le p))
      (rw (f, s, facility_round_trip p.facility, severity_round_trip p.severity))

-- `from_integer` accepts exactly 0 to 191: such a value is the PRI value of the priority that is
-- returned, and any greater one is refused with its decimal print in the error.
pub priority_from_integer_exact :
    (pri : ℕ)
    → (pri ≤ 191 → (p : Priority) × (priority_from_integer pri ≡ ok p) × (as_integer p ≡ pri))
      × (191 < pri → priority_from_integer pri ≡ err (invalid_priority (decimal pri)))
unfolding priority_from_integer as_integer
priority_from_integer_exact pri = (
  (λ h.
      let (f, found, code) = facility_total (pri / 8) (omega arith) in
      (
        record { facility = f; severity = severity_from_integer (pri % 8) },
        rw (le→ltb 191 pri h) (rw found),
        omega (arith, code, severity_exact (pri % 8) (omega arith)),
      )),
  (λ h. rw (lt→ltb 191 pri h)),
)

facility_from_integer-large :
    (n : ℕ) → 24 ≤ n → facility_from_integer n ≡ err (invalid_priority (decimal n))
unfolding facility_from_integer
facility_from_integer-large n h = ground arith

-- A code that is read as a facility is that facility's.
pub facility_from_integer-eq-ok :
    (n : ℕ) (f : Facility) → facility_from_integer n ≡ ok f → (n < 24) × (facility_code f ≡ n)
facility_from_integer-eq-ok n f h = elim (Bool-cases (ltb n 24)) [
  | inl small ↦
      let below : n < 24 = ground arith in
      let (g, total, code) = facility_total n below in (below, ap facility_code (cc) ∙ code)
  | inr large ↦ absurd (cc (h, facility_from_integer-large n (ground arith)))
]
