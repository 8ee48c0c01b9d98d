-- ===== src/Prelude/Results.antt =====
-- What a call of a fallible function comes to: `Ok`, `Err`, or a panic of the running task.
use mathlib.Core.Path.{◌≡◌, refl}
use mathlib.Core.Option.{Option, none, some}
use mathlib.Core.Logic.{◌⊎◌, inl, inr}
use mathlib.Core.Bool.{Bool, true, false}

pub data Outcome {ℓ} (E : Type 0) (A : Type ℓ) : Type ℓ where
  ok : A → Outcome E A
  err : E → Outcome E A
  panic : Outcome E A

-- `m?` and what the function goes on to do with its value.
infixl 5 ◌>>=◌ ◌>>◌
abbrev pub ◌>>=◌ {ℓ κ} :
    {A : Type ℓ} {B : Type κ} {E : Type 0} → Outcome E A → (A → Outcome E B) → Outcome E B
panic >>= next = panic
err reason >>= next = err reason
ok value >>= next = next value

abbrev pub ◌>>◌ {κ} : {B : Type κ} {E : Type 0} → Outcome E (Unit {0}) → Outcome E B → Outcome E B
first >> after = first >>= λ done. after

-- `if c { return Err(e); }`
abbrev pub reject_if : {E : Type 0} → Bool → E → Outcome E (Unit {0})
reject_if true e = err e
reject_if false e = ok tt

-- `ok_or_else`
abbrev pub ok_or {ℓ} : {E : Type 0} {A : Type ℓ} → Option A → E → Outcome E A
ok_or none e = err e
ok_or (some a) e = ok a

-- `map_err`
abbrev pub map_err {ℓ} : {E F : Type 0} {A : Type ℓ} → (E → F) → Outcome E A → Outcome F A
map_err f (ok a) = ok a
map_err f (err e) = err (f e)
map_err f panic = panic

-- If a chain returns a value, then so did its first part, and the rest went on from there.
pub >>=-eq-ok {ℓ κ} :
    {A : Type ℓ} {B : Type κ} {E : Type 0} {result : B} (first : Outcome E A)
    (next : A → Outcome E B)
    → (first >>= next) ≡ ok result
    → (value : A) × (first ≡ ok value) × (next value ≡ ok result)
>>=-eq-ok panic next h = absurd (cc)
>>=-eq-ok (err reason) next h = absurd (cc)
>>=-eq-ok (ok value) next h = (value, refl, h)

-- `Option::and_then`
abbrev pub and_then {ℓ κ} : {A : Type ℓ} {B : Type κ} → Option A → (A → Option B) → Option B
and_then none next = none
and_then (some value) next = next value

-- A `Result` of a call that does not panic.
abbrev pub of_result {ℓ} : {E : Type 0} {A : Type ℓ} → E ⊎ A → Outcome E A
of_result (inl e) = err e
of_result (inr a) = ok a
