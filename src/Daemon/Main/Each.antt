-- ===== src/Daemon/Main/Each.antt =====
-- Going through a list up to the first error, as `collect` into a `Result` and the loops of main.rs
-- do.
use logfence.Prelude.{List, [], ◌∷◌, ◌≡◌, ◌↔◌, sym, ap, ◌∙◌, subst, Outcome, ok, ◌>>=◌, >>=-eq-ok}

-- The lists have as many members, and each of the one is related to that of the other.
abbrev pub Each : {A B : Type 0} → (A → B → Type 0) → List A → List B → Type 0
Each R [] [] = Unit
Each R [] (y ∷ ys) = ⊥
Each R (x ∷ xs) [] = ⊥
Each R (x ∷ xs) (y ∷ ys) = R x y × Each R xs ys

-- A function of lists that goes through a list with `step` and stops at the first error.
module _ {A B E : Type 0} (step : A → Outcome E B) (all : List A → Outcome E (List B))
    (all_nil : all [] ≡ ok [])
    (all_cons : (x : A) (xs : List A)
      → all (x ∷ xs) ≡ (step x >>= λ y. all xs >>= λ ys. ok (y ∷ ys)))
    (R : A → B → Type 0) (step_iff : (x : A) (y : B) → (step x ≡ ok y) ↔ R x y) where
  Each-nil : (ys : List B) → [] ≡ ys → Each R [] ys
  Each-nil [] h = tt
  Each-nil (y ∷ ys) h = absurd (cc)

  Each-sound : (xs : List A) (ys : List B) → all xs ≡ ok ys → Each R xs ys
  Each-sound [] ys h = Each-nil ys (cc (all_nil, h))
  Each-sound (x ∷ xs) ys h =
      let (y, first, later) =
        >>=-eq-ok (step x) (λ d. all xs >>= λ ds. ok (d ∷ ds)) (sym (all_cons x xs) ∙ h) in
      let (rest, loaded, same) = >>=-eq-ok (all xs) (λ ds. ok (y ∷ ds)) later in
      let equal : y ∷ rest ≡ ys = cc in
      subst (Each R (x ∷ xs)) equal ((step_iff x y).0 first, Each-sound xs rest loaded)

  Each-complete : (xs : List A) (ys : List B) → Each R xs ys → all xs ≡ ok ys
  Each-complete [] [] h = all_nil
  Each-complete [] (y ∷ ys) h = absurd h
  Each-complete (x ∷ xs) [] h = absurd h
  Each-complete (x ∷ xs) (y ∷ ys) (hx, hs) =
      all_cons x xs
      ∙ ap (λ r. r >>= λ y2. all xs >>= λ ys2. ok (y2 ∷ ys2)) ((step_iff x y).1 hx)
      ∙ ap (λ r. r >>= λ ys2. ok (y ∷ ys2)) (Each-complete xs ys hs)

  pub Each-iff : (xs : List A) (ys : List B) → (all xs ≡ ok ys) ↔ Each R xs ys
  Each-iff xs ys = (Each-sound xs ys, Each-complete xs ys)

-- Through a list in the middle.
pub Each-compose :
    {A B C : Type 0} (R : A → B → Type 0) (S : B → C → Type 0) (T : A → C → Type 0)
    (both : (x : A) (y : B) (z : C) → R x y → S y z → T x z) (xs : List A) (ys : List B)
    (zs : List C)
    → Each R xs ys
    → Each S ys zs
    → Each T xs zs
Each-compose R S T both [] [] [] h k = tt
Each-compose R S T both [] [] (z ∷ zs) h k = absurd k
Each-compose R S T both [] (y ∷ ys) zs h k = absurd h
Each-compose R S T both (x ∷ xs) [] zs h k = absurd h
Each-compose R S T both (x ∷ xs) (y ∷ ys) [] h k = absurd k
Each-compose R S T both (x ∷ xs) (y ∷ ys) (z ∷ zs) (hx, h) (hz, k) =
    (both x y z hx hz, Each-compose R S T both xs ys zs h k)

pub Each-split :
    {A B C : Type 0} (R : A → B → Type 0) (S : B → C → Type 0) (T : A → C → Type 0)
    (middle : (x : A) (z : C) → T x z → (y : B) × R x y × S y z) (xs : List A) (zs : List C)
    → Each T xs zs
    → (ys : List B) × Each R xs ys × Each S ys zs
Each-split R S T middle [] [] h = ([], tt, tt)
Each-split R S T middle [] (z ∷ zs) h = absurd h
Each-split R S T middle (x ∷ xs) [] h = absurd h
Each-split R S T middle (x ∷ xs) (z ∷ zs) (hx, h) =
    let (y, r, s) = middle x z hx in
    let (ys, rs, ss) = Each-split R S T middle xs zs h in (y ∷ ys, (r, rs), (s, ss))
