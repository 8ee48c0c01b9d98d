-- ===== src/Daemon/Main/Keyed.antt =====
-- Lists of keyed entries in another order.
use mathlib.Core.List.{Permᴰ}
use mathlib.Core.List.Permᴰ.{nil, cons, swap, trans}
use logfence.Prelude.{List, [], ◌∷◌, ◌≢◌, refl, sym, ap, ◌∙◌, subst, Bytes}
use logfence.Daemon.Main.Each.{Each}

abbrev pub keys : {A : Type 0} → List (Bytes × A) → List Bytes
keys [] = []
keys ((k, x) ∷ rest) = k ∷ keys rest

abbrev pub NotIn : Bytes → List Bytes → Type 0
NotIn k [] = Unit
NotIn k (l ∷ rest) = (k ≢ l) × NotIn k rest

-- Each key stands once.
abbrev pub Once : List Bytes → Type 0
Once [] = Unit
Once (k ∷ rest) = NotIn k rest × Once rest

module _ {A : Type 0} where
  NotIn-Perm :
      (k : Bytes) {xs ys : List (Bytes × A)} → Permᴰ xs ys → NotIn k (keys xs) → NotIn k (keys ys)
  NotIn-Perm k nil h = tt
  NotIn-Perm k (cons e p) (apart, h) = (subst (λ x. k ≢ x.0) e apart, NotIn-Perm k p h)
  NotIn-Perm k (swap e f) (apart, (other, h)) =
      (subst (λ x. k ≢ x.0) f other, (subst (λ x. k ≢ x.0) e apart, h))
  NotIn-Perm k (trans p q) h = NotIn-Perm k q (NotIn-Perm k p h)

  pub Once-Perm : {xs ys : List (Bytes × A)} → Permᴰ xs ys → Once (keys xs) → Once (keys ys)
  Once-Perm nil h = tt
  Once-Perm (cons {l₂ = ys} e p) (alone, h) =
      (subst (λ x. NotIn x.0 (keys ys)) e (NotIn-Perm _ p alone), Once-Perm p h)
  Once-Perm (swap {l = rest} e f) ((apart, alone), (other, h)) = (
    (
      (λ same. apart (ap (λ x. x.0) e ∙ sym same ∙ sym (ap (λ x. x.0) f))),
      subst (λ x. NotIn x.0 (keys rest)) f other,
    ),
    (subst (λ x. NotIn x.0 (keys rest)) e alone, h),
  )
  Once-Perm (trans p q) h = Once-Perm q (Once-Perm p h)

  -- The lists in the same other order are still related.
  pub Each-Perm :
      {B : Type 0} (R : A → B → Type 0) {xs ys : List A}
      → Permᴰ xs ys
      → (zs : List B) → Each R xs zs
      → (ws : List B) × Permᴰ zs ws × Each R ys ws
  Each-Perm R nil [] h = ([], nil, tt)
  Each-Perm R nil (z ∷ zs) h = absurd h
  Each-Perm R (cons e p) [] h = absurd h
  Each-Perm R (cons e p) (z ∷ zs) (hz, h) =
      let (ws, q, k) = Each-Perm R p zs h in (z ∷ ws, cons refl q, (subst (λ x. R x z) e hz, k))
  Each-Perm R (swap e f) [] h = absurd h
  Each-Perm R (swap e f) (z ∷ []) (hz, h) = absurd h
  Each-Perm R (swap e f) (z ∷ y ∷ zs) (hz, (hy, h)) =
      (y ∷ z ∷ zs, swap refl refl, (subst (λ x. R x y) f hy, (subst (λ x. R x z) e hz, h)))
  Each-Perm R (trans p q) zs h =
      let (ws, p2, k) = Each-Perm R p zs h in
      let (vs, q2, l) = Each-Perm R q ws k in (vs, trans p2 q2, l)
