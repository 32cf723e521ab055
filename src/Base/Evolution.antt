-- ===== src/Base/Evolution.antt =====
-- How a table may change: each row goes on as a related one at its place, and rows are appended.
use mathlib.Core.Path.{◌≡◌, ◌∙◌, subst}
use mathlib.Core.Bool.{Bool, true}
use mathlib.Core.Option.{some}
use mathlib.Core.Logic.{inl, inr}
use mathlib.Core.List.{List, [], ◌∷◌, ◌++◌}
use native.Mathlib.Omega.{arith}
use mailproof.Base.Tests.{Bool-cases}
use mailproof.Base.Tables.{find_row, update_rows}

module _ {ℓ} {A : Type ℓ} (R : A → A → Type 0) where
  abbrev pub Evolves : List A → List A → Type 0
  Evolves [] ys = Unit
  Evolves (x ∷ xs) [] = ⊥
  Evolves (x ∷ xs) (y ∷ ys) = R x y × Evolves xs ys

  pub Evolves-append : (r : (x : A) → R x x) (xs ys : List A) → Evolves xs (xs ++ ys)
  Evolves-append r [] ys = tt
  Evolves-append r (x ∷ xs) ys = (r x, Evolves-append r xs ys)

  pub Evolves-refl : (r : (x : A) → R x x) (xs : List A) → Evolves xs xs
  Evolves-refl r [] = tt
  Evolves-refl r (x ∷ xs) = (r x, Evolves-refl r xs)

  pub Evolves-trans :
      (t : (x y z : A) → R x y → R y z → R x z) (xs ys zs : List A)
      → Evolves xs ys
      → Evolves ys zs
      → Evolves xs zs
  Evolves-trans t [] ys zs h k = tt
  Evolves-trans t (x ∷ xs) [] zs h k = absurd h
  Evolves-trans t (x ∷ xs) (y ∷ ys) [] h k = absurd k
  Evolves-trans t (x ∷ xs) (y ∷ ys) (z ∷ zs) h k =
      (t x y z h.0 k.0, Evolves-trans t xs ys zs h.1 k.1)

  pub Evolves-update :
      (r : (x : A) → R x x) (p : A → Bool) (f : A → A) (xs : List A)
      → ((x : A) → p x ≡ true → R x (f x))
      → Evolves xs (update_rows p f xs)
  unfolding update_rows
  Evolves-update r p f [] k = tt
  Evolves-update r p f (x ∷ xs) k = elim (Bool-cases (p x)) [
    | inl e ↦ (rw e (k x e), Evolves-update r p f xs k)
    | inr e ↦ (rw e (r x), Evolves-update r p f xs k)
  ]

  -- A row that a stable key finds is found again, and has evolved.
  pub Evolves-find :
      (q : A → Bool) (xs ys : List A) (x : A)
      → ((a b : A) → R a b → q b ≡ q a)
      → Evolves xs ys
      → find_row q xs ≡ some x
      → (y : A) × (find_row q ys ≡ some y) × R x y
  unfolding find_row
  Evolves-find q [] ys x s h e = absurd (cc)
  Evolves-find q (a ∷ xs) [] x s h e = absurd h
  Evolves-find q (a ∷ xs) (b ∷ ys) x s h e = elim (Bool-cases (q a)) [
    | inl t ↦ (b, rw (s a b h.0 ∙ t), subst (λ c. R c b) (ground arith) h.0)
    | inr f ↦
        let rest = Evolves-find q xs ys x s h.1 (ground arith) in
        (rest.0, rw (s a b h.0 ∙ f) rest.1, rest.2)
  ]
