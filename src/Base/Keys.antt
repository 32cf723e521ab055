-- ===== src/Base/Keys.antt =====
-- Tables with a unique key: `same x y` says that two rows have one key.
use mathlib.Core.Path.{◌≡◌, refl, ◌∙◌}
use mathlib.Core.Bool.{◌&&◌, Bool, true, false}
use mathlib.Core.Logic.{inl, inr}
use mathlib.Core.List.{List, [], ◌∷◌, ◌++◌}
use Prim.Native.Nat.{◌≤◌}
use native.Mathlib.Omega.{arith}
use mailproof.Base.Tests.{Bool-cases}
use mailproof.Base.Tables.{
  any_row, count_rows, update_rows, any_row-append, any_row-update, count_rows_zero,
}

module _ {ℓ} {A : Type ℓ} where
  -- No later row has the key of an earlier one.
  abbrev pub Unique : (A → A → Bool) → List A → Type 0
  Unique same [] = Unit
  Unique same (x ∷ xs) = (any_row (same x) xs ≡ false) × Unique same xs

  pub any_row-ext :
      (p q : A → Bool) (xs : List A) → ((x : A) → p x ≡ q x) → any_row p xs ≡ any_row q xs
  unfolding any_row
  any_row-ext p q [] h = refl
  any_row-ext p q (x ∷ xs) h = ground (arith, h x, any_row-ext p q xs h)

  pub Unique-append :
      (same : A → A → Bool) (xs : List A) (a : A)
      → ((x y : A) → same x y ≡ same y x)
      → Unique same xs
      → any_row (same a) xs ≡ false
      → Unique same (xs ++ a ∷ [])
  unfolding any_row
  Unique-append same [] a s u h = (refl, tt)
  Unique-append same (x ∷ xs) a s u h = (
    ground (arith, any_row-append (same x) xs (a ∷ []), s x a),
    Unique-append same xs a s u.1 (ground arith),
  )

  pub Unique-update :
      (same : A → A → Bool) (p : A → Bool) (f : A → A) (xs : List A)
      → ((x y : A) → same (f x) y ≡ same x y)
      → ((x y : A) → same x (f y) ≡ same x y)
      → Unique same xs
      → Unique same (update_rows p f xs)
  unfolding update_rows
  Unique-update same p f [] l r u = tt
  Unique-update same p f (x ∷ xs) l r u =
      let tail = Unique-update same p f xs l r u.1 in
      elim (Bool-cases (p x)) [
        | inl e ↦ (
          rw e (
              any_row-update (same (f x)) p f xs (r (f x))
              ∙ any_row-ext (same (f x)) (same x) xs (l x)
              ∙ u.0),
          tail,
        )
        | inr e ↦ (rw e (any_row-update (same x) p f xs (r x) ∙ u.0), tail)
      ]

  -- Rows of a key that is absent do not match.
  pub any_row-weaken :
      (p q : A → Bool) (xs : List A)
      → ((x : A) → p x ≡ true → q x ≡ true)
      → any_row q xs ≡ false
      → any_row p xs ≡ false
  unfolding any_row
  any_row-weaken p q [] k h = refl
  any_row-weaken p q (x ∷ xs) k h = elim (Bool-cases (p x)) [
    | inl e ↦ ground (arith, k x e)
    | inr e ↦ rw e (any_row-weaken p q xs k (ground arith))
  ]

  -- Rows that match are among those of one key, so there is one of them at most.
  pub count_rows-Unique :
      (same : A → A → Bool) (p : A → Bool) (xs : List A)
      → ((x y : A) → p x ≡ true → p y ≡ true → same x y ≡ true)
      → Unique same xs
      → count_rows p xs ≤ 1
  unfolding count_rows
  count_rows-Unique same p [] k u = omega arith
  count_rows-Unique same p (x ∷ xs) k u = elim (Bool-cases (p x)) [
    | inl e ↦
        rw e (
          omega (arith, count_rows_zero p xs (any_row-weaken p (same x) xs (λ y t. k x y e t) u.0)))
    | inr e ↦ rw e (omega (arith, count_rows-Unique same p xs k u.1))
  ]

  -- A row of a key that matches `p`, and one of it that matches `q`, are one row.
  pub Unique-meet :
      (same : A → A → Bool) (p q : A → Bool) (xs : List A)
      → ((x y : A) → p x ≡ true → q y ≡ true → same x y ≡ true)
      → ((x y : A) → same x y ≡ same y x)
      → Unique same xs
      → any_row p xs ≡ true
      → any_row q xs ≡ true
      → any_row (λ x. p x && q x) xs ≡ true
  unfolding any_row
  Unique-meet same p q [] k s u h l = h
  Unique-meet same p q (x ∷ xs) k s u h l = elim (Bool-cases (p x)) [
    | inl e ↦ ground (arith, any_row-weaken q (same x) xs (λ y t. k x y e t) u.0)
    | inr e ↦ elim (Bool-cases (q x)) [
      | inl f ↦ ground (arith, any_row-weaken p (same x) xs (λ y t. s x y ∙ k y x t f) u.0)
      | inr f ↦ ground (arith, Unique-meet same p q xs k s u.1)
    ]
  ]
