-- ===== src/Base/Moves.antt =====
-- Updates that change a key: when the rows stay unique.
use mathlib.Core.Path.{◌≡◌, refl}
use mathlib.Core.Bool.{Bool, false}
use mathlib.Core.Logic.{inl, inr, ◌⊎◌}
use mathlib.Core.List.{List, [], ◌∷◌}
use native.Mathlib.Omega.{arith}
use mailproof.Base.Tests.{if◌then◌else◌}
use mailproof.Base.Tables.{any_row, update_rows}
use mailproof.Base.Keys.{Unique}

module _ {A : Type 0} where
  -- A row of the list.
  abbrev pub In : A → List A → Type 0
  In a [] = ⊥
  In a (x ∷ xs) = (x ≡ a) ⊎ In a xs

  pub any_row-In :
      (p : A → Bool) (a : A) (xs : List A) → In a xs → any_row p xs ≡ false → p a ≡ false
  unfolding any_row
  any_row-In p a [] m h = absurd m
  any_row-In p a (x ∷ xs) (inl e) h = rw (← e) (ground arith)
  any_row-In p a (x ∷ xs) (inr m) h = any_row-In p a xs m (ground arith)

  abbrev pub updated : (A → Bool) → (A → A) → A → A
  updated p f x = if p x then f x else x

  any_row-image :
      (q r p : A → Bool) (f : A → A) (xs : List A)
      → ((y : A) → In y xs → q y ≡ false → r (updated p f y) ≡ false)
      → any_row q xs ≡ false
      → any_row r (update_rows p f xs) ≡ false
  unfolding any_row update_rows
  any_row-image q r p f [] k h = refl
  any_row-image q r p f (x ∷ xs) k h =
      ground (arith, k x (inl refl), any_row-image q r p f xs (λ y m. k y (inr m)))

  -- An update after which no two rows meet that did not meet before.
  pub Unique-image :
      (same : A → A → Bool) (p : A → Bool) (f : A → A) (xs : List A)
      → ((x y : A)
          → In x xs
          → In y xs
          → same x y ≡ false
          → same (updated p f x) (updated p f y) ≡ false)
      → Unique same xs
      → Unique same (update_rows p f xs)
  unfolding update_rows
  Unique-image same p f [] k u = tt
  Unique-image same p f (x ∷ xs) k u = (
    any_row-image (same x) (same (updated p f x)) p f xs (λ y m. k x y (inl refl) (inr m)) u.0,
    Unique-image same p f xs (λ a b m n. k a b (inr m) (inr n)) u.1,
  )
