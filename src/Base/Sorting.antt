-- ===== src/Base/Sorting.antt =====
-- Sorting by an order of rows: ORDER BY, sort.Strings and sort.Slice. Rows of one place keep their
-- order.
use Prim.Native.Nat.{Ordering}
use Prim.Native.String.{String, compare}
use mathlib.Core.Path.{◌≡◌, refl, ap, ◌∙◌}
use mathlib.Core.Bool.{Bool, true, false}
use mathlib.Core.Logic.{inl, inr}
use mathlib.Core.List.{List, [], ◌∷◌, map}
use mailproof.Base.Tests.{if◌then◌else◌, Bool-cases}

-- The order of the bytes of texts in UTF-8.
abbrev pub text_less : String → String → Bool
text_less s t = elim (compare s t) [ Ordering.lt ↦ true | _ ↦ false ]

module _ {A : Type 0} where
  unfoldable pub place_by : (A → A → Bool) → A → List A → List A
  place_by less x [] = x ∷ []
  place_by less x (y ∷ ys) =
      let rest = place_by less x ys in if less y x then y ∷ rest else x ∷ y ∷ ys

  unfoldable pub sort_by : (A → A → Bool) → List A → List A
  sort_by less [] = []
  sort_by less (x ∷ xs) = place_by less x (sort_by less xs)

  -- A SELECT with a WHERE.
  unfoldable pub select_rows : (A → Bool) → List A → List A
  select_rows p [] = []
  select_rows p (x ∷ xs) = let rest = select_rows p xs in if p x then x ∷ rest else rest

module _ {A B : Type 0} (less : A → A → Bool) (under : B → B → Bool) (f : A → B) where
  -- Values whose order the map keeps are sorted before it or after it.
  place_by-map :
      ((x y : A) → under (f x) (f y) ≡ less x y)
      → (x : A) (xs : List A) → place_by under (f x) (map f xs) ≡ map f (place_by less x xs)
  unfolding place_by
  place_by-map h x [] = refl
  place_by-map h x (y ∷ ys) = elim (Bool-cases (less y x)) [
    | inl e ↦ rw (h y x, e) (ap (λ t. f y ∷ t) (place_by-map h x ys))
    | inr e ↦ rw (h y x, e) refl
  ]

  pub sort_by-map :
      ((x y : A) → under (f x) (f y) ≡ less x y)
      → (xs : List A) → sort_by under (map f xs) ≡ map f (sort_by less xs)
  unfolding sort_by
  sort_by-map h [] = refl
  sort_by-map h (x ∷ xs) =
      ap (place_by under (f x)) (sort_by-map h xs) ∙ place_by-map h x (sort_by less xs)
