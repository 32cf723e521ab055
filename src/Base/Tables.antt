-- ===== src/Base/Tables.antt =====
-- A table is a list of rows in insertion order. These are the statements that the program sends:
-- SELECT one row, SELECT COUNT(*), UPDATE … WHERE, and DELETE … WHERE.
use Prim.Native.Nat.{ℕ, ◌+◌, ◌<◌}
use mathlib.Core.Path.{◌≡◌, refl, subst}
use mathlib.Core.Logic.{inl, inr}
use mathlib.Core.Bool.{Bool, true, false, ◌||◌}
use mathlib.Core.Option.{Option, none, some}
use mathlib.Core.List.{List, [], ◌∷◌, ◌++◌}
use native.Mathlib.Omega.{arith}
use mailproof.Base.Tests.{if◌then◌else◌, Bool-cases}
use mailproof.Base.Lists.{All}

module _ {ℓ} {A : Type ℓ} where
  unfoldable pub any_row : (A → Bool) → List A → Bool
  any_row p [] = false
  any_row p (x ∷ xs) = p x || any_row p xs

  unfoldable pub find_row : (A → Bool) → List A → Option A
  find_row p [] = none
  find_row p (x ∷ xs) = let rest = find_row p xs in if p x then some x else rest

  unfoldable pub count_rows : (A → Bool) → List A → ℕ
  count_rows p [] = 0
  count_rows p (x ∷ xs) = (if p x then 1 else 0) + count_rows p xs

  unfoldable pub update_rows : (A → Bool) → (A → A) → List A → List A
  update_rows p f [] = []
  update_rows p f (x ∷ xs) = (if p x then f x else x) ∷ update_rows p f xs

  unfoldable pub delete_rows : (A → Bool) → List A → List A
  delete_rows p [] = []
  delete_rows p (x ∷ xs) = let rest = delete_rows p xs in if p x then rest else x ∷ rest

  pub any_row-append :
      (p : A → Bool) (xs ys : List A) → any_row p (xs ++ ys) ≡ (any_row p xs || any_row p ys)
  unfolding any_row
  any_row-append p [] ys = refl
  any_row-append p (x ∷ xs) ys = ground (arith, any_row-append p xs ys)

  pub count_rows-append :
      (p : A → Bool) (xs ys : List A) → count_rows p (xs ++ ys) ≡ count_rows p xs + count_rows p ys
  unfolding count_rows
  count_rows-append p [] ys = omega arith
  count_rows-append p (x ∷ xs) ys = ground (arith, count_rows-append p xs ys)

  pub any_row_never : (p : A → Bool) (xs : List A) → ((x : A) → p x ≡ false) → any_row p xs ≡ false
  unfolding any_row
  any_row_never p [] h = refl
  any_row_never p (x ∷ xs) h = rw (h x) (any_row_never p xs h)

  -- COUNT(*) is 0 exactly when no row matches.
  pub count_rows_zero : (p : A → Bool) (xs : List A) → any_row p xs ≡ false → count_rows p xs ≡ 0
  unfolding any_row count_rows
  count_rows_zero p [] h = refl
  count_rows_zero p (x ∷ xs) h = ground (arith, count_rows_zero p xs)

  pub count_rows_pos : (p : A → Bool) (xs : List A) → any_row p xs ≡ true → 0 < count_rows p xs
  unfolding any_row count_rows
  count_rows_pos p [] h = ground arith
  count_rows_pos p (x ∷ xs) h = ground (arith, count_rows_pos p xs)

  pub find_row-none : (p : A → Bool) (xs : List A) → any_row p xs ≡ false → find_row p xs ≡ none
  unfolding any_row find_row
  find_row-none p [] h = refl
  find_row-none p (x ∷ xs) h = ground (arith, find_row-none p xs)

  pub find_row-some : (p : A → Bool) (xs : List A) (a : A) → find_row p xs ≡ some a → p a ≡ true
  unfolding find_row
  find_row-some p [] a h = ground arith
  find_row-some p (x ∷ xs) a h = ground (arith, find_row-some p xs a)

  pub find_row-found :
      (p : A → Bool) (xs : List A) → any_row p xs ≡ true → (a : A) × (find_row p xs ≡ some a)
  unfolding any_row find_row
  find_row-found p [] h = ground arith
  find_row-found p (x ∷ xs) h = elim (Bool-cases (p x)) [
    | inl e ↦ (x, ground arith)
    | inr e ↦ let r = find_row-found p xs (ground arith) in (r.0, ground arith)
  ]

  -- An update that matches nothing changes nothing.
  pub update_rows_none :
      (p : A → Bool) (f : A → A) (xs : List A) → any_row p xs ≡ false → update_rows p f xs ≡ xs
  unfolding any_row update_rows
  update_rows_none p f [] h = refl
  update_rows_none p f (x ∷ xs) h = ground (arith, update_rows_none p f xs)

  -- A column that the update leaves alone is counted as before.
  pub count_rows-update :
      (q p : A → Bool) (f : A → A) (xs : List A)
      → ((x : A) → q (f x) ≡ q x)
      → count_rows q (update_rows p f xs) ≡ count_rows q xs
  unfolding count_rows update_rows
  count_rows-update q p f [] h = refl
  count_rows-update q p f (x ∷ xs) h = ground (arith, h x, count_rows-update q p f xs h)

  pub any_row-update :
      (q p : A → Bool) (f : A → A) (xs : List A)
      → ((x : A) → q (f x) ≡ q x)
      → any_row q (update_rows p f xs) ≡ any_row q xs
  unfolding any_row update_rows
  any_row-update q p f [] h = refl
  any_row-update q p f (x ∷ xs) h = ground (arith, h x, any_row-update q p f xs h)

module _ {ℓ κ} {A : Type ℓ} (P : A → Type κ) where
  -- A property of rows that the update keeps on the rows that it touches.
  pub All-update :
      (p : A → Bool) (f : A → A) (xs : List A)
      → ((x : A) → p x ≡ true → P x → P (f x))
      → All P xs
      → All P (update_rows p f xs)
  unfolding update_rows
  All-update p f [] k h = tt
  All-update p f (x ∷ xs) k h = elim (Bool-cases (p x)) [
    | inl e ↦ (rw e (k x e h.0), All-update p f xs k h.1)
    | inr e ↦ (rw e h.0, All-update p f xs k h.1)
  ]

  pub All-find : (p : A → Bool) (xs : List A) {a : A} → All P xs → find_row p xs ≡ some a → P a
  unfolding find_row
  All-find p [] h e = cc
  All-find p (x ∷ xs) h e = elim (Bool-cases (p x)) [
    | inl t ↦ subst P (ground arith) h.0
    | inr t ↦ All-find p xs h.1 (ground arith)
  ]
