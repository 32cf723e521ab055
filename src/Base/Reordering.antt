-- ===== src/Base/Reordering.antt =====
-- Sorting by an order of rows: a list in order stays as it is.
use Prim.Native.Nat.{ℕ, Ordering, compare as compare_ℕ}
use Prim.Native.Char.{code}
use Prim.Native.String.{String, compare, then as first_of}
use Prim.Native.String.compare
use mathlib.Core.Path.{◌≡◌, refl, sym, ap, ◌∙◌}
use mathlib.Core.Bool.{Bool, true, false}
use mathlib.Core.Logic.{inl, inr}
use mathlib.Core.List.{List, [], ◌∷◌}
use native.Mathlib.Omega.{arith}
use mailproof.Base.Tests.{Bool-cases}
use mailproof.Base.Sorting.{text_less, place_by, sort_by}

is_lt : Ordering → Bool
is_lt Ordering.lt = true
is_lt _ = false

lt-then :
    (o p o' p' : Ordering)
    → (is_lt o ≡ true → o' ≡ Ordering.gt)
    → (o ≡ Ordering.eq → o' ≡ Ordering.eq)
    → (is_lt p ≡ true → p' ≡ Ordering.gt)
    → is_lt (first_of o p) ≡ true
    → first_of o' p' ≡ Ordering.gt
unfolding is_lt
lt-then Ordering.gt p o' p' f g h k = absurd (ground arith)
lt-then Ordering.eq p o' p' f g h k = rw (g refl) (h k)
lt-then Ordering.lt p o' p' f g h k = rw (f refl) refl

code_lt : (m n : ℕ) → is_lt (compare_ℕ m n) ≡ true → compare_ℕ n m ≡ Ordering.gt
unfolding is_lt
code_lt m n h = ground arith

code_eq : (m n : ℕ) → compare_ℕ m n ≡ Ordering.eq → compare_ℕ n m ≡ Ordering.eq
code_eq m n h = ground arith

not_lt_eq : is_lt Ordering.eq ≡ true → ⊥
unfolding is_lt
not_lt_eq h = cc

not_lt_gt : is_lt Ordering.gt ≡ true → ⊥
unfolding is_lt
not_lt_gt h = cc

compare_lt : (s t : String) → is_lt (compare s t) ≡ true → compare t s ≡ Ordering.gt
compare_lt String.[] String.[] h = absurd (not_lt_eq (ap is_lt (sym compare.nil-nil) ∙ h))
compare_lt String.[] (String.◌∷◌ d t) h = compare.cons-nil d t
compare_lt (String.◌∷◌ c s) String.[] h =
    absurd (not_lt_gt (ap is_lt (sym (compare.cons-nil c s)) ∙ h))
compare_lt (String.◌∷◌ c s) (String.◌∷◌ d t) h =
    compare.cons-cons d c t s
    ∙ lt-then (compare_ℕ (code c) (code d)) (compare s t) (compare_ℕ (code d) (code c))
        (compare t s) (code_lt (code c) (code d)) (code_eq (code c) (code d)) (compare_lt s t)
        (ap is_lt (sym (compare.cons-cons c d s t)) ∙ h)

pub text_less_asym : (s t : String) → text_less s t ≡ true → text_less t s ≡ false
unfolding is_lt
text_less_asym s t h = let e = compare_lt s t (ground (arith, h)) in ground (arith, e)

-- Sorting once more changes nothing.
module _ {A : Type 0} (less : A → A → Bool)
    (asym : (x y : A) → less x y ≡ true → less y x ≡ false) where
  abbrev After : A → List A → Type 0
  After x [] = Unit
  After x (y ∷ ys) = less y x ≡ false

  abbrev IsOrdered : List A → Type 0
  IsOrdered [] = Unit
  IsOrdered (x ∷ xs) = After x xs × IsOrdered xs

  place_by-After :
      (r x : A) (xs : List A) → less x r ≡ false → After r xs → After r (place_by less x xs)
  unfolding place_by
  place_by-After r x [] h k = h
  place_by-After r x (y ∷ ys) h k = elim (Bool-cases (less y x)) [ inl e ↦ rw e k | inr e ↦ rw e h ]

  place_by-IsOrdered : (x : A) (xs : List A) → IsOrdered xs → IsOrdered (place_by less x xs)
  unfolding place_by
  place_by-IsOrdered x [] h = (tt, tt)
  place_by-IsOrdered x (y ∷ ys) h = elim (Bool-cases (less y x)) [
    | inl e ↦ rw e (place_by-After y x ys (asym y x e) h.0, place_by-IsOrdered x ys h.1)
    | inr e ↦ rw e (e, h)
  ]

  sort_by-IsOrdered : (xs : List A) → IsOrdered (sort_by less xs)
  unfolding sort_by
  sort_by-IsOrdered [] = tt
  sort_by-IsOrdered (x ∷ xs) = place_by-IsOrdered x (sort_by less xs) (sort_by-IsOrdered xs)

  place_by-first : (x : A) (xs : List A) → After x xs → place_by less x xs ≡ x ∷ xs
  unfolding place_by
  place_by-first x [] h = refl
  place_by-first x (y ∷ ys) h = rw h refl

  sort_by-ordered : (xs : List A) → IsOrdered xs → sort_by less xs ≡ xs
  unfolding sort_by
  sort_by-ordered [] h = refl
  sort_by-ordered (x ∷ xs) h =
      ap (place_by less x) (sort_by-ordered xs h.1) ∙ place_by-first x xs h.0

  pub sort_by_idem : (xs : List A) → sort_by less (sort_by less xs) ≡ sort_by less xs
  sort_by_idem xs = sort_by-ordered (sort_by less xs) (sort_by-IsOrdered xs)
