-- ===== src/Evidence/Canonical.antt =====
-- internal/evidence: the lists of a verdict are in order, so that CanonicalDecision changes nothing.
use Prim.Native.Nat.{Ordering, compare as compare_ℕ}
use Prim.Native.Char.{code}
use Prim.Native.String.{compare, then as first_of}
use Prim.Native.String.compare
use mailproof.Base.{
  ℕ, ◌≡◌, refl, sym, ap, ◌∙◌, String, Bool, true, false, List, [], ◌∷◌, arith, Bool-cases, inl, inr,
}
use mailproof.Evidence.Records.{Evidence, Contradiction, AuthScope}
use mailproof.Evidence.Policy.{
  weigh_all, no_signals, material_ids, any_material, decide, place, sort, text_before, rule,
  canonical,
}

is_gt : Ordering → Bool
is_gt Ordering.gt = true
is_gt _ = false

gt-then :
    (o p o' p' : Ordering)
    → (is_gt o ≡ true → o' ≡ Ordering.lt)
    → (o ≡ Ordering.eq → o' ≡ Ordering.eq)
    → (is_gt p ≡ true → p' ≡ Ordering.lt)
    → is_gt (first_of o p) ≡ true
    → first_of o' p' ≡ Ordering.lt
unfolding is_gt
gt-then Ordering.lt p o' p' f g h k = absurd (ground arith)
gt-then Ordering.eq p o' p' f g h k = rw (g refl) (h k)
gt-then Ordering.gt p o' p' f g h k = rw (f refl) refl

code_gt : (m n : ℕ) → is_gt (compare_ℕ m n) ≡ true → compare_ℕ n m ≡ Ordering.lt
unfolding is_gt
code_gt m n h = ground arith

code_eq : (m n : ℕ) → compare_ℕ m n ≡ Ordering.eq → compare_ℕ n m ≡ Ordering.eq
code_eq m n h = ground arith

not_gt_eq : is_gt Ordering.eq ≡ true → ⊥
unfolding is_gt
not_gt_eq h = cc

not_gt_lt : is_gt Ordering.lt ≡ true → ⊥
unfolding is_gt
not_gt_lt h = cc

compare_gt : (s t : String) → is_gt (compare s t) ≡ true → compare t s ≡ Ordering.lt
compare_gt String.[] String.[] h = absurd (not_gt_eq (ap is_gt (sym compare.nil-nil) ∙ h))
compare_gt String.[] (String.◌∷◌ d t) h =
    absurd (not_gt_lt (ap is_gt (sym (compare.nil-cons d t)) ∙ h))
compare_gt (String.◌∷◌ c s) String.[] h = compare.nil-cons c s
compare_gt (String.◌∷◌ c s) (String.◌∷◌ d t) h =
    compare.cons-cons d c t s
    ∙ gt-then (compare_ℕ (code c) (code d)) (compare s t) (compare_ℕ (code d) (code c))
        (compare t s) (code_gt (code c) (code d)) (code_eq (code c) (code d)) (compare_gt s t)
        (ap is_gt (sym (compare.cons-cons c d s t)) ∙ h)

text_before_total : (s t : String) → text_before s t ≡ false → text_before t s ≡ true
unfolding is_gt
text_before_total s t h = ground (arith, compare_gt s t)

-- Each text stands before the next.
abbrev After : String → List String → Type 0
After s [] = Unit
After s (t ∷ ts) = text_before s t ≡ true

abbrev pub IsSorted : List String → Type 0
IsSorted [] = Unit
IsSorted (s ∷ ss) = After s ss × IsSorted ss

place-After :
    (r s : String) (ss : List String) → text_before r s ≡ true → After r ss → After r (place s ss)
unfolding place
place-After r s [] h k = h
place-After r s (t ∷ ts) h k = elim (Bool-cases (text_before s t)) [
  | inl e ↦ rw e h
  | inr e ↦ rw e k
]

place-IsSorted : (s : String) (ss : List String) → IsSorted ss → IsSorted (place s ss)
unfolding place
place-IsSorted s [] h = (tt, tt)
place-IsSorted s (t ∷ ts) h = elim (Bool-cases (text_before s t)) [
  | inl e ↦ rw e (e, h)
  | inr e ↦ rw e (place-After t s ts (text_before_total s t e) h.0, place-IsSorted s ts h.1)
]

sort-IsSorted : (ss : List String) → IsSorted (sort ss)
unfolding sort
sort-IsSorted [] = tt
sort-IsSorted (s ∷ ss) = place-IsSorted s (sort ss) (sort-IsSorted ss)

place-least : (s : String) (ss : List String) → After s ss → place s ss ≡ s ∷ ss
unfolding place
place-least s [] h = refl
place-least s (t ∷ ts) h = rw h refl

sort-sorted : (ss : List String) → IsSorted ss → sort ss ≡ ss
unfolding sort
sort-sorted [] h = refl
sort-sorted (s ∷ ss) h = ap (place s) (sort-sorted ss h.1) ∙ place-least s ss h.0

sort_idem : (ss : List String) → sort (sort ss) ≡ sort ss
sort_idem ss = sort-sorted (sort ss) (sort-IsSorted ss)

-- The lists of a verdict of Decide are in the order of their bytes, and the value that
-- CanonicalDecision encodes is the verdict itself.
pub decide-canonical :
    (scope : AuthScope) (es : List Evidence) (cs : List Contradiction)
    → let v = decide scope es cs in
      IsSorted v.support
      × IsSorted v.contradictions
      × IsSorted v.unavailable
      × IsSorted v.rules
      × (canonical v ≡ v)
unfolding decide canonical
decide-canonical scope es cs =
    let s = weigh_all no_signals es in
    (
      sort-IsSorted s.support,
      sort-IsSorted (material_ids cs),
      sort-IsSorted s.unavailable_ids,
      sort-IsSorted (rule s (any_material cs)).rules,
      ground (
        arith,
        sort_idem s.support,
        sort_idem (material_ids cs),
        sort_idem s.unavailable_ids,
        sort_idem (rule s (any_material cs)).rules,
      ),
    )
