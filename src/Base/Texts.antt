-- ===== src/Base/Texts.antt =====
-- Native strings: equality, concatenation, and the decimal text that `fmt` prints for %d.
use Prim.Native.Nat.{ℕ, zero, suc, ◌/◌, ◌%◌}
use Prim.Native.String.{String}
use Prim.Native.String
use mathlib.Core.Path.{◌≡◌, refl, sym, ◌∙◌}
use mathlib.Core.Logic.{◌↔◌}
use mathlib.Core.Bool.{Bool, true, false}
use native.Mathlib.Omega.{arith}
use text.Mathlib.Text
use text.Mathlib.TextEquality.{eq_iff}
use text.Mathlib.TextLemmas.{append-ne-nil_of_right_ne-nil}
use mathlib.Core.Logic.{inl, inr}
use mailproof.Base.Tests.{Bool-cases, true_ne_false, if◌then◌else◌, ◌==◌, ltb}

abbrev pub str_eq : String → String → Bool
str_eq s t = Text.◌==◌ s t

abbrev pub is_empty : String → Bool
is_empty s = str_eq s ""

pub str_eq_iff : (s t : String) → (str_eq s t ≡ true) ↔ (s ≡ t)
str_eq_iff s t = eq_iff s t

pub str_eq_refl : (s : String) → str_eq s s ≡ true
str_eq_refl s = (eq_iff s s).1 refl

abbrev pub join : String → String → String
join s t = String.◌++◌ s t

digit_text : ℕ → String
digit_text n =
    if n == 0
    then "0"
    else if n == 1
    then "1"
    else if n == 2
    then "2"
    else if n == 3
    then "3"
    else if n == 4
    then "4"
    else if n == 5
    then "5"
    else if n == 6
    then "6"
    else if n == 7
    then "7"
    else if n == 8
    then "8"
    else "9"

-- The digits of a number below 10 ^ fuel.
decimal_from : ℕ → ℕ → String
decimal_from zero n = ""
decimal_from (suc fuel) n =
    let rest = decimal_from fuel (n / 10) in
    if ltb n 10 then digit_text n else join rest (digit_text (n % 10))

-- An int64 has at most 19 digits.
unfoldable pub decimal : ℕ → String
unfolding decimal_from digit_text
decimal n = decimal_from 20 n

pub str_eq_sym : (s t : String) → str_eq s t ≡ str_eq t s
str_eq_sym s t = ground (arith, eq_iff s t, eq_iff t s)

-- A text that ends in a text is not empty.
pub is_empty-join : (s t : String) → is_empty t ≡ false → is_empty (join s t) ≡ false
is_empty-join s t h = elim (Bool-cases (is_empty (join s t))) [
  | inl e ↦ absurd (
      append-ne-nil_of_right_ne-nil s (λ n. true_ne_false (sym ((eq_iff t "").1 n) ∙ h))
        ((eq_iff (join s t) "").0 e))
  | inr e ↦ e
]

pub ne_text : (s t : String) → s ≡ t → str_eq s t ≡ false → ⊥
ne_text s t e h = true_ne_false (sym ((eq_iff s t).1 e) ∙ h)
