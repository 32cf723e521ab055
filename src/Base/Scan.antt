-- ===== src/Base/Scan.antt =====
-- The functions of Go's strings package that the program uses, on texts in UTF-8. A character is
-- given by its code.
use Prim.Native.Nat.{ℕ, ◌+◌, ◌-◌}
use Prim.Native.Char.{Char, code}
use Prim.Native.String.{String, char_at, slice, len}
use text.Mathlib.Text.{find?}
use text.Mathlib.Text
use mathlib.Core.Bool.{Bool, false, ◌&&◌, ◌||◌}
use mathlib.Core.Option.{Option, none, some}
use mathlib.Core.List.{List, [], ◌∷◌}
use mailproof.Base.Tests.{if◌then◌else◌, ◌==◌, leb, is_some}
use mailproof.Base.Texts.{str_eq, is_empty}

abbrev pub has_prefix : String → String → Bool
has_prefix s t = Text.starts_with s t

unfoldable pub has_suffix : String → String → Bool
has_suffix s t = leb (len t) (len s) && str_eq (slice s (len s - len t) (len s)) t

unfoldable pub trim_prefix : String → String → String
trim_prefix s t = if has_prefix s t then slice s (len t) (len s) else s

unfoldable pub contains : String → String → Bool
contains s t = is_some (find? s t)

-- Whether some character has the property.
unfoldable pub any_char : (ℕ → Bool) → String → Bool
any_char p String.[] = false
any_char p (String.◌∷◌ c s) = p (code c) || any_char p s

-- strings.Count of a text of one character.
unfoldable pub count_char : ℕ → String → ℕ
count_char k String.[] = 0
count_char k (String.◌∷◌ c s) = (if code c == k then 1 else 0) + count_char k s

abbrev pub push_front : Char → Option (String × String) → Option (String × String)
push_front c none = none
push_front c (some (s, t)) = some (String.◌∷◌ c s, t)

-- strings.Cut: `none` where the separator is absent.
unfoldable pub cut : ℕ → String → Option (String × String)
cut k String.[] = none
cut k (String.◌∷◌ c s) =
    let rest = push_front c (cut k s) in if code c == k then some (String.[], s) else rest

abbrev pub push_first : Char → List String → List String
push_first c [] = String.◌∷◌ c String.[] ∷ []
push_first c (s ∷ ss) = String.◌∷◌ c s ∷ ss

-- strings.Split.
unfoldable pub split : ℕ → String → List String
split k String.[] = String.[] ∷ []
split k (String.◌∷◌ c s) =
    let rest = split k s in if code c == k then String.[] ∷ rest else push_first c rest

-- unicode.IsSpace.
abbrev pub is_space : ℕ → Bool
is_space c =
    (leb 9 c && leb c 13)
    || c == 32
    || c == 133
    || c == 160
    || c == 5760
    || (leb 8192 c && leb c 8202)
    || c == 8232
    || c == 8233
    || c == 8239
    || c == 8287
    || c == 12288

trim_left : String → String
trim_left String.[] = String.[]
trim_left (String.◌∷◌ c s) =
    let rest = trim_left s in if is_space (code c) then rest else String.◌∷◌ c s

trim_right : String → String
trim_right String.[] = String.[]
trim_right (String.◌∷◌ c s) =
    let rest = trim_right s in
    if is_empty rest && is_space (code c) then String.[] else String.◌∷◌ c rest

unfoldable pub trim_space : String → String
unfolding trim_left trim_right
trim_space s = trim_left (trim_right s)

-- unicode.ToLower for the letters whose lower case is ASCII; others are kept.
abbrev pub lower_char : Char → Char
lower_char c =
    if leb 65 (code c) && leb (code c) 90
    then char_at "abcdefghijklmnopqrstuvwxyz" (code c - 65)
    else if code c == 304
    then char_at "i" 0
    else if code c == 8490
    then char_at "k" 0
    else c

unfoldable pub to_lower : String → String
to_lower String.[] = String.[]
to_lower (String.◌∷◌ c s) = String.◌∷◌ (lower_char c) (to_lower s)

-- One member for each class of letters that strings.EqualFold takes as the same, as far as ASCII.
abbrev pub folded_char : Char → Char
folded_char c =
    if leb 65 (code c) && leb (code c) 90
    then char_at "abcdefghijklmnopqrstuvwxyz" (code c - 65)
    else if code c == 383
    then char_at "s" 0
    else if code c == 8490
    then char_at "k" 0
    else c

unfoldable pub folded : String → String
folded String.[] = String.[]
folded (String.◌∷◌ c s) = String.◌∷◌ (folded_char c) (folded s)

unfoldable pub equal_fold : String → String → Bool
equal_fold s t = str_eq (folded s) (folded t)
