-- ===== src/Results/Cursors.antt =====
-- internal/results/results.go: the cursor of a page, cursorFor and parseCursor. Bytes are numbers. What
-- encoding/json, encoding/base64 and crypto/hmac compute is an argument.
use mailproof.Base.{
  ℕ, zero, suc, ◌+◌, ◌-◌, ◌*◌, ◌≤◌, ◌<◌, ◌≡◌, refl, String, Bool, true, false, not, ◌&&◌, ◌||◌,
  ◌==◌, ltb, leb, List, [], ◌∷◌, ◌++◌, Option, none, some, if◌then◌else◌, str_eq, is_empty, arith,
  ap, ◌∙◌, sym, length, length-append, take, unix, second, str_eq_iff, ◌≢◌, Bool-cases, inl, inr,
}

pub record Cursor : Type 0 where
  pub occurred_at : ℕ
  pub id : String
  pub expires_at : ℕ
  pub kind : String

-- `decode` is `none` where json.Unmarshal fails, and `unbase64` where the text is not raw URL base64.
pub record Codec : Type 0 where
  pub encode : Cursor → List ℕ
  pub decode : List ℕ → Option Cursor
  pub hmac : List ℕ → List ℕ → List ℕ
  pub base64 : List ℕ → String
  pub unbase64 : String → Option (List ℕ)

abbrev pub drop {ℓ} : {A : Type ℓ} → ℕ → List A → List A
drop zero xs = xs
drop (suc n) [] = []
drop (suc n) (x ∷ xs) = drop n xs

-- hmac.Equal.
unfoldable pub bytes_eq : List ℕ → List ℕ → Bool
bytes_eq [] [] = true
bytes_eq (x ∷ xs) (y ∷ ys) = x == y && bytes_eq xs ys
bytes_eq _ _ = false

abbrev pub day : ℕ
day = 86400 * second

abbrev pub new_cursor : String → String → ℕ → ℕ → Cursor
new_cursor kind id at now = record {
  occurred_at = unix at;
  id = id;
  expires_at = unix (now + day);
  kind = kind;
}

-- The body with its tag.
abbrev pub tagged : Codec → List ℕ → List ℕ → List ℕ
tagged l key body = body ++ l.hmac key body

-- What the code relies on, at one key and one cursor: decoders undo encoders, an object is not empty,
-- and a tag has 32 bytes.
pub record IsLawful (l : Codec) (key : List ℕ) (c : Cursor) : Type 0 where
  pub decode-encode : l.decode (l.encode c) ≡ some c
  pub encode_pos : 0 < length (l.encode c)
  pub length-hmac : length (l.hmac key (l.encode c)) ≡ 32
  pub unbase64-base64 :
      l.unbase64 (l.base64 (tagged l key (l.encode c))) ≡ some (tagged l key (l.encode c))

unfoldable pub cursor_for : Codec → List ℕ → String → String → ℕ → ℕ → String
cursor_for l key kind id at now = l.base64 (tagged l key (l.encode (new_cursor kind id at now)))

abbrev pub tag_size : ℕ
tag_size = 32

abbrev usable : String → ℕ → Cursor → Bool
usable kind now z = not (not (str_eq z.kind kind) || is_empty z.id || ltb z.expires_at (unix now))

unfoldable pub read_cursor : Codec → String → ℕ → List ℕ → Option Cursor
read_cursor l kind now body = elim (l.decode body) [
  | none ↦ none
  | some z ↦ if usable kind now z then some z else none
]

-- The checks on the bytes; `none` is ErrInvalidCursor.
unfoldable pub open_cursor : Codec → List ℕ → String → ℕ → List ℕ → Option Cursor
open_cursor l key kind now b =
    let body = take (length b - tag_size) b in
    let tag = drop (length b - tag_size) b in
    if leb (length b) tag_size
    then none
    else if bytes_eq tag (l.hmac key body)
    then read_cursor l kind now body
    else none

unfoldable pub parse_cursor : Codec → List ℕ → String → String → ℕ → Option Cursor
parse_cursor l key kind raw now = elim (l.unbase64 raw) [
  | none ↦ none
  | some b ↦ open_cursor l key kind now b
]

take-append : (xs ys : List ℕ) → take (length xs) (xs ++ ys) ≡ xs
take-append [] ys = refl
take-append (x ∷ xs) ys = ap (λ t. x ∷ t) (take-append xs ys)

drop-append : (xs ys : List ℕ) → drop (length xs) (xs ++ ys) ≡ ys
drop-append [] ys = refl
drop-append (x ∷ xs) ys = drop-append xs ys

bytes_eq_refl : (xs : List ℕ) → bytes_eq xs xs ≡ true
unfolding bytes_eq
bytes_eq_refl [] = refl
bytes_eq_refl (x ∷ xs) = ground (arith, bytes_eq_refl xs)

read-encoded :
    (l : Codec) (kind : String) (now : ℕ) (c : Cursor)
    → l.decode (l.encode c) ≡ some c
    → read_cursor l kind now (l.encode c) ≡ (if usable kind now c then some c else none)
unfolding read_cursor
read-encoded l kind now c h = rw (h, read_cursor) refl

-- A cursor that was tagged with the key is opened with it.
open-tagged :
    (l : Codec) (key : List ℕ) (kind : String) (now : ℕ) (c : Cursor)
    → IsLawful l key c
    → open_cursor l key kind now (tagged l key (l.encode c))
      ≡ (if usable kind now c then some c else none)
unfolding open_cursor read_cursor
open-tagged l key kind now c lawful =
    let body = l.encode c in
    let whole = length-append body (l.hmac key body) in
    let size = lawful.length-hmac in
    let pos = lawful.encode_pos in
    let cut : length (tagged l key body) - tag_size ≡ length body = omega (arith, whole, size) in
    let longer : leb (length (tagged l key body)) tag_size ≡ false =
      ground (arith, whole, size, pos) in
    rw
      (
        cut,
        longer,
        take-append body (l.hmac key body),
        drop-append body (l.hmac key body),
        bytes_eq_refl (l.hmac key body),
      )
      (read-encoded l kind now c lawful.decode-encode)

refuse_kind :
    (c : Cursor) (kind : String) (later : ℕ)
    → kind ≢ c.kind
    → (if usable kind later c then some c else none) ≡ none
refuse_kind c kind later other = elim (Bool-cases (str_eq c.kind kind)) [
  | inl e ↦ absurd (other (sym ((str_eq_iff c.kind kind).0 e)))
  | inr e ↦ rw e refl
]

parse-made :
    (l : Codec) (key : List ℕ) (kind kind' id : String) (at now later : ℕ)
    → IsLawful l key (new_cursor kind id at now)
    → parse_cursor l key kind' (cursor_for l key kind id at now) later ≡ (
        if usable kind' later (new_cursor kind id at now)
        then some (new_cursor kind id at now)
        else none)
unfolding parse_cursor cursor_for
parse-made l key kind kind' id at now later lawful =
    rw (lawful.unbase64-base64, parse_cursor)
      (open-tagged l key kind' later (new_cursor kind id at now) lawful)

-- A cursor that was made for a row with an identifier is read back whole, with the key and for the
-- kind that it was made for, until a day has passed; for another kind, and after that day, it is
-- refused.
pub parse-cursor_for :
    (l : Codec) (key : List ℕ) (kind kind' id : String) (at now later : ℕ)
    → IsLawful l key (new_cursor kind id at now)
    → is_empty id ≡ false
    → (kind' ≡ kind
        → unix later ≤ unix (now + day)
        → parse_cursor l key kind' (cursor_for l key kind id at now) later
          ≡ some (new_cursor kind id at now))
      × (kind' ≢ kind → parse_cursor l key kind' (cursor_for l key kind id at now) later ≡ none)
      × (unix (now + day) < unix later
          → parse_cursor l key kind' (cursor_for l key kind id at now) later ≡ none)
parse-cursor_for l key kind kind' id at now later lawful named =
    let made = parse-made l key kind kind' id at now later lawful in
    (
      λ same early. ground (arith, made, named, early, same, str_eq_iff kind kind'),
      λ other. made ∙ refuse_kind (new_cursor kind id at now) kind' later other,
      λ late. ground (arith, made, late),
    )
