-- ===== src/Ingress/Correlation.antt =====
-- internal/ingress/correlation.go: Correlate. A bufio.Scanner ends at a line of 64 KiB; `digest` is
-- SHA-256 in hexadecimal.
use Prim.Native.Char.{code}
use Prim.Native.String.{slice}
use mailproof.Base.{
  ◌-◌, ◌≡◌, ◌↔◌, refl, String, Bool, true, not, ◌||◌, ◌&&◌, ◌==◌, ltb, List, [], ◌∷◌, if◌then◌else◌,
  is_empty, str_eq, join, len, split, contains, has_prefix, has_suffix, trim_prefix, is_space,
  any_row, count_rows, find_row, some, arith, Bool-cases, inl, inr, push_first,
}

pub data Coverage : Type 0 where
  lost_coverage unknown_token correlated : Coverage

pub record Correlation : Type 0 where
  pub queue_id : String
  pub status : Coverage
  pub token_hash : String

-- The texts between white space, the empty ones included.
pieces : String → List String
pieces String.[] = String.[] ∷ []
pieces (String.◌∷◌ c s) =
    let rest = pieces s in if is_space (code c) then String.[] ∷ rest else push_first c rest

nonempty : List String → List String
nonempty [] = []
nonempty (s ∷ ss) = if is_empty s then nonempty ss else s ∷ nonempty ss

-- strings.Fields.
unfoldable pub words : String → List String
unfolding pieces nonempty
words s = nonempty (pieces s)

-- The value of the first field with the prefix.
unfoldable pub first_value : String → List String → String
first_value prefix [] = ""
first_value prefix (f ∷ fs) =
    let rest = first_value prefix fs in if has_prefix f prefix then trim_prefix f prefix else rest

-- The value of the last one, or what was found before.
unfoldable pub last_value : String → List String → String → String
last_value prefix [] found = found
last_value prefix (f ∷ fs) found =
    last_value prefix fs (if has_prefix f prefix then trim_prefix f prefix else found)

abbrev line_text : String → String
line_text raw = if has_suffix raw "\r" then slice raw 0 (len raw - 1) else raw

abbrev is_received : String → Bool
is_received line = has_prefix line "Received:" && contains line "postfix.mailproof.test"

-- The loop over the header.
unfoldable pub queue_id_of : List String → String
unfolding first_value words
queue_id_of [] = ""
queue_id_of (raw ∷ lines) =
    let rest = queue_id_of lines in
    if ltb 65535 (len raw) || is_empty (line_text raw)
    then ""
    else if is_received (line_text raw)
    then first_value "id=" (words (line_text raw))
    else rest

unfoldable pub names_queue : String → String → Bool
names_queue queue_id line = contains line (join "queue_id=" queue_id)

-- The loop over the log: the number of lines that name the queue identifier, and the token.
unfoldable pub log_token : String → List String → String → String
unfolding last_value words
log_token queue_id [] token = token
log_token queue_id (line ∷ lines) token =
    log_token queue_id lines
      (if names_queue queue_id line then last_value "token=" (words line) token else token)

abbrev lost : String → Correlation
lost queue_id = record { queue_id = queue_id; status = lost_coverage; token_hash = "" }

unfoldable pub correlate_id : (String → String) → String → List String → List String → Correlation
unfolding log_token
correlate_id digest queue_id log tokens =
    if is_empty queue_id
    then lost ""
    else if not (count_rows (names_queue queue_id) log == 1)
    then lost queue_id
    else if not (any_row (str_eq (log_token queue_id log "")) tokens)
    then record { queue_id = queue_id; status = unknown_token; token_hash = "" }
    else record {
      queue_id = queue_id;
      status = correlated;
      token_hash = digest (log_token queue_id log "");
    }

unfoldable pub correlate : (String → String) → String → List String → List String → Correlation
unfolding correlate_id
correlate digest message log tokens =
    correlate_id digest (queue_id_of (split 10 message)) log tokens

log_token-none :
    (id : String) (log : List String) (t : String)
    → count_rows (names_queue id) log ≡ 0
    → log_token id log t ≡ t
unfolding log_token count_rows
log_token-none id [] t h = refl
log_token-none id (line ∷ log) t h = ground (arith, log_token-none id log t)

-- The token of the only line of the log that names the identifier.
log_token-only :
    (id : String) (log : List String) (t : String)
    → count_rows (names_queue id) log ≡ 1
    → (line : String) × (find_row (names_queue id) log ≡ some line)
      × (log_token id log t ≡ last_value "token=" (words line) t)
unfolding log_token count_rows find_row
log_token-only id [] t h = absurd (ground arith)
log_token-only id (line ∷ log) t h = elim (Bool-cases (names_queue id line)) [
  | inl e ↦ (
    line,
    rw e refl,
    rw e (log_token-none id log (last_value "token=" (words line) t) (ground arith)),
  )
  | inr e ↦ let (l, f, k) = log_token-only id log t (ground arith) in (l, rw e f, rw e k)
]

-- A message is correlated exactly when the queue identifier of its trusted header is not empty, one
-- line of the log and no more names it, and the token of that line is one of those issued; the hash
-- is then that of the token.
pub correlate_lem :
    (digest : String → String) (message : String) (log tokens : List String)
    → let id = queue_id_of (split 10 message) in
      let r = correlate digest message log tokens in
      ((r.status ≡ correlated) ↔ (
        (not (is_empty id)
          && (count_rows (names_queue id) log == 1)
          && any_row (str_eq (log_token id log "")) tokens)
        ≡ true))
      × (r.status ≡ correlated
          → (line : String) × (find_row (names_queue id) log ≡ some line)
            × (r.token_hash ≡ digest (last_value "token=" (words line) "")))
unfolding correlate
correlate_lem digest message log tokens =
    let id = queue_id_of (split 10 message) in
    (
      (λ h. ground arith, λ h. ground arith),
      λ h.
          let one : count_rows (names_queue id) log ≡ 1 = ground (arith, h) in
          let (line, found, token) = log_token-only id log "" one in
          (line, found, ground (arith, h, token)),
    )
