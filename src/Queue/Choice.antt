-- ===== src/Queue/Choice.antt =====
-- The choice of Claim: the oldest of the due runs, and the row of its UPDATE.
use mailproof.Base.{
  All-mono, ℕ, ◌≤◌, String, Bool, true, false, ◌≡◌, refl, arith, ◌==◌, Option-cases, none, some,
  if◌then◌else◌, inl, inr, All, List, [], ◌∷◌, any_row, count_rows, count_rows_pos, Unique,
  count_rows-Unique, str_eq_iff,
}
use mailproof.Database.{Run, RunState, state_eq}
use mailproof.Queue.Invariant.{same_run}
use mailproof.Queue.Claims.{due, earlier, oldest, in_state}

-- The chosen run is due, and no due run is older.
pub oldest-due : (p : Run → Bool) (rs : List Run) (r : Run) → oldest p rs ≡ some r → p r ≡ true
unfolding oldest
oldest-due p [] r h = absurd (cc)
oldest-due p (x ∷ xs) r h = ground (arith, oldest-due p xs r, Option-cases (oldest p xs))

pub oldest-none : (p : Run → Bool) (rs : List Run) → oldest p rs ≡ none → any_row p rs ≡ false
unfolding oldest any_row
oldest-none p [] h = refl
oldest-none p (x ∷ xs) h = ground (arith, oldest-none p xs)

abbrev pub NotBefore : (Run → Bool) → ℕ → Run → Type 0
NotBefore p t x = p x ≡ true → t ≤ x.created_at

NotBefore-All :
    (p : Run → Bool) (t : ℕ) (rs : List Run) → any_row p rs ≡ false → All (NotBefore p t) rs
unfolding any_row
NotBefore-All p t [] h = tt
NotBefore-All p t (x ∷ xs) h = (λ k. absurd (ground arith), NotBefore-All p t xs (ground arith))

no_later :
    (x y r : Run) (b : Bool)
    → (if b then some (earlier x (some y)) else some y) ≡ some r
    → r.created_at ≤ y.created_at
no_later x y r b h = ground arith

pub oldest-first :
    (p : Run → Bool) (rs : List Run) (r : Run)
    → oldest p rs ≡ some r
    → All (NotBefore p r.created_at) rs
unfolding oldest
oldest-first p [] r h = tt
oldest-first p (x ∷ xs) r h = elim (Option-cases (oldest p xs)) [
  | inl e ↦ (λ k. ground arith, NotBefore-All p r.created_at xs (oldest-none p xs e))
  | inr (y, e) ↦ (
    λ k. ground arith,
    All-mono (NotBefore p y.created_at) (NotBefore p r.created_at) xs
        (λ z f k. omega (arith, f k, no_later x y r (p x) (ground arith))) (oldest-first p xs y e),
  )
]

-- The row that was chosen is in the table.
pub oldest-any :
    (p q : Run → Bool) (rs : List Run) (r : Run)
    → oldest p rs ≡ some r
    → q r ≡ true
    → any_row q rs ≡ true
unfolding oldest any_row
oldest-any p q [] r h k = absurd (cc)
oldest-any p q (x ∷ xs) r h k = elim (Option-cases (oldest p xs)) [
  | inl e ↦ ground arith
  | inr (y, e) ↦ ground (arith, oldest-any p q xs r)
]

pub in_state_self :
    (r : Run) (s : RunState) → state_eq r.state s ≡ true → in_state r.run_id s r ≡ true
in_state_self r s h = ground (arith, str_eq_iff r.run_id r.run_id)

pub in_state-same :
    (id : String) (s : RunState) (x y : Run)
    → in_state id s x ≡ true
    → in_state id s y ≡ true
    → same_run x y ≡ true
in_state-same id s x y h k =
    ground (arith, str_eq_iff x.run_id id, str_eq_iff y.run_id id, str_eq_iff y.run_id x.run_id)

-- With unique identifiers the UPDATE of the chosen run touches exactly one row.
pub one_row :
    (from : RunState) (now : ℕ) (rs : List Run) (r : Run)
    → Unique same_run rs
    → oldest (due from now) rs ≡ some r
    → (count_rows (in_state r.run_id from) rs == 1) ≡ true
one_row from now rs r u h =
    let d = oldest-due (due from now) rs r h in
    let found =
      oldest-any (due from now) (in_state r.run_id from) rs r h
        (in_state_self r from (ground arith)) in
    ground (
      arith,
      count_rows_pos (in_state r.run_id from) rs found,
      count_rows-Unique same_run (in_state r.run_id from) rs (in_state-same r.run_id from) u,
    )
