-- ===== src/Queue/Granting.antt =====
-- Claim without its recursion: it recovers the expired leases, and then leases the oldest due run.
use mailproof.Base.{
  ℕ, suc, ◌+◌, ◌<◌, String, true, false, ◌≡◌, refl, sym, ap, ◌∙◌, arith, ltb, Bool-cases,
  if◌then◌else◌, inl, inr, List, [], ◌∷◌, any_row, count_rows, update_rows, count_rows_zero,
  count_rows_pos, update_rows_none,
}
use mailproof.Database.{Db, Run, RunState, transaction}
use mailproof.Queue.Claims.{
  Phase, is_leased, expired, requeue, requeued, recover, take_run, claim_loop, claim, from_state,
  leased_state, is_known,
}

pub requeued-free : (s : RunState) → is_leased (requeued s) ≡ false
requeued-free s = ground arith

-- Nothing is expired after a recovery of the same time.
pub none_expired :
    (now : ℕ) (rs : List Run) → any_row (expired now) (update_rows (expired now) requeue rs) ≡ false
unfolding any_row update_rows
none_expired now [] = refl
none_expired now (r ∷ rs) = elim (Bool-cases (expired now r)) [
  | inl e ↦ rw e (rw (requeued-free r.state) (none_expired now rs))
  | inr e ↦ rw e (rw e (none_expired now rs))
]

recover_idle : (now : ℕ) (db : Db) → any_row (expired now) db.runs ≡ false → recover now db ≡ db
unfolding recover
recover_idle now db h = rw (update_rows_none (expired now) requeue db.runs h)

if_counted {ℓ} : {A : Type ℓ} (n : ℕ) (x y : A) → 0 < n → (if ltb 0 n then x else y) ≡ x
if_counted n x y h = ground arith

module _ (phase : Phase) (from leased : RunState) (owner : String) (now until : ℕ) where
  settled :
      (fuel : ℕ) (db : Db)
      → any_row (expired now) db.runs ≡ false
      → claim_loop (suc fuel) phase from leased owner now until db
        ≡ transaction (take_run phase from leased owner now until) db
  unfolding claim_loop
  settled fuel db h = rw (count_rows_zero (expired now) db.runs h)

  -- Two rounds are enough.
  claim_loop_lem :
      (fuel : ℕ) (db : Db)
      → claim_loop (suc (suc fuel)) phase from leased owner now until db
        ≡ transaction (take_run phase from leased owner now until) (recover now db)
  unfolding claim_loop
  claim_loop_lem fuel db = elim (Bool-cases (any_row (expired now) db.runs)) [
    | inl e ↦
        if_counted (count_rows (expired now) db.runs) _ _ (count_rows_pos (expired now) db.runs e)
        ∙ settled fuel (recover now db) (unfold recover in none_expired now db.runs)
    | inr e ↦ rw (count_rows_zero (expired now) db.runs e) (
        ap (transaction (take_run phase from leased owner now until)) (sym (recover_idle now db e)))
  ]

-- A claim for a phase that is known first gives back every lease that has expired, and then runs
-- the one transaction that leases a run; its recursion ends at the second round.
pub claim_lem :
    (owner : String) (phase : Phase) (now lease : ℕ) (db : Db)
    → is_known phase ≡ true
    → claim owner phase now lease db
      ≡ transaction
          (take_run phase (from_state phase) (leased_state phase) owner now (now + lease))
          (recover now db)
unfolding claim
claim_lem owner phase now lease db h =
    rw h (claim_loop_lem phase (from_state phase) (leased_state phase) owner now (now + lease) 0 db)
