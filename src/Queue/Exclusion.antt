-- ===== src/Queue/Exclusion.antt =====
-- A lease that has not run out excludes every other claim.
use mailproof.Base.{
  ℕ, ◌+◌, String, Bool, true, false, ◌≡◌, refl, sym, ap, ◌∙◌, arith, ◌==◌, Bool-cases, Option-cases,
  Option, some, inl, inr, ◌⊎◌, ◌&&◌, find_row, count_rows, update_rows, Evolves, Evolves-refl,
  Evolves-trans, Evolves-update, Evolves-find, str_eq, subst, leb, none, unix, ◌||◌,
}
use mailproof.Database.{
  Db, ok, err, Run, RunState, state_eq, analysis_leased, report_leased, state_eq_iff, transaction,
  unknown_phase,
}
use mailproof.Database.Laws.{transaction_keeps}
use mailproof.Queue.Statements.{has_run}
use mailproof.Queue.Frame.{event_tx-OnlyEvents}
use mailproof.Queue.Granting.{claim_lem}
use mailproof.Queue.Claims.{
  Phase, Claimed, is_leased, expired, requeue, recover, due, oldest, in_state, take_lease,
  mark_leased, lease_run, take_run, claim, from_state, leased_state, is_known, phase_text, report,
}

-- The row is leased, with a deadline that has not passed.
abbrev pub is_live : ℕ → Run → Bool
is_live now r =
    (state_eq r.state analysis_leased || state_eq r.state report_leased)
    && (elim r.lease_until [ none ↦ false | some u ↦ leb (unix now) u ])

-- A row keeps its identifier, and is unchanged while its lease is live.
pub record LiveKept (now : ℕ) (x y : Run) : Type 0 where
  pub same_id : y.run_id ≡ x.run_id
  pub unchanged : is_live now x ≡ true → y ≡ x

LiveKept-refl : (now : ℕ) (x : Run) → LiveKept now x x
LiveKept-refl now x = record { same_id = refl; unchanged = λ h. refl }

LiveKept-trans : (now : ℕ) (x y z : Run) → LiveKept now x y → LiveKept now y z → LiveKept now x z
LiveKept-trans now x y z h k = record {
  same_id = k.same_id ∙ h.same_id;
  unchanged = λ l. let e = h.unchanged l in k.unchanged (ap (is_live now) e ∙ l) ∙ e;
}

abbrev pub Keeps : ℕ → Db → Db → Type 0
Keeps now db db' = Evolves (LiveKept now) db.runs db'.runs

Keeps-trans : (now : ℕ) (a b c : Db) → Keeps now a b → Keeps now b c → Keeps now a c
Keeps-trans now a b c = Evolves-trans (LiveKept now) (LiveKept-trans now) a.runs b.runs c.runs

pub claim_unknown :
    (owner : String) (phase : Phase) (now lease : ℕ) (db : Db)
    → is_known phase ≡ false
    → claim owner phase now lease db ≡ (db, err unknown_phase)
unfolding claim
claim_unknown owner phase now lease db e = rw e

pub recover-Keeps : (now : ℕ) (db : Db) → Keeps now db (recover now db)
unfolding recover
recover-Keeps now db =
    Evolves-update (LiveKept now) (LiveKept-refl now) (expired now) requeue db.runs
      λ x e. record { same_id = refl; unchanged = λ l. absurd (ground (arith, e, l)) }

module _ (phase : Phase) (from leased : RunState) (free : is_leased from ≡ false) (owner : String)
    (now until : ℕ) where
  mark_leased-Keeps :
      (r : Run) (db db' : Db)
      → db'.runs ≡ update_rows (in_state r.run_id from) (take_lease leased owner until) db.runs
      → Keeps now db db'
  mark_leased-Keeps r db db' h = rw h (
      Evolves-update (LiveKept now) (LiveKept-refl now) (in_state r.run_id from)
        (take_lease leased owner until) db.runs
        λ x e. record {
          same_id = refl;
          unchanged = λ l. absurd (ground (arith, e, l, free, state_eq_iff x.state from));
        })

  lease_run-ok :
      (r : Run) (db db' : Db) (a : Option Claimed)
      → lease_run phase from leased owner now until r db ≡ ok (a, db')
      → (db' ≡ db)
        ⊎ (db'.runs ≡ update_rows (in_state r.run_id from) (take_lease leased owner until) db.runs)
  unfolding lease_run mark_leased
  lease_run-ok r db db' a h =
      let base = record db {
        runs = update_rows (in_state r.run_id from) (take_lease leased owner until) db.runs;
      } in
      elim (Bool-cases (count_rows (in_state r.run_id from) db.runs == 1)) [
        | inl e ↦ inr (
            ap (λ d. d.runs)
              (event_tx-OnlyEvents "queue" "run" r.run_id "run_started" (phase_text phase) now base
                db' tt (ground (arith, e, h))))
        | inr e ↦ inl (ground (arith, e, h))
      ]

  take_run-ok :
      (db db' : Db) (a : Option Claimed)
      → take_run phase from leased owner now until db ≡ ok (a, db')
      → (db' ≡ db)
        ⊎ ((r : Run) × (db'.runs
              ≡ update_rows (in_state r.run_id from) (take_lease leased owner until) db.runs))
  unfolding take_run
  take_run-ok db db' a h = elim (Option-cases (oldest (due from now) db.runs)) [
    | inl e ↦ inl (ground (arith, e, h))
    | inr (r, e) ↦ elim (lease_run-ok r db db' a (ground (arith, e, h))) [
      | inl k ↦ inl k
      | inr k ↦ inr (r, k)
    ]
  ]

  take_run-Keeps :
      (db : Db) → Keeps now db (transaction (take_run phase from leased owner now until) db).0
  take_run-Keeps db =
      transaction_keeps (Keeps now db) (take_run phase from leased owner now until) db
        (Evolves-refl (LiveKept now) (LiveKept-refl now) db.runs)
        λ a db' h. elim (take_run-ok db db' a h) [
          | inl e ↦
              subst (Keeps now db) (sym e) (Evolves-refl (LiveKept now) (LiveKept-refl now) db.runs)
          | inr (r, e) ↦ mark_leased-Keeps r db db' e
        ]

pub from_state-free : (phase : Phase) → is_leased (from_state phase) ≡ false
from_state-free report = refl
from_state-free _ = refl

pub claim-Keeps :
    (owner : String) (phase : Phase) (now lease : ℕ) (db : Db)
    → Keeps now db (claim owner phase now lease db).0
claim-Keeps owner phase now lease db = elim (Bool-cases (is_known phase)) [
  | inl e ↦ rw (claim_lem owner phase now lease db e) (
      Keeps-trans now db (recover now db)
        (transaction
          (take_run phase (from_state phase) (leased_state phase) owner now (now + lease))
          (recover now db)).0
        (recover-Keeps now db)
        (take_run-Keeps phase (from_state phase) (leased_state phase) (from_state-free phase) owner
          now (now + lease) (recover now db)))
  | inr e ↦
      rw (claim_unknown owner phase now lease db e)
        (Evolves-refl (LiveKept now) (LiveKept-refl now) db.runs)
]

-- A run that is leased for analysis or for its report, with a deadline that is not before the second of
-- a claim, is the same after the claim, whoever claims, for whichever phase, and whatever it returns.
pub live_lease_kept :
    (owner : String) (phase : Phase) (now lease : ℕ) (db : Db) (id : String) (x : Run)
    → find_row (has_run id) db.runs ≡ some x
    → is_live now x ≡ true
    → find_row (has_run id) (claim owner phase now lease db).0.runs ≡ some x
live_lease_kept owner phase now lease db id x e live =
    let (y, found, kept) =
      Evolves-find (LiveKept now) (has_run id) db.runs (claim owner phase now lease db).0.runs x
        (λ a b k. ap (λ n. str_eq n id) k.same_id) (claim-Keeps owner phase now lease db) e in
    found ∙ ap some (kept.unchanged live)
