-- ===== src/Queue/Double.antt =====
-- Two claims within the first lease, and other claims between them.
use mailproof.Base.{
  any_row_never, true_ne_false, ℕ, ◌+◌, ◌≤◌, String, Bool, true, false, ◌≡◌, ◌≢◌, refl, sym, ap,
  ◌∙◌, arith, Bool-cases, Option-cases, Option, some, inl, inr, ◌&&◌, List, [], ◌∷◌, any_row,
  update_rows, Unique-meet, Evolves, str_eq_iff, str_eq_sym, subst, unix, All,
}
use mailproof.Database.{Db, ok, Run, RunState, state_eq_iff, transaction}
use mailproof.Queue.Statements.{has_run}
use mailproof.Queue.Events.{event_tx}
use mailproof.Queue.Frame.{event_tx-OnlyEvents}
use mailproof.Queue.Invariant.{same_run, Valid, Moves-Valid}
use mailproof.Queue.Refinement.Claiming.{recover-Moves, claim-Moves}
use mailproof.Queue.Granting.{claim_lem}
use mailproof.Queue.Choice.{in_state_self, oldest-due, oldest-any}
use mailproof.Queue.Exclusion.{
  is_live, LiveKept, recover-Keeps, claim-Keeps, claim_unknown, from_state-free,
}
use mailproof.Queue.Claims.{
  Phase, Claimed, is_leased, recover, due, oldest, in_state, take_lease, mark_leased, lease_run,
  take_run, claim, from_state, leased_state, is_known, phase_text, report,
}

-- What a claim that returns a run has done.
pub record Leased (owner : String) (phase : Phase) (now until : ℕ) (db db' : Db) (c : Claimed)
    (r : Run) : Type 0 where
  pub chosen : oldest (due (from_state phase) now) (recover now db).runs ≡ some r
  pub same_id : c.id ≡ r.run_id
  pub rows :
      db'.runs
      ≡ update_rows
          (in_state r.run_id (from_state phase))
          (take_lease (leased_state phase) owner until)
          (recover now db).runs

lease_run-some :
    (phase : Phase) (from leased : RunState) (owner : String) (now until : ℕ) (r : Run)
    (db db' : Db) (c : Claimed)
    → transaction (lease_run phase from leased owner now until r) db ≡ (db', ok (some c))
    → (c.id ≡ r.run_id)
      × (event_tx "queue" "run" r.run_id "run_started" (phase_text phase) now (record db {
        runs = update_rows (in_state r.run_id from) (take_lease leased owner until) db.runs;
      })
          ≡ ok (tt, db'))
unfolding lease_run mark_leased
lease_run-some phase from leased owner now until r db db' c h = (ground arith, ground arith)

module _ (owner : String) (phase : Phase) (now until : ℕ) where
  take_run-some :
      (db db' : Db) (c : Claimed)
      → transaction (take_run phase (from_state phase) (leased_state phase) owner now until) db
        ≡ (db', ok (some c))
      → (r : Run) × (oldest (due (from_state phase) now) db.runs ≡ some r)
        × (transaction
              (lease_run phase (from_state phase) (leased_state phase) owner now until r)
              db
            ≡ (db', ok (some c)))
  unfolding take_run
  take_run-some db db' c h = elim (Option-cases (oldest (due (from_state phase) now) db.runs)) [
    | inl e ↦ absurd (ground (arith, e, h))
    | inr (r, e) ↦ (r, e, ground (arith, e, h))
  ]

claim-some :
    (owner : String) (phase : Phase) (now lease : ℕ) (db db' : Db) (c : Claimed)
    → claim owner phase now lease db ≡ (db', ok (some c))
    → (r : Run) × Leased owner phase now (now + lease) db db' c r
claim-some owner phase now lease db db' c h = elim (Bool-cases (is_known phase)) [
  | inl e ↦
      let (r, chosen, k) =
        take_run-some owner phase now (now + lease) (recover now db) db' c
          (sym (claim_lem owner phase now lease db e) ∙ h) in
      let (id, event) =
        lease_run-some phase (from_state phase) (leased_state phase) owner now (now + lease) r
          (recover now db) db' c k in
      (
        r,
        record {
          chosen = chosen;
          same_id = id;
          rows =
              ap (λ d. d.runs)
                (event_tx-OnlyEvents _ _ _ _ _ _
                  (record (recover now db) {
                    runs =
                        update_rows (in_state r.run_id (from_state phase))
                          (take_lease (leased_state phase) owner (now + lease))
                          (recover now db).runs;
                  })
                  db' tt event);
        },
      )
  | inr e ↦ absurd (ground (arith, h, claim_unknown owner phase now lease db e))
]

leased_state-busy : (phase : Phase) → is_leased (leased_state phase) ≡ true
leased_state-busy report = refl
leased_state-busy _ = refl

abbrev live_row : String → ℕ → Run → Bool
live_row id now r = has_run id r && is_live now r

-- The lease of the first claim is live in the row that it wrote.
leased_row :
    (id owner : String) (phase : Phase) (until now : ℕ) (x : Run)
    → unix now ≤ unix until
    → in_state id (from_state phase) x ≡ true
    → live_row id now (take_lease (leased_state phase) owner until x) ≡ true
leased_row id owner phase until now x h e = ground (arith, leased_state-busy phase)

any_row-written :
    (p q : Run → Bool) (f : Run → Run) (xs : List Run)
    → ((x : Run) → p x ≡ true → q (f x) ≡ true)
    → any_row p xs ≡ true
    → any_row q (update_rows p f xs) ≡ true
unfolding any_row update_rows
any_row-written p q f [] k h = h
any_row-written p q f (x ∷ xs) k h = elim (Bool-cases (p x)) [
  | inl e ↦ rw (e, k x e) refl
  | inr e ↦ rw e (ground (arith, any_row-written p q f xs k))
]

any_live-kept :
    (id : String) (now : ℕ) (xs ys : List Run)
    → Evolves (LiveKept now) xs ys
    → any_row (live_row id now) xs ≡ true
    → any_row (live_row id now) ys ≡ true
unfolding any_row
any_live-kept id now [] ys e h = absurd (cc)
any_live-kept id now (x ∷ xs) [] e h = absurd e
any_live-kept id now (x ∷ xs) (y ∷ ys) e h = elim (Bool-cases (live_row id now x)) [
  | inl l ↦ rw (ap (live_row id now) (e.0.unchanged (ground (arith, l))) ∙ l) refl
  | inr f ↦ ground (arith, f, any_live-kept id now xs ys e.1)
]

-- A row cannot be live and free at once.
live_not_free :
    (id id' : String) (phase : Phase) (now : ℕ) (x : Run)
    → (live_row id now x && in_state id' (from_state phase) x) ≡ false
live_not_free id id' phase now x =
    ground (arith, from_state-free phase, state_eq_iff x.state (from_state phase))

live_same_free :
    (id id' : String) (phase : Phase) (now : ℕ) (x y : Run)
    → id ≡ id'
    → live_row id now x ≡ true
    → in_state id' (from_state phase) y ≡ true
    → same_run x y ≡ true
live_same_free id id' phase now x y e h k =
    ground (arith, str_eq_iff x.run_id id, str_eq_iff y.run_id id', str_eq_iff y.run_id x.run_id)

chosen_row :
    (phase : Phase) (now : ℕ) (rs : List Run) (r : Run)
    → oldest (due (from_state phase) now) rs ≡ some r
    → any_row (in_state r.run_id (from_state phase)) rs ≡ true
chosen_row phase now rs r e =
    let d = oldest-due (due (from_state phase) now) rs r e in
    oldest-any (due (from_state phase) now) (in_state r.run_id (from_state phase)) rs r e
      (in_state_self r (from_state phase) (ground arith))

claimed-Valid :
    (owner : String) (phase : Phase) (now lease : ℕ) (db db' : Db) (c : Option Claimed)
    → claim owner phase now lease db ≡ (db', ok c)
    → Valid db
    → Valid db'
claimed-Valid owner phase now lease db db' c h v =
    subst Valid (ap (λ a. a.0) h) (Moves-Valid (claim-Moves owner phase now lease db) v)

-- A claim that may come in between, whatever it returns.
pub record ClaimCall : Type 0 where
  pub owner : String
  pub phase : Phase
  pub now : ℕ
  pub lease : ℕ

unfoldable pub claim_all : List ClaimCall → Db → Db
claim_all [] db = db
claim_all (c ∷ cs) db = claim_all cs (claim c.owner c.phase c.now c.lease db).0

abbrev pub Before : ℕ → ClaimCall → Type 0
Before end c = unix c.now ≤ unix end

-- A row that is live at a time is live earlier.
live_earlier :
    (now end : ℕ) (x : Run) → unix now ≤ unix end → is_live end x ≡ true → is_live now x ≡ true
live_earlier now end x h l = elim (Option-cases x.lease_until) [
  | inl e ↦ absurd (ground (arith, e, l))
  | inr (u, e) ↦ ground (arith, e, l, h)
]

Evolves-earlier :
    (now end : ℕ) (xs ys : List Run)
    → unix now ≤ unix end
    → Evolves (LiveKept now) xs ys
    → Evolves (LiveKept end) xs ys
Evolves-earlier now end [] ys h e = tt
Evolves-earlier now end (x ∷ xs) [] h e = e
Evolves-earlier now end (x ∷ xs) (y ∷ ys) h e = (
  record { same_id = e.0.same_id; unchanged = λ l. e.0.unchanged (live_earlier now end x h l) },
  Evolves-earlier now end xs ys h e.1,
)

claim_all-live :
    (id : String) (end : ℕ) (cs : List ClaimCall) (db : Db)
    → All (Before end) cs
    → any_row (live_row id end) db.runs ≡ true
    → any_row (live_row id end) (claim_all cs db).runs ≡ true
unfolding claim_all
claim_all-live id end [] db b h = h
claim_all-live id end (c ∷ cs) db b h =
    let next = (claim c.owner c.phase c.now c.lease db).0 in
    claim_all-live id end cs next b.1 (
      any_live-kept id end db.runs next.runs
        (Evolves-earlier c.now end db.runs next.runs b.0
          (claim-Keeps c.owner c.phase c.now c.lease db))
        h)

claim_all-Valid : (cs : List ClaimCall) (db : Db) → Valid db → Valid (claim_all cs db)
unfolding claim_all
claim_all-Valid [] db v = v
claim_all-Valid (c ∷ cs) db v =
    claim_all-Valid cs (claim c.owner c.phase c.now c.lease db).0
      (Moves-Valid (claim-Moves c.owner c.phase c.now c.lease db) v)

-- The row of a claim that returned it stays live up to the deadline.
claimed_live :
    (owner : String) (phase : Phase) (now until : ℕ) (db db' : Db) (c : Claimed) (r : Run)
    → Leased owner phase now until db db' c r
    → any_row (live_row r.run_id until) db'.runs ≡ true
claimed_live owner phase now until db db' c r l = rw l.rows (
    any_row-written (in_state r.run_id (from_state phase)) (live_row r.run_id until)
      (take_lease (leased_state phase) owner until) (recover now db).runs
      (λ x e. leased_row r.run_id owner phase until until x (omega arith) e)
      (chosen_row phase now (recover now db).runs r l.chosen))

-- From a consistent database, two claims that both return a run return different runs, whoever makes
-- them and for whichever phases, where the second comes within the lease of the first and nothing but
-- other claims within that lease came in between.
pub no_double_claim :
    (o1 o2 : String) (p1 p2 : Phase) (now1 now2 lease1 lease2 : ℕ) (cs : List ClaimCall)
    (db db1 db2 : Db) (c1 c2 : Claimed)
    → Valid db
    → claim o1 p1 now1 lease1 db ≡ (db1, ok (some c1))
    → All (Before (now1 + lease1)) cs
    → claim o2 p2 now2 lease2 (claim_all cs db1) ≡ (db2, ok (some c2))
    → unix now2 ≤ unix (now1 + lease1)
    → c2.id ≢ c1.id
no_double_claim o1 o2 p1 p2 now1 now2 lease1 lease2 cs db db1 db2 c1 c2 valid h1 before h2 within
      same =
    let end = now1 + lease1 in
    let mid = claim_all cs db1 in
    let (r1, l1) = claim-some o1 p1 now1 lease1 db db1 c1 h1 in
    let (r2, l2) = claim-some o2 p2 now2 lease2 mid db2 c2 h2 in
    let keys =
      (Moves-Valid (recover-Moves now2 mid) (
        claim_all-Valid cs db1
          (claimed-Valid o1 p1 now1 lease1 db db1 (some c1) h1 valid))).runs_unique in
    let one : r1.run_id ≡ r2.run_id = sym l1.same_id ∙ sym same ∙ l2.same_id in
    let live =
      any_live-kept r1.run_id end mid.runs (recover now2 mid).runs
        (Evolves-earlier now2 end mid.runs (recover now2 mid).runs within (recover-Keeps now2 mid))
        (claim_all-live r1.run_id end cs db1 before
          (claimed_live o1 p1 now1 end db db1 c1 r1 l1)) in
    let met =
      Unique-meet same_run (live_row r1.run_id end) (in_state r2.run_id (from_state p2))
        (recover now2 mid).runs (λ x y. live_same_free r1.run_id r2.run_id p2 end x y one)
        (λ x y. str_eq_sym y.run_id x.run_id) keys live
        (chosen_row p2 now2 (recover now2 mid).runs r2 l2.chosen) in
    true_ne_false (
      sym met
      ∙ any_row_never (λ x. live_row r1.run_id end x && in_state r2.run_id (from_state p2) x)
          (recover now2 mid).runs (live_not_free r1.run_id r2.run_id p2 end))
