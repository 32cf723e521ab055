-- ===== src/Queue/Lifecycle.antt =====
-- The lifecycle of a run, and the abstract moves that the operations of internal/queue refine.
use mailproof.Base.{◌≤◌, Bool, true, false, ◌≡◌, [], ◌∷◌, ◌++◌, is_some, any_row, update_rows}
use mailproof.Database.{
  Db, Run, Delivery, RunState, queued, analysis_leased, report_pending, report_leased, complete,
  reply_suppressed, report_dead,
}
use mailproof.Queue.Statements.{has_run, has_delivery, has_source}
use mailproof.Queue.Claims.{is_leased}

infix 40 ◌⟶◌ ◌⟶*◌
-- The edges that an owner, a recovery or an operator may take.
pub data ◌⟶◌ : RunState → RunState → Type 0 where
  lease_analysis : queued ⟶ analysis_leased
  expire_analysis : analysis_leased ⟶ queued
  finish_analysis : analysis_leased ⟶ report_pending
  lease_report : report_pending ⟶ report_leased
  expire_report : report_leased ⟶ report_pending
  finish_report : report_leased ⟶ complete
  suppress_report : report_leased ⟶ reply_suppressed
  bury_report : report_leased ⟶ report_dead
  revive_report : report_dead ⟶ report_pending

pub data ◌⟶*◌ : RunState → RunState → Type 0 where
  here : {s : RunState} → s ⟶* s
  then : {s t u : RunState} → s ⟶ t → t ⟶* u → s ⟶* u

pub one_edge : {s t : RunState} → s ⟶ t → s ⟶* t
one_edge e = then e here

pub ⟶*-trans : {s t u : RunState} → s ⟶* t → t ⟶* u → s ⟶* u
⟶*-trans here k = k
⟶*-trans (then e h) k = then e (⟶*-trans h k)

-- Any change of state, which is what a retry may make.
abbrev pub Anywhere : RunState → RunState → Type 0
Anywhere s t = Unit {0}

-- A run has an owner and a deadline exactly while it is leased.
pub record LeaseSound (r : Run) : Type 0 where
  pub owner_iff : is_some r.lease_owner ≡ is_leased r.state
  pub until_iff : is_some r.lease_until ≡ is_leased r.state

-- What may become of a row: its identity stays, its attempts are not forgotten.
pub record Goes (S : RunState → RunState → Type 0) (x y : Run) : Type 0 where
  pub same_id : y.run_id ≡ x.run_id
  pub same_delivery : y.delivery_id ≡ x.delivery_id
  pub same_birth : y.created_at ≡ x.created_at
  pub analysis_kept : x.analysis_attempts ≤ y.analysis_attempts
  pub report_kept : x.report_attempts ≤ y.report_attempts
  pub path : S x.state y.state

-- An abstract move of the database.
pub data Move (S : RunState → RunState → Type 0) (db : Db) : Db → Type 0 where
  updates :
      (p : Run → Bool) (f : Run → Run)
      → ((x : Run) → (f x).run_id ≡ x.run_id)
      → ((x : Run) → (f x).delivery_id ≡ x.delivery_id)
      → ((x : Run) → p x ≡ true → Goes S x (f x))
      → ((x : Run) → p x ≡ true → LeaseSound x → LeaseSound (f x))
      → {db' : Db} → db'.runs ≡ update_rows p f db.runs
      → db'.deliveries ≡ db.deliveries
      → Move S db db'
  delivers :
      (d : Delivery)
      → any_row (has_source d.source_key) db.deliveries ≡ false
      → any_row (has_delivery d.delivery_id) db.deliveries ≡ false
      → {db' : Db} → db'.runs ≡ db.runs
      → db'.deliveries ≡ db.deliveries ++ d ∷ []
      → Move S db db'
  starts :
      (r : Run)
      → any_row (has_run r.run_id) db.runs ≡ false
      → any_row (has_delivery r.delivery_id) db.deliveries ≡ true
      → r.state ≡ queued
      → LeaseSound r
      → {db' : Db} → db'.runs ≡ db.runs ++ r ∷ []
      → db'.deliveries ≡ db.deliveries
      → Move S db db'
  elsewhere : {db' : Db} → db'.runs ≡ db.runs → db'.deliveries ≡ db.deliveries → Move S db db'

pub data Moves (S : RunState → RunState → Type 0) (db : Db) : Db → Type 0 where
  still : Moves S db db
  after : {db' db'' : Db} → Moves S db db' → Move S db' db'' → Moves S db db''
