-- ===== src/Queue/Refinement/Inserts.antt =====
-- The inserts and the events of a transaction, as moves.
use mailproof.Base.{
  ℕ, String, true, false, ◌≡◌, ap, ◌⊎◌, inl, inr, [], ◌∷◌, ◌++◌, any_row, arith, subst,
}
use mailproof.Database.Laws.{bind-ok, transaction_keeps}
use mailproof.Database.{
  pure, ◌>>=◌, transaction, Db, Tx, ok, Run, Delivery, RunState, queued, SubmissionDecision,
  WorkItem, DecisionRecord, SigningEntry,
}
use mailproof.Queue.Frame.{OnlyEvents, event_tx-OnlyEvents}
use mailproof.Queue.Events.{event_tx}
use mailproof.Queue.Statements.{
  has_source, has_delivery, has_run, insert_delivery, insert_run, append_run, insert_decision,
  insert_work, insert_record, insert_signing,
}
use mailproof.Queue.Lifecycle.{Move, delivers, starts, elsewhere, Moves, still, after, LeaseSound}

module _ {S : RunState → RunState → Type 0} where
  pub one-Move : {db db' : Db} → Move S db db' → Moves S db db'
  one-Move m = after still m

  pub Moves-trans : {db db' db'' : Db} → Moves S db db' → Moves S db' db'' → Moves S db db''
  Moves-trans h still = h
  Moves-trans h (after ms m) = after (Moves-trans h ms) m

  pub elsewhere_of :
      {db db' : Db} → db'.runs ≡ db.runs → db'.deliveries ≡ db.deliveries → Moves S db db'
  elsewhere_of r d = one-Move (elsewhere r d)

insert_delivery-cases :
    (d : Delivery) (db db' : Db) (u : Unit {0})
    → insert_delivery d db ≡ ok (u, db')
    → (db' ≡ db)
      ⊎ ((any_row (has_source d.source_key) db.deliveries ≡ false)
          × (any_row (has_delivery d.delivery_id) db.deliveries ≡ false)
          × (db'.runs ≡ db.runs)
          × (db'.deliveries ≡ db.deliveries ++ d ∷ []))
unfolding insert_delivery
insert_delivery-cases d db db' u h = ground arith

append_run-cases :
    (r : Run) (db db' : Db) (u : Unit {0})
    → append_run r db ≡ ok (u, db')
    → (any_row (has_delivery r.delivery_id) db.deliveries ≡ true)
      × (db'.runs ≡ db.runs ++ r ∷ [])
      × (db'.deliveries ≡ db.deliveries)
unfolding append_run
append_run-cases r db db' u h = (ground arith, ground arith, ground arith)

insert_run-cases :
    (r : Run) (db db' : Db) (u : Unit {0})
    → insert_run r db ≡ ok (u, db')
    → (db' ≡ db) ⊎ ((any_row (has_run r.run_id) db.runs ≡ false) × (append_run r db ≡ ok (u, db')))
unfolding insert_run
insert_run-cases r db db' u h = ground arith

-- The statements that insert elsewhere.
abbrev pub Apart : Db → Db → Type 0
Apart db db' = (db'.runs ≡ db.runs) × (db'.deliveries ≡ db.deliveries)

insert_decision-Apart :
    (d : SubmissionDecision) (db db' : Db) (u : Unit {0})
    → insert_decision d db ≡ ok (u, db')
    → Apart db db'
unfolding insert_decision
insert_decision-Apart d db db' u h = (ground arith, ground arith)

insert_work-Apart :
    (w : WorkItem) (db db' : Db) (u : Unit {0}) → insert_work w db ≡ ok (u, db') → Apart db db'
unfolding insert_work
insert_work-Apart w db db' u h = (ground arith, ground arith)

insert_record-Apart :
    (d : DecisionRecord) (db db' : Db) (u : Unit {0})
    → insert_record d db ≡ ok (u, db')
    → Apart db db'
unfolding insert_record
insert_record-Apart d db db' u h = (ground arith, ground arith)

insert_signing-Apart :
    (s : SigningEntry) (db db' : Db) (u : Unit {0})
    → insert_signing s db ≡ ok (u, db')
    → Apart db db'
unfolding insert_signing
insert_signing-Apart s db db' u h = (ground arith, ground arith)

module _ (S : RunState → RunState → Type 0) where
  pub OnlyEvents-Moves : {db db' : Db} → OnlyEvents db db' → Moves S db db'
  OnlyEvents-Moves e = elsewhere_of (ap (λ d. d.runs) e) (ap (λ d. d.deliveries) e)

  pub event_tx-Moves :
      (p t i y o : String) (now : ℕ) (db db' : Db) (u : Unit {0})
      → event_tx p t i y o now db ≡ ok (u, db')
      → Moves S db db'
  event_tx-Moves p t i y o now db db' u h =
      OnlyEvents-Moves (event_tx-OnlyEvents p t i y o now db db' u h)

  pub insert_delivery-Moves :
      (d : Delivery) (db db' : Db) (u : Unit {0})
      → insert_delivery d db ≡ ok (u, db')
      → Moves S db db'
  insert_delivery-Moves d db db' u h = elim (insert_delivery-cases d db db' u h) [
    | inl e ↦ elsewhere_of (ap (λ x. x.runs) e) (ap (λ x. x.deliveries) e)
    | inr (source, id, rs, ds) ↦ one-Move (delivers d source id rs ds)
  ]

  pub append_run-Moves :
      (r : Run) (db db' : Db) (u : Unit {0})
      → any_row (has_run r.run_id) db.runs ≡ false
      → r.state ≡ queued
      → LeaseSound r
      → append_run r db ≡ ok (u, db')
      → Moves S db db'
  append_run-Moves r db db' u fresh state sound h =
      let (del, rs, ds) = append_run-cases r db db' u h in
      one-Move (starts r fresh del state sound rs ds)

  pub insert_run-Moves :
      (r : Run) (db db' : Db) (u : Unit {0})
      → r.state ≡ queued
      → LeaseSound r
      → insert_run r db ≡ ok (u, db')
      → Moves S db db'
  insert_run-Moves r db db' u state sound h = elim (insert_run-cases r db db' u h) [
    | inl e ↦ elsewhere_of (ap (λ x. x.runs) e) (ap (λ x. x.deliveries) e)
    | inr (fresh, k) ↦ append_run-Moves r db db' u fresh state sound k
  ]

  pub insert_decision-Moves :
      (d : SubmissionDecision) (db db' : Db) (u : Unit {0})
      → insert_decision d db ≡ ok (u, db')
      → Moves S db db'
  insert_decision-Moves d db db' u h =
      let (r, k) = insert_decision-Apart d db db' u h in elsewhere_of r k

  pub insert_work-Moves :
      (w : WorkItem) (db db' : Db) (u : Unit {0}) → insert_work w db ≡ ok (u, db') → Moves S db db'
  insert_work-Moves w db db' u h = let (r, k) = insert_work-Apart w db db' u h in elsewhere_of r k

  pub insert_record-Moves :
      (d : DecisionRecord) (db db' : Db) (u : Unit {0})
      → insert_record d db ≡ ok (u, db')
      → Moves S db db'
  insert_record-Moves d db db' u h =
      let (r, k) = insert_record-Apart d db db' u h in elsewhere_of r k

  pub insert_signing-Moves :
      (s : SigningEntry) (db db' : Db) (u : Unit {0})
      → insert_signing s db ≡ ok (u, db')
      → Moves S db db'
  insert_signing-Moves s db db' u h =
      let (r, k) = insert_signing-Apart s db db' u h in elsewhere_of r k

  -- A statement whose successes are moves; `bind` composes two.
  abbrev pub Steps : {A : Type 0} → Tx A → Type 0
  Steps {A} m = (db db' : Db) (a : A) → m db ≡ ok (a, db') → Moves S db db'

  pub bind-Steps :
      {A B : Type 0} (m : Tx A) (f : A → Tx B) → Steps m → ((a : A) → Steps (f a)) → Steps (m >>= f)
  bind-Steps m f h k db db'' b e =
      let (a, db', first, second) = bind-ok m f db b db'' e in
      Moves-trans (h db db' a first) (k a db' db'' b second)

  pub pure-Steps : {A : Type 0} (a : A) → Steps (pure a)
  pure-Steps a db db' b h = subst (Moves S db) (ground arith) still

  pub transaction-Moves :
      {A : Type 0} (m : Tx A) (db : Db) → Steps m → Moves S db (transaction m db).0
  transaction-Moves m db h = transaction_keeps (Moves S db) m db still (λ a db' e. h db db' a e)
