-- ===== src/Queue/Refinement/Collecting.antt =====
-- The collector's operations, as moves.
use mailproof.Base.{join, ℕ, String, refl, Bool-cases, Option, none, some, inl, inr}
use mailproof.Database.{Db, RunState}
use mailproof.Queue.Statements.{new_run}
use mailproof.Queue.Collections.{
  ReportDestination, enqueue_statements, enqueue_collection, enqueue_admitted_collection,
  incomplete, new_delivery,
}
use mailproof.Queue.Rejections.{
  reject_statements, record_rejected_collection,
  record_admitted_rejected_collection_with_policy_rule, notify_statements, rejection_decision,
  rejection_record, rejection_work, pending_signature, policy_version_text,
  enqueue_verified_rejection_notification,
}
use mailproof.Queue.Lifecycle.{Moves, still, LeaseSound}
use mailproof.Queue.Refinement.Inserts.{
  Steps, bind-Steps, transaction-Moves, event_tx-Moves, insert_delivery-Moves, insert_run-Moves,
  insert_decision-Moves, insert_work-Moves, insert_record-Moves, insert_signing-Moves,
}

pub new_run-LeaseSound : (id delivery : String) (now : ℕ) → LeaseSound (new_run id delivery now)
new_run-LeaseSound id delivery now = record { owner_iff = refl; until_iff = refl }

module _ (S : RunState → RunState → Type 0) where
  enqueue_statements-Steps :
      (delivery digest source run : String) (dest : Option ReportDestination) (now : ℕ)
      → Steps S (enqueue_statements delivery digest source run dest now)
  unfolding enqueue_statements
  enqueue_statements-Steps delivery digest source run dest now =
      bind-Steps S _ _ (insert_delivery-Moves S _) (λ _.
        bind-Steps S _ _
          (λ db db' u. insert_run-Moves S _ db db' u refl (new_run-LeaseSound run delivery now))
          (λ _. event_tx-Moves S _ _ _ _ _ _))

  pub enqueue_collection-Moves :
      (delivery digest source run : String) (now : ℕ) (db : Db)
      → Moves S db (enqueue_collection delivery digest source run now db).0
  unfolding enqueue_collection
  enqueue_collection-Moves delivery digest source run now db =
      transaction-Moves S _ db (enqueue_statements-Steps delivery digest source run none now)

  pub enqueue_admitted_collection-Moves :
      (delivery digest source run : String) (dest : ReportDestination) (now : ℕ) (db : Db)
      → Moves S db (enqueue_admitted_collection delivery digest source run dest now db).0
  unfolding enqueue_admitted_collection
  enqueue_admitted_collection-Moves delivery digest source run dest now db =
      elim (Bool-cases (incomplete dest)) [
        | inl e ↦ rw e still
        | inr e ↦ rw e (
            transaction-Moves S _ db
              (enqueue_statements-Steps delivery digest source run (some dest) now))
      ]

  reject_statements-Steps :
      (delivery digest source decision reason : String) (dest : Option ReportDestination)
      (version : ℕ) (rule : String) (now : ℕ)
      → Steps S (reject_statements delivery digest source decision reason dest version rule now)
  unfolding reject_statements
  reject_statements-Steps delivery digest source decision reason dest version rule now =
      let v = policy_version_text version in
      bind-Steps S _ _ (insert_delivery-Moves S (new_delivery delivery digest source dest now)) λ _.
        bind-Steps S _ _ (insert_decision-Moves S (rejection_decision decision reason v rule now))
          λ _. bind-Steps S _ _ (insert_work-Moves S (rejection_work decision delivery now)) λ _.
            bind-Steps S _ _
              (insert_record-Moves S (rejection_record decision delivery reason v rule now))
              λ _. bind-Steps S _ _ (insert_signing-Moves S (pending_signature decision now)) λ _.
                bind-Steps S _ _
                  (event_tx-Moves S "collector" "delivery" delivery "subject_preflight" reason now)
                  λ _.
                    event_tx-Moves S "reporter" "decision" (join decision ":signing")
                      "rejection_delivery_state" "pending" now

  pub record_rejected_collection-Moves :
      (delivery digest source decision reason : String) (now : ℕ) (db : Db)
      → Moves S db (record_rejected_collection delivery digest source decision reason now db).0
  unfolding record_rejected_collection
  record_rejected_collection-Moves delivery digest source decision reason now db =
      transaction-Moves S _ db
        (reject_statements-Steps delivery digest source decision reason none 0 "" now)

  pub record_admitted_rejected-Moves :
      (delivery digest source decision reason : String) (dest : ReportDestination) (version : ℕ)
      (rule : String) (now : ℕ) (db : Db)
      → Moves S db
          (record_admitted_rejected_collection_with_policy_rule delivery digest source decision
            reason dest version rule now db).0
  unfolding record_admitted_rejected_collection_with_policy_rule
  record_admitted_rejected-Moves delivery digest source decision reason dest version rule now db =
      elim (Bool-cases (incomplete dest)) [
        | inl e ↦ rw e still
        | inr e ↦ rw e (
            transaction-Moves S _ db (
              reject_statements-Steps delivery digest source decision reason (some dest) version
                rule now))
      ]

  notify_statements-Steps :
      (decision delivery work : String) (now : ℕ)
      → Steps S (notify_statements decision delivery work now)
  unfolding notify_statements
  notify_statements-Steps decision delivery work now =
      bind-Steps S _ _ (insert_work-Moves S _) (λ _. event_tx-Moves S _ _ _ _ _ _)

  pub notification-Moves :
      (decision delivery work : String) (now : ℕ) (db : Db)
      → Moves S db (enqueue_verified_rejection_notification decision delivery work now db).0
  unfolding enqueue_verified_rejection_notification
  notification-Moves decision delivery work now db =
      transaction-Moves S _ db (notify_statements-Steps decision delivery work now)
