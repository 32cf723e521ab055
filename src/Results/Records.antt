-- ===== src/Results/Records.antt =====
-- internal/results/results.go: InsertRecord and campaignEligible.
use mailproof.Base.{
  ℕ, String, Bool, not, ◌&&◌, ◌||◌, [], ◌∷◌, ◌++◌, Option, none, some, if◌then◌else◌, str_eq,
  is_empty, is_some, any_row, find_row, unix,
}
use mailproof.Database.{
  Db, Tx, Result, ok, err, transaction, Run, Delivery, ResultRow, ProjectionEntry, unique_violation,
  foreign_key_violation, invalid_query, conflicting_record,
}
use mailproof.Budget.Limits.{ℤ, pos, negsuc, lt}

-- The zero time is `none`.
pub record Record : Type 0 where
  pub run_id : String
  pub delivery_id : String
  pub submitter_id : String
  pub verdict : String
  pub policy_version : String
  pub schema_version : String
  pub auth_scope : String
  pub occurred_at : Option ℕ
  pub selected_subject_status : String
  pub risk_summary : String
  pub category_summary : String
  pub unavailable_analyzers : ℤ
  pub manifest_digest : String
  pub manifest_path : String
  pub source_artifact_digests : String

unfoldable pub is_complete : Record → Bool
is_complete r = not (
    is_empty r.run_id
    || is_empty r.delivery_id
    || not (is_some r.occurred_at)
    || is_empty r.verdict
    || is_empty r.manifest_digest
    || is_empty r.manifest_path
    || lt r.unavailable_analyzers (pos 0))

unfoldable pub campaign_eligible : Record → Bool
campaign_eligible r =
    str_eq r.verdict "FAILED"
    && (str_eq r.category_summary "phishing"
        || str_eq r.category_summary "impersonation"
        || str_eq r.category_summary "malicious-link"
        || str_eq r.category_summary "malicious-attachment")

abbrev count_of : ℤ → ℕ
count_of (pos n) = n
count_of (negsuc n) = 0

abbrev seconds_of : Option ℕ → ℕ
seconds_of none = 0
seconds_of (some t) = unix t

abbrev pub result_row : Record → ℕ → ResultRow
result_row r now = record {
  run_id = r.run_id;
  delivery_id = r.delivery_id;
  submitter_id = r.submitter_id;
  occurred_at = seconds_of r.occurred_at;
  verdict = r.verdict;
  policy_version = r.policy_version;
  schema_version = r.schema_version;
  auth_scope = r.auth_scope;
  selected_subject_status = r.selected_subject_status;
  unavailable_analyzers = count_of r.unavailable_analyzers;
  risk_summary = r.risk_summary;
  category_summary = r.category_summary;
  manifest_digest = r.manifest_digest;
  manifest_path = r.manifest_path;
  source_artifact_digests = r.source_artifact_digests;
  created_at = unix now;
}

abbrev pub result_of : String → ResultRow → Bool
result_of id r = str_eq r.run_id id

abbrev run_named : String → Run → Bool
run_named id r = str_eq r.run_id id

abbrev delivery_named : String → Delivery → Bool
delivery_named id d = str_eq d.delivery_id id

abbrev entry_of : String → ProjectionEntry → Bool
entry_of id e = str_eq e.run_id id

unfoldable pub insert_result : ResultRow → Tx (Unit {0})
insert_result r db =
    if any_row (run_named r.run_id) db.runs && any_row (delivery_named r.delivery_id) db.deliveries
    then ok (tt, record db { result_records = db.result_records ++ (r ∷ []) })
    else err foreign_key_violation

unfoldable pub insert_entry : Record → ℕ → Tx (Unit {0})
insert_entry r now db =
    if any_row (entry_of r.run_id) db.projection_outbox
    then err unique_violation
    else ok (
      tt,
      record db {
        projection_outbox =
            db.projection_outbox
            ++ (record {
              run_id = r.run_id;
              manifest_path = r.manifest_path;
              manifest_digest = r.manifest_digest;
              created_at = unix now;
            }
                ∷ []);
      },
    )

-- The facts that a second projection has to repeat.
abbrev pub repeats_facts : ResultRow → Record → Bool
repeats_facts old r =
    str_eq old.delivery_id r.delivery_id
    && str_eq old.verdict r.verdict
    && str_eq old.manifest_digest r.manifest_digest
    && str_eq old.manifest_path r.manifest_path

-- The INSERT of a new row, with its entry in the outbox.
unfoldable pub add_result : Record → ℕ → Tx (Unit {0})
add_result r now db = elim (insert_result (result_row r now) db) [
  | err e ↦ err e
  | ok (u, db') ↦ if campaign_eligible r then insert_entry r now db' else ok (u, db')
]

-- ON CONFLICT DO NOTHING, and what then is read.
unfoldable pub insert_record_statements : Record → ℕ → Tx (Unit {0})
insert_record_statements r now db =
    if is_complete r
    then elim (find_row (result_of r.run_id) db.result_records) [
      | none ↦ add_result r now db
      | some old ↦ if repeats_facts old r then ok (tt, db) else err conflicting_record
    ]
    else err invalid_query

unfoldable pub insert_record : Record → ℕ → Db → Db × Result (Unit {0})
insert_record r now = transaction (insert_record_statements r now)
