-- ===== src/Control/Statements.antt =====
-- internal/control/control.go: the SQL statements of Preview and Confirm, with the keys of Migrate.
use mailproof.Base.{
  ℕ, String, Bool, ◌||◌, ◌==◌, max, List, [], ◌∷◌, ◌++◌, Option, none, some, if◌then◌else◌, str_eq,
  any_row, update_rows, ◌&&◌, not, is_some,
}
use mailproof.Database.{
  Db, Tx, ok, err, RuleRow, PolicyVersion, ControlCommand, AuditEvent, ConfirmationToken,
  unique_violation, foreign_key_violation, no_policy_version,
}

-- SELECT MAX(version); NULL cannot be scanned.
unfoldable pub newest : List PolicyVersion → Option ℕ
newest [] = none
newest (v ∷ vs) = elim (newest vs) [ none ↦ some v.version | some n ↦ some (max v.version n) ]

unfoldable pub current_version : Tx ℕ
current_version db = elim (newest db.policy_versions) [
  | none ↦ err no_policy_version
  | some n ↦ ok (n, db)
]

abbrev pub has_version : ℕ → PolicyVersion → Bool
has_version n v = v.version == n

abbrev pub same_version : PolicyVersion → PolicyVersion → Bool
same_version a b = has_version a.version b || str_eq a.command_id b.command_id

unfoldable pub insert_version : PolicyVersion → Tx (Unit {0})
insert_version v db =
    if any_row (same_version v) db.policy_versions
    then err unique_violation
    else ok (tt, record db { policy_versions = db.policy_versions ++ (v ∷ []) })

abbrev pub has_token : String → ConfirmationToken → Bool
has_token digest t = str_eq t.token_digest digest

unfoldable pub insert_token : ConfirmationToken → Tx (Unit {0})
insert_token t db =
    if any_row (has_token t.token_digest) db.confirmation_tokens
    then err unique_violation
    else ok (tt, record db { confirmation_tokens = db.confirmation_tokens ++ (t ∷ []) })

abbrev pub has_command : String → ControlCommand → Bool
has_command id c = str_eq c.command_id id

abbrev pub has_key : String → ControlCommand → Bool
has_key key c = str_eq c.idempotency_key key

abbrev pub same_command : ControlCommand → ControlCommand → Bool
same_command a b = has_command a.command_id b || has_key a.idempotency_key b

unfoldable pub insert_command : ControlCommand → Tx (Unit {0})
insert_command c db =
    if any_row (same_command c) db.control_commands
    then err unique_violation
    else ok (tt, record db { control_commands = db.control_commands ++ (c ∷ []) })

unfoldable pub insert_audit : AuditEvent → Tx (Unit {0})
insert_audit a db =
    if any_row (has_command a.command_id) db.control_commands
    then ok (tt, record db { audit_events = db.audit_events ++ (a ∷ []) })
    else err foreign_key_violation

abbrev pub has_rule : String → RuleRow → Bool
has_rule id r = str_eq r.rule_id id

unfoldable pub insert_rule : RuleRow → Tx (Unit {0})
insert_rule r db =
    if any_row (has_rule r.rule_id) db.policy_rules
    then err unique_violation
    else if any_row (has_version r.version) db.policy_versions
    then ok (tt, record db { policy_rules = db.policy_rules ++ (r ∷ []) })
    else err foreign_key_violation

-- The UPDATE that spends a confirmation.
abbrev pub open_token : String → ConfirmationToken → Bool
open_token digest t = has_token digest t && not (is_some t.consumed_at)

abbrev pub spent : ℕ → ConfirmationToken → ConfirmationToken
spent now t = record t { consumed_at = some now }

abbrev pub spend_token : String → ℕ → Db → Db
spend_token digest now db = record db {
  confirmation_tokens = update_rows (open_token digest) (spent now) db.confirmation_tokens;
}
