-- ===== src/Control/Steps.antt =====
-- internal/control: what each step of a confirmation has checked and changed where it succeeds.
use mailproof.Base.{
  ℕ, ◌+◌, ◌≡◌, ◌≤◌, String, true, [], ◌∷◌, ◌++◌, Option, none, some, arith, subst, ◌∙◌, ap,
  Bool-cases, Option-cases, inl, inr, count_rows, update_rows, str_eq_iff,
}
use mailproof.Database.{Db, ok, pure, PolicyVersion, ControlCommand, AuditEvent, ConfirmationToken}
use mailproof.Database.Laws.{bind-elim}
use mailproof.Control.Commands.{Parsers}
use mailproof.Control.Effective.{Crypto, effective_policy_state, policy_digest}
use mailproof.Control.Statements.{
  newest, current_version, insert_version, insert_command, insert_audit, has_key, open_token, spent,
  spend_token,
}
use mailproof.Control.Changes.{apply, rotated_capability}
use mailproof.Control.Frame.{Framed, apply-Frames, rotate-Frames}
use mailproof.Control.Service.{
  Service, Confirmation, mac, repeats, rotates, accept_token, check_current, execute, verify_digest,
  record_command,
}

-- The rows that a confirmation adds.
abbrev pub version_row : ConfirmationToken → ℕ → ℕ → PolicyVersion
version_row t current now = record {
  version = current + 1;
  created_at = now;
  command_id = t.command_id;
  digest = t.command_digest;
}

abbrev pub command_row : ConfirmationToken → ℕ → ℕ → ControlCommand
command_row t current now = record {
  command_id = t.command_id;
  idempotency_key = t.idempotency_key;
  command_type = t.command_type;
  command_digest = t.command_digest;
  expected_version = current;
  result_version = current + 1;
  result_code = "applied";
  created_at = now;
}

abbrev pub audit_row : ConfirmationToken → ℕ → AuditEvent
audit_row t now = record {
  command_id = t.command_id;
  actor = "unauthenticated-local";
  session_id = t.session_id;
  command_type = t.command_type;
  result_code = "applied";
  before_digest = t.before_digest;
  after_digest = t.command_digest;
  reason = t.reason;
  created_at = now;
}

-- The row of the token, before.
pub record Accepted (x : Confirmation) (now : ℕ) (t : ConfirmationToken) : Type 0 where
  pub in_time : now ≤ t.expires_at
  pub unspent : t.consumed_at ≡ none
  pub repeated : repeats x t ≡ true

pub accept_token-ok :
    (x : Confirmation) (now : ℕ) (o : Option ConfirmationToken) (db : Db) (t : ConfirmationToken)
    (db' : Db)
    → accept_token x now o db ≡ ok (t, db')
    → (o ≡ some t) × (db ≡ db') × Accepted x now t
unfolding accept_token
accept_token-ok x now none db t db' h = absurd (ground (arith, h))
accept_token-ok x now (some r) db t db' h = elim (Option-cases r.consumed_at) [
  | inl e ↦ ground (arith, e, h)
  | inr (a, e) ↦ absurd (ground (arith, e, h))
]

pub record Current (t : ConfirmationToken) (db : Db) (current : ℕ) : Type 0 where
  pub is_newest : newest db.policy_versions ≡ some current
  pub expected : current ≡ t.expected_version
  pub fresh_key : count_rows (has_key t.idempotency_key) db.control_commands ≡ 0

pub check_current-ok :
    (t : ConfirmationToken) (db : Db) (current : ℕ) (db' : Db)
    → check_current t db ≡ ok (current, db')
    → (db ≡ db') × Current t db current
unfolding check_current current_version
check_current-ok t db current db' h = elim (Option-cases (newest db.policy_versions)) [
  | inl e ↦ absurd (ground (arith, e, h))
  | inr (n, e) ↦ ground (arith, e, h)
]

pub insert_version-ok :
    (v : PolicyVersion) (db : Db) (u : Unit {0}) (db' : Db)
    → insert_version v db ≡ ok (u, db')
    → record db { policy_versions = db.policy_versions ++ (v ∷ []) } ≡ db'
unfolding insert_version
insert_version-ok v db u db' h = ground (arith, h)

pub execute-Framed :
    (l : Parsers) (k : Crypto) (s : Service) (x : Confirmation) (t : ConfirmationToken)
    (version now : ℕ) (rule_id : String) (id_bytes : Option String) (db : Db) (a : String)
    (db' : Db)
    → execute l k s x t version now rule_id id_bytes db ≡ ok (a, db')
    → Framed db db'
unfolding execute
execute-Framed l k s x t version now rule_id id_bytes db a db' h =
    elim (Bool-cases (rotates t.command_type)) [
      | inl e ↦
          rotate-Frames l k t.command_json s.capability_key s.capability_domain now
            (rotated_capability k s.capability_key x.confirmation_token) id_bytes db a db'
            (ground (arith, e, h))
      | inr e ↦
          bind-elim (Framed db db') (apply l t.command_type t.command_json version now rule_id)
            (λ u. pure "") db a db' (ground (arith, e, h))
            (λ u d g k'.
              let f = apply-Frames l t.command_type t.command_json version now rule_id db u d g in
              let same : d ≡ db' = ground (arith, k') in subst (Framed db) same f)
    ]

pub verify_digest-ok :
    (k : Crypto) (t : ConfirmationToken) (now : ℕ) (db : Db) (u : Unit {0}) (db' : Db)
    → verify_digest k t now db ≡ ok (u, db')
    → (db ≡ db') × (policy_digest k (effective_policy_state k now db) ≡ t.command_digest)
unfolding verify_digest
verify_digest-ok k t now db u db' h =
    ground
      (arith, h, str_eq_iff (policy_digest k (effective_policy_state k now db)) t.command_digest)

insert_command-ok :
    (c : ControlCommand) (db : Db) (u : Unit {0}) (db' : Db)
    → insert_command c db ≡ ok (u, db')
    → record db { control_commands = db.control_commands ++ (c ∷ []) } ≡ db'
unfolding insert_command
insert_command-ok c db u db' h = ground (arith, h)

insert_audit-ok :
    (a : AuditEvent) (db : Db) (u : Unit {0}) (db' : Db)
    → insert_audit a db ≡ ok (u, db')
    → record db { audit_events = db.audit_events ++ (a ∷ []) } ≡ db'
unfolding insert_audit
insert_audit-ok a db u db' h = ground (arith, h)

-- The database after the rows of a confirmation are written.
abbrev pub recorded : String → ConfirmationToken → ℕ → ℕ → Db → Db
recorded digest t current now db = record db {
  control_commands = db.control_commands ++ (command_row t current now ∷ []);
  confirmation_tokens = update_rows (open_token digest) (spent now) db.confirmation_tokens;
  audit_events = db.audit_events ++ (audit_row t now ∷ []);
}

pub record_command-ok :
    (k : Crypto) (s : Service) (x : Confirmation) (t : ConfirmationToken) (current now : ℕ)
    (db : Db) (u : Unit {0}) (db' : Db)
    → record_command k s x t current now db ≡ ok (u, db')
    → recorded (mac k s x.confirmation_token) t current now db ≡ db'
unfolding record_command
record_command-ok k s x t current now db u db' h =
    let digest = mac k s x.confirmation_token in
    let goal = recorded digest t current now db ≡ db' in
    bind-elim goal (insert_command (command_row t current now)) _ db u db' h (λ w d e h.
      let c = insert_command-ok (command_row t current now) db w d e in
      let a = insert_audit-ok (audit_row t now) (spend_token digest now d) u db' h in
      ap
        (λ (z : Db). record (spend_token digest now z) {
          audit_events = z.audit_events ++ (audit_row t now ∷ []);
        })
        c
      ∙ a)
