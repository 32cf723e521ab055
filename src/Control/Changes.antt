-- ===== src/Control/Changes.antt =====
-- internal/control/control.go: apply and rotate, the changes that a confirmed command makes.
use mailproof.Base.{
  ℕ, String, Bool, true, false, not, ◌&&◌, ◌||◌, ◌==◌, ltb, Option, none, some, if◌then◌else◌,
  str_eq, is_empty, join, decimal, count_rows, update_rows, unix, len,
}
use mailproof.Database.{
  Tx, pure, fail, ◌>>=◌, ◌>>◌, guard, gets, modify, Submitter, Capability, active, revoked, Status,
  RuleRow, invalid_request, unsupported_command,
}
use mailproof.Submitters.Statements.{
  has_submitter, is_from, move_submitter, withdrawn, live_for, retire, insert_capability,
}
use mailproof.Submitters.Service.{random}
use mailproof.Budget.Limits.{lt, pos}
use mailproof.Control.Commands.{
  Payload, Parsers, Operation, operation, disables, quota_change, submitter_suspend,
  submitter_reactivate, capability_rotate, subject_allowlist_put, peer_block_put,
  outer_domain_block_put, subject_domain_block_put,
}
use mailproof.Control.Effective.{Crypto, limit, members, unwrapped}
use mailproof.Control.Statements.{has_rule, insert_rule}

abbrev pub limited : Payload → String → Submitter → Submitter
limited v version s = record s {
  minute_limit = limit v.minute_limit;
  hour_limit = limit v.hour_limit;
  day_limit = limit v.day_limit;
  policy_version = version;
}

abbrev pub reactivated : Submitter → Submitter
reactivated s = record s { status = active; revoked_at = none }

-- RowsAffected is one.
abbrev pub changes_one : ℕ → Tx (Unit {0})
changes_one n = guard (n == 1) invalid_request

abbrev pub matching_submitters : (Submitter → Bool) → Tx ℕ
matching_submitters p = gets (λ db. count_rows p db.submitters)

unfoldable pub change_quota : Payload → ℕ → Tx (Unit {0})
change_quota v version = do
  guard
      (not (
        is_empty v.submitter_id
        || lt v.minute_limit (pos 1)
        || lt v.hour_limit (pos 1)
        || lt v.day_limit (pos 1)))
      invalid_request
  n ← matching_submitters (has_submitter v.submitter_id)
  modify (λ db. record db {
    submitters =
        update_rows (has_submitter v.submitter_id) (limited v (join "v" (decimal version)))
          db.submitters;
  })
  changes_one n

-- UPDATE ... WHERE submitter_id=? AND status=?, and RowsAffected.
unfoldable pub change_status : String → Status → Status → (Submitter → Submitter) → Tx (Unit {0})
change_status id from to f = do
  n ← matching_submitters (is_from id from)
  move_submitter id from to f
  changes_one n

abbrev pub enabled_rule : String → String → RuleRow → Bool
enabled_rule id type r = has_rule id r && str_eq r.rule_type type && r.enabled

abbrev pub disabled : ℕ → RuleRow → RuleRow
disabled version r = record r { enabled = false; version = version }

unfoldable pub disable_rule : String → Payload → ℕ → Tx (Unit {0})
disable_rule type v version = do
  guard (not (is_empty v.rule_id)) invalid_request
  n ← gets (λ db. count_rows (enabled_rule v.rule_id type) db.policy_rules)
  modify (λ db. record db {
    policy_rules = update_rows (enabled_rule v.rule_id type) (disabled version) db.policy_rules;
  })
  changes_one n

-- The expiry of a new rule lies after the present.
unfoldable pub future_expiry : Parsers → String → ℕ → Tx (Option ℕ)
future_expiry l expiry now = if is_empty expiry then pure none else elim (l.parse_time expiry) [
  | none ↦ fail invalid_request
  | some t ↦
      if ltb now t.nanoseconds then pure (some (unix t.nanoseconds)) else fail invalid_request
]

unfoldable pub add_rule : Parsers → String → Payload → String → ℕ → ℕ → String → Tx (Unit {0})
add_rule l type v subject version now rule_id = do
  guard (not (is_empty v.value)) invalid_request
  expires_at ← future_expiry l v.expiry now
  insert_rule (record {
    rule_id = rule_id;
    version = version;
    rule_type = type;
    subject = subject;
    value = v.value;
    enabled = true;
    expires_at = expires_at;
    created_at = unix now;
  })

unfoldable pub change_rule : Parsers → String → Payload → String → ℕ → ℕ → String → Tx (Unit {0})
change_rule l type v subject version now rule_id =
    if disables v
    then disable_rule type v version
    else add_rule l type v subject version now rule_id

-- The switch of apply.
unfoldable pub apply_operation :
    Parsers → Operation → String → Payload → String → ℕ → ℕ → String → Tx (Unit {0})
apply_operation l quota_change type v subject version now rule_id = change_quota v version
apply_operation l submitter_suspend type v subject version now rule_id =
    change_status v.submitter_id active revoked (withdrawn (unix now))
apply_operation l submitter_reactivate type v subject version now rule_id =
    change_status v.submitter_id revoked active reactivated
apply_operation l capability_rotate type v subject version now rule_id = fail unsupported_command
apply_operation l subject_allowlist_put type v subject version now rule_id =
    change_rule l type v subject version now rule_id
apply_operation l peer_block_put type v subject version now rule_id =
    change_rule l type v subject version now rule_id
apply_operation l outer_domain_block_put type v subject version now rule_id =
    change_rule l type v subject version now rule_id
apply_operation l subject_domain_block_put type v subject version now rule_id =
    change_rule l type v subject version now rule_id

-- `rule_id` is what randomblob gives.
unfoldable pub apply : Parsers → String → String → ℕ → ℕ → String → Tx (Unit {0})
apply l type raw version now rule_id = elim (members l raw) [
  | none ↦ fail invalid_request
  | some (v, subject) ↦ elim (operation type) [
    | none ↦ fail unsupported_command
    | some o ↦ apply_operation l o type v subject version now rule_id
  ]
]

abbrev pub rotated_capability : Crypto → String → String → String
rotated_capability k key token = k.base64 (k.hmac key (join "control-rotate:" token))

abbrev pub digest_capability : Crypto → String → String → String
digest_capability k key capability = k.hex (k.hmac key capability)

abbrev pub control_capability : Crypto → String → String → String → String → ℕ → Capability
control_capability k key id submitter_id secret now = record {
  capability_id = id;
  submitter_id = submitter_id;
  digest = k.hmac key secret;
  key_id = "control";
  activated_at = unix now;
  revoked_at = none;
}

-- The owner that rotate reads, or "".
abbrev pub rotated_owner : Parsers → String → String
rotated_owner l raw = elim (l.decode (unwrapped l raw)) [ none ↦ "" | some v ↦ v.submitter_id ]

-- The UPDATE and the INSERT of rotate.
unfoldable pub replace_capability : Capability → ℕ → Tx (Unit {0})
replace_capability c now = do
  n ← gets (λ db. count_rows (live_for c.submitter_id) db.capabilities)
  modify (λ db. record db {
    capabilities = update_rows (live_for c.submitter_id) (retire now) db.capabilities;
  })
  guard (n == 1) invalid_request
  insert_capability c

-- The address of the new capability. `id_bytes` is what the random source gives.
unfoldable pub rotate :
    Parsers → Crypto → String → String → String → ℕ → String → Option String → Tx String
rotate l k raw key domain now secret id_bytes = do
  guard (not (ltb (len key) 32 || is_empty domain)) invalid_request
  let owner = rotated_owner l raw
  guard (not (is_empty owner)) invalid_request
  guard (not (is_empty secret)) invalid_request
  id ← random id_bytes
  replace_capability (control_capability k key id owner secret now) (unix now)
  pure (join "verify+" (join secret (join "@" domain)))
