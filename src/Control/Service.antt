-- ===== src/Control/Service.antt =====
-- internal/control/control.go: Preview and Confirm. A key is a text whose characters are its bytes; a
-- Service without a database is not modelled.
use mailproof.Base.{
  ℕ, ◌+◌, ◌*◌, String, Bool, false, not, ◌&&◌, ◌||◌, ◌==◌, ltb, Option, none, some, if◌then◌else◌,
  str_eq, is_some, find_row, count_rows, unix, second, len, trim_space,
}
use mailproof.Database.{
  Db, Tx, Result, pure, fail, ◌>>=◌, ◌>>◌, guard, gets, modify, transaction, ConfirmationToken,
  invalid_request, preview_expired, policy_version_conflict, idempotency_replayed,
}
use mailproof.Submitters.Service.{random}
use mailproof.Budget.Limits.{ℤ, pos, negsuc}
use mailproof.Control.Commands.{
  Parsers, Command, schema_version, canonical, encoded, refused, byte_len,
}
use mailproof.Control.Effective.{
  Crypto, effective_policy_state, ordered, policy_digest, projected_policy_digest,
}
use mailproof.Control.Statements.{
  current_version, insert_version, insert_token, insert_command, insert_audit, has_token, has_key,
  spend_token,
}
use mailproof.Control.Changes.{apply, rotate, rotated_capability, digest_capability}

pub record Service : Type 0 where
  pub confirmation_key : String
  pub capability_key : String
  pub capability_domain : String

pub record Preview : Type 0 where
  pub confirmation_token : String
  pub before_digest : String
  pub after_digest : String
  pub expires_at : ℕ
  pub normalized : String
  pub current_version : ℕ
  pub next_version : ℕ

pub record Confirmation : Type 0 where
  pub schema_version : String
  pub command_id : String
  pub expected_version : ℤ
  pub idempotency_key : String
  pub confirmation_token : String
  pub before_digest : String
  pub after_digest : String
  pub reason : String
  pub session_id : String

pub record Applied : Type 0 where
  pub command_id : String
  pub policy_version : ℕ
  pub capability : String

abbrev pub confirmation_ttl : ℕ
confirmation_ttl = 300 * second

abbrev pub is_version : ℤ → ℕ → Bool
is_version (pos n) m = n == m
is_version (negsuc n) m = false

abbrev pub mac : Crypto → Service → String → String
mac k s v = k.hmac s.confirmation_key v

abbrev pub rotates : String → Bool
rotates type = str_eq type "capability_rotate"

abbrev pub canonical_of : Parsers → Command → Tx String
canonical_of l c = elim (canonical l c) [ encoded b ↦ pure b | refused e ↦ fail e ]

abbrev pub required : Option String → Tx String
required o = elim o [ none ↦ fail invalid_request | some s ↦ pure s ]

abbrev pub preview_capability : Crypto → Service → String → String → String
preview_capability k s type token =
    if rotates type
    then digest_capability k s.capability_key (rotated_capability k s.capability_key token)
    else ""

abbrev pub new_token :
    Crypto
    → Service
    → String
    → Command
    → ℕ
    → String
    → String
    → ℕ
    → String
    → String
    → ConfirmationToken
new_token k s session c now b raw version before after = record {
  token_digest = mac k s raw;
  command_digest = after;
  session_id = session;
  expected_version = version;
  expires_at = unix (now + confirmation_ttl);
  consumed_at = none;
  command_json = b;
  command_type = c.command_type;
  command_id = c.command_id;
  idempotency_key = c.idempotency_key;
  reason = c.reason;
  before_digest = before;
}

unfoldable pub preview_statements :
    Parsers → Crypto → Service → String → Command → ℕ → Option String → Tx Preview
preview_statements l k s session c now token_bytes = do
  guard (not (ltb (len s.confirmation_key) 32 || ltb (byte_len session) 16)) invalid_request
  b ← canonical_of l c
  version ← current_version
  guard (is_version c.expected_version version) policy_version_conflict
  state ← gets (effective_policy_state k (unix now))
  raw ← random token_bytes
  let before = policy_digest k state
  -- The first digest has changed the slices that the second one reads.
  let added = preview_capability k s c.command_type raw
  after ← required (projected_policy_digest l k (ordered state) c.command_type c.command added)
  insert_token (new_token k s session c now b raw version before after)
  pure (record {
    confirmation_token = raw;
    before_digest = before;
    after_digest = after;
    expires_at = now + confirmation_ttl;
    normalized = b;
    current_version = version;
    next_version = version + 1;
  })

unfoldable pub preview :
    Parsers → Crypto → Service → String → Command → ℕ → Option String → Db → Db × Result Preview
preview l k s session c now token_bytes =
    transaction (preview_statements l k s session c now token_bytes)

abbrev pub admissible : Service → Confirmation → Bool
admissible s x = not (
    ltb (len s.confirmation_key) 32
    || not (str_eq x.schema_version schema_version)
    || ltb (byte_len x.session_id) 16
    || ltb (byte_len x.confirmation_token) 32
    || ltb (byte_len (trim_space x.reason)) 8)

-- The confirmation repeats what its preview returned.
abbrev pub repeats : Confirmation → ConfirmationToken → Bool
repeats x t =
    str_eq t.session_id x.session_id
    && is_version x.expected_version t.expected_version
    && str_eq t.command_digest x.after_digest
    && str_eq t.command_id x.command_id
    && str_eq t.idempotency_key x.idempotency_key
    && str_eq t.reason x.reason
    && str_eq t.before_digest x.before_digest

-- The checks on the row of the token.
unfoldable pub accept_token : Confirmation → ℕ → Option ConfirmationToken → Tx ConfirmationToken
accept_token x now none = fail preview_expired
accept_token x now (some t) =
    if ltb t.expires_at now
    then fail preview_expired
    else if is_some t.consumed_at
    then fail idempotency_replayed
    else if repeats x t
    then pure t
    else fail preview_expired

unfoldable pub check_current : ConfirmationToken → Tx ℕ
check_current t = do
  current ← current_version
  guard (current == t.expected_version) policy_version_conflict
  duplicate ← gets (λ db. count_rows (has_key t.idempotency_key) db.control_commands)
  guard (duplicate == 0) idempotency_replayed
  pure current

-- The command's change; the result is a new capability, or "".
unfoldable pub execute :
    Parsers
    → Crypto
    → Service
    → Confirmation
    → ConfirmationToken
    → ℕ
    → ℕ
    → String
    → Option String
    → Tx String
execute l k s x t version now rule_id id_bytes =
    if rotates t.command_type
    then rotate l k t.command_json s.capability_key s.capability_domain now
        (rotated_capability k s.capability_key x.confirmation_token) id_bytes
    else (do apply l t.command_type t.command_json version now rule_id; pure "")

-- The policy is now the one that was previewed.
unfoldable pub verify_digest : Crypto → ConfirmationToken → ℕ → Tx (Unit {0})
verify_digest k t now = do
  after ← gets (λ db. policy_digest k (effective_policy_state k now db))
  guard (str_eq after t.command_digest) policy_version_conflict

-- The command, the spent token and the audit event.
unfoldable pub record_command :
    Crypto → Service → Confirmation → ConfirmationToken → ℕ → ℕ → Tx (Unit {0})
record_command k s x t current now = do
  insert_command (record {
    command_id = t.command_id;
    idempotency_key = t.idempotency_key;
    command_type = t.command_type;
    command_digest = t.command_digest;
    expected_version = current;
    result_version = current + 1;
    result_code = "applied";
    created_at = now;
  })
  modify (spend_token (mac k s x.confirmation_token) now)
  insert_audit (record {
    command_id = t.command_id;
    actor = "unauthenticated-local";
    session_id = t.session_id;
    command_type = t.command_type;
    result_code = "applied";
    before_digest = t.before_digest;
    after_digest = t.command_digest;
    reason = t.reason;
    created_at = now;
  })

unfoldable pub confirm_statements :
    Parsers → Crypto → Service → Confirmation → ℕ → String → Option String → Tx Applied
confirm_statements l k s x now rule_id id_bytes = do
  guard (admissible s x) invalid_request
  found ← gets (λ db. find_row (has_token (mac k s x.confirmation_token)) db.confirmation_tokens)
  t ← accept_token x (unix now) found
  current ← check_current t
  insert_version (record {
    version = current + 1;
    created_at = unix now;
    command_id = t.command_id;
    digest = t.command_digest;
  })
  capability ← execute l k s x t (current + 1) now rule_id id_bytes
  verify_digest k t (unix now)
  record_command k s x t current (unix now)
  pure (record { command_id = t.command_id; policy_version = current + 1; capability = capability })

unfoldable pub confirm :
    Parsers
    → Crypto
    → Service
    → Confirmation
    → ℕ
    → String
    → Option String
    → Db
    → Db × Result Applied
confirm l k s x now rule_id id_bytes = transaction (confirm_statements l k s x now rule_id id_bytes)
