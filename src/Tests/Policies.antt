-- ===== src/Tests/Policies.antt =====
-- Policy commands at concrete inputs: a quota that is previewed and confirmed.
use mailproof.Base.{
  ◌≡◌, refl, String, false, List, [], ◌∷◌, none, some, join, decimal, unix, if◌then◌else◌, str_eq,
  find_row, any_row, count_rows, update_rows, select_rows, sort_by, place_by, trim_space,
}
use mailproof.Database.{Db, Result, Error, Submitter, active, PolicyVersion, ok, err}
use mailproof.Budget.Limits.{pos}
use mailproof.Control.Commands.{
  Parsers, Payload, Command, schema_version, operation, byte_len, canonical, validate_operation,
  valid_operation, well_formed,
}
use mailproof.Control.Effective.{
  Crypto, EffectivePolicy, EffectiveSubmitter, effective_policy_state, effective_submitters,
  ordered, policy_digest, project, unwrapped, members, projected_policy_digest,
}
use mailproof.Control.Statements.{
  newest, current_version, insert_version, insert_token, insert_command, insert_audit,
}
use mailproof.Control.Changes.{change_quota, apply_operation, apply}
use mailproof.Control.Service.{
  Service, Preview, Confirmation, Applied, preview, preview_statements, confirm, confirm_statements,
  accept_token, check_current, execute, verify_digest, record_command,
}
use mailproof.Control.Confirming.{Confirms, confirm_lem}
use mailproof.Control.Previewing.{Previewed, preview_lem}
use mailproof.Control.History.{Call, confirms, previews, performs}
use mailproof.Base.{Option, true, false, ℕ}
use mailproof.Database.{RuleRow}
use mailproof.Control.Commands.{peer_block_put}
use mailproof.Control.Effective.{remove_first}
use mailproof.Control.Disabling.{preview_disabling}
use mailproof.Control.Once.{confirm_once}
use mailproof.Control.Ledger.{Extends, performs-Extends}
use mailproof.Tests.Samples.{empty_db, at}

abbrev seven_a_minute : Payload
seven_a_minute = record {
  submitter_id = "s1";
  rule_id = "";
  value = "";
  subject = some "";
  expiry = "";
  enabled = none;
  minute_limit = pos 7;
  hour_limit = pos 30;
  day_limit = pos 100;
}

abbrev parsers : Parsers
parsers = record {
  decode = λ raw. if str_eq raw "quota" then some seven_a_minute else none;
  command_of = λ raw. if str_eq raw "quota_change quota" then some "quota" else none;
  encode = λ type raw. some (join type (join " " raw));
  is_ip = λ t. false;
  is_cidr = λ t. false;
  parse_time = λ t. none;
}

abbrev minutes : List EffectiveSubmitter → String
minutes [] = ""
minutes (x ∷ xs) = join x.id (join " " (join (decimal x.minute) (minutes xs)))

abbrev crypto : Crypto
crypto = record {
  hmac = λ key text. join "mac " text;
  sha256 = λ t. join "sum " t;
  hex = λ t. t;
  base64 = λ t. t;
  policy_json = λ (p : EffectivePolicy). minutes p.submitters;
}

abbrev service : Service
service = record {
  confirmation_key = "0123456789abcdef0123456789abcdef";
  capability_key = "fedcba9876543210fedcba9876543210";
  capability_domain = "proof.example";
}

abbrev alice : Submitter
alice = record {
  submitter_id = "s1";
  canonical_address = "alice@x.org";
  status = active;
  created_at = 1;
  verified_at = some 2;
  revoked_at = none;
  policy_version = "v1";
  minute_limit = 5;
  hour_limit = 30;
  day_limit = 100;
}

abbrev bootstrap : PolicyVersion
bootstrap = record { version = 0; created_at = 1; command_id = "bootstrap"; digest = "" }

abbrev with_alice : Db
with_alice = record empty_db { submitters = alice ∷ []; policy_versions = bootstrap ∷ [] }

abbrev quota : Command
quota = record {
  schema_version = schema_version;
  command_id = "command-0000-0001";
  command_type = "quota_change";
  expected_version = pos 0;
  reason = "more mail";
  idempotency_key = "key-0000-0000-0001";
  command = "quota";
}

abbrev token : String
token = "tokentokentokentokentokentokentoken"

abbrev shown : Preview
shown = record {
  confirmation_token = token;
  before_digest = "sum s1 5";
  after_digest = "sum s1 7";
  expires_at = at 400;
  normalized = "quota_change quota";
  current_version = 0;
  next_version = 1;
}

abbrev previewed : Db
previewed =
    (preview parsers crypto service "session-000000001" quota (at 100) (some token) with_alice).0

preview_run :
    preview parsers crypto service "session-000000001" quota (at 100) (some token) with_alice
    ≡ (previewed, ok shown)
unfolding preview preview_statements canonical well_formed operation byte_len trim_space
    validate_operation valid_operation current_version newest effective_policy_state
    effective_submitters sort_by place_by select_rows policy_digest ordered projected_policy_digest
    members unwrapped project insert_token any_row update_rows unix decimal
preview_run = refl

abbrev yes_please : Confirmation
yes_please = record {
  schema_version = schema_version;
  command_id = "command-0000-0001";
  expected_version = pos 0;
  idempotency_key = "key-0000-0000-0001";
  confirmation_token = token;
  before_digest = "sum s1 5";
  after_digest = "sum s1 7";
  reason = "more mail";
  session_id = "session-000000001";
}

abbrev confirmed : Db × Result Applied
confirmed = confirm parsers crypto service yes_please (at 200) "r1" none previewed

abbrev applied : Applied
applied = record { command_id = "command-0000-0001"; policy_version = 1; capability = "" }

confirm_run : confirmed ≡ (confirmed.0, ok applied)
unfolding preview preview_statements canonical well_formed operation byte_len trim_space
    validate_operation valid_operation current_version newest effective_policy_state
    effective_submitters sort_by place_by select_rows policy_digest ordered projected_policy_digest
    members unwrapped project insert_token any_row update_rows unix decimal confirm
    confirm_statements accept_token check_current execute verify_digest record_command find_row
    count_rows apply apply_operation change_quota insert_version insert_command insert_audit
confirm_run = refl

preview_lem_example :
    Previewed parsers crypto service "session-000000001" quota (at 100) with_alice previewed shown
preview_lem_example =
    preview_lem parsers crypto service "session-000000001" quota (at 100) (some token) with_alice
      previewed shown preview_run

confirm_lem_example : Confirms crypto service yes_please (at 200) previewed confirmed.0 applied
confirm_lem_example =
    confirm_lem parsers crypto service yes_please (at 200) "r1" none previewed confirmed.0 applied
      confirm_run

abbrev again : List Call
again = previews "session-000000001" quota (at 210) (some token) ∷ []

confirm_once_example :
    (e : Error) × (confirm parsers crypto service yes_please
        (at 220)
        "r2"
        none
        (performs parsers crypto service again confirmed.0)
      ≡ (performs parsers crypto service again confirmed.0, err e))
confirm_once_example =
    confirm_once parsers crypto service yes_please yes_please (at 200) (at 220) "r1" "r2" none none
      previewed confirmed.0 applied again confirm_run refl

abbrev both_steps : List Call
both_steps =
    previews "session-000000001" quota (at 100) (some token)
    ∷ confirms yes_please (at 200) "r1" none
    ∷ []

performs-Extends_example :
    Extends 0 with_alice (performs parsers crypto service both_steps with_alice)
unfolding newest
performs-Extends_example = performs-Extends parsers crypto service both_steps with_alice 0 refl

-- A command that disables a rule.
abbrev switched_off : Payload
switched_off = record seven_a_minute { submitter_id = ""; rule_id = "r9"; enabled = some false }

abbrev reading_off : Parsers
reading_off = record parsers { decode = λ raw. some switched_off }

abbrev disable : Command
disable = record quota { command_type = "peer_block_put"; command = "off" }

abbrev blocking : RuleRow
blocking = record {
  rule_id = "r9";
  version = 0;
  rule_type = "peer_block_put";
  subject = "";
  value = "192.0.2.1";
  enabled = true;
  expires_at = none;
  created_at = 1;
}

abbrev with_block : Db
with_block = record with_alice { policy_rules = blocking ∷ [] }

abbrev shown_off : Preview
shown_off = record shown { after_digest = "sum s1 5"; normalized = "peer_block_put off" }

abbrev previewed_off : Db
previewed_off =
    (preview reading_off crypto service "session-000000001" disable (at 100) (some token)
      with_block).0

preview_off_run :
    preview reading_off crypto service "session-000000001" disable (at 100) (some token) with_block
    ≡ (previewed_off, ok shown_off)
unfolding preview preview_statements canonical well_formed operation byte_len trim_space
    validate_operation valid_operation current_version newest effective_policy_state
    effective_submitters sort_by place_by select_rows policy_digest ordered projected_policy_digest
    members unwrapped project insert_token any_row update_rows unix decimal remove_first
preview_off_run = refl

preview_disabling_example :
    (shown_off.after_digest ≡ shown_off.before_digest)
    × ((x : Confirmation) (later : ℕ) (rule_id : String) (id_bytes : Option String) (db'' : Db)
          (a : Applied)
        → x.confirmation_token ≡ shown_off.confirmation_token
        → confirm reading_off crypto service x later rule_id id_bytes previewed_off ≡ (db'', ok a)
        → policy_digest crypto (effective_policy_state crypto (unix later) db'')
          ≡ policy_digest crypto (effective_policy_state crypto (unix (at 100)) with_block))
unfolding members unwrapped operation
preview_disabling_example =
    preview_disabling reading_off crypto service "session-000000001" disable (at 100) (some token)
      with_block previewed_off shown_off peer_block_put switched_off "" preview_off_run refl refl
      refl refl refl
