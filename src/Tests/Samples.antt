-- ===== src/Tests/Samples.antt =====
-- A small database: two deliveries with a queued run each.
use mailproof.Base.{ℕ, ◌*◌, String, none, some, [], ◌∷◌, second}
use mailproof.Database.{Db, Delivery, Run, RunState, queued}

abbrev pub empty_db : Db
empty_db = record {
  deliveries = [];
  runs = [];
  collector_lease = none;
  attempts = [];
  work_items = [];
  submitters = [];
  challenges = [];
  capabilities = [];
  decisions = [];
  admission_events = [];
  decision_records = [];
  signing_outbox = [];
  events = [];
  cursor = 0;
  rollups = [];
  policy_versions = [];
  policy_rules = [];
  control_commands = [];
  audit_events = [];
  confirmation_tokens = [];
  result_records = [];
  projection_outbox = [];
}

abbrev pub sample_delivery : String → String → Delivery
sample_delivery id source = record {
  delivery_id = id;
  message_digest = "digest";
  source_key = source;
  collected_at = 5;
  submitter_id = some "alice";
  reply_address = some "alice@example.org";
}

abbrev pub sample_run : String → String → RunState → ℕ → Run
sample_run id delivery state created = record {
  run_id = id;
  delivery_id = delivery;
  state = state;
  analysis_attempts = 0;
  report_attempts = 0;
  not_before = 0;
  lease_owner = none;
  lease_until = none;
  last_error = [];
  created_at = created;
}

abbrev pub two_runs : Db
two_runs = record empty_db {
  deliveries = sample_delivery "d1" "s1" ∷ sample_delivery "d2" "s2" ∷ [];
  runs = sample_run "r1" "d1" queued 10 ∷ sample_run "r2" "d2" queued 7 ∷ [];
}

-- The time in nanoseconds.
abbrev pub at : ℕ → ℕ
at s = s * second
