-- ===== src/Admission/Decisions.antt =====
-- internal/admission/admission.go: Admit, admit, reject and store. One reading of the clock stands
-- for those of a call. A digest is the key of the snapshot's map, which the code writes in
-- hexadecimal.
use mailproof.Base.{
  ℕ, ◌*◌, ◌+◌, String, Bool, not, ◌&&◌, ◌||◌, ltb, leb, List, [], ◌∷◌, ◌++◌, Option, none, some,
  if◌then◌else◌, str_eq, is_empty, len, second, unix, join, decimal, count_rows, any_row,
}
use mailproof.Database.{
  Db, Tx, Result, ok, err, pure, ◌>>◌, transaction, SubmissionDecision, DecisionRecord,
  AdmissionEvent, unique_violation, foreign_key_violation,
}
use mailproof.Queue.Events.{event_tx}
use mailproof.Queue.Statements.{insert_decision, insert_record, insert_signing, has_decision}
use mailproof.Queue.Rejections.{policy_version_text, pending_signature}
use mailproof.Submitters.Address.{Libraries, canonical_address}
use mailproof.Submitters.Statements.{has_submitter}
use mailproof.Admission.Requests.{Codecs, Request, capability}
use mailproof.Admission.Rules.{
  PolicySnapshot, SubmitterPolicy, blocked_peer, blocked_outer, lookup, domain_of,
}

pub record Decision : Type 0 where
  pub id : String
  pub submitter_id : String
  pub envelope : String
  pub recipient : String
  pub spf : String
  pub reason : String
  pub stage : String
  pub policy_version : String
  pub policy_rule_id : String
  pub stamp : String
  pub expires_at : Option ℕ

-- A decision, a decision with ErrDenied, or ErrDeferred.
pub data Answer : Type 0 where
  admitted denied : Decision → Answer
  deferred : Answer

pub record Service : Type 0 where
  pub capability_key : String
  pub stamp_key : String
  pub domain : String
  pub policy : Option PolicySnapshot

abbrev pub stamp_ttl : ℕ
stamp_ttl = 600 * second

unfoldable pub decision_outcome : String → String
decision_outcome reason = if str_eq reason "admitted" then "admitted" else "rejected"

unfoldable pub smtp_class : String → ℕ
smtp_class reason = if str_eq reason "admitted" then 250 else 550

abbrev pub nil_or : String → Option String
nil_or v = if is_empty v then none else some v

abbrev pub null_unix : Option ℕ → Option ℕ
null_unix none = none
null_unix (some t) = some (unix t)

abbrev pub fields : List String → String
fields [] = ""
fields (x ∷ []) = x
fields (x ∷ y ∷ rest) = join x (join "|" (fields (y ∷ rest)))

abbrev pub expiry_text : Option ℕ → String
expiry_text none = "-62135596800"
expiry_text (some t) = decimal (unix t)

unfoldable pub stamp_payload : Decision → Request → String
stamp_payload d r = fields (
    "v1"
    ∷ d.id
    ∷ d.submitter_id
    ∷ d.envelope
    ∷ d.recipient
    ∷ r.client_address
    ∷ r.helo
    ∷ d.spf
    ∷ d.policy_version
    ∷ expiry_text d.expires_at
    ∷ [])

unfoldable pub stamp_of : Libraries → Codecs → Service → Decision → Request → String
unfolding stamp_payload
stamp_of l c s d r =
    join (c.encode (stamp_payload d r))
      (join "." (c.encode (l.hmac s.stamp_key (stamp_payload d r))))

unfoldable pub decision_row :
    Libraries → Service → Decision → Request → Option String → ℕ → SubmissionDecision
decision_row l s d r digest now = record {
  decision_id = d.id;
  submitter_id = nil_or d.submitter_id;
  capability_digest = digest;
  envelope_sender = d.envelope;
  recipient = d.recipient;
  peer_ip = r.client_address;
  helo = r.helo;
  spf_outcome = d.spf;
  stage = d.stage;
  reason_code = d.reason;
  policy_version = d.policy_version;
  queue_id = some r.queue_id;
  stamp_mac = some (l.hmac s.stamp_key d.stamp);
  expires_at = null_unix d.expires_at;
  consumed_at = none;
  created_at = unix now;
  applied_rule_id = d.policy_rule_id;
}

unfoldable pub record_row : Decision → ℕ → DecisionRecord
record_row d now = record {
  decision_id = d.id;
  delivery_id = none;
  submitter_id = nil_or d.submitter_id;
  occurred_at = unix now;
  outcome = decision_outcome d.reason;
  stage = d.stage;
  reason_code = d.reason;
  policy_version = d.policy_version;
  applied_rule_id = d.policy_rule_id;
  smtp_class = smtp_class d.reason;
  notarization_status = "queued";
}

unfoldable pub store : Libraries → Service → Decision → Request → Option String → ℕ → Tx (Unit {0})
store l s d r digest now = do
  insert_decision (decision_row l s d r digest now)
  insert_record (record_row d now)
  insert_signing (pending_signature d.id now)
  event_tx "admission" "decision" d.id "admission_decision" (decision_outcome d.reason) now

-- Any error of the transaction is ErrDeferred.
abbrev pub answered : Db × Result Answer → Db × Answer
answered (db, ok a) = (db, a)
answered (db, err e) = (db, deferred)

unfoldable pub stored :
    Libraries → Service → Decision → Request → Option String → ℕ → Answer → Tx Answer
unfolding store
stored l s d r digest now answer = do store l s d r digest now; pure answer

abbrev pub rejection : Request → String → String → String → String → ℕ → String → Decision
rejection r id stage reason submitter_id policy_version rule_id = record {
  id = id;
  submitter_id = submitter_id;
  envelope = r.sender;
  recipient = r.recipient;
  spf = "";
  reason = reason;
  stage = stage;
  policy_version = policy_version_text policy_version;
  policy_rule_id = rule_id;
  stamp = "";
  expires_at = none;
}

-- `id` is what decisionID gives, `none` where the random source fails.
unfoldable pub reject :
    Libraries
    → Service
    → Request
    → Option String
    → String
    → String
    → String
    → ℕ
    → String
    → ℕ
    → Db
    → Db × Answer
reject l s r none stage reason submitter_id policy_version rule_id now db = (db, deferred)
reject l s r (some id) stage reason submitter_id policy_version rule_id now db =
    let d = rejection r id stage reason submitter_id policy_version rule_id in
    answered (transaction (stored l s d r none now (denied d)) db)

-- The WHERE of the count of a window: admitted_at > now - seconds.
abbrev pub in_window : String → ℕ → ℕ → AdmissionEvent → Bool
in_window id now seconds e = str_eq e.submitter_id id && ltb (unix now) (e.admitted_at + seconds)

abbrev pub used : String → ℕ → ℕ → Db → ℕ
used id now seconds db = count_rows (in_window id now seconds) db.admission_events

-- Whether a window of the loop is full.
unfoldable pub over_quota : SubmitterPolicy → ℕ → Db → Bool
over_quota p now db =
    leb p.minute_limit (used p.id now 60 db)
    || leb p.hour_limit (used p.id now 3600 db)
    || leb p.day_limit (used p.id now 86400 db)

abbrev pub same_admission : String → AdmissionEvent → Bool
same_admission id e = str_eq e.decision_id id

unfoldable pub insert_admission : AdmissionEvent → Tx (Unit {0})
insert_admission e db =
    if any_row (same_admission e.decision_id) db.admission_events
    then err unique_violation
    else if any_row (has_decision e.decision_id) db.decisions
        && any_row (has_submitter e.submitter_id) db.submitters
    then ok (tt, record db { admission_events = db.admission_events ++ (e ∷ []) })
    else err foreign_key_violation

abbrev pub pass_decision :
    Request → SubmitterPolicy → String → String → String → String → String → Option ℕ → Decision
pass_decision r p envelope version id stage reason expires = record {
  id = id;
  submitter_id = p.id;
  envelope = envelope;
  recipient = r.recipient;
  spf = "pass";
  reason = reason;
  stage = stage;
  policy_version = version;
  policy_rule_id = "";
  stamp = "";
  expires_at = expires;
}

-- The decision that is admitted, with its stamp.
unfoldable pub stamped :
    Libraries
    → Codecs
    → Service
    → Request
    → SubmitterPolicy
    → String
    → String
    → String
    → ℕ
    → Decision
stamped l c s r p envelope version id now =
    let d = pass_decision r p envelope version id "admission" "admitted" (some (now + stamp_ttl)) in
    record d { stamp = stamp_of l c s d r }

unfoldable pub grant : Libraries → Service → Request → String → ℕ → Decision → Tx Answer
grant l s r digest now d = do
  store l s d r (some digest) now
  insert_admission
      (record { decision_id = d.id; submitter_id = d.submitter_id; admitted_at = unix now })
  pure (admitted d)

unfoldable pub admit_statements :
    Libraries
    → Codecs
    → Service
    → Request
    → SubmitterPolicy
    → String
    → String
    → String
    → String
    → ℕ
    → Tx Answer
unfolding over_quota
admit_statements l c s r p envelope version digest id now db =
    if over_quota p now db
    then stored l s (pass_decision r p envelope version id "quota" "quota_exceeded" none) r
        (some digest) now
        (denied (pass_decision r p envelope version id "quota" "quota_exceeded" none)) db
    else grant l s r digest now (stamped l c s r p envelope version id now) db

-- The method admit.
unfoldable pub admit_within :
    Libraries
    → Codecs
    → Service
    → Request
    → SubmitterPolicy
    → String
    → String
    → String
    → Option String
    → ℕ
    → Db
    → Db × Answer
admit_within l c s r p envelope version digest none now db = (db, deferred)
admit_within l c s r p envelope version digest (some id) now db =
    answered (transaction (admit_statements l c s r p envelope version digest id now) db)

-- The steps of Admit after the submitter is found; `spf` is the resolver's answer.
unfoldable pub admit_known :
    Libraries
    → Codecs
    → Service
    → PolicySnapshot
    → Request
    → SubmitterPolicy
    → String
    → String
    → Option String
    → Option String
    → ℕ
    → Db
    → Db × Answer
admit_known l c s snapshot r item envelope digest spf id now db =
    if not (str_eq envelope item.address)
    then reject l s r id "identity" "envelope_mismatch" item.id 0 "" now db
    else elim spf [
      | none ↦ (db, deferred)
      | some outcome ↦
          if not (str_eq outcome "pass")
          then reject l s r id "spf" (join "spf_" outcome) item.id 0 "" now db
          else if ltb item.minute_limit 1 || ltb item.hour_limit 1 || ltb item.day_limit 1
          then reject l s r id "quota" "invalid_limit" item.id 0 "" now db
          else admit_within l c s r item envelope (join "v" (decimal snapshot.version)) digest id
              now db
    ]

-- The steps of Admit after the sender's domain is let through.
unfoldable pub admit_secret :
    Libraries
    → Codecs
    → Service
    → PolicySnapshot
    → Request
    → String
    → Option String
    → Option String
    → ℕ
    → Db
    → Db × Answer
admit_secret l c s snapshot r envelope spf id now db = elim (capability c r.recipient s.domain) [
  | none ↦ reject l s r id "identity" "invalid_capability" "" 0 "" now db
  | some secret ↦ elim (lookup (l.hmac s.capability_key secret) snapshot.submitters) [
    | none ↦ reject l s r id "identity" "unknown_capability" "" 0 "" now db
    | some item ↦
        if not (str_eq item.status "active")
        then reject l s r id "identity" "unknown_capability" "" 0 "" now db
        else admit_known l c s snapshot r item envelope (l.hmac s.capability_key secret) spf id now
            db
  ]
]

-- The steps of Admit with a snapshot.
unfoldable pub admit_under :
    Libraries
    → Codecs
    → Service
    → PolicySnapshot
    → Request
    → Option String
    → Option String
    → ℕ
    → Db
    → Db × Answer
admit_under l c s snapshot r spf id now db = elim (blocked_peer snapshot r.client_address now) [
  | some rule ↦ reject l s r id "policy" "peer_blocked" "" snapshot.version rule.id now db
  | none ↦ elim (canonical_address l r.sender) [
    | none ↦ reject l s r id "identity" "invalid_sender" "" 0 "" now db
    | some envelope ↦ elim (blocked_outer snapshot (domain_of envelope) now) [
      | some rule ↦
          reject l s r id "policy" "outer_domain_blocked" "" snapshot.version rule.id now db
      | none ↦ admit_secret l c s snapshot r envelope spf id now db
    ]
  ]
]

-- Admit, with a database and a resolver.
unfoldable pub admit :
    Libraries → Codecs → Service → Request → Option String → Option String → ℕ → Db → Db × Answer
admit l c s r spf id now db =
    if ltb (len s.capability_key) 32 || ltb (len s.stamp_key) 32
    then (db, deferred)
    else elim s.policy [
      | none ↦ (db, deferred)
      | some snapshot ↦ admit_under l c s snapshot r spf id now db
    ]
