-- ===== src/Tests/Admissions.antt =====
-- Admission at concrete inputs.
use mailproof.Base.{
  ◌≡◌, ◌≢◌, refl, String, true, false, [], ◌∷◌, none, some, unix, join, any_char, count_char, cut,
  contains, to_lower, find_row, any_row, update_rows, if◌then◌else◌, str_eq, count_rows, equal_fold,
  trim_prefix, split, trim_space, decimal, folded, ◌<◌, ◌≤◌, len, is_empty, Unique, has_suffix,
}
use mailproof.Database.{Db, active, ok, Result, SubmissionDecision}
use mailproof.Analytics.Event.{new_lifecycle, insert_event, key}
use mailproof.Queue.Events.{event_tx}
use mailproof.Queue.Statements.{insert_decision, insert_record, insert_signing}
use mailproof.Queue.Rejections.{pending_signature}
use mailproof.Submitters.Address.{Libraries, canonical_address, canonical_parts}
use mailproof.Admission.Requests.{Codecs, Request, capability, parse_request, set_attribute}
use mailproof.Admission.Rules.{
  PolicySnapshot, PolicyRule, SubmitterPolicy, blocked_peer, blocked_outer, lookup, preflight,
  selected_subject_allowed, DomainRule,
}
use mailproof.Admission.Decisions
use mailproof.Admission.Stamps
use mailproof.Admission.Passes.{Admits, admit_lem}
use mailproof.Base.{In, ◌≢◌, to_lower}
use mailproof.Admission.Rules.{lookup}
use mailproof.Admission.Screening.{preflight_lem, InForce, Covers}
use mailproof.Admission.Parsing.{line_keys, parse_request_lem}
use mailproof.Admission.Single.{consume_stamp_once}
use mailproof.Tests.Samples.{empty_db, at}

abbrev libraries : Libraries
libraries = record {
  parse_address = λ a. some a;
  to_ascii = λ d. some d;
  hmac = λ secret text. "M";
}

abbrev payload : String → String
payload id = join "v1|" (join id "|s1|a@x.org|r|ip|h|pass|v1|700")

-- "P1" and "P2" decode to the payloads of two decisions.
abbrev codecs : Codecs
codecs = record {
  is_ip = λ s. true;
  decoded_size = λ s. some 24;
  decode = λ s.
      if str_eq s "P1"
      then some (payload "d1")
      else if str_eq s "P2"
      then some (payload "d2")
      else some s;
  encode = λ s. s;
}

abbrev item : SubmitterPolicy
item = record {
  id = "s1";
  address = "a@x.org";
  status = "active";
  minute_limit = 5;
  hour_limit = 30;
  day_limit = 100;
}

abbrev snapshot : PolicySnapshot
snapshot = record {
  version = 3;
  peer_cidrs = [];
  outer_domains = [];
  subject_domains = [];
  subject_allow = [];
  submitters = ("M", item) ∷ [];
}

abbrev service : Decisions.Service
service = record {
  capability_key = "0123456789abcdef0123456789abcdef";
  stamp_key = "0123456789abcdef0123456789abcdef";
  domain = "proof.example";
  policy = some snapshot;
}

abbrev request : Request
request = record {
  request_type = "smtpd_access_policy";
  instance_name = "i";
  queue_id = "q1";
  protocol_state = "RCPT";
  client_address = "192.0.2.1";
  helo = "mx.x.org";
  sender = "a@x.org";
  recipient = "verify+0123456789abcdef0123456789abcdef@proof.example";
}

abbrev enrolled : Db
enrolled = record empty_db {
  submitters =
      record {
        submitter_id = "s1";
        canonical_address = "a@x.org";
        status = active;
        created_at = 1;
        verified_at = some 2;
        revoked_at = none;
        policy_version = "v1";
        minute_limit = 5;
        hour_limit = 30;
        day_limit = 100;
      }
      ∷ [];
}

abbrev answer : Db × Decisions.Answer
answer =
    Decisions.admit libraries codecs service request (some "pass") (some "d1") (at 100) enrolled

abbrev granted : Decisions.Decision
granted =
    Decisions.stamped libraries codecs service request item "a@x.org" (join "v" (decimal 3)) "d1"
      (at 100)

answer_lem : answer ≡ (answer.0, Decisions.admitted granted)
unfolding Decisions.admit Decisions.admit_under blocked_peer canonical_address any_char count_char
    cut canonical_parts to_lower contains blocked_outer lookup Decisions.admit_secret capability
    equal_fold folded trim_prefix Decisions.admit_known Decisions.admit_within
    Decisions.admit_statements Decisions.grant Decisions.store Decisions.insert_admission
    Decisions.decision_row Decisions.record_row Decisions.decision_outcome Decisions.smtp_class
    Decisions.stamped any_row count_rows event_tx new_lifecycle insert_event key pending_signature
    insert_decision insert_record insert_signing decimal
answer_lem = refl

admit_lem_example :
    Admits libraries codecs service request (some "pass") (at 100) enrolled answer.0 granted
admit_lem_example =
    admit_lem libraries codecs service request (some "pass") (some "d1") (at 100) enrolled answer.0
      granted answer_lem

abbrev decision : String → String → SubmissionDecision
decision id queue = record {
  decision_id = id;
  submitter_id = some "s1";
  capability_digest = none;
  envelope_sender = "a@x.org";
  recipient = "r";
  peer_ip = "ip";
  helo = "h";
  spf_outcome = "pass";
  stage = "admission";
  reason_code = "admitted";
  policy_version = "v1";
  queue_id = some queue;
  stamp_mac = none;
  expires_at = some 700;
  consumed_at = none;
  created_at = 100;
  applied_rule_id = "";
}

abbrev two : Db
two = record empty_db { decisions = decision "d1" "q1" ∷ decision "d2" "q2" ∷ [] }

abbrev accepted : String → Decisions.Decision
accepted id = record {
  id = id;
  submitter_id = "s1";
  envelope = "a@x.org";
  recipient = "r";
  spf = "pass";
  reason = "admitted";
  stage = "admission";
  policy_version = "v1";
  policy_rule_id = "";
  stamp = "";
  expires_at = some (at 700);
}

abbrev first : Db × Result Decisions.Decision
first =
    Stamps.consume_stamp libraries codecs service ("X-Mailproof-Admission: P1.M" ∷ []) "q1" (at 200)
      two

abbrev second : Db × Result Decisions.Decision
second =
    Stamps.consume_stamp libraries codecs service ("Subject: s" ∷ "x-mailproof-admission:P2.M" ∷ [])
      "q2" (at 300) first.0

first_lem : first ≡ (first.0, ok (accepted "d1"))
unfolding Stamps.consume_stamp Stamps.read_stamp Stamps.find_stamp Stamps.stamp_value cut equal_fold
    folded trim_space Stamps.authentic contains Stamps.parts_of split Stamps.parse_int unix find_row
first_lem = refl

second_lem : second ≡ (second.0, ok (accepted "d2"))
unfolding Stamps.consume_stamp Stamps.read_stamp Stamps.find_stamp Stamps.stamp_value cut equal_fold
    folded trim_space Stamps.authentic contains Stamps.parts_of split Stamps.parse_int unix find_row
    update_rows
second_lem = refl

consume_stamp_once_example : (accepted "d2").id ≢ (accepted "d1").id
unfolding any_row
consume_stamp_once_example =
    consume_stamp_once libraries codecs service ("X-Mailproof-Admission: P1.M" ∷ [])
      ("Subject: s" ∷ "x-mailproof-admission:P2.M" ∷ []) "q1" "q2" (at 200) (at 300) two first.0
      second.0 (accepted "d1") (accepted "d2") (refl, (refl, tt)) first_lem second_lem

preflight_lem_example :
    let d = preflight libraries (some snapshot) "a@x.org" [] (at 5) in
    let selected = selected_subject_allowed libraries "a@x.org" [] in
    ((rule : PolicyRule)
      → lookup (to_lower selected.0) snapshot.subject_domains ≡ some rule
      → InForce rule (at 5)
      → (d.is_allowed ≡ false) × (selected.1 ≡ true → d.rule_id ≡ rule.id))
    × (d.is_allowed ≡ true
        → (selected.1 ≡ true)
          × (snapshot.subject_allow ≢ []
              → (r : DomainRule) × In r snapshot.subject_allow
                × InForce r.rule (at 5)
                × Covers r selected.0
                × (d.rule_id ≡ r.rule.id)))
preflight_lem_example = preflight_lem libraries snapshot "a@x.org" [] (at 5)

abbrev raw_request : String
raw_request =
    "request=smtpd_access_policy\nprotocol_state=RCPT\n\nsender=a@x.org\r\nrecipient=r\nclient_address=192.0.2.1\n"

abbrev short_request : Request
short_request = record {
  request_type = "smtpd_access_policy";
  instance_name = "";
  queue_id = "";
  protocol_state = "RCPT";
  client_address = "192.0.2.1";
  helo = "";
  sender = "a@x.org";
  recipient = "r";
}

parse_request_lem_example :
    (0 < len raw_request)
    × (len raw_request ≤ 16384)
    × Unique str_eq (line_keys (split 10 raw_request))
    × ◌≡◌ {A = String} "smtpd_access_policy" "smtpd_access_policy"
    × (is_empty short_request.protocol_state ≡ false)
    × (is_empty short_request.sender ≡ false)
    × (is_empty short_request.recipient ≡ false)
    × (codecs.is_ip short_request.client_address ≡ true)
unfolding parse_request split has_suffix cut any_row set_attribute
parse_request_lem_example = parse_request_lem codecs raw_request short_request refl
