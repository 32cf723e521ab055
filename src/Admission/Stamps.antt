-- ===== src/Admission/Stamps.antt =====
-- internal/admission/header.go: ConsumeStamp. The test of mustDecode that a MAC has 32 bytes follows
-- from its comparison with an HMAC-SHA-256.
use Prim.Native.Char.{code}
use mailproof.Base.{
  ℕ, ◌*◌, ◌+◌, ◌-◌, String, Bool, true, false, not, ◌&&◌, ◌||◌, ltb, leb, ◌==◌, List, [], ◌∷◌,
  Option, none, some, if◌then◌else◌, str_eq, is_empty, len, second, unix, cut, split, contains,
  trim_space, equal_fold, find_row, update_rows, is_some,
}
use mailproof.Database.{Db, Result, ok, err, SubmissionDecision, invalid_stamp}
use mailproof.Submitters.Address.{Libraries}
use mailproof.Admission.Requests.{Codecs}
use mailproof.Admission.Decisions.{Service, Decision}

-- The value of a header that is the stamp's.
unfoldable pub stamp_value : String → Option String
stamp_value header = elim (cut b':' header) [
  | none ↦ none
  | some (name, value) ↦
      if equal_fold (trim_space name) "X-Mailproof-Admission" then some value else none
]

-- The loop over the headers; `none` is ErrStamp.
unfoldable pub find_stamp : List String → String → Option String
find_stamp [] stamp = some stamp
find_stamp (header ∷ headers) stamp = elim (stamp_value header) [
  | none ↦ find_stamp headers stamp
  | some value ↦ elim (not (is_empty stamp) || ltb 2048 (len value)) [
    | true ↦ none
    | false ↦ find_stamp headers (trim_space value)
  ]
]

-- strconv.ParseInt of a text in base 10 that is not negative and is an int64. A negative number is
-- refused by the next test, as no number is.
digits : String → ℕ → Option ℕ
digits String.[] n = some n
digits (String.◌∷◌ c s) n =
    let rest = digits s (n * 10 + (code c - 48)) in
    if leb 48 (code c) && leb (code c) 57 then rest else none

signed : String → Option ℕ
unfolding digits
signed String.[] = none
signed (String.◌∷◌ c s) =
    if code c == b'+' then (if is_empty s then none else digits s 0) else digits (String.◌∷◌ c s) 0

unfoldable pub parse_int : String → Option ℕ
unfolding signed
parse_int s = elim (signed s) [
  | none ↦ none
  | some n ↦ if ltb n 9223372036854775808 then some n else none
]

-- The ten parts of a payload.
pub record Parts : Type 0 where
  pub id : String
  pub submitter_id : String
  pub envelope : String
  pub recipient : String
  pub spf : String
  pub policy_version : String
  pub expires : ℕ

unfoldable pub parts_of : List String → Option Parts
parts_of
      (version ∷ id ∷ submitter ∷ envelope ∷ recipient ∷ peer ∷ helo ∷ spf ∷ policy ∷ expiry ∷ []) =
    if str_eq version "v1"
    then elim (parse_int expiry) [
      | none ↦ none
      | some t ↦ some (record {
        id = id;
        submitter_id = submitter;
        envelope = envelope;
        recipient = recipient;
        spf = spf;
        policy_version = policy;
        expires = t;
      })
    ]
    else none
parts_of _ = none

-- The payload of a stamp whose MAC is right.
unfoldable pub authentic : Libraries → Codecs → Service → String → Option String
authentic l c s stamp = elim (cut b'.' stamp) [
  | none ↦ none
  | some (payload64, mac64) ↦ if contains mac64 "." then none else elim (c.decode payload64) [
    | none ↦ none
    | some payload ↦ elim (c.decode mac64) [
      | none ↦ none
      | some mac ↦ if str_eq (l.hmac s.stamp_key payload) mac then some payload else none
    ]
  ]
]

-- The steps before the database: the parts of the only stamp, if it is authentic and not expired.
unfoldable pub read_stamp : Libraries → Codecs → Service → List String → ℕ → Option Parts
read_stamp l c s headers now = elim (find_stamp headers "") [
  | none ↦ none
  | some stamp ↦ if is_empty stamp then none else elim (authentic l c s stamp) [
    | none ↦ none
    | some payload ↦ elim (parts_of (split b'|' payload)) [
      | none ↦ none
      | some p ↦ if ltb p.expires (unix now) then none else some p
    ]
  ]
]

abbrev pub not_expired : Option ℕ → ℕ → Bool
not_expired none t = false
not_expired (some u) t = leb t u

abbrev pub in_queue : Option String → String → Bool
in_queue none id = false
in_queue (some q) id = str_eq q id

-- The WHERE of the UPDATE.
abbrev pub consumable : String → String → ℕ → SubmissionDecision → Bool
consumable id queue_id now d =
    str_eq d.decision_id id
    && not (is_some d.consumed_at)
    && not_expired d.expires_at now
    && in_queue d.queue_id queue_id

abbrev pub spend : ℕ → SubmissionDecision → SubmissionDecision
spend now d = record d { consumed_at = some now }

abbrev scanned : SubmissionDecision → String → ℕ → Decision
scanned d submitter expires = record {
  id = d.decision_id;
  submitter_id = submitter;
  envelope = d.envelope_sender;
  recipient = d.recipient;
  spf = d.spf_outcome;
  reason = d.reason_code;
  stage = d.stage;
  policy_version = d.policy_version;
  policy_rule_id = "";
  stamp = "";
  expires_at = some (expires * second);
}

-- Whether the row says what the stamp says.
abbrev agrees : Parts → Decision → ℕ → Bool
agrees p d expires =
    str_eq d.id p.id
    && str_eq d.submitter_id p.submitter_id
    && str_eq d.envelope p.envelope
    && str_eq d.recipient p.recipient
    && str_eq d.spf p.spf
    && str_eq d.policy_version p.policy_version
    && (expires == p.expires)

-- The Scan of the row and the comparison: a NULL cannot be scanned.
unfoldable pub returned : Parts → SubmissionDecision → Result Decision
returned p d = elim d.submitter_id [
  | none ↦ err invalid_stamp
  | some submitter ↦ elim d.expires_at [
    | none ↦ err invalid_stamp
    | some expires ↦
        if agrees p (scanned d submitter expires) expires
        then ok (scanned d submitter expires)
        else err invalid_stamp
  ]
]

-- The UPDATE … RETURNING of one row.
unfoldable pub consume_row : Parts → String → ℕ → Db → Db × Result Decision
unfolding returned
consume_row p queue_id now db = elim (find_row (consumable p.id queue_id (unix now)) db.decisions) [
  | none ↦ (db, err invalid_stamp)
  | some d ↦ (
    record db {
      decisions = update_rows (consumable p.id queue_id (unix now)) (spend (unix now)) db.decisions;
    },
    returned p d,
  )
]

unfoldable pub consume_stamp :
    Libraries → Codecs → Service → List String → String → ℕ → Db → Db × Result Decision
unfolding consume_row
consume_stamp l c s headers queue_id now db = elim (read_stamp l c s headers now) [
  | none ↦ (db, err invalid_stamp)
  | some p ↦ consume_row p queue_id now db
]
