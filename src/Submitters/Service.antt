-- ===== src/Submitters/Service.antt =====
-- internal/submitter/submitter.go: Challenge, Activate, Revoke, Rotate and List. What the random
-- source gives is an argument, `none` where it fails; so is whether the mailer delivers.
use mailproof.Base.{
  ℕ, ◌*◌, ◌+◌, String, Bool, true, false, not, ◌&&◌, leb, ltb, ◌==◌, List, [], ◌∷◌, Option, none,
  some, if◌then◌else◌, str_eq, is_some, join, any_row, find_row, count_rows, update_rows, unix,
  second, len,
}
use mailproof.Database.{
  Db, Tx, Result, ok, err, pure, ◌>>=◌, ◌>>◌, guard, gets, modify, transaction, Submitter,
  Challenge, Capability, status_eq, pending, active, revoked, invalid_address, challenge_refused,
  address_active, mailer_required, key_too_short, random_failed, delivery_failed,
  submitter_not_active, capability_not_active, unique_violation,
}
use mailproof.Submitters.Address.{Libraries, canonical_address}
use mailproof.Submitters.Statements.{
  has_submitter, has_address, insert_submitter, insert_challenge, insert_capability, consume,
  is_from, move_submitter, activated, withdrawn, live_for, retire,
}

pub record Service : Type 0 where
  pub has_mailer : Bool
  pub capability_key : String
  pub capability_key_id : String
  pub domain : String

-- A call that has an error of its own where it gives nothing.
abbrev pub need : {A : Type 0} → Option A → (e : Result (A × Db)) → Tx A
need none e db = e
need (some a) e db = ok (a, db)

abbrev pub random : Option String → Tx String
random r = need r (err random_failed)

abbrev pub canonical : Libraries → String → Tx String
canonical l address = need (canonical_address l address) (err invalid_address)

-- The keyed digest of a secret.
unfoldable pub digest : Libraries → Service → String → Tx String
digest l s value db =
    if ltb (len s.capability_key) 32
    then err key_too_short
    else ok (l.hmac s.capability_key value, db)

abbrev pub challenge_ttl : ℕ
challenge_ttl = 900 * second

pub record ChallengeResult : Type 0 where
  pub id : String
  pub submitter_id : String
  pub address : String
  pub expires_at : ℕ

pub record Mail : Type 0 where
  pub recipient : String
  pub code : String

abbrev pub pending_submitter : String → String → ℕ → Submitter
pending_submitter id address now = record {
  submitter_id = id;
  canonical_address = address;
  status = pending;
  created_at = unix now;
  verified_at = none;
  revoked_at = none;
  policy_version = "v1";
  minute_limit = 5;
  hour_limit = 30;
  day_limit = 100;
}

-- The newest pending submitter of the address.
unfoldable pub newest_pending : String → List Submitter → Option Submitter
newest_pending address [] = none
newest_pending address (s ∷ ss) =
    let rest = newest_pending address ss in
    if has_address address pending s
    then elim rest [
      | none ↦ some s
      | some t ↦ if ltb s.created_at t.created_at then some t else some s
    ]
    else rest

-- The INSERT of a new submitter, or else the pending one.
unfoldable pub enlist : String → String → ℕ → Tx String
enlist id address now db = elim (insert_submitter (pending_submitter id address now) db) [
  | some db' ↦ ok (id, db')
  | none ↦ elim (newest_pending address db.submitters) [
    | none ↦ err unique_violation
    | some s ↦ ok (s.submitter_id, db)
  ]
]

abbrev pub new_challenge : String → String → String → ℕ → Challenge
new_challenge id submitter_id code_digest now = record {
  challenge_id = id;
  submitter_id = submitter_id;
  code_digest = code_digest;
  created_at = unix now;
  expires_at = unix (now + challenge_ttl);
  consumed_at = none;
}

-- Challenge up to its commit; the result is what is sent and returned.
unfoldable pub challenge_statements :
    Libraries
    → Service
    → String
    → ℕ
    → Option String
    → Option String
    → Option String
    → Tx (ChallengeResult × Mail)
challenge_statements l s address now id_bytes code_bytes submitter_bytes = do
  to ← canonical l address
  guard s.has_mailer mailer_required
  id ← random id_bytes
  code ← random code_bytes
  code_digest ← digest l s code
  taken ← gets (λ d. any_row (has_address to active) d.submitters)
  guard (not taken) address_active
  fresh ← random submitter_bytes
  submitter_id ← enlist fresh to now
  insert_challenge (new_challenge id submitter_id code_digest now)
  pure (
    record { id = id; submitter_id = submitter_id; address = to; expires_at = now + challenge_ttl },
    record { recipient = to; code = code },
  )

abbrev pub delivered :
    Bool → Db × Result (ChallengeResult × Mail) → Db × List Mail × Result ChallengeResult
delivered sends (db, err e) = (db, [], err e)
delivered true (db, ok (c, mail)) = (db, mail ∷ [], ok c)
delivered false (db, ok (c, mail)) = (db, [], err delivery_failed)

unfoldable pub challenge :
    Libraries
    → Service
    → String
    → ℕ
    → Option String
    → Option String
    → Option String
    → Bool
    → Db
    → Db × List Mail × Result ChallengeResult
challenge l s address now id_bytes code_bytes submitter_bytes sends db =
    delivered sends
      (transaction (challenge_statements l s address now id_bytes code_bytes submitter_bytes) db)

-- The WHERE of Activate's query, and its order.
abbrev pub usable : List Submitter → String → String → ℕ → Challenge → Bool
usable submitters address digest now c =
    any_row (λ s. has_submitter c.submitter_id s && str_eq s.canonical_address address) submitters
    && str_eq c.code_digest digest
    && not (is_some c.consumed_at)
    && leb now c.expires_at

unfoldable pub newest_usable : (Challenge → Bool) → List Challenge → Option Challenge
newest_usable p [] = none
newest_usable p (c ∷ cs) =
    let rest = newest_usable p cs in
    if p c
    then elim rest [
      | none ↦ some c
      | some d ↦ if ltb c.created_at d.created_at then some d else some c
    ]
    else rest

unfoldable pub challenged : String → String → ℕ → Tx Submitter
unfolding newest_usable
challenged address digest now db =
    elim (newest_usable (usable db.submitters address digest (unix now)) db.challenges) [
      | none ↦ err challenge_refused
      | some c ↦
          need (find_row (has_submitter c.submitter_id) db.submitters) (err challenge_refused) db
    ]

pub record Activation : Type 0 where
  pub submitter : Submitter
  pub submission_address : String

abbrev pub submission_address : Service → String → String
submission_address s capability = join "verify+" (join capability (join "@" s.domain))

abbrev pub new_capability : String → String → String → String → ℕ → Capability
new_capability id submitter_id digest key_id now = record {
  capability_id = id;
  submitter_id = submitter_id;
  digest = digest;
  key_id = key_id;
  activated_at = unix now;
  revoked_at = none;
}

unfoldable pub activate_statements :
    Libraries → Service → String → String → ℕ → Option String → Option String → Tx Activation
activate_statements l s address code now capability_bytes id_bytes = do
  to ← canonical l address
  code_digest ← digest l s code
  found ← challenged to code_digest now
  guard (not (status_eq found.status active)) address_active
  capability ← random capability_bytes
  capability_digest ← digest l s capability
  id ← random id_bytes
  modify (consume found.submitter_id code_digest (unix now))
  move_submitter found.submitter_id pending active (activated (unix now))
  insert_capability (new_capability id found.submitter_id capability_digest s.capability_key_id now)
  pure (record {
    submitter = record found {
      canonical_address = to;
      status = active;
      verified_at = some (unix now);
    };
    submission_address = submission_address s capability;
  })

unfoldable pub activate :
    Libraries
    → Service
    → String
    → String
    → ℕ
    → Option String
    → Option String
    → Db
    → Db × Result Activation
activate l s address code now capability_bytes id_bytes =
    transaction (activate_statements l s address code now capability_bytes id_bytes)

-- One UPDATE, and RowsAffected.
unfoldable pub revoke_statements : String → ℕ → Tx (Unit {0})
revoke_statements id now db =
    if count_rows (is_from id active) db.submitters == 1
    then move_submitter id active revoked (withdrawn (unix now)) db
    else err submitter_not_active

unfoldable pub revoke : String → ℕ → Db → Db × Result (Unit {0})
revoke id now = transaction (revoke_statements id now)

unfoldable pub rotate_statements :
    Libraries → Service → String → ℕ → Option String → Option String → Tx String
rotate_statements l s id now capability_bytes id_bytes = do
  capability ← random capability_bytes
  capability_digest ← digest l s capability
  capability_id ← random id_bytes
  live ← gets (λ d. count_rows (live_for id) d.capabilities)
  guard (live == 1) capability_not_active
  modify (λ d. record d {
    capabilities = update_rows (live_for id) (retire (unix now)) d.capabilities;
  })
  insert_capability (new_capability capability_id id capability_digest s.capability_key_id now)
  pure (submission_address s capability)

unfoldable pub rotate :
    Libraries → Service → String → ℕ → Option String → Option String → Db → Db × Result String
rotate l s id now capability_bytes id_bytes =
    transaction (rotate_statements l s id now capability_bytes id_bytes)

-- ORDER BY created_at, equal ones in the order of insertion.
unfoldable pub enlisted_after : Submitter → List Submitter → List Submitter
enlisted_after s [] = s ∷ []
enlisted_after s (t ∷ ts) =
    let rest = enlisted_after s ts in if leb s.created_at t.created_at then s ∷ t ∷ ts else t ∷ rest

unfoldable pub list : List Submitter → List Submitter
list [] = []
list (s ∷ ss) = enlisted_after s (list ss)
