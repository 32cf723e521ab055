-- ===== src/Submitters/Statements.antt =====
-- internal/submitter/submitter.go: its SQL statements, with the keys of Migrate.
use mailproof.Base.{
  ℕ, String, Bool, not, ◌&&◌, ◌||◌, List, [], ◌∷◌, ◌++◌, Option, none, some, if◌then◌else◌, str_eq,
  is_some, any_row, update_rows,
}
use mailproof.Database.{
  Db, Tx, ok, err, Submitter, Challenge, Capability, Status, status_eq, active, revoked,
  unique_violation, foreign_key_violation,
}

abbrev pub has_submitter : String → Submitter → Bool
has_submitter id s = str_eq s.submitter_id id

abbrev pub has_address : String → Status → Submitter → Bool
has_address address status s = str_eq s.canonical_address address && status_eq s.status status

-- The unique keys of submitters: the identifier, and the address with the status. The index on
-- active addresses follows from the second.
abbrev pub same_submitter : Submitter → Submitter → Bool
same_submitter a b = has_submitter a.submitter_id b || has_address a.canonical_address a.status b

unfoldable pub insert_submitter : Submitter → Db → Option Db
insert_submitter s db =
    if any_row (same_submitter s) db.submitters
    then none
    else some (record db { submitters = db.submitters ++ (s ∷ []) })

abbrev pub same_challenge : Challenge → Challenge → Bool
same_challenge a b =
    str_eq a.challenge_id b.challenge_id
    || (str_eq a.submitter_id b.submitter_id && str_eq a.code_digest b.code_digest)

unfoldable pub insert_challenge : Challenge → Tx (Unit {0})
insert_challenge c db =
    if any_row (same_challenge c) db.challenges
    then err unique_violation
    else if any_row (has_submitter c.submitter_id) db.submitters
    then ok (tt, record db { challenges = db.challenges ++ (c ∷ []) })
    else err foreign_key_violation

-- A capability that is not revoked.
abbrev pub is_live : Capability → Bool
is_live c = not (is_some c.revoked_at)

abbrev pub live_for : String → Capability → Bool
live_for id c = str_eq c.submitter_id id && is_live c

-- The unique keys: the identifier, the key with the digest, and the submitter of a live one.
abbrev pub same_capability : Capability → Capability → Bool
same_capability a b =
    str_eq a.capability_id b.capability_id
    || (str_eq a.key_id b.key_id && str_eq a.digest b.digest)
    || (is_live a && live_for a.submitter_id b)

unfoldable pub insert_capability : Capability → Tx (Unit {0})
insert_capability c db =
    if any_row (same_capability c) db.capabilities
    then err unique_violation
    else if any_row (has_submitter c.submitter_id) db.submitters
    then ok (tt, record db { capabilities = db.capabilities ++ (c ∷ []) })
    else err foreign_key_violation

-- The UPDATE that consumes challenges, and its WHERE.
abbrev pub open_for : String → String → Challenge → Bool
open_for id digest c =
    str_eq c.submitter_id id && str_eq c.code_digest digest && not (is_some c.consumed_at)

abbrev pub consume_challenge : ℕ → Challenge → Challenge
consume_challenge now c = record c { consumed_at = some now }

abbrev pub consume : String → String → ℕ → Db → Db
consume id digest now db = record db {
  challenges = update_rows (open_for id digest) (consume_challenge now) db.challenges;
}

abbrev pub set_status : Status → Submitter → Submitter
set_status status s = record s { status = status }

-- An UPDATE of one submitter from one status to another: it fails if the new row has the address and
-- the status of another row.
abbrev pub is_from : String → Status → Submitter → Bool
is_from id from s = has_submitter id s && status_eq s.status from

abbrev pub meets_other : String → Status → Submitter → Submitter → Bool
meets_other id to s other = not (has_submitter id other) && has_address s.canonical_address to other

-- Some row that the UPDATE changes meets a row of another identifier.
abbrev pub move_meets : String → Status → Status → List Submitter → Bool
move_meets id from to rows =
    any_row (λ s. is_from id from s && any_row (meets_other id to s) rows) rows

abbrev pub activated : ℕ → Submitter → Submitter
activated now s = record s { status = active; verified_at = some now }

abbrev pub withdrawn : ℕ → Submitter → Submitter
withdrawn now s = record s { status = revoked; revoked_at = some now }

unfoldable pub move_submitter : String → Status → Status → (Submitter → Submitter) → Tx (Unit {0})
move_submitter id from to f db =
    if move_meets id from to db.submitters
    then err unique_violation
    else ok (tt, record db { submitters = update_rows (is_from id from) f db.submitters })

abbrev pub retire : ℕ → Capability → Capability
retire now c = record c { revoked_at = some now }
