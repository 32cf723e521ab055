-- ===== src/Evidence/Records.antt =====
-- internal/evidence/types.go: the words of the evidence, and which records are accepted.
-- The Go strings that have a fixed vocabulary are data types with a constructor for any other text.
use mailproof.Base.{
  ℕ, String, Bool, true, false, not, ◌&&◌, ◌||◌, ltb, ◌==◌, List, Option, none, some, if◌then◌else◌,
  is_empty, length,
}

pub data CapabilityStatus : Type 0 where
  observed clean_confirmed not_applicable unavailable failed skipped unknown : CapabilityStatus
  other_status : String → CapabilityStatus

pub data Authority : Type 0 where
  authoritative strong supporting weak : Authority
  other_authority : String → Authority

pub data AuthScope : Type 0 where
  local_ingress detached : AuthScope
  other_scope : String → AuthScope

pub data VerdictCategory : Type 0 where
  verified authenticated_but_suspicious suspicious known_malicious indeterminate : VerdictCategory

-- `value` and `error` are the bytes; the fields that no decision reads are left out.
pub record Evidence : Type 0 where
  pub id : String
  pub category : String
  pub adapter : String
  pub subject_digest : String
  pub value : List ℕ
  pub status : CapabilityStatus
  pub authority : Authority
  pub error : List ℕ

pub record Contradiction : Type 0 where
  pub id : String
  pub evidence_ids : List String
  pub reason : String
  pub material : Bool

pub record Verdict : Type 0 where
  pub category : VerdictCategory
  pub technical : String
  pub behavior : String
  pub support : List String
  pub contradictions : List String
  pub unavailable : List String
  pub rules : List String

abbrev pub valid_status : CapabilityStatus → Bool
valid_status (other_status _) = false
valid_status _ = true

abbrev pub valid_authority : Authority → Bool
valid_authority (other_authority _) = false
valid_authority _ = true

abbrev pub is_clean : CapabilityStatus → Bool
is_clean clean_confirmed = true
is_clean _ = false

pub data EvidenceError : Type 0 where
  identity_required invalid_vocabulary proof_required error_too_long : EvidenceError

-- Evidence.Validate: `none` is the nil error.
unfoldable pub validate : Evidence → Option EvidenceError
validate e =
    if is_empty e.id || is_empty e.category || is_empty e.adapter || is_empty e.subject_digest
    then some identity_required
    else if not (valid_status e.status) || not (valid_authority e.authority)
    then some invalid_vocabulary
    else if is_clean e.status && (length e.value == 0)
    then some proof_required
    else if not (length e.error == 0) && ltb 1024 (length e.error)
    then some error_too_long
    else none
