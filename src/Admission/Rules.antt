-- ===== src/Admission/Rules.antt =====
-- internal/admission/admission.go and header.go: the snapshot of the policy and its questions. A
-- map of Go is a list of pairs whose last entry for a key counts; a CIDR block is a test.
use mailproof.Base.{
  ℕ, String, Bool, true, false, not, ◌&&◌, ◌||◌, ltb, List, [], ◌∷◌, Option, none, some,
  if◌then◌else◌, str_eq, cut, to_lower, trim_space, has_prefix, has_suffix, trim_prefix, join,
}
use mailproof.Submitters.Address.{Libraries, canonical_address}

-- The zero time is `none`.
pub record PolicyRule : Type 0 where
  pub id : String
  pub expires_at : Option ℕ

pub record CidrRule : Type 0 where
  pub rule : PolicyRule
  pub block_has : String → Bool

pub record DomainRule : Type 0 where
  pub rule : PolicyRule
  pub domain : String
  pub wildcard : Bool

pub record SubmitterPolicy : Type 0 where
  pub id : String
  pub address : String
  pub status : String
  pub minute_limit : ℕ
  pub hour_limit : ℕ
  pub day_limit : ℕ

pub record PolicySnapshot : Type 0 where
  pub version : ℕ
  pub peer_cidrs : List CidrRule
  pub outer_domains : List (String × PolicyRule)
  pub subject_domains : List (String × PolicyRule)
  pub subject_allow : List DomainRule
  pub submitters : List (String × SubmitterPolicy)

abbrev pub is_active : PolicyRule → ℕ → Bool
is_active r now = elim r.expires_at [ none ↦ true | some t ↦ ltb now t ]

unfoldable pub lookup : {V : Type 0} → String → List (String × V) → Option V
lookup k [] = none
lookup k ((j, v) ∷ rest) = elim (lookup k rest) [
  | some w ↦ some w
  | none ↦ if str_eq j k then some v else none
]

abbrev active_rule : ℕ → Option PolicyRule → Option PolicyRule
active_rule now none = none
active_rule now (some r) = if is_active r now then some r else none

unfoldable pub blocked_subject : PolicySnapshot → String → ℕ → Option PolicyRule
blocked_subject p domain now = active_rule now (lookup (to_lower domain) p.subject_domains)

unfoldable pub blocked_outer : PolicySnapshot → String → ℕ → Option PolicyRule
blocked_outer p domain now = active_rule now (lookup (to_lower domain) p.outer_domains)

peer_rule : List CidrRule → String → ℕ → Option PolicyRule
peer_rule [] ip now = none
peer_rule (c ∷ cs) ip now =
    let rest = peer_rule cs ip now in
    if is_active c.rule now && c.block_has ip then some c.rule else rest

unfoldable pub blocked_peer : PolicySnapshot → String → ℕ → Option PolicyRule
unfolding peer_rule
blocked_peer p ip now = peer_rule p.peer_cidrs ip now

-- One entry of the allowlist of the configuration.
abbrev entry_allows : String → String → Bool
entry_allows domain entry =
    if has_prefix entry "*."
    then has_suffix domain (join "." (trim_prefix entry "*."))
      && not (str_eq domain (trim_prefix entry "*."))
    else str_eq domain entry

unfoldable pub list_allows : String → List String → Bool
list_allows domain [] = false
list_allows domain (entry ∷ entries) =
    entry_allows domain (to_lower (trim_space entry)) || list_allows domain entries

abbrev pub domain_of : String → String
domain_of address = elim (cut b'@' address) [ none ↦ "" | some (local, domain) ↦ domain ]

-- SelectedSubjectAllowed.
unfoldable pub selected_subject_allowed : Libraries → String → List String → String × Bool
selected_subject_allowed l from [] = elim (canonical_address l from) [
  | none ↦ ("", false)
  | some canonical ↦ (domain_of canonical, true)
]
selected_subject_allowed l from (entry ∷ entries) = elim (canonical_address l from) [
  | none ↦ ("", false)
  | some canonical ↦ (domain_of canonical, list_allows (domain_of canonical) (entry ∷ entries))
]

unfoldable pub rule_allows : DomainRule → String → Bool
rule_allows r domain =
    (not r.wildcard && str_eq domain r.domain)
    || (r.wildcard && not (str_eq domain r.domain) && has_suffix domain (join "." r.domain))

-- The loop over the managed allowlist.
unfoldable pub allowing : List DomainRule → String → ℕ → Option PolicyRule
unfolding rule_allows
allowing [] domain now = none
allowing (r ∷ rs) domain now =
    let rest = allowing rs domain now in
    if is_active r.rule now && rule_allows r domain then some r.rule else rest

pub record PreflightDecision : Type 0 where
  pub domain : String
  pub rule_id : String
  pub is_allowed : Bool
  pub policy_version : ℕ

abbrev managed : List DomainRule → Option PolicyRule → Bool × String
managed [] found = (true, "")
managed (r ∷ rs) none = (false, "")
managed (r ∷ rs) (some rule) = (true, rule.id)

-- SubjectAllowed.
unfoldable pub subject_allowed :
    Libraries → PolicySnapshot → String → List String → ℕ → String × Bool × String
unfolding selected_subject_allowed
subject_allowed l p from allowlist now =
    let (domain, accepted) = selected_subject_allowed l from allowlist in
    if not accepted then (domain, false, "") else elim (blocked_subject p domain now) [
      | some rule ↦ (domain, false, rule.id)
      | none ↦
          let (allowed, rule_id) = managed p.subject_allow (allowing p.subject_allow domain now) in
          (domain, allowed, rule_id)
    ]

unfoldable pub preflight :
    Libraries → Option PolicySnapshot → String → List String → ℕ → PreflightDecision
preflight l none from allowlist now =
    let (domain, accepted) = selected_subject_allowed l from allowlist in
    record { domain = domain; rule_id = ""; is_allowed = accepted; policy_version = 0 }
preflight l (some p) from allowlist now =
    let (domain, allowed, rule_id) = subject_allowed l p from allowlist now in
    record { domain = domain; rule_id = rule_id; is_allowed = allowed; policy_version = p.version }
