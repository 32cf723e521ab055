-- ===== src/Evidence/Policy.antt =====
-- internal/evidence/policy.go: Decide, which turns evidence and contradictions into a verdict.
use Prim.Native.Nat.{Ordering}
use Prim.Native.String.{compare}
use mailproof.Base.{
  String, Bool, true, false, not, ◌&&◌, ◌||◌, List, [], ◌∷◌, ◌++◌, if◌then◌else◌, str_eq,
}
use mailproof.Evidence.Records.{
  CapabilityStatus, observed, unavailable, failed, skipped, unknown, Authority, authoritative,
  strong, AuthScope, detached, VerdictCategory, verified, authenticated_but_suspicious, suspicious,
  known_malicious, indeterminate, Evidence, Contradiction, Verdict,
}

abbrev pub is_missing : CapabilityStatus → Bool
is_missing failed = true
is_missing unavailable = true
is_missing skipped = true
is_missing unknown = true
is_missing _ = false

abbrev pub is_observed : CapabilityStatus → Bool
is_observed observed = true
is_observed _ = false

abbrev pub is_authoritative : Authority → Bool
is_authoritative authoritative = true
is_authoritative _ = false

abbrev pub is_strong : Authority → Bool
is_strong strong = true
is_strong _ = false

-- The conditions of the loop over the evidence.
unfoldable pub lacks_result : Evidence → Bool
lacks_result e = is_missing e.status

unfoldable pub authenticates : Evidence → Bool
authenticates e =
    str_eq e.category "authentication"
    && is_observed e.status
    && (is_authoritative e.authority || is_strong e.authority)

unfoldable pub convicts : Evidence → Bool
convicts e =
    (str_eq e.category "malware" || str_eq e.category "yara" || str_eq e.category "threat_feed")
    && is_observed e.status
    && is_authoritative e.authority

unfoldable pub misbehaves : Evidence → Bool
misbehaves e = str_eq e.category "behavior" && is_observed e.status

-- The variables of the loop.
pub record Signals : Type 0 where
  pub authenticated : Bool
  pub malicious : Bool
  pub suspect : Bool
  pub complete : Bool
  pub support : List String
  pub unavailable_ids : List String

abbrev pub append_if : Bool → String → List String → List String
append_if b id ids = if b then ids ++ (id ∷ []) else ids

-- The body of the loop.
unfoldable pub weigh : Signals → Evidence → Signals
weigh s e = record {
  authenticated = if authenticates e then true else s.authenticated;
  malicious = if convicts e then true else s.malicious;
  suspect = if misbehaves e then true else s.suspect;
  complete = if lacks_result e then false else s.complete;
  support = append_if (misbehaves e) e.id (append_if (convicts e) e.id s.support);
  unavailable_ids = append_if (lacks_result e) e.id s.unavailable_ids;
}

unfoldable pub weigh_all : Signals → List Evidence → Signals
weigh_all s [] = s
weigh_all s (e ∷ es) = weigh_all (weigh s e) es

abbrev pub no_signals : Signals
no_signals = record {
  authenticated = false;
  malicious = false;
  suspect = false;
  complete = true;
  support = [];
  unavailable_ids = [];
}

-- The loop over the contradictions.
unfoldable pub any_material : List Contradiction → Bool
any_material [] = false
any_material (c ∷ cs) = if c.material then true else any_material cs

unfoldable pub material_ids : List Contradiction → List String
material_ids [] = []
material_ids (c ∷ cs) = if c.material then c.id ∷ material_ids cs else material_ids cs

-- sort.Strings.
abbrev pub text_before : String → String → Bool
text_before s t = elim (compare s t) [ Ordering.gt ↦ false | _ ↦ true ]

unfoldable pub place : String → List String → List String
place s [] = s ∷ []
place s (t ∷ ts) = let rest = place s ts in if text_before s t then s ∷ t ∷ ts else t ∷ rest

unfoldable pub sort : List String → List String
sort [] = []
sort (s ∷ ss) = place s (sort ss)

-- The category, the two texts and the rules that one branch sets.
pub record Ruling : Type 0 where
  pub category : VerdictCategory
  pub technical : String
  pub behavior : String
  pub rules : List String

-- The chain of branches.
unfoldable pub rule : Signals → Bool → Ruling
rule s material =
    if s.malicious
    then record {
      category = known_malicious;
      technical = "indeterminate";
      behavior = "known_malicious";
      rules = "authoritative-malware" ∷ [];
    }
    else if s.authenticated && s.suspect
    then record {
      category = authenticated_but_suspicious;
      technical = "authenticated";
      behavior = "suspicious";
      rules = "authenticated-suspicious" ∷ [];
    }
    else if s.authenticated && (s.complete && not material)
    then record {
      category = verified;
      technical = "authenticated";
      behavior = "no_material_signal";
      rules = "complete-authentication" ∷ [];
    }
    else if s.suspect || material
    then record {
      category = suspicious;
      technical = "indeterminate";
      behavior = "suspicious";
      rules = "suspicion-or-contradiction" ∷ [];
    }
    else record {
      category = indeterminate;
      technical = "indeterminate";
      behavior = "indeterminate";
      rules = [];
    }

abbrev pub is_detached : AuthScope → Bool
is_detached detached = true
is_detached _ = false

abbrev pub is_verified : VerdictCategory → Bool
is_verified verified = true
is_verified _ = false

-- The last test of Decide.
unfoldable pub scoped : AuthScope → Bool → VerdictCategory → VerdictCategory
scoped scope authenticated category =
    if is_detached scope && not authenticated && is_verified category
    then indeterminate
    else category

abbrev pub verdict : AuthScope → Signals → Bool → List String → Ruling → Verdict
verdict scope s material ids r = record {
  category = scoped scope s.authenticated r.category;
  technical = r.technical;
  behavior = r.behavior;
  support = sort s.support;
  contradictions = sort ids;
  unavailable = sort s.unavailable_ids;
  rules = sort r.rules;
}

unfoldable pub decide : AuthScope → List Evidence → List Contradiction → Verdict
decide scope evidence contradictions =
    verdict scope (weigh_all no_signals evidence) (any_material contradictions)
      (material_ids contradictions)
      (rule (weigh_all no_signals evidence) (any_material contradictions))

-- The value that CanonicalDecision encodes.
unfoldable pub canonical : Verdict → Verdict
canonical v = record v {
  support = sort v.support;
  contradictions = sort v.contradictions;
  unavailable = sort v.unavailable;
  rules = sort v.rules;
}
