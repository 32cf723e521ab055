-- ===== src/Evidence/Provenance.antt =====
-- internal/evidence/provenance.go: ClassifyForwarding.
use mailproof.Base.{
  String, Bool, not, ◌&&◌, List, [], ◌∷◌, if◌then◌else◌, is_empty, any_row, contains, to_lower,
}

pub data ForwardingMode : Type 0 where
  forwarding_unknown pmf_like mfef_like rem_like rem_modified_like : ForwardingMode

pub record Provenance : Type 0 where
  pub mode : ForwardingMode
  pub reasons : List String
  pub received : List String
  pub arc_trusted : Bool
  pub trust_rule_id : String

unfoldable pub list_rewrite : String → Bool
list_rewrite hop = contains (to_lower hop) "list-id"

abbrev arc_trust : Bool → String → Bool
arc_trust arc_validated trust_rule_id = arc_validated && not (is_empty trust_rule_id)

abbrev classified : List String → Bool → String → ForwardingMode → String → Provenance
classified received arc_validated trust_rule_id mode reason = record {
  mode = mode;
  reasons = reason ∷ [];
  received = received;
  arc_trusted = arc_trust arc_validated trust_rule_id;
  trust_rule_id = trust_rule_id;
}

-- The branches for two hops or more.
abbrev forwarded : List String → Bool → String → Provenance
forwarded received arc_validated trust_rule_id =
    if arc_trust arc_validated trust_rule_id
    then classified received arc_validated trust_rule_id ForwardingMode.mfef_like
        "validated ARC with explicit trust rule"
    else if any_row list_rewrite received
    then classified received arc_validated trust_rule_id ForwardingMode.rem_modified_like
        "list rewrite marker observed"
    else classified received arc_validated trust_rule_id ForwardingMode.rem_like
        "multiple Received hops without trusted ARC"

unfoldable pub classify_forwarding : List String → Bool → String → Provenance
classify_forwarding [] arc_validated trust_rule_id =
    classified [] arc_validated trust_rule_id ForwardingMode.forwarding_unknown
      "no Received chain retained"
classify_forwarding (hop ∷ []) arc_validated trust_rule_id =
    classified (hop ∷ []) arc_validated trust_rule_id ForwardingMode.pmf_like
      "single observed delivery hop"
classify_forwarding (hop ∷ next ∷ hops) arc_validated trust_rule_id =
    forwarded (hop ∷ next ∷ hops) arc_validated trust_rule_id
