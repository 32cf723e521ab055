-- ===== src/Evidence/Forwarding.antt =====
-- internal/evidence/provenance.go: what a forwarding mode says of the hops.
use mailproof.Base.{
  ◌≡◌, ◌↔◌, String, Bool, true, not, ◌&&◌, List, [], ◌∷◌, length, is_empty, any_row, arith, ltb,
}
use mailproof.Evidence.Provenance.{mfef_like, rem_modified_like, classify_forwarding, list_rewrite}

-- A classification retains the whole chain and gives one reason. It is MFEF-like exactly when there
-- are two hops or more, ARC was validated and a trust rule is named, and REM+MOD-like exactly when
-- there are two hops or more, ARC is not so trusted, and some hop has the mark of a list.
pub classify_forwarding_lem :
    (received : List String) (arc_validated : Bool) (trust_rule_id : String)
    → let p = classify_forwarding received arc_validated trust_rule_id in
      let trusted = arc_validated && not (is_empty trust_rule_id) in
      (p.received ≡ received)
      × (length p.reasons ≡ 1)
      × (p.arc_trusted ≡ trusted)
      × ((p.mode ≡ mfef_like) ↔ ((ltb 1 (length received) && trusted) ≡ true))
      × ((p.mode ≡ rem_modified_like)
          ↔ ((ltb 1 (length received) && not trusted && any_row list_rewrite received) ≡ true))
unfolding classify_forwarding
classify_forwarding_lem [] arc_validated trust_rule_id = ground arith
classify_forwarding_lem (hop ∷ []) arc_validated trust_rule_id = ground arith
classify_forwarding_lem (hop ∷ next ∷ hops) arc_validated trust_rule_id = ground arith
