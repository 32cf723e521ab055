-- ===== src/Evidence/Rulings.antt =====
-- internal/evidence/policy.go: what makes Decide answer one category or another.
use mailproof.Base.{
  ◌≡◌, refl, sym, Bool, true, false, ◌||◌, not, ◌↔◌, List, [], ◌∷◌, any_row, arith, All,
  if◌then◌else◌, ◌∙◌,
}
use mailproof.Evidence.Records.{Evidence, Contradiction, AuthScope, verified, known_malicious}
use mailproof.Evidence.Policy.{
  Signals, weigh, weigh_all, no_signals, any_material, decide, rule, scoped, lacks_result,
  authenticates, convicts, misbehaves,
}

-- What the loop's flags hold after it.
record Weighed (s t : Signals) (es : List Evidence) : Type 0 where
  pub authenticated : t.authenticated ≡ (s.authenticated || any_row authenticates es)
  pub malicious : t.malicious ≡ (s.malicious || any_row convicts es)
  pub suspect : t.suspect ≡ (s.suspect || any_row misbehaves es)
  pub lacks_result : not t.complete ≡ (not s.complete || any_row lacks_result es)

or_shift : (b s t : Bool) → ((if b then true else s) || t) ≡ (s || (b || t))
or_shift b s t = ground arith

not_shift : (b s t : Bool) → (not (if b then false else s) || t) ≡ (not s || (b || t))
not_shift b s t = ground arith

weigh_all_lem : (s : Signals) (es : List Evidence) → Weighed s (weigh_all s es) es
unfolding weigh_all any_row weigh
weigh_all_lem s [] = record {
  authenticated = ground arith;
  malicious = ground arith;
  suspect = ground arith;
  lacks_result = ground arith;
}
weigh_all_lem s (e ∷ es) =
    let w = weigh_all_lem (weigh s e) es in
    record {
      authenticated =
          w.authenticated ∙ or_shift (authenticates e) s.authenticated (any_row authenticates es);
      malicious = w.malicious ∙ or_shift (convicts e) s.malicious (any_row convicts es);
      suspect = w.suspect ∙ or_shift (misbehaves e) s.suspect (any_row misbehaves es);
      lacks_result =
          w.lacks_result ∙ not_shift (lacks_result e) s.complete (any_row lacks_result es);
    }

module _ {ℓ} {A : Type ℓ} (p : A → Bool) where
  never : (xs : List A) → any_row p xs ≡ false → All (λ x. p x ≡ false) xs
  unfolding any_row
  never [] h = tt
  never (x ∷ xs) h = (ground arith, never xs (ground arith))

  not_any : (xs : List A) → All (λ x. p x ≡ false) xs → any_row p xs ≡ false
  unfolding any_row
  not_any [] h = refl
  not_any (x ∷ xs) h = ground (arith, h.0, not_any xs h.1)

-- The evidence that a pass needs.
pub record Passing (es : List Evidence) (cs : List Contradiction) : Type 0 where
  pub authenticated : any_row authenticates es ≡ true
  pub complete : All (λ e. lacks_result e ≡ false) es
  pub harmless : All (λ e. convicts e ≡ false) es
  pub quiet : All (λ e. misbehaves e ≡ false) es
  pub agreed : All (λ c. c.material ≡ false) cs

any_material_lem : (cs : List Contradiction) → any_material cs ≡ any_row (λ c. c.material) cs
unfolding any_material any_row
any_material_lem [] = refl
any_material_lem (c ∷ cs) = ground (arith, any_material_lem cs)

record Pass (s : Signals) (material : Bool) : Type 0 where
  pub authenticated : s.authenticated ≡ true
  pub malicious : s.malicious ≡ false
  pub suspect : s.suspect ≡ false
  pub complete : not s.complete ≡ false
  pub agreed : material ≡ false

rule-verified :
    (scope : AuthScope) (s : Signals) (material : Bool)
    → scoped scope s.authenticated (rule s material).category ≡ verified
    → Pass s material
unfolding rule scoped
rule-verified scope s material h = record {
  authenticated = ground arith;
  malicious = ground arith;
  suspect = ground arith;
  complete = ground arith;
  agreed = ground arith;
}

rule-Pass :
    (scope : AuthScope) (s : Signals) (material : Bool)
    → Pass s material
    → scoped scope s.authenticated (rule s material).category ≡ verified
unfolding rule scoped
rule-Pass scope s material p =
    ground (arith, p.authenticated, p.malicious, p.suspect, p.complete, p.agreed)

-- The category is VERIFIED exactly when some evidence authenticates the message, every record of
-- evidence has a status that is a result, none is authoritative for malware or observes a
-- behaviour, and no contradiction is material.
pub decide_verified :
    (scope : AuthScope) (es : List Evidence) (cs : List Contradiction)
    → ((decide scope es cs).category ≡ verified) ↔ Passing es cs
unfolding decide
decide_verified scope es cs =
    let w = weigh_all_lem no_signals es in
    let m = any_material_lem cs in
    (
      λ h.
          let p = rule-verified scope (weigh_all no_signals es) (any_material cs) h in
          record {
            authenticated = sym w.authenticated ∙ p.authenticated;
            complete = never lacks_result es (sym w.lacks_result ∙ p.complete);
            harmless = never convicts es (sym w.malicious ∙ p.malicious);
            quiet = never misbehaves es (sym w.suspect ∙ p.suspect);
            agreed = never (λ c. c.material) cs (sym m ∙ p.agreed);
          },
      λ p. rule-Pass scope (weigh_all no_signals es) (any_material cs) (record {
        authenticated = w.authenticated ∙ p.authenticated;
        malicious = w.malicious ∙ not_any convicts es p.harmless;
        suspect = w.suspect ∙ not_any misbehaves es p.quiet;
        complete = w.lacks_result ∙ not_any lacks_result es p.complete;
        agreed = m ∙ not_any (λ c. c.material) cs p.agreed;
      }),
    )

rule-malicious :
    (scope : AuthScope) (s : Signals) (material : Bool)
    → (scoped scope s.authenticated (rule s material).category ≡ known_malicious)
      ↔ (s.malicious ≡ true)
unfolding rule scoped
rule-malicious scope s material = ground arith

-- The category is KNOWN_MALICIOUS exactly when some record of malware, YARA or threat feed evidence
-- is observed and authoritative, whatever else was found.
pub decide_malicious :
    (scope : AuthScope) (es : List Evidence) (cs : List Contradiction)
    → ((decide scope es cs).category ≡ known_malicious) ↔ (any_row convicts es ≡ true)
unfolding decide
decide_malicious scope es cs =
    let w = weigh_all_lem no_signals es in
    let r = rule-malicious scope (weigh_all no_signals es) (any_material cs) in
    (λ h. sym w.malicious ∙ r.0 h, λ h. r.1 (w.malicious ∙ h))
