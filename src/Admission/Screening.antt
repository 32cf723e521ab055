-- ===== src/Admission/Screening.antt =====
-- internal/admission/admission.go: what Preflight lets through.
use mailproof.Base.{
  ℕ, ◌≡◌, ◌≢◌, ◌<◌, refl, sym, ap, ◌∙◌, String, true, false, not, ◌&&◌, ◌||◌, List, [], ◌∷◌, some,
  arith, Option-cases, Bool-cases, inl, inr, ◌⊎◌, In, str_eq, str_eq_iff, join, has_suffix,
  to_lower,
}
use mailproof.Submitters.Address.{Libraries}
use mailproof.Admission.Rules.{
  PolicySnapshot, PolicyRule, blocked_subject, selected_subject_allowed, subject_allowed, preflight,
  allowing, DomainRule, lookup, rule_allows, is_active,
}

-- The rule has no end, or ends after the time.
abbrev pub InForce : PolicyRule → ℕ → Type 0
InForce rule now = (t : ℕ) → rule.expires_at ≡ some t → now < t

-- The rule is of the domain itself, or of the domains below it.
abbrev pub Covers : DomainRule → String → Type 0
Covers r domain =
    ((r.wildcard ≡ false) × (domain ≡ r.domain))
    ⊎ ((r.wildcard ≡ true) × (domain ≢ r.domain) × (has_suffix domain (join "." r.domain) ≡ true))

is_active-InForce : (rule : PolicyRule) (now : ℕ) → is_active rule now ≡ true → InForce rule now
is_active-InForce rule now h t e = ground (arith, h, e)

InForce-active : (rule : PolicyRule) (now : ℕ) → InForce rule now → is_active rule now ≡ true
InForce-active rule now f = elim (Option-cases rule.expires_at) [
  | inl e ↦ ground (arith, e)
  | inr (t, e) ↦ let later = f t e in ground (arith, e, later)
]

rule_allows-Covers :
    (r : DomainRule) (domain : String) → rule_allows r domain ≡ true → Covers r domain
unfolding rule_allows
rule_allows-Covers r domain h = elim (Bool-cases r.wildcard) [
  | inl e ↦
      inr
        (e, λ same. differ r domain e h ((str_eq_iff domain r.domain).1 same), ground (arith, h, e))
  | inr e ↦ inl (e, (str_eq_iff domain r.domain).0 (ground (arith, h, e)))
]
  where
    differ :
        (r : DomainRule) (domain : String)
        → r.wildcard ≡ true
        → ((not r.wildcard && str_eq domain r.domain)
            || (r.wildcard
                && not (str_eq domain r.domain)
                && has_suffix domain (join "." r.domain)))
          ≡ true
        → str_eq domain r.domain ≡ true
        → ⊥
    differ r domain e h s = ground (arith, e, h, s)

-- The rule of the allowlist that is found.
allowing-In :
    (rs : List DomainRule) (domain : String) (now : ℕ) (rule : PolicyRule)
    → allowing rs domain now ≡ some rule
    → (r : DomainRule) × In r rs × (r.rule ≡ rule) × InForce r.rule now × Covers r domain
unfolding allowing
allowing-In [] domain now rule h = absurd (ground (arith, h))
allowing-In (r ∷ rs) domain now rule h =
    elim (Bool-cases (is_active r.rule now && rule_allows r domain)) [
      | inl e ↦ (
        r,
        inl refl,
        ground (arith, h, e),
        is_active-InForce r.rule now (ground (arith, e)),
        rule_allows-Covers r domain (ground (arith, e)),
      )
      | inr e ↦
          let (q, m, same, f, c) = allowing-In rs domain now rule (ground (arith, h, e)) in
          (q, inr m, same, f, c)
    ]

blocked-found :
    (p : PolicySnapshot) (domain : String) (now : ℕ) (rule : PolicyRule)
    → lookup (to_lower domain) p.subject_domains ≡ some rule
    → InForce rule now
    → blocked_subject p domain now ≡ some rule
unfolding blocked_subject
blocked-found p domain now rule e f = let a = InForce-active rule now f in rw e (rw a refl)

abbrev Names : PolicySnapshot → String → ℕ → String → Type 0
Names p domain now id =
    (r : DomainRule) × In r p.subject_allow
    × InForce r.rule now
    × Covers r domain
    × (id ≡ r.rule.id)

named :
    (l : Libraries) (p : PolicySnapshot) (from : String) (allowlist : List String) (now : ℕ)
    → (preflight l (some p) from allowlist now).is_allowed ≡ true
    → p.subject_allow ≢ []
    → Names p
        (selected_subject_allowed l from allowlist).0
        now
        (preflight l (some p) from allowlist now).rule_id
unfolding preflight subject_allowed
named l p from allowlist now h some_rules = go p.subject_allow refl
  where
    go :
        (rs : List DomainRule)
        → p.subject_allow ≡ rs
        → Names p
            (selected_subject_allowed l from allowlist).0
            now
            (preflight l (some p) from allowlist now).rule_id
    go [] e = absurd (some_rules e)
    go (q ∷ qs) e =
        let domain = (selected_subject_allowed l from allowlist).0 in
        elim (Option-cases (allowing p.subject_allow domain now)) [
          | inl n ↦ absurd (ground (arith, h, e, n))
          | inr (rule, f) ↦
              let (r, m, same, t, c) = allowing-In p.subject_allow domain now rule f in
              let id : (preflight l (some p) from allowlist now).rule_id ≡ rule.id =
                ground (arith, h, e, f) in
              (r, m, t, c, id ∙ ap (λ (z : PolicyRule). z.id) (sym same))
        ]

-- Preflight under a policy, for the domain of the subject's canonical sender. A block wins: where a
-- rule in force blocks the domain the mail is not let through, and the decision names that rule
-- unless the configuration refuses the sender already. A mail that is let through comes from a sender
-- that the configuration accepts; and where the policy has an allowlist, one of its rules is in force,
-- covers the domain, and is named.
pub preflight_lem :
    (l : Libraries) (p : PolicySnapshot) (from : String) (allowlist : List String) (now : ℕ)
    → let d = preflight l (some p) from allowlist now in
      let selected = selected_subject_allowed l from allowlist in
      ((rule : PolicyRule)
        → lookup (to_lower selected.0) p.subject_domains ≡ some rule
        → InForce rule now
        → (d.is_allowed ≡ false) × (selected.1 ≡ true → d.rule_id ≡ rule.id))
      × (d.is_allowed ≡ true
          → (selected.1 ≡ true)
            × (p.subject_allow ≢ []
                → (r : DomainRule) × In r p.subject_allow
                  × InForce r.rule now
                  × Covers r selected.0
                  × (d.rule_id ≡ r.rule.id)))
unfolding preflight subject_allowed
preflight_lem l p from allowlist now = (
  λ rule e f.
      let h = blocked-found p (selected_subject_allowed l from allowlist).0 now rule e f in
      (ground (arith, h), λ a. ground (arith, h, a)),
  λ h. (ground (arith, h), λ some_rules. named l p from allowlist now h some_rules),
)
