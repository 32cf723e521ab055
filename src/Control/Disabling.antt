-- ===== src/Control/Disabling.antt =====
-- internal/control/control.go: the preview of a command that disables a rule.
use mailproof.Base.{
  ℕ, ◌≡◌, refl, sym, ap, ◌∙◌, String, Bool, true, false, List, [], ◌∷◌, map, arith, text_less_asym,
  sort_by_idem, sort_by, sort_by-map, join, str_eq, str_eq_sym, is_empty, some, unix, Option, ◌++◌,
  any_row, find_row, str_eq_refl,
}
use mailproof.Database.{Db, ok, ConfirmationToken}
use mailproof.Control.Statements.{has_token}
use mailproof.Control.Service.{
  Service, Preview, Confirmation, Applied, mac, new_token, preview_capability, preview, confirm,
}
use mailproof.Control.Confirming.{confirm_lem}
use mailproof.Control.Previewing.{preview_lem}
use mailproof.Control.Commands.{
  Parsers, Payload, Command, Operation, operation, disables, quota_change, submitter_suspend,
  submitter_reactivate, capability_rotate, subject_allowlist_put, peer_block_put,
  outer_domain_block_put, subject_domain_block_put,
}
use mailproof.Control.Effective.{
  Crypto, EffectiveRule, EffectiveSubmitter, EffectiveCapability, EffectivePolicy, rule_key,
  rule_less, submitter_less, capability_less, without_id, ordered, policy_digest, remove_first,
  project, members, projected_policy_digest, effective_policy_state,
}

rule_asym : (x y : EffectiveRule) → rule_less x y ≡ true → rule_less y x ≡ false
rule_asym x y h = text_less_asym (rule_key x) (rule_key y) h

submitter_asym : (x y : EffectiveSubmitter) → submitter_less x y ≡ true → submitter_less y x ≡ false
submitter_asym x y h = text_less_asym x.id y.id h

capability_asym :
    (x y : EffectiveCapability) → capability_less x y ≡ true → capability_less y x ≡ false
capability_asym x y h =
    text_less_asym (join x.submitter_id x.digest) (join y.submitter_id y.digest) h

-- The rules without identifiers, in order.
blank : List EffectiveRule → List EffectiveRule
blank rs = sort_by rule_less (map without_id rs)

blank-map : (rs : List EffectiveRule) → blank rs ≡ map without_id (sort_by rule_less rs)
unfolding blank
blank-map rs = sort_by-map rule_less rule_less without_id (λ x y. refl) rs

without_id_twice :
    (rs : List EffectiveRule) → map without_id (map without_id rs) ≡ map without_id rs
without_id_twice [] = refl
without_id_twice (r ∷ rs) = ap (λ t. without_id r ∷ t) (without_id_twice rs)

blank_twice : (rs : List EffectiveRule) → blank (blank rs) ≡ blank rs
unfolding blank
blank_twice rs =
    sort_by-map rule_less rule_less without_id (λ x y. refl) (sort_by rule_less (map without_id rs))
    ∙ ap (map without_id) (sort_by_idem rule_less rule_asym (map without_id rs))
    ∙ sym (sort_by-map rule_less rule_less without_id (λ x y. refl) (map without_id rs))
    ∙ ap (sort_by rule_less) (without_id_twice rs)

ordered_twice : (s : EffectivePolicy) → ordered (ordered s) ≡ ordered s
unfolding ordered blank
ordered_twice s = ground (
  arith,
  blank_twice s.rules,
  sort_by_idem submitter_less submitter_asym s.submitters,
  sort_by_idem capability_less capability_asym s.capabilities,
)

-- No rule has the identifier any more.
keep_all :
    (id : String) (rs : List EffectiveRule)
    → is_empty id ≡ false
    → remove_first (λ r. str_eq r.id id) (map without_id rs) ≡ map without_id rs
unfolding remove_first
keep_all id [] h = refl
keep_all id (r ∷ rs) h = rw (str_eq_sym "" id ∙ h) (ap (λ t. without_id r ∷ t) (keep_all id rs h))

removed_none :
    (id : String) (s : EffectivePolicy)
    → is_empty id ≡ false
    → remove_first (λ r. str_eq r.id id) (ordered s).rules ≡ (ordered s).rules
unfolding ordered blank
removed_none id s h =
    ap (remove_first (λ r. str_eq r.id id)) (blank-map s.rules)
    ∙ keep_all id (sort_by rule_less s.rules) h
    ∙ sym (blank-map s.rules)

-- The operations that put rules.
abbrev pub puts_rule : Operation → Bool
puts_rule subject_allowlist_put = true
puts_rule peer_block_put = true
puts_rule outer_domain_block_put = true
puts_rule subject_domain_block_put = true
puts_rule _ = false

unchanged :
    (s : EffectivePolicy) (rs : List EffectiveRule) → rs ≡ s.rules → (record s { rules = rs }) ≡ s
unchanged s rs h = ground (arith, h)

project-same :
    (l : Parsers) (o : Operation) (type : String) (v : Payload) (subject digest : String)
    (s : EffectivePolicy)
    → puts_rule o ≡ true
    → disables v ≡ true
    → is_empty v.rule_id ≡ false
    → project l o type v subject digest (ordered s) ≡ some (ordered s)
unfolding project
project-same l o type v subject digest s puts off named = go o puts
  where
    same :
        some (record (ordered s) {
          rules = remove_first (λ r. str_eq r.id v.rule_id) (ordered s).rules;
        })
        ≡ some (ordered s)
    same = ap some (
        unchanged (ordered s) (remove_first (λ r. str_eq r.id v.rule_id) (ordered s).rules)
          (removed_none v.rule_id s named))

    go :
        (o : Operation)
        → puts_rule o ≡ true
        → project l o type v subject digest (ordered s) ≡ some (ordered s)
    go quota_change h = absurd (ground (arith, h))
    go submitter_suspend h = absurd (ground (arith, h))
    go submitter_reactivate h = absurd (ground (arith, h))
    go capability_rotate h = absurd (ground (arith, h))
    go subject_allowlist_put h = rw off same
    go peer_block_put h = rw off same
    go outer_domain_block_put h = rw off same
    go subject_domain_block_put h = rw off same

digest_unchanged :
    (l : Parsers) (k : Crypto) (s : EffectivePolicy) (type raw digest : String) (o : Operation)
    (v : Payload) (subject : String)
    → members l raw ≡ some (v, subject)
    → operation type ≡ some o
    → puts_rule o ≡ true
    → disables v ≡ true
    → is_empty v.rule_id ≡ false
    → projected_policy_digest l k (ordered s) type raw digest ≡ some (policy_digest k s)
unfolding projected_policy_digest policy_digest
digest_unchanged l k s type raw digest o v subject read is_op puts off named =
    rw
      (
        read,
        is_op,
        project-same l o type v subject digest s puts off named,
        projected_policy_digest,
      )
      (ap (λ (z : EffectivePolicy). some (k.sha256 (k.policy_json z))) (ordered_twice s))

text_inj : {a b : String} → some a ≡ some b → a ≡ b
text_inj h = cc

token_inj : {a b : ConfirmationToken} → some a ≡ some b → a ≡ b
token_inj h = cc

find-new :
    (digest : String) (t : ConfirmationToken) (ts : List ConfirmationToken)
    → any_row (has_token digest) ts ≡ false
    → has_token digest t ≡ true
    → find_row (has_token digest) (ts ++ t ∷ []) ≡ some t
unfolding any_row find_row
find-new digest t [] h e = rw e refl
find-new digest t (r ∷ ts) h e = ground (arith, h, e, find-new digest t ts)

-- A preview of a command that names a rule and disables it, where it succeeds, returns one digest twice: that of
-- the policy in force stands also for the policy after the command. So a confirmation of it that
-- directly follows can only succeed if the policy after the command has the digest that the policy had
-- at the preview.
pub preview_disabling :
    (l : Parsers) (k : Crypto) (s : Service) (session : String) (c : Command) (now : ℕ)
    (token_bytes : Option String) (db db' : Db) (p : Preview) (o : Operation) (v : Payload)
    (subject : String)
    → preview l k s session c now token_bytes db ≡ (db', ok p)
    → members l c.command ≡ some (v, subject)
    → operation c.command_type ≡ some o
    → puts_rule o ≡ true
    → disables v ≡ true
    → is_empty v.rule_id ≡ false
    → (p.after_digest ≡ p.before_digest)
      × ((x : Confirmation) (later : ℕ) (rule_id : String) (id_bytes : Option String) (db'' : Db)
            (a : Applied)
          → x.confirmation_token ≡ p.confirmation_token
          → confirm l k s x later rule_id id_bytes db' ≡ (db'', ok a)
          → policy_digest k (effective_policy_state k (unix later) db'')
            ≡ policy_digest k (effective_policy_state k (unix now) db))
preview_disabling l k s session c now token_bytes db db' p o v subject h read is_op puts off named =
    let e = preview_lem l k s session c now token_bytes db db' p h in
    let state = effective_policy_state k (unix now) db in
    let raw = p.confirmation_token in
    let added = preview_capability k s c.command_type raw in
    let t =
      new_token k s session c now p.normalized raw p.current_version p.before_digest
        p.after_digest in
    let after : p.after_digest ≡ policy_digest k state = text_inj (
      sym e.after
      ∙ digest_unchanged l k state c.command_type c.command added o v subject read is_op puts off
          named) in
    (
      after ∙ sym e.before,
      λ x later rule_id id_bytes db'' a same done.
          let (u, current, f) = confirm_lem l k s x later rule_id id_bytes db' db'' a done in
          let there : find_row (has_token (mac k s raw)) db'.confirmation_tokens ≡ some t =
            ap (λ (z : Db). find_row (has_token (mac k s raw)) z.confirmation_tokens)
              (sym e.written)
            ∙ find-new (mac k s raw) t db.confirmation_tokens e.fresh (str_eq_refl (mac k s raw)) in
          let found =
            ap (λ (z : String). find_row (has_token (mac k s z)) db'.confirmation_tokens) (sym same)
            ∙ f.found in
          let row : u ≡ t = token_inj (sym found ∙ there) in
          f.previewed ∙ ap (λ (z : ConfirmationToken). z.command_digest) row ∙ after,
    )
