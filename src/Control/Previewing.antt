-- ===== src/Control/Previewing.antt =====
-- internal/control: a preview writes its confirmation and nothing else.
use mailproof.Base.{
  ℕ, ◌+◌, ◌≡◌, refl, String, true, false, not, ◌||◌, [], ◌∷◌, ◌++◌, Option, none, some, arith,
  subst, sym, ◌∙◌, ap, Option-cases, inl, inr, unix, any_row, ltb, len,
}
use mailproof.Database.{
  Db, ok, pure, guard, gets, ConfirmationToken, invalid_request, policy_version_conflict,
}
use mailproof.Database.Laws.{bind-elim, transaction-ok, guard-ok, gets-ok, pure-ok}
use mailproof.Submitters.Service.{random}
use mailproof.Control.Commands.{Parsers, Command, byte_len, Canonical, encoded, refused, canonical}
use mailproof.Control.Effective.{
  Crypto, EffectivePolicy, effective_policy_state, ordered, policy_digest, projected_policy_digest,
}
use mailproof.Control.Statements.{newest, current_version, insert_token, has_token}
use mailproof.Control.Service.{
  Service, Preview, confirmation_ttl, is_version, mac, new_token, canonical_of, required,
  preview_capability, preview_statements, preview,
}

canonical_of-ok :
    (l : Parsers) (c : Command) (db : Db) (b : String) (db' : Db)
    → canonical_of l c db ≡ ok (b, db')
    → (canonical l c ≡ encoded b) × (db ≡ db')
canonical_of-ok l c db b db' h = go (canonical l c) refl
  where
    go : (r : Canonical) → canonical l c ≡ r → (canonical l c ≡ encoded b) × (db ≡ db')
    go (encoded d) e = (ground (arith, e, h), ground (arith, e, h))
    go (refused x) e = absurd (ground (arith, e, h))

current_version-ok :
    (db : Db) (n : ℕ) (db' : Db)
    → current_version db ≡ ok (n, db')
    → (newest db.policy_versions ≡ some n) × (db ≡ db')
unfolding current_version
current_version-ok db n db' h = elim (Option-cases (newest db.policy_versions)) [
  | inl e ↦ absurd (ground (arith, e, h))
  | inr (m, e) ↦ (ground (arith, e, h), ground (arith, e, h))
]

random-ok :
    (o : Option String) (db : Db) (r : String) (db' : Db)
    → random o db ≡ ok (r, db')
    → (o ≡ some r) × (db ≡ db')
random-ok none db r db' h = absurd (ground (arith, h))
random-ok (some b) db r db' h = (ground (arith, h), ground (arith, h))

required-ok :
    (o : Option String) (db : Db) (r : String) (db' : Db)
    → required o db ≡ ok (r, db')
    → (o ≡ some r) × (db ≡ db')
required-ok none db r db' h = absurd (ground (arith, h))
required-ok (some b) db r db' h = (ground (arith, h), ground (arith, h))

abbrev with_token : ConfirmationToken → Db → Db
with_token t db = record db { confirmation_tokens = db.confirmation_tokens ++ (t ∷ []) }

insert_token-ok :
    (t : ConfirmationToken) (db : Db) (u : Unit {0}) (db' : Db)
    → insert_token t db ≡ ok (u, db')
    → (any_row (has_token t.token_digest) db.confirmation_tokens ≡ false) × (with_token t db ≡ db')
unfolding insert_token
insert_token-ok t db u db' h = (ground (arith, h), ground (arith, h))

-- What a preview that succeeded has checked, returned and written.
pub record Previewed (l : Parsers) (k : Crypto) (s : Service) (session : String) (c : Command)
    (now : ℕ) (db db' : Db) (p : Preview) : Type 0 where
  pub commanded : canonical l c ≡ encoded p.normalized
  pub at_version : newest db.policy_versions ≡ some p.current_version
  pub expected : is_version c.expected_version p.current_version ≡ true
  pub before : p.before_digest ≡ policy_digest k (effective_policy_state k (unix now) db)
  pub after :
      projected_policy_digest l k
        (ordered (effective_policy_state k (unix now) db))
        c.command_type
        c.command
        (preview_capability k s c.command_type p.confirmation_token)
      ≡ some p.after_digest
  pub lasts : p.expires_at ≡ now + confirmation_ttl
  pub fresh : any_row (has_token (mac k s p.confirmation_token)) db.confirmation_tokens ≡ false
  pub written :
      with_token
        (new_token k s session c now p.normalized p.confirmation_token p.current_version
          p.before_digest p.after_digest)
        db
      ≡ db'

abbrev returned : String → String → String → String → ℕ → ℕ → Preview
returned b raw before after version now = record {
  confirmation_token = raw;
  before_digest = before;
  after_digest = after;
  expires_at = now + confirmation_ttl;
  normalized = b;
  current_version = version;
  next_version = version + 1;
}

preview_statements-ok :
    (l : Parsers) (k : Crypto) (s : Service) (session : String) (c : Command) (now : ℕ)
    (token_bytes : Option String) (db : Db) (p : Preview) (db' : Db)
    → preview_statements l k s session c now token_bytes db ≡ ok (p, db')
    → Previewed l k s session c now db db' p
unfolding preview_statements
preview_statements-ok l k s session c now token_bytes db p db' h =
    let Goal = Previewed l k s session c now db db' p in
    let long = not (ltb (len s.confirmation_key) 32 || ltb (byte_len session) 16) in
    bind-elim Goal (guard long invalid_request) _ db p db' h (λ u0 d0 e0 h.
      bind-elim Goal (canonical_of l c) _ d0 p db' h (λ b d1 e1 h.
        bind-elim Goal current_version _ d1 p db' h (λ version d2 e2 h.
          bind-elim Goal (guard (is_version c.expected_version version) policy_version_conflict) _
            d2 p db' h
            (λ u d3 e3 h.
              bind-elim Goal (gets (effective_policy_state k (unix now))) _ d3 p db' h
                (λ state d4 e4 h. bind-elim Goal (random token_bytes) _ d4 p db' h (λ raw d5 e5 h.
                  let before = policy_digest k state in
                  let added = preview_capability k s c.command_type raw in
                  bind-elim Goal
                    (required
                      (projected_policy_digest l k (ordered state) c.command_type c.command added))
                    _ d5 p db' h
                    (λ after d6 e6 h.
                      bind-elim Goal
                        (insert_token (new_token k s session c now b raw version before after))
                        (λ z. pure (returned b raw before after version now)) d6 p db' h
                        (λ w d7 e7 h.
                          let (g0, q0) = guard-ok long invalid_request db u0 d0 e0 in
                          let (g1, q1) = canonical_of-ok l c d0 b d1 e1 in
                          let (g2, q2) = current_version-ok d1 version d2 e2 in
                          let (g3, q3) =
                            guard-ok (is_version c.expected_version version) policy_version_conflict
                              d2 u d3 e3 in
                          let (g4, q4) =
                            gets-ok (effective_policy_state k (unix now)) d3 state d4 e4 in
                          let (g5, q5) = random-ok token_bytes d4 raw d5 e5 in
                          let (g6, q6) =
                            required-ok
                              (projected_policy_digest l k (ordered state) c.command_type c.command
                                added)
                              d5 after d6 e6 in
                          let t = new_token k s session c now b raw version before after in
                          let (g7, q7) = insert_token-ok t d6 w d7 e7 in
                          let to_d1 = q0 ∙ q1 in
                          let to_d3 = to_d1 ∙ q2 ∙ q3 in
                          let to_d6 = to_d3 ∙ q4 ∙ q5 ∙ q6 in
                          let at_db : effective_policy_state k (unix now) db ≡ state =
                            ap (effective_policy_state k (unix now)) to_d3 ∙ g4 in
                          let (ret, last) =
                            pure-ok (returned b raw before after version now) d7 p db' h in
                          subst (λ (z : Preview). Previewed l k s session c now db db' z) ret
                            (record {
                              commanded = g1;
                              at_version = ap (λ (z : Db). newest z.policy_versions) to_d1 ∙ g2;
                              expected = g3;
                              before = ap (policy_digest k) (sym at_db);
                              after =
                                  subst
                                    (λ (z : EffectivePolicy).
                                      projected_policy_digest l k (ordered z) c.command_type
                                        c.command added
                                      ≡ some after)
                                    (sym at_db) g6;
                              lasts = refl;
                              fresh =
                                  ap
                                    (λ (z : Db).
                                      any_row (has_token (mac k s raw)) z.confirmation_tokens)
                                    to_d6
                                  ∙ g7;
                              written = ap (with_token t) to_d6 ∙ q7 ∙ last;
                            })))))))))

-- A preview that succeeded is of a command that is valid and expects the newest version. It returns
-- the digest of the policy in force, and that of the policy that the command makes of it once its
-- rules have lost their identifiers; and it writes one confirmation, with a new token that lasts five
-- minutes, and nothing else.
pub preview_lem :
    (l : Parsers) (k : Crypto) (s : Service) (session : String) (c : Command) (now : ℕ)
    (token_bytes : Option String) (db db' : Db) (p : Preview)
    → preview l k s session c now token_bytes db ≡ (db', ok p)
    → Previewed l k s session c now db db' p
unfolding preview
preview_lem l k s session c now token_bytes db db' p h =
    preview_statements-ok l k s session c now token_bytes db p db'
      (transaction-ok (preview_statements l k s session c now token_bytes) db db' p h)
