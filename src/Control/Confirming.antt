-- ===== src/Control/Confirming.antt =====
-- internal/control: what a confirmation that succeeds has checked and changed.
use mailproof.Base.{
  ℕ, ◌+◌, ◌≡◌, refl, String, true, List, [], ◌∷◌, ◌++◌, Option, some, arith, subst, sym, ◌∙◌, ap,
  unix, update_rows, find_row,
}
use mailproof.Database.{
  Db, ok, pure, guard, gets, PolicyVersion, ControlCommand, AuditEvent, ConfirmationToken,
  invalid_request,
}
use mailproof.Database.Laws.{bind-elim, transaction-ok, guard-ok, gets-ok}
use mailproof.Control.Commands.{Parsers}
use mailproof.Control.Effective.{Crypto, effective_policy_state, policy_digest}
use mailproof.Control.Statements.{insert_version, has_token, open_token, spent}
use mailproof.Control.Frame.{Framed}
use mailproof.Control.Service.{
  Service, Confirmation, Applied, mac, admissible, accept_token, check_current, execute,
  verify_digest, record_command, confirm_statements, confirm,
}
use mailproof.Control.Steps.{
  version_row, command_row, audit_row, Accepted, Current, recorded, accept_token-ok,
  check_current-ok, insert_version-ok, execute-Framed, verify_digest-ok, record_command-ok,
}

-- A confirmation that succeeded, from one database to another.
pub record Confirmed (k : Crypto) (s : Service) (x : Confirmation) (now : ℕ) (db db' : Db)
    (a : Applied) (t : ConfirmationToken) (current : ℕ) : Type 0 where
  pub admitted : admissible s x ≡ true
  pub found : find_row (has_token (mac k s x.confirmation_token)) db.confirmation_tokens ≡ some t
  pub accepted : Accepted x (unix now) t
  pub up_to_date : Current t db current
  pub result_version : a.policy_version ≡ current + 1
  pub versions : db'.policy_versions ≡ db.policy_versions ++ (version_row t current (unix now) ∷ [])
  pub commands :
      db'.control_commands ≡ db.control_commands ++ (command_row t current (unix now) ∷ [])
  pub audits : db'.audit_events ≡ db.audit_events ++ (audit_row t (unix now) ∷ [])
  pub tokens :
      db'.confirmation_tokens
      ≡ update_rows
          (open_token (mac k s x.confirmation_token))
          (spent (unix now))
          db.confirmation_tokens
  pub previewed : policy_digest k (effective_policy_state k (unix now) db') ≡ t.command_digest

abbrev pub Confirms : Crypto → Service → Confirmation → ℕ → Db → Db → Applied → Type 0
Confirms k s x now db db' a =
    (t : ConfirmationToken) × (current : ℕ) × Confirmed k s x now db db' a t current

-- The policy is read from other tables.
same_policy :
    (k : Crypto) (digest : String) (t : ConfirmationToken) (current now : ℕ) (db : Db)
    → policy_digest k (effective_policy_state k now (recorded digest t current now db))
      ≡ policy_digest k (effective_policy_state k now db)
unfolding effective_policy_state
same_policy k digest t current now db = refl

abbrev versions_of : Db → List PolicyVersion
versions_of db = db.policy_versions

abbrev commands_of : Db → List ControlCommand
commands_of db = db.control_commands

abbrev audits_of : Db → List AuditEvent
audits_of db = db.audit_events

abbrev tokens_of : Db → List ConfirmationToken
tokens_of db = db.confirmation_tokens

-- The databases after the steps of a confirmation, and what each step gave.
assemble :
    (k : Crypto) (s : Service) (x : Confirmation) (now : ℕ) (a : Applied) (t : ConfirmationToken)
    (current : ℕ) (db d4 d5 d6 db' : Db)
    → admissible s x ≡ true
    → find_row (has_token (mac k s x.confirmation_token)) db.confirmation_tokens ≡ some t
    → Accepted x (unix now) t
    → Current t db current
    → a.policy_version ≡ current + 1
    → record db { policy_versions = db.policy_versions ++ (version_row t current (unix now) ∷ []) }
      ≡ d4
    → Framed d4 d5
    → (d5 ≡ d6) × (policy_digest k (effective_policy_state k (unix now) d5) ≡ t.command_digest)
    → recorded (mac k s x.confirmation_token) t current (unix now) d6 ≡ db'
    → Confirmed k s x now db db' a t current
assemble k s x now a t current db d4 d5 d6 db' admitted found accepted up_to_date result v f g r =
    record {
      admitted = admitted;
      found = found;
      accepted = accepted;
      up_to_date = up_to_date;
      result_version = result;
      versions = cc (ap versions_of v, f.versions, ap versions_of g.0, ap versions_of r);
      commands = cc (ap commands_of v, f.commands, ap commands_of g.0, ap commands_of r);
      audits = cc (ap audits_of v, f.audits, ap audits_of g.0, ap audits_of r);
      tokens = cc (ap tokens_of v, f.tokens, ap tokens_of g.0, ap tokens_of r);
      previewed =
          ap (λ (z : Db). policy_digest k (effective_policy_state k (unix now) z)) (sym r)
          ∙ same_policy k (mac k s x.confirmation_token) t current (unix now) d6
          ∙ ap (λ (z : Db). policy_digest k (effective_policy_state k (unix now) z)) (sym g.0)
          ∙ g.1;
    }

confirm_statements-ok :
    (l : Parsers) (k : Crypto) (s : Service) (x : Confirmation) (now : ℕ) (rule_id : String)
    (id_bytes : Option String) (db : Db) (a : Applied) (db' : Db)
    → confirm_statements l k s x now rule_id id_bytes db ≡ ok (a, db')
    → Confirms k s x now db db' a
unfolding confirm_statements
confirm_statements-ok l k s x now rule_id id_bytes db a db' h =
    let Goal = Confirms k s x now db db' a in
    let digest = mac k s x.confirmation_token in
    bind-elim Goal (guard (admissible s x) invalid_request) _ db a db' h (λ u d0 e0 h.
      bind-elim Goal (gets (λ d. find_row (has_token digest) d.confirmation_tokens)) _ d0 a db' h
        (λ o d1 e1 h. bind-elim Goal (accept_token x (unix now) o) _ d1 a db' h (λ t d2 e2 h.
          bind-elim Goal (check_current t) _ d2 a db' h (λ current d3 e3 h.
            bind-elim Goal (insert_version (version_row t current (unix now))) _ d3 a db' h
              (λ w d4 e4 h.
                bind-elim Goal (execute l k s x t (current + 1) now rule_id id_bytes) _ d4 a db' h
                  (λ c d5 e5 h.
                    bind-elim Goal (verify_digest k t (unix now)) _ d5 a db' h (λ w6 d6 e6 h.
                      bind-elim Goal (record_command k s x t current (unix now))
                        (λ z. pure (record {
                          command_id = t.command_id;
                          policy_version = current + 1;
                          capability = c;
                        }))
                        d6 a db' h
                        (λ w7 d7 e7 h.
                          let (g0, q0) = guard-ok (admissible s x) invalid_request db u d0 e0 in
                          let (g1, q1) =
                            gets-ok (λ d. find_row (has_token digest) d.confirmation_tokens) d0 o d1
                              e1 in
                          let (g2, q2, acc) = accept_token-ok x (unix now) o d1 t d2 e2 in
                          let (q3, cur) = check_current-ok t d2 current d3 e3 in
                          let q = q0 ∙ q1 ∙ q2 in
                          let v = insert_version-ok (version_row t current (unix now)) d3 w d4 e4 in
                          let f =
                            execute-Framed l k s x t (current + 1) now rule_id id_bytes d4 c d5
                              e5 in
                          let g = verify_digest-ok k t (unix now) d5 w6 d6 e6 in
                          let r = record_command-ok k s x t current (unix now) d6 w7 d7 e7 in
                          let last : d7 ≡ db' = ground (arith, h) in
                          let result : a.policy_version ≡ current + 1 = ground (arith, h) in
                          (
                            t,
                            current,
                            assemble k s x now a t current db d4 d5 d6 db' g0
                                (ap (λ (z : Db). find_row (has_token digest) z.confirmation_tokens)
                                    q0
                                  ∙ g1
                                  ∙ g2)
                                acc (subst (λ (z : Db). Current t z current) (sym q) cur) result
                                (ap
                                    (λ (z : Db). record z {
                                      policy_versions =
                                          z.policy_versions
                                          ++ (version_row t current (unix now) ∷ []);
                                    })
                                    (q ∙ q3)
                                  ∙ v)
                                f g (r ∙ last),
                          )))))))))

-- A confirmation that succeeds names a token that is not spent and in time, repeats what its preview
-- returned, expects the newest version of the policy and has a new idempotency key; then it adds one
-- version, one command and one audit event, spends the token, and the policy that is then in force
-- has the digest that was previewed.
pub confirm_lem :
    (l : Parsers) (k : Crypto) (s : Service) (x : Confirmation) (now : ℕ) (rule_id : String)
    (id_bytes : Option String) (db db' : Db) (a : Applied)
    → confirm l k s x now rule_id id_bytes db ≡ (db', ok a)
    → Confirms k s x now db db' a
unfolding confirm
confirm_lem l k s x now rule_id id_bytes db db' a h =
    confirm_statements-ok l k s x now rule_id id_bytes db a db'
      (transaction-ok (confirm_statements l k s x now rule_id id_bytes) db db' a h)
