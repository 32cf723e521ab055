-- ===== src/Control/Frame.antt =====
-- internal/control: the change of a command leaves versions, commands, audit events and confirmations
-- alone.
use mailproof.Base.{
  ℕ, ◌≡◌, String, Option, arith, subst, Bool-cases, Option-cases, inl, inr, unix, ◌==◌, count_rows,
  update_rows, not, ◌||◌, ltb, len, is_empty,
}
use mailproof.Database.{
  Db, Tx, ok, Submitter, Capability, Status, active, revoked, fail, Error, invalid_request, guard,
  unsupported_command,
}
use mailproof.Database.Laws.{bind-elim}
use mailproof.Submitters.Statements.{move_submitter, withdrawn, insert_capability, live_for, retire}
use mailproof.Submitters.Service.{random}
use mailproof.Control.Commands.{
  Payload, Parsers, Operation, operation, disables, quota_change, submitter_suspend,
  submitter_reactivate, capability_rotate, subject_allowlist_put, peer_block_put,
  outer_domain_block_put, subject_domain_block_put,
}
use mailproof.Control.Effective.{Crypto, members}
use mailproof.Control.Statements.{insert_rule}
use mailproof.Control.Changes.{
  change_quota, change_status, disable_rule, add_rule, future_expiry, change_rule, apply_operation,
  apply, rotate, reactivated, replace_capability, control_capability, rotated_owner,
}

pub record Framed (db db' : Db) : Type 0 where
  pub versions : db'.policy_versions ≡ db.policy_versions
  pub commands : db'.control_commands ≡ db.control_commands
  pub audits : db'.audit_events ≡ db.audit_events
  pub tokens : db'.confirmation_tokens ≡ db.confirmation_tokens

abbrev pub Frames : {A : Type 0} → Tx A → Type 0
Frames {A} m = (db : Db) (a : A) (db' : Db) → m db ≡ ok (a, db') → Framed db db'

fail-Frames : {A : Type 0} (e : Error) → Frames {A = A} (fail e)
fail-Frames e db a db' h = absurd (ground (arith, h))

change_quota-Frames : (v : Payload) (version : ℕ) → Frames (change_quota v version)
unfolding change_quota
change_quota-Frames v version db a db' h = ground (arith, h)

move-Frames :
    (id : String) (from to : Status) (f : Submitter → Submitter)
    → Frames (move_submitter id from to f)
unfolding move_submitter
move-Frames id from to f db a db' h = ground (arith, h)

change_status-Frames :
    (id : String) (from to : Status) (f : Submitter → Submitter)
    → Frames (change_status id from to f)
unfolding change_status
change_status-Frames id from to f db a db' h =
    bind-elim (Framed db db') (move_submitter id from to f) _ db a db' h (λ u d e k.
      let m = move-Frames id from to f db u d e in
      let same : d ≡ db' = ground (arith, k) in subst (Framed db) same m)

disable_rule-Frames :
    (type : String) (v : Payload) (version : ℕ) → Frames (disable_rule type v version)
unfolding disable_rule
disable_rule-Frames type v version db a db' h = ground (arith, h)

add_rule-Frames :
    (l : Parsers) (type : String) (v : Payload) (subject : String) (version now : ℕ)
    (rule_id : String)
    → Frames (add_rule l type v subject version now rule_id)
unfolding add_rule insert_rule future_expiry
add_rule-Frames l type v subject version now rule_id db a db' h = ground (arith, h)

change_rule-Frames :
    (l : Parsers) (type : String) (v : Payload) (subject : String) (version now : ℕ)
    (rule_id : String)
    → Frames (change_rule l type v subject version now rule_id)
unfolding change_rule
change_rule-Frames l type v subject version now rule_id db a db' h =
    elim (Bool-cases (disables v)) [
      | inl e ↦ disable_rule-Frames type v version db a db' (ground (arith, e, h))
      | inr e ↦ add_rule-Frames l type v subject version now rule_id db a db' (ground (arith, e, h))
    ]

apply_operation-Frames :
    (l : Parsers) (o : Operation) (type : String) (v : Payload) (subject : String) (version now : ℕ)
    (rule_id : String)
    → Frames (apply_operation l o type v subject version now rule_id)
unfolding apply_operation
apply_operation-Frames l quota_change type v subject version now rule_id =
    change_quota-Frames v version
apply_operation-Frames l submitter_suspend type v subject version now rule_id =
    change_status-Frames v.submitter_id active revoked (withdrawn (unix now))
apply_operation-Frames l submitter_reactivate type v subject version now rule_id =
    change_status-Frames v.submitter_id revoked active reactivated
apply_operation-Frames l capability_rotate type v subject version now rule_id =
    fail-Frames unsupported_command
apply_operation-Frames l subject_allowlist_put type v subject version now rule_id =
    change_rule-Frames l type v subject version now rule_id
apply_operation-Frames l peer_block_put type v subject version now rule_id =
    change_rule-Frames l type v subject version now rule_id
apply_operation-Frames l outer_domain_block_put type v subject version now rule_id =
    change_rule-Frames l type v subject version now rule_id
apply_operation-Frames l subject_domain_block_put type v subject version now rule_id =
    change_rule-Frames l type v subject version now rule_id

-- What the cases of apply come to.
pub apply-Frames :
    (l : Parsers) (type raw : String) (version now : ℕ) (rule_id : String)
    → Frames (apply l type raw version now rule_id)
unfolding apply
apply-Frames l type raw version now rule_id db a db' h = elim (Option-cases (members l raw)) [
  | inl e ↦ absurd (ground (arith, e, h))
  | inr (p, e) ↦ elim (Option-cases (operation type)) [
    | inl f ↦ absurd (ground (arith, e, f, h))
    | inr (o, f) ↦
        apply_operation-Frames l o type p.0 p.1 version now rule_id db a db'
          (ground (arith, e, f, h))
  ]
]

insert_capability-Frames : (c : Capability) → Frames (insert_capability c)
unfolding insert_capability
insert_capability-Frames c db a db' h = ground (arith, h)

replace_capability-Frames : (c : Capability) (now : ℕ) → Frames (replace_capability c now)
unfolding replace_capability
replace_capability-Frames c now db a db' h =
    let d = record db {
      capabilities = update_rows (live_for c.submitter_id) (retire now) db.capabilities;
    } in
    let n = count_rows (live_for c.submitter_id) db.capabilities in
    bind-elim (Framed db db') (guard (n == 1) invalid_request) (λ u. insert_capability c) d a db' h
      (λ u d' e k. let f = insert_capability-Frames c d' a db' k in ground (arith, e, f))

pub rotate-Frames :
    (l : Parsers) (k : Crypto) (raw key domain : String) (now : ℕ) (secret : String)
    (id_bytes : Option String)
    → Frames (rotate l k raw key domain now secret id_bytes)
unfolding rotate
rotate-Frames l k raw key domain now secret id_bytes db a db' h =
    let owner = rotated_owner l raw in
    let keyed = not (ltb (len key) 32 || is_empty domain) in
    bind-elim (Framed db db') (guard keyed invalid_request) _ db a db' h (λ u d e h.
      bind-elim (Framed db db') (guard (not (is_empty owner)) invalid_request) _ d a db' h
        (λ u' d' e' h.
          bind-elim (Framed db db') (guard (not (is_empty secret)) invalid_request) _ d' a db' h
            (λ u'' d'' e'' h.
              bind-elim (Framed db db') (random id_bytes) _ d'' a db' h (λ id d3 e3 h.
                bind-elim (Framed db db')
                  (replace_capability (control_capability k key id owner secret now) (unix now)) _
                  d3 a db' h
                  (λ w d4 e4 h.
                    let f =
                      replace_capability-Frames (control_capability k key id owner secret now)
                        (unix now) d3 w d4 e4 in
                    ground (arith, e, e', e'', e3, f, h))))))
