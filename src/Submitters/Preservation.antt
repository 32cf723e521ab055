-- ===== src/Submitters/Preservation.antt =====
-- internal/submitter/submitter.go: every operation keeps the keys of the tables.
use mailproof.Base.{
  ℕ, ◌≡◌, refl, subst, sym, ◌+◌, true, false, ◌∷◌, ◌≤◌, unix, String, Bool, List, [], ◌∷◌, Option,
  none, some, arith, any_row, count_rows, ◌==◌, not, Option-cases, inl, inr,
}
use mailproof.Database.{
  Db, Result, ok, err, Error, transaction, guard, gets, modify, status_eq, pending, active, revoked,
  capability_not_active, address_active, mailer_required,
}
use mailproof.Database.Laws.{
  Keeps, bind-Keeps, reads-Keeps, pure-Keeps, guard-Keeps, gets-Keeps, modify-Keeps,
  transaction-Keeps,
}
use mailproof.Submitters.Address.{Libraries, canonical_address}
use mailproof.Submitters.Statements.{
  insert_submitter, insert_challenge, insert_capability, move_submitter, consume, activated,
  withdrawn, has_address, live_for,
}
use mailproof.Submitters.Invariant.{
  Enrolled, insert_submitter-Enrolled, insert_challenge-Enrolled, insert_capability-Enrolled,
  Enrolled-singletons, consume-Enrolled, move_submitter-Enrolled, retired, retired-Enrolled,
}
use mailproof.Submitters.Service.{
  Service, need, random, canonical, digest, enlist, challenged, pending_submitter, new_challenge,
  challenge_statements, challenge, delivered, activate_statements, activate, revoke_statements,
  revoke, rotate_statements, rotate, new_capability, ChallengeResult, Mail, challenge_ttl,
  submission_address,
}

need-Keeps : {A : Type 0} (o : Option A) (e : Error) → Keeps Enrolled (need o (err e))
need-Keeps none e db a db' h v = absurd (ground (arith, h))
need-Keeps (some x) e db a db' h v = subst Enrolled (ground (arith, h)) v

digest-Keeps : (l : Libraries) (s : Service) (value : String) → Keeps Enrolled (digest l s value)
unfolding digest
digest-Keeps l s value = reads-Keeps Enrolled (digest l s value) (λ db a db' h. ground (arith, h))

enlist-Keeps : (id address : String) (now : ℕ) → Keeps Enrolled (enlist id address now)
unfolding enlist
enlist-Keeps id address now db a db' h v =
    elim (Option-cases (insert_submitter (pending_submitter id address now) db)) [
      | inr (d, e) ↦
          let same : d ≡ db' = ground (arith, h, e) in
          subst Enrolled same
            (insert_submitter-Enrolled (pending_submitter id address now) db d e v)
      | inl e ↦ let same : db ≡ db' = ground (arith, h, e) in subst Enrolled same v
    ]

challenged-Keeps :
    (address digest : String) (now : ℕ) → Keeps Enrolled (challenged address digest now)
unfolding challenged
challenged-Keeps address digest now =
    reads-Keeps Enrolled (challenged address digest now) (λ db a db' h. ground (arith, h))

revoke-Keeps : (id : String) (now : ℕ) → Keeps Enrolled (revoke_statements id now)
unfolding revoke_statements
revoke-Keeps id now db a db' h v =
    move_submitter-Enrolled (withdrawn (unix now)) revoked (λ x. refl) (λ x. refl) (λ x. refl) id
      active db db' (ground (arith, h)) v

rotate-Keeps :
    (l : Libraries) (s : Service) (id : String) (now : ℕ)
    (capability_bytes id_bytes : Option String)
    → Keeps Enrolled (rotate_statements l s id now capability_bytes id_bytes)
unfolding rotate_statements
rotate-Keeps l s id now capability_bytes id_bytes =
    bind-Keeps Enrolled (random capability_bytes) _ (need-Keeps capability_bytes _) (λ capability.
      bind-Keeps Enrolled (digest l s capability) _ (digest-Keeps l s capability) (λ d.
        bind-Keeps Enrolled (random id_bytes) _ (need-Keeps id_bytes _) (λ cid.
          bind-Keeps Enrolled (gets (λ db. count_rows (live_for id) db.capabilities)) _
            (gets-Keeps Enrolled _)
            (λ live.
              bind-Keeps Enrolled (guard (live == 1) capability_not_active) _
                (guard-Keeps Enrolled (live == 1) capability_not_active)
                (λ u.
                  bind-Keeps Enrolled (modify (retired id (unix now))) _
                    (modify-Keeps Enrolled (retired id (unix now)) (retired-Enrolled id (unix now)))
                    (λ w.
                      bind-Keeps Enrolled
                        (insert_capability (new_capability cid id d s.capability_key_id now)) _
                        (λ db a db' h.
                          insert_capability-Enrolled
                            (new_capability cid id d s.capability_key_id now) db db' h)
                        (λ z. pure-Keeps Enrolled (submission_address s capability))))))))

activate-Keeps :
    (l : Libraries) (s : Service) (address code : String) (now : ℕ)
    (capability_bytes id_bytes : Option String)
    → Keeps Enrolled (activate_statements l s address code now capability_bytes id_bytes)
unfolding activate_statements
activate-Keeps l s address code now capability_bytes id_bytes =
    bind-Keeps Enrolled (canonical l address) _ (need-Keeps (canonical_address l address) _) (λ to.
      bind-Keeps Enrolled (digest l s code) _ (digest-Keeps l s code) (λ d.
        bind-Keeps Enrolled (challenged to d now) _ (challenged-Keeps to d now) (λ found.
          bind-Keeps Enrolled (guard (not (status_eq found.status active)) address_active) _
            (guard-Keeps Enrolled (not (status_eq found.status active)) address_active)
            (λ u.
              bind-Keeps Enrolled (random capability_bytes) _ (need-Keeps capability_bytes _)
                (λ capability.
                  bind-Keeps Enrolled (digest l s capability) _ (digest-Keeps l s capability) (λ cd.
                    bind-Keeps Enrolled (random id_bytes) _ (need-Keeps id_bytes _) (λ cid.
                      bind-Keeps Enrolled (modify (consume found.submitter_id d (unix now))) _
                        (modify-Keeps Enrolled _ (consume-Enrolled found.submitter_id d (unix now)))
                        (λ w.
                          bind-Keeps Enrolled
                            (move_submitter found.submitter_id pending active
                              (activated (unix now)))
                            _
                            (λ db a db' h.
                              move_submitter-Enrolled (activated (unix now)) active (λ x. refl)
                                (λ x. refl) (λ x. refl) found.submitter_id pending db db' h)
                            (λ y.
                              bind-Keeps Enrolled
                                (insert_capability (
                                  new_capability cid found.submitter_id cd s.capability_key_id now))
                                _
                                (λ db a db' h.
                                  insert_capability-Enrolled
                                    (new_capability cid found.submitter_id cd s.capability_key_id
                                      now)
                                    db db' h)
                                (λ z. pure-Keeps Enrolled (record {
                                  submitter = record found {
                                    canonical_address = to;
                                    status = active;
                                    verified_at = some (unix now);
                                  };
                                  submission_address = submission_address s capability;
                                })))))))))))

challenge-Keeps :
    (l : Libraries) (s : Service) (address : String) (now : ℕ)
    (id_bytes code_bytes submitter_bytes : Option String)
    → Keeps Enrolled (challenge_statements l s address now id_bytes code_bytes submitter_bytes)
unfolding challenge_statements
challenge-Keeps l s address now id_bytes code_bytes submitter_bytes =
    bind-Keeps Enrolled (canonical l address) _ (need-Keeps (canonical_address l address) _) (λ to.
      bind-Keeps Enrolled (guard s.has_mailer mailer_required) _
        (guard-Keeps Enrolled s.has_mailer mailer_required)
        (λ u. bind-Keeps Enrolled (random id_bytes) _ (need-Keeps id_bytes _) (λ id.
          bind-Keeps Enrolled (random code_bytes) _ (need-Keeps code_bytes _) (λ code.
            bind-Keeps Enrolled (digest l s code) _ (digest-Keeps l s code) (λ d.
              bind-Keeps Enrolled (gets (λ db. any_row (has_address to active) db.submitters)) _
                (gets-Keeps Enrolled _)
                (λ taken.
                  bind-Keeps Enrolled (guard (not taken) address_active) _
                    (guard-Keeps Enrolled (not taken) address_active)
                    (λ w.
                      bind-Keeps Enrolled (random submitter_bytes) _ (need-Keeps submitter_bytes _)
                        (λ fresh.
                          bind-Keeps Enrolled (enlist fresh to now) _ (enlist-Keeps fresh to now)
                            (λ sid.
                              bind-Keeps Enrolled (insert_challenge (new_challenge id sid d now)) _
                                (λ db a db' h.
                                  insert_challenge-Enrolled (new_challenge id sid d now) db db' h)
                                (λ z. pure-Keeps Enrolled (
                                  record {
                                    id = id;
                                    submitter_id = sid;
                                    address = to;
                                    expires_at = now + challenge_ttl;
                                  },
                                  record { recipient = to; code = code },
                                )))))))))))

delivered_db :
    (sends : Bool) (r : Db × Result (ChallengeResult × Mail)) → (delivered sends r).0 ≡ r.0
delivered_db sends (db, err e) = refl
delivered_db true (db, ok (c, mail)) = refl
delivered_db false (db, ok (c, mail)) = refl

-- The calls of the service that change the database.
pub data Call : Type 0 where
  challenges : String → ℕ → Option String → Option String → Option String → Bool → Call
  activates : String → String → ℕ → Option String → Option String → Call
  revokes : String → ℕ → Call
  rotates : String → ℕ → Option String → Option String → Call

abbrev pub perform : Libraries → Service → Call → Db → Db
perform l s (challenges a now i c b sends) db = (challenge l s a now i c b sends db).0
perform l s (activates a code now c i) db = (activate l s a code now c i db).0
perform l s (revokes id now) db = (revoke id now db).0
perform l s (rotates id now c i) db = (rotate l s id now c i db).0

abbrev pub performs : Libraries → Service → List Call → Db → Db
performs l s [] db = db
performs l s (k ∷ ks) db = performs l s ks (perform l s k db)

pub perform-Enrolled :
    (l : Libraries) (s : Service) (k : Call) (db : Db) → Enrolled db → Enrolled (perform l s k db)
unfolding challenge activate revoke rotate
perform-Enrolled l s (challenges a now i c b sends) db v =
    subst Enrolled
      (sym (delivered_db sends (transaction (challenge_statements l s a now i c b) db)))
      (transaction-Keeps Enrolled (challenge_statements l s a now i c b)
        (challenge-Keeps l s a now i c b) db v)
perform-Enrolled l s (activates a code now c i) db v =
    transaction-Keeps Enrolled (activate_statements l s a code now c i)
      (activate-Keeps l s a code now c i) db v
perform-Enrolled l s (revokes id now) db v =
    transaction-Keeps Enrolled (revoke_statements id now) (revoke-Keeps id now) db v
perform-Enrolled l s (rotates id now c i) db v =
    transaction-Keeps Enrolled (rotate_statements l s id now c i) (rotate-Keeps l s id now c i) db v

performs-Enrolled :
    (l : Libraries) (s : Service) (ks : List Call) (db : Db)
    → Enrolled db
    → Enrolled (performs l s ks db)
performs-Enrolled l s [] db v = v
performs-Enrolled l s (k ∷ ks) db v =
    performs-Enrolled l s ks (perform l s k db) (perform-Enrolled l s k db v)

-- After any calls at a database whose keys are unique, an address has at most one active submitter
-- and at most one that is revoked, and a submitter at most one live capability.
pub performs_singletons :
    (l : Libraries) (s : Service) (ks : List Call) (db : Db) (id address : String)
    → Enrolled db
    → (count_rows (has_address address active) (performs l s ks db).submitters ≤ 1)
      × (count_rows (has_address address revoked) (performs l s ks db).submitters ≤ 1)
      × (count_rows (live_for id) (performs l s ks db).capabilities ≤ 1)
performs_singletons l s ks db id address v =
    Enrolled-singletons id address (performs l s ks db) (performs-Enrolled l s ks db v)
