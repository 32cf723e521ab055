-- ===== src/Submitters/Enrolment.antt =====
-- internal/submitter/submitter.go: what it takes to become active, what the mailer sends, and when a
-- submitter can be revoked.
use mailproof.Base.{
  ℕ, ◌+◌, ◌≡◌, refl, ◌∙◌, String, Bool, true, false, not, ◌&&◌, ◌||◌, List, [], ◌∷◌, ◌++◌, Option,
  none, some, arith, any_row, update_rows, ◌==◌, Option-cases, Bool-cases, inl, inr, str_eq, unix,
  str_eq_refl, is_some, any_row-append,
}
use mailproof.Database.{
  Db, Tx, Result, ok, err, Error, mailer_required, invalid_address, random_failed, transaction,
  guard, address_active, Submitter, Challenge, Capability, status_eq, pending, active,
}
use mailproof.Submitters.Address.{Libraries, canonical_address}
use mailproof.Submitters.Statements.{
  insert_submitter, insert_challenge, insert_capability, move_submitter, consume, activated,
  has_address, live_for, open_for, consume_challenge,
}
use mailproof.Database.Laws.{bind-elim, transaction-ok}
use mailproof.Submitters.Service

newest_usable-some :
    (p : Challenge → Bool) (cs : List Challenge) (c : Challenge)
    → Service.newest_usable p cs ≡ some c
    → any_row p cs ≡ true
unfolding Service.newest_usable any_row
newest_usable-some p [] c h = absurd (ground arith)
newest_usable-some p (x ∷ cs) c h = elim (Bool-cases (p x)) [
  | inl e ↦ ground arith
  | inr e ↦ ground (arith, newest_usable-some p cs c)
]

challenged-usable :
    (address digest : String) (now : ℕ) (db db' : Db) (found : Submitter)
    → Service.challenged address digest now db ≡ ok (found, db')
    → (any_row (Service.usable db.submitters address digest (unix now)) db.challenges ≡ true)
      × (db ≡ db')
unfolding Service.challenged
challenged-usable address digest now db db' found h =
    elim (Option-cases (
      Service.newest_usable (Service.usable db.submitters address digest (unix now))
        db.challenges)) [
          | inl e ↦ absurd (ground (arith, h, e))
          | inr (c, e) ↦ (
            newest_usable-some (Service.usable db.submitters address digest (unix now))
                db.challenges c e,
            ground (arith, h, e),
          )
        ]

consumed :
    (id digest : String) (now : ℕ) (cs : List Challenge)
    → any_row (open_for id digest) (update_rows (open_for id digest) (consume_challenge now) cs)
      ≡ false
unfolding any_row update_rows
consumed id digest now [] = refl
consumed id digest now (c ∷ cs) = elim (Bool-cases (open_for id digest c)) [
  | inl e ↦ rw e (ground (arith, consumed id digest now cs))
  | inr e ↦ rw e (ground (arith, consumed id digest now cs))
]

-- What a successful activation rests on, and what it leaves.
pub record Activates (l : Libraries) (s : Service.Service) (address code : String) (now : ℕ)
    (capability : Option String) (db db' : Db) (a : Service.Activation) : Type 0 where
  pub to : String
  pub is_canonical : canonical_address l address ≡ some to
  pub usable :
      any_row
        (Service.usable db.submitters to (l.hmac s.capability_key code) (unix now))
        db.challenges
      ≡ true
  pub spent :
      any_row (open_for a.submitter.submitter_id (l.hmac s.capability_key code)) db'.challenges
      ≡ false
  pub secret : String
  pub is_secret : capability ≡ some secret
  pub sent : a.submission_address ≡ Service.submission_address s secret
  pub granted :
      any_row
        (λ c.
          live_for a.submitter.submitter_id c && str_eq c.digest (l.hmac s.capability_key secret))
        db'.capabilities
      ≡ true

need-some :
    {A : Type 0} (o : Option A) (e : Error) (db db' : Db) (a : A)
    → Service.need o (err e) db ≡ ok (a, db')
    → (o ≡ some a) × (db ≡ db')
need-some none e db db' a h = absurd (ground (arith, h))
need-some (some x) e db db' a h = ground (arith, h)

digest_lem :
    (l : Libraries) (s : Service.Service) (value d : String) (db db' : Db)
    → Service.digest l s value db ≡ ok (d, db')
    → (d ≡ l.hmac s.capability_key value) × (db ≡ db')
unfolding Service.digest
digest_lem l s value d db db' h = ground (arith, h)

guard-true :
    (b : Bool) (e : Error) (db db' : Db) → guard b e db ≡ ok (tt, db') → (b ≡ true) × (db ≡ db')
guard-true true e db db' h = ground (arith, h)
guard-true false e db db' h = absurd (ground (arith, h))

last_row :
    (id : String) (c : Capability)
    → live_for id c ≡ true
    → (b : Bool) → (b || any_row (λ x. live_for id x && str_eq x.digest c.digest) (c ∷ [])) ≡ true
unfolding any_row
last_row id c live b = ground (arith, str_eq_refl c.digest, live)

-- The writes of an activation.
activation_writes :
    (found : Submitter) (code_digest : String) (now : ℕ) (c : Capability) (db db1 db2 : Db)
    → live_for found.submitter_id c ≡ true
    → move_submitter found.submitter_id pending active
        (activated (unix now))
        (consume found.submitter_id code_digest (unix now) db)
      ≡ ok (tt, db1)
    → insert_capability c db1 ≡ ok (tt, db2)
    → (any_row (open_for found.submitter_id code_digest) db2.challenges ≡ false)
      × (any_row (λ x. live_for found.submitter_id x && str_eq x.digest c.digest) db2.capabilities
          ≡ true)
unfolding move_submitter insert_capability
activation_writes found code_digest now c db db1 db2 live h k =
    let same : db2.challenges
        ≡ update_rows (open_for found.submitter_id code_digest) (consume_challenge (unix now))
            db.challenges =
      ground (arith, h, k) in
    let caps : db2.capabilities ≡ db1.capabilities ++ (c ∷ []) = ground (arith, k) in
    (
      rw same (consumed found.submitter_id code_digest (unix now) db.challenges),
      rw caps (
          any_row-append (λ x. live_for found.submitter_id x && str_eq x.digest c.digest)
            db1.capabilities (c ∷ [])
          ∙ last_row found.submitter_id c live (
              any_row (λ x. live_for found.submitter_id x && str_eq x.digest c.digest)
                db1.capabilities)),
    )

activate-Activates :
    (l : Libraries) (s : Service.Service) (address code : String) (now : ℕ)
    (capability id_bytes : Option String) (db db' : Db) (a : Service.Activation)
    → Service.activate_statements l s address code now capability id_bytes db ≡ ok (a, db')
    → Activates l s address code now capability db db' a
unfolding Service.activate_statements
activate-Activates l s address code now capability id_bytes db db' a h =
    let Goal : Type 0 = Activates l s address code now capability db db' a in
    bind-elim Goal (Service.canonical l address) _ db a db' h (λ to d1 e1 h1.
      bind-elim Goal (Service.digest l s code) _ d1 a db' h1 (λ cd d2 e2 h2.
        bind-elim Goal (Service.challenged to cd now) _ d2 a db' h2 (λ found d3 e3 h3.
          bind-elim Goal (guard (not (status_eq found.status active)) address_active) _ d3 a db' h3
            (λ u d4 e4 h4.
              bind-elim Goal (Service.random capability) _ d4 a db' h4 (λ secret d5 e5 h5.
                bind-elim Goal (Service.digest l s secret) _ d5 a db' h5 (λ sd d6 e6 h6.
                  bind-elim Goal (Service.random id_bytes) _ d6 a db' h6 (λ id d7 e7 h7.
                    bind-elim Goal
                      (move_submitter found.submitter_id pending active (activated (unix now))) _
                      (consume found.submitter_id cd (unix now) d7) a db' h7
                      (λ y d9 e9 h9.
                        bind-elim Goal
                          (insert_capability (
                            Service.new_capability id found.submitter_id sd s.capability_key_id
                              now))
                          _ d9 a db' h9
                          (λ z d10 e10 h10.
                            let p1 =
                              need-some (canonical_address l address) invalid_address db d1 to e1 in
                            let p2 = digest_lem l s code cd d1 d2 e2 in
                            let p3 = challenged-usable to cd now d2 d3 found e3 in
                            let p5 = need-some capability random_failed d4 d5 secret e5 in
                            let p6 = digest_lem l s secret sd d5 d6 e6 in
                            let new : Capability =
                              Service.new_capability id found.submitter_id sd s.capability_key_id
                                now in
                            let live : live_for found.submitter_id new ≡ true =
                              ground (arith, str_eq_refl found.submitter_id) in
                            let (spent, granted) =
                              activation_writes found cd now new d7 d9 d10 live e9 e10 in
                            let result : record {
                              submitter = record found {
                                canonical_address = to;
                                status = active;
                                verified_at = some (unix now);
                              };
                              submission_address = Service.submission_address s secret;
                            }
                                ≡ a =
                              ground (arith, h10) in
                            let last : d10 ≡ db' = ground (arith, h10) in
                            record {
                              to = to;
                              is_canonical = p1.0;
                              usable = rw (← p2.0, p1.1 ∙ p2.1) p3.0;
                              spent = rw (← result, ← last, ← p2.0) spent;
                              secret = secret;
                              is_secret = p5.0;
                              sent = rw (← result) refl;
                              granted = rw (← result, ← last, ← p6.0) granted;
                            })))))))))

-- A successful activation of an address was asked for with the code of a challenge of that address
-- that was neither spent nor out of date; afterwards no challenge of the submitter is open to that
-- code, and the address that is returned holds a secret whose digest is a live capability of the
-- submitter.
pub activate_lem :
    (l : Libraries) (s : Service.Service) (address code : String) (now : ℕ)
    (capability id_bytes : Option String) (db db' : Db) (a : Service.Activation)
    → Service.activate l s address code now capability id_bytes db ≡ (db', ok a)
    → Activates l s address code now capability db db' a
unfolding Service.activate
activate_lem l s address code now capability id_bytes db db' a h =
    activate-Activates l s address code now capability id_bytes db db' a (
      transaction-ok (Service.activate_statements l s address code now capability id_bytes) db db' a
        h)

-- What stands behind a mail.
pub record Mailed (l : Libraries) (s : Service.Service) (address : String) (now : ℕ) (db db' : Db)
    (m : Service.Mail) : Type 0 where
  pub to_owner : canonical_address l address ≡ some m.recipient
  pub not_active : any_row (has_address m.recipient active) db.submitters ≡ false
  pub backed :
      any_row
        (λ c.
          str_eq c.code_digest (l.hmac s.capability_key m.code)
          && (not (is_some c.consumed_at) && (c.expires_at == unix (now + Service.challenge_ttl))))
        db'.challenges
      ≡ true

enlist-challenges :
    (id address : String) (now : ℕ) (db db' : Db) (sid : String)
    → Service.enlist id address now db ≡ ok (sid, db')
    → db'.challenges ≡ db.challenges
unfolding Service.enlist insert_submitter
enlist-challenges id address now db db' sid h = ground (arith, h)

backed_row :
    (c : Challenge) (key : String) (until : ℕ) (b : Bool)
    → str_eq c.code_digest key ≡ true
    → is_some c.consumed_at ≡ false
    → (c.expires_at == until) ≡ true
    → (b
        || any_row
            (λ x.
              str_eq x.code_digest key && (not (is_some x.consumed_at) && (x.expires_at == until)))
            (c ∷ []))
      ≡ true
unfolding any_row
backed_row c key until b h k e = ground arith

insert_challenge_row :
    (c : Challenge) (key : String) (until : ℕ) (db db' : Db)
    → insert_challenge c db ≡ ok (tt, db')
    → str_eq c.code_digest key ≡ true
    → is_some c.consumed_at ≡ false
    → (c.expires_at == until) ≡ true
    → any_row
        (λ x. str_eq x.code_digest key && (not (is_some x.consumed_at) && (x.expires_at == until)))
        db'.challenges
      ≡ true
unfolding insert_challenge
insert_challenge_row c key until db db' h k n e =
    let rows : db'.challenges ≡ db.challenges ++ (c ∷ []) = ground (arith, h) in
    rw rows (
      any_row-append
        (λ x. str_eq x.code_digest key && (not (is_some x.consumed_at) && (x.expires_at == until)))
        db.challenges (c ∷ [])
      ∙ backed_row c key until
          (any_row
            (λ x.
              str_eq x.code_digest key && (not (is_some x.consumed_at) && (x.expires_at == until)))
            db.challenges)
          k n e)

challenge-Mailed :
    (l : Libraries) (s : Service.Service) (address : String) (now : ℕ)
    (id_bytes code_bytes submitter_bytes : Option String) (db db' : Db)
    (r : Service.ChallengeResult × Service.Mail)
    → Service.challenge_statements l s address now id_bytes code_bytes submitter_bytes db
      ≡ ok (r, db')
    → Mailed l s address now db db' r.1
unfolding Service.challenge_statements
challenge-Mailed l s address now id_bytes code_bytes submitter_bytes db db' r h =
    let Goal : Type 0 = Mailed l s address now db db' r.1 in
    bind-elim Goal (Service.canonical l address) _ db r db' h (λ to d1 e1 h1.
      bind-elim Goal (guard s.has_mailer mailer_required) _ d1 r db' h1 (λ u d2 e2 h2.
        bind-elim Goal (Service.random id_bytes) _ d2 r db' h2 (λ id d3 e3 h3.
          bind-elim Goal (Service.random code_bytes) _ d3 r db' h3 (λ code d4 e4 h4.
            bind-elim Goal (Service.digest l s code) _ d4 r db' h4 (λ cd d5 e5 h5.
              bind-elim Goal
                (guard (not (any_row (has_address to active) d5.submitters)) address_active) _ d5 r
                db' h5
                (λ w d6 e6 h6.
                  bind-elim Goal (Service.random submitter_bytes) _ d6 r db' h6 (λ fresh d7 e7 h7.
                    bind-elim Goal (Service.enlist fresh to now) _ d7 r db' h7 (λ sid d8 e8 h8.
                      bind-elim Goal (insert_challenge (Service.new_challenge id sid cd now)) _ d8 r
                        db' h8
                        (λ z d9 e9 h9.
                          let p1 =
                            need-some (canonical_address l address) invalid_address db d1 to e1 in
                          let p2 = guard-true s.has_mailer mailer_required d1 d2 e2 in
                          let p3 = need-some id_bytes random_failed d2 d3 id e3 in
                          let p4 = need-some code_bytes random_failed d3 d4 code e4 in
                          let p5 = digest_lem l s code cd d4 d5 e5 in
                          let p6 =
                            guard-true (not (any_row (has_address to active) d5.submitters))
                              address_active d5 d6 e6 in
                          let start : db ≡ d5 = p1.1 ∙ p2.1 ∙ p3.1 ∙ p4.1 ∙ p5.1 in
                          let mail : record { recipient = to; code = code } ≡ r.1 =
                            ground (arith, h9) in
                          let last : d9 ≡ db' = ground (arith, h9) in
                          record {
                            to_owner = rw (← mail) p1.0;
                            not_active = rw (← mail, start) (ground (arith, p6.0));
                            backed =
                                rw (← mail, ← last)
                                  (insert_challenge_row (Service.new_challenge id sid cd now)
                                    (l.hmac s.capability_key code)
                                    (unix (now + Service.challenge_ttl)) d8 d9 e9
                                    (rw p5.0 (str_eq_refl (l.hmac s.capability_key code))) refl
                                    (ground arith));
                          })))))))))

sent-ok :
    (sends : Bool) (r : Db × Result (Service.ChallengeResult × Service.Mail)) (db' : Db)
    (m : Service.Mail) (ms : List Service.Mail) (o : Result Service.ChallengeResult)
    → Service.delivered sends r ≡ (db', m ∷ ms, o)
    → (c : Service.ChallengeResult) × (r ≡ (db', ok (c, m)))
sent-ok sends (db, err e) db' m ms o h = absurd (ground (arith, h))
sent-ok true (db, ok (c, mail)) db' m ms o h = (c, ground (arith, h))
sent-ok false (db, ok (c, mail)) db' m ms o h = absurd (ground (arith, h))

-- A mail that a challenge sends goes to the canonical form of the address, which no active submitter
-- has, and its code is that of an unspent challenge which is then in the database and ends after
-- fifteen minutes.
pub challenge_mails :
    (l : Libraries) (s : Service.Service) (address : String) (now : ℕ)
    (id_bytes code_bytes submitter_bytes : Option String) (sends : Bool) (db db' : Db)
    (m : Service.Mail) (ms : List Service.Mail) (o : Result Service.ChallengeResult)
    → Service.challenge l s address now id_bytes code_bytes submitter_bytes sends db
      ≡ (db', m ∷ ms, o)
    → Mailed l s address now db db' m
unfolding Service.challenge
challenge_mails l s address now id_bytes code_bytes submitter_bytes sends db db' m ms o h =
    let statements : Tx (Service.ChallengeResult × Service.Mail) =
      Service.challenge_statements l s address now id_bytes code_bytes submitter_bytes in
    let (c, e) = sent-ok sends (transaction statements db) db' m ms o h in
    challenge-Mailed l s address now id_bytes code_bytes submitter_bytes db db' (c, m)
      (transaction-ok statements db db' (c, m) e)
