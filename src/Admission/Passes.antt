-- ===== src/Admission/Passes.antt =====
-- internal/admission/admission.go: an admitted mail has passed every check of Admit.
use mailproof.Base.{
  ℕ, ◌+◌, ◌≡◌, refl, ◌∙◌, ap, String, Option, none, some, arith, str_eq, str_eq_iff, Bool-cases,
  Option-cases, inl, inr, ltb, len, join, decimal, ◌||◌,
}
use mailproof.Database.{Db, Tx, Result, ok, err, transaction}
use mailproof.Database.Laws.{transaction-ok}
use mailproof.Submitters.Address.{Libraries, canonical_address}
use mailproof.Admission.Requests.{Codecs, Request, capability}
use mailproof.Admission.Rules.{
  PolicySnapshot, SubmitterPolicy, blocked_peer, blocked_outer, lookup, domain_of,
}
use mailproof.Admission.Decisions
use mailproof.Admission.Quotas.{Within, admit_statements-Within, stored_denied, never_denied}

answered-admitted :
    (r : Db × Result Decisions.Answer) (db' : Db) (d : Decisions.Decision)
    → Decisions.answered r ≡ (db', Decisions.admitted d)
    → r ≡ (db', ok (Decisions.admitted d))
answered-admitted (db, ok a) db' d h = ground (arith, h)
answered-admitted (db, err e) db' d h = absurd (ground (arith, h))

reject_never :
    (l : Libraries) (s : Decisions.Service) (r : Request) (id : Option String)
    (stage reason submitter_id : String) (version : ℕ) (rule_id : String) (now : ℕ) (db db' : Db)
    (d : Decisions.Decision)
    → Decisions.reject l s r id stage reason submitter_id version rule_id now db
      ≡ (db', Decisions.admitted d)
    → ⊥
unfolding Decisions.reject
reject_never l s r none stage reason submitter_id version rule_id now db db' d h = ground (arith, h)
reject_never l s r (some id) stage reason submitter_id version rule_id now db db' d h =
    let e : Decisions.Decision =
      Decisions.rejection r id stage reason submitter_id version rule_id in
    let statements : Tx Decisions.Answer = Decisions.stored l s e r none now (Decisions.denied e) in
    never_denied d e (
      stored_denied l s e r none now db db' (Decisions.denied e) (Decisions.admitted d) (
        transaction-ok statements db db' (Decisions.admitted d)
          (answered-admitted (transaction statements db) db' d h)))

-- What an admitted decision rests on, and what its quotas are afterwards.
pub record Admits (l : Libraries) (c : Codecs) (s : Decisions.Service) (r : Request)
    (spf : Option String) (now : ℕ) (db db' : Db) (d : Decisions.Decision) : Type 0 where
  pub snapshot : PolicySnapshot
  pub under : s.policy ≡ some snapshot
  pub peer_free : blocked_peer snapshot r.client_address now ≡ none
  pub item : SubmitterPolicy
  pub sender : canonical_address l r.sender ≡ some item.address
  pub outer_free : blocked_outer snapshot (domain_of item.address) now ≡ none
  pub secret : String
  pub has_secret : capability c r.recipient s.domain ≡ some secret
  pub known : lookup (l.hmac s.capability_key secret) snapshot.submitters ≡ some item
  pub is_active : item.status ≡ "active"
  pub spf_pass : spf ≡ some "pass"
  pub within : Within item now db db'
  pub owner : d.submitter_id ≡ item.id
  pub lasts : d.expires_at ≡ some (now + Decisions.stamp_ttl)

record Cleared (l : Libraries) (c : Codecs) (s : Decisions.Service) (r : Request)
    (item : SubmitterPolicy) (envelope : String) (spf : Option String) (now : ℕ) (db db' : Db)
    (d : Decisions.Decision) : Type 0 where
  pub envelope_is : envelope ≡ item.address
  pub spf_pass : spf ≡ some "pass"
  pub within : Within item now db db'
  pub owner : d.submitter_id ≡ item.id
  pub lasts : d.expires_at ≡ some (now + Decisions.stamp_ttl)

stamped-fields :
    (l : Libraries) (c : Codecs) (s : Decisions.Service) (r : Request) (p : SubmitterPolicy)
    (envelope version id : String) (now : ℕ)
    → let d = Decisions.stamped l c s r p envelope version id now in
      (d.submitter_id ≡ p.id) × (d.expires_at ≡ some (now + Decisions.stamp_ttl))
unfolding Decisions.stamped
stamped-fields l c s r p envelope version id now = (refl, refl)

admit_within-Within :
    (l : Libraries) (c : Codecs) (s : Decisions.Service) (r : Request) (p : SubmitterPolicy)
    (envelope version digest : String) (id : Option String) (now : ℕ) (db db' : Db)
    (d : Decisions.Decision)
    → Decisions.admit_within l c s r p envelope version digest id now db
      ≡ (db', Decisions.admitted d)
    → Within p now db db'
      × (d.submitter_id ≡ p.id)
      × (d.expires_at ≡ some (now + Decisions.stamp_ttl))
unfolding Decisions.admit_within
admit_within-Within l c s r p envelope version digest none now db db' d h =
    absurd (ground (arith, h))
admit_within-Within l c s r p envelope version digest (some id) now db db' d h =
    let statements : Tx Decisions.Answer =
      Decisions.admit_statements l c s r p envelope version digest id now in
    let (same, w) = admit_statements-Within l c s r p envelope version digest id now db db' d (
      transaction-ok statements db db' (Decisions.admitted d)
        (answered-admitted (transaction statements db) db' d h)) in
    let (owner, lasts) = stamped-fields l c s r p envelope version id now in
    (w, rw same owner, rw same lasts)

admit_known-Cleared :
    (l : Libraries) (c : Codecs) (s : Decisions.Service) (snapshot : PolicySnapshot) (r : Request)
    (item : SubmitterPolicy) (envelope digest : String) (spf id : Option String) (now : ℕ)
    (db db' : Db) (d : Decisions.Decision)
    → Decisions.admit_known l c s snapshot r item envelope digest spf id now db
      ≡ (db', Decisions.admitted d)
    → Cleared l c s r item envelope spf now db db' d
unfolding Decisions.admit_known
admit_known-Cleared l c s snapshot r item envelope digest spf id now db db' d h =
    elim (Bool-cases (str_eq envelope item.address)) [
      | inr e ↦ absurd (
          reject_never l s r id "identity" "envelope_mismatch" item.id 0 "" now db db' d
            (rw e at h))
      | inl e ↦ elim (Option-cases spf) [
        | inl n ↦ absurd (ground (arith, rw (e, n) at h))
        | inr (outcome, o) ↦ elim (Bool-cases (str_eq outcome "pass")) [
          | inr f ↦ absurd (
              reject_never l s r id "spf" (join "spf_" outcome) item.id 0 "" now db db' d
                (rw (e, o, f) at h))
          | inl f ↦
              elim (Bool-cases
                (ltb item.minute_limit 1 || ltb item.hour_limit 1 || ltb item.day_limit 1)) [
                  | inl q ↦ absurd (
                      reject_never l s r id "quota" "invalid_limit" item.id 0 "" now db db' d
                        (rw (e, o, f, q) at h))
                  | inr q ↦
                      let (w, owner, lasts) =
                        admit_within-Within l c s r item envelope
                          (join "v" (decimal snapshot.version)) digest id now db db' d
                          (rw (e, o, f, q) at h) in
                      record {
                        envelope_is = (str_eq_iff envelope item.address).0 e;
                        spf_pass = o ∙ ap some ((str_eq_iff outcome "pass").0 f);
                        within = w;
                        owner = owner;
                        lasts = lasts;
                      }
                ]
        ]
      ]
    ]

record Holder (l : Libraries) (c : Codecs) (s : Decisions.Service) (snapshot : PolicySnapshot)
    (r : Request) (envelope : String) (spf : Option String) (now : ℕ) (db db' : Db)
    (d : Decisions.Decision) : Type 0 where
  pub item : SubmitterPolicy
  pub secret : String
  pub has_secret : capability c r.recipient s.domain ≡ some secret
  pub known : lookup (l.hmac s.capability_key secret) snapshot.submitters ≡ some item
  pub is_active : item.status ≡ "active"
  pub rest : Cleared l c s r item envelope spf now db db' d

admit_secret-Holder :
    (l : Libraries) (c : Codecs) (s : Decisions.Service) (snapshot : PolicySnapshot) (r : Request)
    (envelope : String) (spf id : Option String) (now : ℕ) (db db' : Db) (d : Decisions.Decision)
    → Decisions.admit_secret l c s snapshot r envelope spf id now db ≡ (db', Decisions.admitted d)
    → Holder l c s snapshot r envelope spf now db db' d
unfolding Decisions.admit_secret
admit_secret-Holder l c s snapshot r envelope spf id now db db' d h =
    elim (Option-cases (capability c r.recipient s.domain)) [
      | inl n ↦ absurd (
          reject_never l s r id "identity" "invalid_capability" "" 0 "" now db db' d
            (rw (n, Decisions.admit_secret) at h))
      | inr (secret, k) ↦
          elim (Option-cases (lookup (l.hmac s.capability_key secret) snapshot.submitters)) [
            | inl n ↦ absurd (
                reject_never l s r id "identity" "unknown_capability" "" 0 "" now db db' d
                  (rw (k, n, Decisions.admit_secret) at h))
            | inr (item, f) ↦ elim (Bool-cases (str_eq item.status "active")) [
              | inr i ↦ absurd (
                  reject_never l s r id "identity" "unknown_capability" "" 0 "" now db db' d
                    (rw (k, f, i, Decisions.admit_secret) at h))
              | inl i ↦ record {
                item = item;
                secret = secret;
                has_secret = k;
                known = f;
                is_active = (str_eq_iff item.status "active").0 i;
                rest =
                    admit_known-Cleared l c s snapshot r item envelope
                      (l.hmac s.capability_key secret) spf id now db db' d
                      (rw (k, f, i, Decisions.admit_secret) at h);
              }
            ]
          ]
    ]

under-Admits :
    (l : Libraries) (c : Codecs) (s : Decisions.Service) (snapshot : PolicySnapshot) (r : Request)
    (spf id : Option String) (now : ℕ) (db db' : Db) (d : Decisions.Decision)
    → s.policy ≡ some snapshot
    → Decisions.admit_under l c s snapshot r spf id now db ≡ (db', Decisions.admitted d)
    → Admits l c s r spf now db db' d
unfolding Decisions.admit_under
under-Admits l c s snapshot r spf id now db db' d u h =
    elim (Option-cases (blocked_peer snapshot r.client_address now)) [
      | inr (rule, b) ↦ absurd (
          reject_never l s r id "policy" "peer_blocked" "" snapshot.version rule.id now db db' d
            (rw (b, Decisions.admit_under) at h))
      | inl free ↦ elim (Option-cases (canonical_address l r.sender)) [
        | inl n ↦ absurd (
            reject_never l s r id "identity" "invalid_sender" "" 0 "" now db db' d
              (rw (free, n, Decisions.admit_under) at h))
        | inr (envelope, m) ↦
            elim (Option-cases (blocked_outer snapshot (domain_of envelope) now)) [
              | inr (rule, b) ↦ absurd (
                  reject_never l s r id "policy" "outer_domain_blocked" "" snapshot.version rule.id
                    now db db' d (rw (free, m, b, Decisions.admit_under) at h))
              | inl outer ↦
                  let q =
                    admit_secret-Holder l c s snapshot r envelope spf id now db db' d
                      (rw (free, m, outer, Decisions.admit_under) at h) in
                  record {
                    snapshot = snapshot;
                    under = u;
                    peer_free = free;
                    item = q.item;
                    sender = m ∙ ap some q.rest.envelope_is;
                    outer_free = rw (← q.rest.envelope_is) outer;
                    secret = q.secret;
                    has_secret = q.has_secret;
                    known = q.known;
                    is_active = q.is_active;
                    spf_pass = q.rest.spf_pass;
                    within = q.rest.within;
                    owner = q.rest.owner;
                    lasts = q.rest.lasts;
                  }
            ]
      ]
    ]

-- An admitted mail comes from a peer and a domain that the policy does not block, its sender is the
-- canonical address of the active submitter whose secret is in the recipient, and SPF passed; it is
-- one more admission of that submitter, whose admissions of the last minute, hour and day are then
-- within the limits, and its stamp lasts ten minutes.
pub admit_lem :
    (l : Libraries) (c : Codecs) (s : Decisions.Service) (r : Request) (spf id : Option String)
    (now : ℕ) (db db' : Db) (d : Decisions.Decision)
    → Decisions.admit l c s r spf id now db ≡ (db', Decisions.admitted d)
    → Admits l c s r spf now db db' d
unfolding Decisions.admit
admit_lem l c s r spf id now db db' d h =
    elim (Bool-cases (ltb (len s.capability_key) 32 || ltb (len s.stamp_key) 32)) [
      | inl e ↦ absurd (ground (arith, rw e at h))
      | inr e ↦ elim (Option-cases s.policy) [
        | inl n ↦ absurd (ground (arith, rw (e, n) at h))
        | inr (snapshot, u) ↦ under-Admits l c s snapshot r spf id now db db' d u (rw (e, u) at h)
      ]
    ]
