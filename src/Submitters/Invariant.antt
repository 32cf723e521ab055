-- ===== src/Submitters/Invariant.antt =====
-- internal/submitter/submitter.go: the keys of the tables hold after every statement.
use mailproof.Base.{
  ℕ, ◌≤◌, ◌≡◌, refl, sym, ◌∙◌, String, Bool, true, false, ◌&&◌, List, [], ◌∷◌, ◌++◌, some, any_row,
  count_rows, update_rows, arith, Unique, Unique-append, Unique-update, Unique-image, In,
  any_row-In, subst, true_ne_false, updated, str_eq_iff, str_eq_sym, Bool-cases, inl, inr,
  count_rows-Unique,
}
use mailproof.Database.{Db, ok, Submitter, Challenge, Capability, Status, status_eq, status_eq_iff}
use mailproof.Submitters.Statements.{
  same_submitter, same_challenge, same_capability, has_submitter, has_address, insert_submitter,
  insert_challenge, insert_capability, consume, open_for, consume_challenge, move_meets,
  meets_other, is_from, move_submitter, live_for, retire,
}

pub record Enrolled (db : Db) : Type 0 where
  pub submitters_unique : Unique same_submitter db.submitters
  pub challenges_unique : Unique same_challenge db.challenges
  pub capabilities_unique : Unique same_capability db.capabilities

status_eq_sym : (s t : Status) → status_eq s t ≡ status_eq t s
status_eq_sym s t = ground arith

pub same_submitter_sym : (a b : Submitter) → same_submitter a b ≡ same_submitter b a
same_submitter_sym a b = ground (
  arith,
  str_eq_sym a.submitter_id b.submitter_id,
  str_eq_sym a.canonical_address b.canonical_address,
  status_eq_sym a.status b.status,
)

same_challenge_sym : (a b : Challenge) → same_challenge a b ≡ same_challenge b a
same_challenge_sym a b = ground (
  arith,
  str_eq_sym a.challenge_id b.challenge_id,
  str_eq_sym a.submitter_id b.submitter_id,
  str_eq_sym a.code_digest b.code_digest,
)

same_capability_sym : (a b : Capability) → same_capability a b ≡ same_capability b a
same_capability_sym a b = ground (
  arith,
  str_eq_sym a.capability_id b.capability_id,
  str_eq_sym a.submitter_id b.submitter_id,
  str_eq_sym a.key_id b.key_id,
  str_eq_sym a.digest b.digest,
)

pub insert_submitter-Enrolled :
    (s : Submitter) (db db' : Db) → insert_submitter s db ≡ some db' → Enrolled db → Enrolled db'
unfolding insert_submitter
insert_submitter-Enrolled s db db' h v =
    elim (Bool-cases (any_row (same_submitter s) db.submitters)) [
      | inl e ↦ absurd (ground arith)
      | inr e ↦
          let to_db : record db { submitters = db.submitters ++ (s ∷ []) } ≡ db' = ground arith in
          subst Enrolled to_db (record {
            submitters_unique =
                Unique-append same_submitter db.submitters s same_submitter_sym v.submitters_unique
                  e;
            challenges_unique = v.challenges_unique;
            capabilities_unique = v.capabilities_unique;
          })
    ]

pub insert_challenge-Enrolled :
    (c : Challenge) (db db' : Db)
    → insert_challenge c db ≡ ok (tt, db')
    → Enrolled db
    → Enrolled db'
unfolding insert_challenge
insert_challenge-Enrolled c db db' h v =
    elim (Bool-cases (any_row (same_challenge c) db.challenges)) [
      | inl e ↦ absurd (ground arith)
      | inr e ↦
          let to_db : record db { challenges = db.challenges ++ (c ∷ []) } ≡ db' = ground arith in
          subst Enrolled to_db (record {
            submitters_unique = v.submitters_unique;
            challenges_unique =
                Unique-append same_challenge db.challenges c same_challenge_sym v.challenges_unique
                  e;
            capabilities_unique = v.capabilities_unique;
          })
    ]

pub insert_capability-Enrolled :
    (c : Capability) (db db' : Db)
    → insert_capability c db ≡ ok (tt, db')
    → Enrolled db
    → Enrolled db'
unfolding insert_capability
insert_capability-Enrolled c db db' h v =
    elim (Bool-cases (any_row (same_capability c) db.capabilities)) [
      | inl e ↦ absurd (ground arith)
      | inr e ↦
          let to_db : record db { capabilities = db.capabilities ++ (c ∷ []) } ≡ db' =
            ground arith in
          subst Enrolled to_db (record {
            submitters_unique = v.submitters_unique;
            challenges_unique = v.challenges_unique;
            capabilities_unique =
                Unique-append same_capability db.capabilities c same_capability_sym
                  v.capabilities_unique e;
          })
    ]

pub consume-Enrolled :
    (id digest : String) (now : ℕ) (db : Db) → Enrolled db → Enrolled (consume id digest now db)
consume-Enrolled id digest now db v = record {
  submitters_unique = v.submitters_unique;
  challenges_unique =
      Unique-update same_challenge (open_for id digest) (consume_challenge now) db.challenges
        (λ x y. refl) (λ x y. refl) v.challenges_unique;
  capabilities_unique = v.capabilities_unique;
}

retire-apart :
    (now : ℕ) (p : Capability → Bool) (x y : Capability)
    → same_capability x y ≡ false
    → same_capability (updated p (retire now) x) (updated p (retire now) y) ≡ false
retire-apart now p x y h = elim (Bool-cases (p x)) [
  | inl e ↦ elim (Bool-cases (p y)) [
    | inl f ↦ rw (e, f) (ground arith)
    | inr f ↦ rw (e, f) (ground arith)
  ]
  | inr e ↦ elim (Bool-cases (p y)) [ inl f ↦ rw (e, f) (ground arith) | inr f ↦ rw (e, f) h ]
]

abbrev pub retired : String → ℕ → Db → Db
retired id now db = record db {
  capabilities = update_rows (live_for id) (retire now) db.capabilities;
}

pub retired-Enrolled :
    (id : String) (now : ℕ) (db : Db) → Enrolled db → Enrolled (retired id now db)
retired-Enrolled id now db v = record {
  submitters_unique = v.submitters_unique;
  challenges_unique = v.challenges_unique;
  capabilities_unique =
      Unique-image same_capability (live_for id) (retire now) db.capabilities
        (λ x y m n h. retire-apart now (live_for id) x y h) v.capabilities_unique;
}

-- The owner of an identifier is the only row of it.
pub same_id :
    (id : String) (x y : Submitter)
    → has_submitter id x ≡ true
    → has_submitter id y ≡ true
    → same_submitter x y ≡ true
same_id id x y h k = ground (
  arith,
  (str_eq_iff x.submitter_id id).0 h,
  (str_eq_iff y.submitter_id id).0 k,
  (str_eq_iff y.submitter_id x.submitter_id).1,
)

module _ (f : Submitter → Submitter) (to : Status)
    (keeps_id : (x : Submitter) → (f x).submitter_id ≡ x.submitter_id)
    (keeps_address : (x : Submitter) → (f x).canonical_address ≡ x.canonical_address)
    (moves : (x : Submitter) → (f x).status ≡ to) where
  moved_apart :
      (id : String) (from : Status) (rows : List Submitter) (x y : Submitter)
      → is_from id from x ≡ true
      → In x rows
      → In y rows
      → move_meets id from to rows ≡ false
      → same_submitter x y ≡ false
      → same_submitter (f x) y ≡ false
  moved_apart id from rows x y px m n free h =
      let clear = any_row-In (meets_other id to x) y rows n (
        ground (
          arith,
          any_row-In (λ s. is_from id from s && any_row (meets_other id to s) rows) x rows m free,
        )) in
      elim (Bool-cases (has_submitter id y)) [
        | inl same ↦ absurd (true_ne_false (sym (same_id id x y (ground arith) same) ∙ h))
        | inr other ↦ rw (keeps_id x, keeps_address x, moves x) (ground (arith, clear))
      ]

  row_apart :
      (id : String) (from : Status) (rows : List Submitter)
      → move_meets id from to rows ≡ false
      → (x y : Submitter) → In x rows
      → In y rows
      → same_submitter x y ≡ false
      → same_submitter (updated (is_from id from) f x) (updated (is_from id from) f y) ≡ false
  row_apart id from rows free x y m n h = elim (Bool-cases (is_from id from x)) [
    | inl e ↦ elim (Bool-cases (is_from id from y)) [
      | inl d ↦ absurd (true_ne_false (sym (same_id id x y (ground arith) (ground arith)) ∙ h))
      | inr d ↦ rw (e, d) (moved_apart id from rows x y e m n free h)
    ]
    | inr e ↦ elim (Bool-cases (is_from id from y)) [
      | inl d ↦
          rw (e, d)
            (same_submitter_sym x (f y)
              ∙ moved_apart id from rows y x d n m free (same_submitter_sym y x ∙ h))
      | inr d ↦ rw (e, d) h
    ]
  ]

  pub move_submitter-Enrolled :
      (id : String) (from : Status) (db db' : Db)
      → move_submitter id from to f db ≡ ok (tt, db')
      → Enrolled db
      → Enrolled db'
  unfolding move_submitter
  move_submitter-Enrolled id from db db' h v =
      elim (Bool-cases (move_meets id from to db.submitters)) [
        | inl e ↦ absurd (ground arith)
        | inr e ↦
            let to_db : record db { submitters = update_rows (is_from id from) f db.submitters }
                ≡ db' =
              ground arith in
            subst Enrolled to_db (record {
              submitters_unique =
                  Unique-image same_submitter (is_from id from) f db.submitters
                    (row_apart id from db.submitters e) v.submitters_unique;
              challenges_unique = v.challenges_unique;
              capabilities_unique = v.capabilities_unique;
            })
      ]

same_address :
    (address : String) (status : Status) (x y : Submitter)
    → has_address address status x ≡ true
    → has_address address status y ≡ true
    → same_submitter x y ≡ true
same_address address status x y h k = ground (
  arith,
  (str_eq_iff x.canonical_address address).0 (ground arith),
  (str_eq_iff y.canonical_address address).0 (ground arith),
  (str_eq_iff y.canonical_address x.canonical_address).1,
  (status_eq_iff x.status status).0 (ground arith),
  (status_eq_iff y.status status).0 (ground arith),
  (status_eq_iff y.status x.status).1,
)

same_live :
    (id : String) (x y : Capability)
    → live_for id x ≡ true
    → live_for id y ≡ true
    → same_capability x y ≡ true
same_live id x y h k = ground (
  arith,
  (str_eq_iff x.submitter_id id).0 (ground arith),
  (str_eq_iff y.submitter_id id).0 (ground arith),
  (str_eq_iff y.submitter_id x.submitter_id).1,
)

pub Enrolled-singletons :
    (id address : String) (db : Db)
    → Enrolled db
    → (count_rows (has_address address Status.active) db.submitters ≤ 1)
      × (count_rows (has_address address Status.revoked) db.submitters ≤ 1)
      × (count_rows (live_for id) db.capabilities ≤ 1)
Enrolled-singletons id address db v = (
  count_rows-Unique same_submitter (has_address address Status.active) db.submitters
      (same_address address Status.active) v.submitters_unique,
  count_rows-Unique same_submitter (has_address address Status.revoked) db.submitters
      (same_address address Status.revoked) v.submitters_unique,
  count_rows-Unique same_capability (live_for id) db.capabilities (same_live id)
      v.capabilities_unique,
)
