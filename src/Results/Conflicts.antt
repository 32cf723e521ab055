-- ===== src/Results/Conflicts.antt =====
-- internal/results/results.go: repeated projections of a run.
use mailproof.Base.{
  ℕ, ◌≡◌, refl, String, Bool, true, false, ◌&&◌, List, [], ◌∷◌, ◌++◌, none, some, if◌then◌else◌,
  str_eq, str_eq_iff, str_eq_refl, find_row, arith, Bool-cases, Option-cases, inl, inr, ap, sym,
  ◌∙◌,
}
use mailproof.Database.{Db, Result-cases, ok, err, committed, ResultRow, conflicting_record}
use mailproof.Database.Laws.{transaction-ok}
use mailproof.Results.Records.{
  Record, is_complete, campaign_eligible, result_row, result_of, insert_result, insert_entry,
  repeats_facts, add_result, insert_record_statements, insert_record,
}

-- Two projections agree on the facts.
abbrev pub agrees : Record → Record → Bool
agrees x y =
    str_eq x.delivery_id y.delivery_id
    && str_eq x.verdict y.verdict
    && str_eq x.manifest_digest y.manifest_digest
    && str_eq x.manifest_path y.manifest_path

find-append :
    (p : ResultRow → Bool) (xs : List ResultRow) (r : ResultRow)
    → find_row p xs ≡ none
    → p r ≡ true
    → find_row p (xs ++ r ∷ []) ≡ some r
unfolding find_row
find-append p [] r h e = rw e refl
find-append p (x ∷ xs) r h e = ground (arith, h, e, find-append p xs r)

insert_entry-rows :
    (x : Record) (now : ℕ) (db db' : Db) (u : Unit {0})
    → insert_entry x now db ≡ ok (u, db')
    → db'.result_records ≡ db.result_records
unfolding insert_entry
insert_entry-rows x now db db' u h = ground (arith, h)

insert_result-ok :
    (r : ResultRow) (db db' : Db) (u : Unit {0})
    → insert_result r db ≡ ok (u, db')
    → db'.result_records ≡ db.result_records ++ (r ∷ [])
unfolding insert_result
insert_result-ok r db db' u h = ground (arith, h)

add_result-rows :
    (x : Record) (now : ℕ) (db db' : Db) (u : Unit {0})
    → add_result x now db ≡ ok (u, db')
    → db'.result_records ≡ db.result_records ++ (result_row x now ∷ [])
unfolding add_result
add_result-rows x now db db' u h = elim (Result-cases (insert_result (result_row x now) db)) [
  | inr (e, g) ↦ absurd (ground (arith, g, h))
  | inl ((w, d), g) ↦
      let rows = insert_result-ok (result_row x now) db d w g in
      elim (Bool-cases (campaign_eligible x)) [
        | inl c ↦ insert_entry-rows x now d db' u (ground (arith, g, c, h)) ∙ rows
        | inr c ↦
            let same : d ≡ db' = ground (arith, g, c, h) in
            ap (λ (z : Db). z.result_records) (sym same) ∙ rows
      ]
]

-- The row that a projection that succeeded leaves for its run.
stored :
    (x : Record) (now : ℕ) (db db' : Db) (u : Unit {0})
    → insert_record_statements x now db ≡ ok (u, db')
    → (old : ResultRow) × (find_row (result_of x.run_id) db'.result_records ≡ some old)
      × (repeats_facts old x ≡ true)
unfolding insert_record_statements
stored x now db db' u h = elim (Option-cases (find_row (result_of x.run_id) db.result_records)) [
  | inl e ↦ (
    result_row x now,
    ap (find_row (result_of x.run_id)) (add_result-rows x now db db' u (ground (arith, h, e)))
        ∙ find-append (result_of x.run_id) db.result_records (result_row x now) e
            (str_eq_refl x.run_id),
    ground (
      arith,
      str_eq_refl x.delivery_id,
      str_eq_refl x.verdict,
      str_eq_refl x.manifest_digest,
      str_eq_refl x.manifest_path,
    ),
  )
  | inr (old, e) ↦
      let same : db ≡ db' = ground (arith, h, e) in
      (
        old,
        ap (λ (z : Db). find_row (result_of x.run_id) z.result_records) (sym same) ∙ e,
        ground (arith, h, e),
      )
]

repeats-agrees :
    (old : ResultRow) (x y : Record) → repeats_facts old x ≡ true → repeats_facts old y ≡ agrees x y
repeats-agrees old x y h =
    let delivery = (str_eq_iff old.delivery_id x.delivery_id).0 (ground (arith, h)) in
    let verdict = (str_eq_iff old.verdict x.verdict).0 (ground (arith, h)) in
    let digest = (str_eq_iff old.manifest_digest x.manifest_digest).0 (ground (arith, h)) in
    let path = (str_eq_iff old.manifest_path x.manifest_path).0 (ground (arith, h)) in
    rw (delivery, verdict, digest, path) refl

again_statements :
    (y : Record) (later : ℕ) (db : Db) (old : ResultRow)
    → is_complete y ≡ true
    → find_row (result_of y.run_id) db.result_records ≡ some old
    → insert_record_statements y later db
      ≡ (if repeats_facts old y then ok (tt, db) else err conflicting_record)
unfolding insert_record_statements
again_statements y later db old c f = rw (c, f, insert_record_statements) refl

committed-if :
    (b : Bool) (db : Db)
    → committed db (if b then ok (tt {0}, db) else err conflicting_record)
      ≡ (if b then (db, ok tt) else (db, err conflicting_record))
committed-if true db = refl
committed-if false db = refl

again :
    (y : Record) (later : ℕ) (db : Db) (old : ResultRow)
    → is_complete y ≡ true
    → find_row (result_of y.run_id) db.result_records ≡ some old
    → insert_record y later db
      ≡ (if repeats_facts old y then (db, ok tt) else (db, err conflicting_record))
unfolding insert_record
again y later db old c f =
    ap (committed db) (again_statements y later db old c f) ∙ committed-if (repeats_facts old y) db

-- Once a projection of a run has succeeded, another complete one of the run changes nothing, at any
-- time: it succeeds exactly if it agrees on the delivery, the verdict and the digest and path of the
-- manifest, whatever its other facts are, and is a conflict otherwise.
pub insert_record_again :
    (x y : Record) (now later : ℕ) (db db' : Db)
    → insert_record x now db ≡ (db', ok tt)
    → is_complete y ≡ true
    → y.run_id ≡ x.run_id
    → insert_record y later db'
      ≡ (if agrees x y then (db', ok tt) else (db', err conflicting_record))
unfolding insert_record
insert_record_again x y now later db db' h c same =
    let (old, found, facts) =
      stored x now db db' tt (transaction-ok (insert_record_statements x now) db db' tt h) in
    again y later db' old c
      (ap (λ (z : String). find_row (result_of z) db'.result_records) same ∙ found)
    ∙ ap (λ b. if b then (db', ok tt) else (db', err conflicting_record))
        (repeats-agrees old x y facts)
