-- ===== src/Analytics/Exact.antt =====
-- internal/analytics/projector.go: the rollups count the events that the cursor has passed, once.
use mailproof.Base.{
  ℕ, zero, suc, ◌+◌, ◌≤◌, ◌<◌, ◌≡◌, refl, sym, ap, ◌∙◌, true, false, ◌||◌, ltb, leb, List, [], ◌∷◌,
  ◌++◌, if◌then◌else◌, arith, any_row, update_rows, take, str_eq_iff, str_eq_sym, Bool-cases, inl,
  inr, Unique, Unique-append, Unique-update, any_row-weaken,
}
use mailproof.Database.{
  Db, EventRow, Rollup, Granularity, granularity_eq, granularity_eq_iff, minute, hour, day,
}
use mailproof.Analytics.Projector.{
  same_rollup, rollup_of, bumped, upsert, roll_up, roll_up_all, newer, last_of, batch_of,
  project_once,
}

-- The count that the rollups hold for the key of `k`.
unfoldable pub total : Rollup → List Rollup → ℕ
total k [] = 0
total k (r ∷ rs) = (if same_rollup k r then r.event_count else 0) + total k rs

total-append : (k : Rollup) (rs ss : List Rollup) → total k (rs ++ ss) ≡ total k rs + total k ss
unfolding total
total-append k [] ss = omega arith
total-append k (r ∷ rs) ss = ground (arith, total-append k rs ss)

granularity_eq_sym : (g h : Granularity) → granularity_eq g h ≡ granularity_eq h g
granularity_eq_sym g h = ground arith

same_rollup_sym : (a b : Rollup) → same_rollup a b ≡ same_rollup b a
same_rollup_sym a b = ground (
  arith,
  granularity_eq_sym a.granularity b.granularity,
  str_eq_sym a.metric b.metric,
  str_eq_sym a.outcome b.outcome,
  str_eq_sym a.dimension_key b.dimension_key,
)

-- Rows of one key match the same keys.
same_rollup_trans : (k a b : Rollup) → same_rollup a b ≡ true → same_rollup k a ≡ same_rollup k b
same_rollup_trans k a b h =
    let m = (str_eq_iff a.metric b.metric).0 (ground arith) in
    let o = (str_eq_iff a.outcome b.outcome).0 (ground arith) in
    let d = (str_eq_iff a.dimension_key b.dimension_key).0 (ground arith) in
    let g = (granularity_eq_iff a.granularity b.granularity).0 (ground arith) in
    let t : a.bucket_start ≡ b.bucket_start = ground arith in rw (t, g, m, o, d) refl

total-bump_absent :
    (k new : Rollup) (rs : List Rollup)
    → any_row (same_rollup new) rs ≡ false
    → total k (update_rows (same_rollup new) (bumped new) rs) ≡ total k rs
unfolding total any_row update_rows
total-bump_absent k new [] h = refl
total-bump_absent k new (r ∷ rs) h = ground (arith, total-bump_absent k new rs)

total-bump :
    (k new : Rollup) (rs : List Rollup)
    → Unique same_rollup rs
    → any_row (same_rollup new) rs ≡ true
    → total k (update_rows (same_rollup new) (bumped new) rs)
      ≡ total k rs + (if same_rollup k new then 1 else 0)
unfolding total any_row update_rows
total-bump k new [] u h = absurd (ground arith)
total-bump k new (r ∷ rs) u h = elim (Bool-cases (same_rollup new r)) [
  | inl e ↦
      let absent : any_row (same_rollup new) rs ≡ false =
        any_row-weaken (same_rollup new) (same_rollup r) rs
          (λ y t.
            sym (same_rollup_sym y r)
            ∙ (sym (same_rollup_trans y new r e) ∙ (same_rollup_sym y new ∙ t)))
          u.0 in
      rw e (ground (arith, total-bump_absent k new rs absent, same_rollup_trans k new r e))
  | inr e ↦ rw e (ground (arith, total-bump k new rs u.1))
]

total-upsert :
    (k new : Rollup) (rs : List Rollup)
    → new.event_count ≡ 1
    → Unique same_rollup rs
    → total k (upsert new rs) ≡ total k rs + (if same_rollup k new then 1 else 0)
unfolding upsert total
total-upsert k new rs one u = elim (Bool-cases (any_row (same_rollup new) rs)) [
  | inl e ↦ rw e (total-bump k new rs u e)
  | inr e ↦ rw e (total-append k rs (new ∷ []) ∙ ground (arith, one))
]

upsert-Unique :
    (new : Rollup) (rs : List Rollup) → Unique same_rollup rs → Unique same_rollup (upsert new rs)
unfolding upsert
upsert-Unique new rs u = elim (Bool-cases (any_row (same_rollup new) rs)) [
  | inl e ↦
      rw e
        (Unique-update same_rollup (same_rollup new) (bumped new) rs (λ x y. refl) (λ x y. refl) u)
  | inr e ↦ rw e (Unique-append same_rollup rs new same_rollup_sym u e)
]

-- How often the events count for the key of `k`: once for each level whose bucket is the key's.
abbrev pub counts : Rollup → EventRow → Granularity → ℕ
counts k e level = if same_rollup k (rollup_of level e) then 1 else 0

unfoldable pub hits : Rollup → List EventRow → ℕ
hits k [] = 0
hits k (e ∷ es) = counts k e minute + counts k e hour + counts k e day + hits k es

one_count : (level : Granularity) (e : EventRow) → (rollup_of level e).event_count ≡ 1
unfolding rollup_of
one_count level e = refl

pub record Rolls (k : Rollup) (n : ℕ) (rs ss : List Rollup) : Type 0 where
  pub unique : Unique same_rollup ss
  pub more : total k ss ≡ total k rs + n

roll_up-Rolls :
    (k : Rollup) (e : EventRow) (rs : List Rollup)
    → Unique same_rollup rs
    → Rolls k (counts k e minute + counts k e hour + counts k e day) rs (roll_up e rs)
unfolding roll_up
roll_up-Rolls k e rs u =
    let m = rollup_of minute e in
    let h = rollup_of hour e in
    let d = rollup_of day e in
    let u1 = upsert-Unique m rs u in
    let u2 = upsert-Unique h (upsert m rs) u1 in
    record {
      unique = upsert-Unique d (upsert h (upsert m rs)) u2;
      more = omega (
        arith,
        total-upsert k m rs (one_count minute e) u,
        total-upsert k h (upsert m rs) (one_count hour e) u1,
        total-upsert k d (upsert h (upsert m rs)) (one_count day e) u2,
      );
    }

pub roll_up_all-Rolls :
    (k : Rollup) (es : List EventRow) (rs : List Rollup)
    → Unique same_rollup rs
    → Rolls k (hits k es) rs (roll_up_all es rs)
unfolding roll_up_all hits
roll_up_all-Rolls k [] rs u = record { unique = u; more = omega arith }
roll_up_all-Rolls k (e ∷ es) rs u =
    let one = roll_up-Rolls k e rs u in
    let rest = roll_up_all-Rolls k es (roll_up e rs) one.unique in
    record { unique = rest.unique; more = omega (arith, one.more, rest.more) }

-- The events that a cursor has passed.
unfoldable pub passed : ℕ → List EventRow → List EventRow
passed c [] = []
passed c (e ∷ es) = if leb e.event_id c then e ∷ passed c es else passed c es

-- The keys of the events rise.
abbrev pub Rising : ℕ → List EventRow → Type 0
Rising c [] = Unit
Rising c (e ∷ es) = (c < e.event_id) × Rising e.event_id es

Rising-weaken : (b c : ℕ) (es : List EventRow) → b ≤ c → Rising c es → Rising b es
Rising-weaken b c [] h r = tt
Rising-weaken b c (e ∷ es) h r = (omega (arith, r.0), r.1)

passed_none : (k : Rollup) (c : ℕ) (es : List EventRow) → Rising c es → hits k (passed c es) ≡ 0
unfolding passed hits
passed_none k c [] r = refl
passed_none k c (e ∷ es) r =
    ground
      (arith, r.0, passed_none k c es (Rising-weaken c e.event_id es (ground (arith, r.0)) r.1))

newer_all : (c : ℕ) (es : List EventRow) → Rising c es → newer c es ≡ es
unfolding newer
newer_all c [] r = refl
newer_all c (e ∷ es) r =
    ground (arith, r.0, newer_all c es (Rising-weaken c e.event_id es (ground (arith, r.0)) r.1))

last_of-le : (c n : ℕ) (es : List EventRow) → Rising c es → c ≤ last_of c (take n es)
unfolding last_of
last_of-le c zero es r = ground arith
last_of-le c (suc n) [] r = ground arith
last_of-le c (suc n) (e ∷ es) r = omega (arith, r.0, last_of-le e.event_id n es r.1)

passed-in :
    (c : ℕ) (e : EventRow) (es : List EventRow)
    → e.event_id ≤ c
    → passed c (e ∷ es) ≡ e ∷ passed c es
unfolding passed
passed-in c e es h = ground arith

newer-out :
    (c : ℕ) (e : EventRow) (es : List EventRow)
    → ltb c e.event_id ≡ false
    → newer c (e ∷ es) ≡ newer c es
unfolding newer
newer-out c e es h = rw h refl

unfoldable weight : Rollup → EventRow → ℕ
weight k e = counts k e minute + counts k e hour + counts k e day

hits-cons :
    (k : Rollup) (e : EventRow) (es : List EventRow) → hits k (e ∷ es) ≡ weight k e + hits k es
unfolding hits weight
hits-cons k e es = refl

hits-take :
    (k : Rollup) (c n : ℕ) (es : List EventRow)
    → Rising c es
    → hits k (passed (last_of c (take n es)) es) ≡ hits k (take n es)
unfolding last_of hits passed
hits-take k c zero es r = passed_none k c es r
hits-take k c (suc n) [] r = refl
hits-take k c (suc n) (e ∷ es) r =
    ap (hits k) (passed-in (last_of e.event_id (take n es)) e es (last_of-le e.event_id n es r.1))
    ∙ ap (λ x. counts k e minute + counts k e hour + counts k e day + x)
        (hits-take k e.event_id n es r.1)

newer-Rising : (b c : ℕ) (es : List EventRow) → Rising b es → Rising c (newer c es)
unfolding newer
newer-Rising b c [] r = tt
newer-Rising b c (e ∷ es) r = elim (Bool-cases (ltb c e.event_id)) [
  | inl t ↦
      rw (t, newer_all c es (Rising-weaken c e.event_id es (ground arith) r.1)) (ground arith, r.1)
  | inr t ↦ rw t (newer-Rising e.event_id c es r.1)
]

nothing : (k : Rollup) (c : ℕ) → hits k (passed c []) ≡ hits k (passed c []) + hits k []
unfolding passed hits
nothing k c = omega arith

skip :
    (k : Rollup) (c n : ℕ) (e : EventRow) (es : List EventRow)
    → ltb c e.event_id ≡ false
    → c ≤ last_of c (take n (newer c es))
    → hits k (passed (last_of c (take n (newer c es))) es)
      ≡ hits k (passed c es) + hits k (take n (newer c es))
    → hits k (passed (last_of c (take n (newer c (e ∷ es)))) (e ∷ es))
      ≡ hits k (passed c (e ∷ es)) + hits k (take n (newer c (e ∷ es)))
skip k c n e es t le h =
    let old : e.event_id ≤ c = ground arith in
    let new : e.event_id ≤ last_of c (take n (newer c es)) = omega (arith, old, le) in
    rw (newer-out c e es t) (
      omega (
        arith,
        ap (hits k) (passed-in (last_of c (take n (newer c es))) e es new),
        ap (hits k) (passed-in c e es old),
        hits-cons k e (passed (last_of c (take n (newer c es))) es),
        hits-cons k e (passed c es),
        h,
      ))

-- A batch is what the new cursor has passed and the old one had not.
hits-batch :
    (k : Rollup) (b c n : ℕ) (es : List EventRow)
    → Rising b es
    → hits k (passed (last_of c (take n (newer c es))) es)
      ≡ hits k (passed c es) + hits k (take n (newer c es))
unfolding last_of newer
hits-batch k b c zero [] r = nothing k c
hits-batch k b c (suc n) [] r = nothing k c
hits-batch k b c n (e ∷ es) r = elim (Bool-cases (ltb c e.event_id)) [
  | inl t ↦
      let up : Rising c (e ∷ es) = (ground arith, r.1) in
      rw (newer_all c (e ∷ es) up, passed_none k c (e ∷ es) up)
        (hits-take k c n (e ∷ es) up ∙ omega arith)
  | inr t ↦
      skip k c n e es t (last_of-le c n (newer c es) (newer-Rising e.event_id c es r.1))
        (hits-batch k e.event_id c n es r.1)
]

-- The rollups hold, for every key, the number of the events that the cursor has passed; and the
-- keys of the rollups are unique and those of the events rise.
pub record IsExact (db : Db) : Type 0 where
  pub unique : Unique same_rollup db.rollups
  pub rising : Rising 0 db.events
  pub exact : (k : Rollup) → total k db.rollups ≡ hits k (passed db.cursor db.events)

-- ProjectOnce keeps the rollups exact: whatever the size of the batch, each of them counts every event
-- that the cursor has passed, once.
pub project_once-IsExact : (batch : ℕ) (db : Db) → IsExact db → IsExact (project_once batch db).0
unfolding project_once
project_once-IsExact batch db v = elim (Bool-cases (ltb batch 1 || ltb 1000 batch)) [
  | inl e ↦ rw e v
  | inr e ↦ rw e (record {
    unique =
        (roll_up_all-Rolls
          (record {
            bucket_start = 0;
            granularity = minute;
            metric = "";
            outcome = "";
            dimension_key = "";
            event_count = 0;
            source_high_watermark = 0;
          })
          (batch_of batch db) db.rollups v.unique).unique;
    rising = v.rising;
    exact = λ k.
        (roll_up_all-Rolls k (batch_of batch db) db.rollups v.unique).more
        ∙ ap (λ n. n + hits k (batch_of batch db)) (v.exact k)
        ∙ sym (hits-batch k 0 db.cursor batch db.events v.rising);
  })
]
