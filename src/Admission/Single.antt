-- ===== src/Admission/Single.antt =====
-- internal/admission/header.go: a stamp is consumed once.
use mailproof.Base.{
  ℕ, ◌≡◌, ◌≢◌, refl, sym, ◌∙◌, String, Bool, true, false, not, ◌&&◌, List, [], ◌∷◌, none, some,
  arith, Bool-cases, Option-cases, inl, inr, any_row, find_row, update_rows, Unique, str_eq,
  str_eq_iff, is_some, any_row-weaken, find_row-none, unix,
}
use mailproof.Database.{Db, ok, SubmissionDecision}
use mailproof.Submitters.Address.{Libraries}
use mailproof.Admission.Requests.{Codecs}
use mailproof.Admission.Decisions.{Service, Decision}
use mailproof.Admission.Stamps.{Parts, consumable, spend, consume_stamp, read_stamp}

abbrev pub same_decision : SubmissionDecision → SubmissionDecision → Bool
same_decision a b = str_eq a.decision_id b.decision_id

-- Whether the decision is still to be consumed.
abbrev pub unspent : String → SubmissionDecision → Bool
unspent id d = str_eq d.decision_id id && not (is_some d.consumed_at)

unspent-spend : (id : String) (t : ℕ) (d : SubmissionDecision) → unspent id (spend t d) ≡ false
unspent-spend id t d = elim (Bool-cases (str_eq d.decision_id id)) [
  | inl e ↦ rw e refl
  | inr e ↦ rw e refl
]

-- Consuming makes nothing unspent.
still_spent :
    (id : String) (p : SubmissionDecision → Bool) (t : ℕ) (ds : List SubmissionDecision)
    → any_row (unspent id) ds ≡ false
    → any_row (unspent id) (update_rows p (spend t) ds) ≡ false
unfolding any_row update_rows
still_spent id p t [] h = refl
still_spent id p t (x ∷ ds) h = elim (Bool-cases (p x)) [
  | inl e ↦ rw (e, unspent-spend id t x) (still_spent id p t ds (ground arith))
  | inr e ↦ rw e (ground (arith, still_spent id p t ds))
]

same_row :
    (id : String) (x y : SubmissionDecision)
    → str_eq x.decision_id id ≡ true
    → unspent id y ≡ true
    → same_decision x y ≡ true
same_row id x y e h = ground (
  arith,
  (str_eq_iff x.decision_id id).0 e,
  (str_eq_iff y.decision_id id).0 (ground arith),
  (str_eq_iff x.decision_id y.decision_id).1,
)

consumable-unspent :
    (id queue_id : String) (now : ℕ) (d : SubmissionDecision)
    → consumable id queue_id now d ≡ true
    → unspent id d ≡ true
consumable-unspent id queue_id now d h = ground arith

apart :
    (id queue_id : String) (now : ℕ) (x : SubmissionDecision) (ds : List SubmissionDecision)
    (d : SubmissionDecision)
    → any_row (same_decision x) ds ≡ false
    → find_row (consumable id queue_id now) ds ≡ some d
    → unspent id x ≡ false
apart id queue_id now x ds d h f = elim (Bool-cases (unspent id x)) [
  | inr e ↦ e
  | inl e ↦
      let absent : any_row (consumable id queue_id now) ds ≡ false =
        any_row-weaken (consumable id queue_id now) (same_decision x) ds
          (λ y k. same_row id x y (ground arith) (consumable-unspent id queue_id now y k)) h in
      absurd (ground (arith, f, find_row-none (consumable id queue_id now) ds absent))
]

-- Once the row of an identifier is consumed, no row of it is unspent.
spent_rows :
    (id queue_id : String) (now t : ℕ) (ds : List SubmissionDecision) (d : SubmissionDecision)
    → Unique same_decision ds
    → find_row (consumable id queue_id now) ds ≡ some d
    → any_row (unspent id) (update_rows (consumable id queue_id now) (spend t) ds) ≡ false
unfolding any_row find_row update_rows
spent_rows id queue_id now t [] d u h = absurd (ground (arith, h))
spent_rows id queue_id now t (x ∷ ds) d u h = elim (Bool-cases (consumable id queue_id now x)) [
  | inl e ↦
      rw (e, unspent-spend id t x)
        (still_spent id (consumable id queue_id now) t ds (
          any_row-weaken (unspent id) (same_decision x) ds (λ y k. same_row id x y (ground arith) k)
            u.0))
  | inr e ↦
      rw (e, apart id queue_id now x ds d u.0 (ground arith))
        (spent_rows id queue_id now t ds d u.1 (ground arith))
]

consumed_none :
    (id queue_id : String) (now : ℕ) (ds : List SubmissionDecision)
    → any_row (unspent id) ds ≡ false
    → find_row (consumable id queue_id now) ds ≡ none
consumed_none id queue_id now ds h = find_row-none (consumable id queue_id now) ds (
    any_row-weaken (consumable id queue_id now) (unspent id) ds (consumable-unspent id queue_id now)
      h)

consume_stamp-parts :
    (l : Libraries) (c : Codecs) (s : Service) (headers : List String) (queue_id : String) (now : ℕ)
    (db db' : Db) (d : Decision)
    → consume_stamp l c s headers queue_id now db ≡ (db', ok d)
    → (p : Parts) × (row : SubmissionDecision) × (find_row
          (consumable p.id queue_id (unix now))
          db.decisions
        ≡ some row)
      × (db'.decisions
          ≡ update_rows (consumable p.id queue_id (unix now)) (spend (unix now)) db.decisions)
      × (d.id ≡ p.id)
unfolding consume_stamp
consume_stamp-parts l c s headers queue_id now db db' d h =
    elim (Option-cases (read_stamp l c s headers now)) [
      | inl n ↦ absurd (ground (arith, h, n))
      | inr (p, e) ↦
          elim (Option-cases (find_row (consumable p.id queue_id (unix now)) db.decisions)) [
            | inl n ↦ absurd (ground (arith, h, e, n))
            | inr (row, f) ↦ (
              p,
              row,
              f,
              ground (arith, h, e, f),
              (str_eq_iff d.id p.id).0 (ground (arith, h, e, f)),
            )
          ]
    ]

-- A decision is consumed once: after its stamp has been accepted, no call of ConsumeStamp on what is
-- then stored gives a decision of that identifier, for any headers, queue or time.
pub consume_stamp_once :
    (l : Libraries) (c : Codecs) (s : Service) (headers1 headers2 : List String)
    (queue1 queue2 : String) (now1 now2 : ℕ) (db db1 db2 : Db) (d1 d2 : Decision)
    → Unique same_decision db.decisions
    → consume_stamp l c s headers1 queue1 now1 db ≡ (db1, ok d1)
    → consume_stamp l c s headers2 queue2 now2 db1 ≡ (db2, ok d2)
    → d2.id ≢ d1.id
consume_stamp_once l c s headers1 headers2 queue1 queue2 now1 now2 db db1 db2 d1 d2 u h1 h2 same =
    let (p1, row1, f1, rows1, e1) = consume_stamp-parts l c s headers1 queue1 now1 db db1 d1 h1 in
    let (p2, row2, f2, rows2, e2) = consume_stamp-parts l c s headers2 queue2 now2 db1 db2 d2 h2 in
    let ids : p1.id ≡ p2.id = sym e1 ∙ sym same ∙ e2 in
    let spent : any_row (unspent p1.id) db1.decisions ≡ false =
      rw rows1 (spent_rows p1.id queue1 (unix now1) (unix now1) db.decisions row1 u f1) in
    let gone : find_row (consumable p2.id queue2 (unix now2)) db1.decisions ≡ none =
      consumed_none p2.id queue2 (unix now2) db1.decisions (rw (← ids) spent) in
    ground (arith, gone, f2)
