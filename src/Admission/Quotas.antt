-- ===== src/Admission/Quotas.antt =====
-- internal/admission/admission.go: what an admitted mail has passed, and the quotas after it.
use mailproof.Base.{
  ℕ, ◌≤◌, ◌≡◌, refl, sym, ◌∙◌, String, false, List, [], ◌∷◌, ◌++◌, Option, none, some, leb, arith,
  count_rows, count_rows-append, unix, Bool-cases, inl, inr,
}
use mailproof.Database.{Db, ok, SubmissionDecision, DecisionRecord, SigningEntry, AdmissionEvent}
use mailproof.Database.Laws.{Keeps, bind-Keeps, bind-elim}
use mailproof.Analytics.Event.{insert_event}
use mailproof.Queue.Events.{event_tx}
use mailproof.Queue.Statements.{insert_decision, insert_record, insert_signing}
use mailproof.Queue.Rejections.{pending_signature}
use mailproof.Submitters.Address.{Libraries}
use mailproof.Admission.Requests.{Codecs, Request}
use mailproof.Admission.Rules.{SubmitterPolicy}
use mailproof.Admission.Decisions

-- Statements that leave the events of admissions alone.
abbrev Kept : List AdmissionEvent → Db → Type 0
Kept es db = db.admission_events ≡ es

insert_decision-Kept :
    (es : List AdmissionEvent) (d : SubmissionDecision) → Keeps (Kept es) (insert_decision d)
unfolding insert_decision
insert_decision-Kept es d db a db' h v = ground (arith, h, v)

insert_record-Kept :
    (es : List AdmissionEvent) (d : DecisionRecord) → Keeps (Kept es) (insert_record d)
unfolding insert_record
insert_record-Kept es d db a db' h v = ground (arith, h, v)

insert_signing-Kept :
    (es : List AdmissionEvent) (d : SigningEntry) → Keeps (Kept es) (insert_signing d)
unfolding insert_signing
insert_signing-Kept es d db a db' h v = ground (arith, h, v)

event_tx-Kept :
    (es : List AdmissionEvent) (producer source_type source_id event_type outcome : String)
    (now : ℕ)
    → Keeps (Kept es) (event_tx producer source_type source_id event_type outcome now)
unfolding event_tx insert_event
event_tx-Kept es producer source_type source_id event_type outcome now db a db' h v =
    ground (arith, h, v)

store-Kept :
    (es : List AdmissionEvent) (l : Libraries) (s : Decisions.Service) (d : Decisions.Decision)
    (r : Request) (digest : Option String) (now : ℕ)
    → Keeps (Kept es) (Decisions.store l s d r digest now)
unfolding Decisions.store
store-Kept es l s d r digest now =
    bind-Keeps (Kept es) (insert_decision (Decisions.decision_row l s d r digest now)) _
      (insert_decision-Kept es (Decisions.decision_row l s d r digest now))
      (λ a.
        bind-Keeps (Kept es) (insert_record (Decisions.record_row d now)) _
          (insert_record-Kept es (Decisions.record_row d now))
          (λ b.
            bind-Keeps (Kept es) (insert_signing (pending_signature d.id now)) _
              (insert_signing-Kept es (pending_signature d.id now))
              (λ c.
                event_tx-Kept es "admission" "decision" d.id "admission_decision"
                  (Decisions.decision_outcome d.reason) now)))

abbrev admission : Decisions.Decision → ℕ → AdmissionEvent
admission d now = record {
  decision_id = d.id;
  submitter_id = d.submitter_id;
  admitted_at = unix now;
}

insert_admission-events :
    (e : AdmissionEvent) (db db' : Db)
    → Decisions.insert_admission e db ≡ ok (tt, db')
    → db'.admission_events ≡ db.admission_events ++ (e ∷ [])
unfolding Decisions.insert_admission
insert_admission-events e db db' h = ground (arith, h)

grant-events :
    (l : Libraries) (s : Decisions.Service) (r : Request) (digest : String) (now : ℕ)
    (d : Decisions.Decision) (db db' : Db) (a : Decisions.Answer)
    → Decisions.grant l s r digest now d db ≡ ok (a, db')
    → (a ≡ Decisions.admitted d)
      × (db'.admission_events ≡ db.admission_events ++ (admission d now ∷ []))
unfolding Decisions.grant
grant-events l s r digest now d db db' a h =
    let Goal : Type 0 =
      (a ≡ Decisions.admitted d)
      × (db'.admission_events ≡ db.admission_events ++ (admission d now ∷ [])) in
    bind-elim Goal (Decisions.store l s d r (some digest) now) _ db a db' h (λ u d1 e1 h1.
      bind-elim Goal (Decisions.insert_admission (admission d now)) _ d1 a db' h1 (λ w d2 e2 h2.
        let kept = store-Kept db.admission_events l s d r (some digest) now db u d1 e1 refl in
        let rows = insert_admission-events (admission d now) d1 d2 e2 in
        (ground (arith, h2), ground (arith, h2, rows, kept))))

-- One admission fills a window that is not full by one place at most.
used_after :
    (id : String) (now seconds limit : ℕ) (e : AdmissionEvent) (db db' : Db)
    → db'.admission_events ≡ db.admission_events ++ (e ∷ [])
    → leb limit (Decisions.used id now seconds db) ≡ false
    → Decisions.used id now seconds db' ≤ limit
unfolding count_rows
used_after id now seconds limit e db db' rows h = rw rows (
    ground
      (arith, count_rows-append (Decisions.in_window id now seconds) db.admission_events (e ∷ [])))

pub stored_denied :
    (l : Libraries) (s : Decisions.Service) (d : Decisions.Decision) (r : Request)
    (digest : Option String) (now : ℕ) (db db' : Db) (a b : Decisions.Answer)
    → Decisions.stored l s d r digest now a db ≡ ok (b, db')
    → b ≡ a
unfolding Decisions.stored
stored_denied l s d r digest now db db' a b h =
    bind-elim (b ≡ a) (Decisions.store l s d r digest now) _ db b db' h
      (λ u d1 e1 h1. ground (arith, h1))

stamped-submitter_id :
    (l : Libraries) (c : Codecs) (s : Decisions.Service) (r : Request) (p : SubmitterPolicy)
    (envelope version id : String) (now : ℕ)
    → (Decisions.stamped l c s r p envelope version id now).submitter_id ≡ p.id
unfolding Decisions.stamped
stamped-submitter_id l c s r p envelope version id now = refl

pub never_denied : (d e : Decisions.Decision) → Decisions.admitted d ≡ Decisions.denied e → ⊥
never_denied d e h = cc

pub record Within (p : SubmitterPolicy) (now : ℕ) (db db' : Db) : Type 0 where
  pub in_minute : Decisions.used p.id now 60 db' ≤ p.minute_limit
  pub in_hour : Decisions.used p.id now 3600 db' ≤ p.hour_limit
  pub in_day : Decisions.used p.id now 86400 db' ≤ p.day_limit
  pub one_more :
      (e : AdmissionEvent) × (db'.admission_events ≡ db.admission_events ++ (e ∷ []))
      × (e.submitter_id ≡ p.id)

pub admit_statements-Within :
    (l : Libraries) (c : Codecs) (s : Decisions.Service) (r : Request) (p : SubmitterPolicy)
    (envelope version digest id : String) (now : ℕ) (db db' : Db) (d : Decisions.Decision)
    → Decisions.admit_statements l c s r p envelope version digest id now db
      ≡ ok (Decisions.admitted d, db')
    → (d ≡ Decisions.stamped l c s r p envelope version id now) × Within p now db db'
unfolding Decisions.admit_statements
admit_statements-Within l c s r p envelope version digest id now db db' d h =
    elim (Bool-cases (Decisions.over_quota p now db)) [
      | inl e ↦
          let denied : Decisions.Decision =
            Decisions.pass_decision r p envelope version id "quota" "quota_exceeded" none in
          absurd (
            never_denied d denied (
              stored_denied l s denied r (some digest) now db db' (Decisions.denied denied)
                (Decisions.admitted d) (sym (rw e refl) ∙ h)))
      | inr e ↦
          let new : Decisions.Decision = Decisions.stamped l c s r p envelope version id now in
          let (same, rows) =
            grant-events l s r digest now new db db' (Decisions.admitted d) (sym (rw e refl) ∙ h) in
          (
            ground (arith, same),
            record {
              in_minute =
                  used_after p.id now 60 p.minute_limit (admission new now) db db' rows
                    (ground (arith, e));
              in_hour =
                  used_after p.id now 3600 p.hour_limit (admission new now) db db' rows
                    (ground (arith, e));
              in_day =
                  used_after p.id now 86400 p.day_limit (admission new now) db db' rows
                    (ground (arith, e));
              one_more =
                  (admission new now, rows, stamped-submitter_id l c s r p envelope version id now);
            },
          )
    ]
