-- ===== src/Queue/Invariant.antt =====
-- What the abstract moves keep: keys stay unique, every run belongs to a delivery, leases are
-- sound; and how the rows of the two tables may change.
use mailproof.Base.{
  Bool, true, false, ◌≡◌, ap, ◌∙◌, List, [], ◌∷◌, ◌++◌, All, All-append, All-update, All-mono,
  Unique, Unique-append, Unique-update, any_row, any_row-append, update_rows, str_eq, str_eq_sym,
  arith,
}
use mailproof.Database.{Db, Run, Delivery, RunState}
use mailproof.Queue.Statements.{has_run, has_delivery, has_source}
use mailproof.Queue.Lifecycle.{
  LeaseSound, Move, updates, delivers, starts, elsewhere, Moves, still, after,
}

abbrev pub same_run : Run → Run → Bool
same_run x y = has_run x.run_id y

abbrev pub same_delivery : Delivery → Delivery → Bool
same_delivery x y = has_delivery x.delivery_id y

abbrev pub same_source : Delivery → Delivery → Bool
same_source x y = has_source x.source_key y

abbrev pub Delivered : List Delivery → Run → Type 0
Delivered deliveries r = any_row (has_delivery r.delivery_id) deliveries ≡ true

pub record IsConsistent (deliveries : List Delivery) (runs : List Run) : Type 0 where
  pub runs_unique : Unique same_run runs
  pub deliveries_unique : Unique same_delivery deliveries
  pub sources_unique : Unique same_source deliveries
  pub runs_delivered : All (Delivered deliveries) runs
  pub leases_sound : All LeaseSound runs

abbrev pub Valid : Db → Type 0
Valid db = IsConsistent db.deliveries db.runs

updates-IsConsistent :
    (p : Run → Bool) (f : Run → Run) (ds : List Delivery) (rs : List Run)
    → ((x : Run) → (f x).run_id ≡ x.run_id)
    → ((x : Run) → (f x).delivery_id ≡ x.delivery_id)
    → ((x : Run) → p x ≡ true → LeaseSound x → LeaseSound (f x))
    → IsConsistent ds rs
    → IsConsistent ds (update_rows p f rs)
updates-IsConsistent p f ds rs id del sound h = record {
  runs_unique =
      Unique-update same_run p f rs (λ x y. ap (λ k. str_eq y.run_id k) (id x))
        (λ x y. ap (λ k. str_eq k x.run_id) (id y)) h.runs_unique;
  deliveries_unique = h.deliveries_unique;
  sources_unique = h.sources_unique;
  runs_delivered =
      All-update (Delivered ds) p f rs (λ x e d. ap (λ k. any_row (has_delivery k) ds) (del x) ∙ d)
        h.runs_delivered;
  leases_sound = All-update LeaseSound p f rs sound h.leases_sound;
}

delivers-IsConsistent :
    (d : Delivery) (ds : List Delivery) (rs : List Run)
    → any_row (has_source d.source_key) ds ≡ false
    → any_row (has_delivery d.delivery_id) ds ≡ false
    → IsConsistent ds rs
    → IsConsistent (ds ++ d ∷ []) rs
delivers-IsConsistent d ds rs source id h = record {
  runs_unique = h.runs_unique;
  deliveries_unique =
      Unique-append same_delivery ds d (λ x y. str_eq_sym y.delivery_id x.delivery_id)
        h.deliveries_unique id;
  sources_unique =
      Unique-append same_source ds d (λ x y. str_eq_sym y.source_key x.source_key) h.sources_unique
        source;
  runs_delivered =
      All-mono (Delivered ds) (Delivered (ds ++ d ∷ [])) rs
        (λ r k. ground (arith, k, any_row-append (has_delivery r.delivery_id) ds (d ∷ [])))
        h.runs_delivered;
  leases_sound = h.leases_sound;
}

starts-IsConsistent :
    (r : Run) (ds : List Delivery) (rs : List Run)
    → any_row (has_run r.run_id) rs ≡ false
    → Delivered ds r
    → LeaseSound r
    → IsConsistent ds rs
    → IsConsistent ds (rs ++ r ∷ [])
starts-IsConsistent r ds rs id del sound h = record {
  runs_unique = Unique-append same_run rs r (λ x y. str_eq_sym y.run_id x.run_id) h.runs_unique id;
  deliveries_unique = h.deliveries_unique;
  sources_unique = h.sources_unique;
  runs_delivered = All-append (Delivered ds) rs (r ∷ []) h.runs_delivered (del, tt);
  leases_sound = All-append LeaseSound rs (r ∷ []) h.leases_sound (sound, tt);
}

module _ {S : RunState → RunState → Type 0} where
  pub Move-Valid : {db db' : Db} → Move S db db' → Valid db → Valid db'
  Move-Valid {db} {db'} (updates p f id del goes sound rs ds) h =
      rw (rs, ds) (updates-IsConsistent p f db.deliveries db.runs id del sound h)
  Move-Valid {db} {db'} (delivers d source id rs ds) h =
      rw (rs, ds) (delivers-IsConsistent d db.deliveries db.runs source id h)
  Move-Valid {db} {db'} (starts r id del state sound rs ds) h =
      rw (rs, ds) (starts-IsConsistent r db.deliveries db.runs id del sound h)
  Move-Valid {db} {db'} (elsewhere rs ds) h = rw (rs, ds) h

  pub Moves-Valid : {db db' : Db} → Moves S db db' → Valid db → Valid db'
  Moves-Valid still h = h
  Moves-Valid (after ms m) h = Move-Valid m (Moves-Valid ms h)
