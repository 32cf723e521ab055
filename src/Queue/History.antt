-- ===== src/Queue/History.antt =====
-- How the rows of runs and deliveries change along the abstract moves.
use mailproof.Base.{
  ◌≡◌, refl, ◌∙◌, [], ◌∷◌, Evolves, Evolves-append, Evolves-refl, Evolves-trans, Evolves-update,
  arith,
}
use mailproof.Database.{Db, Run, Delivery, RunState}
use mailproof.Queue.Lifecycle.{
  Goes, Move, updates, delivers, starts, elsewhere, Moves, still, after,
}

abbrev pub Kept : Delivery → Delivery → Type 0
Kept x y = y ≡ x

module _ {S : RunState → RunState → Type 0} (S_refl : (s : RunState) → S s s)
    (S_trans : (s t u : RunState) → S s t → S t u → S s u) where
  Goes-refl : (x : Run) → Goes S x x
  Goes-refl x = record {
    same_id = refl;
    same_delivery = refl;
    same_birth = refl;
    analysis_kept = omega arith;
    report_kept = omega arith;
    path = S_refl x.state;
  }

  Goes-trans : (x y z : Run) → Goes S x y → Goes S y z → Goes S x z
  Goes-trans x y z h k = record {
    same_id = k.same_id ∙ h.same_id;
    same_delivery = k.same_delivery ∙ h.same_delivery;
    same_birth = k.same_birth ∙ h.same_birth;
    analysis_kept = omega arith;
    report_kept = omega arith;
    path = S_trans x.state y.state z.state h.path k.path;
  }

  Move-runs : {db db' : Db} → Move S db db' → Evolves (Goes S) db.runs db'.runs
  Move-runs {db} (updates p f id del goes sound rs ds) =
      rw rs (Evolves-update (Goes S) Goes-refl p f db.runs goes)
  Move-runs {db} (delivers d source id rs ds) = rw rs (Evolves-refl (Goes S) Goes-refl db.runs)
  Move-runs {db} (starts r id del state sound rs ds) =
      rw rs (Evolves-append (Goes S) Goes-refl db.runs (r ∷ []))
  Move-runs {db} (elsewhere rs ds) = rw rs (Evolves-refl (Goes S) Goes-refl db.runs)

  -- Rows of runs stay at their places, and go on along their paths.
  pub Moves-runs : {db db' : Db} → Moves S db db' → Evolves (Goes S) db.runs db'.runs
  Moves-runs {db} still = Evolves-refl (Goes S) Goes-refl db.runs
  Moves-runs {db} (after {db'} {db''} ms m) =
      Evolves-trans (Goes S) Goes-trans db.runs db'.runs db''.runs (Moves-runs ms) (Move-runs m)

Kept-trans : (x y z : Delivery) → Kept x y → Kept y z → Kept x z
Kept-trans x y z h k = k ∙ h

module _ {S : RunState → RunState → Type 0} where
  Move-deliveries : {db db' : Db} → Move S db db' → Evolves Kept db.deliveries db'.deliveries
  Move-deliveries {db} (updates p f id del goes sound rs ds) =
      rw ds (Evolves-refl Kept (λ x. refl) db.deliveries)
  Move-deliveries {db} (delivers d source id rs ds) =
      rw ds (Evolves-append Kept (λ x. refl) db.deliveries (d ∷ []))
  Move-deliveries {db} (starts r id del state sound rs ds) =
      rw ds (Evolves-refl Kept (λ x. refl) db.deliveries)
  Move-deliveries {db} (elsewhere rs ds) = rw ds (Evolves-refl Kept (λ x. refl) db.deliveries)

  -- A delivery, once recorded, is never changed.
  pub Moves-deliveries : {db db' : Db} → Moves S db db' → Evolves Kept db.deliveries db'.deliveries
  Moves-deliveries {db} still = Evolves-refl Kept (λ x. refl) db.deliveries
  Moves-deliveries {db} (after {db'} {db''} ms m) =
      Evolves-trans Kept Kept-trans db.deliveries db'.deliveries db''.deliveries
        (Moves-deliveries ms) (Move-deliveries m)
