-- ===== src/Submitters/Revocation.antt =====
-- internal/submitter/submitter.go: when Revoke succeeds.
use mailproof.Base.{
  ℕ, ◌≡◌, refl, String, true, false, arith, any_row, count_rows, update_rows, ◌==◌, unix,
  count_rows_pos, count_rows-Unique, In, any_row-In, Unique, sym, ap, ◌∙◌, inl, inr, List, [], ◌∷◌,
  Bool, true_ne_false, str_eq_refl, str_eq_iff, ◌&&◌, Bool-cases,
}
use mailproof.Database.{status_eq_iff, Submitter, Db, ok, err, active, revoked, unique_violation}
use mailproof.Submitters.Statements.{
  has_submitter, is_from, meets_other, same_submitter, move_meets, withdrawn, move_submitter,
}
use mailproof.Submitters.Invariant.{Enrolled, same_id, same_submitter_sym}
use mailproof.Submitters.Service.{revoke, revoke_statements}

one_row :
    (id : String) (db : Db)
    → Enrolled db
    → any_row (is_from id active) db.submitters ≡ true
    → (count_rows (is_from id active) db.submitters == 1) ≡ true
one_row id db v h =
    let most =
      count_rows-Unique same_submitter (is_from id active) db.submitters
        (λ x y p q. same_id id x y (ground arith) (ground arith)) v.submitters_unique in
    let least = count_rows_pos (is_from id active) db.submitters h in ground (arith, most, least)

module _ {A : Type 0} where
  any_row-active_row :
      (p : A → Bool) (a : A) (xs : List A) → In a xs → p a ≡ true → any_row p xs ≡ true
  unfolding any_row
  any_row-active_row p a [] m h = absurd m
  any_row-active_row p a (x ∷ xs) (inl e) h = let k = ap p e ∙ h in ground (arith, k)
  any_row-active_row p a (x ∷ xs) (inr m) h = ground (arith, any_row-active_row p a xs m h)

  any_row-nowhere :
      (p : A → Bool) (xs : List A) → ((x : A) → In x xs → p x ≡ false) → any_row p xs ≡ false
  unfolding any_row
  any_row-nowhere p [] h = refl
  any_row-nowhere p (x ∷ xs) h =
      ground (arith, h x (inl refl), any_row-nowhere p xs (λ y m. h y (inr m)))

  -- Two rows of one key are one row.
  Unique-In :
      (same : A → A → Bool) (a b : A) (xs : List A)
      → ((x y : A) → same x y ≡ same y x)
      → Unique same xs
      → In a xs
      → In b xs
      → same a b ≡ true
      → a ≡ b
  Unique-In same a b [] s u m n h = absurd m
  Unique-In same a b (x ∷ xs) s u (inl e) (inl f) h = sym e ∙ f
  Unique-In same a b (x ∷ xs) s u (inl e) (inr n) h =
      absurd (true_ne_false (sym (ap (λ z. same z b) e ∙ h) ∙ any_row-In (same x) b xs n u.0))
  Unique-In same a b (x ∷ xs) s u (inr m) (inl f) h =
      absurd
        (true_ne_false (sym (ap (λ z. same z a) f ∙ s b a ∙ h) ∙ any_row-In (same x) a xs m u.0))
  Unique-In same a b (x ∷ xs) s u (inr m) (inr n) h = Unique-In same a b xs s u.1 m n h

-- Another submitter of the address is revoked.
abbrev pub RevokedToo : Submitter → Db → Type 0
RevokedToo s db =
    (o : Submitter) × In o db.submitters
    × (o.canonical_address ≡ s.canonical_address)
    × (o.status ≡ revoked)

differ : revoked ≡ active → ⊥
differ h = cc

module _ (s : Submitter) (db : Db) (v : Enrolled db) (here : In s db.submitters)
    (is_active : s.status ≡ active) where
  one_of : (x : Submitter) → In x db.submitters → is_from s.submitter_id active x ≡ true → x ≡ s
  one_of x m h =
      Unique-In same_submitter x s db.submitters same_submitter_sym v.submitters_unique m here
        (same_id s.submitter_id x s (ground (arith, h)) (str_eq_refl s.submitter_id))

  active_row : any_row (is_from s.submitter_id active) db.submitters ≡ true
  active_row =
      any_row-active_row (is_from s.submitter_id active) s db.submitters here
        (ground (arith, str_eq_refl s.submitter_id, status_eq_iff s.status active, is_active))

  apart :
      (o : Submitter)
      → In o db.submitters
      → o.status ≡ revoked
      → has_submitter s.submitter_id o ≡ false
  apart o m gone = elim (Bool-cases (has_submitter s.submitter_id o)) [
    | inr e ↦ e
    | inl e ↦
        let same =
          Unique-In same_submitter o s db.submitters same_submitter_sym v.submitters_unique m here
            (same_id s.submitter_id o s e (str_eq_refl s.submitter_id)) in
        absurd (differ (sym gone ∙ ap (λ (z : Submitter). z.status) same ∙ is_active))
  ]

  meets : RevokedToo s db → move_meets s.submitter_id active revoked db.submitters ≡ true
  meets (o, m, address, gone) =
      any_row-active_row
        (λ x.
          is_from s.submitter_id active x
          && any_row (meets_other s.submitter_id revoked x) db.submitters)
        s db.submitters here
        (let free = apart o m gone in
          let other = any_row-active_row (meets_other s.submitter_id revoked s) o db.submitters m (
            ground (
              arith,
              free,
              (str_eq_iff o.canonical_address s.canonical_address).1 address,
              (status_eq_iff o.status revoked).1 gone,
            )) in
          ground
            (arith, other, str_eq_refl s.submitter_id, (status_eq_iff s.status active).1 is_active))

  clear : (RevokedToo s db → ⊥) → move_meets s.submitter_id active revoked db.submitters ≡ false
  clear alone =
      any_row-nowhere
        (λ x.
          is_from s.submitter_id active x
          && any_row (meets_other s.submitter_id revoked x) db.submitters)
        db.submitters
        (λ x m. elim (Bool-cases (is_from s.submitter_id active x)) [
          | inr e ↦ rw e refl
          | inl e ↦
              let none_other =
                any_row-nowhere (meets_other s.submitter_id revoked x) db.submitters
                  (λ o n. not_meeting x o (one_of x m e) n) in
              ground (arith, e, none_other)
        ])
    where
      not_meeting :
          (x o : Submitter)
          → x ≡ s
          → In o db.submitters
          → meets_other s.submitter_id revoked x o ≡ false
      not_meeting x o same n = elim (Bool-cases (meets_other s.submitter_id revoked x o)) [
        | inr f ↦ f
        | inl f ↦ absurd (
            alone (
              o,
              n,
              (str_eq_iff o.canonical_address x.canonical_address).0 (ground (arith, f))
                  ∙ ap (λ (z : Submitter). z.canonical_address) same,
              (status_eq_iff o.status revoked).0 (ground (arith, f)),
            ))
      ]

-- Revoke of an active submitter, where the keys are unique. If another submitter of its address is
-- revoked already, it fails on the key of address and status and changes nothing; otherwise it marks
-- the row as revoked at that time, and changes no other.
pub revoke_lem :
    (s : Submitter) (now : ℕ) (db : Db)
    → Enrolled db
    → In s db.submitters
    → s.status ≡ active
    → (RevokedToo s db → revoke s.submitter_id now db ≡ (db, err unique_violation))
      × ((RevokedToo s db → ⊥)
          → revoke s.submitter_id now db ≡ (
            record db {
              submitters =
                  update_rows (is_from s.submitter_id active) (withdrawn (unix now)) db.submitters;
            },
            ok tt,
          ))
unfolding revoke revoke_statements move_submitter
revoke_lem s now db v here is_active =
    let one = one_row s.submitter_id db v (active_row s db v here is_active) in
    (
      λ other. let e = meets s db v here is_active other in rw (one, e) refl,
      λ alone. let e = clear s db v here is_active alone in rw (one, e) refl,
    )
