-- ===== src/Database/Laws.antt =====
-- What a transaction keeps: the database before it, or the one at its commit.
use mailproof.Base.{◌≡◌, ◌⊎◌, inl, inr, refl, arith, subst, Bool, true, false}
use mailproof.Database.{
  Db, Tx, Result, Error, ok, err, transaction, committed, ◌>>=◌, pure, guard, gets, modify,
}

module _ {A : Type 0} (P : Db → Type 0) (m : Tx A) (db : Db) where
  pub transaction_keeps :
      P db → ((a : A) (db' : Db) → m db ≡ ok (a, db') → P db') → P (transaction m db).0
  transaction_keeps before after = go (m db) refl
    where
      go : (r : Result (A × Db)) → m db ≡ r → P (committed db r).0
      go (ok (a, db')) e = after a db' e
      go (err x) e = before

module _ {A B : Type 0} where
  -- Inversion of a bind that succeeds.
  pub bind-ok :
      (m : Tx A) (f : A → Tx B) (db : Db) (b : B) (db'' : Db)
      → (m >>= f) db ≡ ok (b, db'')
      → (a : A) × (db' : Db) × (m db ≡ ok (a, db')) × (f a db' ≡ ok (b, db''))
  bind-ok m f db b db'' h = go (m db) refl
    where
      go :
          (r : Result (A × Db))
          → m db ≡ r
          → (a : A) × (db' : Db) × (m db ≡ ok (a, db')) × (f a db' ≡ ok (b, db''))
      go (ok (a, db')) e = (a, db', e, ground (arith, e, h))
      go (err x) e = absurd (ground (arith, e, h))

-- Whenever the statements succeed they keep P.
abbrev pub Keeps : (Db → Type 0) → {A : Type 0} → Tx A → Type 0
Keeps P {A} m = (db : Db) (a : A) (db' : Db) → m db ≡ ok (a, db') → P db → P db'

module _ (P : Db → Type 0) where
  pub bind-Keeps :
      {A B : Type 0} (m : Tx A) (f : A → Tx B)
      → Keeps P m
      → ((a : A) → Keeps P (f a))
      → Keeps P (m >>= f)
  bind-Keeps m f k l db b db'' h v =
      let (a, db', e, g) = bind-ok m f db b db'' h in l a db' b db'' g (k db a db' e v)

  -- Statements that only read.
  pub reads-Keeps :
      {A : Type 0} (m : Tx A)
      → ((db : Db) (a : A) (db' : Db) → m db ≡ ok (a, db') → db ≡ db')
      → Keeps P m
  reads-Keeps m r db a db' h v = subst P (r db a db' h) v

  pub pure-Keeps : {A : Type 0} (a : A) → Keeps P (pure a)
  pure-Keeps a = reads-Keeps (pure a) (λ db b db' h. ground (arith, h))

  pub guard-Keeps : (b : Bool) (e : Error) → Keeps P (guard b e)
  guard-Keeps true e = reads-Keeps (guard true e) (λ db b db' h. ground (arith, h))
  guard-Keeps false e = reads-Keeps (guard false e) (λ db b db' h. ground (arith, h))

  pub gets-Keeps : {A : Type 0} (f : Db → A) → Keeps P (gets f)
  gets-Keeps f = reads-Keeps (gets f) (λ db b db' h. ground (arith, h))

  pub modify-Keeps : (f : Db → Db) → ((db : Db) → P db → P (f db)) → Keeps P (modify f)
  modify-Keeps f k db a db' h v = subst P (ground (arith, h)) (k db v)

  pub transaction-Keeps :
      {A : Type 0} (m : Tx A) → Keeps P m → (db : Db) → P db → P (transaction m db).0
  transaction-Keeps m k db v = transaction_keeps P m db v (λ a db' h. k db a db' h v)

module _ {A B : Type 0} (Q : Type 0) where
  -- A bind that succeeded, taken apart for a goal.
  pub bind-elim :
      (m : Tx A) (f : A → Tx B) (db : Db) (b : B) (db'' : Db)
      → (m >>= f) db ≡ ok (b, db'')
      → ((a : A) (db' : Db) → m db ≡ ok (a, db') → f a db' ≡ ok (b, db'') → Q)
      → Q
  bind-elim m f db b db'' h k = let (a, db', e, g) = bind-ok m f db b db'' h in k a db' e g

pub transaction-ok :
    {A : Type 0} (m : Tx A) (db db' : Db) (a : A)
    → transaction m db ≡ (db', ok a)
    → m db ≡ ok (a, db')
transaction-ok {A} m db db' a h = go (m db) refl
  where
    go : (r : Result (A × Db)) → m db ≡ r → m db ≡ ok (a, db')
    go (ok (b, d)) e = ground (arith, e, h)
    go (err x) e = absurd (ground (arith, e, h))

pub guard-ok :
    (b : Bool) (e : Error) (db : Db) (u : Unit {0}) (db' : Db)
    → guard b e db ≡ ok (u, db')
    → (b ≡ true) × (db ≡ db')
guard-ok true e db u db' h = (refl, ground (arith, h))
guard-ok false e db u db' h = absurd (ground (arith, h))

pub gets-ok :
    {A : Type 0} (f : Db → A) (db : Db) (a : A) (db' : Db)
    → gets f db ≡ ok (a, db')
    → (f db ≡ a) × (db ≡ db')
gets-ok f db a db' h = (ground (arith, h), ground (arith, h))

pub pure-ok :
    {A : Type 0} (a : A) (db : Db) (b : A) (db' : Db)
    → pure a db ≡ ok (b, db')
    → (a ≡ b) × (db ≡ db')
pure-ok a db b db' h = (ground (arith, h), ground (arith, h))

-- A transaction fails with the database as it was, or gives the next one.
pub transaction-cases :
    {A : Type 0} (m : Tx A) (db : Db)
    → ((e : Error) × (transaction m db ≡ (db, err e)))
      ⊎ ((a : A) × (db' : Db) × (transaction m db ≡ (db', ok a)))
transaction-cases {A} m db = go (m db)
  where
    go :
        (r : Result (A × Db))
        → ((e : Error) × (committed db r ≡ (db, err e)))
          ⊎ ((a : A) × (db' : Db) × (committed db r ≡ (db', ok a)))
    go (ok (a, d)) = inr (a, d, refl)
    go (err e) = inl (e, refl)
