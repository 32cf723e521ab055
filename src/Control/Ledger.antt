-- ===== src/Control/Ledger.antt =====
-- internal/control: versions, commands and audit events are one ledger.
use mailproof.Base.{
  ℕ, ◌+◌, ◌≡◌, refl, List, [], ◌∷◌, ◌++◌, Option, some, none, arith, subst, sym, ◌∙◌, ap,
  Option-cases, inl, inr, unix, ◌⊎◌, ◌<◌,
}
use mathlib.Core.List.{append_assoc, append-nil}
use mailproof.Database.{Db, PolicyVersion, ControlCommand, AuditEvent}
use mailproof.Control.Commands.{Parsers}
use mailproof.Control.Effective.{Crypto}
use mailproof.Control.Statements.{newest}
use mailproof.Control.Service.{Service}
use mailproof.Control.Steps.{version_row, command_row, audit_row}
use mailproof.Control.History.{
  Call, performs, perform, perform-Effect, Effect, nothing, one_preview, one_confirmation,
}

-- One entry: the version n + 1, the command that made it, and its audit event.
abbrev pub Entry : ℕ → PolicyVersion → ControlCommand → AuditEvent → Type 0
Entry n v c a =
    (v.version ≡ n + 1)
    × (c.expected_version ≡ n)
    × (c.result_version ≡ n + 1)
    × (v.command_id ≡ c.command_id)
    × (v.digest ≡ c.command_digest)
    × (a.command_id ≡ c.command_id)
    × (a.command_type ≡ c.command_type)
    × (a.after_digest ≡ v.digest)

-- The entries after version n, in their order.
abbrev pub Entries : ℕ → List PolicyVersion → List ControlCommand → List AuditEvent → Type 0
Entries n [] [] [] = Unit
Entries n (v ∷ vs) (c ∷ cs) (a ∷ as') = Entry n v c a × Entries (n + 1) vs cs as'
Entries n _ _ _ = ⊥

take_last :
    (w : PolicyVersion) (vs : List PolicyVersion) (v : PolicyVersion)
    → newest (vs ++ v ∷ []) ≡ some v.version
    → w.version < v.version
    → newest (w ∷ (vs ++ v ∷ [])) ≡ some v.version
unfolding newest
take_last w vs v h lt = ground (arith, h, lt)

abbrev Above : List PolicyVersion → PolicyVersion → Type 0
Above vs v = (newest vs ≡ none) ⊎ ((n : ℕ) × (newest vs ≡ some n) × (n < v.version))

least :
    (w : PolicyVersion) (vs : List PolicyVersion) (v : PolicyVersion)
    → newest vs ≡ none
    → Above (w ∷ vs) v
    → w.version < v.version
unfolding newest
least w vs v e (inl h) = absurd (ground (arith, e, h))
least w vs v e (inr (n, h, lt)) = ground (arith, e, h, lt)

least_both :
    (w : PolicyVersion) (vs : List PolicyVersion) (v : PolicyVersion) (m : ℕ)
    → newest vs ≡ some m
    → Above (w ∷ vs) v
    → (w.version < v.version) × (m < v.version)
unfolding newest
least_both w vs v m e (inl h) = absurd (ground (arith, e, h))
least_both w vs v m e (inr (n, h, lt)) = (ground (arith, e, h, lt), ground (arith, e, h, lt))

-- A version above all others is the newest.
newest-above :
    (vs : List PolicyVersion) (v : PolicyVersion)
    → (newest vs ≡ none) ⊎ ((n : ℕ) × (newest vs ≡ some n) × (n < v.version))
    → newest (vs ++ v ∷ []) ≡ some v.version
unfolding newest
newest-above [] v h = refl
newest-above (w ∷ vs) v h = elim (Option-cases (newest vs)) [
  | inl e ↦ take_last w vs v (newest-above vs v (inl e)) (least w vs v e h)
  | inr (m, e) ↦
      let both = least_both w vs v m e h in
      take_last w vs v (newest-above vs v (inr (m, e, both.1))) both.0
]

-- The tables of the ledger grow by entries after version n, and keep what they hold.
abbrev pub Extends : ℕ → Db → Db → Type 0
Extends n db db' =
    (vs : List PolicyVersion) × (cs : List ControlCommand) × (as' : List AuditEvent)
    × (db'.policy_versions ≡ db.policy_versions ++ vs)
    × (db'.control_commands ≡ db.control_commands ++ cs)
    × (db'.audit_events ≡ db.audit_events ++ as')
    × Entries n vs cs as'

Extends-same :
    (n : ℕ) (db mid db' : Db)
    → mid.policy_versions ≡ db.policy_versions
    → mid.control_commands ≡ db.control_commands
    → mid.audit_events ≡ db.audit_events
    → Extends n mid db'
    → Extends n db db'
Extends-same n db mid db' p q r (vs, cs, as', v, c, a, e) = (
  vs,
  cs,
  as',
  v ∙ ap (λ (z : List PolicyVersion). z ++ vs) p,
  c ∙ ap (λ (z : List ControlCommand). z ++ cs) q,
  a ∙ ap (λ (z : List AuditEvent). z ++ as') r,
  e,
)

-- Rows that follow one more row.
follow : {A : Type 0} (xs ys zs : List A) (x : A) → ys ≡ xs ++ (x ∷ []) → ys ++ zs ≡ xs ++ (x ∷ zs)
follow xs ys zs x h = ap (λ t. t ++ zs) h ∙ append_assoc xs (x ∷ []) zs

some-inj : {m n : ℕ} → ◌≡◌ {A = Option ℕ} (some m) (some n) → m ≡ n
some-inj h = cc

module _ (l : Parsers) (k : Crypto) (s : Service) where
  Effect-Extends :
      (db mid db' : Db) (n : ℕ)
      → Effect l k s db mid
      → newest db.policy_versions ≡ some n
      → ((m : ℕ) → newest mid.policy_versions ≡ some m → Extends m mid db')
      → Extends n db db'
  Effect-Extends db mid db' n (nothing same) h rest =
      Extends-same n db mid db' (ap (λ (z : Db). z.policy_versions) (sym same))
        (ap (λ (z : Db). z.control_commands) (sym same))
        (ap (λ (z : Db). z.audit_events) (sym same))
        (rest n (ap (λ (z : Db). newest z.policy_versions) (sym same) ∙ h))
  Effect-Extends db mid db' n (one_preview session c now p e) h rest =
      Extends-same n db mid db' (ap (λ (z : Db). z.policy_versions) (sym e.written))
        (ap (λ (z : Db). z.control_commands) (sym e.written))
        (ap (λ (z : Db). z.audit_events) (sym e.written))
        (rest n (ap (λ (z : Db). newest z.policy_versions) (sym e.written) ∙ h))
  Effect-Extends db mid db' n (one_confirmation x now a (t, current, e)) h rest =
      let same : current ≡ n = some-inj (sym e.up_to_date.is_newest ∙ h) in
      let v = version_row t current (unix now) in
      let above = newest-above db.policy_versions v (inr (n, h, omega (arith, same))) in
      let (vs, cs, as', p, q, r, es) = rest (current + 1) (ap newest e.versions ∙ above) in
      (
        v ∷ vs,
        command_row t current (unix now) ∷ cs,
        audit_row t (unix now) ∷ as',
        p ∙ follow db.policy_versions mid.policy_versions vs v e.versions,
        q
            ∙ follow db.control_commands mid.control_commands cs (command_row t current (unix now))
                e.commands,
        r ∙ follow db.audit_events mid.audit_events as' (audit_row t (unix now)) e.audits,
        (
          (
            ap (λ (z : ℕ). z + 1) same,
            same,
            ap (λ (z : ℕ). z + 1) same,
            refl,
            refl,
            refl,
            refl,
            refl,
          ),
          subst (λ (z : ℕ). Entries (z + 1) vs cs as') same es,
        ),
      )

  -- Previews and confirmations only append to the ledger. Where a policy has a newest version n, the
  -- versions, commands and audit events that any history adds are as many, in one order: the versions
  -- are n + 1, n + 2 and so on, the command at the place of a version expected the one before it,
  -- resulted in it and has its identifier and digest, and the audit event there is of that command and
  -- has the digest of that version.
  pub performs-Extends :
      (cs : List Call) (db : Db) (n : ℕ)
      → newest db.policy_versions ≡ some n
      → Extends n db (performs l k s cs db)
  unfolding performs
  performs-Extends [] db n h = (
    [],
    [],
    [],
    sym (append-nil db.policy_versions),
    sym (append-nil db.control_commands),
    sym (append-nil db.audit_events),
    tt,
  )
  performs-Extends (c ∷ cs) db n h =
      Effect-Extends db (perform l k s c db) (performs l k s cs (perform l k s c db)) n
        (perform-Effect l k s c db) h (λ m g. performs-Extends cs (perform l k s c db) m g)
