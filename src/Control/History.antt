-- ===== src/Control/History.antt =====
-- internal/control: histories of previews and confirmations.
use mailproof.Base.{ℕ, ◌≡◌, ◌⊎◌, inl, inr, String, List, [], ◌∷◌, Option, subst, sym, ap}
use mailproof.Database.{Db, Result, Error, ok, err}
use mailproof.Database.Laws.{transaction-cases}
use mailproof.Control.Commands.{Parsers, Command}
use mailproof.Control.Effective.{Crypto}
use mailproof.Control.Service.{
  Service, Confirmation, Applied, Preview, preview, confirm, preview_statements, confirm_statements,
}
use mailproof.Control.Confirming.{Confirms, confirm_lem}
use mailproof.Control.Previewing.{Previewed, preview_lem}

-- A call with its time and what the random sources give.
pub data Call : Type 0 where
  previews : String → Command → ℕ → Option String → Call
  confirms : Confirmation → ℕ → String → Option String → Call

module _ (l : Parsers) (k : Crypto) (s : Service) where
  unfoldable pub perform : Call → Db → Db
  perform (previews session c now token_bytes) db = (preview l k s session c now token_bytes db).0
  perform (confirms x now rule_id id_bytes) db = (confirm l k s x now rule_id id_bytes db).0

  unfoldable pub performs : List Call → Db → Db
  unfolding perform
  performs [] db = db
  performs (c ∷ cs) db = performs cs (perform c db)

  -- What a call does to the database.
  pub data Effect (db : Db) (db' : Db) : Type 0 where
    nothing : db ≡ db' → Effect db db'
    one_preview :
        (session : String) (c : Command) (now : ℕ) (p : Preview)
        → Previewed l k s session c now db db' p
        → Effect db db'
    one_confirmation :
        (x : Confirmation) (now : ℕ) (a : Applied) → Confirms k s x now db db' a → Effect db db'

  pub confirm-cases :
      (x : Confirmation) (now : ℕ) (rule_id : String) (id_bytes : Option String) (db : Db)
      → ((e : Error) × (confirm l k s x now rule_id id_bytes db ≡ (db, err e)))
        ⊎ ((a : Applied) × (db' : Db) × (confirm l k s x now rule_id id_bytes db ≡ (db', ok a)))
  unfolding confirm
  confirm-cases x now rule_id id_bytes db =
      transaction-cases (confirm_statements l k s x now rule_id id_bytes) db

  preview-cases :
      (session : String) (c : Command) (now : ℕ) (token_bytes : Option String) (db : Db)
      → ((e : Error) × (preview l k s session c now token_bytes db ≡ (db, err e)))
        ⊎ ((p : Preview) × (db' : Db) × (preview l k s session c now token_bytes db ≡ (db', ok p)))
  unfolding preview
  preview-cases session c now token_bytes db =
      transaction-cases (preview_statements l k s session c now token_bytes) db

  pub perform-Effect : (c : Call) (db : Db) → Effect db (perform c db)
  unfolding perform
  perform-Effect (previews session c now token_bytes) db =
      elim (preview-cases session c now token_bytes db) [
        | inl (e, h) ↦ nothing (sym (ap (λ (z : Db × Result Preview). z.0) h))
        | inr (p, db', h) ↦ one_preview session c now p (
            subst (λ (z : Db). Previewed l k s session c now db z p)
              (sym (ap (λ (z : Db × Result Preview). z.0) h))
              (preview_lem l k s session c now token_bytes db db' p h))
      ]
  perform-Effect (confirms x now rule_id id_bytes) db =
      elim (confirm-cases x now rule_id id_bytes db) [
        | inl (e, h) ↦ nothing (sym (ap (λ (z : Db × Result Applied). z.0) h))
        | inr (a, db', h) ↦ one_confirmation x now a (
            subst (λ (z : Db). Confirms k s x now db z a)
              (sym (ap (λ (z : Db × Result Applied). z.0) h))
              (confirm_lem l k s x now rule_id id_bytes db db' a h))
      ]
