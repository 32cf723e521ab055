-- ===== src/Control/Once.antt =====
-- internal/control: a confirmation token is used once.
use mailproof.Base.{
  ℕ, ◌≡◌, refl, String, Bool, true, false, List, [], ◌∷◌, ◌++◌, Option, none, some, arith, inl, inr,
  subst, sym, ◌∙◌, ap, any_row, find_row, update_rows, any_row-append, any_row-update, unix,
  str_eq_iff, Bool-cases, true_ne_false,
}
use mailproof.Database.{Db, Error, ok, err, ConfirmationToken}
use mailproof.Control.Commands.{Parsers}
use mailproof.Control.Effective.{Crypto}
use mailproof.Control.Statements.{has_token, open_token, spent}
use mailproof.Control.Service.{Service, Confirmation, Applied, mac, confirm, new_token}
use mailproof.Control.Confirming.{confirm_lem}
use mailproof.Control.History.{
  Call, performs, perform, perform-Effect, Effect, nothing, one_preview, one_confirmation,
  confirm-cases,
}

-- The token is there, and spent.
abbrev Spent : String → List ConfirmationToken → Type 0
Spent digest ts = (any_row (has_token digest) ts ≡ true) × (any_row (open_token digest) ts ≡ false)

module _ {A : Type 0} where
  still_none :
      (q p : A → Bool) (f : A → A) (xs : List A)
      → ((x : A) → q (f x) ≡ false)
      → any_row q xs ≡ false
      → any_row q (update_rows p f xs) ≡ false
  unfolding any_row update_rows
  still_none q p f [] k h = refl
  still_none q p f (x ∷ xs) k h = ground (arith, k x, still_none q p f xs k)

  none_left :
      (q : A → Bool) (f : A → A) (xs : List A)
      → ((x : A) → q (f x) ≡ false)
      → any_row q (update_rows q f xs) ≡ false
  unfolding any_row update_rows
  none_left q f [] k = refl
  none_left q f (x ∷ xs) k = elim (Bool-cases (q x)) [
    | inl e ↦ rw e (ground (arith, k x, none_left q f xs k))
    | inr e ↦ rw (e, e) (none_left q f xs k)
  ]

open-spent :
    (digest : String) (now : ℕ) (t : ConfirmationToken) → open_token digest (spent now t) ≡ false
open-spent digest now t = ground arith

update-Spent :
    (digest other : String) (now : ℕ) (ts : List ConfirmationToken)
    → Spent digest ts
    → Spent digest (update_rows (open_token other) (spent now) ts)
update-Spent digest other now ts v = (
  any_row-update (has_token digest) (open_token other) (spent now) ts (λ t. refl) ∙ v.0,
  still_none (open_token digest) (open_token other) (spent now) ts (open-spent digest now) v.1,
)

spend-Spent :
    (digest : String) (now : ℕ) (ts : List ConfirmationToken)
    → any_row (has_token digest) ts ≡ true
    → Spent digest (update_rows (open_token digest) (spent now) ts)
spend-Spent digest now ts h = (
  any_row-update (has_token digest) (open_token digest) (spent now) ts (λ t. refl) ∙ h,
  none_left (open_token digest) (spent now) ts (open-spent digest now),
)

-- A new confirmation has another token.
append-Spent :
    (digest : String) (t : ConfirmationToken) (ts : List ConfirmationToken)
    → any_row (has_token t.token_digest) ts ≡ false
    → Spent digest ts
    → Spent digest (ts ++ t ∷ [])
unfolding any_row
append-Spent digest t ts fresh v = elim (Bool-cases (has_token digest t)) [
  | inl e ↦ absurd (same_absent ((str_eq_iff t.token_digest digest).0 e))
  | inr e ↦ (
    ground (arith, any_row-append (has_token digest) ts (t ∷ []), v.0),
    ground (arith, any_row-append (open_token digest) ts (t ∷ []), v.1, e),
  )
]
  where
    same_absent : t.token_digest ≡ digest → ⊥
    same_absent q =
        true_ne_false (sym v.0 ∙ ap (λ (d : String). any_row (has_token d) ts) (sym q) ∙ fresh)

find_row-any :
    {A : Type 0} (p : A → Bool) (xs : List A) (a : A) → find_row p xs ≡ some a → any_row p xs ≡ true
unfolding find_row any_row
find_row-any p [] a h = absurd (ground (arith, h))
find_row-any p (x ∷ xs) a h = ground (arith, h, find_row-any p xs a)

-- A row that is found is spent where no open one is there.
find-spent :
    (digest : String) (ts : List ConfirmationToken) (t : ConfirmationToken)
    → any_row (open_token digest) ts ≡ false
    → find_row (has_token digest) ts ≡ some t
    → t.consumed_at ≡ none
    → ⊥
unfolding any_row find_row
find-spent digest [] t v h e = ground (arith, h)
find-spent digest (r ∷ ts) t v h e = elim (Bool-cases (has_token digest r)) [
  | inl g ↦
      let same : r ≡ t = ground (arith, g, h) in
      let unspent : r.consumed_at ≡ none = ap (λ (z : ConfirmationToken). z.consumed_at) same ∙ e in
      ground (arith, g, unspent, v)
  | inr g ↦ find-spent digest ts t (ground (arith, g, v)) (ground (arith, g, h)) e
]

module _ (l : Parsers) (k : Crypto) (s : Service) (digest : String) where
  Effect-Spent :
      (db db' : Db)
      → Effect l k s db db'
      → Spent digest db.confirmation_tokens
      → Spent digest db'.confirmation_tokens
  Effect-Spent db db' (nothing same) v =
      subst (λ (z : Db). Spent digest z.confirmation_tokens) same v
  Effect-Spent db db' (one_preview session c now p e) v =
      subst (λ (z : Db). Spent digest z.confirmation_tokens) e.written
        (append-Spent digest
          (new_token k s session c now p.normalized p.confirmation_token p.current_version
            p.before_digest p.after_digest)
          db.confirmation_tokens e.fresh v)
  Effect-Spent db db' (one_confirmation x now a (t, current, e)) v =
      subst (Spent digest) (sym e.tokens)
        (update-Spent digest (mac k s x.confirmation_token) (unix now) db.confirmation_tokens v)

  performs-Spent :
      (cs : List Call) (db : Db)
      → Spent digest db.confirmation_tokens
      → Spent digest (performs l k s cs db).confirmation_tokens
  unfolding performs
  performs-Spent [] db v = v
  performs-Spent (c ∷ cs) db v =
      performs-Spent cs (perform l k s c db)
        (Effect-Spent db (perform l k s c db) (perform-Effect l k s c db) v)

-- A token is used once: after a confirmation that succeeded, and any previews and confirmations, no
-- confirmation with its token succeeds, whatever else it says and whenever it comes, and it changes
-- nothing.
pub confirm_once :
    (l : Parsers) (k : Crypto) (s : Service) (x y : Confirmation) (now later : ℕ)
    (rule_id rule_id' : String) (id_bytes id_bytes' : Option String) (db db' : Db) (a : Applied)
    (cs : List Call)
    → confirm l k s x now rule_id id_bytes db ≡ (db', ok a)
    → y.confirmation_token ≡ x.confirmation_token
    → (e : Error) × (confirm l k s y later rule_id' id_bytes' (performs l k s cs db')
        ≡ (performs l k s cs db', err e))
confirm_once l k s x y now later rule_id rule_id' id_bytes id_bytes' db db' a cs h same =
    let (t, current, e) = confirm_lem l k s x now rule_id id_bytes db db' a h in
    let digest = mac k s x.confirmation_token in
    let after = subst (Spent digest) (sym e.tokens) (
      spend-Spent digest (unix now) db.confirmation_tokens
        (find_row-any (has_token digest) db.confirmation_tokens t e.found)) in
    let v = performs-Spent l k s digest cs db' after in
    let last = performs l k s cs db' in
    elim (confirm-cases l k s y later rule_id' id_bytes' last) [
      | inl r ↦ r
      | inr (b, d, g) ↦
          let (u, c, f) = confirm_lem l k s y later rule_id' id_bytes' last d b g in
          absurd (
            find-spent digest last.confirmation_tokens u v.1
              (ap (λ (z : String). find_row (has_token (mac k s z)) last.confirmation_tokens)
                  (sym same)
                ∙ f.found)
              f.accepted.unspent)
    ]
