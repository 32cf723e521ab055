-- ===== src/Admission/Parsing.antt =====
-- internal/admission/admission.go: which requests ParseRequest accepts.
use mailproof.Base.{
  ◌≤◌, ◌<◌, ◌≡◌, refl, sym, String, true, false, ◌||◌, List, [], ◌∷◌, none, some, arith, Bool-cases,
  Option-cases, inl, inr, subst, str_eq_iff, str_eq, is_empty, any_row, Unique, cut, split, len,
  ltb, str_eq_sym,
}
use mailproof.Admission.Requests.{
  Codecs, Request, parse_lines, parse_request, is_complete, set_attribute, empty_request,
  trim_return, max_attribute,
}

-- The keys of the lines that have one.
abbrev pub line_keys : List String → List String
line_keys [] = []
line_keys (raw ∷ lines) = elim (cut b'=' (trim_return raw)) [
  | none ↦ line_keys lines
  | some (key, value) ↦ key ∷ line_keys lines
]

-- No key of the second list is in the first.
abbrev Fresh : List String → List String → Type 0
Fresh seen [] = Unit
Fresh seen (k ∷ ks) = (any_row (str_eq k) seen ≡ false) × Fresh seen ks

Fresh-tail : (k : String) (seen ks : List String) → Fresh (k ∷ seen) ks → Fresh seen ks
unfolding any_row
Fresh-tail k seen [] h = tt
Fresh-tail k seen (j ∷ ks) h = (ground (arith, h.0), Fresh-tail k seen ks h.1)

Fresh-head :
    (k : String) (seen ks : List String) → Fresh (k ∷ seen) ks → any_row (str_eq k) ks ≡ false
unfolding any_row
Fresh-head k seen [] h = refl
Fresh-head k seen (j ∷ ks) h = ground (arith, h.0, str_eq_sym k j, Fresh-head k seen ks h.1)

abbrev Distinct : List String → List String → Type 0
Distinct seen ks = Fresh seen ks × Unique str_eq ks

line_keys-none :
    (raw : String) (lines : List String)
    → cut b'=' (trim_return raw) ≡ none
    → line_keys (raw ∷ lines) ≡ line_keys lines
line_keys-none raw lines n = rw (n, line_keys) refl

line_keys-some :
    (raw : String) (lines : List String) (key value : String)
    → cut b'=' (trim_return raw) ≡ some (key, value)
    → line_keys (raw ∷ lines) ≡ key ∷ line_keys lines
line_keys-some raw lines key value n = rw (n, line_keys) refl

cut-empty : (line : String) → is_empty line ≡ true → cut b'=' line ≡ none
unfolding cut
cut-empty line h = subst (λ s. cut b'=' s ≡ none) (sym ((str_eq_iff line "").0 h)) refl

parse_lines-Distinct :
    (lines seen : List String) (r0 r : Request)
    → parse_lines lines seen r0 ≡ some r
    → Distinct seen (line_keys lines)
unfolding parse_lines
parse_lines-Distinct [] seen r0 r h = (tt, tt)
parse_lines-Distinct (raw ∷ lines) seen r0 r h = elim (Bool-cases (is_empty (trim_return raw))) [
  | inl e ↦
      subst (Distinct seen) (sym (line_keys-none raw lines (cut-empty (trim_return raw) e)))
        (parse_lines-Distinct lines seen r0 r (rw (e, parse_lines) at h))
  | inr e ↦ elim (Option-cases (cut b'=' (trim_return raw))) [
    | inl n ↦ absurd (ground (arith, rw (e, n, parse_lines) at h))
    | inr ((key, value), n) ↦
        elim (Bool-cases
          (is_empty key || ltb max_attribute (len value) || any_row (str_eq key) seen)) [
            | inl f ↦ absurd (ground (arith, rw (e, n, f, parse_lines) at h))
            | inr f ↦
                let rest =
                  parse_lines-Distinct lines (key ∷ seen) (set_attribute key value r0) r
                    (rw (e, n, f, parse_lines) at h) in
                subst (Distinct seen) (sym (line_keys-some raw lines key value n)) (
                  (ground (arith, f), Fresh-tail key seen (line_keys lines) rest.0),
                  (Fresh-head key seen (line_keys lines) rest.0, rest.1),
                )
          ]
  ]
]

-- A request that is accepted has at most 16384 bytes, no key stands in two of its lines, it is for
-- smtpd_access_policy, it has a protocol state, a sender and a recipient, and its client address is
-- an IP address.
pub parse_request_lem :
    (c : Codecs) (raw : String) (r : Request)
    → parse_request c raw ≡ some r
    → (0 < len raw)
      × (len raw ≤ 16384)
      × Unique str_eq (line_keys (split 10 raw))
      × (r.request_type ≡ "smtpd_access_policy")
      × (is_empty r.protocol_state ≡ false)
      × (is_empty r.sender ≡ false)
      × (is_empty r.recipient ≡ false)
      × (c.is_ip r.client_address ≡ true)
unfolding parse_request
parse_request_lem c raw r h = elim (Option-cases (parse_lines (split 10 raw) [] empty_request)) [
  | inl n ↦ absurd (ground (arith, h, n))
  | inr (q, e) ↦
      let same : q ≡ r = ground (arith, h, e) in
      let done : is_complete c r ≡ true = ground (arith, h, e) in
      (
        ground (arith, h),
        ground (arith, h),
        (parse_lines-Distinct (split 10 raw) [] empty_request q e).1,
        (str_eq_iff r.request_type "smtpd_access_policy").0 (ground (arith, done)),
        ground (arith, done),
        ground (arith, done),
        ground (arith, done),
        ground (arith, done),
      )
]
