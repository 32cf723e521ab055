-- ===== src/Tests/Boundaries.antt =====
-- Budgets and correlation at concrete inputs.
use mailproof.Base.{
  ◌≡◌, ◌↔◌, some, refl, String, true, not, ◌&&◌, ◌==◌, List, [], ◌∷◌, any_row, count_rows, find_row,
  str_eq, is_empty, split,
}
use mailproof.Budget.Limits.{IsSound, default, validate, validate_lem}
use mailproof.Ingress.Correlation.{
  correlate, correlate_lem, queue_id_of, names_queue, log_token, last_value, words, correlated,
}

validate_lem_example : IsSound default
unfolding validate any_row
validate_lem_example = validate_lem default refl

abbrev message : String
message = "Received: by postfix.mailproof.test id=Q1 for x\n\nbody"

abbrev log : List String
log = "queue_id=Q1 token=t1" ∷ "queue_id=Q2 token=t2" ∷ []

abbrev hash : String → String
hash text = text

correlate_lem_example :
    let id = queue_id_of (split 10 message) in
    let r = correlate hash message log ("t1" ∷ []) in
    ((r.status ≡ correlated) ↔ (
      (not (is_empty id)
        && (count_rows (names_queue id) log == 1)
        && any_row (str_eq (log_token id log "")) ("t1" ∷ []))
      ≡ true))
    × (r.status ≡ correlated
        → (line : String) × (find_row (names_queue id) log ≡ some line)
          × (r.token_hash ≡ hash (last_value "token=" (words line) "")))
correlate_lem_example = correlate_lem hash message log ("t1" ∷ [])
