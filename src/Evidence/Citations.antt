-- ===== src/Evidence/Citations.antt =====
-- internal/evidence/policy.go: which identifiers a verdict of Decide cites, and how often.
use mailproof.Base.{
  ℕ, ◌+◌, ◌≡◌, refl, ◌∙◌, ap, String, Bool, ◌&&◌, List, [], ◌∷◌, count_rows, arith, if◌then◌else◌,
  str_eq, count_rows-append,
}
use mailproof.Evidence.Records.{Evidence, Contradiction, AuthScope}
use mailproof.Evidence.Policy.{
  Signals, weigh, weigh_all, no_signals, material_ids, decide, place, sort, lacks_result, convicts,
  misbehaves, append_if,
}

abbrev pub times : String → List String → ℕ
times x ids = count_rows (str_eq x) ids

times-place : (x s : String) (ts : List String) → times x (place s ts) ≡ times x (s ∷ ts)
unfolding place count_rows
times-place x s [] = refl
times-place x s (t ∷ ts) = ground (arith, times-place x s ts)

times-sort : (x : String) (ss : List String) → times x (sort ss) ≡ times x ss
unfolding sort count_rows
times-sort x [] = refl
times-sort x (s ∷ ss) =
    times-place x s (sort ss) ∙ ap (λ n. (if str_eq x s then 1 else 0) + n) (times-sort x ss)

-- How many records of evidence that pass the test have the identifier.
unfoldable pub cited : String → (Evidence → Bool) → List Evidence → ℕ
cited x p es = count_rows (λ e. p e && str_eq x e.id) es

times-append_if :
    (x : String) (b : Bool) (id : String) (ids : List String)
    → times x (append_if b id ids) ≡ times x ids + (if b && str_eq x id then 1 else 0)
unfolding count_rows
times-append_if x b id ids = ground (arith, count_rows-append (str_eq x) ids (id ∷ []))

record Cites (x : String) (s t : Signals) (es : List Evidence) : Type 0 where
  pub support :
      times x t.support ≡ times x s.support + (cited x convicts es + cited x misbehaves es)
  pub unavailable : times x t.unavailable_ids ≡ times x s.unavailable_ids + cited x lacks_result es

weigh_all-Cites : (x : String) (s : Signals) (es : List Evidence) → Cites x s (weigh_all s es) es
unfolding weigh_all weigh cited count_rows
weigh_all-Cites x s [] = record { support = omega arith; unavailable = omega arith }
weigh_all-Cites x s (e ∷ es) =
    let c = weigh_all-Cites x (weigh s e) es in
    let inner = times-append_if x (convicts e) e.id s.support in
    let outer = times-append_if x (misbehaves e) e.id (append_if (convicts e) e.id s.support) in
    let missing = times-append_if x (lacks_result e) e.id s.unavailable_ids in
    record {
      support = omega (arith, c.support, inner, outer);
      unavailable = omega (arith, c.unavailable, missing);
    }

times-material_ids :
    (x : String) (cs : List Contradiction)
    → times x (material_ids cs) ≡ count_rows (λ c. c.material && str_eq x c.id) cs
unfolding material_ids count_rows
times-material_ids x [] = refl
times-material_ids x (c ∷ cs) = ground (arith, times-material_ids x cs)

from_nothing : (x : String) (n : ℕ) → times x [] + n ≡ n
unfolding count_rows
from_nothing x n = omega arith

-- A verdict cites every identifier as often as there is a reason to: as support once for each
-- record that is authoritative for malware and once for each observed behaviour, as unavailable once
-- for each record without a result, and as a contradiction once for each material one.
pub decide_citations :
    (scope : AuthScope) (es : List Evidence) (cs : List Contradiction) (x : String)
    → (times x (decide scope es cs).support ≡ cited x convicts es + cited x misbehaves es)
      × (times x (decide scope es cs).unavailable ≡ cited x lacks_result es)
      × (times x (decide scope es cs).contradictions
          ≡ count_rows (λ c. c.material && str_eq x c.id) cs)
unfolding decide
decide_citations scope es cs x =
    let c = weigh_all-Cites x no_signals es in
    (
      times-sort x (weigh_all no_signals es).support ∙ c.support ∙ from_nothing x _,
      times-sort x (weigh_all no_signals es).unavailable_ids ∙ c.unavailable ∙ from_nothing x _,
      times-sort x (material_ids cs) ∙ times-material_ids x cs,
    )
