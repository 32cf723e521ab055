-- ===== src/Tests/Verdicts.antt =====
-- Verdicts, adapters and their buffers at concrete inputs.
use mailproof.Base.{
  ℕ, ◌+◌, ◌≡◌, ◌↔◌, refl, String, true, false, not, ◌&&◌, List, [], ◌∷◌, count_rows, str_eq, take,
  length, ltb, any_row, is_empty,
}
use mailproof.Evidence.Records.{
  Evidence, Contradiction, CapabilityStatus, Authority, AuthScope, VerdictCategory,
}
use mailproof.Evidence.Policy.{decide, canonical, convicts, misbehaves, lacks_result}
use mailproof.Evidence.Rulings.{Passing, decide_verified, decide_malicious}
use mailproof.Evidence.Citations.{times, cited, decide_citations}
use mailproof.Evidence.Canonical.{IsSorted, decide-canonical}
use mailproof.Evidence.Runner.{Command, Process, Ending, run, write, write_all, empty_buffer}
use mailproof.Evidence.Output.{joined, Observes, write_all_lem, run_observed}
use mailproof.Evidence.Provenance.{ForwardingMode, classify_forwarding, list_rewrite}
use mailproof.Evidence.Forwarding.{classify_forwarding_lem}

abbrev record_of : String → String → CapabilityStatus → Authority → Evidence
record_of id category status authority = record {
  id = id;
  category = category;
  adapter = "adapter";
  subject_digest = "subject";
  value = [];
  status = status;
  authority = authority;
  error = [];
}

abbrev dkim : Evidence
dkim = record_of "dkim" "authentication" CapabilityStatus.observed Authority.strong

abbrev clam : Evidence
clam = record_of "clam" "malware" CapabilityStatus.observed Authority.authoritative

abbrev lure : Evidence
lure = record_of "lure" "behavior" CapabilityStatus.observed Authority.weak

abbrev dns_down : Evidence
dns_down = record_of "dns" "dns" CapabilityStatus.failed Authority.supporting

abbrev mismatch : Contradiction
mismatch = record { id = "x"; evidence_ids = []; reason = "r"; material = true }

decide_verified_example :
    ((decide AuthScope.local_ingress (dkim ∷ []) []).category ≡ VerdictCategory.verified)
    ↔ Passing (dkim ∷ []) []
decide_verified_example = decide_verified AuthScope.local_ingress (dkim ∷ []) []

decide_malicious_example :
    ((decide AuthScope.detached (clam ∷ dkim ∷ []) []).category ≡ VerdictCategory.known_malicious)
    ↔ (any_row convicts (clam ∷ dkim ∷ []) ≡ true)
decide_malicious_example = decide_malicious AuthScope.detached (clam ∷ dkim ∷ []) []

decide_citations_example :
    let v = decide AuthScope.detached (lure ∷ clam ∷ dns_down ∷ []) (mismatch ∷ []) in
    (times "clam" v.support
      ≡ cited "clam" convicts (lure ∷ clam ∷ dns_down ∷ [])
        + cited "clam" misbehaves (lure ∷ clam ∷ dns_down ∷ []))
    × (times "clam" v.unavailable ≡ cited "clam" lacks_result (lure ∷ clam ∷ dns_down ∷ []))
    × (times "clam" v.contradictions
        ≡ count_rows (λ (c : Contradiction). c.material && str_eq "clam" c.id) (mismatch ∷ []))
decide_citations_example =
    decide_citations AuthScope.detached (lure ∷ clam ∷ dns_down ∷ []) (mismatch ∷ []) "clam"

decide-canonical_example :
    let v = decide AuthScope.detached (lure ∷ clam ∷ dns_down ∷ []) (mismatch ∷ []) in
    IsSorted v.support
    × IsSorted v.contradictions
    × IsSorted v.unavailable
    × IsSorted v.rules
    × (canonical v ≡ v)
decide-canonical_example =
    decide-canonical AuthScope.detached (lure ∷ clam ∷ dns_down ∷ []) (mismatch ∷ [])

write_all_example :
    ((write_all (empty_buffer 3) ((1 ∷ 2 ∷ []) ∷ (3 ∷ 4 ∷ []) ∷ [])).b
      ≡ take 3 (joined ((1 ∷ 2 ∷ []) ∷ (3 ∷ 4 ∷ []) ∷ [])))
    × ((write_all (empty_buffer 3) ((1 ∷ 2 ∷ []) ∷ (3 ∷ 4 ∷ []) ∷ [])).hit
        ≡ ltb 3 (length (joined ((1 ∷ 2 ∷ []) ∷ (3 ∷ 4 ∷ []) ∷ []))))
write_all_example = write_all_lem 3 ((1 ∷ 2 ∷ []) ∷ (3 ∷ 4 ∷ []) ∷ [])

abbrev scan : Command
scan = record { path = "/usr/bin/scan"; timeout = 5; stdout_limit = 4; stderr_limit = 4 }

abbrev scanned : Process
scanned = record {
  stdout_writes = (1 ∷ 2 ∷ []) ∷ [];
  stderr_writes = [];
  timed_out = false;
  ending = Ending.success;
}

abbrev digest_text : List ℕ → String
digest_text bytes = "digest"

run_observed_example :
    ((run digest_text ("/usr/bin/scan" ∷ []) scan scanned).status ≡ CapabilityStatus.observed)
    ↔ Observes
        ("/usr/bin/scan" ∷ [])
        scan
        scanned
        (run digest_text ("/usr/bin/scan" ∷ []) scan scanned)
run_observed_example = run_observed digest_text ("/usr/bin/scan" ∷ []) scan scanned

run_test : (run digest_text ("/usr/bin/scan" ∷ []) scan scanned).status ≡ CapabilityStatus.observed
unfolding run write_all write any_row
run_test = refl

abbrev hops : List String
hops = "by a" ∷ "by b; List-Id: l" ∷ []

classify_forwarding_example :
    let p = classify_forwarding hops false "" in
    let trusted = false && not (is_empty "") in
    (p.received ≡ hops)
    × (length p.reasons ≡ 1)
    × (p.arc_trusted ≡ trusted)
    × ((p.mode ≡ ForwardingMode.mfef_like) ↔ ((ltb 1 (length hops) && trusted) ≡ true))
    × ((p.mode ≡ ForwardingMode.rem_modified_like)
        ↔ ((ltb 1 (length hops) && not trusted && any_row list_rewrite hops) ≡ true))
classify_forwarding_example = classify_forwarding_lem hops false ""
