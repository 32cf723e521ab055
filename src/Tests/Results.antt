-- ===== src/Tests/Results.antt =====
-- Records of results and cursors at concrete inputs.
use mailproof.Base.{
  ℕ, ◌+◌, ◌≡◌, ◌≢◌, ◌≤◌, ◌<◌, refl, String, List, [], ◌∷◌, Option, none, some, unix, arith, any_row,
  find_row,
}
use mailproof.Database.{Db, ok}
use mailproof.Budget.Limits.{pos}
use mailproof.Results.Cursors.{
  Codec, Cursor, IsLawful, new_cursor, cursor_for, parse_cursor, parse-cursor_for, day,
}
use mailproof.Results.Records.{
  Record, is_complete, campaign_eligible, insert_result, insert_entry, add_result, insert_record,
  insert_record_statements,
}
use mailproof.Results.Conflicts.{insert_record_again}
use mailproof.Tests.Samples.{two_runs, at}

-- A codec of the cursors of one run.
abbrev tag : List ℕ
tag =
    1 ∷ 2 ∷ 3 ∷ 4 ∷ 5 ∷ 6 ∷ 7 ∷ 8 ∷ 1 ∷ 2 ∷ 3 ∷ 4 ∷ 5 ∷ 6 ∷ 7 ∷ 8 ∷ 1 ∷ 2 ∷ 3 ∷ 4 ∷ 5 ∷ 6 ∷ 7 ∷ 8
    ∷ 1 ∷ 2 ∷ 3 ∷ 4 ∷ 5 ∷ 6 ∷ 7 ∷ 8 ∷ []

abbrev decoded : List ℕ → Option Cursor
decoded (a ∷ e ∷ []) = some (record { occurred_at = a; id = "r1"; expires_at = e; kind = "result" })
decoded _ = none

abbrev codec : Codec
codec = record {
  encode = λ (c : Cursor). c.occurred_at ∷ c.expires_at ∷ [];
  decode = decoded;
  hmac = λ key text. tag;
  base64 = λ b. "a cursor";
  unbase64 = λ s. some (50 ∷ 86500 ∷ tag);
}

abbrev of_results : String
of_results = "result"

codec-IsLawful : IsLawful codec (9 ∷ []) (new_cursor of_results "r1" (at 50) (at 100))
unfolding unix
codec-IsLawful = record {
  decode-encode = refl;
  encode_pos = omega arith;
  length-hmac = refl;
  unbase64-base64 = refl;
}

parse-cursor_for_example :
    (of_results ≡ of_results
      → unix (at 200) ≤ unix (at 100 + day)
      → parse_cursor codec
          (9 ∷ [])
          of_results
          (cursor_for codec (9 ∷ []) of_results "r1" (at 50) (at 100))
          (at 200)
        ≡ some (new_cursor of_results "r1" (at 50) (at 100)))
    × (of_results ≢ of_results
        → parse_cursor codec
            (9 ∷ [])
            of_results
            (cursor_for codec (9 ∷ []) of_results "r1" (at 50) (at 100))
            (at 200)
          ≡ none)
    × (unix (at 100 + day) < unix (at 200)
        → parse_cursor codec
            (9 ∷ [])
            of_results
            (cursor_for codec (9 ∷ []) of_results "r1" (at 50) (at 100))
            (at 200)
          ≡ none)
parse-cursor_for_example =
    parse-cursor_for codec (9 ∷ []) of_results of_results "r1" (at 50) (at 100) (at 200)
      codec-IsLawful refl

abbrev phishing : Record
phishing = record {
  run_id = "r1";
  delivery_id = "d1";
  submitter_id = "alice";
  verdict = "FAILED";
  policy_version = "p1";
  schema_version = "v1";
  auth_scope = "outer";
  occurred_at = some (at 40);
  selected_subject_status = "selected";
  risk_summary = "high";
  category_summary = "phishing";
  unavailable_analyzers = pos 0;
  manifest_digest = "d0";
  manifest_path = "runs/r1";
  source_artifact_digests = "a0";
}

abbrev inserted : Db
inserted = (insert_record phishing (at 60) two_runs).0

insert_run : insert_record phishing (at 60) two_runs ≡ (inserted, ok tt)
unfolding insert_record insert_record_statements is_complete add_result insert_result insert_entry
    campaign_eligible any_row find_row unix
insert_run = refl

-- Another summary is accepted, and the first one stays.
insert_record_again_example :
    insert_record (record phishing { risk_summary = "low" }) (at 70) inserted ≡ (inserted, ok tt)
unfolding is_complete
insert_record_again_example =
    insert_record_again phishing (record phishing { risk_summary = "low" }) (at 60) (at 70) two_runs
      inserted insert_run refl refl
