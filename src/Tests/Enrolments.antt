-- ===== src/Tests/Enrolments.antt =====
-- Enrolment at concrete inputs.
use mailproof.Base.{
  ◌≡◌, ◌≤◌, refl, String, true, List, [], ◌∷◌, none, some, count_rows, any_row, update_rows, unix,
  join, any_char, count_char, cut, contains, to_lower, find_row,
}
use mailproof.Database.{Db, Submitter, Status, active, revoked, ok, err, unique_violation, Result}
use mailproof.Submitters.Address.{Libraries, canonical_address, canonical_parts}
use mailproof.Submitters.Statements.{
  insert_submitter, insert_challenge, insert_capability, move_submitter, has_address, live_for,
  is_from, withdrawn,
}
use mailproof.Submitters.Service.{
  Service, Mail, ChallengeResult, Activation, challenge, challenge_statements, activate,
  activate_statements, revoke, enlist, digest, newest_pending, newest_usable, challenged,
}
use mailproof.Submitters.Preservation.{Call, performs, performs_singletons}
use mailproof.Submitters.Enrolment.{Activates, Mailed, activate_lem, challenge_mails}
use mailproof.Base.{inl, inr}
use mailproof.Submitters.Revocation.{revoke_lem, RevokedToo}
use mailproof.Tests.Samples.{empty_db, at}

abbrev libraries : Libraries
libraries = record {
  parse_address = λ a. some a;
  to_ascii = λ d. some d;
  hmac = λ key text. join "hmac " text;
}

abbrev service : Service
service = record {
  has_mailer = true;
  capability_key = "0123456789abcdef0123456789abcdef";
  capability_key_id = "k1";
  domain = "proof.example";
}

abbrev asked : Db × List Mail × Result ChallengeResult
asked =
    challenge libraries service "a@x.org" (at 100) (some "c1") (some "code") (some "s1") true
      empty_db

abbrev entered : Db × Result Activation
entered = activate libraries service "a@x.org" "code" (at 200) (some "secret") (some "p1") asked.0

abbrev reply : ChallengeResult
reply = record { id = "c1"; submitter_id = "s1"; address = "a@x.org"; expires_at = at 1000 }

asked_lem : asked ≡ (asked.0, record { recipient = "a@x.org"; code = "code" } ∷ [], ok reply)
unfolding challenge challenge_statements enlist insert_submitter insert_challenge digest
    canonical_address any_char count_char cut contains to_lower any_row newest_pending unix
    canonical_parts
asked_lem = refl

challenge_mails_example :
    Mailed libraries service "a@x.org"
      (at 100)
      empty_db
      asked.0
      (record { recipient = "a@x.org"; code = "code" })
challenge_mails_example =
    challenge_mails libraries service "a@x.org" (at 100) (some "c1") (some "code") (some "s1") true
      empty_db asked.0 (record { recipient = "a@x.org"; code = "code" }) [] (ok reply) asked_lem

abbrev entered_as : Activation
entered_as = record {
  submitter = record {
    submitter_id = "s1";
    canonical_address = "a@x.org";
    status = active;
    created_at = 100;
    verified_at = some 200;
    revoked_at = none;
    policy_version = "v1";
    minute_limit = 5;
    hour_limit = 30;
    day_limit = 100;
  };
  submission_address = "verify+secret@proof.example";
}

entered_lem : entered ≡ (entered.0, ok entered_as)
unfolding challenge challenge_statements enlist insert_submitter insert_challenge digest
    canonical_address any_char count_char cut contains to_lower any_row newest_pending unix
    canonical_parts activate activate_statements challenged newest_usable find_row update_rows
    move_submitter insert_capability
entered_lem = refl

activate_lem_example :
    Activates libraries service "a@x.org" "code"
      (at 200)
      (some "secret")
      asked.0
      entered.0
      entered_as
activate_lem_example =
    activate_lem libraries service "a@x.org" "code" (at 200) (some "secret") (some "p1") asked.0
      entered.0 entered_as entered_lem

abbrev calls : List Call
calls =
    Call.challenges "a@x.org" (at 100) (some "c1") (some "code") (some "s1") true
    ∷ Call.activates "a@x.org" "code" (at 200) (some "secret") (some "p1")
    ∷ Call.rotates "s1" (at 250) (some "secret2") (some "p2")
    ∷ Call.revokes "s1" (at 300)
    ∷ []

performs_singletons_example :
    (count_rows
        (has_address "a@x.org" active)
        (performs libraries service calls empty_db).submitters
      ≤ 1)
    × (count_rows
          (has_address "a@x.org" revoked)
          (performs libraries service calls empty_db).submitters
        ≤ 1)
    × (count_rows (live_for "s1") (performs libraries service calls empty_db).capabilities ≤ 1)
performs_singletons_example =
    performs_singletons libraries service calls empty_db "s1" "a@x.org"
      (record { submitters_unique = tt; challenges_unique = tt; capabilities_unique = tt })

abbrev enrolled : String → Status → Submitter
enrolled id status = record {
  submitter_id = id;
  canonical_address = "a@x.org";
  status = status;
  created_at = 1;
  verified_at = some 2;
  revoked_at = none;
  policy_version = "v1";
  minute_limit = 5;
  hour_limit = 30;
  day_limit = 100;
}

-- The address was enrolled, revoked, and enrolled again.
abbrev twice : Db
twice = record empty_db { submitters = enrolled "s1" revoked ∷ enrolled "s2" active ∷ [] }

revoke_lem_example :
    (RevokedToo (enrolled "s2" active) twice
      → revoke "s2" (at 9) twice ≡ (twice, err unique_violation))
    × ((RevokedToo (enrolled "s2" active) twice → ⊥)
        → revoke "s2" (at 9) twice ≡ (
          record twice {
            submitters =
                update_rows (is_from "s2" active) (withdrawn (unix (at 9))) twice.submitters;
          },
          ok tt,
        ))
unfolding any_row
revoke_lem_example =
    revoke_lem (enrolled "s2" active) (at 9) twice
      (record {
        submitters_unique = (refl, (refl, tt));
        challenges_unique = tt;
        capabilities_unique = tt;
      })
      (inr (inl refl)) refl
