-- ===== src/Control/Effective.antt =====
-- internal/control/control.go: the effective policy, its digest, and the policy that a command will
-- make. sort.Slice is taken as a stable sort, which it is up to twelve elements.
use mailproof.Base.{
  ℕ, String, Bool, true, ◌&&◌, ◌||◌, ltb, List, [], ◌∷◌, ◌++◌, map, Option, none, some,
  if◌then◌else◌, str_eq, is_empty, join, update_rows, unix, text_less, sort_by, select_rows,
}
use mailproof.Database.{Db, Submitter, Capability, Status, active, revoked, RuleRow}
use mailproof.Submitters.Statements.{is_live}
use mailproof.Budget.Limits.{ℤ, pos, negsuc}
use mailproof.Control.Commands.{
  Payload, Parsers, Operation, operation, disables, quota_change, submitter_suspend,
  submitter_reactivate, capability_rotate, subject_allowlist_put, peer_block_put,
  outer_domain_block_put, subject_domain_block_put,
}

pub record EffectiveRule : Type 0 where
  pub id : String
  pub rule_type : String
  pub subject : String
  pub value : String
  pub expires_at : Option ℕ

pub record EffectiveSubmitter : Type 0 where
  pub id : String
  pub status : Status
  pub minute : ℕ
  pub hour : ℕ
  pub day : ℕ

pub record EffectiveCapability : Type 0 where
  pub submitter_id : String
  pub digest : String

pub record EffectivePolicy : Type 0 where
  pub rules : List EffectiveRule
  pub submitters : List EffectiveSubmitter
  pub capabilities : List EffectiveCapability

-- crypto/hmac with SHA-256, SHA-256 in hexadecimal digits, the two encodings, and json.Marshal of a
-- policy.
pub record Crypto : Type 0 where
  pub hmac : String → String → String
  pub sha256 : String → String
  pub hex : String → String
  pub base64 : String → String
  pub policy_json : EffectivePolicy → String

-- The WHERE of the rules.
abbrev in_force : ℕ → RuleRow → Bool
in_force now r = r.enabled && (elim r.expires_at [ none ↦ true | some t ↦ ltb now t ])

-- An order by one column and then by others.
abbrev then_by : String → String → Bool → Bool
then_by s t rest = text_less s t || (str_eq s t && rest)

abbrev rule_order : RuleRow → RuleRow → Bool
rule_order a b =
    then_by a.rule_type b.rule_type
      (then_by a.subject b.subject (then_by a.value b.value (text_less a.rule_id b.rule_id)))

abbrev submitter_order : Submitter → Submitter → Bool
submitter_order a b = text_less a.submitter_id b.submitter_id

abbrev capability_order : Capability → Capability → Bool
capability_order a b = then_by a.submitter_id b.submitter_id (text_less a.digest b.digest)

abbrev pub effective_rule : RuleRow → EffectiveRule
effective_rule r = record {
  id = r.rule_id;
  rule_type = r.rule_type;
  subject = r.subject;
  value = r.value;
  expires_at = r.expires_at;
}

abbrev pub effective_submitter : Submitter → EffectiveSubmitter
effective_submitter s = record {
  id = s.submitter_id;
  status = s.status;
  minute = s.minute_limit;
  hour = s.hour_limit;
  day = s.day_limit;
}

abbrev effective_capability : Crypto → Capability → EffectiveCapability
effective_capability k c = record { submitter_id = c.submitter_id; digest = k.hex c.digest }

unfoldable pub effective_submitters : List Submitter → List EffectiveSubmitter
effective_submitters rows = map effective_submitter (sort_by submitter_order rows)

-- The state at a time in seconds.
unfoldable pub effective_policy_state : Crypto → ℕ → Db → EffectivePolicy
effective_policy_state k now db = record {
  rules = map effective_rule (sort_by rule_order (select_rows (in_force now) db.policy_rules));
  submitters = effective_submitters db.submitters;
  capabilities =
      map (effective_capability k) (sort_by capability_order (select_rows is_live db.capabilities));
}

abbrev pub rule_key : EffectiveRule → String
rule_key r = join r.rule_type (join r.subject r.value)

abbrev pub rule_less : EffectiveRule → EffectiveRule → Bool
rule_less a b = text_less (rule_key a) (rule_key b)

abbrev pub submitter_less : EffectiveSubmitter → EffectiveSubmitter → Bool
submitter_less a b = text_less a.id b.id

abbrev pub capability_less : EffectiveCapability → EffectiveCapability → Bool
capability_less a b = text_less (join a.submitter_id a.digest) (join b.submitter_id b.digest)

abbrev pub without_id : EffectiveRule → EffectiveRule
without_id r = record r { id = "" }

-- What projectedPolicyDigest leaves in the slices of its argument, which the caller shares: the rules
-- have lost their identifiers, and all are in order.
unfoldable pub ordered : EffectivePolicy → EffectivePolicy
ordered s = record {
  rules = sort_by rule_less (map without_id s.rules);
  submitters = sort_by submitter_less s.submitters;
  capabilities = sort_by capability_less s.capabilities;
}

-- The end of projectedPolicyDigest. With no command it is all that the function does.
unfoldable pub policy_digest : Crypto → EffectivePolicy → String
policy_digest k s = k.sha256 (k.policy_json (ordered s))

-- Validation has refused limits below one.
abbrev pub limit : ℤ → ℕ
limit (pos n) = n
limit (negsuc n) = 0

abbrev pub with_limits : Payload → EffectiveSubmitter → EffectiveSubmitter
with_limits v x = record x {
  minute = limit v.minute_limit;
  hour = limit v.hour_limit;
  day = limit v.day_limit;
}

abbrev pub with_status : Status → EffectiveSubmitter → EffectiveSubmitter
with_status status x = record x { status = status }

abbrev pub is_submitter : String → EffectiveSubmitter → Bool
is_submitter id x = str_eq x.id id

abbrev change_submitter :
    String → (EffectiveSubmitter → EffectiveSubmitter) → EffectivePolicy → EffectivePolicy
change_submitter id f s = record s { submitters = update_rows (is_submitter id) f s.submitters }

-- The first row that matches is cut out.
unfoldable pub remove_first : {A : Type 0} → (A → Bool) → List A → List A
remove_first p [] = []
remove_first p (x ∷ xs) = let rest = remove_first p xs in if p x then xs else x ∷ rest

-- The expiry of a rule: none for an empty text, and else its seconds; the outer `none` is a text that
-- is not a time.
unfoldable pub expiry_of : Parsers → String → Option (Option ℕ)
expiry_of l expiry =
    if is_empty expiry
    then some none
    else elim (l.parse_time expiry) [ none ↦ none | some t ↦ some (some (unix t.nanoseconds)) ]

abbrev put_rule : Parsers → String → Payload → String → EffectivePolicy → Option EffectivePolicy
put_rule l type v subject s =
    if disables v
    then some (record s { rules = remove_first (λ r. str_eq r.id v.rule_id) s.rules })
    else elim (expiry_of l v.expiry) [
      | none ↦ none
      | some expires_at ↦ some (record s {
        rules =
            s.rules
            ++ (record {
              id = "";
              rule_type = type;
              subject = subject;
              value = v.value;
              expires_at = expires_at;
            }
                ∷ []);
      })
    ]

abbrev rotate_capability : Payload → String → EffectivePolicy → Option EffectivePolicy
rotate_capability v digest s =
    if is_empty digest
    then none
    else some (record s {
      capabilities =
          remove_first (λ c. str_eq c.submitter_id v.submitter_id) s.capabilities
          ++ (record { submitter_id = v.submitter_id; digest = digest } ∷ []);
    })

-- The switch of projectedPolicyDigest.
unfoldable pub project :
    Parsers
    → Operation
    → String
    → Payload
    → String
    → String
    → EffectivePolicy
    → Option EffectivePolicy
project l quota_change type v subject digest s =
    some (change_submitter v.submitter_id (with_limits v) s)
project l submitter_suspend type v subject digest s =
    some (change_submitter v.submitter_id (with_status revoked) s)
project l submitter_reactivate type v subject digest s =
    some (change_submitter v.submitter_id (with_status active) s)
project l capability_rotate type v subject digest s = rotate_capability v digest s
project l subject_allowlist_put type v subject digest s = put_rule l type v subject s
project l peer_block_put type v subject digest s = put_rule l type v subject s
project l outer_domain_block_put type v subject digest s = put_rule l type v subject s
project l subject_domain_block_put type v subject digest s = put_rule l type v subject s

-- The command inside of an object that has one.
unfoldable pub unwrapped : Parsers → String → String
unwrapped l raw = elim (l.command_of raw) [ none ↦ raw | some inner ↦ inner ]

-- The members that projectedPolicyDigest and apply read, with the subject.
unfoldable pub members : Parsers → String → Option (Payload × String)
members l raw = elim (l.decode (unwrapped l raw)) [
  | none ↦ none
  | some v ↦ elim v.subject [ none ↦ none | some subject ↦ some (v, subject) ]
]

-- `none` is ErrInvalid.
unfoldable pub projected_policy_digest :
    Parsers → Crypto → EffectivePolicy → String → String → String → Option String
projected_policy_digest l k s type raw digest = elim (members l raw) [
  | none ↦ none
  | some (v, subject) ↦ elim (operation type) [
    | none ↦ some (policy_digest k s)
    | some o ↦ elim (project l o type v subject digest s) [
      | none ↦ none
      | some s' ↦ some (policy_digest k s')
    ]
  ]
]
