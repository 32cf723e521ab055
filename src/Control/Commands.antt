-- ===== src/Control/Commands.antt =====
-- internal/control/control.go: commands and their validation. A text is in UTF-8; what encoding/json,
-- net, time and crypto compute of it is an argument.
use Prim.Native.Char.{code}
use mailproof.Base.{
  ℕ, ◌+◌, String, Bool, true, false, not, ◌&&◌, ◌||◌, ◌==◌, ltb, Option, none, some, if◌then◌else◌,
  str_eq, is_empty, is_some, has_prefix, trim_prefix, trim_space, any_char, contains,
}
use mailproof.Database.{Error, invalid_request, unsupported_command}
use mailproof.Budget.Limits.{ℤ, lt, pos}

-- The members of a command's JSON object; one that is absent has its zero value. `subject` is `none`
-- where the member is not a text, since validation does not read it.
pub record Payload : Type 0 where
  pub submitter_id : String
  pub rule_id : String
  pub value : String
  pub subject : Option String
  pub expiry : String
  pub enabled : Option Bool
  pub minute_limit : ℤ
  pub hour_limit : ℤ
  pub day_limit : ℤ

-- time.Time: nanoseconds since the epoch, and whether its location is UTC.
pub record Moment : Type 0 where
  pub nanoseconds : ℕ
  pub is_utc : Bool

-- `decode` is json.Unmarshal into the members above; `command_of` reads the member "command" of an
-- object that has it; `encode` is json.Marshal of a command's type with its value, `none` where the
-- value is not JSON. `is_ip` and `is_cidr` are net.ParseIP and net.ParseCIDR, `parse_time` is
-- time.Parse for RFC 3339.
pub record Parsers : Type 0 where
  pub decode : String → Option Payload
  pub command_of : String → Option String
  pub encode : String → String → Option String
  pub is_ip : String → Bool
  pub is_cidr : String → Bool
  pub parse_time : String → Option Moment

pub record Command : Type 0 where
  pub schema_version : String
  pub command_id : String
  pub command_type : String
  pub expected_version : ℤ
  pub reason : String
  pub idempotency_key : String
  pub command : String

abbrev pub schema_version : String
schema_version = "mailproof.control/v1"

-- The command types.
pub data Operation : Type 0 where
  quota_change submitter_suspend submitter_reactivate capability_rotate : Operation
  subject_allowlist_put peer_block_put outer_domain_block_put subject_domain_block_put : Operation

unfoldable pub operation : String → Option Operation
operation t =
    if str_eq t "quota_change"
    then some quota_change
    else if str_eq t "submitter_suspend"
    then some submitter_suspend
    else if str_eq t "submitter_reactivate"
    then some submitter_reactivate
    else if str_eq t "capability_rotate"
    then some capability_rotate
    else if str_eq t "subject_allowlist_put"
    then some subject_allowlist_put
    else if str_eq t "peer_block_put"
    then some peer_block_put
    else if str_eq t "outer_domain_block_put"
    then some outer_domain_block_put
    else if str_eq t "subject_domain_block_put"
    then some subject_domain_block_put
    else none

abbrev pub allowed : String → Bool
allowed t = is_some (operation t)

-- len of a string: its bytes.
unfoldable pub byte_len : String → ℕ
byte_len String.[] = 0
byte_len (String.◌∷◌ c s) =
    (if ltb (code c) 128
      then 1
      else if ltb (code c) 2048
      then 2
      else if ltb (code c) 65536
      then 3
      else 4)
    + byte_len s

abbrev is_separator : ℕ → Bool
is_separator c = c == b' ' || c == b'/' || c == b'@'

abbrev is_domain : String → Bool
is_domain v = not (is_empty v) && not (any_char is_separator v) && contains v "."

unfoldable pub valid_domain_rule : String → Bool → Bool
valid_domain_rule v wildcard =
    if wildcard && has_prefix v "*."
    then is_domain (trim_prefix v "*.")
    else if has_prefix v "*."
    then false
    else is_domain v

abbrev pub disables : Payload → Bool
disables v = elim v.enabled [ none ↦ false | some b ↦ not b ]

abbrev below_one : ℤ → Bool
below_one n = lt n (pos 1)

abbrev utc_time : Parsers → String → Bool
utc_time l expiry = elim (l.parse_time expiry) [ none ↦ false | some t ↦ t.is_utc ]

-- A rule's value: of a peer, of the allowlist with its wildcards, or of a blocked domain.
unfoldable pub valid_value : Parsers → Operation → String → Bool
valid_value l peer_block_put value = l.is_ip value || l.is_cidr value
valid_value l subject_allowlist_put value = valid_domain_rule value true
valid_value l _ value = valid_domain_rule value false

abbrev valid_rule : Parsers → Operation → Payload → Bool
valid_rule l o v =
    if disables v
    then not (is_empty v.rule_id)
    else not (is_empty v.value)
      && valid_value l o v.value
      && (is_empty v.expiry || utc_time l v.expiry)

-- The switch of validateOperation; every refusal is ErrInvalid.
unfoldable pub valid_operation : Parsers → Operation → Payload → Bool
valid_operation l quota_change v = not (
    is_empty v.submitter_id
    || below_one v.minute_limit
    || below_one v.hour_limit
    || below_one v.day_limit)
valid_operation l submitter_suspend v = not (is_empty v.submitter_id)
valid_operation l submitter_reactivate v = not (is_empty v.submitter_id)
valid_operation l capability_rotate v = not (is_empty v.submitter_id)
valid_operation l subject_allowlist_put v = valid_rule l subject_allowlist_put v
valid_operation l peer_block_put v = valid_rule l peer_block_put v
valid_operation l outer_domain_block_put v = valid_rule l outer_domain_block_put v
valid_operation l subject_domain_block_put v = valid_rule l subject_domain_block_put v

-- `none` where the command can be applied.
unfoldable pub validate_operation : Parsers → String → String → Option Error
validate_operation l type raw = elim (l.decode raw) [
  | none ↦ some invalid_request
  | some v ↦ elim (operation type) [
    | none ↦ some unsupported_command
    | some o ↦ if valid_operation l o v then none else some invalid_request
  ]
]

abbrev out_of_range : ℕ → ℕ → String → Bool
out_of_range least most s = ltb (byte_len s) least || ltb most (byte_len s)

unfoldable pub well_formed : Command → Bool
well_formed c = not (
    not (str_eq c.schema_version schema_version)
    || not (allowed c.command_type)
    || out_of_range 16 128 c.command_id
    || out_of_range 16 128 c.idempotency_key
    || ltb (byte_len (trim_space c.reason)) 8
    || ltb 512 (byte_len c.reason)
    || lt c.expected_version (pos 0)
    || byte_len c.command == 0)

pub data Canonical : Type 0 where
  encoded : String → Canonical
  refused : Error → Canonical

unfoldable pub canonical : Parsers → Command → Canonical
canonical l c =
    if well_formed c
    then elim (l.encode c.command_type c.command) [
      | none ↦ refused invalid_request
      | some b ↦ elim (validate_operation l c.command_type c.command) [
        | some e ↦ refused e
        | none ↦ encoded b
      ]
    ]
    else refused invalid_request
