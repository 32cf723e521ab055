-- ===== src/Submitters/Address.antt =====
-- internal/submitter/submitter.go: CanonicalAddress. What net/mail, golang.org/x/net/idna and
-- crypto/hmac compute is an argument.
use mailproof.Base.{
  ℕ, String, Bool, false, not, ◌||◌, leb, ◌==◌, Option, none, some, if◌then◌else◌, str_eq, is_empty,
  join, any_char, count_char, cut, contains, has_prefix, to_lower,
}

-- `parse_address` is mail.ParseAddress, with the address of its result; `to_ascii` is
-- idna.Lookup.ToASCII; `hmac key text` is HMAC-SHA-256.
pub record Libraries : Type 0 where
  pub parse_address : String → Option String
  pub to_ascii : String → Option String
  pub hmac : String → String → String

abbrev is_control : ℕ → Bool
is_control c = leb c 31 || c == 127

abbrev parses_to_itself : Option String → String → Bool
parses_to_itself none value = false
parses_to_itself (some address) value = str_eq address value

-- The domain in lower-case ASCII, if it is one.
unfoldable pub canonical_domain : Libraries → String → Option String
canonical_domain l domain = elim (l.to_ascii (to_lower domain)) [
  | none ↦ none
  | some ascii ↦ if is_empty ascii || contains ascii ".." then none else some ascii
]

-- The parts on both sides of the only "@".
unfoldable pub canonical_parts : Libraries → String → String → Option String
unfolding canonical_domain
canonical_parts l local domain =
    if is_empty local || is_empty domain || has_prefix domain "["
    then none
    else elim (canonical_domain l domain) [
      | none ↦ none
      | some ascii ↦ some (join local (join "@" ascii))
    ]

-- `none` is ErrInvalidAddress.
unfoldable pub canonical_address : Libraries → String → Option String
canonical_address l value =
    if any_char is_control value
    then none
    else if not (parses_to_itself (l.parse_address value) value) || not (count_char b'@' value == 1)
    then none
    else elim (cut b'@' value) [
      | none ↦ none
      | some (local, domain) ↦ canonical_parts l local domain
    ]
