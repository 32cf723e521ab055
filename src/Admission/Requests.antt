-- ===== src/Admission/Requests.antt =====
-- internal/admission/admission.go: ParseRequest and capability. What net.ParseIP and
-- encoding/base64 compute is an argument, and so is SPF.
use mailproof.Base.{
  ℕ, String, Bool, true, false, not, ◌&&◌, ◌||◌, ltb, ◌==◌, List, [], ◌∷◌, Option, none, some,
  if◌then◌else◌, str_eq, is_empty, len, any_row, cut, split, has_suffix, has_prefix, trim_prefix,
  equal_fold, count_char,
}
use Prim.Native.String.{slice}
use Prim.Native.Nat.{◌-◌}

-- `is_ip` is whether net.ParseIP accepts a text; `decoded_size` is the number of bytes that
-- base64.RawURLEncoding decodes, `decode` those bytes, and `encode` its inverse.
pub record Codecs : Type 0 where
  pub is_ip : String → Bool
  pub decoded_size : String → Option ℕ
  pub decode : String → Option String
  pub encode : String → String

pub record Request : Type 0 where
  pub request_type : String
  pub instance_name : String
  pub queue_id : String
  pub protocol_state : String
  pub client_address : String
  pub helo : String
  pub sender : String
  pub recipient : String

abbrev pub empty_request : Request
empty_request = record {
  request_type = "";
  instance_name = "";
  queue_id = "";
  protocol_state = "";
  client_address = "";
  helo = "";
  sender = "";
  recipient = "";
}

abbrev pub max_attribute : ℕ
max_attribute = 1024

-- The switch on the key.
unfoldable pub set_attribute : String → String → Request → Request
set_attribute key value r =
    if str_eq key "request"
    then record r { request_type = value }
    else if str_eq key "instance"
    then record r { instance_name = value }
    else if str_eq key "queue_id"
    then record r { queue_id = value }
    else if str_eq key "protocol_state"
    then record r { protocol_state = value }
    else if str_eq key "client_address"
    then record r { client_address = value }
    else if str_eq key "helo_name"
    then record r { helo = value }
    else if str_eq key "sender"
    then record r { sender = value }
    else if str_eq key "recipient"
    then record r { recipient = value }
    else r

-- strings.TrimSuffix(line, "\r").
abbrev pub trim_return : String → String
trim_return line = if has_suffix line "\r" then slice line 0 (len line - 1) else line

-- The loop over the lines; `none` is ErrMalformed.
unfoldable pub parse_lines : List String → List String → Request → Option Request
parse_lines [] seen r = some r
parse_lines (raw ∷ lines) seen r =
    let line = trim_return raw in
    elim (is_empty line) [
      | true ↦ parse_lines lines seen r
      | false ↦ elim (cut b'=' line) [
        | none ↦ none
        | some (key, value) ↦
            elim (is_empty key || ltb max_attribute (len value) || any_row (str_eq key) seen) [
              | true ↦ none
              | false ↦ parse_lines lines (key ∷ seen) (set_attribute key value r)
            ]
      ]
    ]

-- The test after the loop.
unfoldable pub is_complete : Codecs → Request → Bool
is_complete c r =
    str_eq r.request_type "smtpd_access_policy"
    && not (is_empty r.protocol_state)
    && not (is_empty r.sender)
    && not (is_empty r.recipient)
    && c.is_ip r.client_address

unfoldable pub parse_request : Codecs → String → Option Request
unfolding parse_lines is_complete
parse_request c raw =
    if len raw == 0 || ltb 16384 (len raw)
    then none
    else elim (parse_lines (split 10 raw) [] empty_request) [
      | none ↦ none
      | some r ↦ if is_complete c r then some r else none
    ]

-- The checks of a secret that is found in a recipient.
unfoldable pub checked_capability : Codecs → String → Option String
checked_capability c secret =
    if ltb (len secret) 32 || ltb 128 (len secret) then none else elim (c.decoded_size secret) [
      | none ↦ none
      | some n ↦ if ltb n 24 then none else some secret
    ]

unfoldable pub capability : Codecs → String → String → Option String
unfolding checked_capability
capability c recipient domain =
    if ltb max_attribute (len recipient) || not (count_char b'@' recipient == 1)
    then none
    else elim (cut b'@' recipient) [
      | none ↦ none
      | some (local, host) ↦
          if not (equal_fold host domain) || not (has_prefix local "verify+")
          then none
          else checked_capability c (trim_prefix local "verify+")
    ]
