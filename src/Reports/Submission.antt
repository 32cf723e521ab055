-- ===== src/Reports/Submission.antt =====
-- internal/report/reply.go: Submit. The SMTP session is an argument: which of its steps succeed.
use mailproof.Base.{ℕ, String, Bool, true, false, ◌||◌, not, ◌==◌, any_char, if◌then◌else◌}

pub record Reply : Type 0 where
  pub envelope_from : String
  pub recipient : String

-- The steps of github.com/emersion/go-smtp; `parses` is mail.ParseAddress of the recipient.
pub record Session : Type 0 where
  pub parses : Bool
  pub dials : Bool
  pub hello : Bool
  pub mail_from : Bool
  pub rcpt_to : Bool
  pub data_starts : Bool
  pub writes : Bool
  pub closes : Bool
  pub quits : Bool

pub data SubmitError : Type 0 where
  invalid_recipient invalid_sender dial_failed hello_failed mail_failed rcpt_failed : SubmitError
  data_failed write_failed outcome_unknown quit_failed : SubmitError

-- A nil error, or outcomeUnknown with the error.
pub data Outcome : Type 0 where
  sent : Outcome
  not_sent : Bool → SubmitError → Outcome

abbrev is_break : ℕ → Bool
is_break c = c == 13 || c == 10

-- The tests of Message.
unfoldable pub message_error : Reply → Session → Outcome → Outcome
message_error r s next =
    if not s.parses || any_char is_break r.recipient
    then not_sent false invalid_recipient
    else if any_char is_break r.envelope_from
    then not_sent false invalid_sender
    else next

-- The steps from the dial on.
unfoldable pub transfer : Session → Outcome
transfer s =
    if not s.dials
    then not_sent false dial_failed
    else if not s.hello
    then not_sent false hello_failed
    else if not s.mail_from
    then not_sent false mail_failed
    else if not s.rcpt_to
    then not_sent false rcpt_failed
    else if not s.data_starts
    then not_sent false data_failed
    else if not s.writes
    then not_sent false write_failed
    else if not s.closes
    then not_sent true outcome_unknown
    else if not s.quits
    then not_sent false quit_failed
    else sent

unfoldable pub submit : Reply → Session → Outcome
unfolding message_error transfer
submit r s = message_error r s (transfer s)
