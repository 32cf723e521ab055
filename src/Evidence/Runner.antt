-- ===== src/Evidence/Runner.antt =====
-- internal/evidence/runner.go: an adapter's process under a timeout, and the buffers that bound its
-- output. Limits are not negative. The process is an argument: its writes and how it ended.
use mailproof.Base.{
  ℕ, ◌+◌, ◌-◌, String, Bool, true, false, not, ◌||◌, ltb, ◌==◌, List, [], ◌∷◌, ◌++◌, if◌then◌else◌,
  str_eq, any_row, has_prefix, join, decimal, length, take,
}
use mailproof.Evidence.Records.{CapabilityStatus, observed, failed}

pub record LimitedBuffer : Type 0 where
  pub b : List ℕ
  pub n : ℕ
  pub hit : Bool

unfoldable pub write : LimitedBuffer → List ℕ → LimitedBuffer
write s p =
    if ltb s.n (length s.b + length p)
    then (if ltb 0 (s.n - length s.b)
        then record s { b = s.b ++ take (s.n - length s.b) p; hit = true }
        else record s { hit = true })
    else record s { b = s.b ++ p }

unfoldable pub write_all : LimitedBuffer → List (List ℕ) → LimitedBuffer
write_all s [] = s
write_all s (p ∷ ps) = write_all (write s p) ps

abbrev pub empty_buffer : ℕ → LimitedBuffer
empty_buffer n = record { b = []; n = n; hit = false }

pub record Command : Type 0 where
  pub path : String
  pub timeout : ℕ
  pub stdout_limit : ℕ
  pub stderr_limit : ℕ

-- How the process ended: well, with an exit code, or in another error with its text. The code -1 of a
-- process that a signal ended is not represented.
pub data Ending : Type 0 where
  success : Ending
  exited : ℕ → Ending
  broken : String → Ending

pub record Process : Type 0 where
  pub stdout_writes : List (List ℕ)
  pub stderr_writes : List (List ℕ)
  pub timed_out : Bool
  pub ending : Ending

pub record CommandResult : Type 0 where
  pub status : CapabilityStatus
  pub exit_code : ℕ
  pub stdout : List ℕ
  pub stderr : List ℕ
  pub stdout_digest : String
  pub stderr_digest : String
  pub error : String

abbrev refused : String → CommandResult
refused message = record {
  status = failed;
  exit_code = 0;
  stdout = [];
  stderr = [];
  stdout_digest = "";
  stderr_digest = "";
  error = message;
}

-- What Run returns once the process is over.
unfoldable pub run_result : LimitedBuffer → LimitedBuffer → Process → CommandResult → CommandResult
run_result out errb process r =
    if process.timed_out
    then record r { error = "adapter timed out" }
    else if out.hit || errb.hit
    then record r { error = "adapter output limit exceeded" }
    else elim process.ending [
      | success ↦ record r { status = observed }
      | exited code ↦ record r { exit_code = code; error = join "adapter exited " (decimal code) }
      | broken message ↦ record r { error = join "run adapter: " message }
    ]

abbrev pub stdout_of : Command → Process → LimitedBuffer
stdout_of c process = write_all (empty_buffer c.stdout_limit) process.stdout_writes

abbrev pub stderr_of : Command → Process → LimitedBuffer
stderr_of c process = write_all (empty_buffer c.stderr_limit) process.stderr_writes

-- `digest` is the SHA-256 of some bytes, in hexadecimal.
unfoldable pub run : (List ℕ → String) → List String → Command → Process → CommandResult
unfolding run_result
run digest allowed c process =
    if not (any_row (str_eq c.path) allowed) || not (has_prefix c.path "/")
    then refused "executable is not allowed"
    else if c.timeout == 0
    then refused "timeout must be positive"
    else run_result (stdout_of c process) (stderr_of c process) process (record {
      status = failed;
      exit_code = 0;
      stdout = (stdout_of c process).b;
      stderr = (stderr_of c process).b;
      stdout_digest = digest (stdout_of c process).b;
      stderr_digest = digest (stderr_of c process).b;
      error = "";
    })
