-- ===== src/Budget/Limits.antt =====
-- internal/budget/budget.go: Limits, Default and Validate. An int64 is an integer, a duration a number
-- of nanoseconds; nothing is computed from them, so nothing wraps.
use mailproof.Base.{
  ℕ, zero, suc, ◌*◌, ◌^◌, ◌<◌, ◌≡◌, refl, Bool, true, false, ◌||◌, ltb, leb, List, [], ◌∷◌,
  if◌then◌else◌, any_row, arith, second, ◌+◌, ◌≤◌,
}

-- `negsuc n` is -(n + 1).
pub data ℤ : Type 0 where
  pos : ℕ → ℤ
  negsuc : ℕ → ℤ

abbrev pub lt : ℤ → ℤ → Bool
lt (pos m) (pos n) = ltb m n
lt (pos m) (negsuc n) = false
lt (negsuc m) (pos n) = true
lt (negsuc m) (negsuc n) = ltb n m

abbrev pub le : ℤ → ℤ → Bool
le (pos m) (pos n) = leb m n
le (pos m) (negsuc n) = false
le (negsuc m) (pos n) = true
le (negsuc m) (negsuc n) = leb n m

abbrev pub not_positive : ℤ → Bool
not_positive (pos n) = ltb n 1
not_positive (negsuc n) = true

pub record Limits : Type 0 where
  pub message_bytes : ℤ
  pub mime_parts : ℤ
  pub mime_depth : ℤ
  pub decoded_part_bytes : ℤ
  pub archive_depth : ℤ
  pub extracted_files : ℤ
  pub extraction_bytes : ℤ
  pub compression_ratio : ℤ
  pub urls : ℤ
  pub redirects : ℤ
  pub fetch_bytes : ℤ
  pub tool_stdout_bytes : ℤ
  pub tool_stderr_bytes : ℤ
  pub analysis_attempts : ℤ
  pub report_attempts : ℤ
  pub connect_timeout : ℤ
  pub analyzer_timeout : ℤ
  pub worker_lease : ℤ
  pub lease_renewal : ℤ

abbrev pub default : Limits
default = record {
  message_bytes = pos (50 * 2 ^ 20);
  mime_parts = pos 1000;
  mime_depth = pos 30;
  decoded_part_bytes = pos (10 * 2 ^ 20);
  archive_depth = pos 5;
  extracted_files = pos 1000;
  extraction_bytes = pos (250 * 2 ^ 20);
  compression_ratio = pos 100;
  urls = pos 100;
  redirects = pos 5;
  fetch_bytes = pos (5 * 2 ^ 20);
  tool_stdout_bytes = pos (1 * 2 ^ 20);
  tool_stderr_bytes = pos (256 * 2 ^ 10);
  analysis_attempts = pos 3;
  report_attempts = pos 3;
  connect_timeout = pos (10 * second);
  analyzer_timeout = pos (60 * second);
  worker_lease = pos (300 * second);
  lease_renewal = pos (60 * second);
}

pub data LimitError : Type 0 where
  valid not_all_positive inconsistent_hierarchy invalid_durations : LimitError

abbrev pub values : Limits → List ℤ
values l =
    l.message_bytes ∷ l.mime_parts ∷ l.mime_depth ∷ l.decoded_part_bytes ∷ l.archive_depth
    ∷ l.extracted_files ∷ l.extraction_bytes ∷ l.compression_ratio ∷ l.urls ∷ l.redirects
    ∷ l.fetch_bytes ∷ l.tool_stdout_bytes ∷ l.tool_stderr_bytes ∷ l.analysis_attempts
    ∷ l.report_attempts ∷ []

-- `valid` is the nil error.
unfoldable pub validate : Limits → LimitError
validate l =
    if any_row not_positive (values l)
    then not_all_positive
    else if lt l.message_bytes l.decoded_part_bytes || lt l.extraction_bytes l.decoded_part_bytes
    then inconsistent_hierarchy
    else if not_positive l.connect_timeout
        || not_positive l.analyzer_timeout
        || not_positive l.worker_lease
        || not_positive l.lease_renewal
        || le l.worker_lease l.lease_renewal
    then invalid_durations
    else valid

abbrev pub Positive : ℤ → Type 0
Positive z = (n : ℕ) × (z ≡ pos (suc n))

positive : (z : ℤ) → not_positive z ≡ false → Positive z
positive (pos zero) h = absurd (ground arith)
positive (pos (suc n)) h = (n, refl)
positive (negsuc n) h = absurd (ground arith)

-- The order of integers.
abbrev pub pos_part : ℤ → ℕ
pos_part (pos n) = n
pos_part (negsuc n) = 0

abbrev pub neg_part : ℤ → ℕ
neg_part (pos n) = 0
neg_part (negsuc n) = suc n

abbrev pub AtMost : ℤ → ℤ → Type 0
AtMost a b = pos_part a + neg_part b ≤ pos_part b + neg_part a

abbrev pub Less : ℤ → ℤ → Type 0
Less a b = pos_part a + neg_part b < pos_part b + neg_part a

at_most : (a b : ℤ) → lt b a ≡ false → AtMost a b
at_most (pos m) (pos n) h = ground arith
at_most (pos m) (negsuc n) h = ground arith
at_most (negsuc m) (pos n) h = ground arith
at_most (negsuc m) (negsuc n) h = ground arith

less : (a b : ℤ) → le b a ≡ false → Less a b
less (pos m) (pos n) h = ground arith
less (pos m) (negsuc n) h = ground arith
less (negsuc m) (pos n) h = ground arith
less (negsuc m) (negsuc n) h = ground arith

-- What Limits are to be: positive, with a decoded part that fits into the message and into the
-- extraction, and a renewal that comes before the end of the lease.
pub record IsSound (l : Limits) : Type 0 where
  pub message_bytes : Positive l.message_bytes
  pub mime_parts : Positive l.mime_parts
  pub mime_depth : Positive l.mime_depth
  pub decoded_part_bytes : Positive l.decoded_part_bytes
  pub archive_depth : Positive l.archive_depth
  pub extracted_files : Positive l.extracted_files
  pub extraction_bytes : Positive l.extraction_bytes
  pub compression_ratio : Positive l.compression_ratio
  pub urls : Positive l.urls
  pub redirects : Positive l.redirects
  pub fetch_bytes : Positive l.fetch_bytes
  pub tool_stdout_bytes : Positive l.tool_stdout_bytes
  pub tool_stderr_bytes : Positive l.tool_stderr_bytes
  pub analysis_attempts : Positive l.analysis_attempts
  pub report_attempts : Positive l.report_attempts
  pub connect_timeout : Positive l.connect_timeout
  pub analyzer_timeout : Positive l.analyzer_timeout
  pub worker_lease : Positive l.worker_lease
  pub lease_renewal : Positive l.lease_renewal
  pub part_in_message : AtMost l.decoded_part_bytes l.message_bytes
  pub part_in_extraction : AtMost l.decoded_part_bytes l.extraction_bytes
  pub renewal_in_lease : Less l.lease_renewal l.worker_lease

-- In limits that Validate accepts each of the fifteen sizes and counts and each of the
-- four durations is positive, a decoded part is at most as large as the message and as the
-- extraction, and the renewal is shorter than the lease.
pub validate_lem : (l : Limits) → validate l ≡ valid → IsSound l
unfolding validate any_row
validate_lem l h = record {
  message_bytes = positive l.message_bytes (ground (arith, h));
  mime_parts = positive l.mime_parts (ground (arith, h));
  mime_depth = positive l.mime_depth (ground (arith, h));
  decoded_part_bytes = positive l.decoded_part_bytes (ground (arith, h));
  archive_depth = positive l.archive_depth (ground (arith, h));
  extracted_files = positive l.extracted_files (ground (arith, h));
  extraction_bytes = positive l.extraction_bytes (ground (arith, h));
  compression_ratio = positive l.compression_ratio (ground (arith, h));
  urls = positive l.urls (ground (arith, h));
  redirects = positive l.redirects (ground (arith, h));
  fetch_bytes = positive l.fetch_bytes (ground (arith, h));
  tool_stdout_bytes = positive l.tool_stdout_bytes (ground (arith, h));
  tool_stderr_bytes = positive l.tool_stderr_bytes (ground (arith, h));
  analysis_attempts = positive l.analysis_attempts (ground (arith, h));
  report_attempts = positive l.report_attempts (ground (arith, h));
  connect_timeout = positive l.connect_timeout (ground (arith, h));
  analyzer_timeout = positive l.analyzer_timeout (ground (arith, h));
  worker_lease = positive l.worker_lease (ground (arith, h));
  lease_renewal = positive l.lease_renewal (ground (arith, h));
  part_in_message = at_most l.decoded_part_bytes l.message_bytes (ground (arith, h));
  part_in_extraction = at_most l.decoded_part_bytes l.extraction_bytes (ground (arith, h));
  renewal_in_lease = less l.lease_renewal l.worker_lease (ground (arith, h));
}
