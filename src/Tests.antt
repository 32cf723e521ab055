-- ===== src/Tests.antt =====
-- The properties at concrete inputs, and runs of the code on samples.
mod Samples
mod Claims
mod Lifecycle
mod Verdicts
mod Enrolments
mod Admissions
mod Counts
mod Boundaries
mod Policies
mod Results
