-- ===== src/Submitters.antt =====
-- internal/submitter: enrolment of submitters by a code that is sent to their mailbox.
pub mod Address
pub mod Statements
pub mod Service
pub mod Invariant
pub mod Preservation
pub mod Enrolment
pub mod Revocation
