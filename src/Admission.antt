-- ===== src/Admission.antt =====
-- internal/admission: the answer to Postfix for each mail, and the stamp of what is admitted.
pub mod Requests
pub mod Rules
pub mod Decisions
pub mod Quotas
pub mod Passes
pub mod Stamps
pub mod Single
pub mod Screening
pub mod Parsing
