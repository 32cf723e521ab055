-- ===== src/Reports.antt =====
-- internal/report: the submission of a reply to Postfix.
pub mod Submission
