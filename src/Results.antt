-- ===== src/Results.antt =====
-- internal/results: records of results and their pages.
pub mod Cursors
pub mod Records
pub mod Conflicts
