-- ===== src/Analytics.antt =====
-- internal/analytics: lifecycle events, and the counts that are made of them.
pub mod Event
pub mod Projector
pub mod Exact
pub mod Rebuilt
