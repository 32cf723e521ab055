-- ===== src/Budget.antt =====
-- internal/budget: the resource policy of collectors and workers.
pub mod Limits
