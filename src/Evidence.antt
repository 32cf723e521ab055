-- ===== src/Evidence.antt =====
-- internal/evidence: the records that the analysers leave, and the verdict that they lead to.
pub mod Records
pub mod Policy
pub mod Rulings
pub mod Citations
pub mod Runner
pub mod Output
pub mod Provenance
pub mod Forwarding
pub mod Canonical
