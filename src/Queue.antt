-- ===== src/Queue.antt =====
-- internal/queue: the durable lifecycle of deliveries, runs and report attempts.
pub mod Events
pub mod Frame
pub mod Statements
pub mod Collections
pub mod Rejections
pub mod Claims
pub mod Lifecycle
pub mod Invariant
pub mod Refinement
pub mod Granting
pub mod Choice
pub mod Serving
pub mod Exclusion
pub mod Double
pub mod Operations
pub mod Histories
pub mod Destinations
pub mod Singleton
pub mod Retries
pub mod Repeats
pub mod History
pub mod Transitions
pub mod Attempts
pub mod CollectorLease
