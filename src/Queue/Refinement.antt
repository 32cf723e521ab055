-- ===== src/Queue/Refinement.antt =====
-- Each operation of internal/queue, whatever its result, is a row of abstract moves. All but the
-- retry move runs along the edges of the lifecycle.
pub mod Inserts
pub mod Collecting
pub mod Claiming
pub mod Working
pub mod Attempting
