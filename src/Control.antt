-- ===== src/Control.antt =====
-- internal/control: policy commands in two steps, a preview and its confirmation.
pub mod Commands
pub mod Effective
pub mod Statements
pub mod Changes
pub mod Service
pub mod Frame
pub mod Steps
pub mod Confirming
pub mod Previewing
pub mod History
pub mod Once
pub mod Ledger
pub mod Disabling
