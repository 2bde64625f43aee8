-- ===== src/Tests.antt =====
-- Runs of the modelled code at concrete inputs, and the theorems at such inputs.
pub mod Documents
pub mod Schedules
pub mod Plans
pub mod Resets
pub mod Accounts
pub mod Servers
pub mod Requests
pub mod Runs
pub mod ToolCalls
pub mod Approvals
pub mod Turns
