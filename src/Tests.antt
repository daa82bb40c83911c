-- ===== src/Tests.antt =====
-- The theorems of the other modules at concrete inputs.
mod Samples
pub mod Decisions
pub mod Drains
pub mod Jobs
pub mod Limits
pub mod Leaders
pub mod Paths
pub mod Queues
pub mod Reads
pub mod Summaries
pub mod Uploads
