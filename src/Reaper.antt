-- ===== src/Reaper.antt =====
-- reaper/internal/reaper: one reaper at a time sweeps the tables for dead workers, expired attempts
-- and queued jobs that Redis has lost, and makes their jobs available again.
use transcodex.Base.{ℕ}
pub mod Transactions
pub mod Invariant
pub mod Sweep
pub mod Lock
pub mod Leadership
pub mod Mutex
pub mod Refresh
pub mod Steps
pub mod Load
pub mod Recovery
pub mod Ended
pub mod Expiry
pub mod Loop
pub mod Helpers

-- The fields of `Config` that the sweep reads, in seconds.
pub record Config : Type 0 where
  pub sweep_interval : ℕ
  pub leadership_lock_ttl : ℕ
  pub dead_worker_threshold : ℕ
  pub lease_expiry_grace : ℕ
  pub stale_queue_threshold : ℕ
