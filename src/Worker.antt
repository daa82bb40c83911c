-- ===== src/Worker.antt =====
-- worker/internal/worker: a worker polls the queue, claims a job by starting an attempt of it,
-- processes the attempt under a lease, and completes the job or handles its failure.
use transcodex.Base.{ℕ}
use transcodex.Base.Int.{ℤ}
use transcodex.Db.Schema.{Text, ProcessingMode, OutputType}
pub mod Transactions
pub mod Media
pub mod Upkeep
pub mod Process
pub mod Steps
pub mod Load
pub mod Renewal
pub mod Loop
pub mod Helpers
pub mod Shutdown
pub mod Claim
pub mod Complete
pub mod Published
pub mod Fail
pub mod Rows
pub mod Success

-- The fields of `Config` that the worker's logic reads; durations are in seconds.
pub record Config : Type 0 where
  pub cdn_base_url : Text
  pub output_prefix : Text
  pub processing_mode : ProcessingMode
  pub lease_ttl : ℕ

pub record Worker : Type 0 where
  pub id : ℕ
  pub config : Config

pub record Output : Type 0 where
  pub type : OutputType
  pub local_path : Text
  pub object_key : Text
  pub cdn_url : Text
  pub file_size : ℕ
  pub content_type : Text

-- The message that `poll` hands on.
pub record QueueMessage : Type 0 where
  pub job_id : ℕ
  pub input_file : Text
  pub priority : ℤ

-- What the worker's surroundings decide: the text of an identifier, the size that os.Stat reports
-- for an output, the directory for temporary files, and how long the three phases take.
pub record Surroundings : Type 0 where
  pub show_id : ℕ → Text
  pub file_size : OutputType → ℕ
  pub temp_root : Text
  pub download_ms : ℕ
  pub processing_ms : ℕ
  pub upload_ms : ℕ
