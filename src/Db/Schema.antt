-- ===== src/Db/Schema.antt =====
-- The enums and rows of migrations/000001_init_schema.up.sql, with the columns and the table that
-- migrations/000002_attempts_and_timings.up.sql adds. The Go programs name the enums by strings.
use transcodex.Base.{ℕ, Bool, true, false, Option, List}
use transcodex.Base.Int.{ℤ}
use transcodex.Db.Table.{Table}

abbrev pub Text : Type 0
Text = List ℕ

-- job_status
pub data JobStatus : Type 0 where
  queued processing completed dead : JobStatus

-- attempt_status
pub data AttemptStatus : Type 0 where
  running completed failed expired : AttemptStatus

-- worker_status
pub data WorkerStatus : Type 0 where
  idle busy dead : WorkerStatus

-- job_output_type
pub data OutputType : Type 0 where
  video_360p video_720p video_1080p thumbnail : OutputType

-- The texts that the programs store in job_attempts.current_phase.
pub data Phase : Type 0 where
  claiming downloading processing uploading completing completed : Phase

-- The texts that the programs store in job_attempts.failure_category.
pub data FailureCategory : Type 0 where
  processing_failure worker_death lease_expired : FailureCategory

pub data ProcessingMode : Type 0 where
  parallel sequential : ProcessingMode

abbrev pub is_queued : JobStatus → Bool
is_queued JobStatus.queued = true
is_queued _ = false

abbrev pub is_processing : JobStatus → Bool
is_processing JobStatus.processing = true
is_processing _ = false

abbrev pub is_running : AttemptStatus → Bool
is_running AttemptStatus.running = true
is_running _ = false

abbrev pub is_busy : WorkerStatus → Bool
is_busy WorkerStatus.busy = true
is_busy _ = false

-- A row of jobs, less its key.
pub record Job : Type 0 where
  pub status : JobStatus
  pub retry_count : ℕ
  pub max_retries : ℕ
  pub priority : ℤ
  pub input_file : Text
  pub created_at : ℕ
  pub updated_at : ℕ
  pub queue_entered_at : ℕ
  pub current_attempt_id : Option ℕ
  pub completed_attempt_id : Option ℕ
  pub completed_at : Option ℕ

-- A row of job_attempts, less its key.
pub record Attempt : Type 0 where
  pub job_id : ℕ
  pub attempt_number : ℕ
  pub worker_id : ℕ
  pub status : AttemptStatus
  pub queue_entered_at : ℕ
  pub started_at : ℕ
  pub last_heartbeat : ℕ
  pub lease_expires_at : ℕ
  pub finished_at : Option ℕ
  pub current_phase : Phase
  pub processing_mode : ProcessingMode
  pub failure_category : Option FailureCategory
  pub failure_detail : Option Text
  pub download_duration_ms : Option ℕ
  pub processing_duration_ms : Option ℕ
  pub upload_duration_ms : Option ℕ

-- A row of workers, less its key.
pub record WorkerRow : Type 0 where
  pub status : WorkerStatus
  pub current_job : Option ℕ
  pub last_heartbeat : ℕ

-- A row of job_outputs, whose key here is the pair (job_id, type) of its UNIQUE constraint.
pub record OutputRow : Type 0 where
  pub job_id : ℕ
  pub type : OutputType
  pub attempt_id : ℕ
  pub cdn_url : Text
  pub file_size : ℕ
  pub created_at : ℕ

pub record Db : Type 0 where
  pub jobs : Table Job
  pub job_attempts : Table Attempt
  pub workers : Table WorkerRow
  pub job_outputs : List OutputRow

abbrev pub same_type : OutputType → OutputType → Bool
same_type OutputType.video_360p OutputType.video_360p = true
same_type OutputType.video_720p OutputType.video_720p = true
same_type OutputType.video_1080p OutputType.video_1080p = true
same_type OutputType.thumbnail OutputType.thumbnail = true
same_type _ _ = false
