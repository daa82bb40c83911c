-- ===== src/Tests/Samples.antt =====
-- Concrete tables: job 7 is uploaded, and claimed by worker 1 as attempt 40.
use transcodex.Base.{refl, none, some, List, [], ◌∷◌}
use transcodex.Base.Int.{pos}
use transcodex.Base.Text.{codes}
use transcodex.Db.Table.{modify}
use transcodex.Db.Schema.{
  Text, Db, Job, JobStatus, Attempt, WorkerStatus, OutputType, ProcessingMode,
}
use transcodex.Db.Statements.{touch, insert_job, insert_attempt, update_job}
use transcodex.Db.Invariant.{Inv, workers-Inv}
use transcodex.Db.Held.{Held}
use transcodex.Worker.{Worker, Output, QueueMessage, Surroundings}
use transcodex.Worker.Transactions.{mark_processing, new_attempt}
use transcodex.Worker.Claim.{mark_processing-Keeps}
use transcodex.Api
use transcodex.Reaper
use transcodex.Api.Create.{create_job, create_job-Keeps, new_job}
use transcodex.System.{empty_db}
use transcodex.System.Invariant.{empty_db-Inv}

abbrev pub input : Text
input = codes "uploads/7.mp4"

abbrev pub sample_worker : Worker
sample_worker = record {
  id = 1;
  config = record {
    cdn_base_url = codes "https://cdn.example";
    output_prefix = codes "outputs";
    processing_mode = ProcessingMode.parallel;
    lease_ttl = 60;
  };
}

abbrev pub surroundings : Surroundings
surroundings = record {
  show_id = λ i. i ∷ [];
  file_size = λ _. 1000;
  temp_root = codes "/tmp/transcodex";
  download_ms = 20;
  processing_ms = 900;
  upload_ms = 30;
}

abbrev pub sample_message : QueueMessage
sample_message = record { job_id = 7; input_file = input; priority = pos 5 }

abbrev pub registered_db : Db
registered_db = record empty_db {
  workers =
      (1, record { status = WorkerStatus.idle; current_job = none; last_heartbeat = 90 }) ∷ [];
}

abbrev pub queued_db : Db
queued_db = record registered_db { jobs = (7, new_job 100 3 (pos 5) input) ∷ [] }

pub queued_db-Inv : Inv queued_db
unfolding create_job insert_job
queued_db-Inv =
    (create_job-Keeps 7 input (pos 5) (pos 3) 100 registered_db
      (workers-Inv empty_db _ empty_db-Inv)).0

abbrev pub sample_job : Job
sample_job = touch 110 (record (new_job 100 3 (pos 5) input) {
  status = JobStatus.processing;
  current_attempt_id = some 40;
})

abbrev pub sample_attempt : Attempt
sample_attempt = new_attempt sample_worker 110 7 (new_job 100 3 (pos 5) input)

abbrev pub processing_db : Db
processing_db = record queued_db {
  jobs = (7, sample_job) ∷ [];
  job_attempts = (40, sample_attempt) ∷ [];
}

pub processing_db-Inv : Inv processing_db
unfolding mark_processing insert_attempt update_job modify
processing_db-Inv = (mark_processing-Keeps sample_worker 7 40 110 queued_db queued_db-Inv).0

abbrev pub processing_db-Held : Held processing_db 7 40 sample_job sample_attempt
processing_db-Held = (refl, refl, refl, refl, refl, refl)

abbrev pub outputs : List Output
outputs =
    record {
      type = OutputType.video_720p;
      local_path = codes "/tmp/transcodex/7/720p.mp4";
      object_key = codes "outputs/7/40/video_720p";
      cdn_url = codes "https://cdn.example/outputs/7/40/video_720p";
      file_size = 1000;
      content_type = codes "video/mp4";
    }
    ∷ []

abbrev pub reaper_config : Reaper.Config
reaper_config = record {
  dead_worker_threshold = 30;
  lease_expiry_grace = 30;
  stale_queue_threshold = 60;
  sweep_interval = 15;
  leadership_lock_ttl = 30;
}

abbrev pub api_config : Api.Config
api_config = record {
  upload_prefix = codes "uploads";
  upload_size_limit = pos 1000000;
  worker_max_retries = pos 3;
}
