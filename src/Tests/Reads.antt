-- ===== src/Tests/Reads.antt =====
-- The theorems on the API's reads, the configuration and the start of the programs, at concrete inputs.
use transcodex.Base.{
  contains, ◌+◌, length, ℕ, ◌≤◌, ◌≡◌, refl, some, none, List, [], ◌∷◌, ◌++◌, true, false, map,
  arith,
}
use transcodex.Base.Int.{pos, negsuc, ◌≤ℤ◌}
use transcodex.Base.Text.{codes, same_text, atoi}
use transcodex.Db.Schema.{JobStatus, Text, Job, OutputType, ProcessingMode}
use transcodex.Db.Sql.{ok}
use transcodex.Db.Postgres.{sorting}
use transcodex.Redis.{in_memory, no_keys}
use transcodex.Run.{calm}
use transcodex.Worker.Process.{process_job}
use transcodex.Worker.Media.{type_text}
use transcodex.Benchmark.{complete_output_set}
use transcodex.Api.Reads.{
  Response, parse_limit, JobOutput, JobTimings, get_job, get_job_outputs, get_internal_jobs,
  status_text,
}
use transcodex.Api.Stats.{Stats, job_code, job_statuses}
use transcodex.Db.Groups.{count}
use transcodex.Api.Pages.{IsPage, get_internal_jobs-IsPage}
use transcodex.Api.Metrics.{Latency, Orders, lines, metrics, prefix}
use transcodex.Api.Scrape.{scrape, metrics-scrape}
use transcodex.Api.Stream.{events, stream_stats}
use transcodex.Api.Events.{stream_stats-IsExact, Sent}
use transcodex.Api.Shown.{IsShown, get_job-IsShown}
use transcodex.Api.Delivered.{process_job_delivers}
use transcodex.Api.Upload.{read_priority}
use transcodex.Api.Priority.{read_priority-show}
use transcodex.Env.{Environment}
use transcodex.Env.Decimals.{show}
use transcodex.Worker.Load as WorkerLoad
use transcodex.Worker.Load.{mode_text}
use transcodex.Startup.{Services}
use transcodex.Startup.Storage.{StorageConfig}
use transcodex.Startup.Programs.{new_server, new_worker, new_reaper}
use transcodex.Startup.Closing.{IsClean, new-IsClean}
use transcodex.Tests.Samples.{
  queued_db, queued_db-Inv, processing_db, processing_db-Inv, sample_worker, surroundings,
  sample_message,
}

get_internal_jobs-IsPage_example :
    (out : Response (List (ℕ × Job))) × (get_internal_jobs in_memory sorting
        (codes "10")
        (codes "queued")
        (calm queued_db 200 no_keys)
      ≡ (ok out, calm queued_db 200 no_keys))
    × IsPage sorting in_memory (codes "queued") (parse_limit (codes "10") 50 200) queued_db out
    × (parse_limit (codes "10") 50 200 ≤ 200)
get_internal_jobs-IsPage_example =
    get_internal_jobs-IsPage sorting in_memory (codes "10") (codes "queued") queued_db 200 no_keys

get_job-IsShown_example :
    (out : Response (Job × List JobOutput × JobTimings)) × (get_job in_memory sorting 7
        (calm processing_db 200 no_keys)
      ≡ (ok out, calm processing_db 200 no_keys))
    × IsShown in_memory sorting 7 processing_db out
get_job-IsShown_example =
    get_job-IsShown in_memory sorting 7 processing_db 200 no_keys processing_db-Inv

process_job_delivers_example :
    let w =
      calm
        (process_job in_memory sample_worker surroundings sample_message 40
          (codes "disk")
          (calm queued_db 110 no_keys)).1.db
        300
        no_keys in
    (outputs : List JobOutput) × (get_job_outputs in_memory sorting 7 w
      ≡ (ok (Response.success outputs), w))
    × (complete_output_set (map (λ o. type_text o.type) outputs) ≡ true)
process_job_delivers_example =
    process_job_delivers in_memory sorting sample_worker surroundings sample_message 40
      (codes "disk") queued_db 110 300 no_keys no_keys _ queued_db-Inv refl refl refl refl

abbrev kinds : List OutputType
kinds = OutputType.thumbnail ∷ OutputType.video_360p ∷ OutputType.thumbnail ∷ []

read_priority-show_example :
    read_priority (some (codes "  " ++ (show (negsuc 41) ++ codes " "))) ≡ some (negsuc 41)
read_priority-show_example =
    read_priority-show (negsuc 41) (codes "  ") (codes " ") refl (refl, (refl, tt)) (refl, tt)
      (omega arith)

abbrev all_sixty : Environment
all_sixty _ = codes "60"

sixty_small : (key : Text) (n : ℕ) → atoi (all_sixty key) ≡ some (pos n) → n ≤ 9223372036
unfolding atoi
sixty_small key n h = ground arith

load_config-positive_example :
    let s = WorkerLoad.load_config all_sixty in
    (pos 1 ≤ℤ s.heartbeat_interval)
    × (pos 1 ≤ℤ s.lease_ttl)
    × (pos 1 ≤ℤ s.poll_backoff)
    × (pos 1 ≤ℤ s.shutdown_grace_period)
    × ((m : ProcessingMode)
        → all_sixty (codes "WORKER_PROCESSING_MODE") ≡ mode_text m
        → s.processing_mode ≡ m)
    × (same_text (all_sixty (codes "WORKER_PROCESSING_MODE")) (mode_text ProcessingMode.sequential)
          ≡ false
        → s.processing_mode ≡ ProcessingMode.parallel)
load_config-positive_example = WorkerLoad.load_config-positive all_sixty sixty_small

-- The bucket cannot be checked.
abbrev services : Services
services = record {
  parses_database_url = λ _. true;
  creates_pool = λ _. true;
  pings_database = λ _. true;
  parses_redis_url = λ _. true;
  pings_redis = λ _. true;
  parse_url = λ _. some (record { scheme = codes "https"; host = codes "s3.example" });
  creates_storage = λ _ _. true;
  bucket_exists = λ _. none;
  registers = true;
}

abbrev storage : StorageConfig
storage = record {
  endpoint = codes "https://s3.example";
  access_key = codes "key";
  secret_key = codes "secret";
  bucket = codes "media";
  use_ssl = false;
}

new-IsClean_example :
    IsClean services [] (new_server services (codes "db") (codes "redis") storage [])
    × IsClean services [] (new_worker services (codes "db") (codes "redis") storage [])
    × IsClean services [] (new_reaper services (codes "db") (codes "redis") [])
new-IsClean_example = new-IsClean services (codes "db") (codes "redis") storage []

stream_stats-IsExact_example :
    (sent : List Stats) × ((stream_stats sorting in_memory
        (λ _. 1)
        true
        (2 ∷ 2 ∷ [])
        (calm processing_db 200 no_keys)).0
      ≡ ok (events sent))
    × (length sent ≡ 3)
    × Sent sorting in_memory (λ _. 1) processing_db no_keys 200 (2 ∷ 2 ∷ []) sent
stream_stats-IsExact_example =
    stream_stats-IsExact sorting in_memory (λ _. 1) processing_db no_keys (2 ∷ 2 ∷ []) 200

abbrev orders : Orders
orders = record {
  jobs = JobStatus.dead ∷ JobStatus.processing ∷ JobStatus.queued ∷ JobStatus.completed ∷ [];
  workers = [];
  attempts = [];
  latencies = Latency.total ∷ Latency.queue_wait ∷ [];
}

metrics-scrape_example :
    (page : List Text) × ((metrics sorting in_memory
        (λ _. 1)
        orders
        (calm processing_db 200 no_keys)).0
      ≡ ok (lines page))
    × ((k : JobStatus)
        → contains (job_code k) (map job_code orders.jobs) ≡ true
        → scrape (prefix (codes "transcodex_jobs") (status_text k)) page
          ≡ some (pos (count job_code k (job_statuses processing_db))))
    × (0 + 1 + 0 + 0 ≡ 1)
metrics-scrape_example =
    metrics-scrape sorting in_memory (λ _. 1) orders processing_db 200 no_keys (omega arith)
