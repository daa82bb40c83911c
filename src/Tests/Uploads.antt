-- ===== src/Tests/Uploads.antt =====
-- The theorem on accepted uploads, at a form with a priority and a file.
use transcodex.Base.{◌≡◌, refl, some, [], ◌∷◌, true, List}
use transcodex.Base.Text.{codes, atoi}
use transcodex.Db.Table.{lookup}
use transcodex.Db.Schema.{Job, JobStatus}
use transcodex.Redis.{in_memory, no_keys}
use transcodex.Run.{World, calm, ◌>>=◌, attempt, transaction, pure}
use transcodex.Api.Upload.{
  Part, priority_part, file_part, upload, read_priority, read_parts, store_upload,
}
use transcodex.Api.Accepted.{upload_accepted}
use transcodex.Api.Form.{has_object}
use transcodex.Api.Enqueue.{create_queued_job}
use transcodex.Api.Create.{create_job}
use transcodex.Db.Statements.{insert_job}
use transcodex.System.{empty_db}
use transcodex.Tests.Samples.{api_config}

abbrev form : List Part
form =
    priority_part (some (codes "5"))
    ∷ file_part (record {
      base_name = codes "cat.mp4";
      content_type = codes "video/mp4";
      detected_type = codes "video/mp4";
      size = 5000;
      is_readable = true;
      is_stored = true;
    })
    ∷ []

abbrev start : World in_memory
start = calm empty_db 100 no_keys

upload_accepted_example :
    let db = (upload in_memory api_config 7 (codes "7") form [] start).1.db in
    (j : Job) × (lookup 7 db.jobs ≡ some j)
    × (j.status ≡ JobStatus.queued)
    × (has_object j.input_file (codes "uploads/7/cat.mp4" ∷ []) ≡ true)
unfolding upload read_parts read_priority atoi store_upload ◌>>=◌ attempt create_queued_job
    transaction create_job insert_job pure
upload_accepted_example =
    upload_accepted in_memory api_config 7 (codes "7") form [] (codes "uploads/7/cat.mp4" ∷ [])
      start refl
