-- ===== src/Worker/Media.antt =====
-- worker/internal/worker/processor.go: the FFmpeg tasks of a job and the upload of their outputs.
-- FFmpeg, the disk and the object store are calls whose fate is given.
use transcodex.Base.{ℕ, List, [], ◌∷◌, ◌++◌}
use transcodex.Base.Text.{codes}
use transcodex.Db.Schema.{Text, OutputType, ProcessingMode}
use transcodex.Db.Sql.{Result, ok, err}
use transcodex.Redis.{Redis}
use transcodex.Run.{M, pure, throw, external, attempt, ◌>>=◌, ◌>>◌}
use transcodex.Worker.{Config, Output, Surroundings}

-- `outputType360` and its siblings
abbrev pub type_text : OutputType → Text
type_text OutputType.video_360p = codes "video_360p"
type_text OutputType.video_720p = codes "video_720p"
type_text OutputType.video_1080p = codes "video_1080p"
type_text OutputType.thumbnail = codes "thumbnail"

-- `ffmpegTask`, with its arguments between the input and the output path
pub record FfmpegTask : Type 0 where
  pub output_type : OutputType
  pub file_name : Text
  pub content_type : Text
  pub args : Text → Text → List Text

abbrev scale_args : Text → Text → Text → List Text
scale_args scale input output =
    codes "-y"
    ∷ codes "-i"
    ∷ input
    ∷ codes "-vf"
    ∷ scale
    ∷ codes "-c:v"
    ∷ codes "libx264"
    ∷ codes "-preset"
    ∷ codes "veryfast"
    ∷ codes "-c:a"
    ∷ codes "aac"
    ∷ codes "-movflags"
    ∷ codes "+faststart"
    ∷ output
    ∷ []

abbrev thumbnail_args : Text → Text → List Text
thumbnail_args input output =
    codes "-y"
    ∷ codes "-ss"
    ∷ codes "00:00:01"
    ∷ codes "-i"
    ∷ input
    ∷ codes "-frames:v"
    ∷ codes "1"
    ∷ codes "-q:v"
    ∷ codes "2"
    ∷ output
    ∷ []

-- `tasks` of `runFFmpegJobs`
abbrev pub tasks : List FfmpegTask
tasks =
    record {
      output_type = OutputType.video_360p;
      file_name = codes "360p.mp4";
      content_type = codes "video/mp4";
      args = scale_args (codes "scale=-2:360");
    }
    ∷ record {
      output_type = OutputType.video_720p;
      file_name = codes "720p.mp4";
      content_type = codes "video/mp4";
      args = scale_args (codes "scale=-2:720");
    }
    ∷ record {
      output_type = OutputType.video_1080p;
      file_name = codes "1080p.mp4";
      content_type = codes "video/mp4";
      args = scale_args (codes "scale=-2:1080");
    }
    ∷ record {
      output_type = OutputType.thumbnail;
      file_name = codes "thumbnail.jpg";
      content_type = codes "image/jpeg";
      args = thumbnail_args;
    }
    ∷ []

-- filepath.Join of a directory and a name in it
abbrev pub join_path : Text → Text → Text
join_path dir name = dir ++ codes "/" ++ name

-- The element of `outputs` that a task writes.
abbrev pub task_output : Surroundings → Text → FfmpegTask → Output
task_output s work_dir t = record {
  type = t.output_type;
  local_path = join_path work_dir t.file_name;
  object_key = [];
  cdn_url = [];
  file_size = s.file_size t.output_type;
  content_type = t.content_type;
}

module _ (r : Redis) where
  -- `downloadInput`: GetObject, os.Create and io.Copy
  unfoldable pub download_input : M r (Unit {0})
  download_input = do external; external; external

  -- `runFFmpeg`: one command, whose output is only read for the text of its error
  unfoldable pub run_ffmpeg : M r (Unit {0})
  run_ffmpeg = external

  -- `runFFmpeg`, then os.Stat
  unfoldable pub run_task : Surroundings → Text → FfmpegTask → M r Output
  unfolding run_ffmpeg
  run_task s work_dir t = do run_ffmpeg; external; pure (task_output s work_dir t)

  -- A loop that returns at the first error.
  unfoldable pub one_by_one : {A B : Type 0} → (A → M r B) → List A → M r (List B)
  one_by_one f [] = pure []
  one_by_one f (x ∷ xs) = do y ← f x; ys ← one_by_one f xs; pure (y ∷ ys)

  abbrev pub join : {A : Type 0} → Result A → Result (List A) → M r (List A)
  join (ok y) (ok ys) = pure (y ∷ ys)
  join (err e) _ = throw e
  join (ok _) (err e) = throw e

  -- errgroup: every function runs, and Wait returns an error if one of them did.
  unfoldable pub all_at_once : {A B : Type 0} → (A → M r B) → List A → M r (List B)
  all_at_once f [] = pure []
  all_at_once f (x ∷ xs) = do y ← attempt (f x); ys ← attempt (all_at_once f xs); join y ys

  -- `runFFmpegJobs`
  unfoldable pub run_ffmpeg_jobs : Surroundings → Text → ProcessingMode → M r (List Output)
  run_ffmpeg_jobs s work_dir ProcessingMode.sequential = one_by_one (run_task s work_dir) tasks
  run_ffmpeg_jobs s work_dir ProcessingMode.parallel = all_at_once (run_task s work_dir) tasks

-- `cdnURL`
abbrev pub cdn_url : Config → Text → Text
cdn_url c key = elim c.cdn_base_url [
  | [] ↦ codes "/" ++ key
  | (x ∷ base) ↦ (x ∷ base) ++ codes "/" ++ key
]

-- The key of an output in the object store: prefix/job/attempt/type.
abbrev pub output_key : Config → Surroundings → ℕ → ℕ → OutputType → Text
output_key c s job_id attempt_id t =
    c.output_prefix
    ++ codes "/"
    ++ s.show_id job_id
    ++ codes "/"
    ++ s.show_id attempt_id
    ++ codes "/"
    ++ type_text t

abbrev pub uploaded : Config → Surroundings → ℕ → ℕ → Output → Output
uploaded c s job_id attempt_id o =
    let key = output_key c s job_id attempt_id o.type in
    record o { object_key = key; cdn_url = cdn_url c key }

module _ (r : Redis) where
  -- os.Open, then PutObject
  unfoldable pub upload_output : Config → Surroundings → ℕ → ℕ → Output → M r Output
  upload_output c s job_id attempt_id o = do
    external
    external
    pure (uploaded c s job_id attempt_id o)

  -- `uploadOutputs`
  unfoldable pub upload_outputs : Config → Surroundings → ℕ → ℕ → List Output → M r (List Output)
  upload_outputs c s job_id attempt_id = all_at_once r (upload_output c s job_id attempt_id)
