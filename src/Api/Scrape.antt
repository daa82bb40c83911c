-- ===== src/Api/Scrape.antt =====
-- What a reader of the metrics finds in their lines.
use transcodex.Base.{
  ℕ, ◌≤◌, ◌≡◌, ap, true, Option, none, some, List, [], ◌∷◌, ◌++◌, ◌==◌, if◌then◌else◌, map,
  contains, arith, length, length-map, ◌+◌, ◌∙◌,
}
use transcodex.Base.Int.{ℤ, pos}
use transcodex.Base.Text.{codes, atoi, max_int64}
use transcodex.Db.Schema.{Text, JobStatus, Db}
use transcodex.Db.Sql.{ok}
use transcodex.Db.Postgres.{Postgres}
use transcodex.Redis.{Redis}
use transcodex.Run.{calm, attempt, pure, ◌>>=◌}
use transcodex.Env.Decimals.{atoi-show}
use transcodex.Api.Reads.{status_text}
use transcodex.Api.Stats.{Stats, job_code, job_statuses}
use transcodex.Db.Groups.{count}
use transcodex.Api.Totals.{collect_stats-IsExact, job_partition}
use transcodex.Api.Metrics.{Orders, prefix, sample, body, lines, exposed, metrics}

-- What follows a text in a line
abbrev strip : Text → Text → Option Text
strip [] l = some l
strip (x ∷ p) [] = none
strip (x ∷ p) (y ∷ l) = let rest = strip p l in if x == y then rest else none

-- The number in the first line that begins with a text
abbrev pub scrape : Text → List Text → Option ℤ
scrape p [] = none
scrape p (l ∷ ls) = elim (strip p l) [ none ↦ scrape p ls | some t ↦ atoi t ]

jobs-scrape :
    (k : JobStatus) (ks : List JobStatus) (s : Stats) (rest : List Text)
    → contains (job_code k) (map job_code ks) ≡ true
    → s.jobs k ≤ max_int64
    → scrape
        (prefix (codes "transcodex_jobs") (status_text k))
        (map (λ i. sample (codes "transcodex_jobs") (status_text i) (s.jobs i)) ks ++ rest)
      ≡ some (pos (s.jobs k))
jobs-scrape k [] s rest h small = absurd (cc)
jobs-scrape JobStatus.queued (JobStatus.queued ∷ ks) s rest h small =
    atoi-show (pos (s.jobs JobStatus.queued)) (omega arith) (omega arith)
jobs-scrape JobStatus.queued (JobStatus.processing ∷ ks) s rest h small =
    jobs-scrape JobStatus.queued ks s rest h small
jobs-scrape JobStatus.queued (JobStatus.completed ∷ ks) s rest h small =
    jobs-scrape JobStatus.queued ks s rest h small
jobs-scrape JobStatus.queued (JobStatus.dead ∷ ks) s rest h small =
    jobs-scrape JobStatus.queued ks s rest h small
jobs-scrape JobStatus.processing (JobStatus.queued ∷ ks) s rest h small =
    jobs-scrape JobStatus.processing ks s rest h small
jobs-scrape JobStatus.processing (JobStatus.processing ∷ ks) s rest h small =
    atoi-show (pos (s.jobs JobStatus.processing)) (omega arith) (omega arith)
jobs-scrape JobStatus.processing (JobStatus.completed ∷ ks) s rest h small =
    jobs-scrape JobStatus.processing ks s rest h small
jobs-scrape JobStatus.processing (JobStatus.dead ∷ ks) s rest h small =
    jobs-scrape JobStatus.processing ks s rest h small
jobs-scrape JobStatus.completed (JobStatus.queued ∷ ks) s rest h small =
    jobs-scrape JobStatus.completed ks s rest h small
jobs-scrape JobStatus.completed (JobStatus.processing ∷ ks) s rest h small =
    jobs-scrape JobStatus.completed ks s rest h small
jobs-scrape JobStatus.completed (JobStatus.completed ∷ ks) s rest h small =
    atoi-show (pos (s.jobs JobStatus.completed)) (omega arith) (omega arith)
jobs-scrape JobStatus.completed (JobStatus.dead ∷ ks) s rest h small =
    jobs-scrape JobStatus.completed ks s rest h small
jobs-scrape JobStatus.dead (JobStatus.queued ∷ ks) s rest h small =
    jobs-scrape JobStatus.dead ks s rest h small
jobs-scrape JobStatus.dead (JobStatus.processing ∷ ks) s rest h small =
    jobs-scrape JobStatus.dead ks s rest h small
jobs-scrape JobStatus.dead (JobStatus.completed ∷ ks) s rest h small =
    jobs-scrape JobStatus.dead ks s rest h small
jobs-scrape JobStatus.dead (JobStatus.dead ∷ ks) s rest h small =
    atoi-show (pos (s.jobs JobStatus.dead)) (omega arith) (omega arith)

count_bounded : (k : JobStatus) (ss : List JobStatus) → count job_code k ss ≤ length ss
count_bounded k [] = omega arith
count_bounded k (s ∷ ss) = ground (arith, count_bounded k ss)

body-scrape :
    (k : JobStatus) (o : Orders) (s : Stats)
    → contains (job_code k) (map job_code o.jobs) ≡ true
    → s.jobs k ≤ max_int64
    → scrape (prefix (codes "transcodex_jobs") (status_text k)) (body o s) ≡ some (pos (s.jobs k))
body-scrape JobStatus.queued o s h small = jobs-scrape JobStatus.queued o.jobs s _ h small
body-scrape JobStatus.processing o s h small = jobs-scrape JobStatus.processing o.jobs s _ h small
body-scrape JobStatus.completed o s h small = jobs-scrape JobStatus.completed o.jobs s _ h small
body-scrape JobStatus.dead o s h small = jobs-scrape JobStatus.dead o.jobs s _ h small

-- The metrics are read back: with its queries answered, `metrics` replies with lines from which the count
-- of each status of a job is read as the decimal number after its name, which is the number of jobs
-- that have this status, whatever the order in which the maps are visited, if that of the jobs has
-- the status; and these four numbers add up to the jobs.
pub metrics-scrape :
    (pg : Postgres) (r : Redis) (scard : r.State → ℕ) (o : Orders) (db : Db) (now : ℕ) (c : r.State)
    → length db.jobs ≤ max_int64
    → let n : JobStatus → ℕ = λ k. count job_code k (job_statuses db) in
      (page : List Text) × ((metrics pg r scard o (calm db now c)).0 ≡ ok (lines page))
      × ((k : JobStatus)
          → contains (job_code k) (map job_code o.jobs) ≡ true
          → scrape (prefix (codes "transcodex_jobs") (status_text k)) page ≡ some (pos (n k)))
      × (n JobStatus.queued + n JobStatus.processing + n JobStatus.completed + n JobStatus.dead
          ≡ length db.jobs)
unfolding metrics attempt pure ◌>>=◌
metrics-scrape pg r scard o db now c small =
    let (s, e, exact) = collect_stats-IsExact pg r scard db now c in
    let jobs = exact.1 in
    let rows = length-map (λ e. e.1.status) db.jobs in
    (
      body o s,
      ap (λ p. ok (exposed o p.0)) e,
      λ k h.
          body-scrape k o s h
            (omega (arith, jobs k, count_bounded k (job_statuses db), rows, small))
          ∙ ap (λ n. some (pos n)) (jobs k),
      omega (arith, job_partition (job_statuses db), rows),
    )
