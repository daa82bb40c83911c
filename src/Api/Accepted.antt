-- ===== src/Api/Accepted.antt =====
-- What the client may rely on when `upload` answers that a job is accepted.
use transcodex.Base.{
  ℕ, ◌≡◌, refl, ◌∙◌, ap, inl, inr, true, some, List, ◌∷◌, arith, Bool-cases, Option-cases,
}
use transcodex.Base.Int.{ℤ, pos, negsuc}
use transcodex.Db.Table.{lookup}
use transcodex.Db.Schema.{Text, Job, JobStatus, Db}
use transcodex.Db.Sql.{Result, ok, err, commit, constraint}
use transcodex.Redis.{Redis}
use transcodex.Run.{
  World, M, Fate, answered, lost, unacknowledged, fate, later, settle, settle_script, pure, throw,
  script, attempt, transaction, ◌>>=◌,
}
use transcodex.Db.Sql
use transcodex.Db.Effects.{insert_job_cases}
use transcodex.Queue.{validate_priority, enqueue}
use transcodex.Api.Create.{create_job, new_job}
use transcodex.Api.Enqueue.{create_queued_job}
use transcodex.Api.{Config}
use transcodex.Api.Upload.{
  Part, Parsed, parsed, rejected, read_parts, empty_form, Reply, submit, answer, upload,
}
use transcodex.Api.Form.{has_object, Good, read_parts-Good}

module _ (r : Redis) where
  abbrev SameDb : {A : Type 0} → M r A → Type 0
  SameDb m = (w : World r) → (m w).1.db ≡ w.db

  bind-SameDb :
      {A B : Type 0} (m : M r A) (f : A → M r B)
      → SameDb m
      → ((a : A) → SameDb (f a))
      → SameDb (m >>= f)
  unfolding ◌>>=◌
  bind-SameDb {A} {B} m f hm hf w = go (m w).0 (m w).1 (hm w)
    where
      go :
          (res : Result A) (w' : World r)
          → w'.db ≡ w.db
          → (let out : Result B × World r = elim res [ ok a ↦ f a w' | err e ↦ (err e, w') ] in
              out).1.db
            ≡ w.db
      go (ok a) w' e = hf a w' ∙ e
      go (err x) w' e = e

  script-SameDb : {A : Type 0} (f : r.State → A × r.State) → SameDb (script f)
  unfolding script
  script-SameDb {A} f w = go (fate w.fates)
    where
      go :
          (t : Fate)
          → (settle_script (f w.cache) t (record w { fates = later w.fates })).1.db ≡ w.db
      go answered = refl
      go lost = refl
      go unacknowledged = refl

  enqueue-SameDb : (i : ℕ) (p : ℤ) → SameDb (enqueue r i p)
  unfolding enqueue pure throw
  enqueue-SameDb i p = elim (Bool-cases (validate_priority p)) [
    | inl valid ↦ rw valid (bind-SameDb _ _ (script-SameDb _) (λ _ w. refl))
    | inr invalid ↦ rw invalid (λ w. refl)
  ]

  -- A success has left the job's row, queued and with its input.
  abbrev Row : ℕ → Text → Db → Type 0
  Row i key db =
      (j : Job) × (lookup i db.jobs ≡ some j) × (j.status ≡ JobStatus.queued) × (j.input_file ≡ key)

  abbrev Inserted : ℕ → Text → Result (Unit {0}) × World r → Type 0
  Inserted i key (ok _, w) = Row i key w.db
  Inserted i key (err _, w) = Unit {0}

  settle-Inserted :
      (i : ℕ) (key : Text) (db : Db) (t : Fate) (w : World r)
      → Row i key db
      → Inserted i key (settle (commit tt) db t w)
  settle-Inserted i key db answered w h = h
  settle-Inserted i key db lost w h = tt
  settle-Inserted i key db unacknowledged w h = tt

  transaction_runs :
      {A : Type 0} (body : Sql.Sql (Sql.Decision A)) (res : Result (Sql.Decision A × Db))
      (w : World r)
      → body w.now w.db ≡ res
      → transaction {r = r} body w ≡ (
          let next = record w { fates = later w.fates } in
          let out : Result A × World r = elim res [
            | ok (d, db) ↦ settle d db (fate w.fates) next
            | err e ↦ (err e, next)
          ] in
          out)
  unfolding transaction
  transaction_runs {A} body res w e =
      ap
        (λ res.
          let next = record w { fates = later w.fates } in
          let out : Result A × World r = elim res [
            | ok (d, db) ↦ settle d db (fate w.fates) next
            | err e ↦ (err e, next)
          ] in
          out)
        e

  transaction-Inserted :
      (i : ℕ) (key : Text) (p retries : ℤ) (w : World r)
      → Inserted i key (transaction (create_job i key p retries) w)
  unfolding create_job
  transaction-Inserted i key p (negsuc n) w =
      rw (transaction_runs (create_job i key p (negsuc n)) (err constraint) w refl) tt
  transaction-Inserted i key p (pos n) w =
      elim (insert_job_cases i (new_job w.now n p key) w.now w.db) [
        | inl taken ↦
            rw
              (transaction_runs (create_job i key p (pos n)) (err constraint) w
                (rw (taken, Sql.◌>>=◌)))
              tt
        | inr (fresh, inserted) ↦
            rw
              (transaction_runs (create_job i key p (pos n)) (ok (commit tt, written n)) w
                (rw (inserted, Sql.◌>>=◌)))
              (settle-Inserted i key (written n) (fate w.fates) (record w { fates = later w.fates })
                (new_job w.now n p key, ground arith, refl, refl))
      ]
    where
      written : ℕ → Db
      written n = record w.db { jobs = (i, new_job w.now n p key) ∷ w.db.jobs }

  create-Inserted :
      (c : Config) (i : ℕ) (key : Text) (p : ℤ) (w : World r)
      → Inserted i key (create_queued_job r c i key p w)
  unfolding create_queued_job ◌>>=◌ attempt pure
  create-Inserted c i key p w =
      go (transaction (create_job i key p c.worker_max_retries) w)
        (transaction-Inserted i key p c.worker_max_retries w)
    where
      go :
          (out : Result (Unit {0}) × World r)
          → Inserted i key out
          → Inserted i key (
              let next : Result (Unit {0}) × World r = elim out.0 [
                | ok _ ↦ (ok tt, (enqueue r i p out.1).1)
                | err e ↦ (err e, out.1)
              ] in
              next)
      go (ok _, w') h = rw (enqueue-SameDb i p w') h
      go (err e, w') h = tt

  -- What an answer of `accepted` promises.
  abbrev Promise : ℕ → Result (Reply × List Text) × World r → Type 0
  Promise i (ok (Reply.accepted, held), w) =
      (key : Text) × Row i key w.db × (has_object key held ≡ true)
  Promise i (ok (_, held), w) = Unit {0}
  Promise i (err _, w) = Unit {0}

  answer-Promise :
      (i : ℕ) (key : Text) (objects : List Text) (out : Result (Unit {0}) × World r)
      → has_object key objects ≡ true
      → Inserted i key out
      → Promise i (answer r key objects out.0 out.1)
  unfolding pure
  answer-Promise i key objects (ok _, w) present h = (key, h, present)
  answer-Promise i key objects (err e, w) present h = tt

  submit-Promise :
      (c : Config) (i : ℕ) (out : Parsed × List Text) (w : World r)
      → Good out
      → Promise i (submit r c i out.0 out.1 w)
  unfolding submit ◌>>=◌ attempt pure
  submit-Promise c i (rejected Reply.accepted, held) w h = absurd h
  submit-Promise c i (rejected Reply.bad_request, held) w h = tt
  submit-Promise c i (rejected Reply.server_error, held) w h = tt
  submit-Promise c i (parsed form, held) w h = elim (Option-cases form.input_file) [
    | inl e ↦ rw (e, Promise) tt
    | inr (key, e) ↦
        rw (e, Promise)
          (answer-Promise i key held (create_queued_job r c i key form.priority w) (h key e)
            (create-Inserted c i key form.priority w))
  ]

  -- Whatever the form and whatever becomes of its calls, if `upload` answers that the job is
  -- accepted, then the job's row is in the tables, queued, and the object store holds its input.
  pub upload_accepted :
      (c : Config) (i : ℕ) (job : Text) (parts : List Part) (objects held : List Text) (w : World r)
      → (upload r c i job parts objects w).0 ≡ ok (Reply.accepted, held)
      → let db = (upload r c i job parts objects w).1.db in
        (j : Job) × (lookup i db.jobs ≡ some j)
        × (j.status ≡ JobStatus.queued)
        × (has_object j.input_file held ≡ true)
  unfolding upload
  upload_accepted c i job parts objects held w e =
      let read = read_parts c job parts empty_form objects in
      let good : Good read =
        read_parts-Good c job parts empty_form objects (λ key e. absurd (cc)) in
      go (submit r c i read.0 read.1 w).0 (submit r c i read.0 read.1 w).1 e
        (submit-Promise c i read w good)
    where
      go :
          (res : Result (Reply × List Text)) (u : World r)
          → res ≡ ok (Reply.accepted, held)
          → Promise i (res, u)
          → (j : Job) × (lookup i u.db.jobs ≡ some j)
            × (j.status ≡ JobStatus.queued)
            × (has_object j.input_file held ≡ true)
      go res u e h =
          let (key, (j, l, q, same), present) : Promise i (ok (Reply.accepted, held), u) =
            rw e at h in
          (j, l, q, rw same present)
