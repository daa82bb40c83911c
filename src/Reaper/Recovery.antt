-- ===== src/Reaper/Recovery.antt =====
-- What the reaper's last pass achieves: the queued jobs that Redis has lost are queued there again.
use transcodex.Base.{
  ℕ, ◌≡◌, refl, ◌∙◌, sym, subst, ap, inl, inr, Bool, true, some, List, [], ◌∷◌, ==_refl, All,
  filter, map, arith, Bool-cases, Option-cases,
}
use transcodex.Base.Int.{ℤ}
use transcodex.Db.Table.{Table, lookup, has_key}
use transcodex.Db.Select.{All-found}
use transcodex.Db.Schema.{Db, Job}
use transcodex.Db.Sql.{ok}
use transcodex.Redis.{Redis}
use transcodex.Run.{calm, bind-then, ◌>>=◌, script, autocommit, transaction, pure}
use transcodex.Queue.{enqueue, enqueue_script, validate_priority}
use transcodex.Queue.Spec.{Waiting, waits, arrive, Represents}
use transcodex.Queue.Entries.{waits-append}
use transcodex.Queue.Refine.{enqueue_script-Represents}
use transcodex.Reaper.{Config}
use transcodex.Reaper.Transactions.{is_stale}
use transcodex.Reaper.Sweep.{
  queue_contains_job, enqueue_job, restore, for_each, recover_missing_queue_messages,
}

module _ {V : Type 0} (p : ℕ × V → Bool) (Q : ℕ → Type 0) where
  All-keys :
      (t : Table V) → ((k : ℕ) → has_key k t ≡ true → Q k) → All Q (map (λ e. e.0) (filter p t))
  All-keys [] h = tt
  All-keys ((k, v) ∷ t) h =
      let below = All-keys t (λ i l. h i (ground arith)) in
      elim (Bool-cases (p (k, v))) [
        | inl sure ↦ rw sure (h k (ground arith), below)
        | inr drop ↦ rw drop below
      ]

-- The job waits, or it waited.
waits-arrive :
    (i k : ℕ) (p : ℤ) (q : Waiting)
    → (waits k q ≡ true → waits k (arrive i p q) ≡ true) × (waits i (arrive i p q) ≡ true)
waits-arrive i k p q = elim (Bool-cases (waits i q)) [
  | inl old ↦ rw old (λ h. h, old)
  | inr new ↦ rw new (
    λ h. waits-append k i p q ∙ ground (arith, h),
    waits-append i i p q ∙ ground (arith, ==_refl i),
  )
]

module _ (r : Redis) where
  open r use {State, view, sismember_reply}

  -- The keys of the server hold this queue.
  abbrev Holds : State → Waiting → Type 0
  Holds s q = Represents (view s) q

  abbrev Grows : Waiting → Waiting → Type 0
  Grows q q' = (k : ℕ) → waits k q ≡ true → waits k q' ≡ true

  abbrev Restores : Db → ℕ → State → Waiting → ℕ → Type 0
  Restores db now s q i =
      (s' : State) × (q' : Waiting) × (restore r i (calm db now s) ≡ (ok tt, calm db now s'))
      × Holds s' q'
      × Grows q q'
      × (waits i q' ≡ true)

  restore_lem :
      (i now : ℕ) (db : Db) (s : State) (q : Waiting) (j : Job)
      → Holds s q
      → lookup i db.jobs ≡ some j
      → validate_priority j.priority ≡ true
      → Restores db now s q i
  unfolding restore queue_contains_job script enqueue autocommit enqueue_job transaction ◌>>=◌ pure
  restore_lem i now db s q j h l valid = elim (Bool-cases ((view s).members i)) [
    | inl old ↦ (s, q, rw (sismember_reply i s, old), h, λ k w. w, sym (h.members i) ∙ old)
    | inr new ↦ (
      (enqueue_script r i j.priority s).1,
      arrive i j.priority q,
      rw (sismember_reply i s, new, l, valid),
      (enqueue_script-Represents r i j.priority s q h).0,
      λ k. (waits-arrive i k j.priority q).0,
      (waits-arrive i i j.priority q).1,
    )
  ]

  abbrev Restorable : Db → ℕ → Type 0
  Restorable db i = (j : Job) × (lookup i db.jobs ≡ some j) × (validate_priority j.priority ≡ true)

  restore_ids :
      (now : ℕ) (db : Db) (ids : List ℕ) (s : State) (q : Waiting)
      → Holds s q
      → All (Restorable db) ids
      → (s' : State) × (q' : Waiting) × (for_each r (restore r) ids (calm db now s)
          ≡ (ok tt, calm db now s'))
        × Holds s' q'
        × Grows q q'
        × All (λ i. waits i q' ≡ true) ids
  unfolding for_each pure
  restore_ids now db [] s q h all = (s, q, refl, h, λ k m. m, tt)
  restore_ids now db (i ∷ ids) s q h ((j, l, valid), hs) =
      let (s1, q1, runs, h1, grows, done) = restore_lem i now db s q j h l valid in
      let (s2, q2, rest, h2, grow, all) = restore_ids now db ids s1 q1 h1 hs in
      (s2, q2, bind-then _ _ runs rest, h2, λ k m. grow k (grows k m), (grow i done, all))

  row_of :
      (db : Db)
      → ((i : ℕ) (j : Job) → lookup i db.jobs ≡ some j → validate_priority j.priority ≡ true)
      → (i : ℕ) → has_key i db.jobs ≡ true
      → Restorable db i
  row_of db valid i h = elim (Option-cases (lookup i db.jobs)) [
    | inl l ↦ absurd (ground arith)
    | inr (j, l) ↦ (j, l, valid i j l)
  ]

  -- In a world that answers every call, whose jobs have valid priorities and whose Redis holds a
  -- queue, the reaper's pass over the queued jobs succeeds, changes no table, and leaves Redis with
  -- a queue in which every job waits that waited before, and every job that has been queued in the
  -- table for longer than the threshold.
  pub recover_missing_queue_messages_restores :
      (c : Config) (db : Db) (now : ℕ) (s : State) (q : Waiting)
      → ((k : ℕ) (row : Job) → lookup k db.jobs ≡ some row → validate_priority row.priority ≡ true)
      → Represents (view s) q
      → let out = recover_missing_queue_messages r c (calm db now s) in
        (out.0 ≡ ok tt)
        × (out.1.db ≡ db)
        × ((q' : Waiting) × Represents (view out.1.cache) q'
            × ((k : ℕ) → waits k q ≡ true → waits k q' ≡ true)
            × ((i : ℕ) (j : Job)
                → lookup i db.jobs ≡ some j
                → is_stale c now (i, j) ≡ true
                → waits i q' ≡ true))
  unfolding recover_missing_queue_messages autocommit transaction ◌>>=◌
  recover_missing_queue_messages_restores c db now s q valid h =
      let (s', q', runs, h', grows, all) =
        restore_ids now db (map (λ e. e.0) (filter (is_stale c now) db.jobs)) s q h
          (All-keys (is_stale c now) (Restorable db) db.jobs (row_of db valid)) in
      (
        ap (λ out. out.0) runs,
        ap (λ out. out.1.db) runs,
        (
          q',
          subst (λ s. Represents (view s) q') (sym (ap (λ out. out.1.cache) runs)) h',
          grows,
          λ i j l old.
              All-found (is_stale c now) (λ e. e.0) (λ i. waits i q' ≡ true) db.jobs i j l old all,
        ),
      )
