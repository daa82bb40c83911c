-- ===== src/Tests/Leaders.antt =====
-- The theorems on the reapers' lock key, on the renewal of leases, and on the paths of the handlers, at concrete worlds.
use transcodex.Base.{ℕ, ◌+◌, ◌≤◌, true, false, ◌≡◌, refl, some, [], ◌∷◌, arith}
use transcodex.Db.Table.{lookup}
use transcodex.Db.Schema.{Attempt}
use transcodex.Db.Sql.{ok}
use transcodex.Worker.Renewal.{
  renew_tick, renew_lease_until_done, renew_lease_cancels, renew_tick_protects,
}
use transcodex.Reaper.Transactions.{is_expired}
use transcodex.Redis.{in_memory, no_keys}
use transcodex.Run.{World, calm, lock_script, answered, lost}
use transcodex.Reaper.Lock.{acquire, refresh, is_holder}
use transcodex.Reaper.Refresh.{Refreshing, Others, leader_kept}
use transcodex.Reaper.Mutex.{View, Turns, Turn, acquired, refreshed, leader_unique}
use transcodex.Tests.Samples.{
  queued_db, processing_db, reaper_config, sample_worker, sample_attempt,
}

-- Reaper 1 asks and the request is lost; it asks again, and so does reaper 2.
abbrev start : World in_memory
start = record (calm processing_db 500 no_keys) { fates = lost ∷ answered ∷ [] }

abbrev thirty : ℕ → ℕ
thirty k = 30

abbrev led : View in_memory thirty
led = acquired in_memory thirty 2 (
    acquired in_memory thirty 1
      (acquired in_memory thirty 1 (record { world = start; beliefs = λ k. 0 })))

leader_unique_example : ◌≡◌ {A = ℕ} 1 1
unfolding lock_script acquire
leader_unique_example =
    leader_unique in_memory thirty start led 1 1
      (Turns.next (Turns.next (Turns.next Turns.here (Turn.lead 1)) (Turn.lead 1)) (Turn.lead 2))
      (omega arith) (omega arith)

-- Reaper 1 takes the key; ten seconds later, when reaper 2 has asked in vain, it refreshes the key;
-- another ten seconds pass.
abbrev free : View in_memory thirty
free = record { world = calm processing_db 500 no_keys; beliefs = λ k. 0 }

abbrev taken : View in_memory thirty
taken = acquired in_memory thirty 1 free

abbrev pass : View in_memory thirty → View in_memory thirty
pass v = record v { world = record v.world { now = v.world.now + 10 } }

abbrev asked : View in_memory thirty
asked = pass (acquired in_memory thirty 2 taken)

abbrev again : View in_memory thirty
again = refreshed in_memory thirty 1 asked

leader_kept_example :
    (is_holder 1 (pass again).world.now (pass again).world.lock ≡ true)
    × ((acquire 2 30 (pass again).world.now (pass again).world.lock).0 ≡ false)
unfolding lock_script acquire refresh
leader_kept_example =
    leader_kept in_memory thirty 1 2 free again (pass again) (omega arith) refl refl
      (Refreshing.tick asked Refreshing.begun
        (Others.other asked.world refl (omega arith) (Others.lead 2 (omega arith) Others.here))
        (omega arith) refl)
      (Others.other (pass again).world refl (omega arith) Others.here) (omega arith)

renew_lease_cancels_example :
    let out = renew_lease_until_done in_memory sample_worker 40 3 (calm queued_db 110 no_keys) in
    (out.0 ≡ ok false) × (out.1.db ≡ queued_db)
renew_lease_cancels_example =
    renew_lease_cancels in_memory sample_worker 40 2 (calm queued_db 110 no_keys) refl

renew_tick_protects_example :
    let out = renew_tick in_memory sample_worker 40 (calm processing_db 150 no_keys) in
    (out.0 ≡ ok true)
    × ((y : Attempt) × (lookup 40 out.1.db.job_attempts ≡ some y)
        × ((t : ℕ) → t ≤ 240 → is_expired reaper_config t (40, y) ≡ false))
renew_tick_protects_example =
    renew_tick_protects in_memory sample_worker 40 processing_db 150 no_keys sample_attempt
      reaper_config refl refl
