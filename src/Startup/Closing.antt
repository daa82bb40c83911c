-- ===== src/Startup/Closing.antt =====
-- No connection is left open by a program that fails to start, and none by one that is closed.
use transcodex.Base.{◌≡◌, refl, ◌⊎◌, inl, inr, List, ◌∷◌, Bool-cases}
use transcodex.Db.Schema.{Text}
use transcodex.Env.{is_empty}
use transcodex.Startup.{
  Connection, pool, client, Services, Outcome, opened, failed, StartError, new_pool, new_redis,
}
use transcodex.Startup.Storage.{StorageConfig, Client, new_storage}
use transcodex.Startup.Programs.{
  close_all, after_storage, after_redis, after_pool, new_server, after_register, new_worker,
  reaper_redis, reaper_pool, new_reaper,
}

-- Either nothing more is open, or the connection is.
abbrev Opens : Connection → List Connection → Outcome Connection × List Connection → Type 0
Opens k live out = ((e : StartError) × (out ≡ (failed e, live))) ⊎ (out ≡ (opened k, k ∷ live))

module _ (s : Services) where
  new_pool-Opens : (url : Text) (live : List Connection) → Opens pool live (new_pool s url live)
  unfolding new_pool
  new_pool-Opens url live = elim (Bool-cases (is_empty url)) [
    | inl e ↦ rw e (inl (_, refl))
    | inr e ↦ rw e (elim (Bool-cases (s.parses_database_url url)) [
      | inr f ↦ rw f (inl (_, refl))
      | inl f ↦ rw f (elim (Bool-cases (s.creates_pool url)) [
        | inr g ↦ rw g (inl (_, refl))
        | inl g ↦ rw g (elim (Bool-cases (s.pings_database url)) [
          | inr h ↦ rw h (inl (_, refl))
          | inl h ↦ rw h (inr refl)
        ])
      ])
    ])
  ]

  new_redis-Opens : (url : Text) (live : List Connection) → Opens client live (new_redis s url live)
  unfolding new_redis
  new_redis-Opens url live = elim (Bool-cases (is_empty url)) [
    | inl e ↦ rw e (inl (_, refl))
    | inr e ↦ rw e (elim (Bool-cases (s.parses_redis_url url)) [
      | inr f ↦ rw f (inl (_, refl))
      | inl f ↦ rw f (elim (Bool-cases (s.pings_redis url)) [
        | inr h ↦ rw h (inl (_, refl))
        | inl h ↦ rw h (inr refl)
      ])
    ])
  ]

  -- A start that failed leaves the open connections as they were; one that succeeded leaves both
  -- connections open, and `Close` closes them.
  abbrev pub IsClean : {A : Type 0} → List Connection → Outcome A × List Connection → Type 0
  IsClean live (failed e, now) = now ≡ live
  IsClean live (opened a, now) = (now ≡ client ∷ pool ∷ live) × (close_all now ≡ live)

  after_storage-IsClean :
      (o : Outcome Client) (live : List Connection)
      → IsClean live (after_storage s o (client ∷ pool ∷ live))
  after_storage-IsClean (failed e) live = refl
  after_storage-IsClean (opened k) live = (refl, refl)

  after_redis-IsClean :
      (c : StorageConfig) (live : List Connection) (out : Outcome Connection × List Connection)
      → Opens client (pool ∷ live) out
      → IsClean live (after_redis s c out)
  after_redis-IsClean c live out (inl (e, h)) = rw (h, IsClean) refl
  after_redis-IsClean c live out (inr h) =
      rw (h, IsClean) (after_storage-IsClean (new_storage s c) live)

  after_pool-IsClean :
      (url : Text) (c : StorageConfig) (live : List Connection)
      (out : Outcome Connection × List Connection)
      → Opens pool live out
      → IsClean live (after_pool s url c out)
  after_pool-IsClean url c live out (inl (e, h)) = rw (h, IsClean) refl
  after_pool-IsClean url c live out (inr h) =
      rw (h, IsClean) (after_redis-IsClean c live _ (new_redis-Opens url (pool ∷ live)))

  after_register-IsClean :
      (live : List Connection) (out : Outcome Client × List Connection)
      → IsClean live out
      → IsClean live (after_register s out)
  after_register-IsClean live (failed e, now) h = h
  after_register-IsClean live (opened k, now) (h, closed) = elim (Bool-cases s.registers) [
    | inl e ↦ rw e (h, closed)
    | inr e ↦ rw e closed
  ]

  reaper_redis-IsClean :
      (live : List Connection) (out : Outcome Connection × List Connection)
      → Opens client (pool ∷ live) out
      → IsClean live (reaper_redis s out)
  reaper_redis-IsClean live out (inl (e, h)) = rw (h, IsClean) refl
  reaper_redis-IsClean live out (inr h) = rw (h, IsClean) (refl, refl)

  reaper_pool-IsClean :
      (url : Text) (live : List Connection) (out : Outcome Connection × List Connection)
      → Opens pool live out
      → IsClean live (reaper_pool s url out)
  reaper_pool-IsClean url live out (inl (e, h)) = rw (h, IsClean) refl
  reaper_pool-IsClean url live out (inr h) =
      rw (h, IsClean) (reaper_redis-IsClean live _ (new_redis-Opens url (pool ∷ live)))

  -- Whatever the libraries and the servers answer, a program that fails to start, at whichever step,
  -- leaves no connection of its own open, and one that starts holds a pool and a Redis client, which
  -- its `Close` closes: for the API server, the worker and the reaper.
  pub new-IsClean :
      (database_url redis_url : Text) (c : StorageConfig) (live : List Connection)
      → IsClean live (new_server s database_url redis_url c live)
        × IsClean live (new_worker s database_url redis_url c live)
        × IsClean live (new_reaper s database_url redis_url live)
  unfolding new_server new_worker new_reaper
  new-IsClean database_url redis_url c live =
      let server = after_pool-IsClean redis_url c live _ (new_pool-Opens database_url live) in
      (
        server,
        after_register-IsClean live _ server,
        elim (Bool-cases (is_empty database_url)) [
          | inl e ↦ rw e refl
          | inr e ↦ rw e (elim (Bool-cases (is_empty redis_url)) [
            | inl f ↦ rw f refl
            | inr f ↦ rw f (reaper_pool-IsClean redis_url live _ (new_pool-Opens database_url live))
          ])
        ],
      )
