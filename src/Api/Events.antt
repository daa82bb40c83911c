-- ===== src/Api/Events.antt =====
-- What the stream of statistics sends where every call is answered.
use transcodex.Base.{ℕ, suc, ◌+◌, ◌≡◌, refl, true, List, [], ◌∷◌, length, ap, arith}
use transcodex.Db.Schema.{Db}
use transcodex.Db.Sql.{ok}
use transcodex.Db.Postgres.{Postgres}
use transcodex.Redis.{Redis}
use transcodex.Run.{calm, bind-then, attempt, external, sleep, pure, ◌>>◌}
use transcodex.Api.Stats.{Stats, collect_stats}
use transcodex.Api.Stream.{events, write_stats_event, send_events, stream_stats}
use transcodex.Api.Totals.{IsExact, collect_stats-IsExact}

module _ (pg : Postgres) (r : Redis) (scard : r.State → ℕ) (db : Db) (c : r.State) where
  -- One event for each of the times: now, and after each wait
  abbrev pub Sent : ℕ → List ℕ → List Stats → Type 0
  Sent now [] (s ∷ []) = IsExact (scard c) now db s
  Sent now (seconds ∷ ticks) (s ∷ sent) =
      IsExact (scard c) now db s × Sent (now + seconds) ticks sent
  Sent now _ _ = ⊥

  write_ok :
      (now : ℕ)
      → (s : Stats) × (attempt (write_stats_event pg r scard) (calm db now c)
          ≡ (ok (ok s), calm db now c))
        × IsExact (scard c) now db s
  unfolding attempt write_stats_event external pure
  write_ok now =
      let (s, e, exact) = collect_stats-IsExact pg r scard db now c in
      let written = bind-then (collect_stats pg r scard) _ e (bind-then external _ refl refl) in
      (s, ap (λ p. (ok p.0, p.1)) written, exact)

  send_events_ok :
      (ticks : List ℕ) (now : ℕ)
      → (sent : List Stats) × (later : ℕ) × (send_events pg r scard ticks (calm db now c)
          ≡ (ok sent, calm db later c))
        × (length sent ≡ suc (length ticks))
        × Sent now ticks sent
  unfolding send_events sleep pure
  send_events_ok [] now =
      let (s, e, exact) = write_ok now in
      (s ∷ [], now, bind-then (attempt (write_stats_event pg r scard)) _ e refl, refl, exact)
  send_events_ok (seconds ∷ ticks) now =
      let (s, e, exact) = write_ok now in
      let (sent, later, rest, count, all) = send_events_ok ticks (now + seconds) in
      (
        s ∷ sent,
        later,
        bind-then (attempt (write_stats_event pg r scard)) _ e (
            bind-then (sleep seconds >> send_events pg r scard ticks) _
              (bind-then (sleep seconds) _ refl rest) refl),
        omega (arith, count),
        (exact, all),
      )

  -- With its calls answered, and over a writer that can be flushed, `streamStats` sends an event at once
  -- and one at each tick. In every event the queue depth is the number that Redis replies; the jobs,
  -- attempts and workers of each status are as many as the tables hold, and all of them together as
  -- many as there are rows; the throughput counts the jobs completed within a minute; and the two
  -- ages are those of the longest queued job and of the longest running attempt at that time, or
  -- none where there is none.
  pub stream_stats-IsExact :
      (ticks : List ℕ) (now : ℕ)
      → (sent : List Stats) × ((stream_stats pg r scard true ticks (calm db now c)).0
          ≡ ok (events sent))
        × (length sent ≡ suc (length ticks))
        × Sent now ticks sent
  unfolding stream_stats pure
  stream_stats-IsExact ticks now =
      let (sent, later, e, count, all) = send_events_ok ticks now in
      (sent, ap (λ p. p.0) (bind-then (send_events pg r scard ticks) _ e refl), count, all)
