-- ===== src/Reaper/Lock.antt =====
-- The reapers' lock key: SETNX with a time to live, and the two scripts of reaper.go that compare
-- the key's value with the reaper's identifier before they change the key.
use transcodex.Base.{ℕ, ◌+◌, Bool, true, false, ◌&&◌, Option, none, some, ◌==◌, ltb, if◌then◌else◌}
use transcodex.Run.{Lease}

-- Does GET find this holder? Redis drops a key at its time.
abbrev pub is_holder : ℕ → ℕ → Option Lease → Bool
is_holder id now none = false
is_holder id now (some l) = ltb now l.expires_at && l.holder == id

abbrev pub is_held : ℕ → Option Lease → Bool
is_held now none = false
is_held now (some l) = ltb now l.expires_at

-- SET key id NX EX ttl, with its reply
unfoldable pub acquire : ℕ → ℕ → ℕ → Option Lease → Bool × Option Lease
acquire id ttl now lock =
    if is_held now lock
    then (false, lock)
    else (true, some (record { holder = id; expires_at = now + ttl }))

-- The script of `refreshLeadership`, with its reply 1 or 0
unfoldable pub refresh : ℕ → ℕ → ℕ → Option Lease → Bool × Option Lease
refresh id ttl now lock =
    if is_holder id now lock
    then (true, some (record { holder = id; expires_at = now + ttl }))
    else (false, lock)

-- The script of `releaseLeadership`, with its reply 1 or 0
unfoldable pub release : ℕ → ℕ → Option Lease → Bool × Option Lease
release id now lock = if is_holder id now lock then (true, none) else (false, lock)
