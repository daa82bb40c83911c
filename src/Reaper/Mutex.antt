-- ===== src/Reaper/Mutex.antt =====
-- At most one reaper leads: the calls of reaper.go on the lock key, made by any number of reapers
-- in any order. A reaper relies on an answer for as long as the time to live that it asked for.
use transcodex.Base.{
  ℕ, ◌+◌, ◌≤◌, ◌<◌, ◌≡◌, refl, ◌∙◌, sym, subst, inl, inr, Bool, true, false, Option, some, ◌==◌,
  ==_iff, arith, if◌then◌else◌, Bool-cases,
}
use transcodex.Db.Sql.{Result, ok}
use transcodex.Redis.{Redis}
use transcodex.Run.{
  Lease, Fate, answered, lost, unacknowledged, World, fate, later, lock_script, settle_lock,
}
use transcodex.Reaper.Lock.{acquire, refresh, release, is_held, is_holder}

-- What the reapers rely on: reaper `k` leads until the time `beliefs k`.
abbrev Beliefs : Type 0
Beliefs = ℕ → ℕ

abbrev pub believe : ℕ → ℕ → Beliefs → Beliefs
believe id time beliefs k = if k == id then time else beliefs k

abbrev pub after_reply : ℕ → ℕ → Beliefs → Result Bool → Beliefs
after_reply id time beliefs (ok true) = believe id time beliefs
after_reply id time beliefs _ = beliefs

module _ (r : Redis) (ttl : ℕ → ℕ) where
  pub record View : Type 0 where
    pub world : World r
    pub beliefs : Beliefs

  -- `acquireLeadership`
  abbrev pub acquired : ℕ → View → View
  acquired id v =
      let (reply, w) = lock_script (acquire id (ttl id)) v.world in
      record { world = w; beliefs = after_reply id (v.world.now + ttl id) v.beliefs reply }

  -- `refreshLeadership`
  abbrev pub refreshed : ℕ → View → View
  refreshed id v =
      let (reply, w) = lock_script (refresh id (ttl id)) v.world in
      record { world = w; beliefs = after_reply id (v.world.now + ttl id) v.beliefs reply }

  -- `releaseLeadership`, which a reaper calls when it no longer relies on the lock
  abbrev pub released : ℕ → View → View
  released id v = record {
    world = (lock_script (release id) v.world).1;
    beliefs = believe id 0 v.beliefs;
  }

  pub data Turn (v : View) : View → Type 0 where
    lead : (id : ℕ) → Turn v (acquired id v)
    stay : (id : ℕ) → Turn v (refreshed id v)
    leave : (id : ℕ) → Turn v (released id v)
    -- Time passes, and calls are made that do not touch the lock key.
    other :
        (w : World r)
        → w.lock ≡ v.world.lock
        → v.world.now ≤ w.now
        → Turn v (record v { world = w })

  pub data Turns (v : View) : View → Type 0 where
    here : Turns v v
    next : {u x : View} → Turns v u → Turn u x → Turns v x

  -- A belief that has not run out is backed by the key.
  record Backed (now : ℕ) (lock : Option Lease) (beliefs : Beliefs) : Type 0 where
    short : (k : ℕ) → beliefs k ≤ now + ttl k
    true_of :
        (k : ℕ)
        → now < beliefs k
        → (l : Lease) × (lock ≡ some l) × (l.holder ≡ k) × (beliefs k ≤ l.expires_at)

  abbrev renewed : ℕ → ℕ → Lease
  renewed id now = record { holder = id; expires_at = now + ttl id }

  -- Where nobody but the reaper relies on the key, the reaper may take it.
  taken-Backed :
      (id now : ℕ) (beliefs : Beliefs)
      → ((k : ℕ) → beliefs k ≤ now + ttl k)
      → ((k : ℕ) → now < beliefs k → k ≡ id)
      → Backed now (some (renewed id now)) beliefs
  taken-Backed id now beliefs short alone = record {
    short = short;
    true_of = λ k h.
        let e = alone k h in
        (renewed id now, refl, sym e, subst (λ i. beliefs k ≤ now + ttl i) e (short k));
  }

  module _ (id now : ℕ) (lock : Option Lease) (beliefs : Beliefs)
      (g : Backed now lock beliefs) where
    believed : (k : ℕ) → believe id (now + ttl id) beliefs k ≤ now + ttl k
    believed k = elim (Bool-cases (k == id)) [
      | inl same ↦
          rw same (subst (λ i. now + ttl i ≤ now + ttl k) ((==_iff k id).0 same) (omega arith))
      | inr differs ↦ rw differs (g.short k)
    ]

    believed-alone :
        (x : ℕ)
        → ((k : ℕ) → now < beliefs k → k ≡ id)
        → (k : ℕ) → now < believe id x beliefs k
        → k ≡ id
    believed-alone x alone k h = elim (Bool-cases (k == id)) [
      | inl same ↦ (==_iff k id).0 same
      | inr differs ↦ alone k (rw differs at h)
    ]

    -- The effect of a script that takes the key, whether or not its answer arrives
    take-Backed :
        ((k : ℕ) → now < beliefs k → k ≡ id)
        → Backed now (some (renewed id now)) beliefs
          × Backed now (some (renewed id now)) (believe id (now + ttl id) beliefs)
    take-Backed alone = (
      taken-Backed id now beliefs g.short alone,
      taken-Backed id now _ believed (believed-alone _ alone),
    )

    free-alone : is_held now lock ≡ false → (k : ℕ) → now < beliefs k → k ≡ id
    free-alone free k h =
        let (l, e, _, late) = g.true_of k h in
        ground (arith, subst (λ o. is_held now o ≡ false) e free)

    held-alone : is_holder id now lock ≡ true → (k : ℕ) → now < beliefs k → k ≡ id
    held-alone mine k h =
        let (l, e, owner, _) = g.true_of k h in
        ground (arith, subst (λ o. is_holder id now o ≡ true) e mine)

    acquire-Backed :
        let (won, after) = acquire id (ttl id) now lock in
        Backed now after beliefs
        × (won ≡ true → Backed now after (believe id (now + ttl id) beliefs))
    unfolding acquire
    acquire-Backed = elim (Bool-cases (is_held now lock)) [
      | inl held ↦ rw held (g, λ e. absurd (cc))
      | inr free ↦ rw free (let (b, c) = take-Backed (free-alone free) in (b, λ _. c))
    ]

    refresh-Backed :
        let (won, after) = refresh id (ttl id) now lock in
        Backed now after beliefs
        × (won ≡ true → Backed now after (believe id (now + ttl id) beliefs))
    unfolding refresh
    refresh-Backed = elim (Bool-cases (is_holder id now lock)) [
      | inl mine ↦ rw mine (let (b, c) = take-Backed (held-alone mine) in (b, λ _. c))
      | inr theirs ↦ rw theirs (g, λ e. absurd (cc))
    ]

    dropped-Backed : Backed now lock (believe id 0 beliefs)
    dropped-Backed = record {
      short = λ k. elim (Bool-cases (k == id)) [
        | inl same ↦ rw same (omega arith)
        | inr differs ↦ rw differs (g.short k)
      ];
      true_of = λ k h. elim (Bool-cases (k == id)) [
        | inl same ↦ absurd (ground arith)
        | inr differs ↦ rw differs (g.true_of k (rw differs at h))
      ];
    }

    release-Backed : Backed now (release id now lock).1 (believe id 0 beliefs)
    unfolding release
    release-Backed = elim (Bool-cases (is_holder id now lock)) [
      | inl mine ↦ rw mine (record {
        short = dropped-Backed.short;
        true_of = λ k h. absurd (ground (arith, believed-alone 0 (held-alone mine) k h));
      })
      | inr theirs ↦ rw theirs dropped-Backed
    ]

  -- A script on the key, when its answer may be lost
  settle-Backed :
      (id : ℕ) (won : Bool) (after : Option Lease) (f : Fate) (w : World r) (beliefs : Beliefs)
      → Backed w.now w.lock beliefs
      → Backed w.now after beliefs
        × (won ≡ true → Backed w.now after (believe id (w.now + ttl id) beliefs))
      → let (reply, w') = settle_lock (won, after) f w in
        Backed w'.now w'.lock (after_reply id (w.now + ttl id) beliefs reply)
  settle-Backed id true after answered w beliefs g (b, c) = c refl
  settle-Backed id false after answered w beliefs g (b, c) = b
  settle-Backed id won after lost w beliefs g (b, c) = g
  settle-Backed id won after unacknowledged w beliefs g (b, c) = b

  settle-dropped-Backed :
      (id : ℕ) (won : Bool) (after : Option Lease) (f : Fate) (w : World r) (beliefs : Beliefs)
      → Backed w.now w.lock (believe id 0 beliefs)
      → Backed w.now after (believe id 0 beliefs)
      → let w' = (settle_lock (won, after) f w).1 in Backed w'.now w'.lock (believe id 0 beliefs)
  settle-dropped-Backed id won after answered w beliefs g b = b
  settle-dropped-Backed id won after lost w beliefs g b = g
  settle-dropped-Backed id won after unacknowledged w beliefs g b = b

  abbrev Sound : View → Type 0
  Sound v = Backed v.world.now v.world.lock v.beliefs

  Turn-Sound : (v u : View) → Turn v u → Sound v → Sound u
  unfolding lock_script
  Turn-Sound v _ (Turn.lead id) g =
      settle-Backed id _ _ (fate v.world.fates) _ v.beliefs g (acquire-Backed id _ _ _ g)
  Turn-Sound v _ (Turn.stay id) g =
      settle-Backed id _ _ (fate v.world.fates) _ v.beliefs g (refresh-Backed id _ _ _ g)
  Turn-Sound v _ (Turn.leave id) g =
      settle-dropped-Backed id _ _ (fate v.world.fates) _ v.beliefs (dropped-Backed id _ _ _ g)
        (release-Backed id _ _ _ g)
  Turn-Sound v _ (Turn.other w same later) g = record {
    short = λ k. omega (arith, g.short k);
    true_of =
        λ k h. let (l, e, owner, late) = g.true_of k (omega arith) in (l, same ∙ e, owner, late);
  }

  Turns-Sound : (v u : View) → Turns v u → Sound v → Sound u
  Turns-Sound v u Turns.here g = g
  Turns-Sound v z (Turns.next {u} p t) g = Turn-Sound u z t (Turns-Sound v u p g)

  -- Two reapers that each rely on the lock key at the same time are one: from a world in which no
  -- reaper relies on it, and through any calls on it by any reapers in any order, with answers lost
  -- or requests lost, a reaper whose last granted time to live has not run out is the only one.
  pub leader_unique :
      (w : World r) (v : View) (k m : ℕ)
      → Turns (record { world = w; beliefs = λ _. 0 }) v
      → v.world.now < v.beliefs k
      → v.world.now < v.beliefs m
      → k ≡ m
  leader_unique w v k m p hk hm =
      let g =
        Turns-Sound _ v p
          (record { short = λ i. omega arith; true_of = λ i h. absurd (omega arith) }) in
      let (l, e, owner, _) = g.true_of k hk in let (l', e', owner', _) = g.true_of m hm in cc
