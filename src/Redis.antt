-- ===== src/Redis.antt =====
-- The Redis server, as an interface: the keys that pkg/queue/queue.go names, the commands that its
-- two Lua scripts and the reaper call, and the documented effect of each command on those keys.
-- The value of a job identifier is a number, and a tier, which Go writes with fmt.Sprint and Lua
-- appends to the list prefix, is the integer that it writes.
use transcodex.Base.{
  ℕ, ◌≡◌, refl, Bool, true, false, not, Option, none, some, List, [], ◌∷◌, ◌++◌, ◌==◌,
  if◌then◌else◌, length,
}
use transcodex.Base.Int.{ℤ, eqb_ℤ, ltb_ℤ}
pub mod Tiers
use Tiers.{insert_tier, remove_tier}

-- job_queue:priorities, highest score first; job_queue:priority:<tier>, oldest first; queued_jobs.
pub record Keys : Type 0 where
  pub tiers : List ℤ
  pub lists : ℤ → List ℕ
  pub members : ℕ → Bool

abbrev pub set_list : ℤ → List ℕ → Keys → Keys
set_list p l k = record k { lists = λ q. if eqb_ℤ q p then l else k.lists q }

abbrev pub set_member : ℕ → Bool → Keys → Keys
set_member j b k = record k { members = λ i. if i == j then b else k.members i }

abbrev pub first {ℓ} : {A : Type ℓ} → List A → Option A
first [] = none
first (x ∷ _) = some x

abbrev pub rest {ℓ} : {A : Type ℓ} → List A → List A
rest [] = []
rest (_ ∷ xs) = xs

pub record Redis : Type 1 where
  pub State : Type 0
  pub view : State → Keys
  -- SADD queued_jobs j, with 1 for a member that is new
  pub sadd : ℕ → State → Bool × State
  pub sadd_reply : (j : ℕ) (s : State) → (sadd j s).0 ≡ not ((view s).members j)
  pub sadd_view : (j : ℕ) (s : State) → view (sadd j s).1 ≡ set_member j true (view s)
  -- SREM queued_jobs j
  pub srem : ℕ → State → State
  pub srem_view : (j : ℕ) (s : State) → view (srem j s) ≡ set_member j false (view s)
  -- SISMEMBER queued_jobs j
  pub sismember : ℕ → State → Bool
  pub sismember_reply : (j : ℕ) (s : State) → sismember j s ≡ (view s).members j
  -- RPUSH job_queue:priority:<p> j
  pub rpush : ℤ → ℕ → State → State
  pub rpush_view :
      (p : ℤ) (j : ℕ) (s : State)
      → view (rpush p j s) ≡ set_list p ((view s).lists p ++ j ∷ []) (view s)
  -- LPOP job_queue:priority:<p>
  pub lpop : ℤ → State → Option ℕ × State
  pub lpop_reply : (p : ℤ) (s : State) → (lpop p s).0 ≡ first ((view s).lists p)
  pub lpop_view :
      (p : ℤ) (s : State) → view (lpop p s).1 ≡ set_list p (rest ((view s).lists p)) (view s)
  -- LLEN job_queue:priority:<p>
  pub llen : ℤ → State → ℕ
  pub llen_reply : (p : ℤ) (s : State) → llen p s ≡ length ((view s).lists p)
  -- ZADD job_queue:priorities p p
  pub zadd : ℤ → State → State
  pub zadd_view :
      (p : ℤ) (s : State)
      → view (zadd p s) ≡ record (view s) { tiers = insert_tier p (view s).tiers }
  -- ZREM job_queue:priorities p
  pub zrem : ℤ → State → State
  pub zrem_view :
      (p : ℤ) (s : State)
      → view (zrem p s) ≡ record (view s) { tiers = remove_tier p (view s).tiers }
  -- ZREVRANGE job_queue:priorities 0 0
  pub zrevrange_top : State → Option ℤ
  pub zrevrange_top_reply : (s : State) → zrevrange_top s ≡ first (view s).tiers

-- A server whose state is its keys: the assumptions can be met.
abbrev pub in_memory : Redis
in_memory = record {
  State = Keys;
  view = λ k. k;
  sadd = λ j k. (not (k.members j), set_member j true k);
  sadd_reply = λ j k. refl;
  sadd_view = λ j k. refl;
  srem = λ j k. set_member j false k;
  srem_view = λ j k. refl;
  sismember = λ j k. k.members j;
  sismember_reply = λ j k. refl;
  rpush = λ p j k. set_list p (k.lists p ++ j ∷ []) k;
  rpush_view = λ p j k. refl;
  lpop = λ p k. (first (k.lists p), set_list p (rest (k.lists p)) k);
  lpop_reply = λ p k. refl;
  lpop_view = λ p k. refl;
  llen = λ p k. length (k.lists p);
  llen_reply = λ p k. refl;
  zadd = λ p k. record k { tiers = insert_tier p k.tiers };
  zadd_view = λ p k. refl;
  zrem = λ p k. record k { tiers = remove_tier p k.tiers };
  zrem_view = λ p k. refl;
  zrevrange_top = λ k. first k.tiers;
  zrevrange_top_reply = λ k. refl;
}

abbrev pub no_keys : Keys
no_keys = record { tiers = []; lists = λ p. []; members = λ j. false }
