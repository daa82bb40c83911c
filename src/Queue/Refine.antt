-- ===== src/Queue/Refine.antt =====
-- The two Lua scripts implement the specification, on every server that meets the interface.
use transcodex.Base.{
  ℕ, ◌≡◌, refl, sym, ◌∙◌, ap, true, false, not, none, some, List, [], ◌∷◌, ◌++◌, ◌==◌,
  if◌then◌else◌, length, arith, Bool-cases, inl, inr,
}
use transcodex.Base.Int.{ℤ, eqb_ℤ_iff, eqb_ℤ_refl, ◌≤ℤ◌}
use transcodex.Redis.{Redis, Keys, set_list, set_member, first}
use transcodex.Redis.Tiers.{
  insert_tier, remove_tier, has_tier, Falling, has_tier-insert_tier, has_tier-remove_tier,
  insert_tier-Falling, remove_tier-Falling, has_tier-le,
}
use transcodex.Queue.{enqueue_script, pop_script}
use transcodex.Queue.Spec.{
  Waiting, waits, arrive, Next, nothing, oldest, jobs_at, is_nonempty, Represents,
}
use transcodex.Queue.Entries.{
  waits-append, jobs_at-append, Once-append, Oldest, split_at_job, jobs_at-drop, waits-drop,
  Once-drop, entries-le, skipped-lt,
}

is_nonempty-append {ℓ} : {A : Type ℓ} (xs : List A) (x : A) → is_nonempty (xs ++ x ∷ []) ≡ true
is_nonempty-append [] x = refl
is_nonempty-append (_ ∷ _) x = refl

abbrev arrived : ℕ → ℤ → Keys → Keys
arrived job p k = record (set_list p (k.lists p ++ job ∷ []) (set_member job true k)) {
  tiers = insert_tier p k.tiers;
}

arrived-Represents :
    (job : ℕ) (p : ℤ) (k : Keys) (q : Waiting)
    → Represents k q
    → waits job q ≡ false
    → Represents (arrived job p k) (q ++ (job, p) ∷ [])
arrived-Represents job p k q h new = record {
  once = Once-append job p q new h.once;
  members = λ i. ground (arith, waits-append i job p q, h.members i);
  lists = λ s. ground (arith, jobs_at-append s p job q, h.lists s, eqb_ℤ_iff s p, eqb_ℤ_iff p s);
  falling = insert_tier-Falling p k.tiers h.falling;
  tiers = λ s. ground (
    arith,
    jobs_at-append s p job q,
    h.tiers s,
    eqb_ℤ_iff s p,
    eqb_ℤ_iff p s,
    has_tier-insert_tier s p k.tiers,
    is_nonempty-append (jobs_at s q) job,
  );
}

again-Represents :
    (job : ℕ) (k : Keys) (q : Waiting)
    → Represents k q
    → waits job q ≡ true
    → Represents (set_member job true k) q
again-Represents job k q h old = record {
  once = h.once;
  members = λ i. ground (arith, h.members i);
  lists = h.lists;
  falling = h.falling;
  tiers = h.tiers;
}

abbrev left_keys : ℕ → ℤ → List ℕ → Keys → Keys
left_keys job t left k =
    let k' = set_member job false (set_list t left k) in
    if length left == 0 then record k' { tiers = remove_tier t k.tiers } else k'

left-Represents :
    (job : ℕ) (t : ℤ) (left : List ℕ) (k : Keys) (before after : Waiting)
    → Represents k (before ++ (job, t) ∷ after)
    → has_tier t k.tiers ≡ true
    → jobs_at t (before ++ after) ≡ left
    → Represents (left_keys job t left k) (before ++ after)
left-Represents job t left k before after h top e = record {
  once = Once-drop job t after before h.once;
  members = λ i. ground (arith, h.members i, waits-drop job t after i before h.once);
  lists = λ p. ground (arith, h.lists p, jobs_at-drop job t after p before, eqb_ℤ_iff p t, e);
  falling = ground (arith, h.falling, remove_tier-Falling t k.tiers h.falling);
  tiers = λ p. ground (
    arith,
    h.tiers p,
    jobs_at-drop job t after p before,
    eqb_ℤ_iff p t,
    e,
    top,
    has_tier-remove_tier p t k.tiers,
  );
}

pub top_bounds :
    (t : ℤ) (ts : List ℤ) (k : Keys) (q : Waiting)
    → Represents k q
    → k.tiers ≡ t ∷ ts
    → (p : ℤ) → is_nonempty (jobs_at p q) ≡ true
    → p ≤ℤ t
top_bounds t ts k q h e p n =
    let falling : Falling (t ∷ ts) = rw e at (h.falling) in
    has_tier-le p t ts falling.0 (ap (has_tier p) (sym e) ∙ h.tiers p ∙ n)

module _ (r : Redis) where
  open r use {
    State, view, sadd_reply, sadd_view, rpush_view, zadd_view, zrevrange_top_reply, lpop_reply,
    lpop_view, srem_view, llen_reply, zrem_view,
  }

  -- Whatever the server, if its keys hold a queue, an enqueue leaves keys that hold the queue after
  -- the arrival, and replies whether the job is new: a job that waits keeps its place and priority.
  pub enqueue_script-Represents :
      (job : ℕ) (p : ℤ) (s : State) (q : Waiting)
      → Represents (view s) q
      → Represents (view (enqueue_script r job p s).1) (arrive job p q)
        × ((enqueue_script r job p s).0 ≡ not (waits job q))
  unfolding enqueue_script
  enqueue_script-Represents job p s q h = elim (Bool-cases (waits job q)) [
    | inl old ↦
        rw (old, sadd_reply job s, h.members job, old)
          (rw (sadd_view job s) (again-Represents job (view s) q h old), refl)
    | inr new ↦
        rw (new, sadd_reply job s, h.members job, new)
          (
            rw (zadd_view p _, rpush_view p job _, sadd_view job s)
                (arrived-Represents job p (view s) q h new),
            refl,
          )
  ]

  no_entries : (k : Keys) (q : Waiting) → Represents k q → k.tiers ≡ [] → q ≡ []
  no_entries k [] h e = refl
  no_entries k ((job, p) ∷ q) h e = absurd (ground (arith, h.tiers p, eqb_ℤ_refl p))

  abbrev Pops : State → Waiting → Type 0
  Pops s q =
      (left : Waiting) × Next q (pop_script r s).0 left × Represents (view (pop_script r s).1) left

  pop_empty : (s : State) (q : Waiting) → Represents (view s) q → (view s).tiers ≡ [] → Pops s q
  unfolding pop_script
  pop_empty s q h e =
      let top : r.zrevrange_top s ≡ none = zrevrange_top_reply s ∙ ap first e in
      let none_left : q ≡ [] = no_entries (view s) q h e in
      ([], rw (top, pop_script) (nothing none_left), rw (top, pop_script) (rw none_left at h))

  left_view :
      (job : ℕ) (t : ℤ) (left : List ℕ) (s : State)
      → (view s).lists t ≡ job ∷ left
      → let s' = r.srem job (r.lpop t s).1 in
        view (if r.llen t s' == 0 then r.zrem t s' else s') ≡ left_keys job t left (view s)
  left_view job t left s e = elim (Bool-cases (length left == 0)) [
    | inl last ↦ rw (count, last, zrem_view t _, popped)
    | inr more ↦ rw (count, more) popped
  ]
    where
      popped : view (r.srem job (r.lpop t s).1) ≡ set_member job false (set_list t left (view s))
      popped = rw (srem_view job _, lpop_view t s, e)

      count : r.llen t (r.srem job (r.lpop t s).1) ≡ length left
      count = rw (llen_reply t _, popped, eqb_ℤ_refl t)

  pop_oldest :
      (s : State) (q : Waiting) (t : ℤ) (ts : List ℤ) (job : ℕ) (left : List ℕ)
      → Represents (view s) q
      → (view s).tiers ≡ t ∷ ts
      → jobs_at t q ≡ job ∷ left
      → Pops s q
  unfolding pop_script
  pop_oldest s q t ts job left h e here =
      let top : r.zrevrange_top s ≡ some t = zrevrange_top_reply s ∙ ap first e in
      let held : (view s).lists t ≡ job ∷ left = h.lists t ∙ here in
      let reply : (r.lpop t s).0 ≡ some job = lpop_reply t s ∙ ap first held in
      let o : Oldest t q job left = split_at_job t q job left here in
      let (low, high) =
        skipped-lt t job o.before o.after
          (rw o.split at (entries-le t q (top_bounds t ts (view s) q h e))) o.skipped in
      (
        o.before ++ o.after,
        rw (top, reply, pop_script) (oldest o.before o.after job t o.split low high),
        rw (top, reply, pop_script, left_view job t left s held)
            (left-Represents job t left (view s) o.before o.after (rw o.split at h)
              (rw e (ground (arith, eqb_ℤ_refl t))) o.remain),
      )

  -- Whatever the server, if its keys hold a queue, a pop replies with the job that came first among
  -- those of the highest priority, or with none if no job waits, and leaves keys that hold the rest.
  pub pop_script-Next : (s : State) (q : Waiting) → Represents (view s) q → Pops s q
  pop_script-Next s q h = go (view s).tiers refl
    where
      step :
          (t : ℤ) (ts : List ℤ) (l : List ℕ) → (view s).tiers ≡ t ∷ ts → jobs_at t q ≡ l → Pops s q
      step t ts [] e here = absurd (cc (h.tiers t, ap (has_tier t) e, here, eqb_ℤ_refl t))
      step t ts (job ∷ left) e here = pop_oldest s q t ts job left h e here

      go : (l : List ℤ) → (view s).tiers ≡ l → Pops s q
      go [] e = pop_empty s q h e
      go (t ∷ ts) e = step t ts (jobs_at t q) e refl
