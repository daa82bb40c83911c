-- ===== src/Tests/Queues.antt =====
-- The theorems on the queue, at concrete keys.
use transcodex.Base.{◌≡◌, refl, [], ◌∷◌, true}
use transcodex.Base.Int.{pos}
use transcodex.Redis.{in_memory, no_keys, Keys}
use transcodex.Queue.{enqueue_script, pop_script}
use transcodex.Queue.Spec.{Waiting, arrive, Next, Represents}
use transcodex.Queue.Refine.{enqueue_script-Represents, pop_script-Next}

no_keys-Represents : Represents no_keys []
no_keys-Represents = record {
  once = tt;
  members = λ job. refl;
  lists = λ p. refl;
  falling = tt;
  tiers = λ p. refl;
}

enqueue_script-Represents_example :
    Represents (enqueue_script in_memory 7 (pos 5) no_keys).1 (arrive 7 (pos 5) [])
    × ((enqueue_script in_memory 7 (pos 5) no_keys).0 ≡ true)
enqueue_script-Represents_example =
    enqueue_script-Represents in_memory 7 (pos 5) no_keys [] no_keys-Represents

abbrev one_key : Keys
one_key = (enqueue_script in_memory 7 (pos 5) no_keys).1

pop_script-Next_example :
    (left : Waiting) × Next ((7, pos 5) ∷ []) (pop_script in_memory one_key).0 left
    × Represents (pop_script in_memory one_key).1 left
pop_script-Next_example =
    pop_script-Next in_memory one_key ((7, pos 5) ∷ []) enqueue_script-Represents_example.0
