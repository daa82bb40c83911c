-- ===== src/Benchmark.antt =====
-- cmd/benchmark/main.go: how the benchmark waits for a job and judges the outputs that it is shown.
use transcodex.Base.{
  ℕ, suc, ◌+◌, ◌≡◌, refl, ◌∙◌, sym, ap, Bool, true, false, not, ◌&&◌, Option, none, some, List, [],
  ◌∷◌, arith, ◌==◌, if◌then◌else◌, length, length-map, ◌↔◌, ==_iff, filter, map, Bool-cases, inl,
  inr,
}
use transcodex.Base.Text.{codes, same_text}
use transcodex.Db.Schema.{Text}
pub mod Outputs
pub mod Summary
pub mod Percentile
pub mod Rank

-- map[string]bool, with none for a key that is missing
abbrev pub Want : Type 0
Want = Text → Option Bool

abbrev pub is_wanted : Text → Bool
is_wanted t = not (
    not (same_text t (codes "video_360p"))
    && not (same_text t (codes "video_720p"))
    && not (same_text t (codes "video_1080p"))
    && not (same_text t (codes "thumbnail")))

abbrev pub want : Want
want t = if is_wanted t then some false else none

-- want[t] = true
abbrev pub mark : Text → Want → Want
mark t w s = if same_text s t then some true else w s

abbrev pub is_found : Option Bool → Bool
is_found (some true) = true
is_found _ = false

abbrev pub all_found : Want → Bool
all_found w =
    is_found (w (codes "video_360p"))
    && is_found (w (codes "video_720p"))
    && is_found (w (codes "video_1080p"))
    && is_found (w (codes "thumbnail"))

-- The loops over the outputs and over the map
abbrev pub check_outputs : List Text → Want → Bool
check_outputs [] w = all_found w
check_outputs (t ∷ ts) w = elim (w t) [ some false ↦ check_outputs ts (mark t w) | _ ↦ false ]

-- `completeOutputSet`
abbrev pub complete_output_set : List Text → Bool
complete_output_set ts = if length ts == 4 then check_outputs ts want else false

-- The reply to GET /jobs/<id>
pub record Payload : Type 0 where
  pub status : Text
  pub outputs : List Text

pub data JobResult : Type 0 where
  completed dead failed timeout : JobResult

-- `waitForJob`, on what each request before the deadline returns: none for an error
unfoldable pub wait_for_job : List (Option Payload) → JobResult
wait_for_job [] = timeout
wait_for_job (none ∷ replies) = wait_for_job replies
wait_for_job (some p ∷ replies) =
    let rest = wait_for_job replies in
    if same_text p.status (codes "completed")
    then (if complete_output_set p.outputs then completed else failed)
    else if same_text p.status (codes "dead")
    then dead
    else rest
