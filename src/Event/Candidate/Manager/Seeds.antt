-- ===== src/Event/Candidate/Manager/Seeds.antt =====
-- src/event/src/candidate_event.cpp, `rearm_seeds` and `apply_rearm_seeds`: what a new manager takes over
-- of the recovery of an old one.
use paper_breakage_analysis.Base.{
  ℕ, List, [], ◌∷◌, ◌++◌, String, Bool, true, false, not, ◌||◌, Option, none, some, Result, success,
  failure, Error, error, ltb, if◌then◌else◌, str_eq,
}
use paper_breakage_analysis.Base.Floating.{Floating}
use paper_breakage_analysis.Event.Candidate.{CameraTracker, candidate_error}
use paper_breakage_analysis.Event.Candidate.Observe.{holds_at, reset_recovery_interval}
use paper_breakage_analysis.Event.Candidate.Manager.Calls.{Manager, locate, has_camera_id}

pub record CandidateRearmSeed : Type 0 where
  pub camera_id : String
  pub rearm_pending : Bool
  pub cooldown_until : Option ℕ
  pub rearm_suppressed_results : ℕ

abbrev seeds_error : String → String → String → Error
seeds_error code id reason = candidate_error code error "event.candidate.applyRearmSeeds" id reason

unfoldable pub is_repeated : String → List CandidateRearmSeed → Bool
is_repeated id [] = false
is_repeated id (s ∷ ss) = str_eq s.camera_id id || is_repeated id ss

module _ {F : Floating} where
  abbrev pub seed_of : ℕ → CameraTracker F → CandidateRearmSeed
  seed_of t c = record {
    camera_id = c.camera_id;
    rearm_pending = c.rearm_pending;
    cooldown_until = if holds_at c.cooldown_until (λ u. ltb t u) then c.cooldown_until else none;
    rearm_suppressed_results = c.rearm_suppressed_results;
  }

  unfoldable pub seeds_of : ℕ → List (CameraTracker F) → List CandidateRearmSeed
  seeds_of t [] = []
  seeds_of t (c ∷ cs) = seed_of t c ∷ seeds_of t cs

  abbrev pub rearm_seeds : Manager F → ℕ → List CandidateRearmSeed
  rearm_seeds m t = seeds_of t m.cameras

  abbrev pub is_known :
      Option (List (CameraTracker F) × CameraTracker F × List (CameraTracker F)) → Bool
  is_known none = false
  is_known (some _) = true

  -- The error of the first seed that is refused, after those before it.
  unfoldable pub check_seeds :
      List (CameraTracker F) → List CandidateRearmSeed → List CandidateRearmSeed → Option Error
  check_seeds cs previous [] = none
  check_seeds cs previous (s ∷ ss) =
      let rest = check_seeds cs (previous ++ (s ∷ [])) ss in
      if not (is_known (locate (has_camera_id s.camera_id) cs))
      then some (seeds_error "SYS_CONFIG_INVALID" s.camera_id "unknown-camera")
      else if is_repeated s.camera_id previous
      then some (seeds_error "SYS_CONFIG_INVALID" s.camera_id "duplicate-camera")
      else rest

  abbrev pub seeded : CameraTracker F → CandidateRearmSeed → CameraTracker F
  seeded c s = reset_recovery_interval (record c {
    rearm_pending = s.rearm_pending;
    cooldown_until = if s.rearm_pending then s.cooldown_until else none;
    rearm_suppressed_results = s.rearm_suppressed_results;
  })

  abbrev pub put_seed :
      List (CameraTracker F)
      → CandidateRearmSeed
      → Option (List (CameraTracker F) × CameraTracker F × List (CameraTracker F))
      → List (CameraTracker F)
  put_seed cs s none = cs
  put_seed cs s (some (before, c, behind)) = before ++ (seeded c s ∷ behind)

  unfoldable pub put_seeds :
      List (CameraTracker F) → List CandidateRearmSeed → List (CameraTracker F)
  put_seeds cs [] = cs
  put_seeds cs (s ∷ ss) = put_seeds (put_seed cs s (locate (has_camera_id s.camera_id) cs)) ss

  abbrev pub apply_checked :
      Manager F → List CandidateRearmSeed → Option Error → Manager F × Result (Unit {0})
  apply_checked m ss (some e) = (m, failure e)
  apply_checked m ss none = (record m { cameras = put_seeds m.cameras ss }, success tt)

  unfoldable pub apply_rearm_seeds :
      Manager F → List CandidateRearmSeed → Manager F × Result (Unit {0})
  apply_rearm_seeds m ss =
      if m.stopped
      then (m, failure (seeds_error "EVENT_INVALID_TRANSITION" "" "manager-stopped"))
      else apply_checked m ss (check_seeds m.cameras [] ss)
