-- ===== src/Event/Candidate/Phase/Seeded.antt =====
-- The state of the cameras when src/event/src/candidate_event.cpp applies the seeds of another manager.
use paper_breakage_analysis.Base.{
  ◌≡◌, refl, sym, subst, ap, ◌∙◌, List, [], ◌∷◌, ◌++◌, Option, none, some, Error, Result, if-holds,
}
use paper_breakage_analysis.Base.Floating.{Floating}
use paper_breakage_analysis.Event.Candidate.{idle, CameraTracker}
use paper_breakage_analysis.Event.Candidate.Manager.Calls.{Manager, locate, has_camera_id}
use paper_breakage_analysis.Event.Candidate.Manager.Seeds.{
  CandidateRearmSeed, seeded, put_seed, put_seeds, apply_checked, check_seeds, apply_rearm_seeds,
}
use paper_breakage_analysis.Event.Candidate.Phase.{Phase, IsSound, IsAccounted}
use paper_breakage_analysis.Event.Candidate.Phase.Ledger.{
  AllSound, AllSound-parts, open_total, open_total-parts, IsConsistent, locate-split,
}

module _ {F : Floating} where
  -- No camera has an event or is about to have one.
  abbrev pub AllIdle : List (CameraTracker F) → Type 0
  AllIdle [] = Unit {0}
  AllIdle (c ∷ cs) = (c.state ≡ idle) × AllIdle cs

  AllIdle-parts :
      (l : List (CameraTracker F)) (c : CameraTracker F) (r : List (CameraTracker F))
      → AllIdle (l ++ (c ∷ r))
      → (c.state ≡ idle) × ((d : CameraTracker F) → d.state ≡ idle → AllIdle (l ++ (d ∷ r)))
  AllIdle-parts [] c r (s, a) = (s, λ d t. (t, a))
  AllIdle-parts (x ∷ l) c r (s, a) = let (t, f) = AllIdle-parts l c r a in (t, λ d u. (s, f d u))

  seeded-IsSound :
      (c : CameraTracker F) (s : CandidateRearmSeed)
      → c.state ≡ idle
      → IsSound c
      → IsSound (seeded c s)
  seeded-IsSound c s e h =
      subst (λ x. Phase x c.event s.rearm_pending) (sym e)
        (subst (λ x. Phase x c.event c.rearm_pending) e h)

  abbrev IsReady : List (CameraTracker F) → List (CameraTracker F) → Type 0
  IsReady before cs = AllIdle cs × AllSound cs × (open_total cs ≡ open_total before)

  put_seed-IsReady :
      (cs : List (CameraTracker F)) (s : CandidateRearmSeed)
      (o : Option (List (CameraTracker F) × CameraTracker F × List (CameraTracker F)))
      → locate (has_camera_id s.camera_id) cs ≡ o
      → AllIdle cs
      → AllSound cs
      → IsReady cs (put_seed cs s o)
  put_seed-IsReady cs s none e i a = (i, a, refl)
  put_seed-IsReady cs s (some (l, c, r)) e i a =
      let split = locate-split _ cs l c r e in
      let (state, idle_with) = AllIdle-parts l c r (subst AllIdle split i) in
      let (sound, sound_with) = AllSound-parts l c r (subst AllSound split a) in
      (
        idle_with (seeded c s) state,
        sound_with (seeded c s) (seeded-IsSound c s state sound),
        open_total-parts l (seeded c s) r
            ∙ sym (open_total-parts l c r)
            ∙ sym (ap open_total split),
      )

  put_seeds-IsReady :
      (ss : List CandidateRearmSeed) (cs : List (CameraTracker F))
      → AllIdle cs
      → AllSound cs
      → IsReady cs (put_seeds cs ss)
  unfolding put_seeds
  put_seeds-IsReady [] cs i a = (i, a, refl)
  put_seeds-IsReady (s ∷ ss) cs i a =
      let (j, b, e) = put_seed-IsReady cs s (locate (has_camera_id s.camera_id) cs) refl i a in
      let (k, c, f) =
        put_seeds-IsReady ss (put_seed cs s (locate (has_camera_id s.camera_id) cs)) j b in
      (k, c, f ∙ e)

  -- Seeds that are applied while every camera is idle leave a consistent manager so.
  pub apply_rearm_seeds-IsConsistent :
      (m : Manager F) (ss : List CandidateRearmSeed)
      → AllIdle m.cameras
      → IsConsistent m
      → IsConsistent (apply_rearm_seeds m ss).0
  unfolding apply_rearm_seeds
  apply_rearm_seeds-IsConsistent m ss i h =
      if-holds P m.stopped (λ e. h) (λ e. checked (check_seeds m.cameras [] ss))
    where
      P : Manager F × Result (Unit {0}) → Type 0
      P q = IsConsistent q.0

      checked : (o : Option Error) → IsConsistent (apply_checked m ss o).0
      checked (some x) = h
      checked none =
          let (_, a, e) = put_seeds-IsReady ss m.cameras i h.sound in
          record { sound = a; accounted = subst (IsAccounted m.tally) (sym e) h.accounted }
