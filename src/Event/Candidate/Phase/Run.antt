-- ===== src/Event/Candidate/Phase/Run.antt =====
-- Sequences of calls of the manager of src/event/src/candidate_event.cpp.
use paper_breakage_analysis.Base.{ℕ, refl, List, [], ◌∷◌, Bool, true, String, if-holds}
use paper_breakage_analysis.Base.Floating.{Floating}
use paper_breakage_analysis.Event.Uuid.{IdInput}
use paper_breakage_analysis.Event.Candidate.{confirmed, rejected, TriggerResult}
use paper_breakage_analysis.Event.Candidate.Manager.{expire}
use paper_breakage_analysis.Event.Candidate.Manager.Calls.{
  Manager, process, update_external_signal, decision_command, confirm, reject, over_cameras,
  commit_all, advance_time, stop,
}
use paper_breakage_analysis.Event.Candidate.Phase.{expire-Keeps}
use paper_breakage_analysis.Event.Candidate.Manager.Seeds.{CandidateRearmSeed, apply_rearm_seeds}
use paper_breakage_analysis.Event.Candidate.Phase.Commands.{
  signal_found-IsConsistent, decide_found-IsConsistent, commit_all-IsConsistent, stop_camera-Keeps,
}
use paper_breakage_analysis.Event.Candidate.Phase.Seeded.{AllIdle, apply_rearm_seeds-IsConsistent}
use paper_breakage_analysis.Event.Candidate.Phase.Ledger.{IsConsistent, process-IsConsistent}

module _ (F : Floating) where
  pub data ManagerCall : Type 0 where
    processes : IdInput → TriggerResult F → ManagerCall
    signals : String → Bool → ℕ → ℕ → ManagerCall
    confirms : List ℕ → ℕ → ℕ → ℕ → ManagerCall
    rejects : List ℕ → ℕ → ℕ → ℕ → ManagerCall
    advances : ℕ → ℕ → ManagerCall
    stops : ℕ → ℕ → ManagerCall
    applies_seeds : List CandidateRearmSeed → ManagerCall

module _ {F : Floating} where
  unfoldable pub step : Manager F → ManagerCall F → Manager F
  step m (processes i r) = (process m i r).0
  step m (signals id active t wall) = (update_external_signal m id active t wall).0
  step m (confirms id version t wall) = (confirm m id version t wall).0
  step m (rejects id version t wall) = (reject m id version t wall).0
  step m (advances t wall) = advance_time m t wall
  step m (stops t wall) = stop m t wall
  step m (applies_seeds ss) = (apply_rearm_seeds m ss).0

  unfoldable pub run : Manager F → List (ManagerCall F) → Manager F
  run m [] = m
  run m (c ∷ cs) = run (step m c) cs

  -- What a call needs: seeds are applied while every camera is idle, as the program does.
  abbrev pub Fits : Manager F → ManagerCall F → Type 0
  Fits m (applies_seeds ss) = AllIdle m.cameras
  Fits m _ = Unit {0}

  unfoldable pub AllFit : Manager F → List (ManagerCall F) → Type 0
  AllFit m [] = Unit {0}
  AllFit m (c ∷ cs) = Fits m c × AllFit (step m c) cs

  step-IsConsistent :
      (m : Manager F) (c : ManagerCall F) → Fits m c → IsConsistent m → IsConsistent (step m c)
  unfolding step update_external_signal decision_command advance_time stop
  step-IsConsistent m (processes i r) f h = process-IsConsistent m i r h
  step-IsConsistent m (signals id active t wall) f h =
      signal_found-IsConsistent m id active t wall _ refl h
  step-IsConsistent m (confirms id version t wall) f h =
      decide_found-IsConsistent m id version confirmed t wall _ refl refl h
  step-IsConsistent m (rejects id version t wall) f h =
      decide_found-IsConsistent m id version rejected t wall _ refl refl h
  step-IsConsistent m (advances t wall) f h =
      if-holds IsConsistent m.stopped {x = m}
        {y = commit_all m (over_cameras (expire m.config t wall) m.cameras m.tally [])} (λ d. h)
        (λ d. commit_all-IsConsistent m _ m.stopped (λ k w. expire-Keeps m.config t wall k w) h)
  step-IsConsistent m (stops t wall) f h =
      if-holds IsConsistent m.stopped {x = m} (λ d. h)
        (λ d. commit_all-IsConsistent m _ true (λ k w. stop_camera-Keeps m.config t wall k w) h)
  step-IsConsistent m (applies_seeds ss) f h = apply_rearm_seeds-IsConsistent m ss f h

  -- A consistent manager stays so over any calls of process, update_external_signal, confirm, reject,
  -- advance_time, stop and apply_rearm_seeds, the last of them only while every camera is idle, as it is
  -- in the new manager to which the program applies the seeds: every camera's state fits its event (an
  -- open event with version 1 and no decision, or a decided one with version 2 and that decision, or
  -- none), and the events that were created are those confirmed, rejected, timed out and still open, as
  -- 64-bit counts.
  pub run_stays-IsConsistent :
      (m : Manager F) (cs : List (ManagerCall F))
      → AllFit m cs
      → IsConsistent m
      → IsConsistent (run m cs)
  unfolding run AllFit
  run_stays-IsConsistent m [] f h = h
  run_stays-IsConsistent m (c ∷ cs) f h =
      run_stays-IsConsistent (step m c) cs f.1 (step-IsConsistent m c f.0 h)
