-- ===== src/Event/Candidate/Manager/Decision.antt =====
-- What a decision command of src/event/src/candidate_event.cpp does, by its outcome.
use paper_breakage_analysis.Base.{
  ℕ, ◌≤◌, ◌<◌, ◌≡◌, ◌≢◌, ◌⊎◌, List, ◌∷◌, ◌++◌, Bool, true, false, some, Result, Error, success,
  failure, inc_u64,
}
use paper_breakage_analysis.Base.Floating.{Floating}
use paper_breakage_analysis.Event.Candidate.{
  CandidateEventState, candidate, timeout, ◌is◌, EventSnapshot, ActiveEvent, CameraTracker,
}
use paper_breakage_analysis.Event.Candidate.Manager.Calls.{Manager}

module _ (F : Floating) where
  abbrev pub Reply : Type 0
  Reply = Manager F × Result (CameraTracker F × Bool)

module _ {F : Floating} where
  -- A command that finds the event open, the manager running, and the version as the caller gave it, at
  -- a time from the candidate's on.
  pub record IsTimely (m : Manager F) (version t : ℕ) (c : CameraTracker F) (s : EventSnapshot F)
      : Type 0 where
    pub running : m.stopped ≡ false
    pub waiting : c.state ≡ candidate
    pub current : version ≡ s.version
    pub not_before : s.candidate_trigger.monotonic_time ≤ t

  -- The camera with its event decided at a time: the version counted on, the decision noted, and the
  -- camera waiting for its recovery.
  pub record IsDecidedAs (state : CandidateEventState) (t wall : ℕ) (e : ActiveEvent F)
      (d : CameraTracker F) : Type 0 where
    pub in_state : d.state ≡ state
    pub event_after : ActiveEvent F
    pub has_event_after : d.event ≡ some event_after
    pub event_state : event_after.snapshot.decision_state ≡ state
    pub counted : event_after.snapshot.version ≡ inc_u64 e.snapshot.version
    pub noted :
        event_after.snapshot.decision
        ≡ some (record { state = state; monotonic_time = t; wall_clock_time = wall })
    pub same_event : event_after.snapshot.event_id ≡ e.snapshot.event_id
    pub waits : d.rearm_pending ≡ true

  -- The event is decided as the caller asked.
  abbrev pub Decides :
      Manager F
      → ℕ
      → CandidateEventState
      → ℕ
      → ℕ
      → List (CameraTracker F)
      → CameraTracker F
      → List (CameraTracker F)
      → ActiveEvent F
      → Reply F
      → Type 0
  Decides m version target t wall l c b e q =
      IsTimely m version t c e.snapshot
      × (t < e.snapshot.candidate_deadline)
      × (d : CameraTracker F) × (q.1 ≡ success (d, false))
      × (q.0.cameras ≡ l ++ (d ∷ b))
      × IsDecidedAs target t wall e d

  -- The command comes too late: the event has timed out, and the caller is told so.
  abbrev pub TimesOut :
      Manager F
      → ℕ
      → ℕ
      → ℕ
      → List (CameraTracker F)
      → CameraTracker F
      → List (CameraTracker F)
      → ActiveEvent F
      → Reply F
      → Type 0
  TimesOut m version t wall l c b e q =
      IsTimely m version t c e.snapshot
      × (e.snapshot.candidate_deadline ≤ t)
      × (x : Error) × (q.1 ≡ failure x)
      × (d : CameraTracker F) × (q.0.cameras ≡ l ++ (d ∷ b))
      × IsDecidedAs timeout t wall e d

  -- The event is decided so already, and nothing changes.
  abbrev pub Repeats : Manager F → CandidateEventState → CameraTracker F → Reply F → Type 0
  Repeats m target c q = ((c.state is target) ≡ true) × (q ≡ (m, success (c, true)))

  -- The command is refused, and nothing changes.
  abbrev pub Refuses : Manager F → ℕ → ℕ → CameraTracker F → EventSnapshot F → Reply F → Type 0
  Refuses m version t c s q =
      (q.0 ≡ m)
      × ((x : Error) × (q.1 ≡ failure x))
      × ((version ≢ s.version)
          ⊎ ((c.state is candidate) ≡ false)
          ⊎ (m.stopped ≡ true)
          ⊎ (t < s.candidate_trigger.monotonic_time))

  abbrev Outcome :
      Manager F
      → ℕ
      → CandidateEventState
      → ℕ
      → ℕ
      → List (CameraTracker F)
      → CameraTracker F
      → List (CameraTracker F)
      → ActiveEvent F
      → Reply F
      → Type 0
  Outcome m version target t wall l c b e q =
      Decides m version target t wall l c b e q
      ⊎ TimesOut m version t wall l c b e q
      ⊎ Repeats m target c q
      ⊎ Refuses m version t c e.snapshot q
