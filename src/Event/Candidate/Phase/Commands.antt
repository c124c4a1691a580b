-- ===== src/Event/Candidate/Phase/Commands.antt =====
-- The external signals, decisions, loops and the stop of src/event/src/candidate_event.cpp: state, event
-- and counts.
use paper_breakage_analysis.Base.{
  ℕ, ◌+◌, ◌≡◌, refl, ap, subst, List, [], ◌∷◌, ◌++◌, Bool, true, not, ◌&&◌, ◌||◌, Option, none,
  some, String, Result, success, failure, error, warning, arith, if-holds, ltb, leb, max, ◌==◌,
}
use paper_breakage_analysis.Base.Floating.{Floating}
use paper_breakage_analysis.Event.Candidate.{
  CandidateEventState, idle, suspicious, candidate, confirmed, rejected, timeout, ◌is◌, is_decided,
  EventSnapshot, ActiveEvent, CameraTracker, Notification, ManagerConfig,
}
use paper_breakage_analysis.Event.Candidate.Observe.{confirmation_satisfied, forget_observation}
use paper_breakage_analysis.Event.Candidate.Manager.{Work, Tally, transition_decision, expire}
use paper_breakage_analysis.Event.Candidate.Manager.Calls.{
  Manager, locate, commit, work_on, signal_work, signal_tracker, signal_found, has_event,
  decide_camera, decide_with, decide_found, conflict_error, transition_error, over_cameras,
  commit_all, stop_camera, let_lease_go, without_lease, trigger_time, has_camera_id, has_event_id,
}
use paper_breakage_analysis.Event.Candidate.Phase.{
  Phase, IsAccounted, Keeps, open_count, same-Keeps, is-candidate, transition-Keeps, expire-Keeps,
}
use paper_breakage_analysis.Event.Candidate.Phase.Stages.{with_camera, idle-Keeps}
use paper_breakage_analysis.Event.Candidate.Phase.Ledger.{
  AllSound, open_total, IsConsistent, locate-split, commit-IsConsistent, deliver-IsAccounted,
}

module _ {F : Floating} where
  signal_work-Keeps :
      (g : ManagerConfig F) (active : Bool) (t wall k : ℕ) (w : Work F)
      → Keeps k w
      → Keeps k (signal_work g active t wall w)
  unfolding signal_work
  signal_work-Keeps g active t wall k w h =
      let w' = expire g t wall w in
      let h' = expire-Keeps g t wall k w h in
      let c = signal_tracker w'.camera active t wall in
      let hc = same-Keeps k w' c w'.notices refl refl refl h' in
      if-holds (Keeps k) (c.state is candidate && has_event c && confirmation_satisfied g c t)
        {x = transition_decision g confirmed t wall (record w' { camera = c })}
        {y = record w' { camera = c }}
        (λ d.
          transition-Keeps g confirmed t wall k (with_camera w' c) refl
            (is-candidate c.state (ground (arith, d))) hc)
        (λ d. hc)

  pub signal_found-IsConsistent :
      (m : Manager F) (id : String) (active : Bool) (t wall : ℕ)
      (o : Option (List (CameraTracker F) × CameraTracker F × List (CameraTracker F)))
      → locate (has_camera_id id) m.cameras ≡ o
      → IsConsistent m
      → IsConsistent (signal_found m id active t wall o).0
  unfolding signal_found
  signal_found-IsConsistent m id active t wall none e h = h
  signal_found-IsConsistent m id active t wall (some (l, c, b)) e h =
      let done =
        commit-IsConsistent m l c b m.id_generator
          (signal_work m.config active t wall (work_on m c)) (locate-split _ m.cameras l c b e) h
          (λ k a. signal_work-Keeps m.config active t wall k (work_on m c) a) in
      ground (arith, done, h)

  abbrev Good : Manager F × Result (CameraTracker F × Bool) → Type 0
  Good y = IsConsistent y.0

  decide_camera-IsConsistent :
      (m : Manager F) (version : ℕ) (target : CandidateEventState) (t wall : ℕ)
      (l : List (CameraTracker F)) (c : CameraTracker F) (b : List (CameraTracker F))
      (s : EventSnapshot F)
      → is_decided target ≡ true
      → m.cameras ≡ l ++ (c ∷ b)
      → IsConsistent m
      → IsConsistent (decide_camera m version target t wall l c b s).0
  unfolding decide_camera
  decide_camera-IsConsistent m version target t wall l c b s d0 e h =
      let put : (x : CandidateEventState)
          → is_decided x ≡ true
          → c.state ≡ candidate
          → IsConsistent (commit m l b (transition_decision m.config x t wall (work_on m c))) =
        λ x dx q.
          commit-IsConsistent m l c b m.id_generator _ e h
            (λ k a. transition-Keeps m.config x t wall k (work_on m c) dx q a) in
      if-holds Good (c.state is target) {x = (m, success (c, true))} (λ d. h)
        (λ d.
          if-holds Good (not (version == s.version))
            {x = (m, failure (conflict_error s target version))} (λ d. h)
            (λ d.
              if-holds Good (not (c.state is candidate) || m.stopped)
                {x = (m, failure (transition_error s target error "terminal-or-stopped"))} (λ d. h)
                (λ waits.
                  if-holds Good (ltb t s.candidate_trigger.monotonic_time)
                    {x = (
                      m,
                      failure (transition_error s target error "decision-time-before-candidate"),
                    )}
                    (λ d. h)
                    (λ d.
                      let q = is-candidate c.state (ground (arith, waits)) in
                      if-holds Good (leb s.candidate_deadline t)
                        {x = (
                          commit m l b (transition_decision m.config timeout t wall (work_on m c)),
                          failure (transition_error s target warning "candidate-deadline-reached"),
                        )}
                        (λ d. put timeout refl q) (λ d. put target d0 q)))))

  -- A step of a loop keeps the accounts of the others.
  over_cameras-Keeps :
      (f : Work F → Work F) (cs : List (CameraTracker F)) (t : Tally) (ns : List (Notification F))
      (k : ℕ)
      → ((k : ℕ) (w : Work F) → Keeps k w → Keeps k (f w))
      → AllSound cs
      → IsAccounted t (open_total cs + k)
      → AllSound (over_cameras f cs t ns).0
        × IsAccounted (over_cameras f cs t ns).1 (open_total (over_cameras f cs t ns).0 + k)
  unfolding over_cameras
  over_cameras-Keeps f [] t ns k keep s a = (tt, a)
  over_cameras-Keeps f (c ∷ cs) t ns k keep (s, ss) a =
      let w : Work F = record { camera = c; tally = t; notices = ns } in
      let h =
        keep (open_total cs + k) w
          (record { sound = s; accounted = subst (IsAccounted t) (omega arith) a }) in
      let (rest, acc) =
        over_cameras-Keeps f cs (f w).tally (f w).notices (open_count (f w).camera.state + k) keep
          ss (subst (IsAccounted (f w).tally) (omega arith) h.accounted) in
      (
        (h.sound, rest),
        subst (IsAccounted (over_cameras f cs (f w).tally (f w).notices).1) (omega arith) acc,
      )

  suspicious-event :
      (s : CandidateEventState) (o : Option (ActiveEvent F)) (b : Bool)
      → (s is suspicious) ≡ true
      → Phase s o b
      → (o ≡ none) × (open_count s ≡ 0)
  suspicious-event suspicious o b e p = (p.0, refl)
  suspicious-event idle o b e p = absurd (ground arith)
  suspicious-event candidate o b e p = absurd (ground arith)
  suspicious-event confirmed o b e p = absurd (ground arith)
  suspicious-event rejected o b e p = absurd (ground arith)
  suspicious-event timeout o b e p = absurd (ground arith)

  -- A lease that is let go is no part of the phase.
  lease-Phase :
      (s : CandidateEventState) (o : Option (ActiveEvent F)) (b : Bool)
      → Phase s o b
      → Phase s (without_lease o) b
  lease-Phase idle o b p = ap without_lease p
  lease-Phase suspicious o b (p, q) = (ap without_lease p, q)
  lease-Phase candidate o b (e, q, x, d) = (_, ap without_lease q, x, d)
  lease-Phase confirmed o b (e, q, x, d) = (_, ap without_lease q, x, d)
  lease-Phase rejected o b (e, q, x, d) = (_, ap without_lease q, x, d)
  lease-Phase timeout o b (e, q, x, d) = (_, ap without_lease q, x, d)

  lease_gone-Keeps :
      (k : ℕ) (w : Work F) → Keeps k w → Keeps k (record w { camera = let_lease_go w.camera })
  lease_gone-Keeps k w h = record {
    sound = lease-Phase (w.camera).state (w.camera).event (w.camera).rearm_pending h.sound;
    accounted = h.accounted;
  }

  pub stop_camera-Keeps :
      (g : ManagerConfig F) (t wall k : ℕ) (w : Work F)
      → Keeps k w
      → Keeps k (stop_camera g t wall w)
  unfolding stop_camera
  stop_camera-Keeps g t wall k w h =
      let c = w.camera in
      let time = max t (trigger_time c) in
      let w' = transition_decision g timeout time wall w in
      if-holds (Keeps k) (c.state is candidate && has_event c)
        {x = record w' { camera = let_lease_go w'.camera }}
        (λ d. lease_gone-Keeps k w' (
          transition-Keeps g timeout time wall k w refl (is-candidate c.state (ground (arith, d)))
            h))
        (λ d.
          if-holds (Keeps k) (c.state is suspicious)
            {x = record w { camera = forget_observation (record c { state = idle }) }} {y = w}
            (λ q.
              let (z, o) = suspicious-event c.state c.event c.rearm_pending q h.sound in
              idle-Keeps k w _ refl z o h)
            (λ q. h))

  pub commit_all-IsConsistent :
      (m : Manager F) (f : Work F → Work F) (stopped : Bool)
      → ((k : ℕ) (w : Work F) → Keeps k w → Keeps k (f w))
      → IsConsistent m
      → IsConsistent
          (commit_all (record m { stopped = stopped }) (over_cameras f m.cameras m.tally []))
  commit_all-IsConsistent m f stopped keep h =
      let a = subst (IsAccounted m.tally) (omega arith) h.accounted in
      let (s, b) = over_cameras-Keeps f m.cameras m.tally [] 0 keep h.sound a in
      record {
        sound = s;
        accounted =
            deliver-IsAccounted m.config (over_cameras f m.cameras m.tally []).2 _ _
              (subst (IsAccounted (over_cameras f m.cameras m.tally []).1) (omega arith) b);
      }

  pub decide_found-IsConsistent :
      (m : Manager F) (id : List ℕ) (version : ℕ) (target : CandidateEventState) (t wall : ℕ)
      (o : Option (List (CameraTracker F) × CameraTracker F × List (CameraTracker F)))
      → is_decided target ≡ true
      → locate (has_event_id id) m.cameras ≡ o
      → IsConsistent m
      → IsConsistent (decide_found m id version target t wall o).0
  unfolding decide_found decide_with
  decide_found-IsConsistent m id version target t wall none d e h = h
  decide_found-IsConsistent m id version target t wall (some (l, c, b)) d e h = with_event c.event
    where
      with_event :
          (o : Option (ActiveEvent F))
          → IsConsistent (decide_with m id version target t wall l c b o).0
      with_event none = h
      with_event (some a) =
          decide_camera-IsConsistent m version target t wall l c b a.snapshot d
            (locate-split _ m.cameras l c b e) h
