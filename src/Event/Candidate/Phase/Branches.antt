-- ===== src/Event/Candidate/Phase/Branches.antt =====
-- The branches of an accepted result in src/event/src/candidate_event.cpp: state, event and counts.
use paper_breakage_analysis.Base.{
  ℕ, ◌+◌, ◌≡◌, refl, ap, sym, subst, ◌∙◌, List, true, false, not, ◌||◌, Option, none, Result,
  success, failure, Error, arith, u64_max, if-holds, if◌then◌else◌, ltb, leb,
}
use paper_breakage_analysis.Base.Floating.{Floating}
use paper_breakage_analysis.Event.Ring.Lease.{Lease, lease_window}
use paper_breakage_analysis.Event.Uuid.{UuidV7Generator, IdInput, next}
use paper_breakage_analysis.Event.Candidate.{
  CandidateEventState, idle, suspicious, candidate, confirmed, rejected, timeout, ◌is◌, is_decided,
  TriggerResult, EventSnapshot, CameraTracker, ManagerConfig, subtract_saturating,
}
use paper_breakage_analysis.Event.Candidate.Observe.{
  observe_confirmation, forget_observation, reset_confirmation_interval, confirmation_satisfied,
  is_manual,
}
use paper_breakage_analysis.Event.Candidate.Manager.{
  Work, confirm_from_result, add_candidate, open_candidate, on_candidate, on_rearming, suspect,
  begin_suspicion, on_trigger, try_candidate, prepare, branch, accept, protect,
  is_candidate_eligible, is_confirmation_eligible, first_trigger, bump, new_snapshot,
}
use paper_breakage_analysis.Event.Candidate.Phase.{
  Phase, IsOpen, IsAccounted, Keeps, open_count, same-Keeps, is-candidate,
  confirm_from_result-Keeps,
}
use paper_breakage_analysis.Event.Candidate.Phase.Stages.{
  SameCore, observe_confirmation-SameCore, observe_recovery-core, undecided-event, rearming-event,
  with_camera, idle-Keeps, prepare-Keeps,
}

becomes-suspicious :
    (s : CandidateEventState)
    → (s is candidate) ≡ false
    → is_decided s ≡ false
    → (s is idle) ≡ false
    → s ≡ suspicious
becomes-suspicious idle c d e = absurd (ground arith)
becomes-suspicious suspicious c d e = refl
becomes-suspicious candidate c d e = absurd (ground arith)
becomes-suspicious confirmed c d e = absurd (ground arith)
becomes-suspicious rejected c d e = absurd (ground arith)
becomes-suspicious timeout c d e = absurd (ground arith)

module _ {F : Floating} where
  core-Keeps :
      (k : ℕ) (w : Work F) (c : CameraTracker F)
      → SameCore c w.camera
      → Keeps k w
      → Keeps k (with_camera w c)
  core-Keeps k w c (a, b, d) h = same-Keeps k w c w.notices a b d h

  -- A suspicious camera, or one that becomes suspicious.
  suspicious-Keeps :
      (k : ℕ) (w : Work F) (c : CameraTracker F)
      → c.state ≡ suspicious
      → c.event ≡ none
      → c.rearm_pending ≡ false
      → open_count (w.camera).state ≡ 0
      → Keeps k w
      → Keeps k (with_camera w c)
  suspicious-Keeps k w c s e b o h = record {
    sound = subst (λ x. Phase x c.event c.rearm_pending) (sym s) (e, b);
    accounted = subst (λ x. IsAccounted w.tally (x + k)) (o ∙ sym (ap open_count s)) h.accounted;
  }

  on_candidate-Keeps :
      (g : ManagerConfig F) (r : TriggerResult F) (k : ℕ) (w : Work F)
      → (w.camera).state ≡ candidate
      → Keeps k w
      → Keeps k (on_candidate g r w)
  unfolding on_candidate
  on_candidate-Keeps g r k w s h =
      let c = observe_confirmation g (bump w.camera) r (is_confirmation_eligible g r) in
      let q = observe_confirmation-SameCore g (bump w.camera) r (is_confirmation_eligible g r) in
      let m : SameCore (bump w.camera) w.camera = ground arith in
      let hc = core-Keeps k w c (q.0 ∙ m.0, q.1 ∙ m.1, q.2 ∙ m.2) h in
      if-holds (Keeps k) (not (is_candidate_eligible g r))
        {x = record w {
          camera =
              reset_confirmation_interval (record (w.camera) { consecutive_triggered_frames = 0 });
        }}
        (λ e. same-Keeps k w _ w.notices refl refl refl h)
        (λ e.
          if-holds (Keeps k) (confirmation_satisfied g c r.monotonic_time)
            {x = confirm_from_result g r (record w { camera = c })} {y = record w { camera = c }}
            (λ d. confirm_from_result-Keeps g r k (with_camera w c) (q.0 ∙ m.0 ∙ s) hc) (λ d. hc))

  -- The new event of a candidate is open.
  protect-IsOpen :
      (s : EventSnapshot F) (x : Result Lease) → IsOpen s → IsOpen (protect s x).snapshot
  protect-IsOpen s (success l) o = o
  protect-IsOpen s (failure e) o = o

  add_candidate-Keeps :
      (g : ManagerConfig F) (r : TriggerResult F) (id : List ℕ) (k : ℕ) (w : Work F)
      → (w.camera).rearm_pending ≡ false
      → open_count (w.camera).state ≡ 0
      → Keeps k w
      → Keeps k (add_candidate g r id w)
  unfolding add_candidate
  add_candidate-Keeps g r id k w b o h = record {
    sound = (
      _,
      refl,
      protect-IsOpen
          (new_snapshot g w.camera (first_trigger (w.camera).first_suspicious_trigger r) r id)
          (lease_window (w.camera).memory_ring
            (subtract_saturating r.monotonic_time g.pre_event_duration) r.monotonic_time).1
          (refl, refl, refl, refl),
      b,
    );
    accounted = ground (arith, subst (λ x. IsAccounted w.tally (x + k)) o h.accounted);
  }

  open_candidate-Keeps :
      (g : ManagerConfig F) (r : TriggerResult F) (id : Result (List ℕ)) (k : ℕ) (w : Work F)
      → (w.camera).rearm_pending ≡ false
      → open_count (w.camera).state ≡ 0
      → Keeps k w
      → Keeps k (open_candidate g r id w).0
  unfolding add_candidate
  open_candidate-Keeps g r (failure e) k w b o h = record {
    sound = h.sound;
    accounted = h.accounted;
  }
  open_candidate-Keeps g r (success id) k w b o h =
      let w' = add_candidate g r id w in
      let h' = add_candidate-Keeps g r id k w b o h in
      if-holds (Keeps k) (confirmation_satisfied g w'.camera r.monotonic_time)
        {x = confirm_from_result g r w'} {y = w'} (λ d. confirm_from_result-Keeps g r k w' refl h')
        (λ d. h')

  -- `suspect` leaves the camera suspicious.
  suspect-core :
      (g : ManagerConfig F) (r : TriggerResult F) (c : CameraTracker F)
      → ((c.state is idle) ≡ false → c.state ≡ suspicious)
      → ((suspect g r c).state ≡ suspicious)
        × ((suspect g r c).event ≡ c.event)
        × ((suspect g r c).rearm_pending ≡ c.rearm_pending)
  unfolding suspect
  suspect-core g r c s =
      if-holds
        (λ x. (x.state ≡ suspicious) × (x.event ≡ c.event) × (x.rearm_pending ≡ c.rearm_pending))
        (c.state is idle) {x = begin_suspicion g r c}
        {y = if ltb c.consecutive_triggered_frames u64_max
          then observe_confirmation g (bump c) r (is_confirmation_eligible g r)
          else c}
        (λ e.
          observe_confirmation-SameCore g
            (record c { state = suspicious; consecutive_triggered_frames = 1 }) r
            (is_confirmation_eligible g r))
        (λ e.
          ground
            (arith, s e, observe_confirmation-SameCore g (bump c) r (is_confirmation_eligible g r)))

  on_trigger-Keeps :
      (g : ManagerConfig F) (ids : UuidV7Generator) (i : IdInput) (r : TriggerResult F) (k : ℕ)
      (w : Work F)
      → (w.camera).rearm_pending ≡ false
      → ((w.camera).state is candidate) ≡ false
      → is_decided (w.camera).state ≡ false
      → Keeps k w
      → Keeps k (on_trigger g ids i r w).1
  unfolding on_trigger
  on_trigger-Keeps g ids i r k w b c d h =
      let a = suspect g r w.camera in
      let (s, e, p) = suspect-core g r w.camera (becomes-suspicious _ c d) in
      let (none_yet, o) = undecided-event (w.camera).state (w.camera).event _ c d h.sound in
      let ha = suspicious-Keeps k w a s (e ∙ none_yet) (p ∙ b) o h in
      if-holds (λ (x : UuidV7Generator × Work F × Option Error). Keeps k x.1)
        (is_manual r || leb g.candidate_consecutive_frames a.consecutive_triggered_frames)
        {x = try_candidate g (next ids i) r (record w { camera = a })}
        {y = (ids, record w { camera = a }, none)}
        (λ t.
          open_candidate-Keeps g r (next ids i).1 k (with_camera w a) (p ∙ b) (ap open_count s) ha)
        (λ t. ha)

  on_rearming-Keeps :
      (g : ManagerConfig F) (r : TriggerResult F) (k : ℕ) (w : Work F)
      → (w.camera).rearm_pending ≡ true
      → is_decided (w.camera).state ≡ false
      → Keeps k w
      → Keeps k (with_camera w (on_rearming g r w.camera))
  on_rearming-Keeps g r k w b d h =
      let (e, o) =
        rearming-event (w.camera).state (w.camera).event d
          (subst (λ x. Phase (w.camera).state (w.camera).event x) b h.sound) in
      let q = observe_recovery-core g (forget_observation (record (w.camera) { state = idle })) r in
      idle-Keeps k w (on_rearming g r w.camera) q.0 (q.1 ∙ e) o h

  -- Whatever a result shows, the state of its camera fits its event afterwards, and the counts of
  -- the manager tell the events that were created, decided and are open.
  pub accept-Keeps :
      (g : ManagerConfig F) (ids : UuidV7Generator) (i : IdInput) (r : TriggerResult F) (k : ℕ)
      (w : Work F)
      → Keeps k w
      → Keeps k (accept g ids i r w).1
  unfolding accept branch
  accept-Keeps g ids i r k w0 h0 =
      let w = prepare g r w0 in
      let (h, d) = prepare-Keeps g r k w0 h0 in
      let c = w.camera in
      if-holds (λ (x : UuidV7Generator × Work F × Option Error). Keeps k x.1) c.rearm_pending
        {x = (ids, record w { camera = on_rearming g r c }, none)}
        (λ b. on_rearming-Keeps g r k w b d h)
        (λ b.
          if-holds (λ (x : UuidV7Generator × Work F × Option Error). Keeps k x.1)
            (c.state is candidate) {x = (ids, on_candidate g r w, none)}
            (λ e. on_candidate-Keeps g r k w (is-candidate c.state e) h)
            (λ e.
              if-holds (λ (x : UuidV7Generator × Work F × Option Error). Keeps k x.1)
                (not (is_candidate_eligible g r))
                {x = (
                  ids,
                  record w { camera = forget_observation (record c { state = idle }) },
                  none,
                )}
                {y = on_trigger g ids i r w}
                (λ n.
                  let (z, o) = undecided-event c.state c.event _ e d h.sound in
                  idle-Keeps k w _ refl z o h)
                (λ n. on_trigger-Keeps g ids i r k w b e d h)))
