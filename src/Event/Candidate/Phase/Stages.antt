-- ===== src/Event/Candidate/Phase/Stages.antt =====
-- The stages of an accepted result in src/event/src/candidate_event.cpp: state, event and counts.

use paper_breakage_analysis.Base.{
  ℕ, ◌+◌, ◌≡◌, refl, ap, sym, subst, ◌∙◌, Bool, true, false, ◌&&◌, Option, none, some, arith,
  if-holds,
}
use paper_breakage_analysis.Base.Floating.{Floating}
use paper_breakage_analysis.Event.Candidate.{
  CandidateEventState, idle, suspicious, candidate, confirmed, rejected, timeout, ◌is◌, is_decided,
  TriggerResult, ActiveEvent, CameraTracker, ManagerConfig,
}
use paper_breakage_analysis.Event.Candidate.Observe.{
  observe_recovery, observe_confirmation, forget_observation, reset_recovery_interval, is_manual,
}
use paper_breakage_analysis.Event.Candidate.Manager.{
  Work, expire, retire, rearm_manually, prepare, drop_event,
}
use paper_breakage_analysis.Event.Candidate.Phase.{
  Phase, IsAccounted, Keeps, open_count, same-Keeps, decided-open_count, expire-Keeps,
}

module _ {F : Floating} where
  -- What an observation leaves alone.
  abbrev pub SameCore : CameraTracker F → CameraTracker F → Type 0
  SameCore c d = (c.state ≡ d.state) × (c.event ≡ d.event) × (c.rearm_pending ≡ d.rearm_pending)

  pub observe_confirmation-SameCore :
      (g : ManagerConfig F) (c : CameraTracker F) (r : TriggerResult F) (b : Bool)
      → SameCore (observe_confirmation g c r b) c
  unfolding observe_confirmation
  observe_confirmation-SameCore g c r b = ground arith

  pub observe_recovery-core :
      (g : ManagerConfig F) (c : CameraTracker F) (r : TriggerResult F)
      → ((observe_recovery g c r).state ≡ c.state) × ((observe_recovery g c r).event ≡ c.event)
  unfolding observe_recovery
  observe_recovery-core g c r = ground arith

  -- A camera without a decided event.
  pub undecided-event :
      (s : CandidateEventState) (o : Option (ActiveEvent F)) (b : Bool)
      → (s is candidate) ≡ false
      → is_decided s ≡ false
      → Phase s o b
      → (o ≡ none) × (open_count s ≡ 0)
  undecided-event idle o b c d p = (p, refl)
  undecided-event suspicious o b c d p = (p.0, refl)
  undecided-event candidate o b c d p = absurd (ground arith)
  undecided-event confirmed o b c d p = absurd (ground arith)
  undecided-event rejected o b c d p = absurd (ground arith)
  undecided-event timeout o b c d p = absurd (ground arith)

  -- Nor does one that waits for its recovery have a candidate.
  pub rearming-event :
      (s : CandidateEventState) (o : Option (ActiveEvent F))
      → is_decided s ≡ false
      → Phase s o true
      → (o ≡ none) × (open_count s ≡ 0)
  rearming-event idle o d p = (p, refl)
  rearming-event suspicious o d (e, b) = (e, refl)
  rearming-event candidate o d (e, q, x, b) = absurd (ground arith)
  rearming-event confirmed o d p = absurd (ground arith)
  rearming-event rejected o d p = absurd (ground arith)
  rearming-event timeout o d p = absurd (ground arith)

  rearmed-Phase :
      (s : CandidateEventState) (o : Option (ActiveEvent F)) (b : Bool)
      → is_decided s ≡ false
      → Phase s o b
      → Phase s o false
  rearmed-Phase idle o b d p = p
  rearmed-Phase suspicious o b d (e, q) = (e, refl)
  rearmed-Phase candidate o b d (e, q, x, r) = (e, q, x, refl)
  rearmed-Phase confirmed o b d p = absurd (ground arith)
  rearmed-Phase rejected o b d p = absurd (ground arith)
  rearmed-Phase timeout o b d p = absurd (ground arith)

  abbrev pub with_camera : Work F → CameraTracker F → Work F
  with_camera w c = record w { camera = c }

  -- A tracker with no event and nothing open.
  pub idle-Keeps :
      (k : ℕ) (w : Work F) (c : CameraTracker F)
      → c.state ≡ idle
      → c.event ≡ none
      → open_count (w.camera).state ≡ 0
      → Keeps k w
      → Keeps k (with_camera w c)
  idle-Keeps k w c s e o h = record {
    sound = subst (λ x. Phase x c.event c.rearm_pending) (sym s) e;
    accounted = subst (λ x. IsAccounted w.tally (x + k)) (o ∙ sym (ap open_count s)) h.accounted;
  }

  -- After `retire` no event is decided.
  retire-Keeps :
      (k : ℕ) (w : Work F)
      → Keeps k w
      → Keeps k (with_camera w (retire w.camera)) × (is_decided (retire w.camera).state ≡ false)
  unfolding retire
  retire-Keeps k w h =
      if-holds (λ c. Keeps k (with_camera w c) × (is_decided c.state ≡ false))
        (is_decided (w.camera).state)
        {x = forget_observation (drop_event (record (w.camera) { state = idle }))} {y = w.camera}
        (λ d. (idle-Keeps k w _ refl refl (decided-open_count _ d) h, refl)) (λ d. (h, d))

  rearm_manually-Keeps :
      (k : ℕ) (w : Work F) (r : TriggerResult F)
      → is_decided (w.camera).state ≡ false
      → Keeps k w
      → Keeps k (with_camera w (rearm_manually r w.camera))
        × (is_decided (rearm_manually r w.camera).state ≡ false)
  unfolding rearm_manually
  rearm_manually-Keeps k w r d h =
      if-holds (λ c. Keeps k (with_camera w c) × (is_decided c.state ≡ false))
        ((w.camera).rearm_pending && is_manual r && r.triggered)
        {x = reset_recovery_interval
          (record (w.camera) { rearm_pending = false; cooldown_until = none })}
        {y = w.camera}
        (λ e. (
          record {
            sound = rearmed-Phase (w.camera).state (w.camera).event _ d h.sound;
            accounted = h.accounted;
          },
          d,
        ))
        (λ e. (h, d))

  -- The stages before the branches.
  pub prepare-Keeps :
      (g : ManagerConfig F) (r : TriggerResult F) (k : ℕ) (w : Work F)
      → Keeps k w
      → Keeps k (prepare g r w) × (is_decided (prepare g r w).camera.state ≡ false)
  unfolding prepare
  prepare-Keeps g r k w h =
      let a = with_camera w (record (w.camera) { last_result = some r }) in
      let ha = same-Keeps k w a.camera w.notices refl refl refl h in
      let b = expire g r.monotonic_time r.wall_clock_time a in
      let hb = expire-Keeps g r.monotonic_time r.wall_clock_time k a ha in
      let (hc, d) = retire-Keeps k b hb in
      rearm_manually-Keeps k (with_camera b (retire b.camera)) r d hc
