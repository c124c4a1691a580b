-- ===== src/Event/Candidate/Phase.antt =====
-- What fits together in a camera's tracker and in the counts: the state and the event, and the
-- events that were created and that were decided.
pub mod Stages
pub mod Branches
pub mod Ledger
pub mod Commands
pub mod Seeded
pub mod Run
use paper_breakage_analysis.Base.{
  ℕ, ◌+◌, ◌%◌, ◌≡◌, refl, ap, sym, subst, List, [], ◌∷◌, Bool, true, false, not, ◌&&◌, leb, Option,
  none, some, Result, success, failure, Error, arith, u64_mod, Bool-cases, Option-cases, inl, inr,
  if-holds, if◌then◌else◌,
}
use paper_breakage_analysis.Base.Floating.{Floating}
use paper_breakage_analysis.Event.Uuid.{UuidV7Generator, IdInput, next}
use paper_breakage_analysis.Event.Candidate.{
  CandidateEventState, idle, suspicious, candidate, confirmed, rejected, timeout, ◌is◌, is_decided,
  TriggerResult, EventSnapshot, ActiveEvent, CameraTracker, Notification, ManagerConfig,
  CandidateDecision,
}
use paper_breakage_analysis.Event.Candidate.Observe.{
  observe_recovery, observe_confirmation, forget_observation, reset_confirmation_interval,
  confirmation_satisfied, is_used,
}
use paper_breakage_analysis.Event.Candidate.Manager.{
  Work, Tally, decide_event, transition_decision, confirm_from_result, add_candidate,
  open_candidate, on_candidate, on_rearming, suspect, on_trigger, try_candidate, expire, retire,
  rearm_manually, prepare, branch, accept, protect, is_due, is_later, value_or,
}

abbrev pub open_count : CandidateEventState → ℕ
open_count candidate = 1
open_count idle = 0
open_count suspicious = 0
open_count confirmed = 0
open_count rejected = 0
open_count timeout = 0

-- The events that were created are those that were decided and those that are open, of which `k`
-- belong to other cameras; the counts wrap.
abbrev pub IsAccounted : Tally → ℕ → Type 0
IsAccounted t k =
    t.events_created ≡ (t.confirmed_events + t.rejected_events + t.timed_out_events + k) % u64_mod

pub is-candidate : (s : CandidateEventState) → (s is candidate) ≡ true → s ≡ candidate
is-candidate idle e = absurd (ground arith)
is-candidate suspicious e = absurd (ground arith)
is-candidate candidate e = refl
is-candidate confirmed e = absurd (ground arith)
is-candidate rejected e = absurd (ground arith)
is-candidate timeout e = absurd (ground arith)

pub decided-open_count : (s : CandidateEventState) → is_decided s ≡ true → open_count s ≡ 0
decided-open_count idle e = refl
decided-open_count suspicious e = refl
decided-open_count candidate e = absurd (ground arith)
decided-open_count confirmed e = refl
decided-open_count rejected e = refl
decided-open_count timeout e = refl

module _ {F : Floating} where
  -- An event that waits for its decision, and one that has it.
  abbrev pub IsOpen : EventSnapshot F → Type 0
  IsOpen s =
      (s.decision_state ≡ candidate)
      × (s.version ≡ 1)
      × (s.decision ≡ none)
      × (s.post_collection_started ≡ true)

  abbrev pub IsClosed : CandidateEventState → EventSnapshot F → Type 0
  IsClosed state s =
      (s.decision_state ≡ state)
      × (s.version ≡ 2)
      × ((d : CandidateDecision) × (s.decision ≡ some d) × (d.state ≡ state))

  -- The event of a camera in a state, and whether the camera waits for its recovery.
  abbrev pub Phase : CandidateEventState → Option (ActiveEvent F) → Bool → Type 0
  Phase idle o b = o ≡ none
  Phase suspicious o b = (o ≡ none) × (b ≡ false)
  Phase candidate o b = (e : ActiveEvent F) × (o ≡ some e) × IsOpen e.snapshot × (b ≡ false)
  Phase confirmed o b =
      (e : ActiveEvent F) × (o ≡ some e) × IsClosed confirmed e.snapshot × (b ≡ true)
  Phase rejected o b =
      (e : ActiveEvent F) × (o ≡ some e) × IsClosed rejected e.snapshot × (b ≡ true)
  Phase timeout o b = (e : ActiveEvent F) × (o ≡ some e) × IsClosed timeout e.snapshot × (b ≡ true)

  abbrev pub IsSound : CameraTracker F → Type 0
  IsSound c = Phase c.state c.event c.rearm_pending

  pub record Keeps (k : ℕ) (w : Work F) : Type 0 where
    pub sound : IsSound w.camera
    pub accounted : IsAccounted w.tally (open_count (w.camera).state + k)

  IsOpen-event :
      (c : CameraTracker F)
      → c.state ≡ candidate
      → IsSound c
      → (e : ActiveEvent F) × (c.event ≡ some e) × IsOpen e.snapshot × (c.rearm_pending ≡ false)
  IsOpen-event c q s = subst (λ x. Phase x c.event c.rearm_pending) q s

  decide-Keeps :
      (g : ManagerConfig F) (s : CandidateEventState) (t wall k : ℕ) (w : Work F)
      (e : ActiveEvent F)
      → is_decided s ≡ true
      → IsOpen e.snapshot
      → (w.camera).state ≡ candidate
      → IsAccounted w.tally (open_count (w.camera).state + k)
      → Keeps k (decide_event g s t wall (some e) w)
  unfolding decide_event
  decide-Keeps g confirmed t wall k w e d o c a = record {
    sound = (_, refl, (refl, ground arith, (_, refl, refl)), refl);
    accounted = ground (arith, ap open_count c);
  }
  decide-Keeps g rejected t wall k w e d o c a = record {
    sound = (_, refl, (refl, ground arith, (_, refl, refl)), refl);
    accounted = ground (arith, ap open_count c);
  }
  decide-Keeps g timeout t wall k w e d o c a = record {
    sound = (_, refl, (refl, ground arith, (_, refl, refl)), refl);
    accounted = ground (arith, ap open_count c);
  }
  decide-Keeps g idle t wall k w e d o c a = absurd (ground arith)
  decide-Keeps g suspicious t wall k w e d o c a = absurd (ground arith)
  decide-Keeps g candidate t wall k w e d o c a = absurd (ground arith)

  -- A decision on a candidate.
  pub transition-Keeps :
      (g : ManagerConfig F) (s : CandidateEventState) (t wall k : ℕ) (w : Work F)
      → is_decided s ≡ true
      → (w.camera).state ≡ candidate
      → Keeps k w
      → Keeps k (transition_decision g s t wall w)
  transition-Keeps g s t wall k w d c h =
      let (e, q, o, b) = IsOpen-event w.camera c h.sound in
      subst (λ x. Keeps k (decide_event g s t wall x w)) (sym q)
        (decide-Keeps g s t wall k w e d o c h.accounted)

  -- The parts of a tracker that count.
  pub same-Keeps :
      (k : ℕ) (w : Work F) (c : CameraTracker F) (ns : List (Notification F))
      → c.state ≡ (w.camera).state
      → c.event ≡ (w.camera).event
      → c.rearm_pending ≡ (w.camera).rearm_pending
      → Keeps k w
      → Keeps k (record { camera = c; tally = w.tally; notices = ns })
  same-Keeps k w c ns a b d h = record {
    sound =
        subst (λ x. Phase x c.event c.rearm_pending) (sym a)
          (subst (λ x. Phase (w.camera).state x c.rearm_pending) (sym b)
            (subst (λ x. Phase (w.camera).state (w.camera).event x) (sym d) h.sound));
    accounted = subst (λ x. IsAccounted w.tally (open_count x + k)) (sym a) h.accounted;
  }

  pub due-candidate : (c : CameraTracker F) (t : ℕ) → is_due c t ≡ true → c.state ≡ candidate
  due-candidate c t d = due c.event t d
    where
      due :
          (o : Option (ActiveEvent F)) (t : ℕ)
          → (elim o [
            | none ↦ false
            | some e ↦ c.state is candidate && leb e.snapshot.candidate_deadline t
          ])
            ≡ true
          → c.state ≡ candidate
      due none t d = absurd (ground arith)
      due (some e) t d = is-candidate c.state (ground (arith, d))

  pub expire-Keeps :
      (g : ManagerConfig F) (t wall k : ℕ) (w : Work F) → Keeps k w → Keeps k (expire g t wall w)
  unfolding expire
  expire-Keeps g t wall k w h =
      if-holds (Keeps k) (is_due w.camera t)
        (λ d. transition-Keeps g timeout t wall k w refl (due-candidate w.camera t d) h) (λ d. h)

  pub confirm_from_result-Keeps :
      (g : ManagerConfig F) (r : TriggerResult F) (k : ℕ) (w : Work F)
      → (w.camera).state ≡ candidate
      → Keeps k w
      → Keeps k (confirm_from_result g r w)
  unfolding confirm_from_result
  confirm_from_result-Keeps g r k w c h =
      let a = w.camera in
      if-holds (Keeps k)
        (is_used g.external_confirmation && is_later a.external_signal_time r.monotonic_time)
        {x = transition_decision g confirmed (value_or a.external_signal_time r.monotonic_time)
          (value_or a.external_signal_wall_time r.wall_clock_time) w}
        {y = transition_decision g confirmed r.monotonic_time r.wall_clock_time w}
        (λ d. transition-Keeps g confirmed _ _ k w refl c h)
        (λ d. transition-Keeps g confirmed _ _ k w refl c h)
