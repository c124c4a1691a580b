-- ===== src/Event/Candidate/Observe/Recovery.antt =====
-- When a camera that waits for its recovery is armed again, over the results that it observes while it
-- waits (src/event/src/candidate_event.cpp, `observe_recovery`).
use paper_breakage_analysis.Base.{
  ℕ, ◌+◌, ◌-◌, ◌*◌, ◌≤◌, ◌≡◌, refl, sym, ap, ◌∙◌, ◌⊎◌, ◌&&◌, true, false, Option, none, some, arith,
  leb, ltb, List, [], ◌∷◌, ◌++◌, Bool-cases, inl, inr, if◌then◌else◌, if-holds,
}
use paper_breakage_analysis.Base.Floating.{Floating}
use paper_breakage_analysis.Event.Candidate.{TriggerResult, CameraTracker, ManagerConfig}
use paper_breakage_analysis.Event.Candidate.Observe.{
  observe_recovery, note_normal, is_recovered, holds_at, suppress, reset_recovery_interval,
}

-- Its cooldown, where it has one, is over at a time.
abbrev pub HasCooled : Option ℕ → ℕ → Type 0
HasCooled o now = (o ≡ none) ⊎ ((until : ℕ) × (o ≡ some until) × (until ≤ now))

cooled_lem :
    (o : Option ℕ) (now : ℕ)
    → holds_at (if holds_at o (λ t. leb t now) then none else o) (λ t. true) ≡ false
    → HasCooled o now
cooled_lem none now e = inl refl
cooled_lem (some t) now e = inr (t, refl, ground (arith, e))

lasted_lem :
    (o : Option ℕ) (now d from : ℕ)
    → o ≡ some from
    → holds_at o (λ t. leb t now && leb d (now - t)) ≡ true
    → from + d ≤ now
lasted_lem none now d from e h = absurd cc
lasted_lem (some t) now d from e h = ground (arith, h)

module _ {F : Floating} where
  -- The camera after some results, of which the last one is written first.
  unfoldable pub observe_all :
      ManagerConfig F → CameraTracker F → List (TriggerResult F) → CameraTracker F
  observe_all g c [] = c
  observe_all g c (r ∷ rs) = observe_recovery g (observe_all g c rs) r

  -- Normal results, at least one and the last one first, from a time to a time, each at most two
  -- processing periods after the one before.
  abbrev pub IsQuiet : ManagerConfig F → ℕ → ℕ → List (TriggerResult F) → Type 0
  IsQuiet g from to [] = false ≡ true
  IsQuiet g from to (r ∷ []) = (r.triggered ≡ false) × (r.monotonic_time ≡ to) × (from ≡ to)
  IsQuiet g from to (r ∷ q ∷ rs) =
      (r.triggered ≡ false)
      × (r.monotonic_time ≡ to)
      × (to ≤ q.monotonic_time + g.processing_period * 2)
      × IsQuiet g from q.monotonic_time (q ∷ rs)

  -- The interval that a camera has noted is that of quiet results, the last ones that it observed.
  abbrev IsNoted : ManagerConfig F → List (TriggerResult F) → ℕ → ℕ → Option ℕ → Option ℕ → Type 0
  IsNoted g rs from to started last =
      (run : List (TriggerResult F)) × (before : List (TriggerResult F)) × (rs ≡ run ++ before)
      × IsQuiet g from to run
      × (started ≡ some from)
      × (last ≡ some to)

  abbrev MayBeNoted : ManagerConfig F → List (TriggerResult F) → CameraTracker F → Type 0
  MayBeNoted g rs c =
      (c.recovery_started_at ≡ none)
      ⊎ ((from : ℕ) × (to : ℕ) × IsNoted g rs from to c.recovery_started_at
            c.last_recovery_normal_at)

  IsQuiet-more :
      (g : ManagerConfig F) (from to : ℕ) (r : TriggerResult F) (run : List (TriggerResult F))
      → IsQuiet g from to run
      → r.triggered ≡ false
      → r.monotonic_time ≤ to + g.processing_period * 2
      → IsQuiet g from r.monotonic_time (r ∷ run)
  IsQuiet-more g from to r [] q n h = absurd cc
  IsQuiet-more g from to r (a ∷ []) (x, y, z) n h =
      (n, refl, omega (arith, y), (x, refl, z ∙ sym y))
  IsQuiet-more g from to r (a ∷ b ∷ run) (x, y, z, w) n h =
      (n, refl, omega (arith, y), (x, refl, omega (arith, y), w))

  -- A normal result goes on with the run that is noted, or begins one.
  note_normal-IsNoted :
      (g : ManagerConfig F) (c : CameraTracker F) (rs : List (TriggerResult F))
      (r : TriggerResult F)
      → r.triggered ≡ false
      → MayBeNoted g rs c
      → (from : ℕ) × IsNoted g
          (r ∷ rs)
          from
          r.monotonic_time
          (note_normal g c r.monotonic_time).recovery_started_at
          (note_normal g c r.monotonic_time).last_recovery_normal_at
  note_normal-IsNoted g c rs r n (inl e) =
      (r.monotonic_time, (r ∷ [], rs, refl, (n, refl, refl), ground (arith, e), refl))
  note_normal-IsNoted g c rs r n (inr (from, to, (run, before, e, q, a, b))) =
      elim (Bool-cases (ltb (g.processing_period * 2) (r.monotonic_time - to))) [
        | inl h ↦ (r.monotonic_time, (r ∷ [], rs, refl, (n, refl, refl), rw (a, b, h) refl, refl))
        | inr h ↦ (
          from,
          (
            r ∷ run,
            before,
            ap (◌∷◌ r) e,
            IsQuiet-more g from to r run q n (ground (arith, h)),
            rw (a, b, h) refl,
            refl,
          ),
        )
      ]

  started-reset :
      (g : ManagerConfig F) (c : CameraTracker F) (r : TriggerResult F)
      → (suppress (reset_recovery_interval c) r).recovery_started_at ≡ none
  started-reset g c r = ground arith

  observe_recovery-MayBeNoted :
      (g : ManagerConfig F) (c : CameraTracker F) (rs : List (TriggerResult F))
      (r : TriggerResult F)
      → MayBeNoted g rs c
      → MayBeNoted g (r ∷ rs) (observe_recovery g c r)
  unfolding observe_recovery
  observe_recovery-MayBeNoted g c rs r m =
      if-holds (MayBeNoted g (r ∷ rs)) r.triggered (λ e. inl (started-reset g c r))
        (λ e.
          if-holds (MayBeNoted g (r ∷ rs))
            (is_recovered g (note_normal g c r.monotonic_time) r.monotonic_time) (λ f. inl refl)
            (λ f.
              let (from, noted) = note_normal-IsNoted g c rs r e m in
              inr (from, r.monotonic_time, noted)))

  observe_all-MayBeNoted :
      (g : ManagerConfig F) (c : CameraTracker F) (rs : List (TriggerResult F))
      → c.recovery_started_at ≡ none
      → MayBeNoted g rs (observe_all g c rs)
  unfolding observe_all
  observe_all-MayBeNoted g c [] e = inl e
  observe_all-MayBeNoted g c (r ∷ rs) e =
      observe_recovery-MayBeNoted g (observe_all g c rs) rs r (observe_all-MayBeNoted g c rs e)

  -- Of a camera that waits for its recovery and has noted no interval, as after its latch, and any
  -- results that `observe_recovery` is given while it waits: where one arms it again, that result is
  -- normal, the cooldown that was left is over, and it ends an unbroken run of normal results, the last
  -- that were observed, each at most two processing periods after the one before, which has lasted for
  -- the rearm duration. A manual trigger is not observed so: `process` arms the camera for it at once.
  pub rearm_needs_recovery :
      (g : ManagerConfig F) (c : CameraTracker F) (rs : List (TriggerResult F))
      (r : TriggerResult F)
      → c.recovery_started_at ≡ none
      → (observe_all g c rs).rearm_pending ≡ true
      → (observe_all g c (r ∷ rs)).rearm_pending ≡ false
      → HasCooled (observe_all g c rs).cooldown_until r.monotonic_time
        × (from : ℕ) × (run : List (TriggerResult F)) × (before : List (TriggerResult F)) × (r ∷ rs
            ≡ run ++ before)
        × IsQuiet g from r.monotonic_time run
        × (from + g.rearm_duration ≤ r.monotonic_time)
  unfolding observe_all observe_recovery
  rearm_needs_recovery g c rs r none_noted p e =
      let d = observe_all g c rs in
      let noted_before = observe_all-MayBeNoted g c rs none_noted in
      elim (Bool-cases r.triggered) [
        | inl t ↦ absurd (ground (arith, t, p, e))
        | inr t ↦
            elim (Bool-cases (is_recovered g (note_normal g d r.monotonic_time) r.monotonic_time)) [
              | inl q ↦
                  let (from, (run, before, split, quiet, started, last)) =
                    note_normal-IsNoted g d rs r t noted_before in
                  (
                    cooled_lem d.cooldown_until r.monotonic_time (ground (arith, q)),
                    from,
                    run,
                    before,
                    split,
                    quiet,
                    lasted_lem (note_normal g d r.monotonic_time).recovery_started_at
                        r.monotonic_time g.rearm_duration from started (ground (arith, q)),
                  )
              | inr q ↦ absurd (ground (arith, t, q, p, e))
            ]
      ]
