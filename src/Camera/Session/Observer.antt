-- ===== src/Camera/Session/Observer.antt =====
-- What the observer of a session of src/camera/src/state.cpp gets: `notify` is called after the lock is
-- released, so that the records of several threads may reach it in another order than they were made.
use mathlib.Core.List.{append-nil, Perm, perm_middle, perm_append_singleton}
use mathlib.Core.List.Perm
use paper_breakage_analysis.Base.{
  zero, suc, ◌++◌, sym, subst, Option-cases, inl, inr, ℕ, ◌≡◌, refl, List, [], ◌∷◌, Option, none,
  some, arith,
}
use paper_breakage_analysis.Camera.Session.{
  CameraSession, TransitionRecord, SessionCall, step, emitted,
}
use paper_breakage_analysis.Camera.Session.Trail.{Trail, Trail-append, step-Leads}

-- A session and its records: those that were made, in the order of the lock; those that a thread, which
-- has released the lock, has still to hand to the observer; and those that the observer got, the last
-- one first.
pub record Watched : Type 0 where
  pub session : CameraSession
  pub made : List TransitionRecord
  pub pending : List TransitionRecord
  pub delivered : List TransitionRecord

-- A call up to the release of the lock, or the return of the observer from the record at an index.
pub data WatchedStep : Type 0 where
  calls : SessionCall → WatchedStep
  delivers : ℕ → WatchedStep

abbrev take_record : List TransitionRecord → ℕ → Option (TransitionRecord × List TransitionRecord)
take_record [] i = none
take_record (r ∷ rs) zero = some (r, rs)
take_record (r ∷ rs) (suc i) = elim (take_record rs i) [
  | none ↦ none
  | some (q, qs) ↦ some (q, r ∷ qs)
]

abbrev hand_over : Watched → Option (TransitionRecord × List TransitionRecord) → Watched
hand_over w none = w
hand_over w (some (r, rs)) = record w { pending = rs; delivered = r ∷ w.delivered }

unfoldable pub watched_step : Watched → WatchedStep → Watched
watched_step w (calls c) = record w {
  session = (step w.session c).0;
  made = w.made ++ emitted (step w.session c).1 [];
  pending = emitted (step w.session c).1 w.pending;
}
watched_step w (delivers i) = hand_over w (take_record w.pending i)

unfoldable pub watched_run : Watched → List WatchedStep → Watched
watched_run w [] = w
watched_run w (c ∷ cs) = watched_run (watched_step w c) cs

abbrev pub unwatched : CameraSession → Watched
unwatched s = record { session = s; made = []; pending = []; delivered = [] }

perm-behind :
    (ds : List TransitionRecord) {xs ys : List TransitionRecord}
    → Perm xs ys
    → Perm (ds ++ xs) (ds ++ ys)
perm-behind [] p = p
perm-behind (d ∷ ds) p = Perm.cons d (perm-behind ds p)

perm-take_record :
    (rs : List TransitionRecord) (i : ℕ) (r : TransitionRecord) (qs : List TransitionRecord)
    → take_record rs i ≡ some (r, qs)
    → Perm rs (r ∷ qs)
perm-take_record [] i r qs e = absurd cc
perm-take_record (x ∷ rs) zero r qs e =
    let same : x ∷ rs ≡ r ∷ qs = cc in subst (Perm (x ∷ rs)) same (Perm.refl (x ∷ rs))
perm-take_record (x ∷ rs) (suc i) r qs e = elim (Option-cases (take_record rs i)) [
  | inl h ↦ absurd (ground (arith, h))
  | inr ((q, ys), h) ↦
      let same : q ∷ x ∷ ys ≡ r ∷ qs = ground (arith, h) in
      subst (Perm (x ∷ rs)) same
        (Perm.trans (Perm.cons x (perm-take_record rs i q ys h)) (Perm.swap q x ys))
]

-- The records make a trail of the session, and each of them is delivered once or pending.
pub record IsWatched (s : CameraSession) (w : Watched) : Type 0 where
  pub trail :
      Trail s.state s.transition_sequence w.made w.session.state w.session.transition_sequence
  pub delivery : Perm (w.delivered ++ w.pending) w.made

call-delivery :
    (made pending delivered : List TransitionRecord) (n : Option TransitionRecord)
    → Perm (delivered ++ pending) made
    → Perm (delivered ++ emitted n pending) (made ++ emitted n [])
call-delivery made pending delivered none p =
    subst (Perm (delivered ++ pending)) (sym (append-nil made)) p
call-delivery made pending delivered (some r) p =
    Perm.trans (perm_middle delivered pending)
      (Perm.trans (Perm.cons r p) (Perm.symm (perm_append_singleton r made)))

hand_over-IsWatched :
    (s : CameraSession) (w : Watched) (i : ℕ)
    → IsWatched s w
    → (o : Option (TransitionRecord × List TransitionRecord)) → take_record w.pending i ≡ o
    → IsWatched s (hand_over w o)
hand_over-IsWatched s w i v none e = v
hand_over-IsWatched s w i v (some (r, rs)) e = record {
  trail = v.trail;
  delivery = Perm.trans (Perm.symm (perm_middle w.delivered rs)) (
      Perm.trans (perm-behind w.delivered (Perm.symm (perm-take_record w.pending i r rs e)))
        v.delivery);
}

watched_step-IsWatched :
    (s : CameraSession) (w : Watched) (c : WatchedStep)
    → IsWatched s w
    → IsWatched s (watched_step w c)
unfolding watched_step
watched_step-IsWatched s w (calls c) v = record {
  trail = Trail-append w.made _ _ _ _ _ _ _ v.trail (step-Leads w.session c);
  delivery = call-delivery w.made w.pending w.delivered (step w.session c).1 v.delivery;
}
watched_step-IsWatched s w (delivers i) v = hand_over-IsWatched s w i v _ refl

watched_run-from :
    (s : CameraSession) (w : Watched) (cs : List WatchedStep)
    → IsWatched s w
    → IsWatched s (watched_run w cs)
unfolding watched_run
watched_run-from s w [] v = v
watched_run-from s w (c ∷ cs) v =
    watched_run-from s (watched_step w c) cs (watched_step-IsWatched s w c v)

-- Over any calls of any threads, and any order in which the observer gets the records once the lock is
-- released: the records in the order in which they were made are numbered one by one (modulo 2^64), each
-- starts where the last one left the session and is accepted exactly if the transition is allowed, and
-- they end in the state that the session has; and the records that the observer got and those still on
-- their way are these, each once, in an order that may differ.
pub watched_run-IsWatched :
    (s : CameraSession) (cs : List WatchedStep) → IsWatched s (watched_run (unwatched s) cs)
watched_run-IsWatched s cs =
    watched_run-from s (unwatched s) cs (record { trail = (refl, refl); delivery = Perm.refl [] })
