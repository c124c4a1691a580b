-- ===== src/Event/Candidate/Phase/Ledger.antt =====
-- What holds of the manager of src/event/src/candidate_event.cpp between two calls: every camera's state
-- and its event, and the counts of the events that were created, decided and are open.
use paper_breakage_analysis.Base.{
  ℕ, ◌+◌, ◌≡◌, refl, ap, sym, subst, ◌∙◌, List, [], ◌∷◌, ◌++◌, Bool, true, Option, none, some,
  Result, success, Error, arith, if-holds, inc_u64, ◌⊎◌, inl, inr,
}
use paper_breakage_analysis.Base.Floating.{Floating}
use paper_breakage_analysis.Event.Uuid.{UuidV7Generator, IdInput}
use paper_breakage_analysis.Event.Candidate.{
  TriggerResult, CameraTracker, Notification, ManagerConfig,
}
use paper_breakage_analysis.Event.Candidate.Observe.{validate_result}
use paper_breakage_analysis.Event.Candidate.Manager.{Work, Tally, accept}
use paper_breakage_analysis.Event.Candidate.Manager.Calls.{
  Manager, locate, behind_first, throws, deliver, commit, work_on, is_repeat, count_accepted,
  conclude, count_duplicate, process_camera, process_found, process, has_camera_id,
}
use paper_breakage_analysis.Event.Candidate.Phase.{IsSound, IsAccounted, Keeps, open_count}
use paper_breakage_analysis.Event.Candidate.Phase.Branches.{accept-Keeps}

-- What was taken apart, put together.
abbrev joined {ℓ} : {A : Type ℓ} → Option (List A × A × List A) → List A
joined none = []
joined (some (l, x, r)) = l ++ (x ∷ r)

behind_first-joined {ℓ} :
    {A : Type ℓ} (x : A) (xs : List A) (o : Option (List A × A × List A))
    → (o ≡ none) ⊎ (joined o ≡ xs)
    → (behind_first x o ≡ none) ⊎ (joined (behind_first x o) ≡ x ∷ xs)
behind_first-joined x xs none h = inl refl
behind_first-joined x xs (some (l, y, r)) (inl e) = absurd cc
behind_first-joined x xs (some (l, y, r)) (inr e) = inr (ap (◌∷◌ x) e)

locate-joined {ℓ} :
    {A : Type ℓ} (p : A → Bool) (xs : List A) → (locate p xs ≡ none) ⊎ (joined (locate p xs) ≡ xs)
locate-joined p [] = inl refl
locate-joined p (x ∷ xs) =
    if-holds (λ o. (o ≡ none) ⊎ (joined o ≡ x ∷ xs)) (p x) {x = some ([], x, xs)}
      {y = behind_first x (locate p xs)} (λ e. inr refl)
      (λ e. behind_first-joined x xs (locate p xs) (locate-joined p xs))

pub locate-split {ℓ} :
    {A : Type ℓ} (p : A → Bool) (xs l : List A) (x : A) (r : List A)
    → locate p xs ≡ some (l, x, r)
    → xs ≡ l ++ (x ∷ r)
locate-split p xs l x r e = split (locate-joined p xs)
  where
    split : (locate p xs ≡ none) ⊎ (joined (locate p xs) ≡ xs) → xs ≡ l ++ (x ∷ r)
    split (inl n) = absurd cc
    split (inr q) = sym q ∙ ap joined e

module _ {F : Floating} where
  abbrev pub AllSound : List (CameraTracker F) → Type 0
  AllSound [] = Unit {0}
  AllSound (c ∷ cs) = IsSound c × AllSound cs

  abbrev pub open_total : List (CameraTracker F) → ℕ
  open_total [] = 0
  open_total (c ∷ cs) = open_count c.state + open_total cs

  pub record IsConsistent (m : Manager F) : Type 0 where
    pub sound : AllSound m.cameras
    pub accounted : IsAccounted m.tally (open_total m.cameras)

  pub AllSound-parts :
      (l : List (CameraTracker F)) (c : CameraTracker F) (r : List (CameraTracker F))
      → AllSound (l ++ (c ∷ r))
      → IsSound c × ((d : CameraTracker F) → IsSound d → AllSound (l ++ (d ∷ r)))
  AllSound-parts [] c r (s, a) = (s, λ d t. (t, a))
  AllSound-parts (x ∷ l) c r (s, a) = let (t, f) = AllSound-parts l c r a in (t, λ d u. (s, f d u))

  pub open_total-parts :
      (l : List (CameraTracker F)) (c : CameraTracker F) (r : List (CameraTracker F))
      → open_total (l ++ (c ∷ r)) ≡ open_count c.state + (open_total l + open_total r)
  open_total-parts [] c r = omega arith
  open_total-parts (x ∷ l) c r = omega (arith, open_total-parts l c r)

  pub deliver-IsAccounted :
      (g : ManagerConfig F) (ns : List (Notification F)) (t : Tally) (k : ℕ)
      → IsAccounted t k
      → IsAccounted (deliver g ns t) k
  unfolding deliver
  deliver-IsAccounted g [] t k h = h
  deliver-IsAccounted g (n ∷ ns) t k h = deliver-IsAccounted g ns _ k (
      if-holds (λ x. IsAccounted x k) (throws g.notification_callback n)
        {x = record t { callback_failures = inc_u64 t.callback_failures }} {y = t} (λ e. h)
        (λ e. h))

  -- The manager after work on one of its cameras.
  pub commit-IsConsistent :
      (m : Manager F) (l : List (CameraTracker F)) (c : CameraTracker F)
      (r : List (CameraTracker F)) (ids : UuidV7Generator) (w : Work F)
      → m.cameras ≡ l ++ (c ∷ r)
      → IsConsistent m
      → ((k : ℕ) → Keeps k (work_on m c) → Keeps k w)
      → IsConsistent (commit (record m { id_generator = ids }) l r w)
  commit-IsConsistent m l c r ids w e h f =
      let (s, put) = AllSound-parts l c r (subst AllSound e h.sound) in
      let k = open_total l + open_total r in
      let before : IsAccounted m.tally (open_count c.state + k) =
        subst (IsAccounted m.tally) (ap open_total e ∙ open_total-parts l c r) h.accounted in
      let after = f k (record { sound = s; accounted = before }) in
      record {
        sound = put w.camera after.sound;
        accounted =
            subst (IsAccounted (deliver m.config w.notices w.tally))
              (sym (open_total-parts l w.camera r))
              (deliver-IsAccounted m.config w.notices w.tally _ after.accounted);
      }

  -- Counts that the accounts do not read.
  count-IsConsistent :
      (m : Manager F) (t : Tally)
      → ((k : ℕ) → IsAccounted m.tally k → IsAccounted t k)
      → IsConsistent m
      → IsConsistent (record m { tally = t })
  count-IsConsistent m t f h = record { sound = h.sound; accounted = f _ h.accounted }

  process_camera-IsConsistent :
      (m : Manager F) (i : IdInput) (r : TriggerResult F) (x : Option Error)
      (l : List (CameraTracker F)) (c : CameraTracker F) (b : List (CameraTracker F))
      → m.cameras ≡ l ++ (c ∷ b)
      → IsConsistent m
      → IsConsistent (process_camera m i r x l c b).0
  unfolding process_camera
  process_camera-IsConsistent m i r (some x) l c b e h = count-IsConsistent m _ (λ k a. a) h
  process_camera-IsConsistent m i r none l c b e h =
      let w = accept m.config m.id_generator i r (count_accepted (work_on m c)) in
      if-holds (λ (y : Manager F × Result (CameraTracker F × Bool)). IsConsistent y.0)
        (is_repeat c.last_result r.sequence_number)
        {x = (record m { tally = count_duplicate m.tally }, success (c, true))}
        {y = conclude m l b w} (λ d. count-IsConsistent m _ (λ k a. a) h)
        (λ d. commit-IsConsistent m l c b w.0 w.1 e h (λ k a.
          accept-Keeps m.config m.id_generator i r k (count_accepted (work_on m c))
            (record { sound = a.sound; accounted = a.accounted })))

  process_found-IsConsistent :
      (m : Manager F) (i : IdInput) (r : TriggerResult F)
      (o : Option (List (CameraTracker F) × CameraTracker F × List (CameraTracker F)))
      → locate (has_camera_id r.camera_id) m.cameras ≡ o
      → IsConsistent m
      → IsConsistent (process_found m i r o).0
  unfolding process_found
  process_found-IsConsistent m i r none e h = count-IsConsistent m _ (λ k a. a) h
  process_found-IsConsistent m i r (some (l, c, b)) e h =
      process_camera-IsConsistent m i r (validate_result c r) l c b
        (locate-split _ m.cameras l c b e) h

  pub process-IsConsistent :
      (m : Manager F) (i : IdInput) (r : TriggerResult F)
      → IsConsistent m
      → IsConsistent (process m i r).0
  unfolding process
  process-IsConsistent m i r h =
      if-holds (λ (y : Manager F × Result (CameraTracker F × Bool)). IsConsistent y.0) m.stopped
        {y = process_found m i r (locate (has_camera_id r.camera_id) m.cameras)}
        (λ d. count-IsConsistent m _ (λ k a. a) h) (λ d. process_found-IsConsistent m i r _ refl h)
