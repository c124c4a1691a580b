-- ===== src/Event/Uuid/Distinct.antt =====
-- The ids that one generator of src/event/src/candidate_event.cpp draws.
use paper_breakage_analysis.Base.{
  ℕ, suc, ◌+◌, ◌*◌, ◌^◌, ◌<◌, ◌≤◌, ◌≡◌, ◌≢◌, refl, List, [], ◌∷◌, true, Option, none, some, Result,
  success, failure, arith, length, Error, ◌∙◌, sym, subst, ltb, ◌||◌, if-holds, not, if◌then◌else◌,
}
use paper_breakage_analysis.Event.Uuid.{
  UuidV7Generator, IdInput, id_text, uuid_timestamp_mask, increment_random, draw, next_at,
  next_when, next, new_generator,
}
use paper_breakage_analysis.Event.Uuid.Text.{IsValid, id_text-inj}

-- The timestamp and the random bits as one number.
abbrev pub rank : UuidV7Generator → ℕ
rank g = (g.last_timestamp_ms * 2 ^ 12 + g.random_high) * 2 ^ 62 + g.random_low

-- No id that is made later has a lower rank.
abbrev pub floor : UuidV7Generator → ℕ
floor g = if g.initialized then rank g + 1 else 0

-- The clock readings lie before the last timestamp.
abbrev pub IsEarly : IdInput → Type 0
IsEarly i = (now : ℕ) → i.wall_clock_ms ≡ some now → now < uuid_timestamp_mask

abbrev pub AllEarly : List IdInput → Type 0
AllEarly [] = Unit {0}
AllEarly (i ∷ is) = IsEarly i × AllEarly is

abbrev pub keep_id : Result (List ℕ) → List (List ℕ) → List (List ℕ)
keep_id (success id) ids = id ∷ ids
keep_id (failure e) ids = ids

-- The ids of the calls that succeed.
unfoldable pub event_ids : UuidV7Generator → List IdInput → List (List ℕ)
event_ids g [] = []
event_ids g (i ∷ is) = let (g', r) = next g i in keep_id r (event_ids g' is)

-- A generator with `n` calls left before its ranks can run out.
pub record IsFresh (g : UuidV7Generator) (n : ℕ) : Type 0 where
  pub valid : IsValid g
  pub room : rank g + n < uuid_timestamp_mask * 2 ^ 74 + 2 ^ 74

-- What a call does to the ranks.
pub record Rises (g : UuidV7Generator) (n : ℕ) (q : UuidV7Generator × Result (List ℕ))
    : Type 0 where
  pub fresh : IsFresh q.0 n
  pub no_lower : floor g ≤ floor q.0
  pub made :
      (id : List ℕ)
      → q.1 ≡ success id
      → (id ≡ id_text q.0) × (floor g ≤ rank q.0) × (rank q.0 < floor q.0)

increment-Rises :
    (g : UuidV7Generator) (n : ℕ)
    → IsFresh g (suc n)
    → (n < 2 ^ 74)
    → g.initialized ≡ true
    → Rises g n (increment_random g, success (id_text (increment_random g)))
unfolding increment_random
increment-Rises g n f hn e = ground arith

draw-Rises :
    (g : UuidV7Generator) (n now : ℕ) (a b : Option ℕ)
    → IsFresh g (suc n)
    → n < 2 ^ 74
    → now < uuid_timestamp_mask
    → (g.initialized ≡ true → g.last_timestamp_ms < now)
    → Rises g n (draw (record g { last_timestamp_ms = now }) a b)
unfolding draw
draw-Rises g n now none b f hn h k = ground arith
draw-Rises g n now (some a) none f hn h k = ground arith
draw-Rises g n now (some a) (some b) f hn h k = ground arith

same-Rises :
    (g : UuidV7Generator) (n : ℕ) (x : Error) → IsFresh g (suc n) → Rises g n (g, failure x)
same-Rises g n x f = ground arith

next_at-Rises :
    (g : UuidV7Generator) (n now : ℕ) (i : IdInput)
    → IsFresh g (suc n)
    → n < 2 ^ 74
    → now < uuid_timestamp_mask
    → Rises g n (next_at g now i)
unfolding next_at
next_at-Rises g n now i f hn h =
    if-holds (Rises g n) (ltb uuid_timestamp_mask now) (λ e. same-Rises g n _ f)
      (λ e.
        if-holds (Rises g n) (not g.initialized || ltb g.last_timestamp_ms now)
          (λ c. draw-Rises g n now i.first_draw i.second_draw f hn h (λ k. ground (arith, c, k)))
          (λ c. increment-Rises g n f hn (ground (arith, c))))

next-Rises :
    (g : UuidV7Generator) (n : ℕ) (i : IdInput) (clock : Option ℕ)
    → IsFresh g (suc n)
    → n < 2 ^ 74
    → ((now : ℕ) → clock ≡ some now → now < uuid_timestamp_mask)
    → Rises g n (next_when g clock i)
unfolding next_when
next-Rises g n i none f hn h = same-Rises g n _ f
next-Rises g n i (some now) f hn h = next_at-Rises g n now i f hn (h now refl)

-- The ids of the calls to come are texts of generators whose ranks are not below the floor.
abbrev pub Above : ℕ → List (List ℕ) → Type 0
Above m [] = Unit {0}
Above m (id ∷ ids) =
    ((k : UuidV7Generator) × IsValid k × (id ≡ id_text k) × (m ≤ rank k)) × Above m ids

abbrev pub AllDiffer : List ℕ → List (List ℕ) → Type 0
AllDiffer id [] = Unit {0}
AllDiffer id (other ∷ ids) = (id ≢ other) × AllDiffer id ids

abbrev pub AllDistinct : List (List ℕ) → Type 0
AllDistinct [] = Unit {0}
AllDistinct (id ∷ ids) = AllDiffer id ids × AllDistinct ids

Above-mono : (m n : ℕ) (ids : List (List ℕ)) → m ≤ n → Above n ids → Above m ids
Above-mono m n [] h a = tt
Above-mono m n (id ∷ ids) h ((k, v, e, r), a) = ((k, v, e, omega arith), Above-mono m n ids h a)

Above-AllDiffer :
    (g : UuidV7Generator) (ids : List (List ℕ))
    → IsValid g
    → Above (rank g + 1) ids
    → AllDiffer (id_text g) ids
Above-AllDiffer g [] v a = tt
Above-AllDiffer g (id ∷ ids) v ((k, vk, e, r), a) =
    (λ q. let (t, h, l) = id_text-inj g k v vk (q ∙ e) in omega arith, Above-AllDiffer g ids v a)

keep_id_lem :
    (g : UuidV7Generator) (n : ℕ) (q : UuidV7Generator × Result (List ℕ)) (ids : List (List ℕ))
    → Rises g n q
    → Above (floor q.0) ids
    → AllDistinct ids
    → Above (floor g) (keep_id q.1 ids) × AllDistinct (keep_id q.1 ids)
keep_id_lem g n (k, failure x) ids r a d = (Above-mono (floor g) (floor k) ids r.no_lower a, d)
keep_id_lem g n (k, success id) ids r a d =
    let (e, low, up) = r.made id refl in
    let v = r.fresh.valid in
    (
      ((k, v, e, low), Above-mono (floor g) (floor k) ids r.no_lower a),
      (
        subst (λ t. AllDiffer t ids) (sym e)
            (Above-AllDiffer k ids v (Above-mono (rank k + 1) (floor k) ids (omega arith) a)),
        d,
      ),
    )

event_ids_lem :
    (g : UuidV7Generator) (is : List IdInput)
    → IsFresh g (length is)
    → length is < 2 ^ 74
    → AllEarly is
    → Above (floor g) (event_ids g is) × AllDistinct (event_ids g is)
unfolding event_ids next
event_ids_lem g [] f h a = (tt, tt)
event_ids_lem g (i ∷ is) f h a =
    let r = next-Rises g (length is) i i.wall_clock_ms f (omega arith) a.0 in
    let (above, distinct) = event_ids_lem (next g i).0 is r.fresh (omega arith) a.1 in
    keep_id_lem g (length is) (next g i) _ r above distinct

-- From a new generator on, the ids of the calls that succeed are all different, for fewer than
-- 2^74 calls whose clock readings lie before the last timestamp that an id can hold.
pub event_ids-AllDistinct :
    (is : List IdInput)
    → length is < 2 ^ 74
    → AllEarly is
    → AllDistinct (event_ids new_generator is)
event_ids-AllDistinct is h a = (event_ids_lem new_generator is (ground arith) h a).1
