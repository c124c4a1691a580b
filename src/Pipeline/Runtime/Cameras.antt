-- ===== src/Pipeline/Runtime/Cameras.antt =====
-- The cameras of the processors of a runtime of src/pipeline/src/pipeline.cpp, over all calls.
use mathlib.Core.List.{append-nil, append_assoc, map-append}
use text.Mathlib.TextEquality.{eq_iff}
use paper_breakage_analysis.Base.{
  ◌≤◌, ◌<◌, ◌≡◌, refl, sym, ap, ap₂, ◌∙◌, ℕ, map, length-map, true, false, not, ◌||◌, Option, none,
  some, List, [], ◌∷◌, ◌++◌, String, Result, leb, if-holds, str_eq, length, length-append,
  has_value, arith, Bool-cases, inl, inr,
}
use paper_breakage_analysis.Base.CameraSlots.{camera_slot_count}
use paper_breakage_analysis.Pipeline.Processor.{Processor, start, launch, request_stop, join}
use paper_breakage_analysis.Pipeline.Runtime.{
  ProcessingRuntime, Threads, has_camera, add, stop_and_join, join_all, start_all, first_thread,
  other_threads,
}

abbrev Distinct : List Processor → Type 0
Distinct [] = Unit {0}
Distinct (p ∷ ps) = (has_camera p.camera_id ps ≡ false) × Distinct ps

-- No two processors of one camera, and no more than there are cameras.
abbrev pub IsValid : ProcessingRuntime → Type 0
IsValid r = (length r.processors ≤ camera_slot_count) × Distinct r.processors

str_eq_comm : (a b : String) → str_eq a b ≡ false → str_eq b a ≡ false
str_eq_comm a b e = elim (Bool-cases (str_eq b a)) [
  | inl h ↦ let same : str_eq a b ≡ true = (eq_iff a b).1 (sym ((eq_iff b a).0 h)) in cc
  | inr h ↦ h
]

has_camera-append :
    (id : String) (ps : List Processor) (p : Processor)
    → has_camera id ps ≡ false
    → str_eq p.camera_id id ≡ false
    → has_camera id (ps ++ (p ∷ [])) ≡ false
unfolding has_camera
has_camera-append id [] p a b = rw b refl
has_camera-append id (q ∷ ps) p a b =
    let tail = has_camera-append id ps p (ground arith) b in ground (arith, tail)

Distinct-append :
    (ps : List Processor) (p : Processor)
    → Distinct ps
    → has_camera p.camera_id ps ≡ false
    → Distinct (ps ++ (p ∷ []))
unfolding has_camera
Distinct-append [] p d h = (refl, tt)
Distinct-append (q ∷ ps) p d h =
    let differs : str_eq q.camera_id p.camera_id ≡ false = ground arith in
    let others : has_camera p.camera_id ps ≡ false = ground arith in
    (
      has_camera-append q.camera_id ps p d.0 (str_eq_comm q.camera_id p.camera_id differs),
      Distinct-append ps p d.1 others,
    )

-- One call of `add`.
pub add-IsValid : (r : ProcessingRuntime) (o : Option Processor) → IsValid r → IsValid (add r o).0
unfolding add
add-IsValid r none v = v
add-IsValid r (some p) v =
    if-holds P (r.started || leb camera_slot_count (length r.processors)) (λ e. v)
      (λ e.
        if-holds P (has_camera p.camera_id r.processors) (λ f. v)
          (λ f.
            let room : length r.processors < 6 = ground arith in
            (
              omega (arith, length-append r.processors (p ∷ [])),
              Distinct-append r.processors p v.1 f,
            )))
  where
    P : ProcessingRuntime × Result (Unit {0}) → Type 0
    P x = IsValid x.0

abbrev cameras : List Processor → List String
cameras ps = map (λ p. p.camera_id) ps

has_camera-cameras :
    (id : String) (ps qs : List Processor)
    → cameras ps ≡ cameras qs
    → has_camera id ps ≡ has_camera id qs
unfolding has_camera
has_camera-cameras id [] [] e = refl
has_camera-cameras id [] (q ∷ qs) e = absurd cc
has_camera-cameras id (p ∷ ps) [] e = absurd cc
has_camera-cameras id (p ∷ ps) (q ∷ qs) e =
    let first : p.camera_id ≡ q.camera_id = cc in
    let rest : cameras ps ≡ cameras qs = cc in
    ap₂ (λ x b. str_eq x id || b) first (has_camera-cameras id ps qs rest)

Distinct-cameras : (ps qs : List Processor) → cameras ps ≡ cameras qs → Distinct ps → Distinct qs
Distinct-cameras [] [] e d = tt
Distinct-cameras [] (q ∷ qs) e d = absurd cc
Distinct-cameras (p ∷ ps) [] e d = absurd cc
Distinct-cameras (p ∷ ps) (q ∷ qs) e (a, b) =
    let rest : cameras ps ≡ cameras qs = cc in
    let same : p.camera_id ≡ q.camera_id = cc in
    (
      sym (has_camera-cameras q.camera_id ps qs rest) ∙ ap (λ x. has_camera x ps) (sym same) ∙ a,
      Distinct-cameras ps qs rest b,
    )

pub same_cameras-IsValid :
    (r r' : ProcessingRuntime)
    → cameras r.processors ≡ cameras r'.processors
    → IsValid r
    → IsValid r'
same_cameras-IsValid r r' e (n, d) = (
  omega (
    arith,
    n,
    ap length e,
    length-map r.processors (λ p. p.camera_id),
    length-map r'.processors (λ p. p.camera_id),
  ),
  Distinct-cameras r.processors r'.processors e d,
)

-- The processor stays that of its camera.
abbrev pub KeepsCamera : (Processor → Processor) → Type 0
KeepsCamera f = (p : Processor) → (f p).camera_id ≡ p.camera_id

pub cameras-map :
    (f : Processor → Processor) (ps : List Processor)
    → KeepsCamera f
    → cameras (map f ps) ≡ cameras ps
cameras-map f [] k = refl
cameras-map f (p ∷ ps) k = ap₂ ◌∷◌ (k p) (cameras-map f ps k)

start-KeepsCamera : (t : Option String) → KeepsCamera (λ p. (start p t).0)
unfolding start launch
start-KeepsCamera none p = ground arith
start-KeepsCamera (some x) p = ground arith

pub request_stop-KeepsCamera : KeepsCamera request_stop
unfolding request_stop
request_stop-KeepsCamera p = ground arith

join-KeepsCamera : KeepsCamera (λ p. (join p).0)
unfolding join
join-KeepsCamera p = ground arith

pub cameras-join_all : (ps : List Processor) → cameras (join_all ps).0 ≡ cameras ps
unfolding join_all
cameras-join_all [] = refl
cameras-join_all (p ∷ ps) = ap₂ ◌∷◌ (join-KeepsCamera p) (cameras-join_all ps)

pub cameras-start_all :
    (w : Threads) (ps before : List Processor) (ts : List (Option String))
    → ((n : ℕ) → KeepsCamera (w.goes_on n))
    → KeepsCamera w.settles
    → cameras (start_all w ts before ps).0 ≡ cameras before ++ cameras ps
unfolding start_all
cameras-start_all w [] before ts g s = sym (append-nil (cameras before))
cameras-start_all w (p ∷ ps) before ts g s =
    if-holds P (not (has_value launched.1))
      (λ e.
        map-append (λ q. q.camera_id) (map (stop_and_join w.settles) now) (launched.0 ∷ ps)
        ∙ ap₂ ◌++◌
            (cameras-map (stop_and_join w.settles) now (λ q.
                join-KeepsCamera (w.settles (request_stop q))
                ∙ s (request_stop q)
                ∙ request_stop-KeepsCamera q)
              ∙ now_same)
            (ap (λ x. x ∷ cameras ps) same))
      (λ e.
        cameras-start_all w ps (now ++ (launched.0 ∷ [])) (other_threads ts) g s
        ∙ ap (λ l. l ++ cameras ps)
            (map-append (λ q. q.camera_id) now (launched.0 ∷ [])
              ∙ ap₂ (λ l x. l ++ (x ∷ [])) now_same same)
        ∙ append_assoc (cameras before) (p.camera_id ∷ []) (cameras ps))
  where
    launched : Processor × Result (Unit {0})
    launched = start p (first_thread ts)

    now : List Processor
    now = map (w.goes_on (length ps)) before

    same : launched.0.camera_id ≡ p.camera_id
    same = start-KeepsCamera (first_thread ts) p

    now_same : cameras now ≡ cameras before
    now_same = cameras-map (w.goes_on (length ps)) before (g (length ps))

    P : List Processor × Result (Unit {0}) → Type 0
    P x = cameras x.0 ≡ cameras before ++ (p.camera_id ∷ cameras ps)
