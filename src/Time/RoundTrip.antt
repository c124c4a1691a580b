-- ===== src/Time/RoundTrip.antt =====
-- The two mappings of src/time/src/time_model.cpp, one after the other.
use paper_breakage_analysis.Base.{
  ◌≡◌, refl, sym, true, false, Option, none, some, success, arith, ◌∙◌, ap,
}
use paper_breakage_analysis.Base.Integers.{
  ℤ, pos_part, neg_part, ◌+ℤ◌, ◌-ℤ◌, ltb_ℤ, +ℤ_parts, -ℤ_parts, IsInt64, eq_of_parts,
}
use paper_breakage_analysis.Time.Arithmetic.{checked_add, checked_subtract}
use paper_breakage_analysis.Time.Overflow.{
  fitting, checked_add-fitting, checked_subtract-fitting, fitting-IsInt64, fitting_of_IsInt64,
}
use paper_breakage_analysis.Time.Model.{ClockModelSnapshot}
use paper_breakage_analysis.Time.Mapping.{
  ClockTimeMapping, is_valid_model, add_delta, mapped, refuse_early, map_monotonic_to_utc,
  map_utc_to_monotonic,
}

add_delta-some :
    (b : ℤ) (o : Option ℤ) {y : ℤ}
    → add_delta b o ≡ some y
    → (d : ℤ) × (o ≡ some d) × (checked_add b d ≡ some y)
unfolding add_delta
add_delta-some b none e = cc
add_delta-some b (some d) e = (d, refl, e)

-- From one anchor to the other.
add_delta_there :
    (x a b : ℤ) {y : ℤ}
    → IsInt64 x
    → IsInt64 a
    → IsInt64 b
    → add_delta b (checked_subtract x a) ≡ some y
    → (d : ℤ) × ((d ≡ x -ℤ a) × IsInt64 d) × ((y ≡ b +ℤ d) × IsInt64 y)
add_delta_there x a b {y} p q r e =
    let step = add_delta-some b (checked_subtract x a) e in
    let exact = fitting-IsInt64 (x -ℤ a) step.0 (sym (checked_subtract-fitting x a p q) ∙ step.1) in
    (
      step.0,
      exact,
      fitting-IsInt64 (b +ℤ step.0) y (sym (checked_add-fitting b step.0 r exact.1) ∙ step.2),
    )

-- And back.
add_delta_back :
    (x a b : ℤ) {y : ℤ}
    → IsInt64 x
    → IsInt64 a
    → IsInt64 b
    → add_delta b (checked_subtract x a) ≡ some y
    → add_delta a (checked_subtract y b) ≡ some x
unfolding add_delta
add_delta_back x a b {y} p q r e =
    let there = add_delta_there x a b p q r e in
    let d = there.0 in
    let up : y -ℤ b ≡ d =
      eq_of_parts _ _
        (omega (arith, -ℤ_parts y b, +ℤ_parts b d, ap pos_part there.2.0, ap neg_part there.2.0)) in
    let home : a +ℤ d ≡ x =
      eq_of_parts _ _
        (omega (arith, +ℤ_parts a d, -ℤ_parts x a, ap pos_part there.1.0, ap neg_part there.1.0)) in
    let subtracted : checked_subtract y b ≡ some d =
      checked_subtract-fitting y b there.2.1 r ∙ ap fitting up ∙ fitting_of_IsInt64 d there.1.1 in
    rw subtracted (checked_add-fitting a d q there.1.1 ∙ ap fitting home ∙ fitting_of_IsInt64 x p)

-- What a mapping that succeeds went through.
to_utc_lem :
    (t : ℤ) (s : ClockModelSnapshot) {m : ClockTimeMapping}
    → map_monotonic_to_utc t (some s) ≡ success m
    → (is_valid_model s ≡ true)
      × (ltb_ℤ t s.valid_from_monotonic_ns ≡ false)
      × (add_delta s.anchor_utc_ns (checked_subtract t s.anchor_monotonic_ns)
          ≡ some m.mapped_time_ns)
      × (m.model ≡ s)
unfolding map_monotonic_to_utc mapped
to_utc_lem t s e = ground arith

-- A model whose anchors are values of the type.
abbrev pub HasAnchors : ClockModelSnapshot → Type 0
HasAnchors s = IsInt64 s.anchor_monotonic_ns × IsInt64 s.anchor_utc_ns

-- Where `map_monotonic_to_utc` maps a monotonic time by a model, `map_utc_to_monotonic` maps the
-- result back to that time by the same model: no check on the way back fails.
pub map_utc_to_monotonic-map_monotonic_to_utc :
    (t : ℤ) (s : ClockModelSnapshot) (m : ClockTimeMapping)
    → IsInt64 t
    → HasAnchors s
    → map_monotonic_to_utc t (some s) ≡ success m
    → map_utc_to_monotonic m.mapped_time_ns (some m.model)
      ≡ success (record { mapped_time_ns = t; model = s })
unfolding map_utc_to_monotonic refuse_early mapped
map_utc_to_monotonic-map_monotonic_to_utc t s m p q e =
    let went = to_utc_lem t s e in
    let back = add_delta_back t s.anchor_monotonic_ns s.anchor_utc_ns p q.0 q.1 went.2 in
    rw (went.3, went.0, back, went.1) refl
