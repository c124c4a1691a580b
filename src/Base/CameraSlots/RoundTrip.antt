-- ===== src/Base/CameraSlots/RoundTrip.antt =====
-- The two directions of src/common/include/paperbreak/common/camera_slots.hpp.
use text.Mathlib.TextEquality.{eq_iff}
use Prim.Native.Nat.{ℕ, zero, suc, ◌+◌}
use Prim.Native.String.{String}
use mathlib.Core.Path.{◌≡◌, refl, ap, subst}
use mathlib.Core.Logic.{◌↔◌}
use mathlib.Core.Option.{Option, some}
use mathlib.Core.List.{List, [], ◌∷◌}
use native.Mathlib.Omega.{arith}
use paper_breakage_analysis.Base.Tests.{str_eq, if-holds}
use paper_breakage_analysis.Base.Lists.{get_elem?}
use paper_breakage_analysis.Base.CameraSlots.{
  canonical_camera_ids, slot_index_from, camera_slot_index, camera_id_from_slot,
}

-- What the search finds stands where it says.
found :
    (l : List String) (k i : ℕ) (id : String)
    → slot_index_from l k id ≡ some i
    → (j : ℕ) × (i ≡ k + j) × (get_elem? l j ≡ some id)
unfolding slot_index_from
found [] k i id = λ e. cc
found (c ∷ cs) k i id =
    if-holds
      (λ (o : Option ℕ). o ≡ some i → (j : ℕ) × (i ≡ k + j) × (get_elem? (c ∷ cs) j ≡ some id))
      (str_eq c id) (λ h e. (0, ground arith, ap some ((eq_iff c id).0 h)))
      (λ h e. let (j, a, b) = found cs (suc k) i id e in (suc j, omega (arith, a), b))

there : (i : ℕ) (id : String) → camera_id_from_slot i ≡ some id → camera_slot_index id ≡ some i
unfolding camera_id_from_slot camera_slot_index slot_index_from
there zero id e =
    let same : "CAM01" ≡ id = cc in subst (λ x. camera_slot_index x ≡ some 0) same refl
there (suc zero) id e =
    let same : "CAM02" ≡ id = cc in subst (λ x. camera_slot_index x ≡ some 1) same refl
there (suc (suc zero)) id e =
    let same : "CAM03" ≡ id = cc in subst (λ x. camera_slot_index x ≡ some 2) same refl
there (suc (suc (suc zero))) id e =
    let same : "CAM04" ≡ id = cc in subst (λ x. camera_slot_index x ≡ some 3) same refl
there (suc (suc (suc (suc zero)))) id e =
    let same : "CAM05" ≡ id = cc in subst (λ x. camera_slot_index x ≡ some 4) same refl
there (suc (suc (suc (suc (suc zero))))) id e =
    let same : "CAM06" ≡ id = cc in subst (λ x. camera_slot_index x ≡ some 5) same refl
there (suc (suc (suc (suc (suc (suc i)))))) id e = cc

-- `camera_slot_index` finds a slot for a text exactly where `camera_id_from_slot` gives the text back for
-- that slot: the two functions are inverse to each other on the six cameras, and on nothing else.
pub camera_slot_index-camera_id_from_slot :
    (index : ℕ) (id : String)
    → (camera_slot_index id ≡ some index) ↔ (camera_id_from_slot index ≡ some id)
unfolding camera_slot_index camera_id_from_slot
camera_slot_index-camera_id_from_slot i id = (
  λ e.
      let (j, a, b) = found canonical_camera_ids 0 i id e in
      subst (λ x. get_elem? canonical_camera_ids x ≡ some id) (omega (arith, a)) b,
  there i id,
)
