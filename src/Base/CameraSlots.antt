-- ===== src/Base/CameraSlots.antt =====
-- src/common/include/paperbreak/common/camera_slots.hpp: the six cameras and their slots.
use Prim.Native.Nat.{ℕ, zero, suc}
use Prim.Native.String.{String}
use mathlib.Core.Bool.{Bool, true, false}
use mathlib.Core.Option.{Option, none, some}
use mathlib.Core.List.{List, [], ◌∷◌}
use paper_breakage_analysis.Base.Tests.{str_eq, if◌then◌else◌}
use paper_breakage_analysis.Base.Lists.{get_elem?}
pub mod RoundTrip

abbrev pub camera_slot_count : ℕ
camera_slot_count = 6

abbrev pub canonical_camera_ids : List String
canonical_camera_ids = "CAM01" ∷ "CAM02" ∷ "CAM03" ∷ "CAM04" ∷ "CAM05" ∷ "CAM06" ∷ []

-- The loop, from an index on.
unfoldable pub slot_index_from : List String → ℕ → String → Option ℕ
slot_index_from [] index id = none
slot_index_from (c ∷ cs) index id =
    let rest = slot_index_from cs (suc index) id in if str_eq c id then some index else rest

unfoldable pub camera_slot_index : String → Option ℕ
camera_slot_index id = slot_index_from canonical_camera_ids 0 id

unfoldable pub is_canonical_camera_id : String → Bool
is_canonical_camera_id id = elim (camera_slot_index id) [ none ↦ false | some i ↦ true ]

-- Out of range there is no identifier.
unfoldable pub camera_id_from_slot : ℕ → Option String
camera_id_from_slot index = get_elem? canonical_camera_ids index
