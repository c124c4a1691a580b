-- ===== src/Storage/Watermark.antt =====
-- The watermark of a manager of src/storage/src/storage_policy.cpp, its figures and its limits.
use paper_breakage_analysis.Base.{ℕ, ◌≡◌, refl, Option, Result, Error, success, failure}
use paper_breakage_analysis.Base.Integers.{ℤ}
use paper_breakage_analysis.Storage.Policy.{
  StorageSystem, StorageSpace, StorageWatermarkThresholds, StoragePolicyOptions, Manager, classify,
  allows_rolling, allows_large, measured, refreshed_with,
}
use paper_breakage_analysis.Storage.Admission.{set_retention_age, reconfigure_limits}
use paper_breakage_analysis.Storage.Maintenance.{Run, create}
use paper_breakage_analysis.Storage.Run.{run_maintenance}

-- The level and what it allows are those of the figures under the limits.
pub record IsCurrent (m : Manager) : Type 0 where
  pub level : m.snapshot.watermark ≡ classify m.snapshot.available_bytes m.options.watermarks
  pub rolling : m.snapshot.ordinary_rolling_writes_allowed ≡ allows_rolling m.snapshot.watermark
  pub large : m.snapshot.large_writes_allowed ≡ allows_large m.snapshot.watermark

refreshed-IsCurrent :
    (m : Manager) (s : Result StorageSpace) (b : Result ℕ)
    → (refreshed_with m s b).1 ≡ success tt
    → IsCurrent (refreshed_with m s b).0
unfolding refreshed_with measured
refreshed-IsCurrent m (failure e) b h = cc
refreshed-IsCurrent m (success s) (failure e) h = cc
refreshed-IsCurrent m (success s) (success b) h = record {
  level = refl;
  rolling = refl;
  large = refl;
}

-- A refresh that fails changes nothing.
refreshed_failure :
    (m : Manager) (s : Result StorageSpace) (b : Result ℕ) (e : Error)
    → (refreshed_with m s b).1 ≡ failure e
    → (refreshed_with m s b).0 ≡ m
unfolding refreshed_with
refreshed_failure m (failure x) b e h = refl
refreshed_failure m (success s) (failure x) e h = refl
refreshed_failure m (success s) (success b) e h = cc

module _ (S : StorageSystem) where
  -- The managers that come of calls on a manager that was created, in any world at each call.
  pub data Reachable : Manager → Type 0 where
    is_created :
        (o : StoragePolicyOptions) (w : S.World) (m : Manager)
        → create S o w ≡ success m
        → Reachable m
    is_maintained :
        (m : Manager) (now : ℤ) (w : S.World)
        → Reachable m
        → Reachable (run_maintenance S m now w).0.manager
    is_reconfigured :
        (m : Manager) (limits : StorageWatermarkThresholds) (n : Option ℕ) (w : S.World)
        → Reachable m
        → Reachable (reconfigure_limits S m limits n w).0
    is_aged : (m : Manager) (age : ℤ) → Reachable m → Reachable (set_retention_age m age).0
