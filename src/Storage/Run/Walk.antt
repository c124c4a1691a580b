-- ===== src/Storage/Run/Walk.antt =====
-- The steps of a run of maintenance of src/storage/src/storage_policy.cpp, and a property of the world.
use paper_breakage_analysis.Base.{
  ℕ, ◌-◌, ◌≡◌, refl, Bool, true, false, not, ◌&&◌, ◌||◌, Option, none, List, [], ◌∷◌, String,
  Result, Error, success, failure, ltb, ◌==◌, if◌then◌else◌, if-holds, str_eq, sub_u64,
}
use paper_breakage_analysis.Base.Integers.{ℤ, pos, ltb_ℤ, ◌-ℤ◌}
use paper_breakage_analysis.Time.Points.{scale}
use paper_breakage_analysis.Storage.Paths.{FilePath, EventRetentionRecord}
use paper_breakage_analysis.Storage.Policy.{StorageSystem, StoragePolicySnapshot, Manager}
use paper_breakage_analysis.Storage.Maintenance.{
  Run, MaintenanceReport, MaintenanceFailure, add_failures, count_failed, count_deleted,
  delete_event, settle_deletion, try_deletion, delete_claimed,
}
use paper_breakage_analysis.Storage.Run.{
  recover_one, recover_all, go_on, counted, refresh, staged, refresh_if, delete_candidates,
  delete_by_pressure, count_temporary, count_temporary_failure, after_removal, remove_entries,
  listed_entries, clean_roots, clean_up, after_recovery, run_maintenance, begun, retention_cutoff,
  watermark_pressure, capacity_pressure, is_expired, is_there, empty_report,
}

abbrev pub Each {ℓ κ} : {A : Type ℓ} → (A → Type κ) → List A → Type κ
Each P [] = Unit
Each P (a ∷ as') = P a × Each P as'

module _ (S : StorageSystem) where
  -- The steps that keep a property of a run: the counters, the figures, the database, the deletion of an
  -- event, and the removal of an entry that the file system lists as temporary.
  pub record Kept {ℓ} (I : Run S → Type ℓ) : Type ℓ where
    pub keeps_deleted : (b : Bool) (r : Run S) → I r → I (count_deleted S b r)
    pub keeps_failed : (r : Run S) → I r → I (count_failed S r)
    pub keeps_failures : (fs : List MaintenanceFailure) (r : Run S) → I r → I (add_failures S r fs)
    pub keeps_temporary : (r : Run S) → I r → I (count_temporary S r)
    pub keeps_temporary_failure :
        (id : String) (p : FilePath) (e : Error) (r : Run S)
        → I r
        → I (count_temporary_failure S r id p e)
    pub keeps_refresh : (r : Run S) → I r → I (refresh S r).0
    pub keeps_begin :
        (id : String) (p : FilePath) (now : ℤ) (r : Run S)
        → I r
        → I (record r { world = (S.begin_deletion id p now r.world).0 })
    pub keeps_fail :
        (id : String) (e : Error) (now : ℤ) (r : Run S)
        → I r
        → I (record r { world = (S.fail_deletion id e now r.world).0 })
    pub keeps_delete :
        (root : FilePath) (e : EventRetentionRecord) (now : ℤ) (r : Run S)
        → I r
        → I (record r { world = (delete_event S root e now r.world).0 })
    pub keeps_removal :
        (root : FilePath) (cutoff : ℤ) (n : ℕ) (w : S.World) (entries : List FilePath)
        → S.expired_temporary_entries root cutoff n w ≡ success entries
        → Each
            (λ p. (r : Run S) → I r → I (record r { world = (S.remove_tree p r.world).0 }))
            entries

  module _ {ℓ} {I : Run S → Type ℓ} (k : Kept I) where
    settle_deletion_keeps :
        (b : Bool) (e : EventRetentionRecord) (now : ℤ) (r : Run S)
        (d : S.World × Result (Unit {0}))
        → I (record r { world = d.0 })
        → I (settle_deletion S b e now r d)
    unfolding settle_deletion
    settle_deletion_keeps b e now r (w, success u) i = k.keeps_deleted b (record r { world = w }) i
    settle_deletion_keeps b e now r (w, failure x) i =
        k.keeps_failed _
          (k.keeps_failures _ _ (k.keeps_fail e.event_id x now (record r { world = w }) i))

    try_deletion_keeps :
        (b : Bool) (e : EventRetentionRecord) (now : ℤ) (r : Run S)
        → I r
        → I (try_deletion S b e now r)
    unfolding try_deletion
    try_deletion_keeps b e now r i =
        settle_deletion_keeps b e now r (delete_event S r.manager.options.event_root e now r.world)
          (k.keeps_delete r.manager.options.event_root e now r i)

    delete_claimed_keeps :
        (b : Bool) (e : EventRetentionRecord) (now : ℤ) (r : Run S) (c : S.World × Result Bool)
        → I (record r { world = c.0 })
        → I (delete_claimed S b e now r c).0
    unfolding delete_claimed
    delete_claimed_keeps b e now r (w, failure x) i = i
    delete_claimed_keeps b e now r (w, success false) i = i
    delete_claimed_keeps b e now r (w, success true) i =
        try_deletion_keeps b e now (record r { world = w }) i

    recover_one_keeps :
        (e : EventRetentionRecord) (now : ℤ) (r : Run S) → I r → I (recover_one S e now r).0
    unfolding recover_one
    recover_one_keeps e now r i =
        if-holds P (str_eq e.deletion_state "DeleteFailed")
          (λ h.
            delete_claimed_keeps true e now r _
              (k.keeps_begin e.event_id e.deletion_relative_path now r i))
          (λ h. try_deletion_keeps true e now r i)
      where
        P : Run S × Result Bool → Type ℓ
        P x = I x.0

    go_on_keeps {κ ι} :
        {A : Type κ} {B : Type ι} (x : Run S × Result A) (next : A → Run S → Run S × Result B)
        → I x.0
        → ((a : A) (r : Run S) → I r → I (next a r).0)
        → I (go_on S x next).0
    go_on_keeps (r, success a) next i h = h a r i
    go_on_keeps (r, failure e) next i h = i

    recover_all_keeps :
        (es : List EventRetentionRecord) (now : ℤ) (n : ℕ) (r : Run S)
        → I r
        → I (recover_all S es now n r).0
    unfolding recover_all
    recover_all_keeps [] now n r i = i
    recover_all_keeps (e ∷ es) now n r i =
        go_on_keeps (recover_one S e now r) _ (recover_one_keeps e now r i)
          (λ tried. recover_all_keeps es now (counted S tried n))

    refresh_if_keeps : (b : Bool) (r : Run S) → I r → I (refresh_if S b r).0
    refresh_if_keeps true r i = k.keeps_refresh r i
    refresh_if_keeps false r i = i

    delete_candidates_keeps :
        (cutoff : Option ℤ) (now : ℤ) (es : List EventRetentionRecord) (r : Run S)
        → I r
        → I (delete_candidates S cutoff now es r).0
    unfolding delete_candidates
    delete_candidates_keeps cutoff now [] r i = i
    delete_candidates_keeps cutoff now (e ∷ es) r i =
        if-holds P
          (not (watermark_pressure S r.manager)
            && not (capacity_pressure S r.manager)
            && not (is_expired S cutoff e.candidate_time_utc_ms))
          (λ h. i)
          (λ h.
            go_on_keeps (go_on S (delete_claimed S false event now r claimed) (refresh_if S)) _
              (go_on_keeps (delete_claimed S false event now r claimed) (refresh_if S)
                (delete_claimed_keeps false event now r claimed
                  (k.keeps_begin event.event_id event.deletion_relative_path now r i))
                refresh_if_keeps)
              (λ u. delete_candidates_keeps cutoff now es))
      where
        P : Run S × Result (Unit {0}) → Type ℓ
        P x = I x.0

        event : EventRetentionRecord
        event = staged S e

        claimed : S.World × Result Bool
        claimed = S.begin_deletion event.event_id event.deletion_relative_path now r.world

    delete_by_pressure_keeps :
        (cutoff : Option ℤ) (now : ℤ) (tried : ℕ) (r : Run S)
        → I r
        → I (delete_by_pressure S cutoff now tried r).0
    unfolding delete_by_pressure
    delete_by_pressure_keeps cutoff now tried r i =
        if-holds P (ltb 0 slots && (pressed || is_there S cutoff))
          (λ h.
            go_on_keeps (r, S.retention_candidates query slots r.world) _ i
              (λ es. delete_candidates_keeps cutoff now es))
          (λ h. i)
      where
        P : Run S × Result (Unit {0}) → Type ℓ
        P x = I x.0

        slots : ℕ
        slots = sub_u64 r.manager.options.maximum_deletions_per_run tried

        pressed : Bool
        pressed = watermark_pressure S r.manager || capacity_pressure S r.manager

        query : Option ℤ
        query = if pressed then none else cutoff

    after_removal_keeps :
        (p : FilePath) (r : Run S) (x : S.World × Result (Unit {0}))
        → I (record r { world = x.0 })
        → I (after_removal S p r x)
    unfolding after_removal
    after_removal_keeps p r (w, success u) i = k.keeps_temporary (record r { world = w }) i
    after_removal_keeps p r (w, failure e) i =
        k.keeps_temporary_failure "" p e (record r { world = w }) i

    remove_entries_keeps :
        (ps : List FilePath) (budget : ℕ) (r : Run S)
        → Each (λ p. (r : Run S) → I r → I (record r { world = (S.remove_tree p r.world).0 })) ps
        → I r
        → I (remove_entries S ps budget r).0
    unfolding remove_entries
    remove_entries_keeps [] budget r h i = i
    remove_entries_keeps (p ∷ ps) budget r h i =
        let first = after_removal_keeps p r (S.remove_tree p r.world) (h.0 r i) in
        if-holds P (budget - 1 == 0) (λ e. first)
          (λ e.
            remove_entries_keeps ps (budget - 1) (after_removal S p r (S.remove_tree p r.world)) h.1
              first)
      where
        P : Run S × ℕ → Type ℓ
        P x = I x.0

    listed_entries_keeps :
        (root : FilePath) (budget : ℕ) (r : Run S) (listed : Result (List FilePath))
        → ((es : List FilePath)
            → listed ≡ success es
            → Each
                (λ p. (r : Run S) → I r → I (record r { world = (S.remove_tree p r.world).0 }))
                es)
        → I r
        → I (listed_entries S root budget r listed).0
    unfolding listed_entries
    listed_entries_keeps root budget r (failure e) h i = k.keeps_temporary_failure "" root e r i
    listed_entries_keeps root budget r (success es) h i =
        remove_entries_keeps es budget r (h es refl) i

    clean_roots_keeps :
        (cutoff : ℤ) (roots : List FilePath) (budget : ℕ) (r : Run S)
        → I r
        → I (clean_roots S cutoff roots budget r)
    unfolding clean_roots
    clean_roots_keeps cutoff [] budget r i = i
    clean_roots_keeps cutoff (root ∷ roots) budget r i =
        let cleaned =
          listed_entries S root budget r (S.expired_temporary_entries root cutoff budget r.world) in
        if-holds I (budget == 0) (λ e. i)
          (λ e. clean_roots_keeps cutoff roots cleaned.1 cleaned.0 (
            listed_entries_keeps root budget r _
              (λ es. k.keeps_removal root cutoff budget r.world es) i))

    clean_up_keeps : (now : ℤ) (r : Run S) → I r → I (clean_up S now r).0
    unfolding clean_up
    clean_up_keeps now r i = k.keeps_refresh _ (
        clean_roots_keeps (now -ℤ scale r.manager.options.temporary_maximum_age 3600000)
          r.manager.options.temporary_roots r.manager.options.maximum_temporary_entries_per_run r i)

    after_recovery_keeps :
        (now : ℤ) (tried : ℕ) (r : Run S) → I r → I (after_recovery S now tried r).0
    unfolding after_recovery
    after_recovery_keeps now tried r i =
        go_on_keeps (refresh S r) _ (k.keeps_refresh r i) (λ u r' j.
          go_on_keeps
            (delete_by_pressure S (retention_cutoff S r'.manager.options.retention_age now) now
              tried r')
            _
            (delete_by_pressure_keeps (retention_cutoff S r'.manager.options.retention_age now) now
              tried r' j)
            (λ v. clean_up_keeps now))

    pub run_maintenance_keeps :
        (m : Manager) (now : ℤ) (w : S.World)
        → I (begun S m w)
        → I (record { manager = m; world = w; report = empty_report S })
        → I (run_maintenance S m now w).0
    unfolding run_maintenance
    run_maintenance_keeps m now w i j =
        if-holds P (ltb_ℤ now (pos 0)) (λ e. j)
          (λ e.
            go_on_keeps (begun S m w, S.deletion_work m.options.maximum_deletions_per_run w) _ i
              (λ work r0 i0.
                go_on_keeps (recover_all S work now 0 r0) _ (recover_all_keeps work now 0 r0 i0)
                  (λ tried r1 i1.
                    go_on_keeps (after_recovery S now tried r1) _
                      (after_recovery_keeps now tried r1 i1) (λ u r2 i2. i2))))
      where
        P : Run S × Result (MaintenanceReport × StoragePolicySnapshot) → Type ℓ
        P x = I x.0
