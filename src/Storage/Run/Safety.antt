-- ===== src/Storage/Run/Safety.antt =====
-- What a run of maintenance of src/storage/src/storage_policy.cpp does to the world.
use paper_breakage_analysis.Base.{
  ℕ, ◌≡◌, refl, Bool, true, false, not, List, [], ◌∷◌, String, Result, Error, success, failure,
  if-holds,
}
use paper_breakage_analysis.Base.Integers.{ℤ}
use paper_breakage_analysis.Storage.Paths.{
  FilePath, EventRetentionRecord, join_path, valid_deletion_paths,
}
use paper_breakage_analysis.Storage.Policy.{StorageSystem, Manager}
use paper_breakage_analysis.Storage.Maintenance.{
  Run, then_do, parent_path, remove_staged, delete_standing, delete_looked, delete_event,
}
use paper_breakage_analysis.Storage.Run.{refresh, run_maintenance}
use paper_breakage_analysis.Storage.Run.Walk.{Each, Kept, run_maintenance_keeps}

module _ (S : StorageSystem) where
  -- What may happen to a world: its database changes, the directory of an event with valid paths is
  -- staged and removed there, and an entry that is listed as temporary is removed.
  pub record Allowed {ℓ} (P : S.World → Type ℓ) : Type ℓ where
    pub begins :
        (id : String) (p : FilePath) (now : ℤ) (w : S.World)
        → P w
        → P (S.begin_deletion id p now w).0
    pub completes : (id : String) (now : ℤ) (w : S.World) → P w → P (S.complete_deletion id now w).0
    pub fails :
        (id : String) (e : Error) (now : ℤ) (w : S.World) → P w → P (S.fail_deletion id e now w).0
    pub makes_staging :
        (root : FilePath) (e : EventRetentionRecord) (w : S.World)
        → valid_deletion_paths e ≡ true
        → P w
        → P (S.create_directories (parent_path S (join_path root e.deletion_relative_path)) w).0
    pub stages :
        (root : FilePath) (e : EventRetentionRecord) (w : S.World)
        → valid_deletion_paths e ≡ true
        → P w
        → P
            (S.move_directory_atomically
              (join_path root e.relative_directory)
              (join_path root e.deletion_relative_path)
              w).0
    pub removes :
        (root : FilePath) (e : EventRetentionRecord) (w : S.World)
        → valid_deletion_paths e ≡ true
        → P w
        → P (S.remove_tree (join_path root e.deletion_relative_path) w).0
    pub cleans :
        (root : FilePath) (cutoff : ℤ) (n : ℕ) (w : S.World) (entries : List FilePath)
        → S.expired_temporary_entries root cutoff n w ≡ success entries
        → Each (λ p. (v : S.World) → P v → P (S.remove_tree p v).0) entries

  module _ {ℓ} {P : S.World → Type ℓ} (a : Allowed P) where
    then_do_keeps :
        (x : S.World × Result (Unit {0})) (next : S.World → S.World × Result (Unit {0}))
        → P x.0
        → ((w : S.World) → P w → P (next w).0)
        → P (then_do S x next).0
    then_do_keeps (w, success u) next p h = h w p
    then_do_keeps (w, failure e) next p h = p

    remove_staged_keeps :
        (root : FilePath) (e : EventRetentionRecord) (now : ℤ) (w : S.World)
        → valid_deletion_paths e ≡ true
        → P w
        → P (remove_staged S (join_path root e.deletion_relative_path) e now w).0
    unfolding remove_staged
    remove_staged_keeps root e now w v p =
        then_do_keeps _ _ (a.removes root e w v p) (a.completes e.event_id now)

    delete_standing_keeps :
        (root : FilePath) (e : EventRetentionRecord) (now : ℤ) (w : S.World) (b c : Bool)
        → valid_deletion_paths e ≡ true
        → P w
        → P (delete_standing S root e now w b c).0
    unfolding delete_standing
    delete_standing_keeps root e now w true true v p = p
    delete_standing_keeps root e now w true false v p =
        let staging = join_path root e.deletion_relative_path in
        let move : S.World → S.World × Result (Unit {0}) =
          S.move_directory_atomically (join_path root e.relative_directory) staging in
        then_do_keeps (S.create_directories (parent_path S staging) w)
          (λ w1. then_do S (move w1) (remove_staged S staging e now)) (a.makes_staging root e w v p)
          (λ w1 p1.
            then_do_keeps (move w1) (remove_staged S staging e now) (a.stages root e w1 v p1)
              (λ w2. remove_staged_keeps root e now w2 v))
    delete_standing_keeps root e now w false true v p = remove_staged_keeps root e now w v p
    delete_standing_keeps root e now w false false v p = a.completes e.event_id now w p

    delete_looked_keeps :
        (root : FilePath) (e : EventRetentionRecord) (now : ℤ) (w : S.World) (b c : Result Bool)
        → valid_deletion_paths e ≡ true
        → P w
        → P (delete_looked S root e now w b c).0
    unfolding delete_looked
    delete_looked_keeps root e now w (failure x) c v p = p
    delete_looked_keeps root e now w (success b) (failure x) v p = p
    delete_looked_keeps root e now w (success b) (success c) v p =
        delete_standing_keeps root e now w b c v p

    delete_event_keeps :
        (root : FilePath) (e : EventRetentionRecord) (now : ℤ) (w : S.World)
        → P w
        → P (delete_event S root e now w).0
    unfolding delete_event
    delete_event_keeps root e now w p =
        if-holds Q (not (valid_deletion_paths e)) (λ h. p)
          (λ h. delete_looked_keeps root e now w _ _ (not_false (valid_deletion_paths e) h) p)
      where
        Q : S.World × Result (Unit {0}) → Type ℓ
        Q x = P x.0

        not_false : (b : Bool) → not b ≡ false → b ≡ true
        not_false true e = refl
        not_false false e = cc

    kept : Kept S (λ r. P r.world)
    unfolding refresh
    kept = record {
      keeps_deleted = λ b r p. p;
      keeps_failed = λ r p. p;
      keeps_failures = λ fs r p. p;
      keeps_temporary = λ r p. p;
      keeps_temporary_failure = λ id q e r p. p;
      keeps_refresh = λ r p. p;
      keeps_begin = λ id q now r p. a.begins id q now r.world p;
      keeps_fail = λ id e now r p. a.fails id e now r.world p;
      keeps_delete = λ root e now r p. delete_event_keeps root e now r.world p;
      keeps_removal = λ root cutoff n w es e. each es (a.cleans root cutoff n w es e);
    }
      where
        each :
            (es : List FilePath)
            → Each (λ p. (v : S.World) → P v → P (S.remove_tree p v).0) es
            → Each (λ p. (r : Run S) → P r.world → P (S.remove_tree p r.world).0) es
        each [] h = h
        each (q ∷ es) h = (λ r. h.0 r.world, each es h.1)

    -- A run of maintenance, whether it succeeds or fails at any point, keeps every property of the world
    -- that survives changes of the database, the staging and removal of an event directory whose paths
    -- pass `valid_deletion_paths`, and the removal of entries that the file system lists as expired
    -- temporary files: it performs no other change, and none on a path that fails that check.
    pub run_maintenance_safe :
        (m : Manager) (now : ℤ) (w : S.World) → P w → P (run_maintenance S m now w).0.world
    run_maintenance_safe m now w p = run_maintenance_keeps S kept m now w p p
