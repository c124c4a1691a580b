-- ===== src/Storage/Examples.antt =====
-- A world that is only whether its root directory is there, and a manager on it.
use paper_breakage_analysis.Base.{
  ◌≡◌, refl, Bool, true, false, not, ◌&&◌, List, [], ◌∷◌, ◌++◌, some, none, success, String,
  if◌then◌else◌, arith, subst, success-inj,
}
use paper_breakage_analysis.Base.Integers.{pos}
use paper_breakage_analysis.Storage.Paths.{
  FilePath, EventRetentionRecord, join_path, valid_deletion_paths, is_staging_directory, all_safe,
  is_event_directory,
}
use paper_breakage_analysis.Storage.Policy.{
  StorageSystem, StoragePolicyOptions, Manager, refresh_snapshot, first_snapshot,
}
use paper_breakage_analysis.Storage.Run.{run_maintenance}
use paper_breakage_analysis.Storage.Run.Safety.{Allowed, run_maintenance_safe}
use paper_breakage_analysis.Storage.Run.Walk.{Each}

abbrev is_nil : List String → Bool
is_nil [] = true
is_nil (c ∷ cs) = false

abbrev relative_path : List String → FilePath
relative_path cs = record { is_absolute = false; components = cs }

abbrev data_root : FilePath
data_root = record { is_absolute = true; components = "data" ∷ [] }

abbrev old_event : EventRetentionRecord
old_event = record {
  event_id = "E1";
  candidate_time_utc_ms = pos 10;
  relative_directory = relative_path ("2024" ∷ "01" ∷ "02" ∷ "E1" ∷ []);
  deletion_state = "DeletePending";
  deletion_relative_path = relative_path (".deletions" ∷ "E1.deleting" ∷ []);
}

abbrev one_root : StorageSystem
one_root = record {
  World = Bool;
  absolute = λ p. some p;
  lexically_relative = λ p q. relative_path (".." ∷ []);
  space = λ p w. success (record { capacity_bytes = 1000; available_bytes = 150 });
  is_directory = λ p w. success true;
  create_directories = λ p w. (w, success tt);
  move_directory_atomically = λ p q w. (w, success tt);
  remove_tree = λ p w. (if is_nil p.components then false else w, success tt);
  expired_temporary_entries = λ p cutoff n w. success (relative_path ("tmp" ∷ []) ∷ []);
  retained_event_bytes = λ w. success 500;
  deletion_work = λ n w. success (old_event ∷ []);
  retention_candidates = λ cutoff n w. success (old_event ∷ []);
  begin_deletion = λ id p now w. (w, success true);
  complete_deletion = λ id now w. (w, success tt);
  fail_deletion = λ id e now w. (w, success tt);
}

abbrev HasRoot : Bool → Type 0
HasRoot w = w ≡ true

nonempty_staging :
    (e : EventRetentionRecord) (cs : List String)
    → is_staging_directory e.event_id e.deletion_relative_path.components ≡ true
    → is_nil (cs ++ e.deletion_relative_path.components) ≡ false
unfolding is_staging_directory
nonempty_staging e cs h = go e.deletion_relative_path.components cs h
  where
    go :
        (ds cs : List String)
        → is_staging_directory e.event_id ds ≡ true
        → is_nil (cs ++ ds) ≡ false
    go [] cs h = cc
    go (d ∷ ds) [] h = refl
    go (d ∷ ds) (c ∷ cs) h = refl

last_tests :
    (a b c d e f : Bool) → (not a && b && c && not d && e && f) ≡ true → (d ≡ false) × (f ≡ true)
last_tests a b c d e f h = ground arith

staging_of_valid :
    (root : FilePath) (e : EventRetentionRecord)
    → valid_deletion_paths e ≡ true
    → is_nil (join_path root e.deletion_relative_path).components ≡ false
unfolding valid_deletion_paths
staging_of_valid root e h =
    let (relative, staged) =
      last_tests e.relative_directory.is_absolute (all_safe e.relative_directory.components)
        (is_event_directory e.event_id e.relative_directory.components)
        e.deletion_relative_path.is_absolute (all_safe e.deletion_relative_path.components)
        (is_staging_directory e.event_id e.deletion_relative_path.components) h in
    rw relative (nonempty_staging e root.components staged)

root_stays : Allowed one_root HasRoot
root_stays = record {
  begins = λ id p now w h. h;
  completes = λ id now w h. h;
  fails = λ id e now w h. h;
  makes_staging = λ root e w v h. h;
  stages = λ root e w v h. h;
  removes = λ root e w v h. rw (staging_of_valid root e v) h;
  cleans = λ root cutoff n w entries e.
      subst (Each (λ p. (v : Bool) → HasRoot v → HasRoot (one_root.remove_tree p v).0))
        (success-inj e) (λ v h. h, tt);
}

abbrev policy_options : StoragePolicyOptions
policy_options = record {
  event_root = data_root;
  temporary_roots = relative_path ("tmp" ∷ []) ∷ [];
  watermarks = record {
    warning_available_bytes = 300;
    critical_available_bytes = 200;
    stop_save_available_bytes = 100;
  };
  retention_age = none;
  maximum_event_bytes = some 100;
  temporary_maximum_age = pos 24;
  maximum_deletions_per_run = 4;
  maximum_temporary_entries_per_run = 8;
}

abbrev manager : Manager
manager =
    (refresh_snapshot one_root (record { options = policy_options; snapshot = first_snapshot })
      true).0

-- The deletions that are left over and those by pressure, and the temporary files, leave the root.
run_maintenance_safe_example : HasRoot (run_maintenance one_root manager (pos 1000) true).0.world
run_maintenance_safe_example = run_maintenance_safe one_root root_stays manager (pos 1000) true refl

abbrev maintained : Manager
maintained = (run_maintenance one_root manager (pos 1000) true).0.manager
