-- ===== src/Storage/Maintenance.antt =====
-- src/storage/src/storage_policy.cpp: the manager's construction and the deletion of one event, as a run of
-- maintenance does it. A run works on a manager, a world and a report; each step returns all of them, also where
-- it ends the run with an error.
use paper_breakage_analysis.Base.{
  ℕ, ◌+◌, Bool, true, false, not, ◌&&◌, Option, none, some, List, [], ◌∷◌, ◌++◌, String, Result,
  Error, success, failure, error, critical, if◌then◌else◌, str_eq, inc_u64,
}
use paper_breakage_analysis.Base.Integers.{ℤ}
use paper_breakage_analysis.Storage.Paths.{
  FilePath, EventRetentionRecord, join_path, valid_deletion_paths,
}
use paper_breakage_analysis.Storage.Policy.{
  StorageSystem, StoragePolicyOptions, Manager, policy_error, config_error, refresh_snapshot,
  bad_options, first_snapshot,
}

pub record MaintenanceFailure : Type 0 where
  pub event_id : String
  pub path : Option FilePath
  pub error : Error

pub record MaintenanceReport : Type 0 where
  pub deletion_work_recovered : ℕ
  pub events_deleted : ℕ
  pub temporary_entries_deleted : ℕ
  pub failures : List MaintenanceFailure

module _ (S : StorageSystem) where
  pub record Run : Type 0 where
    pub manager : Manager
    pub world : S.World
    pub report : MaintenanceReport

  -- Every root of temporary files is made absolute, and lies outside the events.
  unfoldable pub outside_roots : FilePath → List FilePath → Option (List FilePath)
  outside_roots event_root [] = some []
  outside_roots event_root (p ∷ ps) = outside (S.absolute p) (outside_roots event_root ps)
    where
      same_components : List String → List String → Bool
      same_components [] [] = true
      same_components (c ∷ cs) (d ∷ ds) = str_eq c d && same_components cs ds
      same_components _ _ = false

      -- `inside_or_equal`
      inside : FilePath → List String → Bool
      inside q [] = same_components q.components event_root.components
      inside q (first ∷ rest) = not (str_eq first "..")

      outside : Option FilePath → Option (List FilePath) → Option (List FilePath)
      outside (some q) (some qs) =
          if inside q (S.lexically_relative q event_root).components then none else some (q ∷ qs)
      outside _ _ = none

  unfoldable pub placed : StoragePolicyOptions → Option FilePath → Option StoragePolicyOptions
  unfolding outside_roots
  placed o none = none
  placed o (some root) = elim (outside_roots root o.temporary_roots) [
    | none ↦ none
    | some roots ↦ some (record o { event_root = root; temporary_roots = roots })
  ]

  -- No manager where the first figures cannot be taken.
  unfoldable pub manager_if : Manager × Result (Unit {0}) → Result Manager
  manager_if (m, success u) = success m
  manager_if (m, failure e) = failure e

  unfoldable pub created : Option StoragePolicyOptions → S.World → Result Manager
  unfolding manager_if
  created none w = failure (config_error "storage.policy.create")
  created (some o) w =
      manager_if (refresh_snapshot S (record { options = o; snapshot = first_snapshot }) w)

  unfoldable pub create : StoragePolicyOptions → S.World → Result Manager
  unfolding placed created
  create o w =
      if bad_options o
      then failure (config_error "storage.policy.create")
      else created (placed o (S.absolute o.event_root)) w

  -- A call that failed ends the chain, on the world that it left.
  abbrev pub then_do {ℓ} :
      {A : Type ℓ}
      → S.World × Result (Unit {0})
      → (S.World → S.World × Result A)
      → S.World × Result A
  then_do (w, success u) next = next w
  then_do (w, failure e) next = (w, failure e)

  abbrev pub parent_path : FilePath → FilePath
  parent_path p = record p { components = without_last p.components }
    where
      without_last : List String → List String
      without_last [] = []
      without_last (c ∷ []) = []
      without_last (c ∷ d ∷ cs) = c ∷ without_last (d ∷ cs)

  unfoldable pub remove_staged :
      FilePath → EventRetentionRecord → ℤ → S.World → S.World × Result (Unit {0})
  remove_staged staging e now w =
      then_do (S.remove_tree staging w) (S.complete_deletion e.event_id now)

  -- Whether the event stands in its directory, and whether it stands staged.
  unfoldable pub delete_standing :
      FilePath → EventRetentionRecord → ℤ → S.World → Bool → Bool → S.World × Result (Unit {0})
  unfolding remove_staged
  delete_standing root e now w true true =
      (w, failure (policy_error "EVENT_DELETE_FAILED" error "storage.delete.conflict"))
  delete_standing root e now w true false =
      let original = join_path root e.relative_directory in
      let staging = join_path root e.deletion_relative_path in
      then_do (S.create_directories (parent_path staging) w) (λ w'.
        then_do (S.move_directory_atomically original staging w') (remove_staged staging e now))
  delete_standing root e now w false true =
      remove_staged (join_path root e.deletion_relative_path) e now w
  delete_standing root e now w false false = S.complete_deletion e.event_id now w

  unfoldable pub delete_looked :
      FilePath
      → EventRetentionRecord
      → ℤ
      → S.World
      → Result Bool
      → Result Bool
      → S.World × Result (Unit {0})
  unfolding delete_standing
  delete_looked root e now w (failure x) staged = (w, failure x)
  delete_looked root e now w (success original) (failure x) = (w, failure x)
  delete_looked root e now w (success original) (success staged) =
      delete_standing root e now w original staged

  unfoldable pub delete_event :
      FilePath → EventRetentionRecord → ℤ → S.World → S.World × Result (Unit {0})
  unfolding delete_looked
  delete_event root e now w =
      if not (valid_deletion_paths e)
      then (w, failure (policy_error "EVENT_DELETE_FAILED" critical "storage.delete.validate"))
      else delete_looked root e now w (S.is_directory (join_path root e.relative_directory) w)
          (S.is_directory (join_path root e.deletion_relative_path) w)

  abbrev pub add_failures : Run → List MaintenanceFailure → Run
  add_failures r fs = record r { report = record r.report { failures = r.report.failures ++ fs } }

  abbrev pub failure_of : String → Option FilePath → Error → MaintenanceFailure
  failure_of id path e = record { event_id = id; path = path; error = e }

  abbrev pub recorded_failure : String → Result (Unit {0}) → List MaintenanceFailure
  recorded_failure id (success u) = []
  recorded_failure id (failure e) = failure_of id none e ∷ []

  abbrev pub count_failed : Run → Run
  count_failed r = record r {
    manager = record r.manager {
      snapshot = record r.manager.snapshot {
        event_delete_failures = inc_u64 r.manager.snapshot.event_delete_failures;
      };
    };
  }

  abbrev pub count_deleted : Bool → Run → Run
  count_deleted recovered r = record r {
    manager = record r.manager {
      snapshot = record r.manager.snapshot {
        events_deleted = inc_u64 r.manager.snapshot.events_deleted;
      };
    };
    report = record r.report {
      events_deleted = r.report.events_deleted + 1;
      deletion_work_recovered =
          if recovered
          then r.report.deletion_work_recovered + 1
          else r.report.deletion_work_recovered;
    };
  }

  -- What a deletion that was tried leaves in the report and the database.
  unfoldable pub settle_deletion :
      Bool → EventRetentionRecord → ℤ → Run → S.World × Result (Unit {0}) → Run
  settle_deletion recovered e now r (w, success u) =
      count_deleted recovered (record r { world = w })
  settle_deletion recovered e now r (w, failure x) =
      let (w', noted) = S.fail_deletion e.event_id x now w in
      let path = join_path r.manager.options.event_root e.deletion_relative_path in
      count_failed (
        add_failures (record r { world = w' })
          (failure_of e.event_id (some path) x ∷ recorded_failure e.event_id noted))

  unfoldable pub try_deletion : Bool → EventRetentionRecord → ℤ → Run → Run
  unfolding settle_deletion
  try_deletion recovered e now r =
      settle_deletion recovered e now r (delete_event r.manager.options.event_root e now r.world)

  -- An event is deleted once the database has given it to this run; `false` where it has not.
  unfoldable pub delete_claimed :
      Bool → EventRetentionRecord → ℤ → Run → S.World × Result Bool → Run × Result Bool
  unfolding try_deletion
  delete_claimed recovered e now r (w, failure x) = (record r { world = w }, failure x)
  delete_claimed recovered e now r (w, success false) = (record r { world = w }, success false)
  delete_claimed recovered e now r (w, success true) =
      (try_deletion recovered e now (record r { world = w }), success true)
