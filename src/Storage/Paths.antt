-- ===== src/Storage/Paths.antt =====
-- src/storage/src/storage_policy.cpp: the paths of an event that may be deleted. A path is the list of
-- its components.
use package.text.Mathlib.Text.{starts_with}
use Prim.Native.String.{◌++◌ as string_append}
use paper_breakage_analysis.Base.{
  Bool, true, false, not, ◌&&◌, List, [], ◌∷◌, ◌++◌, String, if◌then◌else◌, is_empty, str_eq,
}
use paper_breakage_analysis.Base.Integers.{ℤ}

pub record FilePath : Type 0 where
  pub is_absolute : Bool
  pub components : List String

pub record EventRetentionRecord : Type 0 where
  pub event_id : String
  pub candidate_time_utc_ms : ℤ
  pub relative_directory : FilePath
  pub deletion_state : String
  pub deletion_relative_path : FilePath

-- `parent / child`: an absolute child replaces the parent.
abbrev pub join_path : FilePath → FilePath → FilePath
join_path parent child =
    if child.is_absolute
    then child
    else record parent { components = parent.components ++ child.components }

abbrev pub is_safe_component : String → Bool
is_safe_component c = not (is_empty c) && not (str_eq c ".") && not (str_eq c "..")

unfoldable pub all_safe : List String → Bool
all_safe [] = true
all_safe (c ∷ cs) = is_safe_component c && all_safe cs

abbrev pub deleting_name : String → String
deleting_name event_id = string_append event_id ".deleting"

-- Four components, the last the event; and a name of its own below the staging directory.
unfoldable pub is_event_directory : String → List String → Bool
is_event_directory id (a ∷ b ∷ c ∷ d ∷ []) = not (starts_with a ".") && str_eq d id
is_event_directory id _ = false

unfoldable pub is_staging_directory : String → List String → Bool
is_staging_directory id (a ∷ b ∷ []) = str_eq a ".deletions" && str_eq b (deleting_name id)
is_staging_directory id _ = false

unfoldable pub valid_deletion_paths : EventRetentionRecord → Bool
unfolding is_event_directory is_staging_directory all_safe
valid_deletion_paths e =
    not e.relative_directory.is_absolute
    && all_safe e.relative_directory.components
    && is_event_directory e.event_id e.relative_directory.components
    && not e.deletion_relative_path.is_absolute
    && all_safe e.deletion_relative_path.components
    && is_staging_directory e.event_id e.deletion_relative_path.components
