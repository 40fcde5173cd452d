-- ===== src/Engine/Filter.antt =====
-- crates/cloud_sync_daemon/src/engine/filter.rs. The ignore rules are an argument of the filter.
pub mod Unsafe
pub mod Selected
use cloud_sync_lib.Base.{
  ℕ, Bool, true, false, ◌&&◌, ◌||◌, not, Option, none, some, List, [], ◌∷◌, ◌++◌, ltb,
  if◌then◌else◌,
}
use cloud_sync_lib.Base.Lists.{any, is_empty}
use cloud_sync_lib.Base.Text.{Text, codes, text_eq, starts_with, ends_with, contains, trim_start}

pub record FileFilter : Type 0 where
  pub is_ignored : Text → Bool → Bool
  pub selective_sync : Option (List Text)
  pub min_size : Option ℕ
  pub max_size : Option ℕ

abbrev below : ℕ → Option ℕ → Bool
below size none = false
below size (some min) = ltb size min

abbrev above : ℕ → Option ℕ → Bool
above size none = false
above size (some max) = ltb max size

unfoldable pub is_size_allowed : FileFilter → ℕ → Bool
is_size_allowed filter size =
    if below size filter.min_size then false else if above size filter.max_size then false else true

unfoldable pub is_unsafe_path : Text → Bool
unfolding contains starts_with
is_unsafe_path path =
    contains path (codes "..") || contains path (codes "./") || starts_with path (codes "/")

unfoldable pub is_state_file : Text → Bool
unfolding text_eq starts_with ends_with
is_state_file path =
    text_eq path (codes ".sync_state.json")
    || text_eq path (codes ".sync_state.bin")
    || text_eq path (codes ".syncignore")
    || (starts_with path (codes ".sync_state_")
        && (ends_with path (codes ".json") || ends_with path (codes ".bin")))

-- The path is the prefix, below it, or one of its ancestors.
unfoldable pub is_related : Text → Text → Bool
unfolding text_eq starts_with
is_related clean_path clean_prefix =
    text_eq clean_path clean_prefix
    || starts_with clean_path (clean_prefix ++ codes "/")
    || starts_with clean_prefix (clean_path ++ codes "/")

abbrev pub selected_by : Text → Option (List Text) → Bool
selected_by rel_path none = true
selected_by rel_path (some prefixes) =
    is_empty prefixes
    || any (λ prefix. is_related (trim_start b'/' rel_path) (trim_start b'/' prefix)) prefixes

unfoldable pub is_path_selected : FileFilter → Text → Bool
unfolding is_related trim_start
is_path_selected filter rel_path = selected_by rel_path filter.selective_sync
