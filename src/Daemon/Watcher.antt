-- ===== src/Daemon/Watcher.antt =====
-- `handle_event` of crates/cloud_sync_daemon/src/watcher.rs, with `get_remote_path` of
-- crates/cloud_sync_daemon/src/utils.rs: which tasks a file system event spawns. The file system is an
-- argument, and so are the ignore rules that are built anew when `.syncignore` changes.
pub mod Permitted
pub mod Root
pub mod Examples
use cloud_sync_lib.Base.{
  ℕ, zero, suc, Bool, true, false, ◌&&◌, ◌||◌, not, Option, none, some, List, [], ◌∷◌, ◌++◌, map,
  if◌then◌else◌,
}
use cloud_sync_lib.Base.Lists.{length, any}
use cloud_sync_lib.Base.Slices.{drop}
use cloud_sync_lib.Base.Text.{
  Text, codes, text_eq, starts_with, ends_with, replace, strip_prefix, file_name,
}
use cloud_sync_lib.Storage.Policy.{SyncPolicy, sync_deletions}
use cloud_sync_lib.Storage.Errors.{Foreign, StorageError, Result, ok, err}
use cloud_sync_lib.Providers.Backend.{Call}

-- The kinds of `notify` events that are told apart.
pub data EventKind : Type 0 where
  create modify_data modify_any remove other_event : EventKind

pub record Event : Type 0 where
  pub kind : EventKind
  pub paths : List Text

pub record ActiveBackend : Type 0 where
  pub name : Text
  pub policy : SyncPolicy
  pub selective_sync : Option (List Text)

pub record DaemonState : Type 0 where
  pub paused : Bool
  pub backends : List ActiveBackend
  pub watch_dir : Text
  pub gitignore : Text → Bool → Bool

pub record FileType : Type 0 where
  pub is_file : Bool
  pub is_dir : Bool

pub record LocalFiles : Type 0 where
  pub exists : Text → Bool
  pub metadata : Text → Option FileType
  pub canonicalize : Text → Option Text

-- A task: the backend, the local path, the remote path and whether it is a directory; or the backend
-- and the remote path.
pub data Job : Type 0 where
  sync_path : Text → Text → Text → Bool → Job
  delete_path : Text → Text → Job

abbrev slashes : Text → Text
slashes = replace 92 b'/'

abbrev stripped : Text → Text → Option Text → Option Text
stripped path watch_dir (some rel) = some (slashes rel)
stripped path watch_dir none =
    if starts_with path watch_dir then some (slashes (drop (length watch_dir) path)) else none

unfoldable pub get_remote_path : Text → Text → Option Text
unfolding strip_prefix replace starts_with
get_remote_path path watch_dir = stripped path watch_dir (strip_prefix path watch_dir)

-- The names that a change, and that a removal, is not synchronised for.
unfoldable pub is_own_file : Text → Bool
unfolding text_eq starts_with
is_own_file path =
    text_eq path (codes ".syncignore")
    || starts_with path (codes ".sync_state")
    || starts_with path (codes "..sync_state")

unfoldable pub is_kept_file : Text → Bool
unfolding text_eq starts_with ends_with
is_kept_file path =
    text_eq path (codes ".sync_state.json")
    || text_eq path (codes ".sync_state.bin")
    || text_eq path (codes ".syncignore")
    || (starts_with path (codes ".sync_state_")
        && (ends_with path (codes ".json") || ends_with path (codes ".bin")))

abbrev pub canonical : LocalFiles → Text → Text
canonical files path = elim (files.canonicalize path) [ none ↦ path | some p ↦ p ]

abbrev pub push_to : Text → Text → Bool → ActiveBackend → Job
push_to path remote_path is_dir b = sync_path b.name path remote_path is_dir

module _ (files : LocalFiles) (s : DaemonState) where
  abbrev pub push_remote : Text → Bool → Option Text → List Job
  push_remote path is_dir none = []
  push_remote path is_dir (some remote_path) =
      if is_own_file remote_path then [] else map (push_to path remote_path is_dir) s.backends

  abbrev pub push_type : Text → Option FileType → List Job
  push_type path none = []
  push_type path (some t) =
      if not t.is_file && not t.is_dir
      then []
      else if s.gitignore (canonical files path) t.is_dir
      then []
      else push_remote path t.is_dir (get_remote_path (canonical files path) s.watch_dir)

  -- The body of the loop over the paths of a creation or a modification.
  unfoldable pub changed : Text → List Job
  unfolding get_remote_path is_own_file
  changed path = if files.exists path then push_type path (files.metadata path) else []

  abbrev pub deletions : Text → List ActiveBackend → List Job
  deletions remote_path [] = []
  deletions remote_path (b ∷ bs) =
      if sync_deletions b.policy
      then delete_path b.name remote_path ∷ deletions remote_path bs
      else deletions remote_path bs

  abbrev pub delete_remote : Option Text → List Job
  delete_remote none = []
  delete_remote (some remote_path) =
      if is_kept_file remote_path then [] else deletions remote_path s.backends

  -- The body of the loop over the paths of a removal.
  unfoldable pub removed : Text → List Job
  unfolding get_remote_path is_kept_file sync_deletions
  removed path =
      if s.gitignore path false || s.gitignore path true
      then []
      else delete_remote (get_remote_path path s.watch_dir)

  abbrev pub each_path : (Text → List Job) → List Text → List Job
  each_path jobs [] = []
  each_path jobs (path ∷ paths) = jobs path ++ each_path jobs paths

  unfoldable pub event_jobs : EventKind → List Text → List Job
  unfolding changed removed
  event_jobs create paths = each_path changed paths
  event_jobs modify_data paths = each_path changed paths
  event_jobs modify_any paths = each_path changed paths
  event_jobs remove paths = each_path removed paths
  event_jobs other_event paths = []

abbrev is_named : Text → Option Text → Bool
is_named name none = false
is_named name (some n) = text_eq n name

unfoldable pub rebuild : (Text → Text → Bool → Bool) → Event → DaemonState → DaemonState
unfolding file_name text_eq
rebuild build_gitignore event s =
    if any (λ p. is_named (codes ".syncignore") (file_name p)) event.paths
    then record s { gitignore = build_gitignore s.watch_dir }
    else s

-- The new state and the tasks that are spawned.
unfoldable pub handle_event :
    LocalFiles → (Text → Text → Bool → Bool) → Event → DaemonState → DaemonState × List Job
unfolding rebuild event_jobs
handle_event files build_gitignore event s =
    let s' = rebuild build_gitignore event s in
    (s', if s'.paused then [] else event_jobs files s' event.kind event.paths)

-- The attempts of a task, and whether one succeeded.
unfoldable pub sync_attempts : {F : Foreign} {W : Type 0} → ℕ → Call F W (Unit {0}) → W → Bool × W
sync_attempts zero call w = (false, w)
sync_attempts (suc attempts) call w =
    let (r, w') = call w in elim r [ ok u ↦ (true, w') | err e ↦ sync_attempts attempts call w' ]
