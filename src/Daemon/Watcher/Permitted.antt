-- ===== src/Daemon/Watcher/Permitted.antt =====
-- What the tasks rest on that `handle_event` of crates/cloud_sync_daemon/src/watcher.rs spawns.
use cloud_sync_lib.Base.{Bool, true, false, ◌||◌, ◌≡◌, some}
use cloud_sync_lib.Base.Lists.{In}
use cloud_sync_lib.Base.Text.{Text}
use cloud_sync_lib.Storage.Policy.{sync_deletions}
use cloud_sync_lib.Daemon.Watcher.{
  ActiveBackend, DaemonState, LocalFiles, Job, sync_path, delete_path, get_remote_path, is_own_file,
  is_kept_file, canonical,
}

module _ (files : LocalFiles) (s : DaemonState) where
  -- A path is sent that exists, is not ignored, has a remote path that is none of the daemon's own
  -- files; a path is deleted that is not ignored and has a remote path that is none of them, at a
  -- backend whose policy propagates deletions. The remote path is what `get_remote_path` finds, whose
  -- test of a prefix a sibling directory passes too, such as `sync2` beside `sync`.
  pub data IsPermitted (j : Job) : Type 0 where
    sends :
        (path remote : Text) (is_dir : Bool) (b : ActiveBackend)
        → j ≡ sync_path b.name path remote is_dir
        → In b s.backends
        → files.exists path ≡ true
        → s.gitignore (canonical files path) is_dir ≡ false
        → get_remote_path (canonical files path) s.watch_dir ≡ some remote
        → is_own_file remote ≡ false
        → IsPermitted j
    deletes :
        (path remote : Text) (b : ActiveBackend)
        → j ≡ delete_path b.name remote
        → In b s.backends
        → sync_deletions b.policy ≡ true
        → (s.gitignore path false || s.gitignore path true) ≡ false
        → get_remote_path path s.watch_dir ≡ some remote
        → is_kept_file remote ≡ false
        → IsPermitted j
