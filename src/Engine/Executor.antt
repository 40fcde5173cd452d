-- ===== src/Engine/Executor.antt =====
-- crates/cloud_sync_daemon/src/engine/executor.rs. The loop over the chunks of an upload session
-- takes fuel; `none` means that it ran out.
pub mod Chunks
pub mod Counts
pub mod Idle
pub mod Examples
use cloud_sync_lib.Base.{
  ℕ, zero, suc, ◌+◌, ◌*◌, ◌%◌, ◌^◌, Bool, true, false, ◌&&◌, Option, none, some, List, [], ◌∷◌, leb,
  if◌then◌else◌,
}
use cloud_sync_lib.Base.Text.{Text, parent}
use cloud_sync_lib.Storage.Capabilities.{resumable_upload, has_capability}
use cloud_sync_lib.Storage.Errors.{Foreign, StorageError, Result, ok, err}
use cloud_sync_lib.Engine.Plan
use cloud_sync_lib.Engine.Plan.{SyncAction, SyncPlan}
use cloud_sync_lib.Engine.Host.{Host}
use cloud_sync_lib.Engine.Versioning.{VersioningConfig, archive_file}

pub record ExecutionResult : Type 0 where
  pub executed_actions : ℕ
  pub failed_actions : ℕ
  pub bytes_uploaded : ℕ
  pub bytes_downloaded : ℕ

abbrev pub no_result : ExecutionResult
no_result = record {
  executed_actions = 0;
  failed_actions = 0;
  bytes_uploaded = 0;
  bytes_downloaded = 0;
}

abbrev pub executed : ExecutionResult → ExecutionResult
executed c = record c { executed_actions = c.executed_actions + 1 }

abbrev pub failed_one : ExecutionResult → ExecutionResult
failed_one c = record c { failed_actions = c.failed_actions + 1 }

-- `+=` on a `u64`
abbrev pub uploaded : ℕ → ExecutionResult → ExecutionResult
uploaded n c = record (executed c) { bytes_uploaded = (c.bytes_uploaded + n) % 2 ^ 64 }

abbrev pub downloaded : ℕ → ExecutionResult → ExecutionResult
downloaded n c = record (executed c) { bytes_downloaded = (c.bytes_downloaded + n) % 2 ^ 64 }

module _ {F : Foreign} (h : Host F) where
  abbrev pub Outcome : Type 0
  Outcome = Result (StorageError F) (Unit {0}) × h.World

  -- `session.finish().await.map(|_| ())`
  abbrev pub finish_session : h.Session → h.World → Outcome
  finish_session s w = let (r, w') = h.finish s w in (elim r [ ok sum ↦ ok tt | err e ↦ err e ], w')

  -- The `while !session.is_complete()` loop and what follows it.
  unfoldable pub upload_chunks : ℕ → h.Session → h.World → Option Outcome
  upload_chunks zero s w = none
  upload_chunks (suc fuel) s w = elim (h.is_complete s) [
    | true ↦ some (finish_session s w)
    | false ↦
        let (r, w') = h.upload_next_chunk s w in
        elim r [ ok s' ↦ upload_chunks fuel s' w' | err e ↦ some (err e, w') ]
  ]

  -- A resumable session for a large file where the backend has them, else one request.
  unfoldable pub upload_file : ℕ → Text → Text → ℕ → h.World → Option Outcome
  unfolding upload_chunks has_capability
  upload_file fuel local_path remote_path size w =
      if has_capability h.capabilities resumable_upload && leb (8 * 1024 * 1024) size
      then (let (r, w') = h.start_resumable_upload local_path remote_path (2 * 1024 * 1024) w in
          elim r [
            | ok session ↦ upload_chunks fuel session w'
            | err e ↦ some (h.upload local_path remote_path w')
          ])
      else some (h.upload local_path remote_path w)

  -- `if let Some(tm) = trash_mgr { let _ = tm.archive_file(path).await; }`
  unfoldable pub archive_if : Option VersioningConfig → Text → h.World → h.World
  unfolding archive_file
  archive_if none path w = w
  archive_if (some c) path w = (archive_file h c path w).1

  abbrev make_parent : Option Text → h.World → h.World
  make_parent none w = w
  make_parent (some p) w = (h.create_dir_all p w).1

  abbrev set_mode : Text → Option ℕ → h.World → h.World
  set_mode path none w = w
  set_mode path (some mode) w = (h.set_permissions path mode w).1

  -- Archive, create the directory, download, set the mode (on Unix).
  unfoldable pub download_file :
      Option VersioningConfig → Text → Text → Option ℕ → h.World → Outcome
  unfolding archive_if parent
  download_file trash remote_path local_path mode w =
      let w1 = if h.exists local_path w then archive_if trash local_path w else w in
      let w2 = make_parent (parent local_path) w1 in
      let (r, w3) = h.download remote_path local_path w2 in
      elim r [ ok done ↦ (ok done, set_mode local_path mode w3) | err e ↦ (err e, w3) ]

  unfoldable pub delete_local_file : Option VersioningConfig → Text → h.World → h.World
  unfolding archive_if
  delete_local_file trash local_path w =
      let w1 = archive_if trash local_path w in
      if h.is_dir local_path w1
      then (h.remove_dir_all local_path w1).1
      else (h.remove_file local_path w1).1

  pub record Progress : Type 0 where
    pub counters : ExecutionResult
    pub world : h.World

  -- The counters after a call that succeeds by `then` and else fails.
  abbrev pub count_result : ExecutionResult → ExecutionResult → Outcome → Progress
  count_result done c (ok u, w) = record { counters = done; world = w }
  count_result done c (err e, w) = record { counters = failed_one c; world = w }

  abbrev count_upload : ℕ → ExecutionResult → Option Outcome → Option Progress
  count_upload size c none = none
  count_upload size c (some r) = some (count_result (uploaded size c) c r)

  unfoldable pub execute_action :
      ℕ → Option VersioningConfig → SyncAction → Progress → Option Progress
  unfolding upload_file download_file delete_local_file archive_if
  execute_action fuel trash (Plan.upload l r size) g =
      count_upload size g.counters (upload_file fuel l r size g.world)
  execute_action fuel trash (Plan.download r l size sum mode) g =
      some (
        count_result (downloaded size g.counters) g.counters (download_file trash r l mode g.world))
  execute_action fuel trash (Plan.server_side_move from to) g =
      some (count_result (executed g.counters) g.counters (h.rename from to g.world))
  execute_action fuel trash (Plan.server_side_copy from to) g =
      some (count_result (executed g.counters) g.counters (h.copy from to g.world))
  execute_action fuel trash (Plan.delete_local l) g =
      some (record { counters = executed g.counters; world = delete_local_file trash l g.world })
  execute_action fuel trash (Plan.delete_remote r) g =
      some (count_result (executed g.counters) g.counters (h.delete r g.world))
  execute_action fuel trash (Plan.conflict p action) g =
      some (record g { counters = executed g.counters })
  execute_action fuel trash (Plan.converge_state p s) g =
      some (record g { counters = executed g.counters })
  execute_action fuel trash (Plan.archive_to_trash p is_remote) g =
      some (record { counters = executed g.counters; world = archive_if trash p g.world })

  -- The body of the loop, with the early `continue` of a dry run.
  unfoldable pub execute_one :
      ℕ → Option VersioningConfig → Bool → SyncAction → Progress → Option Progress
  unfolding execute_action
  execute_one fuel trash dry_run a g =
      if dry_run
      then some (record g { counters = executed g.counters })
      else execute_action fuel trash a g

  unfoldable pub execute_loop :
      ℕ → Option VersioningConfig → Bool → List SyncAction → Progress → Option Progress
  unfolding execute_one
  execute_loop fuel trash dry_run [] g = some g
  execute_loop fuel trash dry_run (a ∷ rest) g = elim (execute_one fuel trash dry_run a g) [
    | none ↦ none
    | some g' ↦ execute_loop fuel trash dry_run rest g'
  ]

  unfoldable pub execute : ℕ → SyncPlan → Option VersioningConfig → Bool → h.World → Option Progress
  unfolding execute_loop
  execute fuel plan trash dry_run w =
      execute_loop fuel trash dry_run plan.actions (record { counters = no_result; world = w })
