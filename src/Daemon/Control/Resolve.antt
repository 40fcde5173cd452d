-- ===== src/Daemon/Control/Resolve.antt =====
-- The `resolve_conflict` and `clear` commands of crates/cloud_sync_daemon/src/control.rs. The texts of
-- errors and the renaming of a local file are arguments; the events have no counterpart.
use cloud_sync_lib.Base.{Option, none, some, List, [], ◌∷◌, ◌++◌, if◌then◌else◌}
use cloud_sync_lib.Base.Text.{Text, codes, text_eq, path_join}
use cloud_sync_lib.Base.Dict.{Dict}
use cloud_sync_lib.Storage.Errors.{Foreign, StorageError, Result, ok, err}
use cloud_sync_lib.Engine.Scanner.{StorageItem}
use cloud_sync_lib.Engine.Conflict.Manager.{ConflictRecord, remove_conflict}
use cloud_sync_lib.Engine.Conflict.Registry.{to_lowercase}
use cloud_sync_lib.Providers.Backend.{Backend}

-- A backend with its name.
pub record NamedBackend (F : Foreign) (W Session : Type 0) : Type 0 where
  pub name : Text
  pub backend : Backend F W Session

-- The answer, the pending conflicts and the world.
pub record Resolved (W : Type 0) : Type 0 where
  pub answer : Text
  pub conflicts : Dict ConflictRecord
  pub world : W

module _ {F : Foreign} {W Session : Type 0} where
  module _ (show : StorageError F → Text) where
    -- Uploads to one backend after the other; the first error ends the loop.
    unfoldable pub upload_all :
        Text → Text → List (NamedBackend F W Session) → W → Option (StorageError F) × W
    upload_all local_path rel_path [] w = (none, w)
    upload_all local_path rel_path (b ∷ bs) w =
        let (r, w') = b.backend.upload local_path rel_path w in
        elim r [ err e ↦ (some e, w') | ok u ↦ upload_all local_path rel_path bs w' ]

    -- A download from the first backend, if there is one.
    unfoldable pub download_first :
        Text → Text → List (NamedBackend F W Session) → W → Option (StorageError F) × W
    download_first rel_path local_path [] w = (none, w)
    download_first rel_path local_path (b ∷ bs) w =
        let (r, w') = b.backend.download rel_path local_path w in
        elim r [ err e ↦ (some e, w') | ok u ↦ (none, w') ]

    -- The download and the upload of `keep_both`, whose errors are logged.
    unfoldable pub exchange_first :
        Text → Text → Text → Text → List (NamedBackend F W Session) → W → W
    exchange_first rel_path local_path conflict_rel conflict_local [] w = w
    exchange_first rel_path local_path conflict_rel conflict_local (b ∷ bs) w =
        let (r, w1) = b.backend.download rel_path local_path w in
        let (r', w2) = b.backend.upload conflict_local conflict_rel w1 in w2

    module _ (rename_file : Text → Text → W → Option Text × W) (watch_dir : Text)
        (backends : List (NamedBackend F W Session)) (conflicts : Dict ConflictRecord) where
      abbrev pub dropped : Text → Text → W → Resolved W
      dropped rel_path answer w = record {
        answer = answer;
        conflicts = (remove_conflict rel_path conflicts).1;
        world = w;
      }

      abbrev pub kept : Text → W → Resolved W
      kept answer w = record { answer = answer; conflicts = conflicts; world = w }

      abbrev pub after_transfer : Text → Text → Text → Option (StorageError F) × W → Resolved W
      after_transfer rel_path failure success (some e, w) = kept (failure ++ show e ++ 10 ∷ []) w
      after_transfer rel_path failure success (none, w) = dropped rel_path success w

      abbrev pub after_rename : Text → Text → Option Text × W → Resolved W
      after_rename rel_path conflict_rel (some e, w) =
          kept (codes "Error: Failed to rename local file: " ++ e ++ 10 ∷ []) w
      after_rename rel_path conflict_rel (none, w) =
          dropped rel_path (codes "Status: Conflict resolved (keep_both)" ++ 10 ∷ []) (
            exchange_first rel_path (path_join watch_dir rel_path) conflict_rel
              (path_join watch_dir conflict_rel) backends w)

      -- The resolution is in small letters.
      unfoldable pub resolve_conflict : Text → Text → W → Resolved W
      unfolding text_eq
      resolve_conflict rel_path resolution w =
          let local_path = path_join watch_dir rel_path in
          if text_eq resolution (codes "use_local")
          then after_transfer rel_path (codes "Error: Failed to upload file: ")
              (codes "Status: Conflict resolved (use_local)" ++ 10 ∷ [])
              (upload_all local_path rel_path backends w)
          else if text_eq resolution (codes "use_remote")
          then after_transfer rel_path (codes "Error: Failed to download file: ")
              (codes "Status: Conflict resolved (use_remote)" ++ 10 ∷ [])
              (download_first rel_path local_path backends w)
          else if text_eq resolution (codes "keep_both")
          then (let conflict_rel = rel_path ++ codes ".local-conflict" in
              after_rename rel_path conflict_rel
                (rename_file local_path (path_join watch_dir conflict_rel) w))
          else if text_eq resolution (codes "skip")
          then dropped rel_path (codes "Status: Conflict dismissed" ++ 10 ∷ []) w
          else kept
              (codes "Error: Unknown resolution '"
                ++ resolution
                ++ codes "'. Supported: use_local, use_remote, keep_both, skip"
                ++ 10 ∷ [])
              w

    -- The loop of `clear`: errors are logged.
    unfoldable pub delete_all : Backend F W Session → List StorageItem → W → W
    delete_all backend [] w = w
    delete_all backend (i ∷ is) w =
        let (r, w') = backend.delete i.path w in delete_all backend is w'

    -- `eq_ignore_ascii_case`
    unfoldable pub find_backend :
        Text → List (NamedBackend F W Session) → Option (NamedBackend F W Session)
    unfolding text_eq to_lowercase
    find_backend name [] = none
    find_backend name (b ∷ bs) =
        if text_eq (to_lowercase b.name) (to_lowercase name) then some b else find_backend name bs

    abbrev pub clear_listed :
        NamedBackend F W Session → Result (StorageError F) (List StorageItem) → W → Text × W
    clear_listed b (err e) w =
        (codes "Error: Failed to list files on provider: " ++ show e ++ 10 ∷ [], w)
    clear_listed b (ok items) w = (
      codes "Status: Successfully cleared remote provider: " ++ b.name ++ 10 ∷ [],
      delete_all b.backend items w,
    )

    abbrev pub clear_found : Text → Option (NamedBackend F W Session) → W → Text × W
    clear_found target none w = (
      codes "Error: No enabled provider found matching name: '" ++ target ++ codes "'" ++ 10 ∷ [],
      w,
    )
    clear_found target (some b) w = let (r, w') = b.backend.list [] w in clear_listed b r w'

    unfoldable pub clear : Text → List (NamedBackend F W Session) → W → Text × W
    unfolding find_backend delete_all
    clear target backends w = clear_found target (find_backend target backends) w
