-- ===== src/Daemon/Control/Examples.antt =====
-- A daemon with one backend whose files cannot be deleted.
use cloud_sync_lib.Base.{List, arith, ℕ, ◌+◌, ◌≡◌, refl, true, false, Option, none, [], ◌∷◌, ◌++◌}
use cloud_sync_lib.Base.Text.{Text, codes, text_eq}
use cloud_sync_lib.Base.Dict.{Dict}
use cloud_sync_lib.Storage.Capabilities.{no_capabilities}
use cloud_sync_lib.Storage.Policy.{rename_local}
use cloud_sync_lib.Storage.Errors.{Foreign, StorageError, conflict, ok, err}
use cloud_sync_lib.Engine.Scanner.{StorageItem}
use cloud_sync_lib.Engine.Conflict.Manager.{ConflictRecord, local_modified_remote_deleted}
use cloud_sync_lib.Providers.Backend.{Backend, Call}
use cloud_sync_lib.Engine.Conflict.Registry.{to_lowercase}
use cloud_sync_lib.Daemon.Control.Resolve.{NamedBackend, resolve_conflict, find_backend, clear}
use cloud_sync_lib.Daemon.Control.{
  Services, ControlState, handle_control_command, ControlEvent, received, completed, run_events,
}
use cloud_sync_lib.Daemon.Control.Drops.{Done, Deserved, resolve_conflict_drops, clear_unchecked}
use cloud_sync_lib.Daemon.Control.Spaces.{spaced_path_unresolved}
use cloud_sync_lib.Daemon.Control.Exclusive.{IsExclusive, run_events-IsExclusive}

abbrev foreign : Foreign
foreign = record {
  IoError = Unit;
  HttpError = Unit;
  is_connect = λ e. true;
  is_timeout = λ e. false;
  is_request = λ e. false;
}

abbrev item : StorageItem
item = record {
  path = codes "a";
  size = 3;
  modified = 5;
  is_dir = false;
  checksum = none;
  permissions = none;
}

abbrev refused : {A : Type 0} → Call foreign ℕ A
refused w = (err (conflict (codes "read-only")), w)

abbrev read_only : Backend foreign ℕ (Unit {0})
read_only = record {
  capabilities = no_capabilities;
  upload = λ l r. refused;
  download = λ r l w. (ok tt, w + 1);
  delete = λ r. refused;
  list = λ r w. (ok (item ∷ []), w);
  create_folder = λ r. refused;
  rename = λ a b. refused;
  copy = λ a b. refused;
  start_resumable_upload = λ l r n. refused;
  get_latest_cursor = λ w. (ok none, w);
  fetch_changes = λ c w. (ok none, w);
  compute_local_checksum = λ l w. (ok none, w);
  is_simulated = λ w. false;
  simulation_reason = λ w. none;
}

abbrev box : NamedBackend foreign ℕ (Unit {0})
box = record { name = codes "Box"; backend = read_only }

abbrev show : StorageError foreign → Text
show e = codes "error"

abbrev rename_file : Text → Text → ℕ → Option Text × ℕ
rename_file a b w = (none, w)

abbrev pending : Dict ConflictRecord
pending =
    (
      codes "a",
      record {
        id = codes "1";
        rel_path = codes "a";
        provider = codes "Box";
        conflict_type = local_modified_remote_deleted;
        local_size = none;
        local_mtime = none;
        remote_size = none;
        remote_mtime = none;
        detected_at = 0;
      },
    )
    ∷ []

abbrev services : Services foreign ℕ (Unit {0})
services = record {
  show = show;
  debug = λ t. t;
  details_json = λ d. [];
  conflicts_json = λ c. ok [];
  plans_json = λ s w. ([], w);
  load_config = λ p w. (err [], w);
  build_gitignore = λ d e p i. false;
  read_log = λ p w. ok [];
  rename_file = rename_file;
}

abbrev daemon : ControlState foreign ℕ (Unit {0})
daemon = record {
  paused = false;
  backends = box ∷ [];
  watch_dir = codes "/w";
  config_file = codes "config.toml";
  syncing = false;
  ui_addr = none;
  gitignore = λ p d. false;
  exclude = none;
  upload_limiter = none;
  download_limiter = none;
  connection_errors = [];
  conflict_policy = rename_local;
  dry_run = false;
  conflicts = pending;
  log_file = codes "daemon.log";
  state_dir = codes "sync_state";
}

resolve_conflict_drops_example :
    Deserved show rename_file
      (codes "/w")
      (box ∷ [])
      pending
      (codes "a")
      (Done show rename_file (codes "/w") (box ∷ []) pending (codes "a") (codes "use_local") 0)
      (resolve_conflict show rename_file
        (codes "/w")
        (box ∷ [])
        pending
        (codes "a")
        (codes "use_local")
        0)
resolve_conflict_drops_example =
    resolve_conflict_drops show rename_file (codes "/w") (box ∷ []) pending (codes "a")
      (codes "use_local") 0

clear_unchecked_example :
    clear show (codes "box") (box ∷ []) 0
    ≡ (codes "Status: Successfully cleared remote provider: " ++ codes "Box" ++ 10 ∷ [], 0)
unfolding find_backend
clear_unchecked_example =
    clear_unchecked show (codes "box") (box ∷ []) box (item ∷ []) 0 0 refl refl
      (λ p w. (conflict (codes "read-only"), refl))

spaced_path_unresolved_example :
    let r =
      handle_control_command services
        (codes "resolve_conflict" ++ 32 ∷ (codes "my" ++ 32 ∷ (codes "file" ++ 32 ∷ codes "skip")))
        daemon
        0 in
    (r.state ≡ daemon) × (r.world ≡ 0)
unfolding text_eq to_lowercase
spaced_path_unresolved_example =
    spaced_path_unresolved services (codes "my") (codes "file") (codes "skip") daemon 0 refl refl
      refl refl

-- While one runs another is asked for; it ends and a third is spawned.
abbrev events : List (ControlEvent services)
events =
    received (codes "sync") ∷ received (codes "sync") ∷ completed ∷ received (codes "sync") ∷ []

run_events-IsExclusive_example :
    (let (s', running') = run_events services events daemon 0 0 in IsExclusive services s' running')
run_events-IsExclusive_example =
    run_events-IsExclusive services events daemon 0 0
      (record { at_most_one = omega arith; flagged = refl })
