-- ===== src/Engine/Executor/Examples.antt =====
-- The executor and the orchestrator over a small host: uploads by request fail, a session sends
-- three chunks.
use cloud_sync_lib.Base.{
  ℕ, zero, suc, ◌+◌, ◌<◌, ◌≡◌, refl, Bool, true, false, none, some, List, [], ◌∷◌, arith,
}
use cloud_sync_lib.Base.Text.{codes, path_join, text_eq}
use cloud_sync_lib.Base.Lists.{In}
use cloud_sync_lib.Base.Dict.{Dict, get}
use cloud_sync_lib.Storage.Capabilities
use cloud_sync_lib.Storage.Errors.{Foreign, StorageError, Result, ok, err, connection_failed}
use cloud_sync_lib.Storage.Policy.{two_way, rename_local}
use cloud_sync_lib.Storage.State.{SyncState}
use cloud_sync_lib.Engine.Conflict.{skip}
use cloud_sync_lib.Engine.Plan
use cloud_sync_lib.Engine.Plan.{SyncAction, SyncPlan}
use cloud_sync_lib.Engine.Scanner.{ScannedItem}
use cloud_sync_lib.Engine.Planner.{all_paths}
use cloud_sync_lib.Engine.Host.{Host}
use cloud_sync_lib.Engine.Versioning.{VersioningConfig}
use cloud_sync_lib.Engine.Executor.{Progress, execute, upload_file}
use cloud_sync_lib.Engine.Executor.Chunks.{Progresses}
use cloud_sync_lib.Engine.Executor.Counts.{execute_total}
use cloud_sync_lib.Engine.Orchestrator.{Site, SyncConfig, plan_sync, sync_bidirectional}
use cloud_sync_lib.Engine.Orchestrator.Lost.{failed_upload_deletes}

abbrev foreign : Foreign
foreign = record {
  IoError = Unit;
  HttpError = Unit;
  is_connect = λ e. true;
  is_timeout = λ e. false;
  is_request = λ e. false;
}

record Disk : Type 0 where
  catalog : SyncState
  local : Dict ScannedItem
  remote : Dict ScannedItem

abbrev next_chunk : ℕ → Disk → Result (StorageError foreign) ℕ × Disk
next_chunk zero w = (err (connection_failed []), w)
next_chunk (suc n) w = (ok n, w)

abbrev is_zero : ℕ → Bool
is_zero zero = true
is_zero (suc n) = false

abbrev host : Host foreign
host = record {
  World = Disk;
  Session = ℕ;
  capabilities = Capabilities.resumable_upload;
  upload = λ l r w. (err (connection_failed []), w);
  download = λ r l w. (ok tt, w);
  delete = λ r w. (ok tt, w);
  rename = λ a b w. (ok tt, w);
  copy = λ a b w. (ok tt, w);
  start_resumable_upload = λ l r n w. (ok 3, w);
  is_complete = is_zero;
  upload_next_chunk = next_chunk;
  finish = λ s w. (ok none, w);
  exists = λ p w. true;
  is_dir = λ p w. false;
  create_dir_all = λ p w. (true, w);
  copy_file = λ a b w. (true, w);
  remove_file = λ p w. (true, w);
  remove_dir_all = λ p w. (true, w);
  set_permissions = λ p m w. (true, w);
  timestamp = λ w. codes "20260101_000000";
}

chunk_falls : (s s' : ℕ) (w w' : Disk) → is_zero s ≡ false → next_chunk s w ≡ (ok s', w') → s' < s
chunk_falls zero s' w w' o e = cc
chunk_falls (suc n) s' w w' o e = ground arith

start_le :
    (s : ℕ) (w w' : Disk)
    → ◌≡◌ {A = Result (StorageError foreign) ℕ × Disk} (ok 3, w) (ok s, w')
    → s < 4
start_le s w w' e = ground arith

progresses : Progresses host 3
progresses = record {
  left = λ s. s;
  IsValid = λ s. Unit;
  falls = λ s s' w w' v. chunk_falls s s' w w';
  stays = λ s s' w w' v o e. tt;
  starts = λ l r chunk s w w' e. (omega (arith, start_le s w w' e), tt);
}

abbrev item : ScannedItem
item = record { size = 5; modified = 7; is_dir = false; checksum = none; permissions = none }

abbrev disk : Disk
disk = record { catalog = record { files = [] }; local = (codes "a", item) ∷ []; remote = [] }

abbrev plan_of : List SyncAction → SyncPlan
plan_of actions = record {
  backend_name = codes "box";
  created_at = 0;
  actions = actions;
  total_upload_bytes = 0;
  total_download_bytes = 0;
  conflicts_count = 0;
}

abbrev work : SyncPlan
work = plan_of (
    Plan.upload (codes "/w/big") (codes "big") 9000000
    ∷ Plan.upload (codes "/w/a") (codes "a") 5
    ∷ Plan.delete_local (codes "/w/b")
    ∷ [])

abbrev trash : VersioningConfig
trash = record {
  enabled = true;
  trash_dir = codes "/trash";
  retention_days = 30;
  max_versions_per_file = 5;
}

execute_total_example :
    (g : Progress host) × (execute host 4 work (some trash) false disk ≡ some g)
    × (g.counters.executed_actions + g.counters.failed_actions ≡ 3)
execute_total_example = execute_total host 3 4 (some trash) false work disk progresses (omega arith)

abbrev clash : SyncPlan
clash = plan_of (Plan.conflict (codes "a") skip ∷ [])

abbrev site : Site host
site = record {
  load = λ w. w.catalog;
  save = λ s w. record w { catalog = s };
  scan_remote = λ w. ok w.remote;
  scan_local = λ w. ok w.local;
  modified = λ p w. 7;
  order = all_paths;
  now = λ w. 0;
}

abbrev config : SyncConfig
config = record {
  backend_name = codes "box";
  watch_dir = codes "/w";
  policy = record { mode = two_way };
  conflict_policy = rename_local;
  registry = [];
  dry_run = false;
}

failed_upload_deletes_example :
    (w' : Disk) × (sync_bidirectional host site 4 config disk ≡ some (ok tt, w'))
    × (p : SyncPlan) × (plan_sync host site config w' ≡ ok (some p))
    × In (Plan.delete_local (path_join (codes "/w") (codes "a"))) p.actions
unfolding get upload_file text_eq
failed_upload_deletes_example =
    failed_upload_deletes host site config 4 disk (codes "a") item (connection_failed [])
      (λ i p e. e) refl refl refl refl refl refl (λ s. refl) (λ s. refl) (λ s. refl)
