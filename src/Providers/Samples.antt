-- ===== src/Providers/Samples.antt =====
-- Test data for the providers: one that refuses the credentials, beside a simulation that has no files.
use cloud_sync_lib.Storage.Policy.{two_way, rename_local}
use cloud_sync_lib.Base.{false, ℕ, true, none, some, [], ◌∷◌}
use cloud_sync_lib.Base.Text.{Text, codes}
use cloud_sync_lib.Storage.Capabilities.{no_capabilities}
use cloud_sync_lib.Storage.Errors
use cloud_sync_lib.Storage.Errors.{Foreign, StorageError, Result, ok, err, is_auth}
use cloud_sync_lib.Storage.State.{FileState}
use cloud_sync_lib.Engine.Conflict.Registry.{with_defaults}
use cloud_sync_lib.Engine.Filter.{FileFilter}
use cloud_sync_lib.Engine.Scanner.{ScannedItem}
use cloud_sync_lib.Engine.Planner.{PlanInput}
use cloud_sync_lib.Providers.Backend.{Backend, Call}
use cloud_sync_lib.Providers.Fallback.{Routed}

abbrev pub foreign : Foreign
foreign = record {
  IoError = Unit;
  HttpError = Unit;
  is_connect = λ e. true;
  is_timeout = λ e. true;
  is_request = λ e. true;
}

abbrev pub expired : StorageError foreign
expired = Errors.authentication_expired (codes "token")

abbrev pub refuses : {A : Type 0} → Call foreign ℕ A
refuses w = (err expired, w)

abbrev pub provider : Backend foreign ℕ (Unit {0})
provider = record {
  capabilities = no_capabilities;
  upload = λ l r. refuses;
  download = λ r l. refuses;
  delete = λ r. refuses;
  list = λ r. refuses;
  create_folder = λ r. refuses;
  rename = λ f t. refuses;
  copy = λ f t. refuses;
  start_resumable_upload = λ l r n. refuses;
  get_latest_cursor = refuses;
  fetch_changes = λ c. refuses;
  compute_local_checksum = λ l. refuses;
  is_simulated = λ w. false;
  simulation_reason = λ w. none;
}

abbrev pub simulation : Backend foreign ℕ (Unit {0})
simulation = record provider { list = λ r w. (ok [], w) }

abbrev pub show : StorageError foreign → Text
show e = codes "expired"

abbrev pub start : Routed ℕ
start = record { fallback_reason = none; world = 0 }

abbrev pub everything : FileFilter
everything = record {
  is_ignored = λ path is_dir. false;
  selective_sync = none;
  min_size = none;
  max_size = none;
}

abbrev pub item : ScannedItem
item = record { size = 3; modified = 10; is_dir = false; checksum = none; permissions = none }

abbrev pub known : FileState
known = record {
  size = 3;
  local_modified = 10;
  remote_modified = 10;
  is_dir = some false;
  checksum = none;
  permissions = none;
}

abbrev pub input : PlanInput
input = record {
  backend_name = codes "box";
  capabilities = no_capabilities;
  watch_dir = codes "/w";
  local_tree = (codes "a", item) ∷ [];
  remote_tree = [];
  base_state = record { files = (codes "a", known) ∷ [] };
  policy = record { mode = two_way };
  conflict_policy = rename_local;
  registry = with_defaults;
  now = 100;
}
