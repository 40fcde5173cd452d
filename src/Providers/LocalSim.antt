-- ===== src/Providers/LocalSim.antt =====
-- `LocalSimulation` of crates/cloud_sync_lib/src/providers/local_sim.rs: a directory that stands in for
-- a remote storage. The file system is `Disk`, the rate limiters are part of its copies.
pub mod Sessions
pub mod Examples
use cloud_sync_lib.Engine.Host.{Host}
use cloud_sync_lib.Base.{
  ℕ, ◌+◌, ◌-◌, min, max, Bool, true, false, Option, none, some, List, [], ◌∷◌, ◌^◌, map, ◌++◌, leb,
  if◌then◌else◌,
}
use cloud_sync_lib.Base.Text.{Text, codes, trim, trim_start, path_join, parent, strip_prefix}
use cloud_sync_lib.Base.Lists.{is_empty}
use cloud_sync_lib.Storage.Capabilities
use cloud_sync_lib.Storage.Capabilities.{StorageCapabilities, insert_capability}
use cloud_sync_lib.Storage.Errors.{Foreign, StorageError, Result, ok, err, io, not_found}
use cloud_sync_lib.Engine.Scanner.{StorageItem}
use cloud_sync_lib.Providers.Backend.{Backend, Call}

-- An entry of a directory; the time is that of the call, if there is none.
pub record SimEntry : Type 0 where
  pub path : Text
  pub len : ℕ
  pub modified : ℕ
  pub is_dir : Bool
  pub permissions : Option ℕ

module _ (F : Foreign) (W : Type 0) where
  abbrev pub IoCall : Type 0 → Type 0
  IoCall A = W → Result F.IoError A × W

  pub record Disk : Type 0 where
    pub exists : Text → W → Bool
    pub is_dir : Text → W → Bool
    pub create_dir_all : Text → IoCall (Unit {0})
    pub copy_upload : Text → Text → IoCall (Unit {0})
    pub copy_download : Text → Text → IoCall (Unit {0})
    pub copy_file : Text → Text → IoCall (Unit {0})
    pub rename_file : Text → Text → IoCall (Unit {0})
    pub remove_dir_all : Text → IoCall (Unit {0})
    pub remove_file : Text → IoCall (Unit {0})
    pub read_dir : Text → IoCall (List SimEntry)
    pub len_of : Text → IoCall ℕ
    -- the errors of these are dropped
    pub compute_sha256 : Text → W → Option Text
    pub copy_modified : Text → Text → W → W
    pub copy_permissions : Text → Text → W → W

pub record SimSession : Type 0 where
  pub local_path : Text
  pub dest_path : Text
  pub total_bytes : ℕ
  pub uploaded_bytes : ℕ
  pub chunk_size : ℕ

unfoldable pub is_complete : SimSession → Bool
is_complete s = leb s.total_bytes s.uploaded_bytes

abbrev pub sim_capabilities : StorageCapabilities
sim_capabilities =
    insert_capability
      (insert_capability
        (insert_capability Capabilities.server_side_move Capabilities.server_side_copy)
        Capabilities.resumable_upload)
      (record { bits = 2 ^ 6 })

module _ {F : Foreign} {W : Type 0} where
  -- The `?` operator, on results of the storage and of the file system.
  abbrev and_then :
      {A B : Type 0}
      → Result (StorageError F) A × W
      → (A → Call F W B)
      → Result (StorageError F) B × W
  and_then (ok a, w) k = k a w
  and_then (err e, w) k = (err e, w)

  abbrev lift : {A : Type 0} → Result F.IoError A × W → Result (StorageError F) A × W
  lift (ok a, w) = (ok a, w)
  lift (err e, w) = (err (io e), w)

  abbrev create_parent : Disk F W → Option Text → Call F W (Unit {0})
  create_parent disk none w = (ok tt, w)
  create_parent disk (some dir) w = lift (disk.create_dir_all dir w)

-- What the simulated session answers to `upload_next_chunk`.
unfoldable pub next_chunk : SimSession → SimSession
unfolding is_complete
next_chunk s = if is_complete s then s else record s {
  uploaded_bytes = s.uploaded_bytes + min s.chunk_size (s.total_bytes - s.uploaded_bytes);
}

module _ {F : Foreign} {W : Type 0} (disk : Disk F W) (root_dir : Text) where
  unfoldable pub resolve : Text → Text
  unfolding trim_start path_join
  resolve remote_path = path_join root_dir (trim_start b'/' remote_path)

  unfoldable pub upload : Text → Text → Call F W (Unit {0})
  unfolding resolve parent
  upload local_path remote_path w =
      let destination = resolve remote_path in
      and_then (create_parent disk (parent destination) w) (λ u w1.
        and_then (lift (disk.copy_upload local_path destination w1)) (λ u' w2. (
          ok tt,
          disk.copy_permissions local_path destination
              (disk.copy_modified local_path destination w2),
        )))

  unfoldable pub download : Text → Text → Call F W (Unit {0})
  unfolding resolve parent
  download remote_path local_path w =
      let source = resolve remote_path in
      if disk.exists source w
      then and_then (create_parent disk (parent local_path) w) (λ u w1.
        and_then (lift (disk.copy_download source local_path w1))
          (λ u' w2. (ok tt, disk.copy_permissions source local_path w2)))
      else (err (not_found remote_path), w)

  unfoldable pub delete : Text → Call F W (Unit {0})
  unfolding resolve
  delete remote_path w =
      let target = resolve remote_path in
      if disk.exists target w
      then lift
          (if disk.is_dir target w then disk.remove_dir_all target w else disk.remove_file target w)
      else (err (not_found remote_path), w)

  unfoldable pub create_folder : Text → Call F W (Unit {0})
  unfolding resolve
  create_folder remote_path w = lift (disk.create_dir_all (resolve remote_path) w)

  -- `copy` and `rename` differ in the last call only.
  abbrev transfer : (Text → Text → IoCall F W (Unit {0})) → Text → Text → Call F W (Unit {0})
  transfer call from to w =
      if disk.exists (resolve from) w
      then and_then (create_parent disk (parent (resolve to)) w)
          (λ u w1. lift (call (resolve from) (resolve to) w1))
      else (err (not_found from), w)

  unfoldable pub copy : Text → Text → Call F W (Unit {0})
  unfolding resolve parent
  copy = transfer disk.copy_file

  unfoldable pub rename : Text → Text → Call F W (Unit {0})
  unfolding resolve parent
  rename = transfer disk.rename_file

  abbrev relative : Text → Option Text → Text
  relative path none = path
  relative path (some rel) = rel

  abbrev item_of : W → SimEntry → StorageItem
  item_of w entry = record {
    path = relative entry.path (strip_prefix entry.path root_dir);
    size = entry.len;
    modified = entry.modified;
    is_dir = entry.is_dir;
    checksum = if entry.is_dir then none else disk.compute_sha256 entry.path w;
    permissions = entry.permissions;
  }

  abbrev read_items : Text → Call F W (List StorageItem)
  read_items target w =
      and_then (lift (disk.read_dir target w)) (λ entries w'. (ok (map (item_of w') entries), w'))

  -- A root that is not there is made, whether or not that works.
  unfoldable pub list : Text → Call F W (List StorageItem)
  unfolding resolve strip_prefix trim
  list remote_path w =
      let target = resolve remote_path in
      if disk.exists target w
      then read_items target w
      else if is_empty (trim b'/' remote_path)
      then read_items target (disk.create_dir_all target w).1
      else (err (not_found remote_path), w)

  unfoldable pub start_resumable_upload : Text → Text → ℕ → Call F W SimSession
  unfolding resolve
  start_resumable_upload local_path remote_path chunk_size w =
      and_then (lift (disk.len_of local_path w)) (λ len w'. (
        ok (record {
          local_path = local_path;
          dest_path = resolve remote_path;
          total_bytes = len;
          uploaded_bytes = 0;
          chunk_size = max chunk_size 1024;
        }),
        w',
      ))

  -- The file is copied at the end, whatever was counted before.
  unfoldable pub finish : SimSession → Call F W (Option Text)
  unfolding parent
  finish s w = and_then (create_parent disk (parent s.dest_path) w) (λ u w1.
      and_then (lift (disk.copy_file s.local_path s.dest_path w1))
        (λ u' w2. (ok (disk.compute_sha256 s.dest_path w2), w2)))

  unfoldable pub sim_backend : Backend F W SimSession
  unfolding upload download delete list create_folder rename copy start_resumable_upload
  sim_backend = record {
    capabilities = sim_capabilities;
    upload = upload;
    download = download;
    delete = delete;
    list = list;
    create_folder = create_folder;
    rename = rename;
    copy = copy;
    start_resumable_upload = start_resumable_upload;
    get_latest_cursor = λ w. (ok none, w);
    fetch_changes = λ c w. (ok none, w);
    compute_local_checksum = λ l w. (ok (disk.compute_sha256 l w), w);
    is_simulated = λ w. true;
    simulation_reason = λ w. some (codes "Local directory simulation (" ++ root_dir ++ codes ")");
  }

  -- The executor over the simulation, with the same file system for the local side.
  abbrev succeeded : Result F.IoError (Unit {0}) × W → Bool × W
  succeeded (ok u, w) = (true, w)
  succeeded (err e, w) = (false, w)

  unfoldable pub sim_host : (Text → ℕ → W → Bool × W) → (W → Text) → Host F
  unfolding is_complete next_chunk start_resumable_upload finish upload download delete rename copy
  sim_host set_permissions timestamp = record {
    World = W;
    Session = SimSession;
    capabilities = sim_capabilities;
    upload = upload;
    download = download;
    delete = delete;
    rename = rename;
    copy = copy;
    start_resumable_upload = start_resumable_upload;
    is_complete = is_complete;
    upload_next_chunk = λ s w. (ok (next_chunk s), w);
    finish = finish;
    exists = disk.exists;
    is_dir = disk.is_dir;
    create_dir_all = λ p w. succeeded (disk.create_dir_all p w);
    copy_file = λ from to w. succeeded (disk.copy_file from to w);
    remove_file = λ p w. succeeded (disk.remove_file p w);
    remove_dir_all = λ p w. succeeded (disk.remove_dir_all p w);
    set_permissions = set_permissions;
    timestamp = timestamp;
  }
