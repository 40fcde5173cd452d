-- ===== src/Providers/Fallback.antt =====
-- `SimulatedFallback` of crates/cloud_sync_lib/src/providers/fallback.rs: calls go to the provider if
-- there is one, and to a local simulation without one or when the provider refuses the credentials.
-- `show` is the text of an error.
pub mod Expired
pub mod Examples
use cloud_sync_lib.Base.{
  ℕ, Bool, true, false, ◌||◌, Option, none, some, List, [], ◌∷◌, ◌++◌, is_some, is_none,
  if◌then◌else◌,
}
use cloud_sync_lib.Base.Text.{Text, codes}
use cloud_sync_lib.Storage.Capabilities.{StorageCapabilities}
use cloud_sync_lib.Storage.Errors.{Foreign, StorageError, Result, ok, err, is_auth}
use cloud_sync_lib.Engine.Scanner.{StorageItem}
use cloud_sync_lib.Providers.Backend.{Backend, Call, RemoteChange}

-- The reason that stands behind the lock, with the world of the two backends.
pub record Routed (W : Type 0) : Type 0 where
  pub fallback_reason : Option Text
  pub world : W

abbrev no_credentials : Text
no_credentials = codes "No cloud credentials configured; using local directory simulation"

module _ {F : Foreign} {W Session : Type 0} (show : StorageError F → Text)
    (inner : Option (Backend F W Session)) (local_sim : Backend F W Session) where
  -- `new`: the reason at the start.
  unfoldable pub new_fallback : W → Routed W
  new_fallback w = record {
    fallback_reason = if is_none inner then some no_credentials else none;
    world = w;
  }

  abbrev simulate : {A : Type 0} → Call F W A → Call F (Routed W) A
  simulate sim g = let (r, w) = sim g.world in (r, record g { world = w })

  -- The `match` on the provider's answer, the same in every routed operation.
  abbrev pub after_inner :
      {A : Type 0} → Result (StorageError F) A → Call F W A → Call F (Routed W) A
  after_inner (ok a) sim g = (ok a, record g { fallback_reason = none })
  after_inner (err e) sim g =
      if is_auth e
      then simulate sim
          (record g { fallback_reason = some (codes "Authentication failed: " ++ show e) })
      else (err e, g)

  abbrev pub route : {A : Type 0} → Option (Call F W A) → Call F W A → Call F (Routed W) A
  route none sim g = simulate sim g
  route (some call) sim g = let (r, w) = call g.world in after_inner r sim (record g { world = w })

  abbrev on_inner :
      {A : Type 0} → (Backend F W Session → A) → Option (Backend F W Session) → Option A
  on_inner f none = none
  on_inner f (some b) = some (f b)

  unfoldable pub upload : Text → Text → Call F (Routed W) (Unit {0})
  unfolding is_auth
  upload l r = route (on_inner (λ b. b.upload l r) inner) (local_sim.upload l r)

  unfoldable pub download : Text → Text → Call F (Routed W) (Unit {0})
  unfolding is_auth
  download r l = route (on_inner (λ b. b.download r l) inner) (local_sim.download r l)

  unfoldable pub delete : Text → Call F (Routed W) (Unit {0})
  unfolding is_auth
  delete r = route (on_inner (λ b. b.delete r) inner) (local_sim.delete r)

  unfoldable pub list : Text → Call F (Routed W) (List StorageItem)
  unfolding is_auth
  list r = route (on_inner (λ b. b.list r) inner) (local_sim.list r)

  unfoldable pub create_folder : Text → Call F (Routed W) (Unit {0})
  unfolding is_auth
  create_folder r = route (on_inner (λ b. b.create_folder r) inner) (local_sim.create_folder r)

  unfoldable pub rename : Text → Text → Call F (Routed W) (Unit {0})
  unfolding is_auth
  rename from to = route (on_inner (λ b. b.rename from to) inner) (local_sim.rename from to)

  unfoldable pub copy : Text → Text → Call F (Routed W) (Unit {0})
  unfolding is_auth
  copy from to = route (on_inner (λ b. b.copy from to) inner) (local_sim.copy from to)

  unfoldable pub get_latest_cursor : Call F (Routed W) (Option Text)
  unfolding is_auth
  get_latest_cursor = route (on_inner (λ b. b.get_latest_cursor) inner) local_sim.get_latest_cursor

  unfoldable pub fetch_changes : Text → Call F (Routed W) (Option (List RemoteChange × Text))
  unfolding is_auth
  fetch_changes c = route (on_inner (λ b. b.fetch_changes c) inner) (local_sim.fetch_changes c)

  abbrev backend_or : Option (Backend F W Session) → Backend F W Session
  backend_or none = local_sim
  backend_or (some b) = b

  unfoldable pub capabilities : StorageCapabilities
  capabilities = (backend_or inner).capabilities

  -- A session is not routed: its refusal is an error, and no reason is kept.
  unfoldable pub start_resumable_upload : Text → Text → ℕ → Call F (Routed W) Session
  start_resumable_upload l r chunk_size =
      simulate ((backend_or inner).start_resumable_upload l r chunk_size)

  unfoldable pub is_simulated : Routed W → Bool
  is_simulated g = is_none inner || is_some g.fallback_reason

  unfoldable pub simulation_reason : Routed W → Option Text
  simulation_reason g = g.fallback_reason

  -- The trait's default, which the wrapper keeps.
  abbrev no_checksum : Call F (Routed W) (Option Text)
  no_checksum g = (ok none, g)

  -- All operations as a backend again.
  unfoldable pub fallback_backend : Backend F (Routed W) Session
  unfolding upload download delete list create_folder rename copy get_latest_cursor fetch_changes
      capabilities start_resumable_upload
  fallback_backend = record {
    capabilities = capabilities;
    upload = upload;
    download = download;
    delete = delete;
    list = list;
    create_folder = create_folder;
    rename = rename;
    copy = copy;
    start_resumable_upload = start_resumable_upload;
    get_latest_cursor = get_latest_cursor;
    fetch_changes = fetch_changes;
    compute_local_checksum = λ l. no_checksum;
    is_simulated = is_simulated;
    simulation_reason = simulation_reason;
  }
