-- ===== src/Layers/Metrics.antt =====
-- crates/cloud_sync_lib/src/layers/metrics.rs: a backend that counts its calls. The counters are
-- `AtomicU64`; `file_size` is the length of a local file, if its metadata can be read.
pub mod Observe
pub mod Examples
use cloud_sync_lib.Base.{ℕ, ◌+◌, ◌%◌, ◌^◌, Option, List, [], ◌∷◌, unwrap_or}
use cloud_sync_lib.Base.Text.{Text}
use cloud_sync_lib.Storage.Errors.{Foreign, StorageError, Result, ok, err}
use cloud_sync_lib.Engine.Scanner.{StorageItem}
use cloud_sync_lib.Providers.Backend.{Backend, Call}

pub record StorageMetrics : Type 0 where
  pub upload_bytes : ℕ
  pub download_bytes : ℕ
  pub upload_count : ℕ
  pub download_count : ℕ
  pub delete_count : ℕ
  pub list_count : ℕ
  pub error_count : ℕ

abbrev pub no_metrics : StorageMetrics
no_metrics = record {
  upload_bytes = 0;
  download_bytes = 0;
  upload_count = 0;
  download_count = 0;
  delete_count = 0;
  list_count = 0;
  error_count = 0;
}

-- The world behind the counters.
pub record Metered (W : Type 0) : Type 0 where
  pub metrics : StorageMetrics
  pub inner : W

-- `fetch_add` wraps round.
abbrev pub fetch_add : ℕ → ℕ → ℕ
fetch_add k n = (n + k) % 2 ^ 64

abbrev pub count_uploaded : ℕ → StorageMetrics → StorageMetrics
count_uploaded size m = record m {
  upload_count = fetch_add 1 m.upload_count;
  upload_bytes = fetch_add size m.upload_bytes;
}

abbrev pub count_downloaded : ℕ → StorageMetrics → StorageMetrics
count_downloaded size m = record m {
  download_count = fetch_add 1 m.download_count;
  download_bytes = fetch_add size m.download_bytes;
}

abbrev pub count_deleted : StorageMetrics → StorageMetrics
count_deleted m = record m { delete_count = fetch_add 1 m.delete_count }

abbrev pub count_listed : StorageMetrics → StorageMetrics
count_listed m = record m { list_count = fetch_add 1 m.list_count }

abbrev pub count_error : StorageMetrics → StorageMetrics
count_error m = record m { error_count = fetch_add 1 m.error_count }

-- The counters after a call: what success counts, or an error.
abbrev pub counted_as :
    {F : Foreign} {A : Type 0}
    → (StorageMetrics → StorageMetrics)
    → Result (StorageError F) A
    → StorageMetrics
    → StorageMetrics
counted_as count (ok a) m = count m
counted_as count (err e) m = count_error m

module _ {F : Foreign} {W : Type 0} where
  -- A call that is not counted.
  abbrev pub passed : {A : Type 0} → Call F W A → Call F (Metered W) A
  passed call m = let (r, w) = call m.inner in (r, record m { inner = w })

  -- A counted call; what success counts may depend on the world before and after.
  abbrev pub counted :
      {A : Type 0} → (W → W → StorageMetrics → StorageMetrics) → Call F W A → Call F (Metered W) A
  counted count call m =
      let (r, w) = call m.inner in
      (r, record { metrics = counted_as (count m.inner w) r m.metrics; inner = w })

  unfoldable pub metrics_backend :
      {Session : Type 0}
      → (Text → W → Option ℕ)
      → Backend F W Session
      → Backend F (Metered W) Session
  metrics_backend file_size inner = record {
    capabilities = inner.capabilities;
    upload =
        λ l r. counted (λ w w'. count_uploaded (unwrap_or (file_size l w) 0)) (inner.upload l r);
    download = λ r l.
        counted (λ w w'. count_downloaded (unwrap_or (file_size l w') 0)) (inner.download r l);
    delete = λ r. counted (λ w w'. count_deleted) (inner.delete r);
    list = λ r. counted (λ w w'. count_listed) (inner.list r);
    create_folder = λ r. passed (inner.create_folder r);
    rename = λ a b. passed (inner.rename a b);
    copy = λ a b. passed (inner.copy a b);
    start_resumable_upload = λ l r n. passed (inner.start_resumable_upload l r n);
    get_latest_cursor = passed inner.get_latest_cursor;
    fetch_changes = λ c. passed (inner.fetch_changes c);
    compute_local_checksum = λ l. passed (inner.compute_local_checksum l);
    is_simulated = λ m. inner.is_simulated m.inner;
    simulation_reason = λ m. inner.simulation_reason m.inner;
  }

-- The calls that a client makes.
pub data Operation : Type 0 where
  upload download rename copy : Text → Text → Operation
  delete list create_folder : Text → Operation

-- What a client sees of a call: a listing with its items, or the error.
pub data CallEnd (F : Foreign) : Type 0 where
  done : CallEnd F
  listed : List StorageItem → CallEnd F
  failed : StorageError F → CallEnd F

abbrev pub end_of :
    {F : Foreign} {W A : Type 0} → (A → CallEnd F) → Result (StorageError F) A × W → CallEnd F × W
end_of show (ok a, w) = (show a, w)
end_of show (err e, w) = (failed e, w)

abbrev pub is_done : {F : Foreign} → Unit {0} → CallEnd F
is_done u = done

module _ {F : Foreign} {W Session : Type 0} (b : Backend F W Session) where
  abbrev pub perform : Operation → W → CallEnd F × W
  perform (upload l r) w = end_of is_done (b.upload l r w)
  perform (download r l) w = end_of is_done (b.download r l w)
  perform (rename x y) w = end_of is_done (b.rename x y w)
  perform (copy x y) w = end_of is_done (b.copy x y w)
  perform (delete r) w = end_of is_done (b.delete r w)
  perform (list r) w = end_of listed (b.list r w)
  perform (create_folder r) w = end_of is_done (b.create_folder r w)

  unfoldable pub perform_all : List Operation → W → List (CallEnd F) × W
  perform_all [] w = ([], w)
  perform_all (o ∷ os) w =
      let (e, w1) = perform o w in let (es, w2) = perform_all os w1 in (e ∷ es, w2)
