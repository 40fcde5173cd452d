-- ===== src/Providers/LocalSim/Sessions.antt =====
-- The upload sessions of crates/cloud_sync_lib/src/providers/local_sim.rs under the executor of
-- crates/cloud_sync_daemon/src/engine/executor.rs.
use mathlib.Core.Path.{subst}
use cloud_sync_lib.Base.{
  refl, Bool, max, ◌≤◌, ◌<◌, ◌+◌, ap, Option, some, ℕ, ◌-◌, ◌≡◌, false, arith,
}
use cloud_sync_lib.Providers.LocalSim.{
  and_then, lift, Disk, resolve, start_resumable_upload, sim_host, SimSession, is_complete,
  next_chunk,
}
use cloud_sync_lib.Base.Lists.{length}
use cloud_sync_lib.Base.Text.{Text}
use cloud_sync_lib.Storage.Errors.{Foreign, StorageError, Result, ok, err}
use cloud_sync_lib.Engine.Plan.{SyncPlan}
use cloud_sync_lib.Engine.Versioning.{VersioningConfig}
use cloud_sync_lib.Engine.Executor.{Progress, execute}
use cloud_sync_lib.Engine.Executor.Chunks.{Progresses}
use cloud_sync_lib.Engine.Executor.Counts.{execute_total}

abbrev pub left : SimSession → ℕ
left s = s.total_bytes - s.uploaded_bytes

left-next_chunk :
    (s : SimSession) → 0 < s.chunk_size → is_complete s ≡ false → left (next_chunk s) < left s
unfolding next_chunk is_complete
left-next_chunk s h o = ground (arith, h, o)

chunk_size-next_chunk : (s : SimSession) → (next_chunk s).chunk_size ≡ s.chunk_size
unfolding next_chunk is_complete
chunk_size-next_chunk s = ground arith

module _ {F : Foreign} {W : Type 0} (disk : Disk F W) (root_dir : Text)
    (set_permissions : Text → ℕ → W → Bool × W) (timestamp : W → Text) where
  abbrev IsSmall : ℕ → Type 0
  IsSmall most = (l : Text) (w w' : W) (n : ℕ) → disk.len_of l w ≡ (ok n, w') → n ≤ most

  abbrev session_or : SimSession → Result (StorageError F) SimSession × W → SimSession
  session_or d (ok s, w) = s
  session_or d (err e, w) = d

  abbrev new_session : Text → Text → ℕ → ℕ → SimSession
  new_session l r chunk n = record {
    local_path = l;
    dest_path = resolve disk root_dir r;
    total_bytes = n;
    uploaded_bytes = 0;
    chunk_size = max chunk 1024;
  }

  abbrev started : Text → Text → ℕ → Result F.IoError ℕ × W → Result (StorageError F) SimSession × W
  started l r chunk x = and_then (lift x) (λ n w. (ok (new_session l r chunk n), w))

  -- What a session starts with, by the answer to the question for the length.
  started_within :
      (most : ℕ) (l r : Text) (chunk : ℕ) (s : SimSession) (w w' w1 : W) (x : Result F.IoError ℕ)
      → IsSmall most
      → disk.len_of l w ≡ (x, w1)
      → started l r chunk (x, w1) ≡ (ok s, w')
      → (left s ≤ most) × (0 < s.chunk_size)
  started_within most l r chunk s w w' w1 (ok n) small given e =
      let within : n ≤ most = small l w w1 n given in
      subst (λ t. (left t ≤ most) × (0 < t.chunk_size)) (ap (session_or s) e)
        (omega (arith, within), omega arith)
  started_within most l r chunk s w w' w1 (err x) small given e = cc

  sim_host-Progresses :
      (most : ℕ) → IsSmall most → Progresses (sim_host disk root_dir set_permissions timestamp) most
  unfolding sim_host start_resumable_upload
  sim_host-Progresses most small = record {
    left = left;
    IsValid = λ s. 0 < s.chunk_size;
    falls = λ s s' w w' v o e.
        subst (λ t. left t < left s) (ap (session_or s) e) (left-next_chunk s v o);
    stays = λ s s' w w' v o e.
        subst (λ t. 0 < t.chunk_size) (ap (session_or s) e)
          (omega (arith, v, chunk_size-next_chunk s));
    starts = λ l r chunk s w w' e.
        started_within most l r chunk s w w' (disk.len_of l w).1 (disk.len_of l w).0 small refl e;
  }

  -- The sessions of the simulation keep the contract that the executor relies on. So every plan is
  -- executed over the simulation with more fuel than the largest local file has bytes, and each of
  -- its actions is counted once, as executed or as failed.
  pub simulation_executes :
      (most fuel : ℕ) (trash : Option VersioningConfig) (dry_run : Bool) (plan : SyncPlan)
      (w : (sim_host disk root_dir set_permissions timestamp).World)
      → ((l : Text) (w1 w2 : W) (n : ℕ) → disk.len_of l w1 ≡ (ok n, w2) → n ≤ most)
      → most < fuel
      → (g : Progress (sim_host disk root_dir set_permissions timestamp)) × (execute
            (sim_host disk root_dir set_permissions timestamp)
            fuel
            plan
            trash
            dry_run
            w
          ≡ some g)
        × (g.counters.executed_actions + g.counters.failed_actions ≡ length plan.actions)
  unfolding sim_host
  simulation_executes most fuel trash dry_run plan w small m =
      execute_total (sim_host disk root_dir set_permissions timestamp) most fuel trash dry_run plan
        w (sim_host-Progresses most small) m
