-- ===== src/Providers/LocalSim/Examples.antt =====
-- A disk on which every file has three bytes.
use cloud_sync_lib.Base.{ℕ, ◌+◌, ◌≡◌, Bool, true, false, none, some, [], arith, ap}
use cloud_sync_lib.Base.Text.{Text, codes}
use cloud_sync_lib.Storage.Errors.{Result, ok, err}
use cloud_sync_lib.Engine.Plan
use cloud_sync_lib.Engine.Plan.{SyncPlan, new_plan, add_action}
use cloud_sync_lib.Engine.Executor.{Progress, execute}
use cloud_sync_lib.Providers.Samples.{foreign}
use cloud_sync_lib.Providers.LocalSim.{Disk, IoCall, sim_host}
use cloud_sync_lib.Providers.LocalSim.Sessions.{simulation_executes}

abbrev done : IoCall foreign ℕ (Unit {0})
done w = (ok tt, w + 1)

-- The world counts the calls.
abbrev disk : Disk foreign ℕ
disk = record {
  exists = λ p w. true;
  is_dir = λ p w. false;
  create_dir_all = λ p. done;
  copy_upload = λ from to. done;
  copy_download = λ from to. done;
  copy_file = λ from to. done;
  rename_file = λ from to. done;
  remove_dir_all = λ p. done;
  remove_file = λ p. done;
  read_dir = λ p w. (ok [], w);
  len_of = λ p w. (ok 3, w);
  compute_sha256 = λ p w. none;
  copy_modified = λ from to w. w;
  copy_permissions = λ from to w. w;
}

abbrev allowed : Text → ℕ → ℕ → Bool × ℕ
allowed p mode w = (true, w)

abbrev stamp : ℕ → Text
stamp w = codes "20260101_000000"

abbrev sends : SyncPlan
sends = add_action (new_plan (codes "box") 0) (Plan.upload (codes "/w/a") (codes "a") 9000000)

abbrev length_or : Result (Unit {0}) ℕ → ℕ
length_or (ok n) = n
length_or (err e) = 0

unfoldable start : (sim_host disk (codes "/sim") allowed stamp).World
unfolding sim_host
start = 0

simulation_executes_example :
    (g : Progress (sim_host disk (codes "/sim") allowed stamp)) × (execute
        (sim_host disk (codes "/sim") allowed stamp)
        4
        sends
        none
        false
        start
      ≡ some g)
    × (g.counters.executed_actions + g.counters.failed_actions ≡ 1)
unfolding sim_host add_action new_plan
simulation_executes_example =
    simulation_executes disk (codes "/sim") allowed stamp 3 4 none false sends start
      (λ l w1 w2 n e. omega (arith, ap (λ x. length_or x.0) e)) (omega arith)
