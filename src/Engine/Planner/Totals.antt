-- ===== src/Engine/Planner/Totals.antt =====
-- The totals of a plan of crates/cloud_sync_daemon/src/engine/plan.rs.
use mathlib.Core.Path.{subst}
use cloud_sync_lib.Base.{ℕ, ◌+◌, ◌≡◌, min, some, List, [], ◌∷◌, ◌++◌, arith}
use cloud_sync_lib.Base.Text.{Text}
use cloud_sync_lib.Engine.Plan
use cloud_sync_lib.Engine.Plan.{SyncAction, SyncPlan, u64_max, saturating_add, new_plan, add_action}
use cloud_sync_lib.Engine.Planner.{PlanInput, plan}
use cloud_sync_lib.Engine.Planner.Steps.{add_all, settled}
use cloud_sync_lib.Engine.Planner.Finish.{finishing, plan-add_all}

abbrev pub upload_size : SyncAction → ℕ
upload_size (Plan.upload l r n) = n
upload_size _ = 0

abbrev pub download_size : SyncAction → ℕ
download_size (Plan.download r l n c m) = n
download_size _ = 0

abbrev pub conflict_count : SyncAction → ℕ
conflict_count (Plan.conflict p a) = 1
conflict_count _ = 0

abbrev pub sum_of : (SyncAction → ℕ) → List SyncAction → ℕ
sum_of f [] = 0
sum_of f (a ∷ as') = f a + sum_of f as'

-- Each total is the true sum over the actions, cut off at the largest `u64`.
pub record IsAccounted (p : SyncPlan) : Type 0 where
  pub uploads : p.total_upload_bytes ≡ min (sum_of upload_size p.actions) u64_max
  pub downloads : p.total_download_bytes ≡ min (sum_of download_size p.actions) u64_max
  pub conflicts : p.conflicts_count ≡ min (sum_of conflict_count p.actions) u64_max

sum_of-snoc :
    (f : SyncAction → ℕ) (xs : List SyncAction) (a : SyncAction)
    → sum_of f (xs ++ a ∷ []) ≡ sum_of f xs + f a
sum_of-snoc f [] a = omega arith
sum_of-snoc f (x ∷ xs) a = omega (arith, sum_of-snoc f xs a)

-- Adding an action keeps the totals accounted for.
pub add_action-IsAccounted :
    (p : SyncPlan) (a : SyncAction) → IsAccounted p → IsAccounted (add_action p a)
unfolding add_action saturating_add
add_action-IsAccounted p (Plan.upload l r n) v = record {
  uploads = omega (arith, sum_of-snoc upload_size p.actions (Plan.upload l r n));
  downloads = omega (arith, sum_of-snoc download_size p.actions (Plan.upload l r n));
  conflicts = omega (arith, sum_of-snoc conflict_count p.actions (Plan.upload l r n));
}
add_action-IsAccounted p a v = record {
  uploads = omega (arith, sum_of-snoc upload_size p.actions a);
  downloads = omega (arith, sum_of-snoc download_size p.actions a);
  conflicts = omega (arith, sum_of-snoc conflict_count p.actions a);
}

add_all-IsAccounted :
    (p : SyncPlan) (xs : List SyncAction) → IsAccounted p → IsAccounted (add_all p xs)
unfolding add_all
add_all-IsAccounted p [] v = v
add_all-IsAccounted p (x ∷ xs) v =
    add_all-IsAccounted (add_action p x) xs (add_action-IsAccounted p x v)

new_plan-IsAccounted : (name : Text) (now : ℕ) → IsAccounted (new_plan name now)
unfolding new_plan
new_plan-IsAccounted name now = omega arith

-- The totals of every plan that the planner returns are the sums over its own actions: the upload
-- bytes of its uploads, the download bytes of its downloads, the number of its conflicts.
pub plan-IsAccounted :
    (i : PlanInput) (ps : List Text) (p : SyncPlan) → plan i ps ≡ some p → IsAccounted p
plan-IsAccounted i ps p e =
    let (d, e0, s) = plan-add_all i ps in
    let acts = settled i ps ++ finishing i d in
    let same : add_all (new_plan i.backend_name i.now) acts ≡ p = cc in
    subst IsAccounted same (add_all-IsAccounted _ acts (new_plan-IsAccounted i.backend_name i.now))
