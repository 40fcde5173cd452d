-- ===== src/Engine/Planner/Touched.antt =====
-- Which local paths an action of crates/cloud_sync_daemon/src/engine/plan.rs is about, and which
-- paths need an action by the three trees alone.
use cloud_sync_lib.Base.{
  ℕ, ◌+◌, ◌≡◌, refl, Bool, true, false, not, ◌&&◌, ◌||◌, Option, none, some, List, [], ◌∷◌, ◌++◌,
  arith, if◌then◌else◌,
}
use cloud_sync_lib.Base.Count.{total, total-append}
use cloud_sync_lib.Base.Text.{Text, path_join}
use cloud_sync_lib.Base.Dict.{get}
use cloud_sync_lib.Storage.Policy.{sync_both, sync_deletions}
use cloud_sync_lib.Storage.State.{FileState}
use cloud_sync_lib.Engine.Plan
use cloud_sync_lib.Engine.Plan.{SyncAction}
use cloud_sync_lib.Engine.Rename.{CandidateItem}
use cloud_sync_lib.Engine.Rename.Take.{paths}
use cloud_sync_lib.Engine.Scanner.{ScannedItem}
use cloud_sync_lib.Engine.Planner.{PlanInput, local_changed, remote_changed, upload_of, download_of}
use cloud_sync_lib.Engine.Planner.Outcome.{Outcome, acts, outcome, outcome_entry, reconciled}
use cloud_sync_lib.Engine.Planner.Steps.{acted, added, deleted, settled, additions, deletions}

-- The local paths of an action; a remote path is one through the watched directory.
abbrev pub touched : Text → SyncAction → List Text
touched w (Plan.upload l r n) = l ∷ []
touched w (Plan.download r l n c m) = l ∷ []
touched w (Plan.server_side_move source target) = path_join w source ∷ path_join w target ∷ []
touched w (Plan.server_side_copy source target) = path_join w source ∷ path_join w target ∷ []
touched w (Plan.delete_local l) = l ∷ []
touched w (Plan.delete_remote r) = path_join w r ∷ []
touched w (Plan.archive_to_trash p remote) = p ∷ []
touched w (Plan.conflict p a) = path_join w p ∷ []
touched w (Plan.converge_state p s) = path_join w p ∷ []

abbrev pub touches : Text → List SyncAction → List Text
touches w [] = []
touches w (a ∷ as') = touched w a ++ touches w as'

pub touches-append :
    (f : Text → ℕ) (w : Text) (xs ys : List SyncAction)
    → total f (touches w (xs ++ ys)) ≡ total f (touches w xs) + total f (touches w ys)
touches-append f w [] ys = omega arith
touches-append f w (x ∷ xs) ys = omega (
  arith,
  touches-append f w xs ys,
  total-append f (touched w x) (touches w xs),
  total-append f (touched w x) (touches w (xs ++ ys)),
)

-- A path needs an action if its copies differ from the base, or one side lacks it, in a way that
-- the mode of synchronisation acts on.
abbrev pub needs_entry :
    (both deletes : Bool) → Option ScannedItem → Option ScannedItem → Option FileState → Bool
needs_entry both deletes (some l) (some r) (some s) =
    local_changed l s || (remote_changed r s && both)
needs_entry both deletes (some l) (some r) none = true
needs_entry both deletes (some l) none (some s) = not both || deletes
needs_entry both deletes (some l) none none = true
needs_entry both deletes none (some r) (some s) = deletes
needs_entry both deletes none (some r) none = both
needs_entry both deletes none none so = false

pub needs : PlanInput → Text → Bool
needs i p =
    needs_entry (sync_both i.policy) (sync_deletions i.policy) (get p i.local_tree)
      (get p i.remote_tree) (get p i.base_state.files)

unfoldable pub concerned : PlanInput → List Text → List Text
unfolding needs
concerned i [] = []
concerned i (p ∷ ps) = let rest = concerned i ps in if needs i p then p ∷ rest else rest

module _ (i : PlanInput) (f : Text → ℕ) where
  abbrev pub local_weight : Text → ℕ
  local_weight p = f (path_join i.watch_dir p)

  abbrev weight : Outcome → ℕ
  weight o =
      total f (touches i.watch_dir (acted o))
      + total local_weight (paths (added o))
      + total local_weight (paths (deleted o))

  reconciled-weight :
      (p : Text) (l r : ScannedItem) → weight (acts (reconciled i p l r)) ≡ local_weight p
  unfolding reconciled
  reconciled-weight p l r = ground arith

  entry-weight :
      (p : Text) (lo ro : Option ScannedItem) (so : Option FileState)
      → weight (outcome_entry i p lo ro so) ≡ (
          if needs_entry (sync_both i.policy) (sync_deletions i.policy) lo ro so
          then local_weight p
          else 0)
  unfolding outcome_entry upload_of download_of
  entry-weight p (some l) (some r) (some s) = ground (arith, reconciled-weight p l r)
  entry-weight p (some l) (some r) none = reconciled-weight p l r
  entry-weight p (some l) none (some s) = ground arith
  entry-weight p (some l) none none = ground arith
  entry-weight p none (some r) (some s) = ground arith
  entry-weight p none (some r) none = ground arith
  entry-weight p none none so = refl

  outcome-weight : (p : Text) → weight (outcome i p) ≡ (if needs i p then local_weight p else 0)
  unfolding outcome needs
  outcome-weight p =
      entry-weight p (get p i.local_tree) (get p i.remote_tree) (get p i.base_state.files)

  paths-total :
      (xs ys : List CandidateItem)
      → total local_weight (paths (xs ++ ys))
        ≡ total local_weight (paths xs) + total local_weight (paths ys)
  paths-total [] ys = omega arith
  paths-total (x ∷ xs) ys = omega (arith, paths-total xs ys)

  concerned-step :
      (p : Text) (ps : List Text)
      → total local_weight (concerned i (p ∷ ps))
        ≡ weight (outcome i p) + total local_weight (concerned i ps)
  unfolding concerned
  concerned-step p ps = ground (arith, outcome-weight p)

  -- The walk gives every path that needs an action one, or makes it a candidate.
  pub concerned-settled :
      (ps : List Text)
      → total local_weight (concerned i ps)
        ≡ total f (touches i.watch_dir (settled i ps))
          + total local_weight (paths (additions i ps))
          + total local_weight (paths (deletions i ps))
  unfolding settled additions deletions
  concerned-settled [] = unfold concerned in omega arith
  concerned-settled (p ∷ ps) = omega (
    arith,
    concerned-step p ps,
    concerned-settled ps,
    touches-append f i.watch_dir (acted (outcome i p)) (settled i ps),
    paths-total (added (outcome i p)) (additions i ps),
    paths-total (deleted (outcome i p)) (deletions i ps),
  )
