-- ===== src/Engine/Planner/Safety.antt =====
-- What the plans of crates/cloud_sync_daemon/src/engine/planner.rs never do under a policy, and
-- what they do to a file that is edited on one side and deleted on the other.
use mathlib.Core.Path.{subst}
use cloud_sync_lib.Base.{
  ◌≡◌, ◌≢◌, ◌⊎◌, Bool-cases, refl, inl, inr, Bool, true, false, none, some, List, [], ◌∷◌, ◌++◌,
}
use cloud_sync_lib.Base.Text.{Text, path_join}
use cloud_sync_lib.Base.Lists.{All, All-mono, In, In-append_left, In-append_right}
use cloud_sync_lib.Base.Dict.{get}
use cloud_sync_lib.Storage.Policy.{
  SyncMode, sync_both, sync_deletions, two_way, one_way, one_way_no_deletions,
}
use cloud_sync_lib.Storage.State.{FileState}
use cloud_sync_lib.Engine.Conflict.{resolve}
use cloud_sync_lib.Engine.Conflict.Registry.{create_conflict_resolver}
use cloud_sync_lib.Engine.Plan
use cloud_sync_lib.Engine.Plan.{SyncAction, SyncPlan, new_plan}
use cloud_sync_lib.Engine.Scanner.{ScannedItem}
use cloud_sync_lib.Engine.Planner.{
  PlanInput, same_content, local_changed, remote_changed, upload_of, download_of, plan,
}
use cloud_sync_lib.Engine.Planner.Outcome.{acts, outcome, outcome_entry, reconciled}
use cloud_sync_lib.Engine.Planner.Steps.{add_all, acted, settled, actions-add_all}
use cloud_sync_lib.Engine.Planner.Finish.{finishing, plan-add_all}
use cloud_sync_lib.Engine.Planner.Evidence.{
  IsEvident, local_new, local_edit, remote_restored, remote_new, remote_edit, locally_deleted,
  remotely_deleted, both_edited, both_added, renamed,
}
use cloud_sync_lib.Engine.Planner.Justified.{plan-IsEvident}

-- Actions that write to the watched directory; a conflict may, by the way in which it is resolved.
abbrev pub writes_local : SyncAction → Bool
writes_local (Plan.download r l n c m) = true
writes_local (Plan.delete_local l) = true
writes_local (Plan.conflict p a) = true
writes_local _ = false

-- The conflict of a path that both trees have, resolved as the configuration says.
pub record IsContested (i : PlanInput) (a : SyncAction) : Type 0 where
  pub path : Text
  pub local : ScannedItem
  pub remote : ScannedItem
  pub local_there : get path i.local_tree ≡ some local
  pub remote_there : get path i.remote_tree ≡ some remote
  pub conflicts :
      a
      ≡ Plan.conflict path (
          resolve
            (create_conflict_resolver i.registry i.conflict_policy)
            path
            local.modified
            remote.modified)

-- Actions after which a path is gone on one side.
abbrev pub removes : SyncAction → Bool
removes (Plan.delete_local l) = true
removes (Plan.delete_remote r) = true
removes (Plan.server_side_move source target) = true
removes _ = false

pub record Respects (i : PlanInput) (a : SyncAction) : Type 0 where
  pub both_ways : writes_local a ≡ true → (i.policy.mode ≡ two_way) ⊎ IsContested i a
  pub deletions : removes a ≡ true → i.policy.mode ≢ one_way_no_deletions

two_way-sync_both : (m : SyncMode) → sync_both (record { mode = m }) ≡ true → m ≡ two_way
unfolding sync_both
two_way-sync_both two_way h = refl
two_way-sync_both one_way h = cc
two_way-sync_both one_way_no_deletions h = cc

deletes-sync_deletions :
    (m : SyncMode) → sync_deletions (record { mode = m }) ≡ true → m ≢ one_way_no_deletions
unfolding sync_deletions
deletes-sync_deletions two_way h = λ e. cc
deletes-sync_deletions one_way h = λ e. cc
deletes-sync_deletions one_way_no_deletions h = λ e. cc

reconciled-Respects :
    (i : PlanInput) (p : Text) (l r : ScannedItem)
    → get p i.local_tree ≡ some l
    → get p i.remote_tree ≡ some r
    → Respects i (reconciled i p l r)
unfolding reconciled
reconciled-Respects i p l r hl hr = elim (Bool-cases (same_content l r)) [
  | inl same ↦ rw same (record { both_ways = λ h. cc; deletions = λ h. cc })
  | inr differ ↦ rw differ (record {
    both_ways = λ h. inr (record {
      path = p;
      local = l;
      remote = r;
      local_there = hl;
      remote_there = hr;
      conflicts = refl;
    });
    deletions = λ h. cc;
  })
]

evident-Respects : (i : PlanInput) (a : SyncAction) → IsEvident i a → Respects i a
unfolding upload_of download_of
evident-Respects i a (local_new p n e) = rw e (record { both_ways = λ h. cc; deletions = λ h. cc })
evident-Respects i a (local_edit p l r s hl hr hs lc rc e) =
    rw e (record { both_ways = λ h. cc; deletions = λ h. cc })
evident-Respects i a (remote_restored p l s hl hr hs b e) =
    rw e (record { both_ways = λ h. cc; deletions = λ h. cc })
evident-Respects i a (remote_new p r hl hr hs b e) =
    rw e (record { both_ways = λ h. inl (two_way-sync_both i.policy.mode b); deletions = λ h. cc })
evident-Respects i a (remote_edit p l r s hl hr hs lc rc b e) =
    rw e (record { both_ways = λ h. inl (two_way-sync_both i.policy.mode b); deletions = λ h. cc })
evident-Respects i a (locally_deleted p n e) = rw e (record {
  both_ways = λ h. cc;
  deletions = λ h. deletes-sync_deletions i.policy.mode n.deletes;
})
evident-Respects i a (remotely_deleted p l s hl hr hs b d e) = rw e (record {
  both_ways = λ h. inl (two_way-sync_both i.policy.mode b);
  deletions = λ h. deletes-sync_deletions i.policy.mode d;
})
evident-Respects i a (both_edited p l r s hl hr hs lc rc e) =
    rw e (reconciled-Respects i p l r hl hr)
evident-Respects i a (both_added p l r hl hr hs e) = rw e (reconciled-Respects i p l r hl hr)
evident-Respects i a (renamed p q n m can e) = rw e (record {
  both_ways = λ h. cc;
  deletions = λ h. deletes-sync_deletions i.policy.mode n.deletes;
})

-- A plan downloads and deletes locally only in the two-way mode; in the other modes the one action
-- that may write to the watched directory is the conflict of a path that both trees have, resolved as
-- the configuration says. A plan removes a path, by a deletion on either side or by a move, in no
-- mode that forbids deletions.
pub plan-Respects :
    (i : PlanInput) (ps : List Text) (p : SyncPlan)
    → plan i ps ≡ some p
    → All (Respects i) p.actions
plan-Respects i ps p e = All-mono _ _ p.actions (evident-Respects i) (plan-IsEvident i ps p e)

settled-In :
    (i : PlanInput) (q : Text) (a : SyncAction) (ps : List Text)
    → outcome i q ≡ acts a
    → In q ps
    → In a (settled i ps)
unfolding settled
settled-In i q a [] h m = absurd m
settled-In i q a (p ∷ ps) h (inl e) =
    In-append_left a (acted (outcome i p)) (settled i ps)
      (subst (λ x. In a (acted (outcome i x))) e (rw h (inl refl)))
settled-In i q a (p ∷ ps) h (inr m) =
    In-append_right a (acted (outcome i p)) (settled i ps) (settled-In i q a ps h m)

pub plan-In :
    (i : PlanInput) (q : Text) (a : SyncAction) (ps : List Text) (p : SyncPlan)
    → outcome i q ≡ acts a
    → In q ps
    → plan i ps ≡ some p
    → In a p.actions
plan-In i q a ps p h m e =
    let (d, e0, s) = plan-add_all i ps in
    let actions = settled i ps ++ finishing i d in
    let same : add_all (new_plan i.backend_name i.now) actions ≡ p = cc in
    subst (λ x. In a x.actions) same
      (rw actions-add_all (
        unfold new_plan in
        In-append_left a (settled i ps) (finishing i d) (settled-In i q a ps h m)))

-- In the two-way mode, a known file whose remote copy is gone is deleted locally, also when it
-- was edited since the last synchronisation: whatever the local item and the base are, the plan
-- holds the deletion.
pub plan-deletes_edited :
    (i : PlanInput) (q : Text) (local : ScannedItem) (base : FileState) (ps : List Text)
    (p : SyncPlan)
    → i.policy.mode ≡ two_way
    → get q i.local_tree ≡ some local
    → get q i.remote_tree ≡ none
    → get q i.base_state.files ≡ some base
    → In q ps
    → plan i ps ≡ some p
    → In (Plan.delete_local (path_join i.watch_dir q)) p.actions
plan-deletes_edited i q local base ps p two hl hr hs m e =
    plan-In i q _ ps p
      (unfold outcome outcome_entry sync_both sync_deletions in rw (hl, hr, hs, two) refl) m e

-- A local edit is never dropped: a path that all three trees have, changed locally and unchanged
-- remotely, is uploaded from the watched directory with its local size.
plan-uploads_edited :
    (i : PlanInput) (q : Text) (local remote : ScannedItem) (base : FileState) (ps : List Text)
    (p : SyncPlan)
    → get q i.local_tree ≡ some local
    → get q i.remote_tree ≡ some remote
    → get q i.base_state.files ≡ some base
    → local_changed local base ≡ true
    → remote_changed remote base ≡ false
    → In q ps
    → plan i ps ≡ some p
    → In (Plan.upload (path_join i.watch_dir q) q local.size) p.actions
plan-uploads_edited i q local remote base ps p hl hr hs lc rc m e =
    plan-In i q _ ps p
      (unfold outcome outcome_entry upload_of in rw (hl, hr, hs) (rw (lc, rc) refl)) m e
