-- ===== src/Engine/Planner/Evidence.antt =====
-- What the three trees must show for an action to be in a plan of
-- crates/cloud_sync_daemon/src/engine/planner.rs.
use cloud_sync_lib.Base.{◌≡◌, refl, inl, inr, true, false, Option, none, some, Bool-cases}
use cloud_sync_lib.Base.Text.{Text, path_join}
use cloud_sync_lib.Base.Dict.{get}
use cloud_sync_lib.Storage.Capabilities
use cloud_sync_lib.Storage.Capabilities.{has_capability}
use cloud_sync_lib.Storage.Policy.{sync_both, sync_deletions}
use cloud_sync_lib.Storage.State.{FileState}
use cloud_sync_lib.Engine.Plan
use cloud_sync_lib.Engine.Plan.{SyncAction, SyncPlan, new_plan}
use cloud_sync_lib.Engine.Scanner.{ScannedItem}
use cloud_sync_lib.Engine.Planner.{PlanInput, local_changed, remote_changed, upload_of, download_of}
use cloud_sync_lib.Engine.Planner.Outcome.{
  Outcome, acts, adds, dels, quiet, outcome, outcome_entry, reconciled,
}

module _ (i : PlanInput) where
  abbrev pub local_of : Text → Option ScannedItem
  local_of p = get p i.local_tree

  abbrev pub remote_of : Text → Option ScannedItem
  remote_of p = get p i.remote_tree

  abbrev pub base_of : Text → Option FileState
  base_of p = get p i.base_state.files

  -- A known path whose local file is gone, in a mode that propagates deletions.
  pub record IsLocallyDeleted (p : Text) : Type 0 where
    pub no_local : local_of p ≡ none
    pub remote : ScannedItem
    pub has_remote : remote_of p ≡ some remote
    pub base : FileState
    pub has_base : base_of p ≡ some base
    pub deletes : sync_deletions i.policy ≡ true

  -- A path that only the local tree has.
  pub record IsLocallyAdded (p : Text) : Type 0 where
    pub local : ScannedItem
    pub has_local : local_of p ≡ some local
    pub no_remote : remote_of p ≡ none
    pub no_base : base_of p ≡ none

  pub data IsEvident (a : SyncAction) : Type 0 where
    local_new : (p : Text) (n : IsLocallyAdded p) → a ≡ upload_of i p n.local → IsEvident a
    local_edit :
        (p : Text) (l r : ScannedItem) (s : FileState)
        → local_of p ≡ some l
        → remote_of p ≡ some r
        → base_of p ≡ some s
        → local_changed l s ≡ true
        → remote_changed r s ≡ false
        → a ≡ upload_of i p l
        → IsEvident a
    remote_restored :
        (p : Text) (l : ScannedItem) (s : FileState)
        → local_of p ≡ some l
        → remote_of p ≡ none
        → base_of p ≡ some s
        → sync_both i.policy ≡ false
        → a ≡ upload_of i p l
        → IsEvident a
    remote_new :
        (p : Text) (r : ScannedItem)
        → local_of p ≡ none
        → remote_of p ≡ some r
        → base_of p ≡ none
        → sync_both i.policy ≡ true
        → a ≡ download_of i p r
        → IsEvident a
    remote_edit :
        (p : Text) (l r : ScannedItem) (s : FileState)
        → local_of p ≡ some l
        → remote_of p ≡ some r
        → base_of p ≡ some s
        → local_changed l s ≡ false
        → remote_changed r s ≡ true
        → sync_both i.policy ≡ true
        → a ≡ download_of i p r
        → IsEvident a
    locally_deleted : (p : Text) → IsLocallyDeleted p → a ≡ Plan.delete_remote p → IsEvident a
    remotely_deleted :
        (p : Text) (l : ScannedItem) (s : FileState)
        → local_of p ≡ some l
        → remote_of p ≡ none
        → base_of p ≡ some s
        → sync_both i.policy ≡ true
        → sync_deletions i.policy ≡ true
        → a ≡ Plan.delete_local (path_join i.watch_dir p)
        → IsEvident a
    both_edited :
        (p : Text) (l r : ScannedItem) (s : FileState)
        → local_of p ≡ some l
        → remote_of p ≡ some r
        → base_of p ≡ some s
        → local_changed l s ≡ true
        → remote_changed r s ≡ true
        → a ≡ reconciled i p l r
        → IsEvident a
    both_added :
        (p : Text) (l r : ScannedItem)
        → local_of p ≡ some l
        → remote_of p ≡ some r
        → base_of p ≡ none
        → a ≡ reconciled i p l r
        → IsEvident a
    renamed :
        (p q : Text)
        → IsLocallyDeleted p
        → IsLocallyAdded q
        → has_capability i.capabilities Capabilities.server_side_move ≡ true
        → a ≡ Plan.server_side_move p q
        → IsEvident a

  abbrev pub Explains : Text → Outcome → Type 0
  Explains p (acts a) = IsEvident a
  Explains p (adds c) = IsLocallyAdded c.rel_path
  Explains p (dels c) = IsLocallyDeleted c.rel_path
  Explains p quiet = Unit

  outcome_entry-Explains :
      (p : Text) (lo ro : Option ScannedItem) (so : Option FileState)
      → local_of p ≡ lo
      → remote_of p ≡ ro
      → base_of p ≡ so
      → Explains p (outcome_entry i p lo ro so)
  unfolding outcome_entry
  outcome_entry-Explains p (some l) (some r) (some s) hl hr hs =
      elim (Bool-cases (local_changed l s)) [
        | inl lc ↦ elim (Bool-cases (remote_changed r s)) [
          | inl rc ↦ rw (lc, rc) (both_edited p l r s hl hr hs lc rc refl)
          | inr rc ↦ rw (lc, rc) (local_edit p l r s hl hr hs lc rc refl)
        ]
        | inr lc ↦ elim (Bool-cases (remote_changed r s)) [
          | inl rc ↦ elim (Bool-cases (sync_both i.policy)) [
            | inl b ↦ rw (lc, rc, b) (remote_edit p l r s hl hr hs lc rc b refl)
            | inr b ↦ rw (lc, rc, b) tt
          ]
          | inr rc ↦ rw (lc, rc) tt
        ]
      ]
  outcome_entry-Explains p (some l) (some r) none hl hr hs = both_added p l r hl hr hs refl
  outcome_entry-Explains p (some l) none (some s) hl hr hs =
      elim (Bool-cases (sync_both i.policy)) [
        | inl b ↦ elim (Bool-cases (sync_deletions i.policy)) [
          | inl d ↦ rw (b, d) (remotely_deleted p l s hl hr hs b d refl)
          | inr d ↦ rw (b, d) tt
        ]
        | inr b ↦ rw b (remote_restored p l s hl hr hs b refl)
      ]
  outcome_entry-Explains p (some l) none none hl hr hs = record {
    local = l;
    has_local = hl;
    no_remote = hr;
    no_base = hs;
  }
  outcome_entry-Explains p none (some r) (some s) hl hr hs =
      elim (Bool-cases (sync_deletions i.policy)) [
        | inl d ↦ rw d (record {
          no_local = hl;
          remote = r;
          has_remote = hr;
          base = s;
          has_base = hs;
          deletes = d;
        })
        | inr d ↦ rw d tt
      ]
  outcome_entry-Explains p none (some r) none hl hr hs = elim (Bool-cases (sync_both i.policy)) [
    | inl b ↦ rw b (remote_new p r hl hr hs b refl)
    | inr b ↦ rw b tt
  ]
  outcome_entry-Explains p none none so hl hr hs = tt

  pub outcome-Explains : (p : Text) → Explains p (outcome i p)
  unfolding outcome
  outcome-Explains p =
      outcome_entry-Explains p (local_of p) (remote_of p) (base_of p) refl refl refl
