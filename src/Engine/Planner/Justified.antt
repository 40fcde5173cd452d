-- ===== src/Engine/Planner/Justified.antt =====
-- Every action of a plan of crates/cloud_sync_daemon/src/engine/planner.rs has its evidence.
use mathlib.Core.Path.{subst}
use cloud_sync_lib.Base.{◌≡◌, refl, ap, inl, inr, true, some, List, [], ◌∷◌, ◌++◌, map}
use cloud_sync_lib.Base.Text.{Text}
use cloud_sync_lib.Base.Lists.{All, All-append, All-mono, All-at}
use cloud_sync_lib.Storage.Capabilities
use cloud_sync_lib.Storage.Capabilities.{has_capability}
use cloud_sync_lib.Engine.Plan.{SyncPlan, new_plan}
use cloud_sync_lib.Engine.Rename.{CandidateItem, DetectedMove, Detection}
use cloud_sync_lib.Engine.Rename.Take.{Items}
use cloud_sync_lib.Engine.Rename.Detected.{IsJustified, justified}
use cloud_sync_lib.Engine.Planner.{PlanInput, addition_of, upload_of, plan}
use cloud_sync_lib.Engine.Planner.Outcome.{Outcome, acts, adds, dels, outcome}
use cloud_sync_lib.Engine.Planner.Steps.{
  add_all, acted, added, deleted, settled, additions, deletions, actions-add_all,
}
use cloud_sync_lib.Engine.Planner.Finish.{
  finishing, move_action, delete_action, Settles, plan-add_all,
}
use cloud_sync_lib.Engine.Planner.Evidence.{
  Explains, IsEvident, IsLocallyAdded, IsLocallyDeleted, local_new, locally_deleted, renamed,
  outcome-Explains,
}

module _ (i : PlanInput) where
  acted-IsEvident : (p : Text) (o : Outcome) → Explains i p o → All (IsEvident i) (acted o)
  acted-IsEvident p (acts a) h = (h, tt)
  acted-IsEvident p (adds c) h = tt
  acted-IsEvident p _ h = tt

  added-explained :
      (p : Text) (o : Outcome) → Explains i p o → All (λ c. IsLocallyAdded i c.rel_path) (added o)
  added-explained p (adds c) h = (h, tt)
  added-explained p (acts a) h = tt
  added-explained p _ h = tt

  deleted-explained :
      (p : Text) (o : Outcome)
      → Explains i p o
      → All (λ c. IsLocallyDeleted i c.rel_path) (deleted o)
  deleted-explained p (dels c) h = (h, tt)
  deleted-explained p (acts a) h = tt
  deleted-explained p _ h = tt

  settled-IsEvident : (ps : List Text) → All (IsEvident i) (settled i ps)
  unfolding settled
  settled-IsEvident [] = tt
  settled-IsEvident (p ∷ ps) =
      All-append _ (acted (outcome i p)) (settled i ps)
        (acted-IsEvident p (outcome i p) (outcome-Explains i p)) (settled-IsEvident ps)

  additions-explained : (ps : List Text) → All (λ c. IsLocallyAdded i c.rel_path) (additions i ps)
  unfolding additions
  additions-explained [] = tt
  additions-explained (p ∷ ps) =
      All-append _ (added (outcome i p)) (additions i ps)
        (added-explained p (outcome i p) (outcome-Explains i p)) (additions-explained ps)

  deletions-explained : (ps : List Text) → All (λ c. IsLocallyDeleted i c.rel_path) (deletions i ps)
  unfolding deletions
  deletions-explained [] = tt
  deletions-explained (p ∷ ps) =
      All-append _ (deleted (outcome i p)) (deletions i ps)
        (deleted-explained p (outcome i p) (outcome-Explains i p)) (deletions-explained ps)

  addition_of-upload_of :
      (c : CandidateItem) (n : IsLocallyAdded i c.rel_path)
      → addition_of i c ≡ upload_of i c.rel_path n.local
  unfolding addition_of upload_of
  addition_of-upload_of c n = rw n.has_local

  moves-IsEvident :
      (ps : List Text) (ms : List DetectedMove)
      → has_capability i.capabilities Capabilities.server_side_move ≡ true
      → All (IsJustified (deletions i ps) (additions i ps)) ms
      → All (IsEvident i) (map move_action ms)
  moves-IsEvident ps [] can h = tt
  moves-IsEvident ps (m ∷ ms) can h = (one m h.0, moves-IsEvident ps ms can h.1)
    where
      one :
          (m : DetectedMove)
          → IsJustified (deletions i ps) (additions i ps) m
          → IsEvident i (move_action m)
      one m (justified del a in_dels in_adds match e) =
          renamed del.rel_path a.rel_path
            (All-at (λ c. IsLocallyDeleted i c.rel_path) (deletions i ps) (deletions-explained ps)
              in_dels)
            (All-at (λ c. IsLocallyAdded i c.rel_path) (additions i ps) (additions-explained ps)
              in_adds)
            can (ap move_action e)

  deletes-IsEvident :
      (ds : Items)
      → All (λ c. IsLocallyDeleted i c.rel_path) ds
      → All (IsEvident i) (map delete_action ds)
  deletes-IsEvident [] h = tt
  deletes-IsEvident (d ∷ ds) h = (locally_deleted d.rel_path h.0 refl, deletes-IsEvident ds h.1)

  uploads-IsEvident :
      (cs : Items)
      → All (λ c. IsLocallyAdded i c.rel_path) cs
      → All (IsEvident i) (map (addition_of i) cs)
  uploads-IsEvident [] h = tt
  uploads-IsEvident (c ∷ cs) h =
      (local_new c.rel_path h.0 (addition_of-upload_of c h.0), uploads-IsEvident cs h.1)

  maybe_moves-IsEvident :
      (ps : List Text) (d : Detection)
      → Settles i ps d
      → All (IsEvident i) (map move_action d.moves)
  maybe_moves-IsEvident ps d s = elim s.allowed [
    | inl e ↦ rw e tt
    | inr can ↦ moves-IsEvident ps d.moves can s.moved
  ]

  finishing-IsEvident :
      (ps : List Text) (d : Detection) → Settles i ps d → All (IsEvident i) (finishing i d)
  finishing-IsEvident ps d s =
      All-append _ (map move_action d.moves) _ (maybe_moves-IsEvident ps d s) (
        All-append _ (map delete_action d.unmatched_deletions) _
          (deletes-IsEvident d.unmatched_deletions (
            All-mono _ _ d.unmatched_deletions
              (λ c m.
                All-at (λ c. IsLocallyDeleted i c.rel_path) (deletions i ps)
                  (deletions-explained ps) m)
              s.dels_given))
          (uploads-IsEvident d.unmatched_additions (
            All-mono _ _ d.unmatched_additions
              (λ c m.
                All-at (λ c. IsLocallyAdded i c.rel_path) (additions i ps) (additions-explained ps)
                  m)
              s.adds_given)))

  -- Whatever the order in which the paths are walked, every action of the plan is one that the
  -- three trees give a reason for: `IsEvident` lists the reasons, with the lookups, the change
  -- tests and the policy that each needs, and the action in full.
  pub plan-IsEvident :
      (ps : List Text) (p : SyncPlan) → plan i ps ≡ some p → All (IsEvident i) p.actions
  plan-IsEvident ps p e =
      let (d, e0, s) = plan-add_all i ps in
      let acts = settled i ps ++ finishing i d in
      let same : add_all (new_plan i.backend_name i.now) acts ≡ p = cc in
      subst (λ x. All (IsEvident i) x.actions) same
        (rw actions-add_all (
          unfold new_plan in
          All-append _ (settled i ps) (finishing i d) (settled-IsEvident ps)
            (finishing-IsEvident ps d s)))
