-- ===== src/Engine/Orchestrator/Lost.antt =====
-- What `sync_bidirectional` of crates/cloud_sync_daemon/src/engine/orchestrator.rs does with a file
-- whose upload fails: the catalog says that it was synchronised.
use cloud_sync_lib.Base.{Bool, ℕ, ◌≡◌, refl, ap, ◌∙◌, false, none, some, [], ◌∷◌, arith, inl}
use cloud_sync_lib.Base.Text.{Text, path_join, text_eq_refl}
use cloud_sync_lib.Base.Lists.{In}
use cloud_sync_lib.Base.Dict.{Dict, get, insert, remove, get-insert_self}
use cloud_sync_lib.Storage.Errors.{Foreign, StorageError, ok, err}
use cloud_sync_lib.Storage.Policy.{two_way}
use cloud_sync_lib.Storage.State.{FileState, SyncState}
use cloud_sync_lib.Engine.Plan
use cloud_sync_lib.Engine.Plan.{SyncAction, SyncPlan, new_plan, add_action}
use cloud_sync_lib.Engine.Scanner.{ScannedItem}
use cloud_sync_lib.Engine.Host.{Host}
use cloud_sync_lib.Engine.Planner.{
  PlanInput, all_paths, plan, visit_all, visit, visit_entry, finish_plan, detects_moves,
  add_additions, addition_of,
}
use cloud_sync_lib.Engine.Planner.Finish.{plan_total}
use cloud_sync_lib.Engine.Planner.Safety.{plan-deletes_edited}
use cloud_sync_lib.Engine.Executor.{
  failed_one, no_result, Progress, upload_file, execute, execute_loop, execute_one, execute_action,
}
use cloud_sync_lib.Engine.Orchestrator.{
  Planned, run_plan, finish_sync, Site, SyncConfig, recorded, record_action, record_actions,
  plan_input, plan_sync, record_plan, sync_bidirectional,
}

-- The plan for one path that only the local tree has.
abbrev upload_plan : PlanInput → Text → ℕ → SyncPlan
upload_plan i q size =
    add_action (new_plan i.backend_name i.now) (Plan.upload (path_join i.watch_dir q) q size)

plan-upload_plan :
    (i : PlanInput) (q : Text) (l : ScannedItem)
    → get q i.local_tree ≡ some l
    → get q i.remote_tree ≡ none
    → get q i.base_state.files ≡ none
    → plan i (q ∷ []) ≡ some (upload_plan i q l.size)
unfolding plan visit_all visit visit_entry finish_plan detects_moves addition_of add_additions
plan-upload_plan i q l hl hr hs = ground arith

get_only : (q : Text) (l : ScannedItem) → get q ((q, l) ∷ []) ≡ some l
unfolding get
get_only q l = rw text_eq_refl refl

insert_first : (q : Text) (v : FileState) (m : Dict FileState) → m ≡ [] → insert q v m ≡ (q, v) ∷ []
unfolding insert remove
insert_first q v m e = rw e refl

-- The walked paths when one path is all there is, not known yet or known.
all_paths_new :
    (q : Text) (l : ScannedItem) (i : PlanInput)
    → i.local_tree ≡ (q, l) ∷ []
    → i.remote_tree ≡ []
    → i.base_state.files ≡ []
    → all_paths i ≡ q ∷ []
unfolding all_paths
all_paths_new q l i a b c = rw (a, b, c) refl

all_paths_known :
    (q : Text) (l : ScannedItem) (v : FileState) (i : PlanInput)
    → i.local_tree ≡ (q, l) ∷ []
    → i.remote_tree ≡ []
    → i.base_state.files ≡ (q, v) ∷ []
    → all_paths i ≡ q ∷ []
unfolding all_paths
all_paths_known q l v i a b c = rw (a, b, c) (rw text_eq_refl refl)

module _ {F : Foreign} (h : Host F) (site : Site h) where
  -- The execution of that plan when its upload fails and changes nothing.
  execute-upload_plan :
      (fuel : ℕ) (i : PlanInput) (q : Text) (size : ℕ) (w : h.World) (e : StorageError F)
      → upload_file h fuel (path_join i.watch_dir q) q size w ≡ some (err e, w)
      → (g : Progress h) × (execute h fuel (upload_plan i q size) none false w ≡ some g)
        × (g.world ≡ w)
  unfolding execute execute_loop execute_one execute_action add_action new_plan
  execute-upload_plan fuel i q size w e u =
      (record { counters = failed_one no_result; world = w }, rw (u, execute_loop) refl, refl)

  plan_sync_lem :
      (c : SyncConfig) (w : h.World) (q : Text) (local remote : Dict ScannedItem)
      → site.scan_local w ≡ ok local
      → site.scan_remote w ≡ ok remote
      → site.order (plan_input h site c local remote (site.load w) w) ≡ q ∷ []
      → plan_sync h site c w ≡ ok (plan (plan_input h site c local remote (site.load w) w) (q ∷ []))
  unfolding plan_sync
  plan_sync_lem c w q local remote sl sr order =
      rw (sr, sl) (ap (λ ps. ok (plan (plan_input h site c local remote (site.load w) w) ps)) order)

  -- The catalog after the failed upload.
  abbrev wrong_catalog : SyncConfig → h.World → Text → ScannedItem → SyncState
  wrong_catalog c w q l = record {
    files =
        insert q (recorded l.size (site.modified (path_join c.watch_dir q) w) none none)
          (site.load w).files;
  }

  record-upload_plan :
      (c : SyncConfig) (w : h.World) (q : Text) (l : ScannedItem) (local remote : Dict ScannedItem)
      → c.dry_run ≡ false
      → record_plan h site c
          (upload_plan (plan_input h site c local remote (site.load w) w) q l.size)
          w
        ≡ site.save (wrong_catalog c w q l) w
  unfolding record_plan record_actions record_action add_action new_plan plan_input
  record-upload_plan c w q l local remote real = rw real refl

  first_sync :
      (c : SyncConfig) (fuel : ℕ) (w : h.World) (q : Text) (l : ScannedItem)
      (local remote : Dict ScannedItem) (e : StorageError F)
      → c.dry_run ≡ false
      → plan_sync h site c w
        ≡ ok (some (upload_plan (plan_input h site c local remote (site.load w) w) q l.size))
      → upload_file h fuel (path_join c.watch_dir q) q l.size w ≡ some (err e, w)
      → sync_bidirectional h site fuel c w ≡ some (ok tt, site.save (wrong_catalog c w q l) w)
  unfolding sync_bidirectional plan_input
  first_sync c fuel w q l local remote e real planned fails =
      let i : PlanInput = plan_input h site c local remote (site.load w) w in
      let (g, eg, ew) = execute-upload_plan fuel i q l.size w e fails in
      let p : SyncPlan = upload_plan i q l.size in
      let ran : execute h fuel p none c.dry_run w ≡ some g =
        ap (λ (d : Bool). execute h fuel p none d w) real ∙ eg in
      ap (λ (x : Planned h site). run_plan h site fuel c x w) planned
      ∙ ap (finish_sync h site c p) ran
      ∙ ap (λ (x : h.World). some (ok tt, record_plan h site c p x)) ew
      ∙ ap (λ (x : h.World). some (ok tt, x)) (record-upload_plan c w q l local remote real)

  -- The walk goes over the paths of the three trees: when these are one path, it is the walk.
  abbrev pub WalksOnly : Type 0
  WalksOnly = (i : PlanInput) (p : Text) → all_paths i ≡ p ∷ [] → site.order i ≡ p ∷ []

  -- Let a file be new in the watched directory, of a two-way connection, and be all there is on both
  -- sides and in the catalog. If its upload fails, the synchronisation reports success, and the next
  -- one, in which the trees are the same, plans to delete the file from the watched directory.
  pub failed_upload_deletes :
      (c : SyncConfig) (fuel : ℕ) (w : h.World) (q : Text) (l : ScannedItem) (e : StorageError F)
      → WalksOnly
      → c.policy.mode ≡ two_way
      → c.dry_run ≡ false
      → site.scan_local w ≡ ok ((q, l) ∷ [])
      → site.scan_remote w ≡ ok []
      → (site.load w).files ≡ []
      → upload_file h fuel (path_join c.watch_dir q) q l.size w ≡ some (err e, w)
      → ((s : SyncState) → site.load (site.save s w) ≡ s)
      → ((s : SyncState) → site.scan_local (site.save s w) ≡ site.scan_local w)
      → ((s : SyncState) → site.scan_remote (site.save s w) ≡ site.scan_remote w)
      → (w' : h.World) × (sync_bidirectional h site fuel c w ≡ some (ok tt, w'))
        × (p : SyncPlan) × (plan_sync h site c w' ≡ ok (some p))
        × In (Plan.delete_local (path_join c.watch_dir q)) p.actions
  failed_upload_deletes c fuel w q l e walks two real sl sr none_known fails loads keeps_l keeps_r =
      let local : Dict ScannedItem = (q, l) ∷ [] in
      let remote : Dict ScannedItem = [] in
      let hl : get q local ≡ some l = get_only q l in
      let hr : get q remote ≡ none = unfold get in refl in
      let hs : get q (site.load w).files ≡ none = rw none_known (unfold get in refl) in
      let i : PlanInput = plan_input h site c local remote (site.load w) w in
      let s : SyncState = wrong_catalog c w q l in
      let w' : h.World = site.save s w in
      let i' : PlanInput = plan_input h site c local remote (site.load w') w' in
      let order : site.order i ≡ q ∷ [] =
        walks i q (unfold plan_input in all_paths_new q l i refl refl none_known) in
      let v : FileState = recorded l.size (site.modified (path_join c.watch_dir q) w) none none in
      let order' : site.order i' ≡ q ∷ [] = walks i' q (
        unfold plan_input in
        all_paths_known q l (recorded l.size (site.modified (path_join c.watch_dir q) w) none none)
          i' refl refl
          (ap (λ t. t.files) (loads s) ∙ insert_first q v (site.load w).files none_known)) in
      let (p', planned') = plan_total i' (q ∷ []) in
      let planned : plan_sync h site c w ≡ ok (some (upload_plan i q l.size)) =
        plan_sync_lem c w q local remote sl sr order
        ∙ ap ok (unfold plan_input in plan-upload_plan i q l hl hr hs) in
      (
        w',
        first_sync c fuel w q l local remote e real planned fails,
        p',
        plan_sync_lem c w' q local remote (keeps_l s ∙ sl) (keeps_r s ∙ sr) order' ∙ ap ok planned',
        unfold plan_input in
            plan-deletes_edited i' q l
              (recorded l.size (site.modified (path_join c.watch_dir q) w) none none) (q ∷ []) p'
              two hl hr (rw (loads s) (get-insert_self q _ (site.load w).files)) (inl refl)
              planned',
      )
