-- ===== src/Daemon/Watcher/Root.antt =====
-- What `handle_event` of crates/cloud_sync_daemon/src/watcher.rs does when the watched directory itself
-- is removed.
use mathlib.Core.Path.{subst}
use cloud_sync_lib.Daemon.Watcher.{
  Job, remove, ActiveBackend, DaemonState, LocalFiles, delete_path, get_remote_path, is_kept_file,
  deletions, removed, event_jobs, rebuild, handle_event, stripped,
}
use cloud_sync_lib.Base.{
  if◌then◌else◌, sym, Bool, true, false, ◌||◌, ◌≡◌, refl, ap, inl, inr, some, List, [], ◌∷◌,
  Bool-cases,
}
use cloud_sync_lib.Base.Lists.{In, In-append_left}
use cloud_sync_lib.Base.Text.{
  Text, text_eq, text_eq_iff, starts_with, codes, components, strip_components, join_components,
  strip_prefix, replace,
}
use cloud_sync_lib.Storage.Policy.{sync_deletions}

text_eq_self : (t : Text) → text_eq t t ≡ true
text_eq_self t = (text_eq_iff t t).1 refl

strip_components_self : (cs : List Text) → strip_components cs cs ≡ some []
unfolding strip_components
strip_components_self [] = refl
strip_components_self (c ∷ cs) = rw (text_eq_self c, strip_components_self cs) refl

strip_prefix_self : (path : Text) → strip_prefix path path ≡ some []
unfolding strip_prefix join_components
strip_prefix_self path = elim (Bool-cases (starts_with path (codes "/"))) [
  | inl yes' ↦ rw (strip_components_self (components path), yes') (rw yes' refl)
  | inr no' ↦ rw (strip_components_self (components path), no') (rw no' refl)
]

get_remote_path_self : (path : Text) → get_remote_path path path ≡ some []
unfolding get_remote_path replace
get_remote_path_self path = ap (stripped path path) (strip_prefix_self path)

module _ (files : LocalFiles) (s : DaemonState) where
  deletions-In :
      (b : ActiveBackend) (remote : Text) (bs : List ActiveBackend)
      → In b bs
      → sync_deletions b.policy ≡ true
      → In (delete_path b.name remote) (deletions files s remote bs)
  deletions-In b remote [] m d = absurd m
  deletions-In b remote (c ∷ bs) (inl e) d =
      let yes' : sync_deletions c.policy ≡ true = subst (λ x. sync_deletions x.policy ≡ true) e d in
      rw yes' (inl (ap (λ x. delete_path x.name remote) e))
  deletions-In b remote (c ∷ bs) (inr m) d = elim (Bool-cases (sync_deletions c.policy)) [
    | inl yes' ↦ rw yes' (inr (deletions-In b remote bs m d))
    | inr no' ↦ rw no' (deletions-In b remote bs m d)
  ]

  removed_root :
      (b : ActiveBackend)
      → (s.gitignore s.watch_dir false || s.gitignore s.watch_dir true) ≡ false
      → In b s.backends
      → sync_deletions b.policy ≡ true
      → In (delete_path b.name []) (removed files s s.watch_dir)
  unfolding removed is_kept_file text_eq starts_with
  removed_root b kept m d =
      rw (kept, get_remote_path_self s.watch_dir) (deletions-In b [] s.backends m d)

awake : (j : Job) (p : Bool) (js : List Job) → p ≡ false → In j js → In j (if p then [] else js)
awake j p js e m = rw e m

-- When the watched directory itself is removed, or its disk is, and the ignore rules say nothing of
-- it, a daemon that is not paused deletes the empty remote path, which is the root, at every backend
-- whose policy propagates deletions.
removed_root_deletes :
    (files : LocalFiles) (build_gitignore : Text → Text → Bool → Bool) (s : DaemonState)
    (b : ActiveBackend)
    → rebuild build_gitignore (record { kind = remove; paths = s.watch_dir ∷ [] }) s ≡ s
    → s.paused ≡ false
    → (s.gitignore s.watch_dir false || s.gitignore s.watch_dir true) ≡ false
    → In b s.backends
    → sync_deletions b.policy ≡ true
    → In
        (delete_path b.name [])
        (handle_event files build_gitignore
          (record { kind = remove; paths = s.watch_dir ∷ [] })
          s).1
unfolding handle_event event_jobs
removed_root_deletes files build_gitignore s b same going kept m d =
    let gone : List Text = s.watch_dir ∷ [] in
    let job : Job = delete_path b.name [] in
    subst (λ x. In job (if x.paused then [] else event_jobs files x remove gone)) (sym same)
      (awake job s.paused (event_jobs files s remove gone) going
        (In-append_left job (removed files s s.watch_dir) [] (removed_root files s b kept m d)))
