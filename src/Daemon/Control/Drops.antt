-- ===== src/Daemon/Control/Drops.antt =====
-- When `resolve_conflict` of crates/cloud_sync_daemon/src/control.rs drops a conflict, and what `clear`
-- answers.
use cloud_sync_lib.Base.{
  ◌≡◌, refl, ap, ◌∙◌, ◌⊎◌, inl, inr, true, Option, none, some, List, [], ◌∷◌, ◌++◌,
}
use cloud_sync_lib.Base.Tests.{Bool-cases}
use cloud_sync_lib.Base.Text.{Text, codes, text_eq, text_eq_iff, starts_with, path_join}
use cloud_sync_lib.Base.Dict.{Dict}
use cloud_sync_lib.Storage.Errors.{Foreign, StorageError, Result, ok, err}
use cloud_sync_lib.Engine.Scanner.{StorageItem}
use cloud_sync_lib.Engine.Conflict.Manager.{ConflictRecord, remove_conflict}
use cloud_sync_lib.Providers.Backend.{Backend}
use cloud_sync_lib.Daemon.Control.Resolve.{
  NamedBackend, Resolved, upload_all, download_first, after_transfer, after_rename,
  resolve_conflict, delete_all, find_backend, clear,
}

module _ {F : Foreign} {W Session : Type 0} where
  -- Every backend, in its turn, has taken the file.
  abbrev pub EachUploads : Text → Text → List (NamedBackend F W Session) → W → Type 0
  EachUploads local_path rel_path [] w = Unit
  EachUploads local_path rel_path (b ∷ bs) w =
      ((b.backend.upload local_path rel_path w).0 ≡ ok tt)
      × EachUploads local_path rel_path bs (b.backend.upload local_path rel_path w).1

  -- The first backend, if there is one, has given its file.
  abbrev pub FirstDownloads : Text → Text → List (NamedBackend F W Session) → W → Type 0
  FirstDownloads rel_path local_path [] w = Unit
  FirstDownloads rel_path local_path (b ∷ bs) w =
      (b.backend.download rel_path local_path w).0 ≡ ok tt

module _ {F : Foreign} {W Session : Type 0} (show : StorageError F → Text) where
  -- A step of the loop: an error ends it, a success is followed by the others.
  uploaded-EachUploads :
      (local_path rel_path : Text) (b : NamedBackend F W Session)
      (bs : List (NamedBackend F W Session)) (w : W) (rest : Option (StorageError F) × W)
      (r : Result (StorageError F) (Unit {0}))
      → (b.backend.upload local_path rel_path w).0 ≡ r
      → (rest.0 ≡ none
          → EachUploads local_path rel_path bs (b.backend.upload local_path rel_path w).1)
      → (elim r as (λ x. Option (StorageError F) × W) [
        | err e ↦ (some e, (b.backend.upload local_path rel_path w).1)
        | ok u ↦ rest
      ]).0
        ≡ none
      → EachUploads local_path rel_path (b ∷ bs) w
  uploaded-EachUploads local_path rel_path b bs w rest (ok u) e next h = (e, next h)
  uploaded-EachUploads local_path rel_path b bs w rest (err x) e next h = cc

  upload_all-EachUploads :
      (local_path rel_path : Text) (bs : List (NamedBackend F W Session)) (w : W)
      → (upload_all show local_path rel_path bs w).0 ≡ none
      → EachUploads local_path rel_path bs w
  unfolding upload_all
  upload_all-EachUploads local_path rel_path [] w h = tt
  upload_all-EachUploads local_path rel_path (b ∷ bs) w h =
      let (r, w') = b.backend.upload local_path rel_path w in
      uploaded-EachUploads local_path rel_path b bs w (upload_all show local_path rel_path bs w') r
        refl (upload_all-EachUploads local_path rel_path bs w') h

  download_first-FirstDownloads :
      (rel_path local_path : Text) (bs : List (NamedBackend F W Session)) (w : W)
      → (download_first show rel_path local_path bs w).0 ≡ none
      → FirstDownloads rel_path local_path bs w
  unfolding download_first
  download_first-FirstDownloads rel_path local_path [] w h = tt
  download_first-FirstDownloads rel_path local_path (b ∷ bs) w h =
      downloaded (b.backend.download rel_path local_path w).0 refl h
    where
      downloaded :
          (r : Result (StorageError F) (Unit {0}))
          → (b.backend.download rel_path local_path w).0 ≡ r
          → (elim r as (λ x. Option (StorageError F) × W) [
            | err e ↦ (some e, (b.backend.download rel_path local_path w).1)
            | ok u ↦ (none, (b.backend.download rel_path local_path w).1)
          ]).0
            ≡ none
          → FirstDownloads rel_path local_path (b ∷ bs) w
      downloaded (ok u) e k = e
      downloaded (err x) e k = cc

  module _ (rename_file : Text → Text → W → Option Text × W) (watch_dir : Text)
      (backends : List (NamedBackend F W Session)) (conflicts : Dict ConflictRecord)
      (rel_path : Text) where
    -- What was asked was done: all backends took the local file, the first backend gave its file,
    -- the local file was renamed, or nothing was to be done.
    abbrev pub Done : Text → W → Type 0
    Done resolution w =
        ((resolution ≡ codes "use_local")
          × EachUploads (path_join watch_dir rel_path) rel_path backends w)
        ⊎ ((resolution ≡ codes "use_remote")
            × FirstDownloads rel_path (path_join watch_dir rel_path) backends w)
        ⊎ ((resolution ≡ codes "keep_both")
            × ((rename_file (path_join watch_dir rel_path)
                  (path_join watch_dir (rel_path ++ codes ".local-conflict")) w).0
                ≡ none))
        ⊎ (resolution ≡ codes "skip")

    -- An error keeps the conflicts; a success has dropped the one, and is deserved.
    abbrev pub Deserved : Type 0 → Resolved W → Type 0
    Deserved done r =
        ((r.conflicts ≡ conflicts) × (starts_with r.answer (codes "Error: ") ≡ true))
        ⊎ ((r.conflicts ≡ (remove_conflict rel_path conflicts).1)
            × (starts_with r.answer (codes "Status: ") ≡ true)
            × done)

    after_transfer-Deserved :
        {done : Type 0} (failure success : Text) (o : Option (StorageError F) × W)
        → ((t : Text) → starts_with (failure ++ t ++ 10 ∷ []) (codes "Error: ") ≡ true)
        → starts_with success (codes "Status: ") ≡ true
        → (o.0 ≡ none → done)
        → Deserved done (
            after_transfer show rename_file watch_dir backends conflicts rel_path failure success o)
    after_transfer-Deserved failure success (some e, w) f s d = inl (refl, f (show e))
    after_transfer-Deserved failure success (none, w) f s d = inr (refl, s, d refl)

    after_rename-Deserved :
        {done : Type 0} (conflict_rel : Text) (o : Option Text × W)
        → (o.0 ≡ none → done)
        → Deserved done
            (after_rename show rename_file watch_dir backends conflicts rel_path conflict_rel o)
    unfolding starts_with
    after_rename-Deserved conflict_rel (some e, w) d = inl (refl, refl)
    after_rename-Deserved conflict_rel (none, w) d = inr (refl, refl, d refl)

    -- Whatever the resolution is, the answer is an error and the pending conflicts stay as they are,
    -- or it reports success, the conflict is dropped, and what was asked was done: every backend, in
    -- its turn, took the local file, the first backend, if there is one, gave its file, the local file
    -- was renamed, or the conflict was to be skipped.
    pub resolve_conflict_drops :
        (resolution : Text) (w : W)
        → Deserved
            (Done resolution w)
            (resolve_conflict show rename_file watch_dir backends conflicts rel_path resolution w)
    unfolding resolve_conflict starts_with
    resolve_conflict_drops resolution w =
        elim (Bool-cases (text_eq resolution (codes "use_local"))) [
          | inl a ↦ rw a (
              after_transfer-Deserved (codes "Error: Failed to upload file: ")
                (codes "Status: Conflict resolved (use_local)" ++ 10 ∷ [])
                (upload_all show (path_join watch_dir rel_path) rel_path backends w) (λ t. refl)
                refl
                (λ e. inl (
                  (text_eq_iff resolution (codes "use_local")).0 a,
                  upload_all-EachUploads (path_join watch_dir rel_path) rel_path backends w e,
                )))
          | inr a ↦ elim (Bool-cases (text_eq resolution (codes "use_remote"))) [
            | inl b ↦
                rw (a, b)
                  (after_transfer-Deserved (codes "Error: Failed to download file: ")
                    (codes "Status: Conflict resolved (use_remote)" ++ 10 ∷ [])
                    (download_first show rel_path (path_join watch_dir rel_path) backends w)
                    (λ t. refl) refl
                    (λ e. inr (
                      inl (
                        (text_eq_iff resolution (codes "use_remote")).0 b,
                        download_first-FirstDownloads rel_path (path_join watch_dir rel_path)
                            backends w e,
                      ))))
            | inr b ↦ elim (Bool-cases (text_eq resolution (codes "keep_both"))) [
              | inl c ↦
                  rw (a, b, c)
                    (after_rename-Deserved (rel_path ++ codes ".local-conflict")
                      (rename_file (path_join watch_dir rel_path)
                        (path_join watch_dir (rel_path ++ codes ".local-conflict")) w)
                      (λ e. inr (inr (inl ((text_eq_iff resolution (codes "keep_both")).0 c, e)))))
              | inr c ↦ elim (Bool-cases (text_eq resolution (codes "skip"))) [
                | inl d ↦
                    rw (a, b, c, d)
                      (inr
                        (refl, refl, inr (inr (inr ((text_eq_iff resolution (codes "skip")).0 d)))))
                | inr d ↦ rw (a, b, c, d) (inl (refl, refl))
              ]
            ]
          ]
        ]

  delete_all-idle :
      (backend : Backend F W Session) (items : List StorageItem) (w : W)
      → ((p : Text) (w : W) → (backend.delete p w).1 ≡ w)
      → delete_all show backend items w ≡ w
  unfolding delete_all
  delete_all-idle backend [] w h = refl
  delete_all-idle backend (i ∷ is) w h =
      ap (delete_all show backend is) (h i.path w) ∙ delete_all-idle backend is w h

  -- When the files of a backend can be listed and no deletion has an effect, as when the
  -- credentials only allow reading, `clear` deletes nothing and reports success all the same.
  pub clear_unchecked :
      (target : Text) (backends : List (NamedBackend F W Session)) (b : NamedBackend F W Session)
      (items : List StorageItem) (w w' : W)
      → find_backend show target backends ≡ some b
      → b.backend.list [] w ≡ (ok items, w')
      → ((p : Text) (w : W) → (e : StorageError F) × (b.backend.delete p w ≡ (err e, w)))
      → clear show target backends w
        ≡ (codes "Status: Successfully cleared remote provider: " ++ b.name ++ 10 ∷ [], w')
  unfolding clear
  clear_unchecked target backends b items w w' f l d =
      rw (f, l)
        (ap (λ v. (codes "Status: Successfully cleared remote provider: " ++ b.name ++ 10 ∷ [], v))
          (delete_all-idle b.backend items w' (λ p v. ap (λ r. r.1) (d p v).1)))
