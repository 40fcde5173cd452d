-- ===== src/Engine/StateRepository/Migration.antt =====
-- What becomes of a catalog when its place is resolved, in
-- crates/cloud_sync_daemon/src/engine/state_repository.rs.
use cloud_sync_lib.Base.{◌≡◌, refl, false, none, arith, or_else, inl, inr}
use cloud_sync_lib.Base.Tests.{Option-cases}
use cloud_sync_lib.Base.Text.{Text, text_eq, text_eq_refl, path_join}
use cloud_sync_lib.Base.Dict.{get, remove, get-insert, get-remove}
use cloud_sync_lib.Storage.Errors.{ok}
use cloud_sync_lib.Storage.State.{default_state}
use cloud_sync_lib.Store.{Codec, Names, Files, load, load_with}
use cloud_sync_lib.Engine.StateRepository.{
  migrate, state_filename, bak_filename, resolve_state_file_path,
}

-- A path that is neither the old nor the new one keeps its file.
get-migrate_other :
    (old new p : Text) (files : Files)
    → text_eq old p ≡ false
    → text_eq new p ≡ false
    → get p (migrate old new files) ≡ get p files
unfolding migrate
get-migrate_other old new p files h k = elim (Option-cases (get old files)) [
  | inl e ↦ rw e refl
  | inr (b, e) ↦ elim (Option-cases (get new files)) [
    | inl f ↦
        rw (e, f) (ground (arith, get-insert new p b (remove old files), get-remove old p files))
    | inr (c, f) ↦ rw (e, f) (ground (arith, get-remove old p files))
  ]
]

-- The new path has its file, or the old one's if it had none.
get-migrate_new :
    (old new : Text) (files : Files)
    → text_eq old new ≡ false
    → get new (migrate old new files) ≡ or_else (get new files) (get old files)
unfolding migrate
get-migrate_new old new files h = elim (Option-cases (get old files)) [
  | inl e ↦ elim (Option-cases (get new files)) [
    | inl f ↦ rw (e, f) refl
    | inr (c, f) ↦ rw (e, f) refl
  ]
  | inr (b, e) ↦ elim (Option-cases (get new files)) [
    | inl f ↦ rw (e, f) (ground (arith, get-insert new new b (remove old files), text_eq_refl new))
    | inr (c, f) ↦ rw (e, f) (ground (arith, get-remove old new files))
  ]
]

get-migrate_self : (p : Text) (files : Files) → get p (migrate p p files) ≡ none
unfolding migrate
get-migrate_self p files = elim (Option-cases (get p files)) [
  | inl e ↦ rw e e
  | inr (b, e) ↦ rw e (ground (arith, get-remove p p files, text_eq_refl p))
]

abbrev pub names_in : Text → Text → Text → Names
names_in dir safe_name temp_path = record {
  path = path_join dir (state_filename safe_name);
  bak_path = path_join dir (bak_filename safe_name);
  temp_path = temp_path;
}

-- The catalog and its backup in two directories are four files.
pub record IsApart (new old : Names) : Type 0 where
  pub moved : text_eq old.path new.path ≡ false
  pub bak_moved : text_eq old.bak_path new.bak_path ≡ false
  pub old_bak : text_eq old.bak_path new.path ≡ false
  pub old_path : text_eq old.path new.bak_path ≡ false
  pub new_bak : text_eq new.bak_path new.path ≡ false
  pub new_path : text_eq new.path new.bak_path ≡ false
  pub olds : text_eq old.path old.bak_path ≡ false
  pub new_old : text_eq new.path old.bak_path ≡ false

module _ (k : Codec) (state_dir watch_dir safe_name temp_path : Text) (files : Files) where
  -- When the directories are apart, the catalog that is loaded after its place was resolved is the
  -- one that was there, or else the old one of the watched directory, and so is its backup.
  pub load-resolve :
      IsApart (names_in state_dir safe_name temp_path) (names_in watch_dir safe_name temp_path)
      → load k
          (names_in state_dir safe_name temp_path)
          (resolve_state_file_path state_dir watch_dir safe_name files).1
        ≡ load_with k
            (or_else
              (get (names_in state_dir safe_name temp_path).path files)
              (get (names_in watch_dir safe_name temp_path).path files))
            (or_else
              (get (names_in state_dir safe_name temp_path).bak_path files)
              (get (names_in watch_dir safe_name temp_path).bak_path files))
  unfolding load resolve_state_file_path
  load-resolve h =
      let new = names_in state_dir safe_name temp_path in
      let old = names_in watch_dir safe_name temp_path in
      let moved = migrate old.path new.path files in
      rw
        (
          get-migrate_other old.bak_path new.bak_path new.path moved h.old_bak h.new_bak,
          get-migrate_new old.path new.path files h.moved,
          get-migrate_new old.bak_path new.bak_path moved h.bak_moved,
          get-migrate_other old.path new.path new.bak_path files h.old_path h.new_path,
          get-migrate_other old.path new.path old.bak_path files h.olds h.new_old,
        )
        refl

  -- When the state directory is the watched directory itself, resolving the place of the catalog
  -- removes the catalog and its backup: what is loaded then is an empty catalog.
  pub resolve_same_dir :
      text_eq
          (names_in watch_dir safe_name temp_path).bak_path
          (names_in watch_dir safe_name temp_path).path
        ≡ false
      → state_dir ≡ watch_dir
      → load k
          (names_in state_dir safe_name temp_path)
          (resolve_state_file_path state_dir watch_dir safe_name files).1
        ≡ ok default_state
  unfolding load resolve_state_file_path
  resolve_same_dir d e =
      let old = names_in watch_dir safe_name temp_path in
      rw e (
        rw
          (
            get-migrate_other old.bak_path old.bak_path old.path (migrate old.path old.path files) d
                d,
            get-migrate_self old.path files,
            get-migrate_self old.bak_path (migrate old.path old.path files),
          )
          refl)
