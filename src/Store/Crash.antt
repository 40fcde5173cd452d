-- ===== src/Store/Crash.antt =====
-- `save` of crates/cloud_sync_core/src/state_io.rs when it is cut off: the state file is read again
-- as it was before the save or as the save wrote it. Writing and copying may be cut off in the
-- middle; creating and renaming a file may not.
use cloud_sync_lib.Base.{none, inr, inl, ◌⊎◌, ◌≡◌, refl, ◌∙◌, false, Option, none, some, []}
use cloud_sync_lib.Base.Text.{Text, text_eq}
use cloud_sync_lib.Base.Dict.{get, insert, remove, get-insert, get-insert_self}
use cloud_sync_lib.Storage.Errors.{ok, err}
use cloud_sync_lib.Storage.State.{SyncState}
use cloud_sync_lib.Store.Frame.{load_raw-frame}
use cloud_sync_lib.Store.{
  corrupt_error, save, frame, copy_to, Codec, Files, Names, load_raw, load, create_temp, write_temp,
  copy_backup, rename_temp,
}

-- The three files of a save differ.
pub record AreDistinct (names : Names) : Type 0 where
  pub temp_path_path : text_eq names.temp_path names.path ≡ false
  pub bak_path_path : text_eq names.bak_path names.path ≡ false
  pub bak_path_temp_path : text_eq names.bak_path names.temp_path ≡ false
  pub path_temp_path : text_eq names.path names.temp_path ≡ false

-- The file systems that a save of these bytes may leave behind: before it, with some bytes in the
-- temporary file, with some bytes in the backup as well, and at its end.
pub data Leaves (names : Names) (bytes : Text) (files : Files) : Files → Type 0 where
  before : Leaves names bytes files files
  writing :
      (part : Text) → Leaves names bytes files (write_temp names part (create_temp names files))
  copying :
      (part : Text)
      → Leaves names bytes files
          (insert names.bak_path part (write_temp names bytes (create_temp names files)))
  copied :
      Leaves names bytes files
        (copy_backup names (write_temp names bytes (create_temp names files)))
  renamed :
      Leaves names bytes files
        (rename_temp names (copy_backup names (write_temp names bytes (create_temp names files))))

module _ (names : Names) (v : AreDistinct names) where
  get-write_temp :
      (bytes : Text) (files : Files)
      → get names.path (write_temp names bytes (create_temp names files)) ≡ get names.path files
  unfolding write_temp create_temp
  get-write_temp bytes files =
      get-insert names.temp_path names.path bytes (insert names.temp_path [] files)
      ∙ rw v.temp_path_path
          (get-insert names.temp_path names.path [] files ∙ rw v.temp_path_path refl)

  get-bak_path :
      (part : Text) (files : Files)
      → get names.path (insert names.bak_path part files) ≡ get names.path files
  get-bak_path part files =
      get-insert names.bak_path names.path part files ∙ rw v.bak_path_path refl

  get-copy_backup :
      (files : Files) → get names.path (copy_backup names files) ≡ get names.path files
  unfolding copy_backup
  get-copy_backup files = by_old (get names.path files)
    where
      by_old :
          (o : Option Text) → get names.path (copy_to names.bak_path o files) ≡ get names.path files
      by_old none = refl
      by_old (some old) = get-bak_path old files

  get-temp_path :
      (bytes : Text) (files : Files)
      → get names.temp_path (copy_backup names (write_temp names bytes files)) ≡ some bytes
  unfolding copy_backup write_temp
  get-temp_path bytes files = by_old (get names.path (insert names.temp_path bytes files))
    where
      by_old :
          (o : Option Text)
          → get names.temp_path (copy_to names.bak_path o (insert names.temp_path bytes files))
            ≡ some bytes
      by_old none = get-insert_self names.temp_path bytes files
      by_old (some old) =
          get-insert names.bak_path names.temp_path old (insert names.temp_path bytes files)
          ∙ rw v.bak_path_temp_path (get-insert_self names.temp_path bytes files)

  get-rename_temp :
      (bytes : Text) (files : Files)
      → get names.temp_path files ≡ some bytes
      → get names.path (rename_temp names files) ≡ some bytes
  unfolding rename_temp
  get-rename_temp bytes files h =
      rw h (get-insert_self names.path bytes (remove names.temp_path files))

  get-backup :
      (files : Files) (old : Text)
      → get names.path files ≡ some old
      → get names.bak_path (copy_backup names files) ≡ some old
  unfolding copy_backup
  get-backup files old h = rw h (get-insert_self names.bak_path old files)

  load-some :
      (k : Codec) (files : Files) (bytes : Text) (s : SyncState)
      → get names.path files ≡ some bytes
      → load_raw k bytes ≡ some s
      → load k names files ≡ ok s
  unfolding load
  load-some k files bytes s h l = rw (h, l) refl

  load-renamed :
      (k : Codec) (payload : Text) (s : SyncState) (files : Files)
      → k.from_bytes payload ≡ some s
      → load k names (
          rename_temp names
            (copy_backup names (write_temp names (frame payload) (create_temp names files))))
        ≡ ok s
  load-renamed k payload s files h =
      let made : Files = create_temp names files in
      let ready : Files = copy_backup names (write_temp names (frame payload) made) in
      load-some k (rename_temp names ready) (frame payload) s
        (get-rename_temp (frame payload) ready (get-temp_path (frame payload) made))
        (load_raw-frame k payload s h)

  -- Take a state file that itself can be read as one catalog, and save another whose encoding is
  -- decoded as it. Whatever step the save is cut off at, and however much of the temporary file or of
  -- the backup is written by then, loading gives the one catalog or the other. A first save, and a
  -- state file that is recovered from its backup only, are not covered.
  pub load-Leaves :
      (k : Codec) (old payload : Text) (s s' : SyncState) (files files' : Files)
      → get names.path files ≡ some old
      → load_raw k old ≡ some s
      → k.from_bytes payload ≡ some s'
      → Leaves names (frame payload) files files'
      → (load k names files' ≡ ok s) ⊎ (load k names files' ≡ ok s')
  load-Leaves k old payload s s' files _ g l r before = inl (load-some k files old s g l)
  load-Leaves k old payload s s' files _ g l r (writing part) = inl (
      load-some k (write_temp names part (create_temp names files)) old s
        (get-write_temp part files ∙ g) l)
  load-Leaves k old payload s s' files _ g l r (copying part) =
      let written : Files = write_temp names (frame payload) (create_temp names files) in
      inl (
        load-some k (insert names.bak_path part written) old s
          (get-bak_path part written ∙ get-write_temp (frame payload) files ∙ g) l)
  load-Leaves k old payload s s' files _ g l r copied =
      let written : Files = write_temp names (frame payload) (create_temp names files) in
      inl (
        load-some k (copy_backup names written) old s
          (get-copy_backup written ∙ get-write_temp (frame payload) files ∙ g) l)
  load-Leaves k old payload s s' files _ g l r renamed = inr (load-renamed k payload s' files r)

  -- A catalog that its encoding gives back is saved, and loaded again as it is.
  pub load-save :
      (k : Codec) (payload : Text) (s : SyncState) (files : Files)
      → k.to_bytes s ≡ some payload
      → k.from_bytes payload ≡ some s
      → (files' : Files) × (save k names s files ≡ some files') × (load k names files' ≡ ok s)
  unfolding save
  load-save k payload s files e d =
      let ready : Files =
        copy_backup names (write_temp names (frame payload) (create_temp names files)) in
      (rename_temp names ready, rw (save, e) refl, load-renamed k payload s files d)

  -- Take a state file that cannot be read and a backup that can: loading recovers the backup. A save
  -- that is cut off before its last step has by then put the unreadable file in the backup's place,
  -- and loading fails.
  load-copied :
      (k : Codec) (old good bytes : Text) (s : SyncState) (files : Files)
      → get names.path files ≡ some old
      → load_raw k old ≡ none
      → get names.bak_path files ≡ some good
      → load_raw k good ≡ some s
      → (load k names files ≡ ok s)
        × (load k names (copy_backup names (write_temp names bytes (create_temp names files)))
            ≡ err corrupt_error)
  unfolding load
  load-copied k old good bytes s files g l b m =
      let written : Files = write_temp names bytes (create_temp names files) in
      let g' : get names.path written ≡ some old = get-write_temp bytes files ∙ g in
      let p = get-copy_backup written ∙ g' in
      let q : get names.bak_path (copy_backup names written) ≡ some old =
        get-backup written old g' in
      (rw (g, b, l, m) refl, rw (p, q, l) refl)
