-- ===== src/Store/Examples.antt =====
-- State files under codecs that know one or two catalogs only.
use cloud_sync_lib.Base.{◌≡◌, refl, ◌⊎◌, Option, none, some, [], ◌∷◌, ◌==◌, if◌then◌else◌}
use cloud_sync_lib.Base.Text.{Text, codes, text_eq}
use cloud_sync_lib.Base.Dict.{get}
use cloud_sync_lib.Storage.Errors.{ok}
use cloud_sync_lib.Storage.State.{SyncState, default_state}
use cloud_sync_lib.Store.{
  load_framed, Codec, Files, Names, frame, load_raw, load, save, write_temp, create_temp,
}
use cloud_sync_lib.Store.Frame.{load_raw-frame}
use cloud_sync_lib.Store.Crash.{AreDistinct, writing, load-Leaves, load-save}

abbrev decode : Text → Option SyncState
decode (b ∷ []) = some default_state
decode _ = none

abbrev codec : Codec
codec = record { to_bytes = λ s. some (7 ∷ []); from_bytes = decode; from_json = λ t. none }

abbrev names : Names
names = record {
  path = codes "state.bin";
  bak_path = codes "state.bak";
  temp_path = codes ".state.bin_1.tmp";
}

names-AreDistinct : AreDistinct names
unfolding text_eq
names-AreDistinct = record {
  temp_path_path = refl;
  bak_path_path = refl;
  bak_path_temp_path = refl;
  path_temp_path = refl;
}

abbrev files : Files
files = (codes "state.bin", frame (7 ∷ [])) ∷ []

files-path : get names.path files ≡ some (frame (7 ∷ []))
unfolding get text_eq
files-path = refl

abbrev other_state : SyncState
other_state = record {
  files =
      (
        codes "a",
        record {
          size = 3;
          local_modified = 5;
          remote_modified = 5;
          is_dir = none;
          checksum = none;
          permissions = none;
        },
      )
      ∷ [];
}

abbrev decode_two : Text → Option SyncState
decode_two [] = none
decode_two (b ∷ _) = if b == 7 then some default_state else some other_state

abbrev two_codec : Codec
two_codec = record { to_bytes = λ s. none; from_bytes = decode_two; from_json = λ t. none }

abbrev cut_off : Files
cut_off = write_temp names (67 ∷ []) (create_temp names files)

load-Leaves_example :
    (load two_codec names cut_off ≡ ok default_state)
    ⊎ (load two_codec names cut_off ≡ ok other_state)
load-Leaves_example =
    load-Leaves names names-AreDistinct two_codec (frame (7 ∷ [])) (8 ∷ []) default_state
      other_state files cut_off files-path (load_raw-frame two_codec (7 ∷ []) default_state refl)
      refl (writing (67 ∷ []))

load-save_example :
    (files' : Files) × (save codec names default_state files ≡ some files')
    × (load codec names files' ≡ ok default_state)
load-save_example = load-save names names-AreDistinct codec (7 ∷ []) default_state files refl refl

-- The state file is cut short, the backup is whole.
abbrev damaged : Files
damaged = (codes "state.bin", []) ∷ (codes "state.bak", frame (7 ∷ [])) ∷ []

damaged-path : get names.path damaged ≡ some []
unfolding get text_eq
damaged-path = refl

damaged-bak_path : get names.bak_path damaged ≡ some (frame (7 ∷ []))
unfolding get text_eq
damaged-bak_path = refl

unreadable : load_raw codec [] ≡ none
unfolding load_raw load_framed
unreadable = refl
