-- ===== src/Engine/StateRepository/Examples.antt =====
-- A catalog left in the watched directory, and a state directory that is the watched directory.
use cloud_sync_lib.Base.{◌≡◌, refl, none, some, [], ◌∷◌, or_else}
use cloud_sync_lib.Base.Text.{codes, text_eq, path_join}
use cloud_sync_lib.Base.Dict.{get}
use cloud_sync_lib.Storage.Errors.{ok}
use cloud_sync_lib.Storage.State.{default_state}
use cloud_sync_lib.Store.{Codec, Files, load, load_with}
use cloud_sync_lib.Engine.StateRepository.{resolve_state_file_path}
use cloud_sync_lib.Engine.StateRepository.Migration.{names_in, load-resolve, resolve_same_dir}

abbrev codec : Codec
codec = record {
  to_bytes = λ s. some [];
  from_bytes = λ b. some default_state;
  from_json = λ b. none;
}

abbrev files : Files
files = (codes "/w/.sync_state_box.bin", codes "x") ∷ []

load-resolve_example :
    load codec
      (names_in (codes "/s") (codes "box") (codes "/t"))
      (resolve_state_file_path (codes "/s") (codes "/w") (codes "box") files).1
    ≡ load_with codec
        (or_else
          (get (names_in (codes "/s") (codes "box") (codes "/t")).path files)
          (get (names_in (codes "/w") (codes "box") (codes "/t")).path files))
        (or_else
          (get (names_in (codes "/s") (codes "box") (codes "/t")).bak_path files)
          (get (names_in (codes "/w") (codes "box") (codes "/t")).bak_path files))
unfolding path_join text_eq
load-resolve_example =
    load-resolve codec (codes "/s") (codes "/w") (codes "box") (codes "/t") files (record {
      moved = refl;
      bak_moved = refl;
      old_bak = refl;
      old_path = refl;
      new_bak = refl;
      new_path = refl;
      olds = refl;
      new_old = refl;
    })

resolve_same_dir_example :
    load codec
      (names_in (codes "/w") (codes "box") (codes "/t"))
      (resolve_state_file_path (codes "/w") (codes "/w") (codes "box") files).1
    ≡ ok default_state
unfolding path_join text_eq
resolve_same_dir_example =
    resolve_same_dir codec (codes "/w") (codes "/w") (codes "box") (codes "/t") files refl refl
