-- ===== src/Store.antt =====
-- `PostcardStateStore` of crates/cloud_sync_core/src/state_io.rs: the file of the catalog. The file
-- system is a map from paths to bytes. The two decoders and the encoder are other libraries'.
pub mod Frame
pub mod Crash
pub mod Examples
use cloud_sync_lib.Base.{
  ℕ, ◌+◌, ◌*◌, ◌/◌, ◌%◌, ◌^◌, Bool, true, false, ◌&&◌, Option, none, some, List, [], ◌∷◌, ◌++◌,
  ◌==◌, if◌then◌else◌, or_else,
}
use cloud_sync_lib.Base.Text.{Text, codes, text_eq}
use cloud_sync_lib.Base.Dict.{Dict, get, insert, remove}
use cloud_sync_lib.Storage.Errors.{Result, ok, err}
use cloud_sync_lib.Storage.State.{SyncState, default_state, compute_checksum}

-- `SyncState::to_bytes`, `SyncState::from_bytes`, and UTF-8 decoding followed by `serde_json`.
pub record Codec : Type 0 where
  pub to_bytes : SyncState → Option Text
  pub from_bytes : Text → Option SyncState
  pub from_json : Text → Option SyncState

-- `u64::to_be_bytes`
abbrev pub to_be_bytes : ℕ → Text
to_be_bytes n =
    n / 2 ^ 56 % 256
    ∷ n / 2 ^ 48 % 256
    ∷ n / 2 ^ 40 % 256
    ∷ n / 2 ^ 32 % 256
    ∷ n / 2 ^ 24 % 256
    ∷ n / 2 ^ 16 % 256
    ∷ n / 2 ^ 8 % 256
    ∷ n % 256
    ∷ []

-- `u64::from_be_bytes`
abbrev pub from_be_bytes : ℕ → ℕ → ℕ → ℕ → ℕ → ℕ → ℕ → ℕ → ℕ
from_be_bytes a b c d e f g h =
    a * 2 ^ 56 + b * 2 ^ 48 + c * 2 ^ 40 + d * 2 ^ 32 + e * 2 ^ 24 + f * 2 ^ 16 + g * 2 ^ 8 + h

-- The header and the payload.
unfoldable pub frame : Text → Text
unfolding compute_checksum
frame payload = codes "CSTX" ++ 1 ∷ to_be_bytes (compute_checksum payload) ++ payload

-- Step 1 of `load_raw`: a frame of at least 13 bytes with the magic number, the version and the
-- checksum, whose payload can be decoded.
unfoldable pub load_framed : Codec → Text → Option SyncState
unfolding compute_checksum text_eq
load_framed k (m ∷ n ∷ o ∷ p ∷ version ∷ a ∷ b ∷ c ∷ d ∷ e ∷ f ∷ g ∷ h ∷ payload) =
    if text_eq (m ∷ n ∷ o ∷ p ∷ []) (codes "CSTX")
      && version == 1
      && from_be_bytes a b c d e f g h == compute_checksum payload
    then k.from_bytes payload
    else none
load_framed k _ = none

unfoldable pub load_raw : Codec → Text → Option SyncState
unfolding load_framed
load_raw k bytes = or_else (load_framed k bytes) (or_else (k.from_bytes bytes) (k.from_json bytes))

abbrev pub Files : Type 0
Files = Dict Text

-- The state file, the same path with the extension `bak`, and the temporary file beside it.
pub record Names : Type 0 where
  pub path : Text
  pub bak_path : Text
  pub temp_path : Text

-- Reading a file that may be missing.
abbrev pub load_opt : Codec → Option Text → Option SyncState
load_opt k none = none
load_opt k (some bytes) = load_raw k bytes

abbrev pub corrupt_error : Text
corrupt_error = codes "Failed to deserialize sync state (checksum mismatch or corrupt data)"

abbrev or_default : Option SyncState → Result Text SyncState
or_default none = ok default_state
or_default (some s) = ok s

abbrev or_corrupt : Option SyncState → Result Text SyncState
or_corrupt none = err corrupt_error
or_corrupt (some s) = ok s

abbrev pub load_with : Codec → Option Text → Option Text → Result Text SyncState
load_with k none bak = or_default (load_opt k bak)
load_with k (some bytes) bak = or_corrupt (or_else (load_raw k bytes) (load_opt k bak))

unfoldable pub load : Codec → Names → Files → Result Text SyncState
unfolding load_raw get
load k names files = load_with k (get names.path files) (get names.bak_path files)

-- The steps of `save` on the file system.
unfoldable pub create_temp : Names → Files → Files
unfolding insert
create_temp names files = insert names.temp_path [] files

unfoldable pub write_temp : Names → Text → Files → Files
unfolding insert
write_temp names bytes files = insert names.temp_path bytes files

abbrev pub copy_to : Text → Option Text → Files → Files
copy_to to none files = files
copy_to to (some bytes) files = insert to bytes files

unfoldable pub copy_backup : Names → Files → Files
unfolding get insert
copy_backup names files = copy_to names.bak_path (get names.path files) files

abbrev pub move_to : Text → Text → Option Text → Files → Files
move_to from to none files = files
move_to from to (some bytes) files = insert to bytes (remove from files)

unfoldable pub rename_temp : Names → Files → Files
unfolding get insert remove
rename_temp names files = move_to names.temp_path names.path (get names.temp_path files) files

-- `none`: the catalog cannot be encoded.
unfoldable pub save : Codec → Names → SyncState → Files → Option Files
unfolding frame create_temp write_temp copy_backup rename_temp
save k names s files = elim (k.to_bytes s) [
  | none ↦ none
  | some payload ↦ some (
      rename_temp names
        (copy_backup names (write_temp names (frame payload) (create_temp names files))))
]
