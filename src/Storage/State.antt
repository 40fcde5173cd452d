-- ===== src/Storage/State.antt =====
-- The catalog of crates/cloud_sync_core/src/state.rs. A `SystemTime` is a number of nanoseconds.
use Prim.Native.Nat.{bit_xor}
use cloud_sync_lib.Base.{ℕ, ◌*◌, ◌%◌, ◌^◌, Bool, Option, List, [], ◌∷◌}
use cloud_sync_lib.Base.Text.{Text}
use cloud_sync_lib.Base.Dict.{Dict, insert, remove}

pub record FileState : Type 0 where
  pub size : ℕ
  pub local_modified : ℕ
  pub remote_modified : ℕ
  pub is_dir : Option Bool
  pub checksum : Option Text
  pub permissions : Option ℕ

pub record SyncState : Type 0 where
  pub files : Dict FileState

abbrev pub default_state : SyncState
default_state = record { files = [] }

pub data StateMutation : Type 0 where
  upsert : Text → FileState → StateMutation
  delete : Text → StateMutation

unfoldable pub apply_mutation : SyncState → StateMutation → SyncState
unfolding insert remove
apply_mutation s (upsert path state) = record { files = insert path state s.files }
apply_mutation s (delete path) = record { files = remove path s.files }

-- The loop of `compute_checksum`: `wrapping_mul` is the product modulo 2 ^ 64.
unfoldable pub fnv_loop : ℕ → List ℕ → ℕ
fnv_loop hash [] = hash
fnv_loop hash (b ∷ bytes) = fnv_loop (bit_xor hash b * 0x100000001b3 % 2 ^ 64) bytes

unfoldable pub compute_checksum : List ℕ → ℕ
unfolding fnv_loop
compute_checksum bytes = fnv_loop 0xcbf29ce484222325 bytes
