-- ===== src/Storage/Capabilities.antt =====
-- `StorageCapabilities` of crates/cloud_sync_core/src/traits.rs: a `u32` of flags.
use Prim.Native.Nat.{bit_and, bit_or, bit_xor}
use cloud_sync_lib.Base.{ℕ, ◌-◌, ◌^◌, Bool, ◌==◌}

pub record StorageCapabilities : Type 0 where
  pub bits : ℕ

abbrev flag : ℕ → StorageCapabilities
flag n = record { bits = n }

abbrev pub no_capabilities : StorageCapabilities
no_capabilities = flag 0

abbrev pub resumable_upload : StorageCapabilities
resumable_upload = flag (2 ^ 0)

abbrev pub server_side_move : StorageCapabilities
server_side_move = flag (2 ^ 1)

abbrev pub server_side_copy : StorageCapabilities
server_side_copy = flag (2 ^ 2)

unfoldable pub has_capability : StorageCapabilities → StorageCapabilities → Bool
has_capability c other = bit_and c.bits other.bits == other.bits

unfoldable pub insert_capability : StorageCapabilities → StorageCapabilities → StorageCapabilities
insert_capability c other = record { bits = bit_or c.bits other.bits }

-- `self.0 &= !other.0`: the complement of a `u32` is its exclusive or with all ones.
unfoldable pub remove_capability : StorageCapabilities → StorageCapabilities → StorageCapabilities
remove_capability c other = record { bits = bit_and c.bits (bit_xor other.bits (2 ^ 32 - 1)) }
