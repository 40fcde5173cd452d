-- ===== src/Store/Frame.antt =====
-- The framed file of crates/cloud_sync_core/src/state_io.rs: what is written is read back.
use Prim.Native.Nat.{bit_xor}
use cloud_sync_lib.Base.{
  true, refl, ◌==◌, some, ℕ, ◌*◌, ◌/◌, ◌%◌, ◌^◌, ◌<◌, ◌≡◌, List, [], ◌∷◌, arith,
}
use cloud_sync_lib.Base.Text.{text_eq, Text}
use cloud_sync_lib.Storage.State.{SyncState, fnv_loop, compute_checksum}
use cloud_sync_lib.Store.{Codec, frame, load_framed, load_raw, from_be_bytes}

fnv_loop_lt : (hash : ℕ) (bytes : List ℕ) → hash < 2 ^ 64 → fnv_loop hash bytes < 2 ^ 64
unfolding fnv_loop
fnv_loop_lt hash [] h = h
fnv_loop_lt hash (b ∷ bytes) h =
    let next : ℕ = bit_xor hash b * 0x100000001b3 in fnv_loop_lt (next % 2 ^ 64) bytes (omega arith)

checksum_lt : (bytes : Text) → compute_checksum bytes < 2 ^ 64
unfolding compute_checksum
checksum_lt bytes = fnv_loop_lt 0xcbf29ce484222325 bytes (omega arith)

from_be_bytes-to_be_bytes :
    (n : ℕ)
    → n < 2 ^ 64
    → from_be_bytes
        (n / 2 ^ 56 % 256)
        (n / 2 ^ 48 % 256)
        (n / 2 ^ 40 % 256)
        (n / 2 ^ 32 % 256)
        (n / 2 ^ 24 % 256)
        (n / 2 ^ 16 % 256)
        (n / 2 ^ 8 % 256)
        (n % 256)
      ≡ n
from_be_bytes-to_be_bytes n h = omega arith

load_framed-frame :
    (k : Codec) (payload : Text) → load_framed k (frame payload) ≡ k.from_bytes payload
unfolding load_framed frame text_eq
load_framed-frame k payload =
    let i = from_be_bytes-to_be_bytes (compute_checksum payload) (checksum_lt payload) in
    let e : (compute_checksum payload == compute_checksum payload) ≡ true = ground arith in
    rw (i, e) refl

-- The frame of a payload that can be decoded is loaded as what the payload decodes to.
pub load_raw-frame :
    (k : Codec) (payload : Text) (s : SyncState)
    → k.from_bytes payload ≡ some s
    → load_raw k (frame payload) ≡ some s
unfolding load_raw
load_raw-frame k payload s h = rw (load_framed-frame k payload, h) refl
