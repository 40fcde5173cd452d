-- ===== src/Paths/Encode.antt =====
-- The percent-encoding of crates/cloud_sync_core/src/path.rs, over the bytes of a string.
use cloud_sync_lib.Base.{ℕ, ◌+◌, ◌/◌, ◌%◌, Bool, ◌&&◌, ◌||◌, [], ◌∷◌, ltb, leb, ◌==◌, if◌then◌else◌}
use cloud_sync_lib.Base.Text.{Text}

abbrev pub is_unreserved : ℕ → Bool
is_unreserved b =
    (leb b'A' b && leb b b'Z')
    || (leb b'a' b && leb b b'z')
    || (leb b'0' b && leb b b'9')
    || b == b'-'
    || b == b'_'
    || b == b'.'
    || b == b'~'

-- A digit of `{:X}`.
abbrev pub hex_digit : ℕ → ℕ
hex_digit n = if ltb n 10 then n + 48 else n + 55

-- `format!("%{:02X}", byte)`
abbrev pub escape : ℕ → Text → Text
escape b rest = b'%' ∷ hex_digit (b / 16) ∷ hex_digit (b % 16) ∷ rest

unfoldable pub url_encode : Text → Text
url_encode [] = []
url_encode (b ∷ s) = let rest = url_encode s in if is_unreserved b then b ∷ rest else escape b rest

unfoldable pub url_encode_path : Text → Text
url_encode_path [] = []
url_encode_path (b ∷ s) =
    let rest = url_encode_path s in if is_unreserved b || b == b'/' then b ∷ rest else escape b rest
