-- ===== src/Paths/EncodeRoundTrip.antt =====
-- The percent-encoding of crates/cloud_sync_core/src/path.rs against a decoder of RFC 3986.
use mathlib.Core.Option
use cloud_sync_lib.Base.{
  ℕ, ◌+◌, ◌-◌, ◌*◌, ◌/◌, ◌%◌, ◌<◌, ◌≡◌, refl, ap, ◌∙◌, inl, inr, true, false, ◌&&◌, ◌||◌, Option,
  none, some, [], ◌∷◌, arith, leb, ◌==◌, if◌then◌else◌,
}
use cloud_sync_lib.Base.Tests.{Bool-cases}
use cloud_sync_lib.Base.Lists.{All}
use cloud_sync_lib.Base.Text.{Text}
use cloud_sync_lib.Paths.Encode.{is_unreserved, hex_digit, escape, url_encode, url_encode_path}

abbrev from_hex : ℕ → Option ℕ
from_hex d =
    if leb b'0' d && leb d b'9'
    then some (d - 48)
    else if leb b'A' d && leb d b'F'
    then some (d - 55)
    else none

-- Where the decoder stands: outside an escape, behind its percent sign, behind its first digit.
pub data Place : Type 0 where
  plain high : Place
  low : ℕ → Place

unfoldable decode_from : Place → Text → Option Text
decode_from plain [] = some []
decode_from high [] = none
decode_from (low n) [] = none
decode_from plain (b ∷ s) = elim (b == b'%') [
  | true ↦ decode_from high s
  | false ↦ Option.map (λ t. b ∷ t) (decode_from plain s)
]
decode_from high (b ∷ s) = elim (from_hex b) [ none ↦ none | some n ↦ decode_from (low n) s ]
decode_from (low n) (b ∷ s) = elim (from_hex b) [
  | none ↦ none
  | some m ↦ Option.map (λ t. (n * 16 + m) ∷ t) (decode_from plain s)
]

-- The percent-decoder.
unfoldable pub url_decode : Text → Option Text
unfolding decode_from
url_decode s = decode_from plain s

abbrev pub AreBytes : Text → Type 0
AreBytes = All (λ b. b < 256)

from_hex-hex_digit : (n : ℕ) → n < 16 → from_hex (hex_digit n) ≡ some n
from_hex-hex_digit n h = ground arith

decode-high :
    (d n : ℕ) (s : Text) → from_hex d ≡ some n → decode_from high (d ∷ s) ≡ decode_from (low n) s
unfolding decode_from
decode-high d n s h = rw (decode_from, h) refl

decode-low :
    (n d m : ℕ) (s : Text)
    → from_hex d ≡ some m
    → decode_from (low n) (d ∷ s) ≡ Option.map (λ t. (n * 16 + m) ∷ t) (decode_from plain s)
unfolding decode_from
decode-low n d m s h = rw (decode_from, h) refl

decode-percent : (s : Text) → decode_from plain (b'%' ∷ s) ≡ decode_from high s
unfolding decode_from
decode-percent s = refl

decode-escape :
    (b : ℕ) (rest : Text)
    → b < 256
    → decode_from plain (escape b rest) ≡ Option.map (λ t. b ∷ t) (decode_from plain rest)
decode-escape b rest h =
    let i = from_hex-hex_digit (b / 16) (omega arith) in
    let j = from_hex-hex_digit (b % 16) (omega arith) in
    let k : b / 16 * 16 + b % 16 ≡ b = omega arith in
    decode-percent (hex_digit (b / 16) ∷ hex_digit (b % 16) ∷ rest)
    ∙ decode-high (hex_digit (b / 16)) (b / 16) (hex_digit (b % 16) ∷ rest) i
    ∙ decode-low (b / 16) (hex_digit (b % 16)) (b % 16) rest j
    ∙ ap (λ n. Option.map (λ t. n ∷ t) (decode_from plain rest)) k

decode-keep :
    (b : ℕ) (rest : Text)
    → (b == b'%') ≡ false
    → decode_from plain (b ∷ rest) ≡ Option.map (λ t. b ∷ t) (decode_from plain rest)
unfolding decode_from
decode-keep b rest h = rw (decode_from, h) refl

-- Decoding an encoded string of bytes gives it back.
url_decode-url_encode : (s : Text) → AreBytes s → url_decode (url_encode s) ≡ some s
unfolding url_decode url_encode
url_decode-url_encode [] h = unfold decode_from in refl
url_decode-url_encode (b ∷ s) h =
    let ih = url_decode-url_encode s h.1 in
    elim (Bool-cases (is_unreserved b)) [
      | inl i ↦ rw i (decode-keep b (url_encode s) (ground arith) ∙ ap (Option.map (λ t. b ∷ t)) ih)
      | inr i ↦ rw i (decode-escape b (url_encode s) h.0 ∙ ap (Option.map (λ t. b ∷ t)) ih)
    ]

-- Decoding an encoded path of bytes gives it back.
url_decode-url_encode_path : (s : Text) → AreBytes s → url_decode (url_encode_path s) ≡ some s
unfolding url_decode url_encode_path
url_decode-url_encode_path [] h = unfold decode_from in refl
url_decode-url_encode_path (b ∷ s) h =
    let ih = url_decode-url_encode_path s h.1 in
    elim (Bool-cases (is_unreserved b || b == b'/')) [
      | inl i ↦
          rw i (decode-keep b (url_encode_path s) (ground arith) ∙ ap (Option.map (λ t. b ∷ t)) ih)
      | inr i ↦ rw i (decode-escape b (url_encode_path s) h.0 ∙ ap (Option.map (λ t. b ∷ t)) ih)
    ]
