-- ===== src/Cache/Hex/RoundTrip.antt =====
-- Bytes written as hexadecimal text and read back.
use cognidns_core.Prelude.{
  ℕ, ◌+◌, ◌*◌, ◌/◌, ◌%◌, ◌<◌, ◌≡◌, refl, true, some, [], ◌∷◌, arith, ◌==◌, length, All,
}
use cognidns_core.Codec.Bytes.{Bytes, IsByte}
use cognidns_core.Cache.Hex.{hex_digit, encode_hex, hex_val, decode_pairs, decode_hex}

hex_val-hex_digit : (n : ℕ) → n < 16 → hex_val (hex_digit n) ≡ some n
unfolding hex_val hex_digit
hex_val-hex_digit n h = ground arith

decode_pairs-encode_hex : (p : Bytes) → All IsByte p → decode_pairs (encode_hex p) ≡ some p
unfolding decode_pairs encode_hex
decode_pairs-encode_hex [] h = refl
decode_pairs-encode_hex (b ∷ p) h =
    let hi = hex_val-hex_digit (b / 16) (omega (arith, h.0)) in
    let lo = hex_val-hex_digit (b % 16) (omega arith) in
    let e : b / 16 * 16 + b % 16 ≡ b = omega arith in
    rw (hi, lo, decode_pairs-encode_hex p h.1, e) refl

length-encode_hex : (p : Bytes) → length (encode_hex p) ≡ length p * 2
unfolding encode_hex
length-encode_hex [] = refl
length-encode_hex (b ∷ p) = omega (arith, length-encode_hex p)

-- Every sequence of bytes that is written as hexadecimal text is read back, two digits to a byte.
pub decode_hex-encode_hex :
    (p : Bytes)
    → All IsByte p
    → (decode_hex (encode_hex p) ≡ some p) × (length (encode_hex p) ≡ length p * 2)
unfolding decode_hex
decode_hex-encode_hex p h =
    let l = length-encode_hex p in
    let t : (length (encode_hex p) % 2 == 0) ≡ true = ground arith in
    (rw t (decode_pairs-encode_hex p h), l)
