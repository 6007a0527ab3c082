-- ===== src/Cache/Hex.antt =====
-- The hexadecimal text of cache dumps, of src/cache.rs.
pub mod RoundTrip
use cognidns_core.Prelude.{
  ℕ, ◌+◌, ◌-◌, ◌*◌, ◌/◌, ◌%◌, ◌&&◌, Option, none, some, [], ◌∷◌, ltb, leb, ◌==◌, if◌then◌else◌,
  ◌>>=◌, length,
}
use cognidns_core.Codec.Bytes.{Bytes}

-- One digit of `{:02x}`
unfoldable pub hex_digit : ℕ → ℕ
hex_digit n = if ltb n 10 then 48 + n else 87 + n

unfoldable pub encode_hex : Bytes → Bytes
unfolding hex_digit
encode_hex [] = []
encode_hex (b ∷ r) = hex_digit (b / 16) ∷ hex_digit (b % 16) ∷ encode_hex r

unfoldable pub hex_val : ℕ → Option ℕ
hex_val c =
    if leb 48 c && leb c 57
    then some (c - 48)
    else if leb 97 c && leb c 102
    then some (c - 97 + 10)
    else if leb 65 c && leb c 70
    then some (c - 65 + 10)
    else none

-- The loop over pairs of digits.
unfoldable pub decode_pairs : Bytes → Option Bytes
unfolding hex_val
decode_pairs [] = some []
decode_pairs (h ∷ []) = none
decode_pairs (h ∷ l ∷ r) =
    hex_val h >>= λ hi. hex_val l >>= λ lo. decode_pairs r >>= λ out. some ((hi * 16 + lo) ∷ out)

-- A text of odd length is refused.
unfoldable pub decode_hex : Bytes → Option Bytes
unfolding decode_pairs
decode_hex s = if length s % 2 == 0 then decode_pairs s else none
