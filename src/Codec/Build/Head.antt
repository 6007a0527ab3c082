-- ===== src/Codec/Build/Head.antt =====
-- The header that the builders write, read back by `parse_header`.
use cognidns_core.Prelude.{
  ℕ, ◌+◌, ◌*◌, ◌/◌, ◌%◌, ◌<◌, ◌≡◌, refl, false, some, ◌++◌, arith, ltb, length,
}
use cognidns_core.Codec.Build.{response_head}
use cognidns_core.Codec.Bytes.{Bytes, u16_at}
use cognidns_core.Codec.Header.{parse_header}

-- A word in big-endian order is the number.
be16-word : (v : ℕ) → v < 65536 → v / 256 % 256 * 256 + v % 256 ≡ v
be16-word v h = omega arith

pub length-response_head :
    (id flags qdcount : ℕ) (t : Bytes)
    → length (response_head id flags qdcount ++ t) ≡ 12 + length t
length-response_head id flags qdcount t = omega arith

-- The three words that vary are read back, whatever follows the header.
pub parse_header-response_head :
    (id flags qdcount : ℕ) (t : Bytes)
    → id < 65536
    → flags < 65536
    → qdcount < 65536
    → parse_header (response_head id flags qdcount ++ t)
      ≡ some (record {
        id = id;
        flags = flags;
        qdcount = qdcount;
        ancount = 0;
        nscount = 0;
        arcount = 0;
      })
unfolding parse_header u16_at
parse_header-response_head id flags qdcount t hi hf hq =
    let p = response_head id flags qdcount ++ t in
    let long : ltb (length p) 12 ≡ false = ground arith in
    rw (long, be16-word id hi, be16-word flags hf, be16-word qdcount hq) refl
