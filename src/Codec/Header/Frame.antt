-- ===== src/Codec/Header/Frame.antt =====
-- The header is read from the first twelve bytes.
use cognidns_core.Prelude.{ℕ, ◌≤◌, ◌<◌, ◌≡◌, false, some, ◌++◌, arith, ltb, length, length-append}
use cognidns_core.Codec.Bytes.{Bytes, u16_at, be16, write, length-write, u16_at-write}
use cognidns_core.Codec.Header.{DnsHeader, parse_header}
use cognidns_core.Codec.Bytes.Frame.{
  SameOn, SameOn-shrink, SameOn-trans, SameOn-append, SameOn-write_before, u16_at_same,
}

pub parse_header_same :
    (p q : Bytes)
    → 12 ≤ length p
    → 12 ≤ length q
    → SameOn 0 12 p q
    → parse_header q ≡ parse_header p
unfolding parse_header
parse_header_same p q l k s =
    let a = u16_at_same p q 0 12 0 s (omega arith) (omega arith) in
    let b = u16_at_same p q 0 12 2 s (omega arith) (omega arith) in
    let c = u16_at_same p q 0 12 4 s (omega arith) (omega arith) in
    let d = u16_at_same p q 0 12 6 s (omega arith) (omega arith) in
    let e = u16_at_same p q 0 12 8 s (omega arith) (omega arith) in
    let f = u16_at_same p q 0 12 10 s (omega arith) (omega arith) in
    let u : ltb (length p) 12 ≡ false = ground arith in
    let v : ltb (length q) 12 ≡ false = ground arith in rw (u, v, a, b, c, d, e, f)

-- A packet with a header has twelve bytes at least, and the fields stand at their places.
pub parse_header_eq :
    (p : Bytes) (h : DnsHeader)
    → parse_header p ≡ some h
    → (12 ≤ length p)
      × (h.qdcount ≡ u16_at p 4)
      × (h.ancount ≡ u16_at p 6)
      × (h.nscount ≡ u16_at p 8)
      × (h.arcount ≡ u16_at p 10)
unfolding parse_header
parse_header_eq p h e = ground arith

-- The header after bytes are added at the end and the count of additional records is written.
pub parse_header-write_arcount :
    (p t : Bytes) (h : DnsHeader) (c : ℕ)
    → parse_header p ≡ some h
    → c < 65536
    → parse_header (write (p ++ t) 10 (be16 c)) ≡ some (record h { arcount = c })
unfolding parse_header
parse_header-write_arcount p t h c e b =
    let long : 12 ≤ length p = (parse_header_eq p h (unfold parse_header in e)).0 in
    let q = p ++ t in
    let w = write q 10 (be16 c) in
    let lq = length-append p t in
    let s =
      SameOn-trans p q w 0 10
        (SameOn-shrink p q 0 0 10 (length p) (SameOn-append p t 0) (omega arith) (omega arith))
        (SameOn-write_before q 10 (be16 c) 0 10 (omega arith)) in
    let f0 = u16_at_same p w 0 10 0 s (omega arith) (omega arith) in
    let f1 = u16_at_same p w 0 10 2 s (omega arith) (omega arith) in
    let f2 = u16_at_same p w 0 10 4 s (omega arith) (omega arith) in
    let f3 = u16_at_same p w 0 10 6 s (omega arith) (omega arith) in
    let f4 = u16_at_same p w 0 10 8 s (omega arith) (omega arith) in
    let f5 : u16_at w 10 ≡ c = u16_at-write q 10 c (omega arith) b in
    let lw : length w ≡ length q = length-write q 10 (be16 c) in ground arith
