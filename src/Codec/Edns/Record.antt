-- ===== src/Codec/Edns/Record.antt =====
-- The OPT record that `build_edns_opt_record` writes, read at its place behind a packet.
use cognidns_core.Prelude.{
  ℕ, ◌+◌, ◌/◌, ◌%◌, ◌<◌, ◌≡◌, ap, ◌∙◌, some, ◌++◌, arith, length, length-append,
}
use cognidns_core.Codec.Edns.{
  DnsEdnsOpt, encode_options, opt_ttl, build_edns_opt_record, find_opt, opt_at,
}
use cognidns_core.Codec.Section.{rr_ttl_at, rr_end}
use cognidns_core.Codec.Bytes.{Bytes, byte, u16_at, u32_at}
use cognidns_core.Codec.Edns.Append.{find_opt_here}
use cognidns_core.Codec.Name.Skip.{skip_name_root}
use cognidns_core.Codec.Bytes.Frame.{SameOn, u16_at_same, u32_at_same, byte-append_right}

-- Values that fit their fields.
pub record IsOpt (o : DnsEdnsOpt) : Type 0 where
  pub size_fits : o.udp_payload_size < 65536
  pub rcode_fits : o.extended_rcode < 256
  pub version_fits : o.version < 256
  pub flags_fit : o.opt_flags < 65536
  pub options_fit : length (encode_options o.options) < 65536

abbrev pub opt_record : DnsEdnsOpt → Bytes
opt_record o =
    build_edns_opt_record o.udp_payload_size o.extended_rcode o.version o.opt_flags o.options

pub length-opt_record :
    (o : DnsEdnsOpt) → length (opt_record o) ≡ 11 + length (encode_options o.options)
unfolding build_edns_opt_record
length-opt_record o = omega arith

-- The fields of the record behind the packet `p`.
pub record Placed (o : DnsEdnsOpt) (q : Bytes) (n : ℕ) : Type 0 where
  pub root : byte q n ≡ 0
  pub type_is : u16_at q (n + 1) ≡ 41
  pub class_is : u16_at q (n + 1 + 2) ≡ o.udp_payload_size
  pub ttl_is : u32_at q (n + 1 + 4) ≡ opt_ttl o.extended_rcode o.version o.opt_flags
  pub rdlen_is : u16_at q (n + 1 + 8) ≡ length (encode_options o.options)
  pub long : length q ≡ n + 11 + length (encode_options o.options)

pub append-Placed : (p : Bytes) (o : DnsEdnsOpt) → IsOpt o → Placed o (p ++ opt_record o) (length p)
unfolding build_edns_opt_record
append-Placed p o v =
    let t = opt_record o in
    let at = λ (i j : ℕ) (e : i ≡ length p + j). ap (byte (p ++ t)) e ∙ byte-append_right p t j in
    let b0 = at (length p) 0 (omega arith) in
    let b1 = at (length p + 1) 1 (omega arith) in
    let b2 = at (length p + 1 + 1) 2 (omega arith) in
    let b3 = at (length p + 1 + 2) 3 (omega arith) in
    let b4 = at (length p + 1 + 2 + 1) 4 (omega arith) in
    let b5 = at (length p + 1 + 4) 5 (omega arith) in
    let b6 = at (length p + 1 + 4 + 1) 6 (omega arith) in
    let b7 = at (length p + 1 + 4 + 2) 7 (omega arith) in
    let b8 = at (length p + 1 + 4 + 3) 8 (omega arith) in
    let b9 = at (length p + 1 + 8) 9 (omega arith) in
    let b10 = at (length p + 1 + 8 + 1) 10 (omega arith) in
    record {
      root = b0;
      type_is = unfold u16_at in (omega arith);
      class_is = unfold u16_at in (omega (arith, v.size_fits));
      ttl_is = unfold u32_at in (omega (arith, v.rcode_fits, v.version_fits, v.flags_fit));
      rdlen_is = unfold u16_at in (omega (arith, v.options_fit));
      long = omega (arith, length-append p t);
    }

pub Placed-same :
    (o : DnsEdnsOpt) (p q : Bytes) (n : ℕ)
    → length q ≡ length p
    → SameOn n (length p) p q
    → Placed o p n
    → Placed o q n
Placed-same o p q n l s v = record {
  root = s n (omega arith) (omega (arith, v.long)) ∙ v.root;
  type_is =
      u16_at_same p q n (length p) (n + 1) s (omega arith) (omega (arith, v.long)) ∙ v.type_is;
  class_is =
      u16_at_same p q n (length p) (n + 1 + 2) s (omega arith) (omega (arith, v.long)) ∙ v.class_is;
  ttl_is =
      u32_at_same p q n (length p) (n + 1 + 4) s (omega arith) (omega (arith, v.long)) ∙ v.ttl_is;
  rdlen_is =
      u16_at_same p q n (length p) (n + 1 + 8) s (omega arith) (omega (arith, v.long)) ∙ v.rdlen_is;
  long = l ∙ v.long;
}

-- The search finds the record at its place.
pub find_opt-Placed :
    (o : DnsEdnsOpt) (q : Bytes) (n : ℕ)
    → Placed o q n
    → find_opt 1 q n ≡ some (n, n + 1, n + 11 + length (encode_options o.options))
find_opt-Placed o q n v =
    let m = n + 11 + length (encode_options o.options) in
    let end : rr_end q (n + 1) ≡ some m = unfold rr_end in (ground (arith, v.rdlen_is, v.long)) in
    find_opt_here 0 q n (n + 1) m (skip_name_root q n v.root (omega (arith, v.long))) end v.type_is

-- The record's fields are those that were written.
pub opt_at-Placed :
    (o : DnsEdnsOpt) (q : Bytes) (n m : ℕ)
    → IsOpt o
    → Placed o q n
    → opt_at q (n + 1) m o.options ≡ o
opt_at-Placed o q n m f v =
    let t = v.ttl_is in
    let a : rr_ttl_at q (n + 1) / 16777216 % 256 ≡ o.extended_rcode =
      omega (arith, f.rcode_fits, f.version_fits, f.flags_fit) in
    let b : rr_ttl_at q (n + 1) / 65536 % 256 ≡ o.version =
      omega (arith, f.rcode_fits, f.version_fits, f.flags_fit) in
    let c : rr_ttl_at q (n + 1) % 65536 ≡ o.opt_flags =
      omega (arith, f.rcode_fits, f.version_fits, f.flags_fit) in
    rw (v.class_is, a, b, c)
