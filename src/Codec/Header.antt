-- ===== src/Codec/Header.antt =====
-- The fixed header of src/codec/dns.rs and its flag bits.
pub mod Frame
use cognidns_core.Prelude.{
  ℕ, ◌-◌, bit_and, bit_or, Bool, false, not, Option, none, some, [], ◌∷◌, ltb, leb, ◌==◌,
  if◌then◌else◌, length,
}
use cognidns_core.Codec.Bytes.{Bytes, byte, u16_at, be16, write}

pub record DnsHeader : Type 0 where
  pub id : ℕ
  pub flags : ℕ
  pub qdcount : ℕ
  pub ancount : ℕ
  pub nscount : ℕ
  pub arcount : ℕ

-- The only error, "dns packet too short", is `none`.
unfoldable pub parse_header : Bytes → Option DnsHeader
unfolding u16_at
parse_header p =
    if ltb (length p) 12
    then none
    else some (record {
      id = u16_at p 0;
      flags = u16_at p 2;
      qdcount = u16_at p 4;
      ancount = u16_at p 6;
      nscount = u16_at p 8;
      arcount = u16_at p 10;
    })

abbrev pub dns_rcode_formerr : ℕ
dns_rcode_formerr = 1

abbrev pub dns_rcode_servfail : ℕ
dns_rcode_servfail = 2

abbrev pub dns_rcode_notimp : ℕ
dns_rcode_notimp = 4

abbrev pub dns_rcode_refused : ℕ
dns_rcode_refused = 5

abbrev pub dns_rcode_badvers : ℕ
dns_rcode_badvers = 16

abbrev pub dns_flag_ad : ℕ
dns_flag_ad = 0x0020

abbrev pub dns_flag_cd : ℕ
dns_flag_cd = 0x0010

abbrev pub dns_edns_flag_do : ℕ
dns_edns_flag_do = 0x8000

-- `flags |= mask` or `flags &= !mask`, on a u16
unfoldable pub set_flag : ℕ → Bool → ℕ → ℕ
set_flag mask enabled flags = if enabled then bit_or flags mask else bit_and flags (65535 - mask)

unfoldable pub checking_disabled : Bytes → Bool
unfolding u16_at
checking_disabled p =
    if ltb (length p) 4 then false else not (bit_and (u16_at p 2) dns_flag_cd == 0)

unfoldable pub authentic_data : Bytes → Bool
unfolding u16_at
authentic_data p = if ltb (length p) 4 then false else not (bit_and (u16_at p 2) dns_flag_ad == 0)

-- In place: the new contents of the packet.
unfoldable pub set_authentic_data : Bytes → Bool → Bytes
unfolding u16_at set_flag write
set_authentic_data p enabled =
    if ltb (length p) 4 then p else write p 2 (be16 (set_flag dns_flag_ad enabled (u16_at p 2)))

unfoldable pub set_checking_disabled : Bytes → Bool → Option Bytes
unfolding u16_at set_flag write
set_checking_disabled p enabled =
    if ltb (length p) 4
    then none
    else some (write p 2 (be16 (set_flag dns_flag_cd enabled (u16_at p 2))))

unfoldable pub set_recursion_desired : Bytes → Bool → Option Bytes
unfolding u16_at set_flag write
set_recursion_desired p rd =
    if ltb (length p) 4 then none else some (write p 2 (be16 (set_flag 0x0100 rd (u16_at p 2))))

unfoldable pub clear_header_rcode : Bytes → Bytes
unfolding write
clear_header_rcode p = if leb 4 (length p) then write p 3 (bit_and (byte p 3) 0xF0 ∷ []) else p
