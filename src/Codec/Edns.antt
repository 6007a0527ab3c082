-- ===== src/Codec/Edns.antt =====
-- The EDNS OPT record (type 41) of src/codec/dns.rs: its options, its writer, and the functions
-- that find, add, strip and align it.
pub mod Stripped
pub mod Strip
pub mod RoundTrip
pub mod Record
pub mod Append
pub mod Options
pub mod Rewrite
use cognidns_core.Prelude.{
  ℕ, zero, suc, ◌+◌, ◌*◌, ◌/◌, ◌%◌, max, bit_and, Bool, true, false, not, Option, none, some, List,
  [], ◌∷◌, ◌++◌, ltb, leb, ◌==◌, if◌then◌else◌, ◌>>=◌, length, take, drop,
}
use cognidns_core.Codec.Name.{skip_name}
use cognidns_core.Codec.Section.{
  rr_type_at, rr_class_at, rr_ttl_at, rr_end, skip_rrs, skip_question_section,
}
use cognidns_core.Codec.Bytes.{Bytes, byte, u16_at, be16, be32, write, slice}
use cognidns_core.Codec.Header.{DnsHeader, parse_header, dns_edns_flag_do}

pub record DnsEdnsOption : Type 0 where
  pub code : ℕ
  pub payload : Bytes

pub record DnsEdnsOpt : Type 0 where
  pub udp_payload_size : ℕ
  pub extended_rcode : ℕ
  pub version : ℕ
  pub opt_flags : ℕ
  pub options : List DnsEdnsOption

-- `option.data.len() as u16` drops the high bits of a length.
unfoldable pub encode_options : List DnsEdnsOption → Bytes
encode_options [] = []
encode_options (o ∷ os) =
    be16 o.code ++ (be16 (length o.payload % 65536) ++ (o.payload ++ encode_options os))

-- `(u32::from(extended_rcode) << 24) | (u32::from(version) << 16) | u32::from(flags)`; the three
-- parts do not overlap, so `|` is a sum.
abbrev pub opt_ttl : ℕ → ℕ → ℕ → ℕ
opt_ttl extended_rcode version flags = extended_rcode * 16777216 + version * 65536 + flags

unfoldable pub build_edns_opt_record : ℕ → ℕ → ℕ → ℕ → List DnsEdnsOption → Bytes
build_edns_opt_record udp_payload_size extended_rcode version flags options =
    let rdata = encode_options options in
    0 ∷ be16 41
    ++ (be16 udp_payload_size
        ++ (be32 (opt_ttl extended_rcode version flags) ++ (be16 (length rdata % 65536) ++ rdata)))

-- Each round takes four bytes at least, so the length is fuel enough.
unfoldable pub parse_options_loop : ℕ → Bytes → ℕ → List DnsEdnsOption → Option (List DnsEdnsOption)
unfolding u16_at
parse_options_loop zero rdata offset options = some options
parse_options_loop (suc f) rdata offset options =
    let len = u16_at rdata (offset + 2) in
    let option : DnsEdnsOption = record {
      code = u16_at rdata offset;
      payload = slice rdata (offset + 4) (offset + 4 + len);
    } in
    let rest = parse_options_loop f rdata (offset + 4 + len) (options ++ (option ∷ [])) in
    if leb (length rdata) offset
    then some options
    else if ltb (length rdata) (offset + 4)
    then none
    else if ltb (length rdata) (offset + 4 + len)
    then none
    else rest

unfoldable pub parse_edns_options : Bytes → Option (List DnsEdnsOption)
unfolding parse_options_loop
parse_edns_options rdata = parse_options_loop (length rdata) rdata 0 []

-- The start of the additional section.
unfoldable pub additional_start : Bytes → DnsHeader → Option ℕ
additional_start p header = do
  offset ← skip_question_section p header
  offset' ← skip_rrs header.ancount p offset
  skip_rrs header.nscount p offset'

-- The loops over the additional records that look for the first OPT record: where it starts,
-- and where its owner name ends.
unfoldable pub find_opt : ℕ → Bytes → ℕ → Option (ℕ × ℕ × ℕ)
unfolding skip_name rr_end u16_at
find_opt zero p offset = none
find_opt (suc n) p offset = do
  name_end ← skip_name p offset
  next ← rr_end p name_end
  let rest = find_opt n p next
  if rr_type_at p name_end == 41 then some (offset, name_end, next) else rest

abbrev pub opt_at : Bytes → ℕ → ℕ → List DnsEdnsOption → DnsEdnsOpt
opt_at p name_end next options = record {
  udp_payload_size = rr_class_at p name_end;
  extended_rcode = rr_ttl_at p name_end / 16777216 % 256;
  version = rr_ttl_at p name_end / 65536 % 256;
  opt_flags = rr_ttl_at p name_end % 65536;
  options = options;
}

unfoldable pub extract_edns_opt : Bytes → Option DnsEdnsOpt
extract_edns_opt p = do
  header ← parse_header p
  offset ← additional_start p header
  (start, name_end, next) ← find_opt header.arcount p offset
  options ← parse_edns_options (slice p (name_end + 10) next)
  some (opt_at p name_end next options)

unfoldable pub extract_opt_record_bytes : Bytes → Option Bytes
unfolding parse_header additional_start find_opt
extract_opt_record_bytes p = do
  header ← parse_header p
  offset ← additional_start p header
  (start, name_end, next) ← find_opt header.arcount p offset
  some (slice p start next)

-- `checked_add(1)` on a u16
abbrev pub checked_succ : ℕ → Option ℕ
checked_succ n = if n == 65535 then none else some (n + 1)

unfoldable pub append_edns_opt_with_options :
    Bytes → ℕ → ℕ → ℕ → ℕ → List DnsEdnsOption → Option Bytes
append_edns_opt_with_options p udp_payload_size extended_rcode version flags options = do
  header ← parse_header p
  arcount ← checked_succ header.arcount
  some (
      write (p ++ build_edns_opt_record udp_payload_size extended_rcode version flags options) 10
        (be16 arcount))

unfoldable pub append_edns_opt_with_rcode : Bytes → ℕ → ℕ → ℕ → ℕ → Option Bytes
unfolding append_edns_opt_with_options
append_edns_opt_with_rcode p udp_payload_size extended_rcode version flags =
    append_edns_opt_with_options p udp_payload_size extended_rcode version flags []

unfoldable pub append_edns_opt : Bytes → ℕ → ℕ → Option Bytes
unfolding append_edns_opt_with_rcode
append_edns_opt p udp_payload_size flags = append_edns_opt_with_rcode p udp_payload_size 0 0 flags

abbrev pub opt_or {ℓ κ} : {A : Type ℓ} {B : Type κ} → Option A → (A → B) → B → B
opt_or none f d = d
opt_or (some a) f d = f a

unfoldable pub edns_version_supported : Bytes → Bool
unfolding extract_edns_opt
edns_version_supported p = opt_or (extract_edns_opt p) (λ opt. opt.version == 0) true

unfoldable pub dnssec_ok_requested : Bytes → Bool
unfolding extract_edns_opt
dnssec_ok_requested p =
    opt_or (extract_edns_opt p) (λ opt. not (bit_and opt.opt_flags dns_edns_flag_do == 0)) false

unfoldable pub udp_payload_size_for_request : Bytes → ℕ
unfolding extract_edns_opt
udp_payload_size_for_request p =
    opt_or (extract_edns_opt p) (λ opt. max opt.udp_payload_size 512) 4096

-- The first option with the code.
unfoldable pub find_option : ℕ → List DnsEdnsOption → Option Bytes
find_option code [] = none
find_option code (o ∷ os) = if o.code == code then some o.payload else find_option code os

unfoldable pub extract_edns_option : Bytes → ℕ → Option Bytes
unfolding extract_edns_opt find_option
extract_edns_option p code = extract_edns_opt p >>= λ opt. find_option code opt.options

unfoldable pub extract_edns_nsid : Bytes → Option Bytes
unfolding extract_edns_option
extract_edns_nsid p = extract_edns_option p 3

unfoldable pub extract_edns_cookie : Bytes → Option (Bytes × Option Bytes)
unfolding extract_edns_option
extract_edns_cookie p = extract_edns_option p 10 >>= λ cookie.
    if ltb (length cookie) 8
    then none
    else some (take 8 cookie, if ltb 8 (length cookie) then some (drop 8 cookie) else none)

pub record DnsEdnsClientSubnet : Type 0 where
  pub family : ℕ
  pub source_prefix : ℕ
  pub scope_prefix : ℕ
  pub address : Bytes

unfoldable pub extract_edns_client_subnet : Bytes → Option DnsEdnsClientSubnet
unfolding extract_edns_option u16_at
extract_edns_client_subnet p = extract_edns_option p 8 >>= λ subnet.
    if ltb (length subnet) 4
    then none
    else some (record {
      family = u16_at subnet 0;
      source_prefix = byte subnet 2;
      scope_prefix = byte subnet 3;
      address = drop 4 subnet;
    })

-- `header.flags & 0x000F`, and the high bits from the OPT record. The result fits a u16, since
-- the extended code is a byte; its low four bits are free, so `|` is a sum.
pub record DnsResponseOverview : Type 0 where
  pub response_id : ℕ
  pub rcode : ℕ
  pub answers : ℕ

unfoldable pub parse_response_overview : Bytes → Option DnsResponseOverview
unfolding parse_header extract_edns_opt
parse_response_overview p = parse_header p >>= λ header. some (record {
  response_id = header.id;
  rcode =
      opt_or (extract_edns_opt p) (λ opt. opt.extended_rcode) 0 * 16 + bit_and header.flags 0x000F;
  answers = header.ancount;
})

unfoldable pub response_code : Bytes → Option ℕ
unfolding parse_response_overview
response_code p = parse_response_overview p >>= λ o. some o.rcode

unfoldable pub answer_count : Bytes → Option ℕ
unfolding parse_response_overview
answer_count p = parse_response_overview p >>= λ o. some o.answers
