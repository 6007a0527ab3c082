-- ===== src/Codec/Build.antt =====
-- The messages that src/codec/dns.rs builds: queries, error responses, and the cut of a response
-- that does not fit a UDP datagram.
pub mod Cleared
pub mod Truncate
pub mod Tests
pub mod Response
pub mod Query
pub mod Head
use cognidns_core.Prelude.{
  ℕ, ◌+◌, min, max, bit_and, bit_or, Bool, Option, none, some, ◌++◌, ltb, leb, ◌==◌, if◌then◌else◌,
  ◌>>=◌, length, take,
}
use cognidns_core.Codec.Name.{try_encode_name}
use cognidns_core.Codec.Edns.{
  extract_edns_opt, extract_opt_record_bytes, append_edns_opt_with_options, append_edns_opt,
  udp_payload_size_for_request,
}
use cognidns_core.Codec.Question.{parse_first_question}
use cognidns_core.Codec.Bytes.{Bytes, u16_at, be16, write, slice}
use cognidns_core.Codec.Header.{
  DnsHeader, parse_header, dns_rcode_servfail, dns_rcode_badvers, dns_edns_flag_do,
  checking_disabled, set_checking_disabled,
}
use cognidns_core.Codec.Edns.Rewrite.{
  strip_edns_opt_from_request, maybe_append_request_edns_opt_with_rcode,
  clone_edns_opt_from_request,
}

-- `let _ = f(&mut packet);`
abbrev pub or_else_keep : Bytes → Option Bytes → Bytes
or_else_keep p none = p
or_else_keep p (some q) = q

abbrev pub query_head : ℕ → Bool → Bytes
query_head id rd =
    be16 id ++ (be16 (if rd then 0x0100 else 0) ++ (be16 1 ++ (be16 0 ++ (be16 0 ++ be16 0))))

unfoldable pub build_query : ℕ → Bytes → ℕ → Bool → Option Bytes
unfolding try_encode_name
build_query id name qtype rd =
    try_encode_name name (query_head id rd) >>= λ packet. some (packet ++ (be16 qtype ++ be16 1))

-- The buffer is cleared first, so its old contents play no part.
unfoldable pub build_query_into : Bytes → ℕ → Bytes → ℕ → Bool → Option Bytes
unfolding try_encode_name
build_query_into buffer id name qtype rd =
    try_encode_name name (query_head id rd) >>= λ packet. some (packet ++ (be16 qtype ++ be16 1))

unfoldable pub build_query_like_request : Bytes → ℕ → Bytes → ℕ → Bool → Option Bytes
unfolding build_query clone_edns_opt_from_request
build_query_like_request template id name qtype rd = build_query id name qtype rd >>= λ packet.
    some (or_else_keep packet (clone_edns_opt_from_request template packet))

unfoldable pub build_dnssec_query_like_request : Bytes → ℕ → Bytes → ℕ → Bool → Bool → Option Bytes
unfolding build_query_like_request set_checking_disabled extract_edns_opt
    strip_edns_opt_from_request append_edns_opt_with_options append_edns_opt
build_dnssec_query_like_request template id name qtype rd checking_disabled = do
  query ← build_query_like_request template id name qtype rd
  packet ← set_checking_disabled query checking_disabled
  elim (extract_edns_opt packet) [
    | some edns ↦ strip_edns_opt_from_request packet >>= λ stripped.
        append_edns_opt_with_options stripped edns.udp_payload_size 0 0
          (bit_or edns.opt_flags dns_edns_flag_do) edns.options
    | none ↦ append_edns_opt packet 1232 dns_edns_flag_do
  ]

-- QR and RA set, the opcode and RD of the request, and the low bits of the code.
unfoldable pub response_flags : ℕ → ℕ → ℕ
response_flags request_flags rcode =
    bit_or
      (bit_or (bit_or (bit_or 0x8000 (bit_and request_flags 0x7800)) (bit_and request_flags 0x0100))
        0x0080)
      (bit_and rcode 0x000F)

abbrev pub response_head : ℕ → ℕ → ℕ → Bytes
response_head id flags qdcount =
    be16 id ++ (be16 flags ++ (be16 qdcount ++ (be16 0 ++ (be16 0 ++ be16 0))))

-- `none` for either error: a request that is too short, or has no first question to echo.
unfoldable pub build_response_with_rcode : Bytes → ℕ → Option Bytes
build_response_with_rcode request rcode = do
  header ← parse_header request
  let flags = response_flags header.flags rcode
  let echoed = parse_first_question request >>= λ q.
      some (response_head header.id flags 1 ++ slice request 12 q.2)
  response ← if header.qdcount == 0 then some (response_head header.id flags 0) else echoed
  some (or_else_keep response (maybe_append_request_edns_opt_with_rcode request response rcode))

unfoldable pub build_servfail_response : Bytes → Option Bytes
unfolding build_response_with_rcode
build_servfail_response request = build_response_with_rcode request dns_rcode_servfail

unfoldable pub build_badvers_response : Bytes → Option Bytes
unfolding build_response_with_rcode
build_badvers_response request = build_response_with_rcode request dns_rcode_badvers

-- `.max(512).min(u16::MAX)` of the size that the request offers
unfoldable pub udp_limit : Bytes → ℕ
unfolding udp_payload_size_for_request
udp_limit request = min (max (udp_payload_size_for_request request) 512) 65535

-- The header and first question of the response with TC set and empty sections.
unfoldable pub truncated_head : Bytes → DnsHeader → ℕ → Bytes
truncated_head response header qend =
    let cut = take qend response in
    let flagged = write cut 2 (be16 (bit_or (u16_at cut 2) 0x0200)) in
    let counted = write flagged 4 (be16 (if ltb 0 header.qdcount then header.qdcount else 1)) in
    write (write (write counted 6 (be16 0)) 8 (be16 0)) 10 (be16 0)

abbrev pub with_request_opt : ℕ → Bytes → Option Bytes → Bytes
with_request_opt limit truncated none = truncated
with_request_opt limit truncated (some opt) =
    if leb (length truncated + length opt) limit
    then write (truncated ++ opt) 10 (be16 1)
    else truncated

unfoldable pub truncate_response_for_udp : Bytes → Bytes → Option Bytes
truncate_response_for_udp request response =
    let cut = do
      header ← parse_header response
      q ← parse_first_question response
      some (
          with_request_opt (udp_limit request) (truncated_head response header q.2)
            (extract_opt_record_bytes request))
    in if leb (length response) (udp_limit request) then some response else cut
