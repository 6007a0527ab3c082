-- ===== src/Codec/Edns/Rewrite.antt =====
-- `strip_edns_opt_from_request` and `align_response_edns_to_request` of src/codec/dns.rs, and
-- the copy of a request's OPT record into a response.
use cognidns_core.Prelude.{
  ℕ, zero, suc, ◌/◌, ◌%◌, Bool, true, false, ◌||◌, Option, none, some, [], ◌∷◌, ◌++◌, leb, ◌==◌,
  if◌then◌else◌, ◌>>=◌, length, take,
}
use cognidns_core.Codec.Name.{skip_name}
use cognidns_core.Codec.Edns.{
  DnsEdnsOpt, build_edns_opt_record, additional_start, extract_edns_opt, extract_opt_record_bytes,
  checked_succ,
}
use cognidns_core.Codec.Section.{rr_type_at, rr_end}
use cognidns_core.Codec.Bytes.{Bytes, be16, write, slice}
use cognidns_core.Codec.Header.{parse_header}

-- What the loop over the additional records keeps: the bytes of the records that are no OPT
-- record, how many they are, and whether an OPT record was left out.
pub record Kept : Type 0 where
  pub bytes : Bytes
  pub count : ℕ
  pub removed : Bool

unfoldable pub keep_others : ℕ → Bytes → ℕ → Kept → Option Kept
keep_others zero p offset kept = some kept
keep_others (suc n) p offset kept = do
  name_end ← skip_name p offset
  next ← rr_end p name_end
  let is_opt = rr_type_at p name_end == 41
  count ← if is_opt then some kept.count else checked_succ kept.count
  keep_others n p next (record {
    bytes = if is_opt then kept.bytes else kept.bytes ++ slice p offset next;
    count = count;
    removed = is_opt || kept.removed;
  })

abbrev pub nothing_kept : Bytes → Kept
nothing_kept out = record { bytes = out; count = 0; removed = false }

unfoldable pub strip_edns_opt_from_request : Bytes → Option Bytes
strip_edns_opt_from_request p = do
  header ← parse_header p
  start ← additional_start p header
  kept ← keep_others header.arcount p start (nothing_kept (take start p))
  some (if kept.removed then write kept.bytes 10 (be16 kept.count) else p)

-- The OPT record of the request, with the options and the extended code of the response.
unfoldable pub aligned_opt : DnsEdnsOpt → Option DnsEdnsOpt → Bytes
unfolding build_edns_opt_record
aligned_opt request none = build_edns_opt_record request.udp_payload_size 0 0 request.opt_flags []
aligned_opt request (some response) =
    build_edns_opt_record request.udp_payload_size response.extended_rcode 0 request.opt_flags
      response.options

abbrev with_opt : Option DnsEdnsOpt → Option DnsEdnsOpt → Kept → Option (Bytes × ℕ)
with_opt none response kept = some (kept.bytes, kept.count)
with_opt (some request) response kept = checked_succ kept.count >>= λ arcount.
    some (kept.bytes ++ aligned_opt request response, arcount)

abbrev neither : Option DnsEdnsOpt → Option DnsEdnsOpt → Bool
neither none none = true
neither none (some b) = false
neither (some a) b = false

unfoldable pub align_response_edns_to_request : Bytes → Bytes → Option Bytes
align_response_edns_to_request response request =
    let request_edns = extract_edns_opt request in
    let response_edns = extract_edns_opt response in
    let aligned = do
      header ← parse_header response
      start ← additional_start response header
      kept ← keep_others header.arcount response start (nothing_kept (take start response))
      (out, arcount) ← with_opt request_edns response_edns kept
      some (write out 10 (be16 arcount))
    in if neither request_edns response_edns then some response else aligned

-- `opt[5]` and `opt[6]` are the extended code and the version if the owner is the root name.
unfoldable pub with_response_rcode : Bytes → ℕ → Bytes
unfolding write
with_response_rcode opt response_rcode =
    if leb 9 (length opt) then write opt 5 (response_rcode / 16 % 256 ∷ 0 ∷ []) else opt

-- The response with the request's OPT record, or `none` where the response stays as it was.
unfoldable pub maybe_append_request_edns_opt_with_rcode : Bytes → Bytes → ℕ → Option Bytes
maybe_append_request_edns_opt_with_rcode request response response_rcode = do
  opt ← extract_opt_record_bytes request
  header ← parse_header response
  arcount ← checked_succ header.arcount
  some (write (response ++ with_response_rcode opt response_rcode) 10 (be16 arcount))

unfoldable pub clone_edns_opt_from_request : Bytes → Bytes → Option Bytes
unfolding maybe_append_request_edns_opt_with_rcode
clone_edns_opt_from_request request response =
    maybe_append_request_edns_opt_with_rcode request response 0
