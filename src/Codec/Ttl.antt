-- ===== src/Codec/Ttl.antt =====
-- The TTLs of a cached response in src/codec/dns.rs: the smallest one, the negative one of the
-- SOA record, and the decay of all of them by the time that the response was kept.
pub mod Loops
pub mod Rounds
pub mod Decay
use cognidns_core.Prelude.{
  ℕ, zero, suc, ◌+◌, ◌-◌, min, Bool, true, false, not, ◌||◌, Option, none, some, ltb, ◌==◌,
  if◌then◌else◌, ◌>>=◌, length,
}
use cognidns_core.Codec.Name.{skip_name, parse_name}
use cognidns_core.Codec.Section.{
  rr_type_at, rr_ttl_at, rr_end, skip_questions, DnsSection, authority, DnsRecordView, ScanEnd,
  failed, broke, continued, scan_resource_records,
}
use cognidns_core.Codec.Bytes.{Bytes, u16_at, u32_at, be32, write}
use cognidns_core.Codec.Header.{DnsHeader, parse_header}

-- `min_ttl = Some(match min_ttl { Some(current) => current.min(ttl), None => ttl })`, where an
-- OPT record has no TTL
unfoldable pub note_ttl : ℕ → ℕ → Option ℕ → Option ℕ
note_ttl rr_type ttl none = if rr_type == 41 then none else some ttl
note_ttl rr_type ttl (some current) = if rr_type == 41 then some current else some (min current ttl)

-- The loop over all records. Outer `none`: a record is cut off.
unfoldable pub min_ttl_loop : ℕ → Bytes → ℕ → Option ℕ → Option (Option ℕ)
unfolding skip_name rr_end u16_at u32_at note_ttl
min_ttl_loop zero p offset min_ttl = some min_ttl
min_ttl_loop (suc n) p offset min_ttl = do
  name_end ← skip_name p offset
  next ← rr_end p name_end
  min_ttl_loop n p next (note_ttl (rr_type_at p name_end) (rr_ttl_at p name_end) min_ttl)

abbrev pub total_records : DnsHeader → ℕ
total_records header = header.ancount + header.nscount + header.arcount

-- In seconds.
unfoldable pub extract_cache_ttl : Bytes → Option ℕ
unfolding parse_header skip_questions min_ttl_loop
extract_cache_ttl p = do
  header ← parse_header p
  offset ← skip_questions header.qdcount p 12
  min_ttl ← min_ttl_loop (total_records header) p offset none
  min_ttl

-- `ttl.saturating_sub(elapsed_secs)`, written back
unfoldable pub decay_record : Bytes → ℕ → ℕ → Bytes
unfolding u32_at write
decay_record p name_end elapsed = write p (name_end + 4) (be32 (rr_ttl_at p name_end - elapsed))

-- The loop over all records stops at the first one that is cut off. The length of the record's
-- data is tested after the write, and read from the packet with the write in it.
unfoldable pub decay_loop : ℕ → Bytes → ℕ → ℕ → Bytes
unfolding skip_name rr_end u16_at decay_record
decay_loop zero p offset elapsed = p
decay_loop (suc n) p offset elapsed = elim (skip_name p offset) [
  | none ↦ p
  | some name_end ↦
      let q = decay_record p name_end elapsed in
      let cut : Bytes = elim (rr_end q name_end) [
        | none ↦ q
        | some next ↦ decay_loop n q next elapsed
      ] in
      if ltb (length p) (name_end + 10) then p else cut
]

-- `elapsed` in whole seconds, at most `u32::MAX`
unfoldable pub decay_response_ttl_in_place : Bytes → ℕ → Bytes
unfolding parse_header skip_questions decay_loop
decay_response_ttl_in_place p elapsed = elim (parse_header p) [
  | none ↦ p
  | some header ↦ elim (skip_questions header.qdcount p 12) [
    | none ↦ p
    | some offset ↦ decay_loop (total_records header) p offset (min elapsed 4294967295)
  ]
]

-- The visitor of `extract_negative_cache_ttl`: the SOA record's TTL, at most its MINIMUM field.
unfoldable pub visit_soa : Bytes → Option ℕ → DnsSection → DnsRecordView → Option ℕ × Bool
unfolding parse_name u32_at
visit_soa p result authority r =
    if not (r.rr_class == 1) || not (r.rr_type == 6)
    then (result, false)
    else (elim (parse_name p r.rdata_offset) [
      | none ↦ (result, false)
      | some (mname, mname_len) ↦ elim (parse_name p (r.rdata_offset + mname_len)) [
        | none ↦ (result, false)
        | some (rname, rname_len) ↦
            let fields = r.rdata_offset + mname_len + rname_len in
            if ltb (length p) (fields + 20)
            then (result, false)
            else (some (min r.ttl (u32_at p (fields + 16))), true)
      ]
    ])
visit_soa p result section r = (result, false)

abbrev scan_result : {A : Type 0} → Option A × ScanEnd → Option A
scan_result (result, failed) = none
scan_result (result, broke) = result
scan_result (result, continued o) = result

unfoldable pub extract_negative_cache_ttl : Bytes → Option ℕ
unfolding parse_header scan_resource_records visit_soa
extract_negative_cache_ttl p =
    parse_header p >>= λ header. scan_result (scan_resource_records (visit_soa p) p header none)
