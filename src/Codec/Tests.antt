-- ===== src/Codec/Tests.antt =====
-- The DNS codec of src/codec/dns.rs on concrete packets.
use mathlib.Core.Option
use cognidns_core.Prelude.{
  ◌-◌, ◌≤◌, ◌<◌, min, ◌≡◌, refl, true, some, [], ◌∷◌, ◌++◌, arith, length, All,
}
use cognidns_core.Codec.Name.{
  is_pointer, skip_name_loop, skip_name, pointer_target, push_suffix, parse_labels,
  parse_name_with_depth, parse_name, encode_labels, canonical, encode_name, when_done,
}
use cognidns_core.Codec.Ttl.{
  note_ttl, min_ttl_loop, extract_cache_ttl, decay_record, decay_loop, decay_response_ttl_in_place,
}
use cognidns_core.Codec.Edns.{
  DnsEdnsOption, DnsEdnsOpt, encode_options, opt_ttl, build_edns_opt_record, parse_options_loop,
  parse_edns_options, additional_start, find_opt, opt_at, extract_edns_opt, checked_succ,
  append_edns_opt_with_options,
}
use cognidns_core.Codec.Text.{
  utf8_lead, utf8_from, is_utf8, text_eq, strip_prefix, strip_any, strip_while, trim_start_any,
  trim_end_any, trim, trim_end_dots, strip_dot, cons_head, split_dots, join_dots,
}
use cognidns_core.Codec.Section.{
  rr_end, skip_rr, skip_rrs, skip_question, skip_questions, skip_question_section,
}
use cognidns_core.Codec.Bytes.{Bytes, IsByte, u16_at, u32_at, write, slice}
use cognidns_core.Codec.Header.{DnsHeader, parse_header}
use cognidns_core.Codec.Edns.RoundTrip.{IsWhole, extract_edns_opt-append_edns_opt}
use cognidns_core.Codec.Edns.Record.{IsOpt}
use cognidns_core.Codec.Edns.Options.{IsOption, parse_edns_options-encode_options}
use cognidns_core.Codec.Ttl.Decay.{decay_response_frame, extract_cache_ttl-decay_response}
use cognidns_core.Codec.Name.RoundTrip.{parse_name-encode_name}
use cognidns_core.Codec.Name.Ends.{Skips, skip_name-Skips}
use cognidns_core.Codec.Name.Wire.{IsUtf8}
use cognidns_core.Codec.Name.Agree.{skip_name-parse_name}
use cognidns_core.Codec.Bytes.All.{all_bytes_sound}
use cognidns_core.Codec.Bytes.Frame.{SameOn}

program : Unit {0}
unfolding is_utf8 utf8_lead utf8_from text_eq strip_prefix strip_any strip_while trim_start_any
    trim_end_any trim trim_end_dots strip_dot cons_head split_dots join_dots is_pointer
    skip_name_loop skip_name pointer_target push_suffix parse_labels parse_name_with_depth
    parse_name encode_labels canonical encode_name when_done parse_header skip_questions
    skip_question skip_rrs skip_rr rr_end u16_at u32_at write slice encode_options opt_ttl
    build_edns_opt_record parse_options_loop parse_edns_options additional_start
    skip_question_section find_opt opt_at extract_edns_opt checked_succ append_edns_opt_with_options
    extract_cache_ttl min_ttl_loop note_ttl decay_record decay_loop decay_response_ttl_in_place
program = tt

-- "a.b."
abbrev dotted : Bytes
dotted = 97 ∷ 46 ∷ 98 ∷ 46 ∷ []

-- Behind two bytes.
abbrev on_wire : Bytes
on_wire = 0 ∷ 0 ∷ 1 ∷ 97 ∷ 1 ∷ 98 ∷ 0 ∷ []

dotted-encoded : encode_name dotted (0 ∷ 0 ∷ []) ≡ (on_wire, true)
unfolding program
dotted-encoded = refl

dotted-IsUtf8 : IsUtf8 (canonical dotted)
unfolding program
dotted-IsUtf8 = refl

parse_name-encode_name_example : parse_name (on_wire ++ (9 ∷ [])) 2 ≡ some (canonical dotted, 5)
parse_name-encode_name_example =
    parse_name-encode_name dotted (0 ∷ 0 ∷ []) on_wire (9 ∷ []) dotted-IsUtf8 dotted-encoded

on_wire-parsed : parse_name on_wire 2 ≡ some (97 ∷ 46 ∷ 98 ∷ [], 5)
unfolding program
on_wire-parsed = refl

skip_name-parse_name_example : (skip_name on_wire 2 ≡ some 7) × (0 < 5) × (7 ≤ 7)
skip_name-parse_name_example = skip_name-parse_name on_wire 2 (97 ∷ 46 ∷ 98 ∷ []) 5 on_wire-parsed

skip_name-Skips_example : Skips on_wire 2 (skip_name on_wire 2)
skip_name-Skips_example = skip_name-Skips on_wire 2

-- A response with one A record at the root, TTL 300.
abbrev packet : Bytes
packet =
    7 ∷ 8 ∷ 129 ∷ 128 ∷ 0 ∷ 0 ∷ 0 ∷ 1 ∷ 0 ∷ 0 ∷ 0 ∷ 0 ∷ 0 ∷ 0 ∷ 1 ∷ 0 ∷ 1 ∷ 0 ∷ 0 ∷ 1 ∷ 44 ∷ 0 ∷ 1
    ∷ 5 ∷ []

abbrev packet_header : DnsHeader
packet_header = record {
  id = 1800;
  flags = 33152;
  qdcount = 0;
  ancount = 1;
  nscount = 0;
  arcount = 0;
}

packet-bytes : All IsByte packet
packet-bytes = all_bytes_sound packet refl

packet-parsed : parse_header packet ≡ some packet_header
unfolding program
packet-parsed = refl

packet-questions : skip_questions packet_header.qdcount packet 12 ≡ some 12
unfolding program
packet-questions = refl

packet_ttl : extract_cache_ttl packet ≡ some 300
unfolding program
packet_ttl = refl

packet-decayed : extract_cache_ttl (decay_response_ttl_in_place packet 60) ≡ some 240
unfolding program
packet-decayed = refl

extract_cache_ttl-decay_response_example :
    extract_cache_ttl (decay_response_ttl_in_place packet 60)
    ≡ Option.map (λ t. t - min 60 4294967295) (extract_cache_ttl packet)
extract_cache_ttl-decay_response_example = extract_cache_ttl-decay_response packet 60 packet-bytes

decay_response_frame_example :
    (length (decay_response_ttl_in_place packet 60) ≡ length packet)
    × SameOn 0 12 packet (decay_response_ttl_in_place packet 60)
decay_response_frame_example = decay_response_frame packet 60 12 packet-parsed packet-questions

abbrev nsid : DnsEdnsOption
nsid = record { code = 3; payload = 65 ∷ 66 ∷ [] }

abbrev edns : DnsEdnsOpt
edns = record {
  udp_payload_size = 1232;
  extended_rcode = 0;
  version = 0;
  opt_flags = 32768;
  options = nsid ∷ [];
}

nsid-IsOption : IsOption nsid
nsid-IsOption = record { code_fits = omega arith; payload_fits = omega arith }

edns-IsOpt : IsOpt edns
unfolding program
edns-IsOpt = record {
  size_fits = omega arith;
  rcode_fits = omega arith;
  version_fits = omega arith;
  flags_fit = omega arith;
  options_fit = omega arith;
}

packet-IsWhole : IsWhole packet packet_header 24
unfolding program
packet-IsWhole = record {
  bytes = packet-bytes;
  header = packet-parsed;
  sections = refl;
  filled = refl;
  no_opt = refl;
}

abbrev packet_with_edns : Bytes
packet_with_edns =
    7 ∷ 8 ∷ 129 ∷ 128 ∷ 0 ∷ 0 ∷ 0 ∷ 1 ∷ 0 ∷ 0 ∷ 0 ∷ 1 ∷ 0 ∷ 0 ∷ 1 ∷ 0 ∷ 1 ∷ 0 ∷ 0 ∷ 1 ∷ 44 ∷ 0 ∷ 1
    ∷ 5 ∷ 0 ∷ 0 ∷ 41 ∷ 4 ∷ 208 ∷ 0 ∷ 0 ∷ 128 ∷ 0 ∷ 0 ∷ 6 ∷ 0 ∷ 3 ∷ 0 ∷ 2 ∷ 65 ∷ 66 ∷ []

packet-appended :
    append_edns_opt_with_options packet edns.udp_payload_size edns.extended_rcode edns.version
      edns.opt_flags edns.options
    ≡ some packet_with_edns
unfolding program
packet-appended = refl

extract_edns_opt-append_edns_opt_example :
    (extract_edns_opt packet_with_edns ≡ some edns)
    × (parse_header packet_with_edns ≡ some (record packet_header { arcount = 1 }))
extract_edns_opt-append_edns_opt_example =
    extract_edns_opt-append_edns_opt packet packet_with_edns packet_header 24 edns packet-IsWhole
      edns-IsOpt (nsid-IsOption, tt) packet-appended

parse_edns_options-encode_options_example :
    parse_edns_options (encode_options (nsid ∷ nsid ∷ [])) ≡ some (nsid ∷ nsid ∷ [])
parse_edns_options-encode_options_example =
    parse_edns_options-encode_options (nsid ∷ nsid ∷ []) (nsid-IsOption, (nsid-IsOption, tt))
