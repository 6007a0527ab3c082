-- ===== src/Codec/Build/Tests.antt =====
-- Queries and responses of src/codec/dns.rs on concrete packets.
use cognidns_core.Prelude.{
  ◌≤◌, ◌<◌, max, ◌≡◌, refl, true, none, some, [], ◌∷◌, ◌++◌, arith, length, replicate,
}
use cognidns_core.Codec.Name.{
  is_pointer, skip_name_loop, skip_name, encode_labels, canonical, encode_name, try_encode_name,
}
use cognidns_core.Codec.Edns.{
  parse_options_loop, parse_edns_options, additional_start, find_opt, extract_edns_opt,
  extract_opt_record_bytes, udp_payload_size_for_request,
}
use cognidns_core.Codec.Text.{
  utf8_lead, utf8_from, is_utf8, text_eq, strip_prefix, strip_any, strip_while, trim_start_any,
  trim_end_any, trim, strip_dot, cons_head, split_dots, join_dots,
}
use cognidns_core.Codec.Build.{
  build_query, response_flags, build_response_with_rcode, udp_limit, truncated_head,
  truncate_response_for_udp,
}
use cognidns_core.Codec.Section.{
  rr_end, skip_rrs, skip_question, skip_questions, skip_question_section,
}
use cognidns_core.Codec.Question.{
  question_labels, parse_first_question_from_header, parse_first_question,
}
use cognidns_core.Codec.Bytes.{Bytes, u16_at, write}
use cognidns_core.Codec.Header.{DnsHeader, parse_header}
use cognidns_core.Codec.Edns.Rewrite.{
  keep_others, strip_edns_opt_from_request, with_response_rcode,
  maybe_append_request_edns_opt_with_rcode,
}
use cognidns_core.Codec.Edns.Stripped.{extract_edns_opt-strip_edns_opt}
use cognidns_core.Codec.Question.Labels.{shown}
use cognidns_core.Codec.Name.Wire.{IsUtf8}
use cognidns_core.Codec.Build.Query.{query_header, parse_first_question-build_query}
use cognidns_core.Codec.Build.Response.{IsResponseTo, build_response-IsResponseTo}
use cognidns_core.Codec.Build.Truncate.{IsTruncated, truncate_response-IsTruncated}
use cognidns_core.Codec.Bytes.All.{all_bytes_sound}

program : Unit {0}
unfolding strip_edns_opt_from_request keep_others rr_end udp_limit udp_payload_size_for_request
    extract_edns_opt parse_edns_options parse_options_loop truncate_response_for_udp truncated_head
    is_utf8 utf8_lead utf8_from text_eq strip_prefix strip_any strip_while trim_start_any
    trim_end_any trim strip_dot cons_head split_dots join_dots encode_labels canonical encode_name
    try_encode_name build_query parse_header question_labels parse_first_question_from_header
    parse_first_question u16_at write response_flags build_response_with_rcode
    maybe_append_request_edns_opt_with_rcode with_response_rcode extract_opt_record_bytes
    additional_start skip_question_section skip_questions skip_question skip_rrs find_opt skip_name
    skip_name_loop is_pointer
program = tt

-- "a."
abbrev name : Bytes
name = 97 ∷ 46 ∷ []

abbrev query : Bytes
query = 1 ∷ 2 ∷ 1 ∷ 0 ∷ 0 ∷ 1 ∷ 0 ∷ 0 ∷ 0 ∷ 0 ∷ 0 ∷ 0 ∷ 1 ∷ 97 ∷ 0 ∷ 0 ∷ 28 ∷ 0 ∷ 1 ∷ []

name-IsUtf8 : IsUtf8 (canonical name)
unfolding program
name-IsUtf8 = refl

query-built : build_query 258 name 28 true ≡ some query
unfolding program
query-built = refl

parse_first_question-build_query_example :
    (parse_header query ≡ some (query_header 258 256))
    × (parse_first_question query ≡ some (shown (canonical name), 28, 19))
parse_first_question-build_query_example =
    parse_first_question-build_query 258 name 28 true query (omega arith) (omega arith) name-IsUtf8
      query-built

abbrev servfail : Bytes
servfail = 1 ∷ 2 ∷ 129 ∷ 130 ∷ 0 ∷ 1 ∷ 0 ∷ 0 ∷ 0 ∷ 0 ∷ 0 ∷ 0 ∷ 1 ∷ 97 ∷ 0 ∷ 0 ∷ 28 ∷ 0 ∷ 1 ∷ []

query-parsed : parse_header query ≡ some (query_header 258 256)
unfolding program
query-parsed = refl

query-answered : build_response_with_rcode query 2 ≡ some servfail
unfolding program
query-answered = refl

build_response-IsResponseTo_example : IsResponseTo query (query_header 258 256) 2 servfail
build_response-IsResponseTo_example =
    build_response-IsResponseTo query servfail (query_header 258 256) 2 (all_bytes_sound query refl)
      query-parsed query-answered

-- The query with an OPT record that offers 512 bytes.
abbrev small_query : Bytes
small_query =
    1 ∷ 2 ∷ 1 ∷ 0 ∷ 0 ∷ 1 ∷ 0 ∷ 0 ∷ 0 ∷ 0 ∷ 0 ∷ 1 ∷ 1 ∷ 97 ∷ 0 ∷ 0 ∷ 28 ∷ 0 ∷ 1 ∷ 0 ∷ 0 ∷ 41 ∷ 2 ∷ 0
    ∷ 0 ∷ 0 ∷ 0 ∷ 0 ∷ 0 ∷ 0 ∷ []

-- The response with more bytes behind it than are read.
abbrev long_response : Bytes
long_response = servfail ++ replicate 600 0

abbrev long_header : DnsHeader
long_header = record { id = 258; flags = 33154; qdcount = 1; ancount = 0; nscount = 0; arcount = 0 }

abbrev cut_response : Bytes
cut_response =
    1 ∷ 2 ∷ 131 ∷ 130 ∷ 0 ∷ 1 ∷ 0 ∷ 0 ∷ 0 ∷ 0 ∷ 0 ∷ 1 ∷ 1 ∷ 97 ∷ 0 ∷ 0 ∷ 28 ∷ 0 ∷ 1 ∷ 0 ∷ 0 ∷ 41 ∷ 2
    ∷ 0 ∷ 0 ∷ 0 ∷ 0 ∷ 0 ∷ 0 ∷ 0 ∷ []

over_limit : udp_limit small_query < length long_response
unfolding program
over_limit = omega arith

long-parsed : parse_header long_response ≡ some long_header
unfolding program
long-parsed = refl

long-question : parse_first_question long_response ≡ some (97 ∷ [], 28, 19)
unfolding program
long-question = refl

long-cut : truncate_response_for_udp small_query long_response ≡ some cut_response
unfolding program
long-cut = refl

truncate_response-IsTruncated_example :
    (length cut_response ≤ max (udp_limit small_query) 19)
    × IsTruncated small_query long_response long_header 19 cut_response
truncate_response-IsTruncated_example =
    truncate_response-IsTruncated small_query long_response (97 ∷ []) cut_response long_header 28 19
      (all_bytes_sound long_response refl) over_limit long-parsed long-question long-cut

abbrev stripped_query : Bytes
stripped_query = 1 ∷ 2 ∷ 1 ∷ 0 ∷ 0 ∷ 1 ∷ 0 ∷ 0 ∷ 0 ∷ 0 ∷ 0 ∷ 0 ∷ 1 ∷ 97 ∷ 0 ∷ 0 ∷ 28 ∷ 0 ∷ 1 ∷ []

small_query-stripped : strip_edns_opt_from_request small_query ≡ some stripped_query
unfolding program
small_query-stripped = refl

extract_edns_opt-strip_edns_opt_example : extract_edns_opt stripped_query ≡ none
extract_edns_opt-strip_edns_opt_example =
    extract_edns_opt-strip_edns_opt small_query stripped_query small_query-stripped
