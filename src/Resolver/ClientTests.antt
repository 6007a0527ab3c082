-- ===== src/Resolver/ClientTests.antt =====
-- The responses for clients, names, zones and upstreams of src/resolver on concrete inputs.
use cognidns_core.Prelude.{
  ℕ, ◌-◌, ◌≡◌, refl, ◌⊎◌, true, false, Option, none, some, List, [], ◌∷◌, map, arith, length, drop,
  All,
}
use cognidns_core.Maps.{text_key, find_key, update_entry, modify_key}
use cognidns_core.Codec.Name.{
  is_pointer, skip_name_loop, skip_name, pointer_target, push_suffix, parse_labels,
  parse_name_with_depth, parse_name, encode_labels, canonical, encode_name, try_encode_name,
}
use cognidns_core.Codec.Ttl.{
  note_ttl, min_ttl_loop, extract_cache_ttl, decay_record, decay_loop, decay_response_ttl_in_place,
}
use cognidns_core.Codec.Edns.{
  encode_options, build_edns_opt_record, parse_options_loop, parse_edns_options, additional_start,
  find_opt, extract_edns_opt, extract_opt_record_bytes, append_edns_opt_with_options,
  udp_payload_size_for_request,
}
use cognidns_core.Codec.Text.{
  utf8_lead, utf8_from, text_eq, strip_prefix, strip_any, strip_while, trim_start_any, trim_end_any,
  trim, trim_end_dots, strip_dot, split_dots, join_dots, lower_byte, to_lower, is_prefix, ends_with,
}
use cognidns_core.Codec.Build.{
  build_query, response_flags, build_response_with_rcode, udp_limit, truncated_head,
  truncate_response_for_udp,
}
use cognidns_core.Codec.Section.{
  rr_end, skip_rr, skip_rrs, skip_question, skip_questions, skip_question_section,
  scan_single_resource_record, scan_resource_records, scan_answer_records,
}
use cognidns_core.Codec.Question.{
  question_labels, parse_first_question_from_header, parse_first_question,
}
use cognidns_core.Codec.Answers.{
  address_text, address_at, answer_ips_loop, extract_answer_ips, read_slots, address_records,
  rank_map, rank_of, goes_first, insert_address, sort_addresses, rebuild, concat_bytes,
  reorder_slots, reorder_answers, reorder_answer_address_records,
}
use cognidns_core.Codec.Bytes.{Bytes, u16_at, u32_at, write}
use cognidns_core.Codec.Header.{parse_header}
use cognidns_core.Codec.Edns.Rewrite.{
  keep_others, strip_edns_opt_from_request, align_response_edns_to_request, with_response_rcode,
  maybe_append_request_edns_opt_with_rcode,
}
use cognidns_core.Resolver.Names.{
  domain_is_same_or_subdomain_of, normalize_qname, cache_key_for_query, suffixes_of,
  iter_domain_suffixes, iterative_minimized_qname, upper_byte, to_upper, type_named,
  parse_zone_record_qtype, aux_cache_shard_index,
}
use cognidns_core.Codec.Answers.Rewrite.{
  question_end, same_questions, rewrite_question_from_request, reencode_loop,
  rewrite_question_and_reencode_answers,
}
use cognidns_core.Codec.Answers.Scans.{cname_target, visit_first_cname, extract_first_answer_cname}
use cognidns_core.Codec.Text.Address.{radix_loop, ipv4_text}
use cognidns_core.Cache.Domain.{same_or_subdomain, any_domain}
use cognidns_core.Cache.Shard.{key_eq}
use cognidns_core.TopN.State.{insert_desc, sort_desc}
use cognidns_core.Resolver.Upstreams.{
  UpstreamState, is_healthy, round_robin, with_health, select_upstream_order,
}
use cognidns_core.Resolver.Client.{
  normalize_response_for_client_in_place, normalize_response_for_client, question_sections_match,
  has_first_cname, normalize_chain, restore_question, finalize_response_for_client,
}
use cognidns_core.Resolver.Delegation.{
  DelegationCacheEntry, DelegationCache, DelegationConfig, cleanup_delegation_cache_if_needed,
  cools_down, visit_zone, visit_zones, get_cached_delegation_endpoints,
}
use cognidns_core.Resolver.Zones.{
  AuthoritativeZone, AuthoritativeZoneEntry, index_record, index_records, build_zone_record_index,
  zone_entry, build_authoritative_zone_entries, first_zone, find_authoritative_zone,
}
use cognidns_core.Resolver.Zones.Longest.{InZone, NotRoot, IsLongest, find_zone-IsLongest}
use cognidns_core.Resolver.Client.Flags.{IsForClient, finalize_response-plain}
use cognidns_core.Resolver.Delegation.Closest.{first_usable, get_delegation-closest}
use cognidns_core.Resolver.Upstreams.Order.{IsOrder, select_upstream_order-IsOrder}
use cognidns_core.Resolver.Names.Minimized.{minimized-subdomain}

program : Unit {0}
unfolding cname_target get_cached_delegation_endpoints visit_zones visit_zone
    cleanup_delegation_cache_if_needed cools_down aux_cache_shard_index modify_key ends_with
    to_lower lower_byte additional_start address_at address_records address_text
    align_response_edns_to_request answer_ips_loop any_domain append_edns_opt_with_options
    build_authoritative_zone_entries build_edns_opt_record build_query build_response_with_rcode
    build_zone_record_index cache_key_for_query canonical concat_bytes decay_loop decay_record
    decay_response_ttl_in_place domain_is_same_or_subdomain_of encode_labels encode_name
    encode_options extract_answer_ips extract_cache_ttl extract_edns_opt extract_first_answer_cname
    extract_opt_record_bytes finalize_response_for_client find_authoritative_zone find_key find_opt
    first_zone goes_first index_record index_records insert_address insert_desc ipv4_text is_healthy
    is_pointer is_prefix iter_domain_suffixes iterative_minimized_qname join_dots keep_others key_eq
    maybe_append_request_edns_opt_with_rcode min_ttl_loop normalize_chain normalize_qname
    normalize_response_for_client normalize_response_for_client_in_place note_ttl parse_edns_options
    parse_first_question parse_first_question_from_header parse_header parse_labels parse_name
    parse_name_with_depth parse_options_loop parse_zone_record_qtype pointer_target push_suffix
    question_end question_labels question_sections_match radix_loop rank_map rank_of read_slots
    rebuild reencode_loop reorder_answer_address_records reorder_answers reorder_slots
    response_flags restore_question rewrite_question_and_reencode_answers
    rewrite_question_from_request round_robin rr_end same_or_subdomain same_questions
    scan_answer_records scan_resource_records scan_single_resource_record select_upstream_order
    skip_name skip_name_loop skip_question skip_question_section skip_questions skip_rr skip_rrs
    sort_addresses sort_desc split_dots strip_any strip_dot strip_edns_opt_from_request strip_prefix
    strip_while suffixes_of text_eq to_upper trim trim_end_any trim_end_dots trim_start_any
    truncate_response_for_udp truncated_head try_encode_name type_named u16_at u32_at udp_limit
    udp_payload_size_for_request update_entry upper_byte utf8_from utf8_lead visit_first_cname
    with_health with_response_rcode write zone_entry
program = tt

-- A question for an A record of `a`, with RD.
abbrev client_query : Bytes
client_query = 7 ∷ 9 ∷ 1 ∷ 0 ∷ 0 ∷ 1 ∷ 0 ∷ 0 ∷ 0 ∷ 0 ∷ 0 ∷ 0 ∷ 1 ∷ 97 ∷ 0 ∷ 0 ∷ 1 ∷ 0 ∷ 1 ∷ []

-- An authoritative answer without RD and RA.
abbrev upstream_answer : Bytes
upstream_answer =
    1 ∷ 2 ∷ 132 ∷ 0 ∷ 0 ∷ 1 ∷ 0 ∷ 1 ∷ 0 ∷ 0 ∷ 0 ∷ 0 ∷ 1 ∷ 97 ∷ 0 ∷ 0 ∷ 1 ∷ 0 ∷ 1 ∷ 192 ∷ 12 ∷ 0 ∷ 1
    ∷ 0 ∷ 1 ∷ 0 ∷ 0 ∷ 0 ∷ 9 ∷ 0 ∷ 4 ∷ 10 ∷ 0 ∷ 0 ∷ 1 ∷ []

answer_plain : has_first_cname upstream_answer ≡ false
unfolding program
answer_plain = refl

answer_matches : question_sections_match upstream_answer client_query ≡ some true
unfolding program
answer_matches = refl

query_without_opt : extract_edns_opt client_query ≡ none
unfolding program
query_without_opt = refl

answer_without_opt : extract_edns_opt upstream_answer ≡ none
unfolding program
answer_without_opt = refl

finalize_response-plain_example :
    IsForClient client_query upstream_answer
      (finalize_response_for_client client_query upstream_answer)
finalize_response-plain_example =
    finalize_response-plain client_query upstream_answer (omega arith) (omega arith) answer_plain
      answer_matches query_without_opt answer_without_opt

-- `mail.Example.` and its normalized form
abbrev mail_name : Bytes
mail_name = 109 ∷ 46 ∷ 69 ∷ 46 ∷ []

mail_not_root : text_eq (normalize_qname mail_name) (46 ∷ []) ≡ false
unfolding program
mail_not_root = refl

mail_normalized : normalize_qname (normalize_qname mail_name) ≡ normalize_qname mail_name
unfolding program
mail_normalized = refl

first_label : iterative_minimized_qname mail_name 0 ≡ 101 ∷ []
unfolding program
first_label = refl

minimized-subdomain_example :
    (iterative_minimized_qname mail_name 0
      ≡ join_dots (
          drop
            (length (split_dots (normalize_qname mail_name)) - 1)
            (split_dots (normalize_qname mail_name))))
    × (same_or_subdomain (normalize_qname mail_name) (iterative_minimized_qname mail_name 0) ≡ true)
minimized-subdomain_example = minimized-subdomain mail_name 0 mail_not_root mail_normalized

-- The zones `e` and `m.e`
abbrev zone_of : Bytes → AuthoritativeZone
zone_of name = record { zone_title = name; zone_soa = none; zone_records = [] }

abbrev two_zones : List AuthoritativeZone
two_zones = zone_of (101 ∷ []) ∷ zone_of (109 ∷ 46 ∷ 101 ∷ []) ∷ []

closest_zone :
    find_authoritative_zone (build_authoritative_zone_entries two_zones) mail_name
    ≡ some (zone_entry (zone_of (109 ∷ 46 ∷ 101 ∷ [])))
unfolding program
closest_zone = refl

-- A zone for the root is not found for a name below it.
root_zone_unused :
    find_authoritative_zone (build_authoritative_zone_entries (zone_of (46 ∷ []) ∷ [])) mail_name
    ≡ none
unfolding program
root_zone_unused = refl

no_root_zone : All NotRoot (map zone_entry two_zones)
unfolding program
no_root_zone = (λ h. cc, (λ h. cc, tt))

find_zone-IsLongest_example :
    ((e : AuthoritativeZoneEntry) × (find_authoritative_zone
          (build_authoritative_zone_entries two_zones)
          mail_name
        ≡ some e)
      × IsLongest (normalize_qname mail_name) (map zone_entry two_zones) e)
    ⊎ ((find_authoritative_zone (build_authoritative_zone_entries two_zones) mail_name ≡ none)
        × All
            (λ e. ¬ InZone (normalize_qname mail_name) e.zone_name)
            (build_authoritative_zone_entries two_zones))
find_zone-IsLongest_example = find_zone-IsLongest two_zones mail_name no_root_zone

abbrev upstream_with : Option ℕ → ℕ → UpstreamState
upstream_with deadline points = record {
  consecutive_failures = 0;
  last_rtt = none;
  unhealthy_until = deadline;
  successes = 0;
  failures = 0;
  score = points;
}

abbrev three_upstreams : List UpstreamState
three_upstreams = upstream_with (some 9) 8 ∷ upstream_with none 3 ∷ upstream_with (some 4) 5 ∷ []

healthy_first : select_upstream_order three_upstreams 7 5 ≡ 2 ∷ 1 ∷ 0 ∷ []
unfolding program
healthy_first = refl

select_upstream_order-IsOrder_example :
    IsOrder three_upstreams 5 (select_upstream_order three_upstreams 7 5)
select_upstream_order-IsOrder_example = select_upstream_order-IsOrder three_upstreams 7 5

abbrev delegation_config : DelegationConfig
delegation_config = record {
  enable_delegation_cache = true;
  delegation_cache_capacity = 4;
  delegation_cache_ttl_cap = 3600000000000;
  delegation_cache_cleanup_interval = 50;
  delegation_failure_backoff = 30;
}

abbrev delegation : Bytes → Option ℕ → DelegationCacheEntry
delegation server cooldown = record {
  endpoints = server ∷ [];
  expires_at = 90;
  last_access = 10;
  cooldown_until = cooldown;
}

-- The delegation of `m.e` cools down, that of `e` does not.
abbrev two_delegations : DelegationCache
two_delegations =
    record {
      entries =
          (109 ∷ 46 ∷ 101 ∷ [], delegation (49 ∷ []) (some 40))
          ∷ (101 ∷ [], delegation (50 ∷ []) none)
          ∷ [];
      last_cleanup = 0;
    }
    ∷ []

parent_answers :
    (get_cached_delegation_endpoints delegation_config length
      (λ e. true)
      20
      two_delegations
      mail_name).1
    ≡ some (101 ∷ [], (50 ∷ []) ∷ [])
unfolding program
parent_answers = refl

get_delegation-closest_example :
    (get_cached_delegation_endpoints delegation_config length
      (λ e. true)
      20
      two_delegations
      mail_name).1
    ≡ first_usable delegation_config length
        (λ e. true)
        20
        two_delegations
        (map normalize_qname (iter_domain_suffixes mail_name))
get_delegation-closest_example =
    get_delegation-closest delegation_config length (λ e. true) 20 two_delegations mail_name refl
      (λ e. omega arith) (omega arith)
