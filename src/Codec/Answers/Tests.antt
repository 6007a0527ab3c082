-- ===== src/Codec/Answers/Tests.antt =====
-- The reordering of answers in src/codec/dns.rs on concrete responses.
use cognidns_core.Prelude.{ℕ, ◌≡◌, refl, none, some, List, [], ◌∷◌, ◌++◌}
use cognidns_core.Maps.{text_key, find_key, update_entry}
use cognidns_core.Codec.Name.{
  skip_name_loop, skip_name, parse_labels, parse_name_with_depth, parse_name,
}
use cognidns_core.Codec.Text.{utf8_lead, utf8_from, is_utf8, text_eq, join_dots}
use cognidns_core.Codec.Section.{rr_end, skip_questions, skip_question_section}
use cognidns_core.Codec.Answers.{
  address_text, address_at, answer_ips_loop, extract_answer_ips, AnswerSlot, read_slots,
  address_records, rank_map, rank_of, goes_first, insert_address, sort_addresses, rebuild,
  concat_bytes, reorder_slots, reorder_answers, reorder_answer_address_records,
}
use cognidns_core.Codec.Bytes.{Bytes}
use cognidns_core.Codec.Header.{DnsHeader, parse_header}
use cognidns_core.Codec.Answers.Reorder.{IsReordered, reorder_answers-IsReordered}
use cognidns_core.Codec.Text.Address.{radix_loop, decimal, ipv4_text}

program : Unit {0}
unfolding reorder_answer_address_records reorder_answers reorder_slots concat_bytes rebuild
    sort_addresses insert_address goes_first rank_of rank_map address_records read_slots address_at
    address_text ipv4_text decimal radix_loop skip_name skip_name_loop rr_end skip_question_section
    skip_questions parse_header update_entry find_key text_eq extract_answer_ips answer_ips_loop
    parse_name parse_labels join_dots parse_name_with_depth utf8_from is_utf8 utf8_lead
program = tt

-- An A record whose name is the question's.
abbrev record_of : ℕ → Bytes
record_of last = 192 ∷ 12 ∷ 0 ∷ 1 ∷ 0 ∷ 1 ∷ 0 ∷ 0 ∷ 0 ∷ 9 ∷ 0 ∷ 4 ∷ 10 ∷ 0 ∷ 0 ∷ last ∷ []

-- An NS record that names the root.
abbrev ns_record : Bytes
ns_record = 192 ∷ 12 ∷ 0 ∷ 2 ∷ 0 ∷ 1 ∷ 0 ∷ 0 ∷ 0 ∷ 9 ∷ 0 ∷ 1 ∷ 0 ∷ []

abbrev response_head : ℕ → Bytes
response_head ancount =
    1 ∷ 2 ∷ 129 ∷ 128 ∷ 0 ∷ 1 ∷ 0 ∷ ancount ∷ 0 ∷ 0 ∷ 0 ∷ 0 ∷ 1 ∷ 97 ∷ 0 ∷ 0 ∷ 1 ∷ 0 ∷ 1 ∷ []

abbrev three_answers : Bytes
three_answers = response_head 3 ++ (record_of 1 ++ (ns_record ++ record_of 2))

-- `10.0.0.2`
abbrev preferred : List Bytes
preferred = (49 ∷ 48 ∷ 46 ∷ 48 ∷ 46 ∷ 48 ∷ 46 ∷ 50 ∷ []) ∷ []

abbrev three_header : DnsHeader
three_header = record {
  id = 258;
  flags = 33152;
  qdcount = 1;
  ancount = 3;
  nscount = 0;
  arcount = 0;
}

reordered_three :
    reorder_answer_address_records three_answers preferred
    ≡ some (response_head 3 ++ (record_of 2 ++ (ns_record ++ record_of 1)))
unfolding program
reordered_three = refl

abbrev three_slots : List AnswerSlot × ℕ
three_slots = (
  record { rr_bytes = record_of 1; address = some (ipv4_text (10 ∷ 0 ∷ 0 ∷ 1 ∷ [])) }
      ∷ record { rr_bytes = ns_record; address = none }
      ∷ record { rr_bytes = record_of 2; address = some (ipv4_text (10 ∷ 0 ∷ 0 ∷ 2 ∷ [])) }
      ∷ [],
  64,
)

three-parsed : parse_header three_answers ≡ some three_header
unfolding program
three-parsed = refl

three-skipped : skip_question_section three_answers three_header ≡ some 19
unfolding program
three-skipped = refl

three-read : read_slots 3 three_answers 19 ≡ some three_slots
unfolding program
three-read = refl

reorder_answers-IsReordered_example :
    (q : Bytes) × (reorder_answer_address_records three_answers preferred ≡ some q)
    × IsReordered three_answers preferred 19 three_slots.0 three_slots.1 q
reorder_answers-IsReordered_example =
    reorder_answers-IsReordered three_answers preferred three_header 19 three_slots three-parsed
      three-skipped three-read

-- The first answer spells its name out, and the second one points to it.
abbrev spelled_record : Bytes
spelled_record = 1 ∷ 98 ∷ 0 ∷ 0 ∷ 1 ∷ 0 ∷ 1 ∷ 0 ∷ 0 ∷ 0 ∷ 9 ∷ 0 ∷ 4 ∷ 10 ∷ 0 ∷ 0 ∷ 1 ∷ []

abbrev pointing_record : Bytes
pointing_record = 192 ∷ 19 ∷ 0 ∷ 1 ∷ 0 ∷ 1 ∷ 0 ∷ 0 ∷ 0 ∷ 9 ∷ 0 ∷ 4 ∷ 10 ∷ 0 ∷ 0 ∷ 2 ∷ []

abbrev pointed : Bytes
pointed = response_head 2 ++ (pointing_record ++ spelled_record)

name_before :
    parse_name (response_head 2 ++ (spelled_record ++ pointing_record)) 36 ≡ some (98 ∷ [], 2)
unfolding program
name_before = refl

points_to_itself :
    reorder_answer_address_records
      (response_head 2 ++ (spelled_record ++ pointing_record))
      preferred
    ≡ some pointed
unfolding program
points_to_itself = refl

no_name_after : parse_name pointed 19 ≡ none
unfolding program
no_name_after = refl
