-- ===== src/Codec/Answers/Reorder.antt =====
-- What the reordering of addresses in src/codec/dns.rs does to the answers.
use mathlib.Core.List.Perm
use cognidns_core.Prelude.{
  ℕ, ◌≤◌, ◌≡◌, refl, sym, ◌∙◌, inl, inr, some, List, ◌++◌, map, arith, leb, Bool-cases, length,
  take, drop, take-append-drop,
}
use cognidns_core.Codec.Section.{skip_question_section}
use cognidns_core.Codec.Answers.{
  AnswerSlot, read_slots, AddressRecord, address_records, rank_of, sort_addresses, concat_bytes,
  reorder_slots, reorder_answers, reorder_answer_address_records,
}
use cognidns_core.Codec.Bytes.{Bytes}
use cognidns_core.Codec.Header.{DnsHeader, parse_header}
use cognidns_core.Codec.Answers.Preference.{
  InOrder, sort_addresses-InOrder, InOrder-short, sort_addresses-perm,
}
use cognidns_core.Codec.Answers.Slots.{
  addresses_of, others_of, addresses_of-records, slots-perm, Keeps, in_address_places, Rebuilt,
  rebuild_lem, read_slots-concat, Keeps-refl, in_address_places-same, length-read_slots,
  length-address_records, length-sorted,
}
use mathlib.Core.List.{Perm}

-- What the caller gets: the packet, with the bytes of the answers in another order. `sorted` are
-- the addresses in the order of the preferences.
pub record IsReordered (p : Bytes) (preferred_ips : List Bytes) (start : ℕ)
    (slots : List AnswerSlot) (end : ℕ) (q : Bytes) : Type 0 where
  pub sorted : List AddressRecord
  pub same_addresses : Perm sorted (address_records 0 slots)
  pub in_order : InOrder preferred_ips sorted
  pub answers : List Bytes
  pub same_answers : Perm answers (map (λ s. s.rr_bytes) slots)
  pub others_in_place : Keeps slots answers
  pub addresses_in_order : in_address_places slots answers ≡ map (λ a. a.slot_bytes) sorted
  pub around : q ≡ take start p ++ (concat_bytes answers ++ drop end p)

module _ (p : Bytes) (start : ℕ) (r : List AnswerSlot × ℕ) (n : ℕ)
    (read : read_slots n p start ≡ some r) (preferred_ips : List Bytes) where
  unchanged-IsReordered :
      length (address_records 0 r.0) ≤ 1 → IsReordered p preferred_ips start r.0 r.1 p
  unchanged-IsReordered few = record {
    sorted = address_records 0 r.0;
    same_addresses = Perm.rfl;
    in_order = InOrder-short preferred_ips (address_records 0 r.0) few;
    answers = map (λ s. s.rr_bytes) r.0;
    same_answers = Perm.rfl;
    others_in_place = Keeps-refl r.0;
    addresses_in_order = in_address_places-same r.0 ∙ sym (addresses_of-records 0 r.0);
    around = sym (rw (read_slots-concat n p start r read) (take-append-drop start p));
  }

  reorder_slots-IsReordered :
      (q : Bytes) × (reorder_slots p preferred_ips start r.0 r.1 ≡ some q)
      × IsReordered p preferred_ips start r.0 r.1 q
  unfolding reorder_slots Rebuilt
  reorder_slots-IsReordered =
      let found = address_records 0 r.0 in
      let sorted = sort_addresses (rank_of preferred_ips) found in
      let bytes = map (λ a. a.slot_bytes) sorted in
      let perm : Perm bytes (addresses_of r.0) =
        rw⁻¹ (addresses_of-records 0 r.0)
          (Perm.map (λ a. a.slot_bytes) (sort_addresses-perm (rank_of preferred_ips) found)) in
      elim (Bool-cases (leb (length found) 1)) [
        | inl t ↦ (p, rw t refl, unchanged-IsReordered (ground arith))
        | inr t ↦
            let (out, (built, out_perm, keeps, placed)) =
              rebuild_lem r.0 bytes (length-sorted (rank_of preferred_ips) r.0) in
            (
              take start p ++ (concat_bytes out ++ drop r.1 p),
              rw (t, built) refl,
              record {
                sorted = sorted;
                same_addresses = sort_addresses-perm (rank_of preferred_ips) found;
                in_order = sort_addresses-InOrder preferred_ips found;
                answers = out;
                same_answers = Perm.trans out_perm (
                    Perm.trans (Perm.append_left (others_of r.0) perm)
                      (Perm.symm (slots-perm r.0)));
                others_in_place = keeps;
                addresses_in_order = placed;
                around = refl;
              },
            )
      ]

-- A response whose answers can be read is reordered: what stands before and behind the answers
-- stays, the bytes of the answers are the same byte strings in another order, an answer that is
-- not an address stays in its place, and in the places of the addresses these stand by their
-- first position in the list of preferred ones, those that are not in it last, and among equals
-- in the order they had.
pub reorder_answers-IsReordered :
    (p : Bytes) (preferred_ips : List Bytes) (header : DnsHeader) (start : ℕ)
    (r : List AnswerSlot × ℕ)
    → parse_header p ≡ some header
    → skip_question_section p header ≡ some start
    → read_slots header.ancount p start ≡ some r
    → (q : Bytes) × (reorder_answer_address_records p preferred_ips ≡ some q)
      × IsReordered p preferred_ips start r.0 r.1 q
unfolding reorder_answer_address_records reorder_answers
reorder_answers-IsReordered p preferred_ips header start r parsed skipped read =
    rw (parsed, skipped, read)
      (elim (Bool-cases (leb header.ancount 1)) [
        | inl t ↦
            let some_slots = length-read_slots header.ancount p start r read in
            let fewer = length-address_records 0 r.0 in
            let few : length (address_records 0 r.0) ≤ 1 = ground arith in
            rw t (p, refl, unchanged-IsReordered p start r header.ancount read preferred_ips few)
        | inr t ↦ rw t (reorder_slots-IsReordered p start r header.ancount read preferred_ips)
      ])
