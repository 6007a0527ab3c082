-- ===== src/Codec/Answers.antt =====
-- The answers of a response in src/codec/dns.rs: their addresses, and the order of these.
pub mod Slots
pub mod Preference
pub mod Chain
pub mod Append
pub mod Rewrite
pub mod Referral
pub mod Scans
pub mod Reorder
mod Tests
use cognidns_core.Prelude.{
  ℕ, zero, suc, ◌+◌, Bool, true, false, not, ◌&&◌, ◌||◌, Option, none, some, List, [], ◌∷◌, ◌++◌,
  map, ltb, leb, ◌==◌, if◌then◌else◌, ◌>>=◌, length, take, drop,
}
use cognidns_core.Maps.{text_key, find_key, update_entry}
use cognidns_core.Codec.Name.{skip_name}
use cognidns_core.Codec.Edns.{opt_or}
use cognidns_core.Codec.Section.{rr_type_at, rr_class_at, rdlen_at, rr_end, skip_question_section}
use cognidns_core.Codec.Bytes.{Bytes, slice}
use cognidns_core.Codec.Header.{DnsHeader, parse_header}
use cognidns_core.Codec.Text.Address.{ipv4_text, ipv6_text}

-- The address that the data of an A or AAAA record of class IN holds.
unfoldable pub address_text : ℕ → ℕ → Bytes → Option Bytes
address_text rr_class rr_type rdata =
    if not (rr_class == 1)
    then none
    else if rr_type == 1 && length rdata == 4
    then some (ipv4_text rdata)
    else if rr_type == 28 && length rdata == 16
    then some (ipv6_text rdata)
    else none

-- The record whose name ends there: its address, if it has one.
unfoldable pub address_at : Bytes → ℕ → Option Bytes
address_at p name_end =
    address_text (rr_class_at p name_end) (rr_type_at p name_end)
      (slice p (name_end + 10) (name_end + 10 + rdlen_at p name_end))

-- The loop of `extract_answer_ips`.
unfoldable pub answer_ips_loop : ℕ → Bytes → ℕ → List Bytes → Option (List Bytes)
answer_ips_loop zero p offset result = some result
answer_ips_loop (suc n) p offset result = do
  name_end ← skip_name p offset
  next ← rr_end p name_end
  answer_ips_loop n p next (result ++ opt_or (address_at p name_end) (λ ip. ip ∷ []) [])

unfoldable pub extract_answer_ips : Bytes → List Bytes
extract_answer_ips p =
    let found : Option (List Bytes) = (do
      header ← parse_header p
      offset ← skip_question_section p header
      answer_ips_loop header.ancount p offset []) in
    opt_or found (λ ips. ips) []

-- `is_address` says whether there is an address.
pub record AnswerSlot : Type 0 where
  pub rr_bytes : Bytes
  pub address : Option Bytes

-- The records of the answer section, and its end.
unfoldable pub read_slots : ℕ → Bytes → ℕ → Option (List AnswerSlot × ℕ)
read_slots zero p rr_start = some ([], rr_start)
read_slots (suc n) p rr_start = do
  name_end ← skip_name p rr_start
  next ← rr_end p name_end
  rest ← read_slots n p next
  some (
    record { rr_bytes = slice p rr_start next; address = address_at p name_end } ∷ rest.0,
    rest.1,
  )

-- `(index, address, bytes)`
pub record AddressRecord : Type 0 where
  pub slot_index : ℕ
  pub slot_address : Bytes
  pub slot_bytes : Bytes

unfoldable pub address_records : ℕ → List AnswerSlot → List AddressRecord
address_records i [] = []
address_records i (s ∷ ss) =
    let rest = address_records (i + 1) ss in
    opt_or s.address
      (λ ip. record { slot_index = i; slot_address = ip; slot_bytes = s.rr_bytes } ∷ rest) rest

-- The first position of each preferred address.
unfoldable pub rank_map : ℕ → List Bytes → List (Bytes × ℕ) → List (Bytes × ℕ)
rank_map i [] rank = rank
rank_map i (ip ∷ ips) rank = rank_map (i + 1) ips (update_entry ip i (λ r. r) rank)

unfoldable pub rank_of : List Bytes → AddressRecord → ℕ
rank_of preferred_ips a =
    opt_or (find_key a.slot_address (rank_map 0 preferred_ips [])) (λ r. r)
      (length preferred_ips + 1024 + a.slot_index)

module _ (rank : AddressRecord → ℕ) where
  -- `ar.cmp(&br).then_with(|| a.0.cmp(&b.0))` is not greater.
  unfoldable pub goes_first : AddressRecord → AddressRecord → Bool
  goes_first a b = ltb (rank a) (rank b) || (rank a == rank b && leb a.slot_index b.slot_index)

  -- `sort_by`
  unfoldable pub insert_address : AddressRecord → List AddressRecord → List AddressRecord
  insert_address a [] = a ∷ []
  insert_address a (b ∷ bs) =
      let rest = insert_address a bs in if goes_first a b then a ∷ b ∷ bs else b ∷ rest

  unfoldable pub sort_addresses : List AddressRecord → List AddressRecord
  sort_addresses [] = []
  sort_addresses (a ∷ bs) = insert_address a (sort_addresses bs)

-- Each address record is replaced by the next of the sorted ones: the records, in order.
unfoldable pub rebuild : List AnswerSlot → List Bytes → Option (List Bytes)
rebuild [] sorted = some []
rebuild (s ∷ ss) [] =
    if opt_or s.address (λ ip. true) false
    then none
    else (rebuild ss [] >>= λ rest. some (s.rr_bytes ∷ rest))
rebuild (s ∷ ss) (b ∷ bs) =
    let keeping = rebuild ss (b ∷ bs) >>= λ rest. some (s.rr_bytes ∷ rest) in
    let replacing = rebuild ss bs >>= λ rest. some (b ∷ rest) in
    if opt_or s.address (λ ip. true) false then replacing else keeping

unfoldable pub concat_bytes : List Bytes → Bytes
concat_bytes [] = []
concat_bytes (b ∷ bs) = b ++ concat_bytes bs

-- The rest of `reorder_answer_address_records`, once the answers are read.
unfoldable pub reorder_slots : Bytes → List Bytes → ℕ → List AnswerSlot → ℕ → Option Bytes
reorder_slots p preferred_ips answer_start slots answer_end =
    let found = address_records 0 slots in
    let sorted = sort_addresses (rank_of preferred_ips) found in
    if leb (length found) 1
    then some p
    else (rebuild slots (map (λ a. a.slot_bytes) sorted) >>= λ rebuilt.
        some (take answer_start p ++ (concat_bytes rebuilt ++ drop answer_end p)))

unfoldable pub reorder_answers : Bytes → List Bytes → DnsHeader → Option Bytes
reorder_answers p preferred_ips header = do
  answer_start ← skip_question_section p header
  read ← read_slots header.ancount p answer_start
  reorder_slots p preferred_ips answer_start read.0 read.1

unfoldable pub reorder_answer_address_records : Bytes → List Bytes → Option Bytes
reorder_answer_address_records p preferred_ips = parse_header p >>= λ header.
    if leb header.ancount 1 then some p else reorder_answers p preferred_ips header
