-- ===== src/Codec/Answers/Append.antt =====
-- `append_cname_answers` and `append_answer_records` of src/codec/dns.rs. A hash set is the list of
-- its elements.
use cognidns_core.Prelude.{
  ℕ, ◌+◌, min, Bool, false, ◌&&◌, ◌||◌, Option, none, some, List, [], ◌∷◌, ◌++◌, map, ltb, ◌==◌,
  if◌then◌else◌, ◌>>=◌, length, take, drop,
}
use cognidns_core.Codec.Text.{text_eq}
use cognidns_core.Codec.Section.{skip_rrs, skip_questions, scan_answer_records}
use cognidns_core.Codec.Bytes.{Bytes, be16, be32, write}
use cognidns_core.Codec.Header.{DnsHeader, parse_header}
use cognidns_core.Codec.Answers.Rewrite.{encoded_name, with_length}
use cognidns_core.Codec.Answers.Scans.{
  bare_name, unless_failed, extract_answer_cname_records, AnswerRecord, answer_record,
}

-- `(owner, type, class, rdata)` of a record, or owner and target of a CNAME record.
abbrev pub RecordKey : Type 0
RecordKey = Bytes × ℕ × ℕ × Bytes

unfoldable pub same_record : RecordKey → RecordKey → Bool
same_record (owner, rr_type, rr_class, rdata) (owner', rr_type', rr_class', rdata') =
    text_eq owner owner' && (rr_type == rr_type' && (rr_class == rr_class' && text_eq rdata rdata'))

unfoldable pub contains_record : RecordKey → List RecordKey → Bool
contains_record k [] = false
contains_record k (j ∷ ks) = same_record j k || contains_record k ks

abbrev pub key_of_record : AnswerRecord → RecordKey
key_of_record r = (bare_name r.answer_owner, r.answer_type, r.answer_class, r.answer_rdata)

abbrev pub key_of_cname : Bytes × Bytes × ℕ → RecordKey
key_of_cname (owner, target, ttl) = (bare_name owner, 5, 1, bare_name target)

unfoldable pub cname_record : Bytes × Bytes × ℕ → Option Bytes
cname_record (owner, target, ttl) = do
  name ← encoded_name (bare_name owner)
  rdata ← encoded_name (bare_name target)
  some (name ++ (be16 5 ++ (be16 1 ++ (be32 ttl ++ with_length rdata))))

unfoldable pub plain_record : AnswerRecord → Option Bytes
plain_record r = do
  name ← encoded_name r.answer_owner
  some (
      name
      ++ (be16 r.answer_type
          ++ (be16 r.answer_class ++ (be32 r.answer_ttl ++ with_length r.answer_rdata))))

module _ {R : Type 0} (key_of : R → RecordKey) (encode : R → Option Bytes) where
  -- The loop over the records: the bytes to append and their number. A record that is there
  -- already, or was appended before, is passed over.
  unfoldable pub append_loop : List RecordKey → List R → Bytes → ℕ → Option (Bytes × ℕ)
  append_loop seen [] to_append appended = some (to_append, appended)
  append_loop seen (r ∷ rs) to_append appended =
      let skipped = append_loop seen rs to_append appended in
      let taken = encode r >>= λ rr.
      append_loop (key_of r ∷ seen) rs (to_append ++ rr) (min (appended + 1) 65535) in
      if contains_record (key_of r) seen then skipped else taken

-- Where the answers of the response end.
unfoldable pub answers_end : Bytes → DnsHeader → Option ℕ
answers_end p header =
    skip_questions header.qdcount p 12 >>= λ answer_start. skip_rrs header.ancount p answer_start

-- The appended records go behind the answers, and are counted.
unfoldable pub insert_answers : Bytes → DnsHeader → ℕ → Bytes × ℕ → Option Bytes
insert_answers p header answer_end (to_append, appended) =
    if appended == 0
    then some p
    else if ltb 65535 (header.ancount + appended)
    then none
    else some (
        write (take answer_end p ++ (to_append ++ drop answer_end p)) 6
          (be16 (header.ancount + appended)))

unfoldable pub append_cname_answers : Bytes → List (Bytes × Bytes × ℕ) → Option Bytes
append_cname_answers p records =
    let appended : Option Bytes = (do
      header ← parse_header p
      answer_end ← answers_end p header
      added ←
          append_loop key_of_cname cname_record (map key_of_cname (extract_answer_cname_records p))
            records [] 0
      insert_answers p header answer_end added) in
    if length records == 0 then some p else appended

-- The records of the answer section, as the scan finds them; `None` if it is cut off.
unfoldable pub existing_records : Bytes → DnsHeader → Option (List RecordKey)
existing_records p header =
    let (found, end) =
      scan_answer_records {S = List RecordKey}
        (λ ks r. (key_of_record (answer_record r) ∷ ks, false)) p header [] in
    unless_failed (some found, end) none

unfoldable pub append_answer_records : Bytes → List AnswerRecord → Option Bytes
append_answer_records p records =
    let appended : Option Bytes = (do
      header ← parse_header p
      answer_end ← answers_end p header
      existing ← existing_records p header
      added ← append_loop key_of_record plain_record existing records [] 0
      insert_answers p header answer_end added) in
    if length records == 0 then some p else appended
