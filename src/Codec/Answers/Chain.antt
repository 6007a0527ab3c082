-- ===== src/Codec/Answers/Chain.antt =====
-- `normalize_cname_chain_answers` of src/codec/dns_rfc_patch.rs: the answers to a name that is an
-- alias, as DNAME records, the chain of CNAME records, and the records of the last target.
use cognidns_core.Prelude.{
  ℕ, zero, suc, ◌+◌, ◌%◌, min, Bool, ◌&&◌, Option, none, some, List, [], ◌∷◌, ◌++◌, ◌==◌,
  if◌then◌else◌, ◌>>=◌, length, take, drop,
}
use cognidns_core.Codec.Name.{parse_name}
use cognidns_core.Codec.Edns.{opt_or}
use cognidns_core.Codec.Text.{trim_end_dots, eq_ignore_case}
use cognidns_core.Codec.Section.{
  rr_type_at, rr_class_at, rr_ttl_at, rdlen_at, rr_end, skip_rrs, skip_questions,
}
use cognidns_core.Codec.Bytes.{Bytes, be16, be32, write, slice}
use cognidns_core.Codec.Header.{DnsHeader, parse_header}
use cognidns_core.Codec.Answers.Append.{plain_record}
use cognidns_core.Codec.Answers.Rewrite.{encoded_name, with_length}
use cognidns_core.Codec.Answers.Scans.{AnswerRecord}

-- What the loop over the answers collects.
pub record ChainParts : Type 0 where
  pub rr_offsets : List AnswerRecord
  pub cname_chain : List (Bytes × Bytes × ℕ)
  pub chain_dnames : List AnswerRecord

-- The record whose name ends at the offset, with its owner.
unfoldable pub record_at : Bytes → Bytes → ℕ → AnswerRecord
record_at p owner offset = record {
  answer_owner = owner;
  answer_type = rr_type_at p offset;
  answer_class = rr_class_at p offset;
  answer_ttl = rr_ttl_at p offset;
  answer_rdata = slice p (offset + 10) (offset + 10 + rdlen_at p offset);
}

-- `None` for a CNAME record whose target cannot be read.
unfoldable pub note_part : Bytes → AnswerRecord → ℕ → ChainParts → Option ChainParts
note_part p r rdata_offset parts =
    let all : ChainParts = record parts { rr_offsets = parts.rr_offsets ++ (r ∷ []) } in
    if r.answer_type == 5 && r.answer_class == 1
    then (parse_name p rdata_offset >>= λ t. some (record all {
      cname_chain = parts.cname_chain ++ ((r.answer_owner, t.0, r.answer_ttl) ∷ []);
    }))
    else if r.answer_type == 39 && r.answer_class == 1
    then some (record all { chain_dnames = parts.chain_dnames ++ (r ∷ []) })
    else some all

unfoldable pub read_parts : ℕ → Bytes → ℕ → ChainParts → Option ChainParts
read_parts zero p offset parts = some parts
read_parts (suc n) p offset parts = do
  (owner, consumed) ← parse_name p offset
  next ← rr_end p (offset + consumed)
  noted ← note_part p (record_at p owner (offset + consumed)) (offset + consumed + 10) parts
  read_parts n p next noted

-- `final_target`: the target of the last CNAME record
unfoldable pub final_target : List (Bytes × Bytes × ℕ) → Option Bytes
final_target [] = none
final_target ((owner, target, ttl) ∷ chain) =
    let rest = final_target chain in some (opt_or rest (λ t. t) target)

unfoldable pub chain_record : Bytes × Bytes × ℕ → Option Bytes
chain_record (owner, target, ttl) = do
  name ← encoded_name owner
  rdata ← encoded_name target
  some (name ++ (be16 5 ++ (be16 1 ++ (be32 ttl ++ with_length rdata))))

unfoldable pub push_all : {R : Type 0} → (R → Option Bytes) → List R → Bytes → Option Bytes
push_all encode [] out = some out
push_all encode (r ∷ rs) out = encode r >>= λ rr. push_all encode rs (out ++ rr)

unfoldable pub is_terminal : Bytes → ℕ → AnswerRecord → Bool
is_terminal target qtype r =
    eq_ignore_case (trim_end_dots r.answer_owner) (trim_end_dots target)
    && (r.answer_type == qtype && r.answer_class == 1)

unfoldable pub terminals : Bytes → ℕ → List AnswerRecord → List AnswerRecord
terminals target qtype [] = []
terminals target qtype (r ∷ rs) =
    let rest = terminals target qtype rs in if is_terminal target qtype r then r ∷ rest else rest

-- The records of the additional section, pushed as they are read.
unfoldable pub promote_loop : ℕ → Bytes → ℕ → Bytes → ℕ → Bytes × ℕ → Option (Bytes × ℕ)
promote_loop zero p offset target qtype acc = some acc
promote_loop (suc n) p offset target qtype (out, added) = do
  (owner, consumed) ← parse_name p offset
  next ← rr_end p (offset + consumed)
  let r = record_at p owner (offset + consumed)
  if is_terminal target qtype r
      then (do
        rr ← plain_record r
        promote_loop n p next target qtype (out ++ rr, min (added + 1) 65535))
      else promote_loop n p next target qtype (out, added)

unfoldable pub promote_additional : Bytes → DnsHeader → ℕ → Bytes → ℕ → Bytes → Option (Bytes × ℕ)
promote_additional p header answer_start target qtype out = do
  answers ← skip_rrs header.ancount p answer_start
  authorities ← skip_rrs header.nscount p answers
  promote_loop header.arcount p authorities target qtype (out, 0)

-- The records of the target, from the answers or else from the additional section.
unfoldable pub push_terminals :
    Bytes → DnsHeader → ℕ → Bytes → ℕ → ChainParts → Bytes → Option (Bytes × ℕ)
push_terminals p header answer_start target qtype parts out = do
  let found = terminals target qtype parts.rr_offsets
  pushed ← push_all plain_record found out
  if length found == 0
      then promote_additional p header answer_start target qtype pushed
      else some (pushed, min (length found) 65535)

-- The new packet: the answers are replaced, what follows them stays.
unfoldable pub replace_answers : Bytes → DnsHeader → ℕ → Bytes → ℕ → Option Bytes
replace_answers p header answer_start new_answers new_ancount = do
  rest_offset ← skip_rrs header.ancount p answer_start
  some (write (take answer_start p ++ (new_answers ++ drop rest_offset p)) 6 (be16 new_ancount))

unfoldable pub rebuild_chain : Bytes → DnsHeader → ℕ → ℕ → ChainParts → Bytes → Option Bytes
rebuild_chain p header answer_start qtype parts target = do
  dnames ← push_all plain_record parts.chain_dnames []
  chain ← push_all chain_record parts.cname_chain dnames
  (new_answers, added) ← push_terminals p header answer_start target qtype parts chain
  let kept = (length parts.chain_dnames + length parts.cname_chain) % 65536
  if added == 0
      then some p
      else replace_answers p header answer_start new_answers ((kept + added) % 65536)

unfoldable pub normalize_cname_chain_answers : Bytes → ℕ → Option Bytes
normalize_cname_chain_answers p qtype = do
  header ← parse_header p
  answer_start ← skip_questions header.qdcount p 12
  parts ←
      read_parts header.ancount p answer_start
        (record { rr_offsets = []; cname_chain = []; chain_dnames = [] })
  opt_or (final_target parts.cname_chain) (rebuild_chain p header answer_start qtype parts) (some p)
