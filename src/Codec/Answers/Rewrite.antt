-- ===== src/Codec/Answers/Rewrite.antt =====
-- The functions of src/codec/dns.rs that put another question or further answers into a response.
use cognidns_core.Prelude.{
  ℕ, zero, suc, ◌+◌, ◌%◌, Bool, ◌&&◌, Option, some, [], ◌++◌, ◌==◌, if◌then◌else◌, ◌>>=◌, length,
  take, drop,
}
use cognidns_core.Codec.Name.{parse_name, try_encode_name}
use cognidns_core.Codec.Text.{text_eq}
use cognidns_core.Codec.Section.{rr_type_at, rr_class_at, rdlen_at, rr_end, skip_questions}
use cognidns_core.Codec.Bytes.{Bytes, be16, write, slice}
use cognidns_core.Codec.Header.{DnsHeader, parse_header}

-- The end of the question section, as the rewriting functions read it.
unfoldable pub question_end : Bytes → DnsHeader → Option ℕ
question_end p header = skip_questions header.qdcount p 12

-- `packet[12..pkt_q_end] == request[12..req_q_end]`
unfoldable pub same_questions : Bytes → ℕ → Bytes → ℕ → Bool
same_questions p p_end request r_end = text_eq (slice p 12 p_end) (slice request 12 r_end)

unfoldable pub rewrite_question_from_request : Bytes → Bytes → Option Bytes
rewrite_question_from_request p request = do
  pkt_header ← parse_header p
  req_header ← parse_header request
  pkt_q_end ← question_end p pkt_header
  req_q_end ← question_end request req_header
  some (
      if same_questions p pkt_q_end request req_q_end
      then p
      else write (take 12 p ++ (slice request 12 req_q_end ++ drop pkt_q_end p)) 4
          (be16 req_header.qdcount))

-- A name in a fresh buffer, `None` if it cannot be encoded.
unfoldable pub encoded_name : Bytes → Option Bytes
encoded_name name = try_encode_name name []

-- `(len as u16).to_be_bytes()` and the bytes
abbrev pub with_length : Bytes → Bytes
with_length bytes = be16 (length bytes % 65536) ++ bytes

-- One record without compression: the name of a CNAME record's data is written out as well.
unfoldable pub reencoded_record : Bytes → Bytes → ℕ → Option Bytes
reencoded_record p owner offset = do
  name ← encoded_name owner
  let fixed = slice p offset (offset + 8)
  let rdata = slice p (offset + 10) (offset + 10 + rdlen_at p offset)
  if rr_type_at p offset == 5 && rr_class_at p offset == 1
      then (do
        (target, consumed) ← parse_name p (offset + 10)
        target_name ← encoded_name target
        some (name ++ (fixed ++ with_length target_name)))
      else some (name ++ (fixed ++ (be16 (rdlen_at p offset) ++ rdata)))

unfoldable pub reencode_loop : ℕ → Bytes → ℕ → Bytes → Option Bytes
reencode_loop zero p offset answers = some answers
reencode_loop (suc n) p offset answers = do
  (owner, consumed) ← parse_name p offset
  next ← rr_end p (offset + consumed)
  rr ← reencoded_record p owner (offset + consumed)
  reencode_loop n p next (answers ++ rr)

-- The header's three counts after the rewriting: the request's questions, no authority and no
-- additional records.
unfoldable pub rewrite_question_and_reencode_answers : Bytes → Bytes → Option Bytes
rewrite_question_and_reencode_answers p request = do
  pkt_header ← parse_header p
  req_header ← parse_header request
  pkt_q_end ← question_end p pkt_header
  req_q_end ← question_end request req_header
  answers ← reencode_loop pkt_header.ancount p pkt_q_end []
  let out = take 12 p ++ (slice request 12 req_q_end ++ answers)
  some (write (write (write out 4 (be16 req_header.qdcount)) 10 (be16 0)) 8 (be16 0))
