-- ===== src/Codec/Question.antt =====
-- `parse_first_question` of src/codec/dns.rs and the overviews of requests and responses.
pub mod Labels
use cognidns_core.Prelude.{
  ℕ, zero, suc, ◌+◌, bit_and, not, Option, none, some, List, [], ◌∷◌, ◌++◌, ltb, leb, ◌==◌,
  if◌then◌else◌, ◌>>=◌, length,
}
use cognidns_core.Codec.Text.{is_utf8, join_dots}
use cognidns_core.Codec.Bytes.{Bytes, byte, u16_at, slice}
use cognidns_core.Codec.Header.{DnsHeader, parse_header}

-- The loop over the labels of the question's name: the labels, and the offset behind the name.
-- A round moves the offset on, so one round more than the packet has bytes is fuel enough.
unfoldable pub question_labels : ℕ → Bytes → ℕ → List Bytes → Option (List Bytes × ℕ)
question_labels zero p offset labels = none
question_labels (suc f) p offset labels =
    let len = byte p offset in
    let label = slice p (offset + 1) (offset + 1 + len) in
    let rest = question_labels f p (offset + 1 + len) (labels ++ (label ∷ [])) in
    if leb (length p) offset
    then none
    else if len == 0
    then some (labels, offset + 1)
    else if not (bit_and len 0xC0 == 0)
    then none
    else if ltb (length p) (offset + 1 + len)
    then none
    else if is_utf8 label
    then rest
    else none

-- "." if there is no label
abbrev pub question_name : List Bytes → Bytes
question_name [] = 46 ∷ []
question_name (l ∷ ls) = join_dots (l ∷ ls)

-- The name, the type and the offset behind the first question.
unfoldable pub parse_first_question_from_header : Bytes → DnsHeader → Option (Bytes × ℕ × ℕ)
unfolding question_labels join_dots u16_at
parse_first_question_from_header p header =
    if header.qdcount == 0
    then none
    else (question_labels (length p + 1) p 12 [] >>= λ r.
        if ltb (length p) (r.1 + 4) then none else some (question_name r.0, u16_at p r.1, r.1 + 4))

unfoldable pub parse_first_question : Bytes → Option (Bytes × ℕ × ℕ)
unfolding parse_header parse_first_question_from_header
parse_first_question p = parse_header p >>= λ header. parse_first_question_from_header p header

pub record DnsRequestOverview : Type 0 where
  pub request_id : ℕ
  pub query_name : Option Bytes
  pub query_type : Option ℕ

abbrev overview_of : ℕ → Option (Bytes × ℕ × ℕ) → DnsRequestOverview
overview_of id none = record { request_id = id; query_name = none; query_type = none }
overview_of id (some q) = record { request_id = id; query_name = some q.0; query_type = some q.1 }

unfoldable pub parse_request_overview : Bytes → Option DnsRequestOverview
unfolding parse_header parse_first_question_from_header
parse_request_overview p = parse_header p >>= λ header.
    some (overview_of header.id (parse_first_question_from_header p header))
