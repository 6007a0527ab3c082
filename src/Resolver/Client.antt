-- ===== src/Resolver/Client.antt =====
-- The responses that src/resolver/util.rs and src/resolver/mod.rs give to the client.
pub mod Rewritten
pub mod Flags
use cognidns_core.Prelude.{
  ℕ, bit_and, bit_or, Bool, true, false, ◌&&◌, ◌||◌, Option, none, some, ltb, leb, ◌==◌,
  if◌then◌else◌, ◌>>=◌, or_else, length, take,
}
use cognidns_core.Codec.Edns.{opt_or}
use cognidns_core.Codec.Build.{build_response_with_rcode}
use cognidns_core.Codec.Question.{parse_first_question}
use cognidns_core.Codec.Bytes.{Bytes, u16_at, be16, write}
use cognidns_core.Codec.Header.{parse_header}
use cognidns_core.Codec.Edns.Rewrite.{align_response_edns_to_request}
use cognidns_core.Codec.Answers.Chain.{normalize_cname_chain_answers}
use cognidns_core.Codec.Answers.Rewrite.{
  question_end, same_questions, rewrite_question_from_request,
  rewrite_question_and_reencode_answers,
}
use cognidns_core.Codec.Answers.Scans.{extract_first_answer_cname}

-- The flags of a response with the request's RD, QR and RA set and AA clear.
abbrev pub client_flags : ℕ → ℕ → ℕ
client_flags req_flags resp_flags =
    let with_rd = bit_or (bit_and resp_flags 65279) (bit_and req_flags 0x0100) in
    bit_or (bit_and (bit_or with_rd 0x8000) 64511) 0x0080

-- In place: the new contents of the packet.
unfoldable pub normalize_response_for_client_in_place : Bytes → Bytes → Bytes
normalize_response_for_client_in_place request p =
    if ltb (length request) 12 || ltb (length p) 12
    then p
    else (let with_id = write p 0 (take 2 request) in
        write with_id 2 (be16 (client_flags (u16_at request 2) (u16_at with_id 2))))

unfoldable pub normalize_response_for_client : Bytes → Bytes → Bytes
normalize_response_for_client request response =
    if ltb (length request) 12 || ltb (length response) 12
    then response
    else normalize_response_for_client_in_place request response

abbrev pub without_ra : Bytes → Bytes
without_ra p = if leb 4 (length p) then write p 2 (be16 (bit_and (u16_at p 2) 65407)) else p

unfoldable pub build_refused_response_without_ra : Bytes → Option Bytes
build_refused_response_without_ra request = do
  p ← build_response_with_rcode request 5
  some (without_ra p)

-- The `packet` of a `ResolvedResponse`.
unfoldable pub normalize_ra_for_recursion_policy : Bytes → Bool → Bytes
normalize_ra_for_recursion_policy p allow_upstream_recursion =
    if allow_upstream_recursion || ltb (length p) 4
    then p
    else write p 2 (be16 (bit_and (u16_at p 2) 65407))

unfoldable pub question_sections_match : Bytes → Bytes → Option Bool
question_sections_match p request =
    let compared = do
      pkt_header ← parse_header p
      req_header ← parse_header request
      pkt_q_end ← question_end p pkt_header
      req_q_end ← question_end request req_header
      some (same_questions p pkt_q_end request req_q_end)
    in if ltb (length p) 12 || ltb (length request) 12 then some false else compared

abbrev pub has_first_cname : Bytes → Bool
has_first_cname p = opt_or (extract_first_answer_cname p) (λ target. true) false

-- The first step: the packet so far, `none` for the response itself, and whether its question may
-- be rewritten with its answers.
unfoldable pub normalize_chain : Bytes → Bytes → Option Bytes × Bool
normalize_chain request response =
    let of_type : ℕ → Option Bytes × Bool = λ qtype.
      let normalized = normalize_cname_chain_answers response qtype in
      if (qtype == 1 || qtype == 28) && has_first_cname response
      then (normalized, has_first_cname (opt_or normalized (λ p. p) response))
      else (none, false) in
    opt_or (parse_first_question request) (λ q. of_type q.1) (none, false)

-- The second step: the packet so far with the request's question.
unfoldable pub restore_question : Bytes → Bytes → Option Bytes × Bool → Option Bytes
restore_question request response (p, can_safe_rewrite_question) =
    let current = opt_or p (λ q. q) response in
    let reencoded = or_else (rewrite_question_and_reencode_answers current request) p in
    let rewritten = or_else (rewrite_question_from_request current request) p in
    if can_safe_rewrite_question
    then reencoded
    else if opt_or (question_sections_match current request) (λ same. same) false
    then p
    else rewritten

unfoldable pub finalize_response_for_client : Bytes → Bytes → Bytes
finalize_response_for_client request response =
    let p = restore_question request response (normalize_chain request response) in
    let aligned = align_response_edns_to_request (opt_or p (λ q. q) response) request in
    opt_or (or_else aligned p) (normalize_response_for_client_in_place request)
      (normalize_response_for_client request response)
