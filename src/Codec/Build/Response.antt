-- ===== src/Codec/Build/Response.antt =====
-- The response that `build_response_with_rcode` makes for a request.
use cognidns_core.Prelude.{
  holds_below, bit, ℕ, ◌/◌, ◌%◌, ◌≤◌, ◌<◌, ◌≡◌, refl, sym, ap, inl, inr, Bool, true, ◌&&◌, ◌||◌,
  none, some, [], ◌∷◌, ◌++◌, append-nil, arith, ltb, leb, ◌==◌, if◌then◌else◌, Bool-cases,
  Option-cases, holds_below_sound, bit_or-lt, bit_and-le, bit-bit_and, bit-bit_or, bit-lt, length,
  drop, All,
}
use cognidns_core.Codec.Edns.{extract_opt_record_bytes, checked_succ, opt_or}
use cognidns_core.Codec.Build.{
  or_else_keep, response_flags, response_head, build_response_with_rcode,
}
use cognidns_core.Codec.Question.{parse_first_question}
use cognidns_core.Codec.Bytes.{Bytes, IsByte, be16, write, slice}
use cognidns_core.Codec.Header.{DnsHeader, parse_header}
use cognidns_core.Codec.Edns.Rewrite.{with_response_rcode, maybe_append_request_edns_opt_with_rcode}
use cognidns_core.Codec.Header.Frame.{parse_header-write_arcount}
use cognidns_core.Codec.Build.Head.{parse_header-response_head}
use cognidns_core.Codec.Bytes.All.{AllBytes-of_All, u16_at-lt}
use cognidns_core.Codec.Bytes.Frame.{drop-write}

id-lt : (p : Bytes) (h : DnsHeader) → All IsByte p → parse_header p ≡ some h → h.id < 65536
unfolding parse_header
id-lt p h b e = ground (arith, u16_at-lt p 0 (AllBytes-of_All p b))

-- The bit at a position of the flags of a response: QR and RA are set, the opcode and RD are the
-- request's, the low four bits are the code's, and the others are clear.
abbrev pub response_bit : ℕ → ℕ → ℕ → ℕ
response_bit k req_bit rcode_bit =
    if k == 15 || k == 7
    then 1
    else if ltb k 4
    then rcode_bit
    else if k == 8 || leb 11 k
    then req_bit
    else 0

abbrev mask_bits : ℕ → Bool
mask_bits k =
    bit k 0x8000 == (if k == 15 then 1 else 0)
    && bit k 0x7800 == (if leb 11 k && ltb k 15 then 1 else 0)
    && bit k 0x0100 == (if k == 8 then 1 else 0)
    && bit k 0x0080 == (if k == 7 then 1 else 0)
    && bit k 0x000F == (if ltb k 4 then 1 else 0)

masks : holds_below mask_bits 16 ≡ true
unfolding holds_below bit
masks = refl

bit-response_flags :
    (k q rcode : ℕ)
    → k < 16
    → bit k (response_flags q rcode) ≡ response_bit k (bit k q) (bit k rcode)
unfolding response_flags
bit-response_flags k q rcode h =
    let table = holds_below_sound mask_bits 16 {i = k} h masks in
    let bq = bit-lt k q in
    let br = bit-lt k rcode in
    rw (bit-bit_or, bit-bit_or, bit-bit_or, bit-bit_or, bit-bit_and, bit-bit_and, bit-bit_and)
      (ground arith)

response_flags-lt : (flags rcode : ℕ) → response_flags flags rcode < 65536
unfolding response_flags
response_flags-lt flags rcode =
    bit_or-lt 16 _ _
      (bit_or-lt 16 _ _
        (bit_or-lt 16 _ _ (bit_or-lt 16 _ _ (omega arith) (omega (arith, bit_and-le flags 0x7800)))
          (omega (arith, bit_and-le flags 0x0100)))
        (omega arith))
      (omega (arith, bit_and-le rcode 0x000F))

-- The question section that a response repeats, and the number of its questions.
pub data Echoed (request : Bytes) (h : DnsHeader) : Bytes → ℕ → Type 0 where
  no_question : h.qdcount ≡ 0 → Echoed request h [] 0
  first_question :
      (q : Bytes × ℕ × ℕ)
      → parse_first_question request ≡ some q
      → Echoed request h (slice request 12 q.2) 1

-- The additional section of a response, and the number of its records.
pub data Additional (request : Bytes) (rcode : ℕ) : Bytes → ℕ → Type 0 where
  absent : extract_opt_record_bytes request ≡ none → Additional request rcode [] 0
  opt_record :
      (opt : Bytes)
      → extract_opt_record_bytes request ≡ some opt
      → 9 ≤ length opt
      → Additional request rcode (write opt 5 (rcode / 16 % 256 ∷ 0 ∷ [])) 1
  short_opt_record :
      (opt : Bytes)
      → extract_opt_record_bytes request ≡ some opt
      → length opt < 9
      → Additional request rcode opt 1

with_rcode-Additional :
    (request opt : Bytes) (rcode : ℕ)
    → extract_opt_record_bytes request ≡ some opt
    → Additional request rcode (with_response_rcode opt rcode) 1
unfolding with_response_rcode
with_rcode-Additional request opt rcode e = elim (Bool-cases (leb 9 (length opt))) [
  | inl t ↦ rw t (opt_record opt e (ground arith))
  | inr t ↦ rw t (short_opt_record opt e (ground arith))
]

-- What a response without answers to a request is.
pub record IsResponseTo (request : Bytes) (h : DnsHeader) (rcode : ℕ) (r : Bytes) : Type 0 where
  pub header : DnsHeader
  pub parsed : parse_header r ≡ some header
  pub same_id : header.id ≡ h.id
  pub flag_bits :
      (k : ℕ) → k < 16 → bit k header.flags ≡ response_bit k (bit k h.flags) (bit k rcode)
  pub no_records : (header.ancount ≡ 0) × (header.nscount ≡ 0)
  pub question : Bytes
  pub is_question : Echoed request h question header.qdcount
  pub additional : Bytes
  pub is_additional : Additional request rcode additional header.arcount
  pub rest : drop 12 r ≡ question ++ additional

-- The response before the OPT record is added.
abbrev plain_response : DnsHeader → ℕ → ℕ → Bytes → Bytes
plain_response h rcode qdcount body =
    response_head h.id (response_flags h.flags rcode) qdcount ++ body

abbrev plain_header : DnsHeader → ℕ → ℕ → DnsHeader
plain_header h rcode qdcount = record {
  id = h.id;
  flags = response_flags h.flags rcode;
  qdcount = qdcount;
  ancount = 0;
  nscount = 0;
  arcount = 0;
}

build_response-inv :
    (request r : Bytes) (h : DnsHeader) (rcode : ℕ)
    → parse_header request ≡ some h
    → build_response_with_rcode request rcode ≡ some r
    → (body : Bytes) × (qdcount : ℕ) × Echoed request h body qdcount
      × (qdcount ≤ 1)
      × (r
          ≡ or_else_keep (plain_response h rcode qdcount body) (
              maybe_append_request_edns_opt_with_rcode request
                (plain_response h rcode qdcount body)
                rcode))
unfolding build_response_with_rcode
build_response-inv request r h rcode e b = elim (Bool-cases (h.qdcount == 0)) [
  | inl z ↦ (
    [],
    0,
    no_question (ground arith),
    omega arith,
    ap (λ x. opt_or x (λ y. y) []) (sym (rw (e, z) at b)),
  )
  | inr nz ↦ elim (Option-cases (parse_first_question request)) [
    | inl u ↦ cc (rw (e, nz, u) at b)
    | inr (q, u) ↦ (
      slice request 12 q.2,
      1,
      first_question q u,
      omega arith,
      ap (λ x. opt_or x (λ y. y) []) (sym (rw (e, nz, u) at b)),
    )
  ]
]

module _ (request : Bytes) (h : DnsHeader) (rcode : ℕ) (body : Bytes) (qdcount : ℕ)
    (is_id : h.id < 65536) (is_count : qdcount ≤ 1) (echoed : Echoed request h body qdcount) where
  abbrev plain : Bytes
  plain = plain_response h rcode qdcount body

  plain-parsed : parse_header plain ≡ some (plain_header h rcode qdcount)
  plain-parsed =
      parse_header-response_head h.id (response_flags h.flags rcode) qdcount body is_id
        (response_flags-lt h.flags rcode) (omega arith)

  plain-IsResponseTo : extract_opt_record_bytes request ≡ none → IsResponseTo request h rcode plain
  plain-IsResponseTo no_opt = record {
    header = plain_header h rcode qdcount;
    parsed = plain-parsed;
    same_id = refl;
    flag_bits = λ k lt. bit-response_flags k h.flags rcode lt;
    no_records = (refl, refl);
    question = body;
    is_question = echoed;
    additional = [];
    is_additional = absent no_opt;
    rest = sym (append-nil body);
  }

  with_opt-IsResponseTo :
      (opt : Bytes)
      → extract_opt_record_bytes request ≡ some opt
      → IsResponseTo request h rcode (write (plain ++ with_response_rcode opt rcode) 10 (be16 1))
  with_opt-IsResponseTo opt has_opt = record {
    header = record (plain_header h rcode qdcount) { arcount = 1 };
    parsed =
        parse_header-write_arcount plain (with_response_rcode opt rcode)
          (plain_header h rcode qdcount) 1 plain-parsed (omega arith);
    same_id = refl;
    flag_bits = λ k lt. bit-response_flags k h.flags rcode lt;
    no_records = (refl, refl);
    question = body;
    is_question = echoed;
    additional = with_response_rcode opt rcode;
    is_additional = with_rcode-Additional request opt rcode has_opt;
    rest = drop-write (plain ++ with_response_rcode opt rcode) 10 (be16 1) 12 (omega arith);
  }

  appended-IsResponseTo :
      IsResponseTo request h rcode
        (or_else_keep plain (maybe_append_request_edns_opt_with_rcode request plain rcode))
  unfolding maybe_append_request_edns_opt_with_rcode checked_succ
  appended-IsResponseTo = elim (Option-cases (extract_opt_record_bytes request)) [
    | inl u ↦ rw u (plain-IsResponseTo u)
    | inr (opt, u) ↦ rw (u, plain-parsed) (with_opt-IsResponseTo opt u)
  ]

-- A response that is built for a request of bytes has the request's identifier and opcode and RD,
-- QR and RA set, AA and TC clear, and the low bits of the code; no answers and no authorities; the
-- bytes of the request's first question exactly if the request has one; and behind them the OPT
-- record of the request, with the high bits of the code and version 0 if it has those bytes,
-- exactly if the request has one.
pub build_response-IsResponseTo :
    (request r : Bytes) (h : DnsHeader) (rcode : ℕ)
    → All IsByte request
    → parse_header request ≡ some h
    → build_response_with_rcode request rcode ≡ some r
    → IsResponseTo request h rcode r
build_response-IsResponseTo request r h rcode bytes e b =
    let (body, qdcount, echoed, few, er) = build_response-inv request r h rcode e b in
    rw er (appended-IsResponseTo request h rcode body qdcount (id-lt request h bytes e) few echoed)
