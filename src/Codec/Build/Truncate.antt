-- ===== src/Codec/Build/Truncate.antt =====
-- The response that `truncate_response_for_udp` sends.
use cognidns_core.Prelude.{
  ℕ, zero, suc, ◌+◌, ◌≤◌, ◌<◌, max, bit_or, ◌≡◌, refl, sym, ap, ◌∙◌, inl, inr, true, false, none,
  some, List, [], ◌∷◌, ◌++◌, append-nil, arith, ltb, leb, ◌==◌, Bool-cases, Option-cases, bit_or-lt,
  length, take, drop, All, length-append, length-take,
}
use cognidns_core.Codec.Edns.{extract_opt_record_bytes, opt_or}
use cognidns_core.Codec.Build.{
  udp_limit, truncated_head, with_request_opt, truncate_response_for_udp,
}
use cognidns_core.Codec.Question.{
  question_labels, parse_first_question_from_header, parse_first_question,
}
use cognidns_core.Codec.Bytes.{Bytes, IsByte, byte, u16_at, be16, slice, length-write}
use cognidns_core.Codec.Header.{DnsHeader, parse_header}
use cognidns_core.Codec.Header.Frame.{parse_header_eq, parse_header-write_arcount}
use cognidns_core.Codec.Build.Cleared.{
  u16_at-take, length-cleared, drop-cleared, parse_header-cleared,
}
use cognidns_core.Codec.Bytes.All.{AllBytes-of_All, u16_at-lt}
use cognidns_core.Codec.Bytes.Frame.{drop-write, drop-append_left, drop-take}

question_labels-le :
    (f : ℕ) (p : Bytes) (o : ℕ) (acc ls : List Bytes) (end : ℕ)
    → question_labels f p o acc ≡ some (ls, end)
    → o ≤ end
unfolding question_labels
question_labels-le zero p o acc ls end e = cc
question_labels-le (suc f) p o acc ls end e =
    let len = byte p o in
    let label = slice p (o + 1) (o + 1 + len) in
    ground (arith, question_labels-le f p (o + 1 + len) (acc ++ (label ∷ [])) ls end)

-- The first question lies behind the header, in the packet.
first_question_bounds :
    (p name : Bytes) (h : DnsHeader) (qtype end : ℕ)
    → parse_header p ≡ some h
    → parse_first_question p ≡ some (name, qtype, end)
    → (12 ≤ end) × (end ≤ length p) × (ltb 0 h.qdcount ≡ true)
unfolding parse_first_question parse_first_question_from_header
first_question_bounds p name h qtype end eh e = elim (Bool-cases (h.qdcount == 0)) [
  | inl z ↦ cc (rw (eh, z) at e)
  | inr nz ↦ elim (Option-cases (question_labels (length p + 1) p 12 [])) [
    | inl u ↦ cc (rw (eh, nz, u) at e)
    | inr ((ls, o), u) ↦
        let le = question_labels-le (length p + 1) p 12 [] ls o u in
        let e' = rw (eh, nz, u) at e in
        elim (Bool-cases (ltb (length p) (o + 4))) [
          | inl t ↦ cc (rw t at e')
          | inr t ↦
              let got = rw t at e' in
              let same : o + 4 ≡ end = ap (λ x. opt_or x (λ y. y.2) 0) got in
              (omega arith, ground arith, ground arith)
        ]
  ]
]

-- The header of a truncated response.
abbrev pub truncated_header : DnsHeader → ℕ → DnsHeader
truncated_header h arcount = record {
  id = h.id;
  flags = bit_or h.flags 0x0200;
  qdcount = h.qdcount;
  ancount = 0;
  nscount = 0;
  arcount = arcount;
}

truncate-eq :
    (request response name : Bytes) (h : DnsHeader) (qtype end : ℕ)
    → udp_limit request < length response
    → parse_header response ≡ some h
    → parse_first_question response ≡ some (name, qtype, end)
    → truncate_response_for_udp request response
      ≡ some (
          with_request_opt
            (udp_limit request)
            (truncated_head response h end)
            (extract_opt_record_bytes request))
unfolding truncate_response_for_udp
truncate-eq request response name h qtype end lt eh eq =
    let t : leb (length response) (udp_limit request) ≡ false = ground arith in rw (t, eh, eq) refl

header_words :
    (p : Bytes) (h : DnsHeader)
    → parse_header p ≡ some h
    → (h.id ≡ u16_at p 0) × (h.flags ≡ u16_at p 2)
unfolding parse_header
header_words p h e = ground arith

truncated_head-parts :
    (response name : Bytes) (h : DnsHeader) (qtype end : ℕ)
    → All IsByte response
    → parse_header response ≡ some h
    → parse_first_question response ≡ some (name, qtype, end)
    → (length (truncated_head response h end) ≡ end)
      × (parse_header (truncated_head response h end) ≡ some (truncated_header h 0))
      × (drop 12 (truncated_head response h end) ≡ slice response 12 end)
unfolding truncated_head
truncated_head-parts response name h qtype end b eh eq =
    let (lo, hi, some_question) = first_question_bounds response name h qtype end eh eq in
    let (i, f) = header_words response h eh in
    let (_, q, _, _, _) = parse_header_eq response h eh in
    let cut = take end response in
    let l : length cut ≡ end = omega (arith, length-take end response) in
    let f0 : u16_at cut 0 ≡ h.id = u16_at-take end response 0 (omega arith) ∙ sym i in
    let f2 : u16_at cut 2 ≡ h.flags = u16_at-take end response 2 (omega arith) ∙ sym f in
    let bytes = AllBytes-of_All response b in
    let flags : bit_or h.flags 0x0200 < 65536 =
      bit_or-lt 16 h.flags 0x0200 (omega (arith, u16_at-lt response 2 bytes)) (omega arith) in
    let read =
      parse_header-cleared cut (bit_or h.flags 0x0200) h.qdcount (omega arith) flags
        (omega (arith, u16_at-lt response 4 bytes)) in
    rw (some_question, f2)
      (
        length-cleared cut (bit_or h.flags 0x0200) h.qdcount ∙ l,
        rw f0 at read,
        drop-cleared cut (bit_or h.flags 0x0200) h.qdcount ∙ drop-take response 12 end,
      )

-- The additional section of the truncated response: the OPT record of the request, if it has one
-- and it still fits.
pub data Trailing (request : Bytes) (end : ℕ) : Bytes → ℕ → Type 0 where
  absent : extract_opt_record_bytes request ≡ none → Trailing request end [] 0
  too_long :
      (opt : Bytes)
      → extract_opt_record_bytes request ≡ some opt
      → udp_limit request < end + length opt
      → Trailing request end [] 0
  repeated :
      (opt : Bytes)
      → extract_opt_record_bytes request ≡ some opt
      → end + length opt ≤ udp_limit request
      → Trailing request end opt 1

-- What is sent in place of a response whose header and first question end there.
pub record IsTruncated (request response : Bytes) (h : DnsHeader) (end : ℕ) (q : Bytes)
    : Type 0 where
  pub additional : Bytes
  pub additional_count : ℕ
  pub is_additional : Trailing request end additional additional_count
  pub header : parse_header q ≡ some (truncated_header h additional_count)
  pub rest : drop 12 q ≡ slice response 12 end ++ additional

-- A response of bytes that is over the limit of the request, and has a first question, is cut
-- behind it: the header that is sent is that of the response with TC set, no answers and no
-- authorities, the bytes behind it are those of the first question, and then the OPT record of the
-- request, counted in the header, exactly if there is one and it fits; so what is sent is within
-- the limit, or no longer than header and question.
pub truncate_response-IsTruncated :
    (request response name q : Bytes) (h : DnsHeader) (qtype end : ℕ)
    → All IsByte response
    → udp_limit request < length response
    → parse_header response ≡ some h
    → parse_first_question response ≡ some (name, qtype, end)
    → truncate_response_for_udp request response ≡ some q
    → (length q ≤ max (udp_limit request) end) × IsTruncated request response h end q
truncate_response-IsTruncated request response name q h qtype end b lt eh eq e =
    let (l, p, kept_bytes) = truncated_head-parts response name h qtype end b eh eq in
    let (lo, hi, some_question) = first_question_bounds response name h qtype end eh eq in
    let t = truncated_head response h end in
    let sent : q ≡ with_request_opt (udp_limit request) t (extract_opt_record_bytes request) =
      ap (λ x. opt_or x (λ y. y) [])
        (sym e ∙ truncate-eq request response name h qtype end lt eh eq) in
    let bare : Trailing request end [] 0 → IsTruncated request response h end t = λ a. record {
      additional = [];
      additional_count = 0;
      is_additional = a;
      header = p;
      rest = kept_bytes ∙ sym (append-nil (slice response 12 end));
    } in
    elim (Option-cases (extract_opt_record_bytes request)) [
      | inl u ↦ let s = rw u at sent in rw s (omega arith, bare (absent u))
      | inr (opt, u) ↦ elim (Bool-cases (leb (length t + length opt) (udp_limit request))) [
        | inl fits ↦
            let s = rw (u, fits) at sent in
            let n = length-write (t ++ opt) 10 (be16 1) in
            rw s (
              ground (arith, length-append t opt),
              record {
                additional = opt;
                additional_count = 1;
                is_additional = repeated opt u (ground arith);
                header = parse_header-write_arcount t opt (truncated_header h 0) 1 p (omega arith);
                rest =
                    drop-write (t ++ opt) 10 (be16 1) 12 (omega arith)
                    ∙ drop-append_left t opt 12 (omega arith)
                    ∙ ap (◌++ opt) kept_bytes;
              },
            )
        | inr over ↦
            let s = rw (u, over) at sent in rw s (omega arith, bare (too_long opt u (ground arith)))
      ]
    ]
