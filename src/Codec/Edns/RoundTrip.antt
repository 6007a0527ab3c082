-- ===== src/Codec/Edns/RoundTrip.antt =====
-- `extract_edns_opt` finds the OPT record that `append_edns_opt_with_options` added.
use cognidns_core.Prelude.{
  ℕ, suc, ◌+◌, ◌-◌, ◌≤◌, ◌<◌, ◌≡◌, refl, sym, ap, ◌∙◌, ◌≢◌, inl, inr, none, some, [], ◌++◌,
  append-nil, arith, ◌==◌, Bool-cases, >>=-eq-some, length, take, drop, All, length-append,
  take-append,
}
use cognidns_core.Codec.Edns.{
  DnsEdnsOpt, encode_options, build_edns_opt_record, additional_start, find_opt, extract_edns_opt,
  append_edns_opt_with_options, opt_or,
}
use cognidns_core.Codec.Section.{skip_rrs, skip_questions, skip_question_section}
use cognidns_core.Codec.Bytes.{Bytes, IsByte, be16, write, slice, length-write}
use cognidns_core.Codec.Header.{DnsHeader, parse_header}
use cognidns_core.Codec.Edns.Append.{find_opt_past}
use cognidns_core.Codec.Edns.Record.{
  IsOpt, opt_record, Placed, append-Placed, Placed-same, find_opt-Placed, opt_at-Placed,
}
use cognidns_core.Codec.Edns.Options.{IsOption, parse_edns_options-encode_options}
use cognidns_core.Codec.Header.Frame.{parse_header_eq, parse_header-write_arcount}
use cognidns_core.Codec.Section.Skip.{
  skip_rrs_bounds, skip_rrs_frame, skip_questions_bounds, skip_questions_frame,
}
use cognidns_core.Codec.Bytes.All.{AllBytes-of_All, u16_at-lt}
use cognidns_core.Codec.Bytes.Frame.{
  SameOn, SameOn-shrink, SameOn-trans, SameOn-append, SameOn-write_after, drop-write,
  drop-append_right,
}

-- A packet of bytes whose records can all be skipped and end where the packet ends, with no OPT
-- record among the additional ones.
pub record IsWhole (p : Bytes) (h : DnsHeader) (start : ℕ) : Type 0 where
  pub bytes : All IsByte p
  pub header : parse_header p ≡ some h
  pub sections : additional_start p h ≡ some start
  pub filled : skip_rrs h.arcount p start ≡ some (length p)
  pub no_opt : find_opt h.arcount p start ≡ none

pub additional_start-inv :
    (p : Bytes) (h : DnsHeader) (a : ℕ)
    → additional_start p h ≡ some a
    → (x : ℕ) × (y : ℕ) × (skip_questions h.qdcount p 12 ≡ some x)
      × (skip_rrs h.ancount p x ≡ some y)
      × (skip_rrs h.nscount p y ≡ some a)
unfolding additional_start
additional_start-inv p h a e =
    let (x, ex, rest) = >>=-eq-some (skip_question_section p h) _ e in
    let (y, ey, last) = >>=-eq-some (skip_rrs h.ancount p x) _ rest in
    (x, y, unfold skip_question_section in ex, ey, last)

pub additional_start_bounds :
    (p : Bytes) (h : DnsHeader) (a : ℕ) → additional_start p h ≡ some a → 12 ≤ a
additional_start_bounds p h a e =
    let (x, y, ex, ey, ea) = additional_start-inv p h a e in
    omega (
      arith,
      skip_questions_bounds h.qdcount p 12 x ex,
      skip_rrs_bounds h.ancount p x y ey,
      skip_rrs_bounds h.nscount p y a ea,
    )

-- The sections before the additional one are found again in a packet that agrees with them.
pub additional_start_frame :
    (p q : Bytes) (h : DnsHeader) (c a : ℕ)
    → additional_start p h ≡ some a
    → SameOn 12 a p q
    → length p ≤ length q
    → additional_start q (record h { arcount = c }) ≡ some a
additional_start_frame p q h c a e s l =
    let (x, y, ex, ey, ea) = additional_start-inv p h a e in
    let (xl, _) = skip_questions_bounds h.qdcount p 12 x ex in
    let (yl, _) = skip_rrs_bounds h.ancount p x y ey in
    let (al, _) = skip_rrs_bounds h.nscount p y a ea in
    let qx =
      skip_questions_frame h.qdcount p q 12 x ex
        (SameOn-shrink p q 12 12 x a s (omega arith) (omega arith)) l in
    let qy =
      skip_rrs_frame h.ancount p q x y ey (SameOn-shrink p q 12 x y a s (omega arith) (omega arith))
        l in
    let qa =
      skip_rrs_frame h.nscount p q y a ea (SameOn-shrink p q 12 y a a s (omega arith) (omega arith))
        l in
    unfold additional_start skip_question_section in (rw (qx, qy) qa)

-- The packet that `append_edns_opt_with_options` returns.
append-inv :
    (p q : Bytes) (h : DnsHeader) (o : DnsEdnsOpt)
    → parse_header p ≡ some h
    → append_edns_opt_with_options p o.udp_payload_size o.extended_rcode o.version o.opt_flags
        o.options
      ≡ some q
    → (h.arcount ≢ 65535) × (q ≡ write (p ++ opt_record o) 10 (be16 (h.arcount + 1)))
unfolding append_edns_opt_with_options
append-inv p q h o eh e = elim (Bool-cases (h.arcount == 65535)) [
  | inl full ↦ cc (rw (eh, full) at e)
  | inr room ↦ (ground arith, ap (λ x. opt_or x (λ y. y) []) (sym (rw (eh, room) at e)))
]

-- What `extract_edns_opt` computes where the search ends at a record that was placed.
extract-Placed :
    (q : Bytes) (h : DnsHeader) (a n : ℕ) (o : DnsEdnsOpt)
    → parse_header q ≡ some h
    → additional_start q h ≡ some a
    → find_opt h.arcount q a ≡ some (n, n + 1, n + 11 + length (encode_options o.options))
    → slice q (n + 1 + 10) (n + 11 + length (encode_options o.options)) ≡ encode_options o.options
    → IsOpt o
    → All IsOption o.options
    → Placed o q n
    → extract_edns_opt q ≡ some o
unfolding extract_edns_opt
extract-Placed q h a n o eh ea ef es v w pl =
    let m = n + 11 + length (encode_options o.options) in
    rw (eh, ea, ef, es, parse_edns_options-encode_options o.options w)
      (ap some (opt_at-Placed o q n m v pl))

opt_record-tail : (o : DnsEdnsOpt) → drop 11 (opt_record o) ≡ encode_options o.options
unfolding build_edns_opt_record
opt_record-tail o = refl

-- The data of the record that is written behind `p`.
slice-opt_record :
    (p : Bytes) (c : ℕ) (o : DnsEdnsOpt)
    → 12 ≤ length p
    → slice
        (write (p ++ opt_record o) 10 (be16 c))
        (length p + 1 + 10)
        (length p + 11 + length (encode_options o.options))
      ≡ encode_options o.options
slice-opt_record p c o l =
    let rd = encode_options o.options in
    let e₁ : length p + 1 + 10 ≡ length p + 11 = omega arith in
    let e₂ : length p + 11 + length rd - (length p + 11) ≡ length rd = omega arith in
    let d : drop (length p + 11) (write (p ++ opt_record o) 10 (be16 c)) ≡ rd =
      drop-write (p ++ opt_record o) 10 (be16 c) (length p + 11) (omega arith)
      ∙ drop-append_right p (opt_record o) 11
      ∙ opt_record-tail o in
    rw (e₁, e₂, d) (ap (take (length rd)) (sym (append-nil rd)) ∙ take-append rd [])

-- On a packet of bytes that ends with its last record and has no OPT record among the additional
-- ones, an OPT record that is appended, with fields that fit their widths, is the one that is
-- extracted, with every field and option, and the header counts one additional record more and is
-- otherwise the same.
pub extract_edns_opt-append_edns_opt :
    (p q : Bytes) (h : DnsHeader) (start : ℕ) (o : DnsEdnsOpt)
    → IsWhole p h start
    → IsOpt o
    → All IsOption o.options
    → append_edns_opt_with_options p o.udp_payload_size o.extended_rcode o.version o.opt_flags
        o.options
      ≡ some q
    → (extract_edns_opt q ≡ some o) × (parse_header q ≡ some (record h { arcount = h.arcount + 1 }))
extract_edns_opt-append_edns_opt p q h a o wh v w e =
    let t = opt_record o in
    let (room, eq) = append-inv p q h o wh.header e in
    let (long, _, _, _, count) = parse_header_eq p h wh.header in
    let fits : h.arcount + 1 < 65536 = omega (arith, u16_at-lt p 10 (AllBytes-of_All p wh.bytes)) in
    let c = be16 (h.arcount + 1) in
    let z = write (p ++ t) 10 c in
    let lt = length-append p t in
    let lz : length z ≡ length (p ++ t) = length-write (p ++ t) 10 c in
    let s =
      SameOn-trans p (p ++ t) z 12 (length p)
        (SameOn-shrink p (p ++ t) 0 12 (length p) (length p) (SameOn-append p t 0) (omega arith)
          (omega arith))
        (SameOn-write_after (p ++ t) 10 c 12 (length p) (omega arith)) in
    let a12 = additional_start_bounds p h a wh.sections in
    let (ae, _) = skip_rrs_bounds h.arcount p a (length p) wh.filled in
    let eh = parse_header-write_arcount p t h (h.arcount + 1) wh.header fits in
    let ea =
      additional_start_frame p z h (h.arcount + 1) a wh.sections
        (SameOn-shrink p z 12 12 a (length p) s (omega arith) (omega arith)) (omega arith) in
    let pl =
      Placed-same o (p ++ t) z (length p) lz
        (SameOn-write_after (p ++ t) 10 c (length p) (length (p ++ t)) (omega arith))
        (append-Placed p o v) in
    let sf = SameOn-shrink p z 12 a (length p) (length p) s (omega arith) (omega arith) in
    let one : suc h.arcount ≡ h.arcount + 1 = omega arith in
    let ef =
      ap (λ k. find_opt k z a) (sym one)
      ∙ find_opt_past h.arcount p z a (length p) wh.filled wh.no_opt sf (omega arith)
      ∙ find_opt-Placed o z (length p) pl in
    let found =
      extract-Placed z (record h { arcount = h.arcount + 1 }) a (length p) o eh ea ef
        (slice-opt_record p (h.arcount + 1) o long) v w pl in
    rw eq (found, eh)
