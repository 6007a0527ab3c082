-- ===== src/Codec/Build/Query.antt =====
-- A query that `build_query` makes, read back by the functions that read requests.
use cognidns_core.Prelude.{
  ℕ, ◌+◌, ◌<◌, ◌≡◌, refl, sym, ap, ◌∙◌, inl, inr, Bool, true, false, some, List, [], ◌++◌,
  append_assoc, arith, ltb, ◌==◌, if◌then◌else◌, Bool-cases, length, All, length-append,
}
use cognidns_core.Codec.Name.{canonical, encode_name, try_encode_name}
use cognidns_core.Codec.Edns.{opt_or}
use cognidns_core.Codec.Build.{query_head, build_query, response_head}
use cognidns_core.Codec.Question.{
  question_labels, question_name, parse_first_question_from_header, parse_first_question,
}
use cognidns_core.Codec.Bytes.{Bytes, u16_at, be16}
use cognidns_core.Codec.Header.{DnsHeader, parse_header}
use cognidns_core.Codec.Question.Labels.{question_labels-wire, shown, question_name-shown}
use cognidns_core.Codec.Name.RoundTrip.{encode_name-OnWire}
use cognidns_core.Codec.Name.Wire.{wire, IsLabel, IsUtf8, length-wire}
use cognidns_core.Codec.Build.Head.{parse_header-response_head}
use cognidns_core.Codec.Bytes.Frame.{u16_at-append_right}

abbrev pub query_header : ℕ → ℕ → DnsHeader
query_header id flags = record {
  id = id;
  flags = flags;
  qdcount = 1;
  ancount = 0;
  nscount = 0;
  arcount = 0;
}

-- The question that stands behind the header.
be16-read : (v : ℕ) → v < 65536 → u16_at (be16 v ++ be16 1) 0 ≡ v
unfolding u16_at
be16-read v h = omega arith

from_header-wire :
    (qtype : ℕ) (ls : List Bytes) (p head : Bytes) (h : DnsHeader)
    → qtype < 65536
    → All IsLabel ls
    → All IsUtf8 ls
    → (h.qdcount == 0) ≡ false
    → length head ≡ 12
    → p ≡ head ++ (wire ls ++ (be16 qtype ++ be16 1))
    → parse_first_question_from_header p h ≡ some (question_name ls, qtype, length p)
unfolding parse_first_question_from_header
from_header-wire qtype ls p head h hq v u some_question l e =
    let rest = be16 qtype ++ be16 1 in
    let n : length p ≡ 12 + (length (wire ls) + 4) =
      rw e (omega (arith, length-append head (wire ls ++ rest), length-append (wire ls) rest)) in
    let lw = length-wire ls in
    let labels : question_labels (length p + 1) p 12 [] ≡ some (ls, 12 + length (wire ls)) =
      question_labels-wire ls (length p + 1) p head rest 12 [] v u (omega arith) (sym l) e in
    let q : p ≡ (head ++ wire ls) ++ rest = e ∙ sym (append_assoc head (wire ls) rest) in
    let at : length (head ++ wire ls) + 0 ≡ 12 + length (wire ls) =
      omega (arith, length-append head (wire ls)) in
    let word : u16_at p (12 + length (wire ls)) ≡ qtype =
      rw (q, ← at) (u16_at-append_right (head ++ wire ls) rest 0 ∙ be16-read qtype hq) in
    let t : ltb (length p) (12 + length (wire ls) + 4) ≡ false = ground arith in
    let end : 12 + length (wire ls) + 4 ≡ length p = omega arith in
    rw (some_question, labels, t, word, end) refl

parse_first_question-eq :
    (p : Bytes) (h : DnsHeader)
    → parse_header p ≡ some h
    → parse_first_question p ≡ parse_first_question_from_header p h
unfolding parse_first_question
parse_first_question-eq p h e = rw e

build_query-inv :
    (id : ℕ) (name : Bytes) (qtype : ℕ) (rd : Bool) (p : Bytes)
    → build_query id name qtype rd ≡ some p
    → (w : Bytes) × (encode_name name (query_head id rd) ≡ (w, true))
      × (p ≡ w ++ (be16 qtype ++ be16 1))
unfolding build_query try_encode_name
build_query-inv id name qtype rd p e =
    let done = encode_name name (query_head id rd) in
    elim (Bool-cases done.1) [
      | inl t ↦
          let pair : done ≡ (done.0, true) = ap (λ b. (done.0, b)) t in
          let built = rw pair at e in (done.0, pair, ap (λ x. opt_or x (λ y. y) []) (sym built))
      | inr f ↦ let pair : done ≡ (done.0, false) = ap (λ b. (done.0, b)) f in cc (rw pair at e)
    ]

-- A query that is built from a name in UTF-8, with an identifier and a type of 16 bits, is read
-- back: its header has the identifier, the RD flag alone and one question, and the first question
-- is the name, without the spaces and the last dot and with "." for the root, the type, and the
-- end of the packet.
pub parse_first_question-build_query :
    (id : ℕ) (name : Bytes) (qtype : ℕ) (rd : Bool) (p : Bytes)
    → id < 65536
    → qtype < 65536
    → IsUtf8 (canonical name)
    → build_query id name qtype rd ≡ some p
    → (parse_header p ≡ some (query_header id (if rd then 256 else 0)))
      × (parse_first_question p ≡ some (shown (canonical name), qtype, length p))
parse_first_question-build_query id name qtype rd p hi hq u e =
    let (w, ew, ep) = build_query-inv id name qtype rd p e in
    let (ls, eq, v, u', j) = encode_name-OnWire name (query_head id rd) w u ew in
    let flags = if rd then 256 else 0 in
    let small : flags < 65536 = flag-small rd in
    let tail = be16 qtype ++ be16 1 in
    let head = response_head id flags 1 in
    let q : p ≡ head ++ (wire ls ++ tail) =
      ep ∙ ap (λ x. x ++ tail) eq ∙ append_assoc head (wire ls) tail in
    let hp : parse_header p ≡ some (query_header id flags) =
      rw q (parse_header-response_head id flags 1 (wire ls ++ tail) hi small (omega arith)) in
    let named : question_name ls ≡ shown (canonical name) = question_name-shown ls v ∙ ap shown j in
    (
      hp,
      parse_first_question-eq p (query_header id flags) hp
          ∙ from_header-wire qtype ls p head (query_header id flags) hq v u' refl refl q
          ∙ ap (λ x. some (x, qtype, length p)) named,
    )
  where
    flag-small : (b : Bool) → (if b then 256 else 0) < 65536
    flag-small true = omega arith
    flag-small false = omega arith
