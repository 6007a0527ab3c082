-- ===== src/Codec/Edns/Stripped.antt =====
-- The packet that `strip_edns_opt_from_request` returns.
use cognidns_core.Prelude.{
  ℕ, zero, suc, ◌+◌, ◌-◌, ◌≤◌, ◌<◌, ◌≡◌, refl, sym, ap, ◌∙◌, inl, inr, true, false, none, some, [],
  ◌++◌, append-nil, arith, if◌then◌else◌, Bool-cases, >>=-eq-some, length, take, length-take,
  get_or-take,
}
use cognidns_core.Codec.Edns.{additional_start, find_opt, extract_edns_opt, opt_or}
use cognidns_core.Codec.Section.{skip_question_section}
use cognidns_core.Codec.Bytes.{Bytes, be16, write, slice, length-write}
use cognidns_core.Codec.Header.{DnsHeader, parse_header}
use cognidns_core.Codec.Edns.Append.{find_opt_step}
use cognidns_core.Codec.Edns.Strip.{keep_others-inv, keep_others_front, keep_others-find_opt}
use cognidns_core.Codec.Edns.RoundTrip.{additional_start-inv, additional_start_bounds}
use cognidns_core.Codec.Edns.Rewrite.{Kept, keep_others, nothing_kept, strip_edns_opt_from_request}
use cognidns_core.Codec.Header.Frame.{
  parse_header_same, parse_header_eq, parse_header-write_arcount,
}
use cognidns_core.Codec.Section.Shorter.{skip_rrs_shorter, skip_questions_shorter}
use cognidns_core.Codec.Section.Skip.{skip_rrs_bounds, skip_questions_bounds}
use cognidns_core.Codec.Bytes.Frame.{SameOn, SameOn-shrink, SameOn-trans, SameOn-write_after}

keep_others_count :
    (n : ℕ) (p : Bytes) (o : ℕ) (kept out : Kept)
    → keep_others n p o kept ≡ some out
    → kept.count < 65536
    → out.count < 65536
keep_others_count zero p o kept out e h =
    let e' : some kept ≡ some out = unfold keep_others in e in
    let same : kept ≡ out = ap (λ x. opt_or x (λ y. y) kept) e' in rw (← same) h
keep_others_count (suc n) p o kept out e h =
    let (k, m, ek, em, c) = keep_others-inv n p o kept out e in
    elim c [
      | inl (t, r) ↦ keep_others_count n p m (record kept { removed = true }) out r h
      | inr (t, room, r) ↦
          keep_others_count n p m
            (record {
              bytes = kept.bytes ++ slice p o m;
              count = kept.count + 1;
              removed = kept.removed;
            })
            out r (ground arith)
    ]

keep_others_removed :
    (n : ℕ) (p : Bytes) (o : ℕ) (kept out : Kept)
    → keep_others n p o kept ≡ some out
    → kept.removed ≡ true
    → out.removed ≡ true
keep_others_removed zero p o kept out e h =
    let e' : some kept ≡ some out = unfold keep_others in e in
    let same : kept ≡ out = ap (λ x. opt_or x (λ y. y) kept) e' in rw (← same) h
keep_others_removed (suc n) p o kept out e h =
    let (k, m, ek, em, c) = keep_others-inv n p o kept out e in
    elim c [
      | inl (t, r) ↦ keep_others_removed n p m (record kept { removed = true }) out r refl
      | inr (t, room, r) ↦
          keep_others_removed n p m
            (record {
              bytes = kept.bytes ++ slice p o m;
              count = kept.count + 1;
              removed = kept.removed;
            })
            out r h
    ]

-- Where nothing was left out, the search finds nothing.
keep_others_all :
    (n : ℕ) (p : Bytes) (o : ℕ) (kept out : Kept)
    → keep_others n p o kept ≡ some out
    → out.removed ≡ false
    → find_opt n p o ≡ none
keep_others_all zero p o kept out e h = unfold find_opt in refl
keep_others_all (suc n) p o kept out e h =
    let (k, m, ek, em, c) = keep_others-inv n p o kept out e in
    elim c [
      | inl (t, r) ↦
          let again = keep_others_removed n p m (record kept { removed = true }) out r refl in cc
      | inr (t, room, r) ↦
          find_opt_step n p o k m ek em t
          ∙ keep_others_all n p m
              (record {
                bytes = kept.bytes ++ slice p o m;
                count = kept.count + 1;
                removed = kept.removed;
              })
              out r h
    ]

extract_edns_opt-none :
    (q : Bytes) (h : DnsHeader) (a : ℕ)
    → parse_header q ≡ some h
    → additional_start q h ≡ some a
    → find_opt h.arcount q a ≡ none
    → extract_edns_opt q ≡ none
unfolding extract_edns_opt
extract_edns_opt-none q h a eh ea ef = rw (eh, ea, ef)

-- The sections before the additional one are found again in a packet that agrees with them.
additional_start_shorter :
    (p q : Bytes) (h : DnsHeader) (c a : ℕ)
    → additional_start p h ≡ some a
    → SameOn 12 a p q
    → a ≤ length q
    → additional_start q (record h { arcount = c }) ≡ some a
additional_start_shorter p q h c a e s l =
    let (x, y, ex, ey, ea) = additional_start-inv p h a e in
    let (xl, _) = skip_questions_bounds h.qdcount p 12 x ex in
    let (yl, _) = skip_rrs_bounds h.ancount p x y ey in
    let (al, _) = skip_rrs_bounds h.nscount p y a ea in
    let qx =
      skip_questions_shorter h.qdcount p q 12 x ex
        (SameOn-shrink p q 12 12 x a s (omega arith) (omega arith)) (omega arith) in
    let qy =
      skip_rrs_shorter h.ancount p q x y ey
        (SameOn-shrink p q 12 x y a s (omega arith) (omega arith)) (omega arith) in
    let qa =
      skip_rrs_shorter h.nscount p q y a ea
        (SameOn-shrink p q 12 y a a s (omega arith) (omega arith)) l in
    unfold additional_start skip_question_section in (rw (qx, qy) qa)

strip-inv :
    (p q : Bytes)
    → strip_edns_opt_from_request p ≡ some q
    → (h : DnsHeader) × (a : ℕ) × (out : Kept) × (parse_header p ≡ some h)
      × (additional_start p h ≡ some a)
      × (keep_others h.arcount p a (nothing_kept (take a p)) ≡ some out)
      × (q ≡ (if out.removed then write out.bytes 10 (be16 out.count) else p))
unfolding strip_edns_opt_from_request
strip-inv p q e =
    let (h, eh, r) = >>=-eq-some (parse_header p) _ e in
    let (a, ea, r') = >>=-eq-some (additional_start p h) _ r in
    let (out, eo, r'') = >>=-eq-some (keep_others h.arcount p a (nothing_kept (take a p))) _ r' in
    (h, a, out, eh, ea, eo, ap (λ x. opt_or x (λ y. y) []) (sym r''))

additional_start-le :
    (p : Bytes) (h : DnsHeader) (a : ℕ)
    → additional_start p h ≡ some a
    → 12 ≤ length p
    → a ≤ length p
additional_start-le p h a e l =
    let (x, y, ex, ey, ea) = additional_start-inv p h a e in
    let (_, xl) = skip_questions_bounds h.qdcount p 12 x ex in
    let (_, yl) = skip_rrs_bounds h.ancount p x y ey in
    let (_, al) = skip_rrs_bounds h.nscount p y a ea in omega arith

stripped-none :
    (p : Bytes) (h : DnsHeader) (a : ℕ) (out : Kept)
    → parse_header p ≡ some h
    → additional_start p h ≡ some a
    → keep_others h.arcount p a (nothing_kept (take a p)) ≡ some out
    → extract_edns_opt (write out.bytes 10 (be16 out.count)) ≡ none
stripped-none p h a out eh ea eo =
    let (long, _, _, _, _) = parse_header_eq p h eh in
    let a12 = additional_start_bounds p h a ea in
    let al = additional_start-le p h a ea long in
    let lt : length (take a p) ≡ a = omega (arith, length-take a p) in
    let (lo, so, _) = keep_others_front h.arcount p a (nothing_kept (take a p)) out eo in
    let b = out.bytes in
    let z = write b 10 (be16 out.count) in
    let lz = length-write b 10 (be16 out.count) in
    let front : SameOn 0 a p b =
      λ i i₁ i₂. so i (omega arith) (omega arith) ∙ get_or-take a p i 0 i₂ in
    let after : SameOn 12 (length b) b z =
      SameOn-write_after b 10 (be16 out.count) 12 (length b) (omega arith) in
    let hb : parse_header b ≡ some h =
      parse_header_same p b long (omega arith)
        (SameOn-shrink p b 0 0 12 a front (omega arith) (omega arith))
      ∙ eh in
    let few = keep_others_count h.arcount p a (nothing_kept (take a p)) out eo (omega arith) in
    let hz : parse_header z ≡ some (record h { arcount = out.count }) =
      rw (append-nil b) at (parse_header-write_arcount b [] h out.count hb few) in
    let az =
      additional_start_shorter p z h out.count a ea
        (SameOn-trans p b z 12 a (SameOn-shrink p b 0 12 a a front (omega arith) (omega arith))
          (SameOn-shrink b z 12 12 a (length b) after (omega arith) (omega arith)))
        (omega arith) in
    let none_before : out.count - 0 ≡ out.count = omega arith in
    let found =
      keep_others-find_opt h.arcount p a (nothing_kept (take a p)) out z eo
        (SameOn-shrink b z 12 (length (take a p)) (length b) (length b) after (omega arith)
          (omega arith))
        (omega arith) in
    extract_edns_opt-none z (record h { arcount = out.count }) a hz az
      (rw (lt, none_before) at found)

-- No OPT record is extracted from a packet whose OPT records were stripped.
pub extract_edns_opt-strip_edns_opt :
    (p q : Bytes) → strip_edns_opt_from_request p ≡ some q → extract_edns_opt q ≡ none
extract_edns_opt-strip_edns_opt p q e =
    let (h, a, out, eh, ea, eo, eq) = strip-inv p q e in
    elim (Bool-cases out.removed) [
      | inl t ↦ ap extract_edns_opt (rw t at eq) ∙ stripped-none p h a out eh ea eo
      | inr t ↦
          ap extract_edns_opt (rw t at eq)
          ∙ extract_edns_opt-none p h a eh ea
              (keep_others_all h.arcount p a (nothing_kept (take a p)) out eo t)
    ]
