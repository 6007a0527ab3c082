-- ===== src/Codec/Ttl/Decay.antt =====
-- Decay and the smallest TTL of whole packets.
use mathlib.Core.Option
use cognidns_core.Prelude.{
  ℕ, ◌-◌, min, ◌≡◌, refl, ap, ◌∙◌, ◌⊎◌, inl, inr, Option, none, some, arith, Option-cases, ◌>>=◌,
  length, All,
}
use cognidns_core.Codec.Ttl.{
  min_ttl_loop, total_records, extract_cache_ttl, decay_loop, decay_response_ttl_in_place,
}
use cognidns_core.Codec.Section.{skip_questions}
use cognidns_core.Codec.Bytes.{Bytes, IsByte}
use cognidns_core.Codec.Header.{DnsHeader, parse_header}
use cognidns_core.Codec.Header.Frame.{parse_header_same, parse_header_eq}
use cognidns_core.Codec.Ttl.Loops.{min_ttl_loop-decay_loop}
use cognidns_core.Codec.Ttl.Rounds.{length-decay_loop, decay_loop_before, less, lift}
use cognidns_core.Codec.Section.Skip.{skip_questions_bounds, skip_questions_frame}
use cognidns_core.Codec.Bytes.All.{AllBytes, AllBytes-of_All}
use cognidns_core.Codec.Bytes.Frame.{SameOn, SameOn-shrink}

-- The packet that the decay leaves, where the questions can be skipped.
decay_response-eq :
    (p : Bytes) (t o : ℕ) (h : DnsHeader)
    → parse_header p ≡ some h
    → skip_questions h.qdcount p 12 ≡ some o
    → decay_response_ttl_in_place p t ≡ decay_loop (total_records h) p o (min t 4294967295)
unfolding decay_response_ttl_in_place
decay_response-eq p t o h eh eo = rw (eh, decay_response_ttl_in_place, eo)

-- In a packet with a header, whose questions can be skipped, the decay leaves the length and the
-- bytes of the header and the questions as they were.
pub decay_response_frame :
    (p : Bytes) (t o : ℕ) {h : DnsHeader}
    → parse_header p ≡ some h
    → skip_questions h.qdcount p 12 ≡ some o
    → (length (decay_response_ttl_in_place p t) ≡ length p)
      × SameOn 0 o p (decay_response_ttl_in_place p t)
decay_response_frame p t o {h} eh eo =
    rw (decay_response-eq p t o h eh eo)
      (length-decay_loop (total_records h) p o _, decay_loop_before (total_records h) p o _)

extract_cache_ttl-eq :
    (p : Bytes) (o : ℕ) (h : DnsHeader)
    → parse_header p ≡ some h
    → skip_questions h.qdcount p 12 ≡ some o
    → extract_cache_ttl p ≡ (min_ttl_loop (total_records h) p o none >>= λ m. m)
unfolding extract_cache_ttl
extract_cache_ttl-eq p o h eh eo = rw (eh, eo)

flatten-lift : (e : ℕ) (m : Option (Option ℕ)) → (lift e m >>= λ x. x) ≡ less e (m >>= λ x. x)
flatten-lift e none = refl
flatten-lift e (some x) = refl

decay_unread :
    (p : Bytes) (t : ℕ) (h : DnsHeader)
    → (parse_header p ≡ none) ⊎ ((parse_header p ≡ some h) × (skip_questions h.qdcount p 12 ≡ none))
    → extract_cache_ttl (decay_response_ttl_in_place p t)
      ≡ less (min t 4294967295) (extract_cache_ttl p)
unfolding decay_response_ttl_in_place extract_cache_ttl
decay_unread p t h (inl e) = rw (e, decay_response_ttl_in_place, e)
decay_unread p t h (inr (e, f)) = rw (e, decay_response_ttl_in_place, f, e, f)

decay_read :
    (p : Bytes) (t o : ℕ) (h : DnsHeader)
    → AllBytes p
    → parse_header p ≡ some h
    → skip_questions h.qdcount p 12 ≡ some o
    → extract_cache_ttl (decay_response_ttl_in_place p t)
      ≡ less (min t 4294967295) (extract_cache_ttl p)
decay_read p t o h b eh eo =
    let d = decay_response_ttl_in_place p t in
    let e = min t 4294967295 in
    let (l, s) = decay_response_frame p t o {h = h} eh eo in
    let (long, _, _, _, _) = parse_header_eq p h eh in
    let (lo, _) = skip_questions_bounds h.qdcount p 12 o eo in
    let eh' : parse_header d ≡ some h =
      parse_header_same p d long (omega arith)
        (SameOn-shrink p d 0 0 12 o s (omega arith) (omega arith))
      ∙ eh in
    let eo' : skip_questions h.qdcount d 12 ≡ some o =
      skip_questions_frame h.qdcount p d 12 o eo
        (SameOn-shrink p d 0 12 o o s (omega arith) (omega arith)) (omega arith) in
    extract_cache_ttl-eq d o h eh' eo'
    ∙ rw (decay_response-eq p t o h eh eo, extract_cache_ttl-eq p o h eh eo)
        (ap (λ m. m >>= λ x. x) (min_ttl_loop-decay_loop (total_records h) p o e none b)
          ∙ flatten-lift e (min_ttl_loop (total_records h) p o none))

-- The cache TTL of a decayed packet of bytes is the cache TTL of the packet less the elapsed
-- seconds, of which at most 2 ^ 32 - 1 count, and at least 0. There is one exactly when there was
-- one.
pub extract_cache_ttl-decay_response :
    (p : Bytes) (elapsed : ℕ)
    → All IsByte p
    → extract_cache_ttl (decay_response_ttl_in_place p elapsed)
      ≡ Option.map (λ t. t - min elapsed 4294967295) (extract_cache_ttl p)
extract_cache_ttl-decay_response p t b = elim (Option-cases (parse_header p)) [
  | inl e ↦
      decay_unread p t
        (record { id = 0; flags = 0; qdcount = 0; ancount = 0; nscount = 0; arcount = 0 }) (inl e)
  | inr (h, eh) ↦ elim (Option-cases (skip_questions h.qdcount p 12)) [
    | inl e ↦ decay_unread p t h (inr (eh, e))
    | inr (o, eo) ↦ decay_read p t o h (AllBytes-of_All p b) eh eo
  ]
]
