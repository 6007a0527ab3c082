-- ===== src/Resolver/Client/Flags.antt =====
-- The header that src/resolver/util.rs gives to every response for the client.
use cognidns_core.Prelude.{
  holds_below, bit, ℕ, ◌+◌, ◌≤◌, ◌<◌, bit_and, bit_or, ◌≡◌, refl, ap, ◌∙◌, inl, inr, Bool, true,
  false, ◌&&◌, ◌||◌, none, some, arith, ltb, ◌==◌, if◌then◌else◌, Bool-cases, Option-cases,
  holds_below_sound, bit_or-lt, bit_and-le, or_else, bit-bit_and, bit-bit_or, bit-lt, length, take,
  drop, length-take, get_or-take,
}
use cognidns_core.Codec.Edns.{extract_edns_opt, opt_or}
use cognidns_core.Codec.Bytes.{
  Bytes, u16_at, be16, write, length-write, byte-write_in, u16_at-write,
}
use cognidns_core.Codec.Edns.Rewrite.{align_response_edns_to_request}
use cognidns_core.Codec.Bytes.Frame.{
  SameOn, SameOn-trans, SameOn-write_before, SameOn-write_after, u16_at_same, drop-write,
}
use cognidns_core.Resolver.Client.{
  client_flags, normalize_response_for_client_in_place, normalize_response_for_client,
  question_sections_match, has_first_cname, normalize_chain, restore_question,
  finalize_response_for_client,
}
use cognidns_core.Resolver.Client.Rewritten.{prepared, prepared-plain}

-- The bit at a position of the flags that the client sees: QR and RA are set, AA is clear, RD is
-- the request's, and the others are the response's.
abbrev pub client_bit : ℕ → ℕ → ℕ → ℕ
client_bit k req_bit resp_bit =
    if k == 15 || k == 7 then 1 else if k == 10 then 0 else if k == 8 then req_bit else resp_bit

abbrev mask_bits : ℕ → Bool
mask_bits k =
    bit k 65279 == (if k == 8 then 0 else 1)
    && bit k 0x0100 == (if k == 8 then 1 else 0)
    && bit k 0x8000 == (if k == 15 then 1 else 0)
    && bit k 64511 == (if k == 10 then 0 else 1)
    && bit k 0x0080 == (if k == 7 then 1 else 0)

masks : holds_below mask_bits 16 ≡ true
unfolding holds_below bit
masks = refl

bit-client_flags :
    (k q r : ℕ) → k < 16 → bit k (client_flags q r) ≡ client_bit k (bit k q) (bit k r)
bit-client_flags k q r h =
    let table = holds_below_sound mask_bits 16 {i = k} h masks in
    let bq = bit-lt k q in
    let br = bit-lt k r in
    rw (bit-bit_or, bit-bit_and, bit-bit_or, bit-bit_or, bit-bit_and, bit-bit_and) (ground arith)

client_flags-lt : (q r : ℕ) → client_flags q r < 65536
client_flags-lt q r =
    let kept_bits = bit_and r 65279 in
    let asked_bits = bit_and q 0x0100 in
    let masked = bit_and (bit_or (bit_or kept_bits asked_bits) 0x8000) 64511 in
    let small : masked ≤ 64511 = bit_and-le (bit_or (bit_or kept_bits asked_bits) 0x8000) 64511 in
    bit_or-lt 16 masked 0x0080 (omega arith) (omega arith)

-- What every response for the client shares, next to the packet it is made from.
pub record IsForClient (request p out : Bytes) : Type 0 where
  pub same_length : length out ≡ length p
  pub same_id : u16_at out 0 ≡ u16_at request 0
  pub flag_bits :
      (k : ℕ)
      → k < 16
      → bit k (u16_at out 2) ≡ client_bit k (bit k (u16_at request 2)) (bit k (u16_at p 2))
  pub same_rest : drop 4 out ≡ drop 4 p

-- The first two bytes of the request, written over those of the packet.
with_id-same :
    (request p : Bytes)
    → 12 ≤ length request
    → 12 ≤ length p
    → SameOn 0 2 request (write p 0 (take 2 request))
with_id-same request p hr hp i lo hi =
    let two = length-take 2 request in
    let e : 0 + i ≡ i = omega arith in
    rw e at (byte-write_in p 0 (take 2 request) i (omega arith) (omega arith))
    ∙ get_or-take 2 request i 0 hi

in_place-IsForClient :
    (request p : Bytes)
    → 12 ≤ length request
    → 12 ≤ length p
    → IsForClient request p (normalize_response_for_client_in_place request p)
unfolding normalize_response_for_client_in_place
in_place-IsForClient request p hr hp =
    let t : (ltb (length request) 12 || ltb (length p) 12) ≡ false = ground arith in
    let id = take 2 request in
    let two : length id ≡ 2 = length-take 2 request ∙ omega arith in
    let with_id = write p 0 id in
    let len : length with_id ≡ length p = length-write p 0 id in
    let flags = client_flags (u16_at request 2) (u16_at with_id 2) in
    let word : u16_at with_id 2 ≡ u16_at p 2 =
      u16_at_same p with_id 2 4 2 (SameOn-write_after p 0 id 2 4 (omega arith)) (omega arith)
        (omega arith) in
    let lt = client_flags-lt (u16_at request 2) (u16_at with_id 2) in
    let out = write with_id 2 (be16 flags) in
    let front : SameOn 0 2 request out =
      SameOn-trans request with_id out 0 2 (with_id-same request p hr hp)
        (SameOn-write_before with_id 2 (be16 flags) 0 2 (omega arith)) in
    rw t (record {
      same_length = length-write with_id 2 (be16 flags) ∙ len;
      same_id = u16_at_same request out 0 2 0 front (omega arith) (omega arith);
      flag_bits = λ k h.
          ap (bit k) (u16_at-write with_id 2 flags (omega arith) lt)
          ∙ bit-client_flags k (u16_at request 2) (u16_at with_id 2) h
          ∙ ap (λ w. client_bit k (bit k (u16_at request 2)) (bit k w)) word;
      same_rest =
          drop-write with_id 2 (be16 flags) 4 (omega arith) ∙ drop-write p 0 id 4 (omega arith);
    })

normalize-in_place :
    (request response : Bytes)
    → normalize_response_for_client request response
      ≡ normalize_response_for_client_in_place request response
unfolding normalize_response_for_client normalize_response_for_client_in_place
normalize-in_place request response =
    elim (Bool-cases (ltb (length request) 12 || ltb (length response) 12)) [
      | inl t ↦ rw t refl
      | inr t ↦ rw t refl
    ]

finalize_eq :
    (request response : Bytes)
    → finalize_response_for_client request response
      ≡ normalize_response_for_client_in_place request (prepared request response)
unfolding finalize_response_for_client
finalize_eq request response =
    let p = restore_question request response (normalize_chain request response) in
    let aligned = align_response_edns_to_request (opt_or p (λ q. q) response) request in
    elim (Option-cases (or_else aligned p)) [
      | inl e ↦ rw e (normalize-in_place request response)
      | inr (q, e) ↦ rw e refl
    ]

-- A response in which no CNAME is read among the answers, whose question is the request's, and no
-- OPT record is read in it nor in the request, reaches the client with every byte behind the flags
-- unchanged: only the id and RD of the request, QR, RA and AA are set. Both are as long as a header.
pub finalize_response-plain :
    (request response : Bytes)
    → 12 ≤ length request
    → 12 ≤ length response
    → has_first_cname response ≡ false
    → question_sections_match response request ≡ some true
    → extract_edns_opt request ≡ none
    → extract_edns_opt response ≡ none
    → IsForClient request response (finalize_response_for_client request response)
finalize_response-plain request response hr hp plain same no_request_opt no_opt =
    rw
      (
        finalize_eq request response,
        prepared-plain request response plain same no_request_opt no_opt,
      )
      (in_place-IsForClient request response hr hp)
