-- ===== src/Resolver/Client/Rewritten.antt =====
-- The packet that `finalize_response_for_client` of src/resolver/util.rs gives its header: what the
-- steps before make of the response.
use cognidns_core.Prelude.{
  ℕ, ◌≡◌, refl, ◌≢◌, inl, inr, Bool, true, false, ◌&&◌, ◌||◌, Option, none, some, arith, ◌==◌,
  Bool-cases, Option-cases, or_else,
}
use cognidns_core.Codec.Edns.{extract_edns_opt, opt_or}
use cognidns_core.Codec.Question.{parse_first_question}
use cognidns_core.Codec.Bytes.{Bytes}
use cognidns_core.Codec.Edns.Rewrite.{align_response_edns_to_request}
use cognidns_core.Codec.Answers.Chain.{normalize_cname_chain_answers}
use cognidns_core.Codec.Answers.Rewrite.{
  rewrite_question_from_request, rewrite_question_and_reencode_answers,
}
use cognidns_core.Resolver.Client.{
  question_sections_match, has_first_cname, normalize_chain, restore_question,
}

-- The packet before its header is normalized.
abbrev pub prepared : Bytes → Bytes → Bytes
prepared request response =
    let p = restore_question request response (normalize_chain request response) in
    let aligned = align_response_edns_to_request (opt_or p (λ q. q) response) request in
    opt_or (or_else aligned p) (λ q. q) response

-- The first step, from the response: its CNAME chain is put in order if the request asks for
-- addresses and there is a chain, and otherwise the response stays.
pub data ChainStep (request response : Bytes) : Bytes → Type 0 where
  asks_nothing : parse_first_question request ≡ none → ChainStep request response response
  asks_other :
      (q : Bytes × ℕ × ℕ)
      → parse_first_question request ≡ some q
      → q.1 ≢ 1
      → q.1 ≢ 28
      → ChainStep request response response
  finds_no_cname : has_first_cname response ≡ false → ChainStep request response response
  finds_no_chain :
      (q : Bytes × ℕ × ℕ)
      → parse_first_question request ≡ some q
      → normalize_cname_chain_answers response q.1 ≡ none
      → ChainStep request response response
  puts_chain :
      (q : Bytes × ℕ × ℕ) {p : Bytes}
      → parse_first_question request ≡ some q
      → normalize_cname_chain_answers response q.1 ≡ some p
      → ChainStep request response p

-- The second step: the request's question is put in, unless it is there or that fails.
pub data QuestionStep (request before : Bytes) : Bytes → Type 0 where
  question_matches :
      question_sections_match before request ≡ some true → QuestionStep request before before
  keeps_question :
      rewrite_question_from_request before request ≡ none → QuestionStep request before before
  keeps_names :
      has_first_cname before ≡ true
      → rewrite_question_and_reencode_answers before request ≡ none
      → QuestionStep request before before
  puts_question :
      {p : Bytes}
      → rewrite_question_from_request before request ≡ some p
      → QuestionStep request before p
  puts_names :
      {p : Bytes}
      → has_first_cname before ≡ true
      → rewrite_question_and_reencode_answers before request ≡ some p
      → QuestionStep request before p

-- The third step: the OPT record follows the request's, unless that fails.
pub data EdnsStep (request before : Bytes) : Bytes → Type 0 where
  keeps_opt : align_response_edns_to_request before request ≡ none → EdnsStep request before before
  puts_opt :
      {p : Bytes}
      → align_response_edns_to_request before request ≡ some p
      → EdnsStep request before p

-- A packet that the three steps make of the response, one after the other.
pub record IsRewritten (request response p : Bytes) : Type 0 where
  pub after_chain : Bytes
  pub chain : ChainStep request response after_chain
  pub after_question : Bytes
  pub question : QuestionStep request after_chain after_question
  pub edns : EdnsStep request after_question p

abbrev current : Bytes → Option Bytes → Bytes
current response p = opt_or p (λ q. q) response

normalize_chain-ChainStep :
    (request response : Bytes)
    → ChainStep request response (current response (normalize_chain request response).0)
unfolding normalize_chain
normalize_chain-ChainStep request response = elim (Option-cases (parse_first_question request)) [
  | inl e ↦ rw e (asks_nothing e)
  | inr (q, e) ↦ elim (Bool-cases (q.1 == 1 || q.1 == 28)) [
    | inl t ↦ elim (Bool-cases (has_first_cname response)) [
      | inl c ↦ elim (Option-cases (normalize_cname_chain_answers response q.1)) [
        | inl n ↦ rw (e, t, c, n) (finds_no_chain q e n)
        | inr (p, n) ↦ rw (e, t, c, n) (puts_chain q e n)
      ]
      | inr c ↦ rw (e, t, c) (finds_no_cname c)
    ]
    | inr t ↦ rw (e, t) (asks_other q e (λ h. ground arith) (λ h. ground arith))
  ]
]

-- The names of answers are only encoded anew if these have a CNAME.
normalize_chain-safe :
    (request response : Bytes)
    → (normalize_chain request response).1 ≡ true
    → has_first_cname (current response (normalize_chain request response).0) ≡ true
unfolding normalize_chain
normalize_chain-safe request response = elim (Option-cases (parse_first_question request)) [
  | inl e ↦ rw e (λ h. cc)
  | inr (q, e) ↦ elim (Bool-cases ((q.1 == 1 || q.1 == 28) && has_first_cname response)) [
    | inl t ↦ rw (e, t) (λ h. h)
    | inr t ↦ rw (e, t) (λ h. cc)
  ]
]

restore_question-QuestionStep :
    (request response : Bytes) (p : Option Bytes) (safe : Bool)
    → (safe ≡ true → has_first_cname (current response p) ≡ true)
    → QuestionStep request
        (current response p)
        (current response (restore_question request response (p, safe)))
unfolding restore_question
restore_question-QuestionStep request response p true h =
    elim (Option-cases (rewrite_question_and_reencode_answers (current response p) request)) [
      | inl n ↦ rw n (keeps_names (h refl) n)
      | inr (q, n) ↦ rw n (puts_names (h refl) n)
    ]
restore_question-QuestionStep request response p false h =
    elim (Option-cases (question_sections_match (current response p) request)) [
      | inl m ↦ elim (Option-cases (rewrite_question_from_request (current response p) request)) [
        | inl n ↦ rw (m, n) (keeps_question n)
        | inr (q, n) ↦ rw (m, n) (puts_question n)
      ]
      | inr (same, m) ↦ elim (Bool-cases same) [
        | inl t ↦ let m' = rw t at m in rw m' (question_matches m')
        | inr t ↦
            let m' = rw t at m in
            elim (Option-cases (rewrite_question_from_request (current response p) request)) [
              | inl n ↦ rw (m', n) (keeps_question n)
              | inr (q, n) ↦ rw (m', n) (puts_question n)
            ]
      ]
    ]

pub prepared-IsRewritten :
    (request response : Bytes) → IsRewritten request response (prepared request response)
prepared-IsRewritten request response =
    let chained = normalize_chain request response in
    let after = restore_question request response chained in
    record {
      after_chain = current response chained.0;
      chain = normalize_chain-ChainStep request response;
      after_question = current response after;
      question =
          restore_question-QuestionStep request response chained.0 chained.1
            (normalize_chain-safe request response);
      edns = elim (Option-cases (align_response_edns_to_request (current response after) request)) [
        | inl n ↦ rw n (keeps_opt n)
        | inr (q, n) ↦ rw n (puts_opt n)
      ];
    }

normalize_chain-plain :
    (request response : Bytes)
    → has_first_cname response ≡ false
    → normalize_chain request response ≡ (none, false)
unfolding normalize_chain
normalize_chain-plain request response plain = elim (Option-cases (parse_first_question request)) [
  | inl e ↦ rw e refl
  | inr (q, e) ↦ elim (Bool-cases ((q.1 == 1 || q.1 == 28) && has_first_cname response)) [
    | inl t ↦ ground arith
    | inr t ↦ rw (e, t) refl
  ]
]

-- A response that needs none of the steps is left as it is.
pub prepared-plain :
    (request response : Bytes)
    → has_first_cname response ≡ false
    → question_sections_match response request ≡ some true
    → extract_edns_opt request ≡ none
    → extract_edns_opt response ≡ none
    → prepared request response ≡ response
unfolding restore_question align_response_edns_to_request
prepared-plain request response plain same no_request_opt no_opt =
    rw (normalize_chain-plain request response plain, same, no_request_opt, no_opt) refl
