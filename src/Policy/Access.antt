-- ===== src/Policy/Access.antt =====
-- Which clients the policy refuses, and the view that a client gets.
use cognidns_core.Prelude.{
  ℕ, ◌+◌, ◌<◌, ◌≡◌, refl, sym, ap, ◌∙◌, ◌↔◌, ◌⊎◌, inl, inr, Bool, true, false, not, ◌&&◌, Option,
  none, some, List, [], ◌∷◌, arith, ◌==◌, Bool-cases, Option-cases, length, All,
}
use cognidns_core.Codec.Edns.{opt_or}
use cognidns_core.Codec.Bytes.{Bytes}
use cognidns_core.Policy.Trie.{IpAddr, IpNet, empty_trie, lookup_ip, insert_all}
use cognidns_core.Policy.Names.{normalize_query_name}
use cognidns_core.Policy.Rate.{consume_token}
use cognidns_core.Policy.Engine.{
  PolicyConfig, DnsView, Reason, acl_denied, refuse, PolicyView, PolicyEngine, RequestContext,
  enumerate, parse_all, view_nets, new_with_views, matched_view, any_matches, blocked_by,
  limit_rate, evaluate,
}
use cognidns_core.Policy.Trie.Least.{covers, HasCover, lookup_ip-insert_all}

-- The reason is neither of the access list nor in the way of the later tests.
other : Reason → Bool
other acl_denied = false
other r = true

acl_denied-not_other : (r : Reason) → r ≡ acl_denied → other r ≡ true → ⊥
unfolding other
acl_denied-not_other r e h = cc (rw e at h)

limit_rate-other :
    (swaps : Bool) (now : ℕ) (e : PolicyEngine) (ip : IpAddr) (matched : Option PolicyView)
    → other (limit_rate swaps now e ip matched).1.reason ≡ true
unfolding limit_rate other
limit_rate-other swaps now e ip matched = elim (Bool-cases (e.rate_limit == 0)) [
  | inl t ↦ rw t refl
  | inr t ↦ elim (Bool-cases (consume_token swaps e.rate_limit now ip e.client_windows).1) [
    | inl u ↦ rw (t, u) refl
    | inr u ↦ rw (t, u) refl
  ]
]

blocked_by-other :
    (e : PolicyEngine) (matched : Option PolicyView) (q : Bytes)
    → opt_or (blocked_by e matched q) (λ d. other d.reason) true ≡ true
unfolding blocked_by other
blocked_by-other e none q = elim (Bool-cases (any_matches q e.global_patterns)) [
  | inl u ↦ rw u refl
  | inr u ↦ rw u refl
]
blocked_by-other e (some v) q = elim (Bool-cases (any_matches q v.patterns)) [
  | inl t ↦ rw t refl
  | inr t ↦ elim (Bool-cases (any_matches q e.global_patterns)) [
    | inl u ↦ rw (t, u) refl
    | inr u ↦ rw (t, u) refl
  ]
]

is_denied : PolicyEngine → IpAddr → Bool
is_denied e ip =
    not (e.allowed_clients_count == 0)
    && opt_or (lookup_ip e.allowed_clients_matcher ip) (λ i. false) true

evaluate_denied :
    (swaps : Bool) (now : ℕ) (e : PolicyEngine) (ctx : RequestContext)
    → is_denied e ctx.client_ip ≡ true
    → evaluate swaps now e ctx ≡ (e, refuse acl_denied)
unfolding evaluate is_denied
evaluate_denied swaps now e ctx h = rw h

evaluate_passed :
    (swaps : Bool) (now : ℕ) (e : PolicyEngine) (ctx : RequestContext)
    → is_denied e ctx.client_ip ≡ false
    → other (evaluate swaps now e ctx).1.reason ≡ true
unfolding evaluate is_denied
evaluate_passed swaps now e ctx h =
    let m = matched_view e ctx.client_ip in
    elim (Bool-cases (e.deny_any && opt_or ctx.query_type (λ t. t == 255) false)) [
      | inl t ↦ rw (h, t) (unfold other in refl)
      | inr t ↦ elim (Option-cases ctx.query_name) [
        | inl u ↦ rw (h, t, u) (limit_rate-other swaps now e ctx.client_ip m)
        | inr (q, u) ↦
            let b = blocked_by-other e m (normalize_query_name q) in
            elim (Option-cases (blocked_by e m (normalize_query_name q))) [
              | inl w ↦ rw (h, t, u, w) (limit_rate-other swaps now e ctx.client_ip m)
              | inr (d, w) ↦ rw (h, t, u, w) (rw w at b)
            ]
      ]
    ]

-- The engine that a configuration builds, by the networks of its access list.
new_with_views-allowed :
    (parse : Bytes → Option IpNet) (config : PolicyConfig) (vs : List DnsView) (e : PolicyEngine)
    (nets : List IpNet)
    → new_with_views parse config vs ≡ some e
    → parse_all parse config.allow_clients ≡ some nets
    → (e.allowed_clients_count ≡ length nets)
      × (e.allowed_clients_matcher ≡ insert_all empty_trie (enumerate 0 nets))
unfolding new_with_views
new_with_views-allowed parse config vs e nets h hn = elim (Option-cases (view_nets parse 0 vs)) [
  | inl u ↦ cc (rw (hn, u) at h)
  | inr (ns, u) ↦
      let h' = rw (hn, u) at h in
      (
        ap (λ x. opt_or x (λ y. y.allowed_clients_count) 0) (sym h'),
        ap (λ x. opt_or x (λ y. y.allowed_clients_matcher) empty_trie) (sym h'),
      )
]

All-enumerate :
    (ip : IpAddr) (nets : List IpNet) (i : ℕ)
    → All (λ x. covers x.0 ip ≡ false) (enumerate i nets)
    → All (λ net. covers net ip ≡ false) nets
All-enumerate ip [] i h = tt
All-enumerate ip (net ∷ nets) i h = (h.0, All-enumerate ip nets (i + 1) h.1)

HasCover-enumerate :
    (ip : IpAddr) (nets : List IpNet) (i j : ℕ)
    → All (λ net. covers net ip ≡ false) nets
    → HasCover (enumerate i nets) ip j
    → ⊥
HasCover-enumerate ip [] i j h c = c
HasCover-enumerate ip (net ∷ nets) i j h (inl c) = cc
HasCover-enumerate ip (net ∷ nets) i j h (inr c) = HasCover-enumerate ip nets (i + 1) j h.1 c

abbrev Uncovered : List IpNet → IpAddr → Type 0
Uncovered nets ip = (0 < length nets) × All (λ net. covers net ip ≡ false) nets

abbrev denied : List IpNet → IpAddr → Bool
denied nets ip =
    not (length nets == 0)
    && opt_or (lookup_ip (insert_all empty_trie (enumerate 0 nets)) ip) (λ i. false) true

denied-cases :
    (nets : List IpNet) (ip : IpAddr)
    → ((denied nets ip ≡ true) × Uncovered nets ip)
      ⊎ ((denied nets ip ≡ false) × (Uncovered nets ip → ⊥))
denied-cases nets ip =
    let l = lookup_ip-insert_all (enumerate 0 nets) ip in
    elim (Bool-cases (length nets == 0)) [
      | inl z ↦ rw z (inr (refl, λ u. ground arith))
      | inr nz ↦ elim (Option-cases (lookup_ip (insert_all empty_trie (enumerate 0 nets)) ip)) [
        | inl a ↦ rw (nz, a) (inl (refl, (ground arith, All-enumerate ip nets 0 (rw a at l))))
        | inr (i, a) ↦
            let m = rw a at l in
            rw (nz, a) (inr (refl, λ u. HasCover-enumerate ip nets 0 i u.1 m.0))
      ]
    ]

-- An engine that is built from a configuration refuses a request by the access list exactly if the
-- list names a network and no network of it covers the client.
pub evaluate-acl_denied :
    (parse : Bytes → Option IpNet) (config : PolicyConfig) (vs : List DnsView) (e : PolicyEngine)
    (nets : List IpNet) (swaps : Bool) (now : ℕ) (ctx : RequestContext)
    → new_with_views parse config vs ≡ some e
    → parse_all parse config.allow_clients ≡ some nets
    → ((evaluate swaps now e ctx).1.reason ≡ acl_denied)
      ↔ ((0 < length nets) × All (λ net. covers net ctx.client_ip ≡ false) nets)
evaluate-acl_denied parse config vs e nets swaps now ctx h hn =
    let (n, m) = new_with_views-allowed parse config vs e nets h hn in
    let d : is_denied e ctx.client_ip ≡ denied nets ctx.client_ip = unfold is_denied in rw (n, m) in
    elim (denied-cases nets ctx.client_ip) [
      | inl (t, u) ↦
          let r = evaluate_denied swaps now e ctx (d ∙ t) in (λ x. u, λ x. ap (λ y. y.1.reason) r)
      | inr (t, u) ↦
          let r = evaluate_passed swaps now e ctx (d ∙ t) in
          (λ x. absurd (acl_denied-not_other _ x r), λ x. absurd (u x))
    ]
