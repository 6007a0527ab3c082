-- ===== src/Cache/Clear.antt =====
-- What `clear_domain` leaves of the cache.
use cognidns_core.Prelude.{
  ℕ, zero, suc, ◌+◌, ◌<◌, ◌≡◌, refl, sym, ap, ◌∙◌, ◌⊎◌, inl, inr, Bool, true, false, not, none,
  List, [], ◌∷◌, arith, ◌==◌, if◌then◌else◌, Bool-cases, length, get_or,
}
use cognidns_core.Codec.Bytes.{Bytes}
use cognidns_core.Codec.Text.Below.{IsBelow}
use cognidns_core.Cache.Domain.{normalize_domain, same_or_subdomain}
use cognidns_core.Cache.Below.{same_or_subdomain_sound, not-IsBelow}
use cognidns_core.Cache.State.{ResponseCache, map_shards, clear_domain}
use cognidns_core.Cache.Map.{key_eq_sound}
use cognidns_core.Cache.Shard.{CacheKey, Entries, key_eq, lookup, retain}

get_or-map_shards :
    (f : ℕ → Entries → Entries) (i n : ℕ) (ss : List Entries)
    → ((j : ℕ) → f j [] ≡ [])
    → get_or (map_shards f i ss) n [] ≡ f (i + n) (get_or ss n [])
unfolding map_shards
get_or-map_shards f i n [] h = sym (h (i + n))
get_or-map_shards f i zero (s ∷ ss) h = let e : i + 0 ≡ i = omega arith in rw e refl
get_or-map_shards f i (suc n) (s ∷ ss) h =
    let e : i + 1 + n ≡ i + suc n = omega arith in rw (← e) (get_or-map_shards f (i + 1) n ss h)

if-not : {A : Type 0} (b : Bool) (x y : A) → (if not b then x else y) ≡ (if b then y else x)
if-not true x y = refl
if-not false x y = refl

lookup-retain :
    (f : CacheKey → Bool) (key : CacheKey) (s : Entries)
    → lookup key (retain (λ k e. f k) s) ≡ (if f key then lookup key s else none)
unfolding lookup retain
lookup-retain f key [] = elim (Bool-cases (f key)) [ inl t ↦ rw t refl | inr t ↦ rw t refl ]
lookup-retain f key ((k, e) ∷ s) =
    let ih = lookup-retain f key s in
    elim (Bool-cases (key_eq k key)) [
      | inl t ↦
          let same : f key ≡ f k = ap f (sym (key_eq_sound k key t)) in
          elim (Bool-cases (f k)) [
            | inl u ↦ rw (same, u, lookup, t) refl
            | inr u ↦ rw (same, u) (rw (same, u) at ih)
          ]
      | inr t ↦ elim (Bool-cases (f k)) [ inl u ↦ rw (u, lookup, t) ih | inr u ↦ rw (u, t) ih ]
    ]

clear_domain_test :
    (c : ResponseCache) (domain : Bytes) (i : ℕ) (key : CacheKey)
    → 0 < length (normalize_domain domain)
    → lookup key (get_or (clear_domain c domain).0.shards i []) ≡ (
        if same_or_subdomain (normalize_domain key.qname) (normalize_domain domain)
        then none
        else lookup key (get_or c.shards i []))
unfolding clear_domain
clear_domain_test c domain i key h =
    let t : (length (normalize_domain domain) == 0) ≡ false = ground arith in
    let kept : CacheKey → Bool =
      λ k. not (same_or_subdomain (normalize_domain k.qname) (normalize_domain domain)) in
    let shard =
      get_or-map_shards (λ j s. retain (λ k e. kept k) s) 0 i c.shards
        (λ j. unfold retain in refl) in
    let found = lookup-retain kept key (get_or c.shards i []) in
    rw t (ap (lookup key) shard ∙ found ∙ if-not _ (lookup key (get_or c.shards i [])) none)

-- After `clear_domain` with a domain that is not empty, a key whose name is the domain or ends in
-- it behind a dot has no entry, and every other key has the entry that it had, in whatever shard.
pub lookup-clear_domain :
    (c : ResponseCache) (domain : Bytes) (i : ℕ) (key : CacheKey)
    → 0 < length (normalize_domain domain)
    → (IsBelow (normalize_domain key.qname) (normalize_domain domain)
        × (lookup key (get_or (clear_domain c domain).0.shards i []) ≡ none))
      ⊎ ((¬ IsBelow (normalize_domain key.qname) (normalize_domain domain))
          × (lookup key (get_or (clear_domain c domain).0.shards i [])
              ≡ lookup key (get_or c.shards i [])))
lookup-clear_domain c domain i key h =
    let name = normalize_domain key.qname in
    let cleared = clear_domain_test c domain i key h in
    elim (Bool-cases (same_or_subdomain name (normalize_domain domain))) [
      | inl t ↦ inl (same_or_subdomain_sound name (normalize_domain domain) t, rw t at cleared)
      | inr t ↦ inr (not-IsBelow name (normalize_domain domain) t, rw t at cleared)
    ]
