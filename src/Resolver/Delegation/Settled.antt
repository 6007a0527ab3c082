-- ===== src/Resolver/Delegation/Settled.antt =====
-- Shards of the delegation cache of src/resolver/mod.rs in which a clean-up would drop nothing.
use cognidns_core.Prelude.{
  ℕ, ◌-◌, ◌≡◌, refl, sym, ap, subst, ◌⊎◌, inl, inr, true, ◌||◌, Option, none, some, List, [], ◌∷◌,
  ltb, leb, if◌then◌else◌, Bool-cases, ◌>>=◌, All,
}
use cognidns_core.Maps.{
  text_key, find_key, remove_key, find_key-remove_key_ne, find_key-remove_key_self,
}
use cognidns_core.Codec.Text.{text_eq}
use cognidns_core.Codec.Bytes.{Bytes}
use cognidns_core.Codec.Text.Split.{text_eq_sound}
use cognidns_core.Resolver.Expiring.{retain_live}
use cognidns_core.Resolver.Delegation.{
  DelegationCacheEntry, DelegationCacheShard, DelegationConfig, cleanup_delegation_cache_if_needed,
  cools_down,
}

-- What a lookup of the entries gives: the endpoints of an entry that is neither expired nor cooling
-- down.
abbrev pub usable : ℕ → Bytes → List (Bytes × DelegationCacheEntry) → Option (List Bytes)
usable now zone entries = find_key zone entries >>= λ e.
    if leb e.expires_at now || cools_down now e then none else some e.endpoints

abbrev live : ℕ → List (Bytes × DelegationCacheEntry) → List (Bytes × DelegationCacheEntry)
live = retain_live (λ v. v.expires_at) (λ v. v.last_access)

AllLive : ℕ → List (Bytes × DelegationCacheEntry) → Type 0
AllLive now m = All (λ e. ltb now (e.1.expires_at) ≡ true) m

live-AllLive : (now : ℕ) (m : List (Bytes × DelegationCacheEntry)) → AllLive now (live now m)
unfolding retain_live AllLive
live-AllLive now [] = tt
live-AllLive now ((k, v) ∷ m) = elim (Bool-cases (ltb now v.expires_at)) [
  | inl t ↦ rw t (t, live-AllLive now m)
  | inr t ↦ rw t (live-AllLive now m)
]

live_same : (now : ℕ) (m : List (Bytes × DelegationCacheEntry)) → AllLive now m → live now m ≡ m
unfolding retain_live AllLive
live_same now [] h = refl
live_same now ((k, v) ∷ m) h = rw (h.0) (ap (◌∷◌ (k, v)) (live_same now m (h.1)))

AllLive-remove_key :
    (now : ℕ) (zone : Bytes) (m : List (Bytes × DelegationCacheEntry))
    → AllLive now m
    → AllLive now (remove_key zone m)
unfolding remove_key AllLive
AllLive-remove_key now zone [] h = tt
AllLive-remove_key now zone ((k, v) ∷ m) h = elim (Bool-cases (text_eq k zone)) [
  | inl t ↦ rw t (AllLive-remove_key now zone m (h.1))
  | inr t ↦ rw t (h.0, AllLive-remove_key now zone m (h.1))
]

-- Without an entry that has expired, the others give what they gave.
pub usable-remove_key :
    (now : ℕ) (zone other : Bytes) (m : List (Bytes × DelegationCacheEntry))
    → usable now zone m ≡ none
    → usable now other (remove_key zone m) ≡ usable now other m
usable-remove_key now zone other m gone = elim (Bool-cases (text_eq zone other)) [
  | inl t ↦
      let same : zone ≡ other = text_eq_sound zone other t in
      subst (λ z. usable now z (remove_key zone m) ≡ usable now z m) same
        (rw (find_key-remove_key_self zone m) (sym gone))
  | inr t ↦ rw (find_key-remove_key_ne other zone m t) refl
]

module _ (cfg : DelegationConfig) (now : ℕ) where
  abbrev pub clean : DelegationCacheShard → DelegationCacheShard
  clean = cleanup_delegation_cache_if_needed cfg now

  -- A shard in which a clean-up would drop nothing.
  pub Settled : DelegationCacheShard → Type 0
  Settled s =
      (ltb (now - s.last_cleanup) cfg.delegation_cache_cleanup_interval ≡ true)
      ⊎ AllLive now s.entries

  pub clean-Settled : (s : DelegationCacheShard) → Settled (clean s)
  unfolding Settled cleanup_delegation_cache_if_needed
  clean-Settled s =
      elim (Bool-cases (ltb (now - s.last_cleanup) cfg.delegation_cache_cleanup_interval)) [
        | inl t ↦ rw t (inl t)
        | inr t ↦ rw t (inr (live-AllLive now s.entries))
      ]

  pub entries-clean : (s : DelegationCacheShard) → Settled s → (clean s).entries ≡ s.entries
  unfolding Settled cleanup_delegation_cache_if_needed
  entries-clean s h =
      elim (Bool-cases (ltb (now - s.last_cleanup) cfg.delegation_cache_cleanup_interval)) [
        | inl t ↦ rw t refl
        | inr t ↦ elim h [ inl u ↦ cc | inr all ↦ rw t (live_same now s.entries all) ]
      ]

  pub remove-Settled :
      (s : DelegationCacheShard) (zone : Bytes)
      → Settled s
      → Settled (record s { entries = remove_key zone s.entries })
  unfolding Settled
  remove-Settled s zone h = elim h [
    | inl t ↦ inl t
    | inr all ↦ inr (AllLive-remove_key now zone s.entries all)
  ]
