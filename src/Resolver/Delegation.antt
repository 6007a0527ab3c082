-- ===== src/Resolver/Delegation.antt =====
-- The cache of delegations in src/resolver/mod.rs. The test of an endpoint's address family, which
-- `filter_iterative_endpoints` applies, is a parameter without assumptions, as is the hash.
pub mod Settled
pub mod Closest
use cognidns_core.Prelude.{
  ℕ, ◌+◌, ◌-◌, min, max, Bool, false, not, ◌||◌, Option, none, some, List, [], ◌∷◌, map, ltb, leb,
  ◌==◌, if◌then◌else◌, length, get_or, replicate, set,
}
use cognidns_core.Maps.{text_key, find_key, remove_key, modify_key}
use cognidns_core.Codec.Edns.{opt_or}
use cognidns_core.Codec.Text.{text_eq}
use cognidns_core.Codec.Bytes.{Bytes}
use cognidns_core.Codec.Answers.Scans.{sort_dedup}
use cognidns_core.Cache.Domain.{sort_domains, dedup}
use cognidns_core.Cache.State.{second}
use cognidns_core.Resolver.Expiring.{retain_live, store_entry}
use cognidns_core.Resolver.Names.{
  normalize_qname, iter_domain_suffixes, aux_cache_shard_count, aux_cache_shard_index,
  bounded_aux_shard_capacity,
}

pub record DelegationCacheEntry : Type 0 where
  pub endpoints : List Bytes
  pub expires_at : ℕ
  pub last_access : ℕ
  pub cooldown_until : Option ℕ

pub record DelegationCacheShard : Type 0 where
  pub entries : List (Bytes × DelegationCacheEntry)
  pub last_cleanup : ℕ

abbrev pub DelegationCache : Type 0
DelegationCache = List DelegationCacheShard

unfoldable pub new_delegation_cache : Option ℕ → ℕ → ℕ → DelegationCache
new_delegation_cache parallelism capacity now =
    replicate (aux_cache_shard_count parallelism capacity)
      (record { entries = []; last_cleanup = now })

-- What the resolver is configured with; the times are nanoseconds.
pub record DelegationConfig : Type 0 where
  pub enable_delegation_cache : Bool
  pub delegation_cache_capacity : ℕ
  pub delegation_cache_ttl_cap : ℕ
  pub delegation_cache_cleanup_interval : ℕ
  pub delegation_failure_backoff : ℕ

unfoldable pub cleanup_delegation_cache_if_needed :
    DelegationConfig → ℕ → DelegationCacheShard → DelegationCacheShard
cleanup_delegation_cache_if_needed cfg now cache =
    if ltb (now - cache.last_cleanup) cfg.delegation_cache_cleanup_interval then cache else record {
      entries = retain_live (λ v. v.expires_at) (λ v. v.last_access) now cache.entries;
      last_cleanup = now;
    }

unfoldable pub cools_down : ℕ → DelegationCacheEntry → Bool
cools_down now entry = opt_or entry.cooldown_until (λ until. ltb now until) false

module _ (cfg : DelegationConfig) (hash : Bytes → ℕ) (matches_family : Bytes → Bool) where
  abbrev pub shard_index : DelegationCache → Bytes → ℕ
  shard_index c zone = aux_cache_shard_index hash zone (length c)

  -- The shard of a zone, cleaned up.
  abbrev pub locked : ℕ → DelegationCache → Bytes → DelegationCacheShard
  locked now c zone =
      cleanup_delegation_cache_if_needed cfg now
        (get_or c (shard_index c zone) (record { entries = []; last_cleanup = now }))

  abbrev pub unlocked : DelegationCache → Bytes → DelegationCacheShard → DelegationCache
  unlocked c zone shard = set c (shard_index c zone) shard

  -- One round: the cache, and the endpoints if the zone answers.
  unfoldable pub visit_zone :
      ℕ → DelegationCache → Bytes → DelegationCache × Option (Bytes × List Bytes)
  visit_zone now c zone =
      let cache = locked now c zone in
      let missed : DelegationCache × Option (Bytes × List Bytes) = (unlocked c zone cache, none) in
      opt_or (find_key zone cache.entries)
        (λ entry.
          if leb entry.expires_at now
          then (unlocked c zone (record cache { entries = remove_key zone cache.entries }), none)
          else if cools_down now entry
          then missed
          else (
            unlocked c zone (record cache {
              entries = modify_key zone (λ e. record e { last_access = now }) cache.entries;
            }),
            some (zone, entry.endpoints),
          ))
        missed

  unfoldable pub visit_zones :
      ℕ → List Bytes → DelegationCache → DelegationCache × Option (Bytes × List Bytes)
  visit_zones now [] c = (c, none)
  visit_zones now (zone ∷ zones) c =
      let visited = visit_zone now c zone in
      let rest = visit_zones now zones (visited.0) in
      opt_or (visited.1) (λ found. (visited.0, some found)) rest

  unfoldable pub get_cached_delegation_endpoints :
      ℕ → DelegationCache → Bytes → DelegationCache × Option (Bytes × List Bytes)
  get_cached_delegation_endpoints now c qname =
      let visited = visit_zones now (map normalize_qname (iter_domain_suffixes qname)) c in
      if not cfg.enable_delegation_cache || cfg.delegation_cache_capacity == 0
      then (c, none)
      else visited

  unfoldable pub put_in_shard :
      ℕ → ℕ → Bytes → List Bytes → ℕ → DelegationCacheShard → DelegationCacheShard
  put_in_shard shard_capacity now zone endpoints ttl cache =
      if shard_capacity == 0 then record cache { entries = [] } else record cache {
        entries =
            store_entry (λ v. v.expires_at) (λ v. v.last_access) shard_capacity now zone
              (record {
                endpoints = endpoints;
                expires_at = now + max (min ttl cfg.delegation_cache_ttl_cap) second;
                last_access = now;
                cooldown_until = none;
              })
              cache.entries;
      }

  unfoldable pub filter_iterative_endpoints : List Bytes → List Bytes
  filter_iterative_endpoints endpoints = dedup (sort_domains (filter_texts endpoints))
    where
      filter_texts : List Bytes → List Bytes
      filter_texts [] = []
      filter_texts (e ∷ es) =
          let rest = filter_texts es in if matches_family e then e ∷ rest else rest

  unfoldable pub put_cached_delegation_endpoints :
      ℕ → DelegationCache → Bytes → List Bytes → ℕ → DelegationCache
  put_cached_delegation_endpoints now c name unfiltered ttl =
      let zone = normalize_qname name in
      let endpoints = sort_dedup (filter_iterative_endpoints unfiltered) in
      let shard_capacity =
        opt_or
          (bounded_aux_shard_capacity cfg.delegation_cache_capacity (shard_index c zone) (length c))
          (λ n. n) 0 in
      if not cfg.enable_delegation_cache || cfg.delegation_cache_capacity == 0
      then c
      else if text_eq zone (46 ∷ []) || length endpoints == 0
      then c
      else unlocked c zone (put_in_shard shard_capacity now zone endpoints ttl (locked now c zone))

  unfoldable pub mark_delegation_cache_failure : ℕ → DelegationCache → Bytes → DelegationCache
  mark_delegation_cache_failure now c name =
      let zone = normalize_qname name in
      let cache = locked now c zone in
      let cooled : DelegationCacheShard = record cache {
        entries =
            modify_key zone
              (λ e. record e {
                cooldown_until = some (now + cfg.delegation_failure_backoff);
                last_access = now;
              })
              cache.entries;
      } in
      if not cfg.enable_delegation_cache then c else unlocked c zone cooled
