-- ===== src/Resolver/NsHosts.antt =====
-- The cache of name server addresses in src/resolver/mod.rs, with the events that it records. An
-- operation reads the clock once here, where the code reads it again for each event.
use cognidns_core.Prelude.{
  ℕ, ◌+◌, ◌-◌, ◌*◌, Bool, false, Option, none, some, List, [], ◌∷◌, ltb, leb, ◌==◌, if◌then◌else◌,
  length, get_or, replicate, set,
}
use cognidns_core.Maps.{text_key, find_key, remove_key, insert_key, modify_key}
use cognidns_core.Codec.Edns.{opt_or}
use cognidns_core.Codec.Text.{to_lower}
use cognidns_core.Codec.Bytes.{Bytes}
use cognidns_core.Resolver.EventLog.{
  hit, Log, record_event, NsCacheEventKind, miss, expired, store, evict, cleanup,
}
use cognidns_core.Cache.State.{second}
use cognidns_core.Resolver.Expiring.{retain_live, retain_if_full, evicted_key, store_entry}
use cognidns_core.Resolver.Names.{
  aux_cache_shard_count, aux_cache_shard_index, bounded_aux_shard_capacity,
}

pub record NsCacheEntry : Type 0 where
  pub endpoints : List Bytes
  pub expires_at : ℕ
  pub last_access : ℕ

pub record NsHostCacheShard : Type 0 where
  pub entries : List (Bytes × NsCacheEntry)
  pub failures : List (Bytes × ℕ)
  pub last_cleanup : ℕ

-- The shards and the log of events.
pub record NsHostCache : Type 0 where
  pub shards : List NsHostCacheShard
  pub ns_cache_events : Log NsCacheEventKind

unfoldable pub new_ns_host_cache : Option ℕ → ℕ → ℕ → NsHostCache
new_ns_host_cache parallelism capacity now = record {
  shards =
      replicate (aux_cache_shard_count parallelism capacity)
        (record { entries = []; failures = []; last_cleanup = now });
  ns_cache_events = [];
}

-- What the resolver is configured with; the times are nanoseconds.
pub record NsHostConfig : Type 0 where
  pub ns_host_cache_capacity : ℕ
  pub ns_host_cache_ttl : ℕ
  pub ns_host_cache_cleanup_interval : ℕ
  pub stats_window : ℕ

-- `NS_HOST_FAILURE_BACKOFF`
abbrev pub ns_host_failure_backoff : ℕ
ns_host_failure_backoff = 2 * second

-- `retain(|_, until| now < *until)`
unfoldable pub retain_failures : ℕ → List (Bytes × ℕ) → List (Bytes × ℕ)
retain_failures now [] = []
retain_failures now ((k, until) ∷ m) =
    let rest = retain_failures now m in if ltb now until then (k, until) ∷ rest else rest

module _ (cfg : NsHostConfig) (hash : Bytes → ℕ) where
  abbrev pub noted : ℕ → NsCacheEventKind → Log NsCacheEventKind → Log NsCacheEventKind
  noted = record_event cfg.stats_window

  -- The shard, and the log.
  unfoldable pub cleanup_ns_host_cache_if_needed :
      ℕ → NsHostCacheShard → Log NsCacheEventKind → NsHostCacheShard × Log NsCacheEventKind
  cleanup_ns_host_cache_if_needed now cache events =
      let live = retain_live (λ v. v.expires_at) (λ v. v.last_access) now cache.entries in
      let gone = length cache.entries - length live in
      if ltb (now - cache.last_cleanup) cfg.ns_host_cache_cleanup_interval
      then (cache, events)
      else (
        record {
          entries = live;
          failures = retain_failures now cache.failures;
          last_cleanup = now;
        },
        noted now (cleanup gone) events,
      )

  abbrev pub shard_of_host : NsHostCache → Bytes → ℕ
  shard_of_host c key = aux_cache_shard_index hash key (length c.shards)

  -- The shard of a host, cleaned up, and the log.
  abbrev pub lock_host : ℕ → NsHostCache → Bytes → NsHostCacheShard × Log NsCacheEventKind
  lock_host now c key =
      cleanup_ns_host_cache_if_needed now
        (get_or c.shards (shard_of_host c key)
          (record { entries = []; failures = []; last_cleanup = now }))
        c.ns_cache_events

  abbrev pub unlock_host :
      NsHostCache → Bytes → NsHostCacheShard → Log NsCacheEventKind → NsHostCache
  unlock_host c key cache events = record {
    shards = set c.shards (shard_of_host c key) cache;
    ns_cache_events = events;
  }

  unfoldable pub get_cached_ns_endpoints :
      ℕ → NsHostCache → Bytes → NsHostCache × Option (List Bytes)
  get_cached_ns_endpoints now c hostname =
      let key = to_lower hostname in
      let (cache, events) = lock_host now c key in
      opt_or (find_key key cache.entries)
        (λ entry.
          if leb entry.expires_at now
          then (
            unlock_host c key (record cache { entries = remove_key key cache.entries })
                (noted now expired events),
            none,
          )
          else (
            unlock_host c key
                (record cache {
                  entries = modify_key key (λ e. record e { last_access = now }) cache.entries;
                })
                (noted now hit events),
            some entry.endpoints,
          ))
        (unlock_host c key cache (noted now miss events), none)

  unfoldable pub put_host :
      ℕ
      → ℕ
      → Bytes
      → List Bytes
      → NsHostCacheShard × Log NsCacheEventKind
      → NsHostCacheShard × Log NsCacheEventKind
  put_host shard_capacity now key endpoints (cache, events) =
      let kept =
        retain_if_full (λ v. v.expires_at) (λ v. v.last_access) shard_capacity now cache.entries in
      let evicted = evicted_key (λ v. v.expires_at) (λ v. v.last_access) shard_capacity kept in
      let entry : NsCacheEntry = record {
        endpoints = endpoints;
        expires_at = now + cfg.ns_host_cache_ttl;
        last_access = now;
      } in
      if shard_capacity == 0 then (record cache { entries = [] }, events) else (
        record cache {
          entries =
              store_entry (λ v. v.expires_at) (λ v. v.last_access) shard_capacity now key entry
                cache.entries;
        },
        noted now store (opt_or evicted (λ k. noted now evict events) events),
      )

  unfoldable pub put_cached_ns_endpoints : ℕ → NsHostCache → Bytes → List Bytes → NsHostCache
  put_cached_ns_endpoints now c hostname endpoints =
      let key = to_lower hostname in
      let shard_capacity =
        opt_or
          (bounded_aux_shard_capacity cfg.ns_host_cache_capacity (shard_of_host c key)
            (length c.shards))
          (λ n. n) 0 in
      let (cache, events) = put_host shard_capacity now key endpoints (lock_host now c key) in
      if cfg.ns_host_cache_capacity == 0 then c else unlock_host c key cache events

  unfoldable pub is_ns_host_recently_failed : ℕ → NsHostCache → Bytes → NsHostCache × Bool
  is_ns_host_recently_failed now c hostname =
      let key = to_lower hostname in
      let (cache, events) = lock_host now c key in
      (
        unlock_host c key cache events,
        opt_or (find_key key cache.failures) (λ until. ltb now until) false,
      )

  unfoldable pub mark_ns_host_failed : ℕ → NsHostCache → Bytes → NsHostCache
  mark_ns_host_failed now c hostname =
      let key = to_lower hostname in
      let (cache, events) = lock_host now c key in
      unlock_host c key
        (record cache { failures = insert_key key (now + ns_host_failure_backoff) cache.failures })
        events
