-- ===== src/Resolver/Serving.antt =====
-- How src/resolver/mod.rs serves a response from its caches, which TTL a response may be cached
-- for, and the windows of the adaptive capacity and of prefetching. Times are nanoseconds.
use cognidns_core.Prelude.{
  ℕ, ◌+◌, ◌*◌, ◌%◌, min, max, Bool, false, not, ◌&&◌, ◌||◌, Option, none, some, List, ltb, ◌==◌,
  if◌then◌else◌, ◌>>=◌, or_else, length,
}
use cognidns_core.Codec.Ttl.{extract_cache_ttl, extract_negative_cache_ttl}
use cognidns_core.Codec.Edns.{opt_or, response_code, answer_count}
use cognidns_core.Codec.Answers.{extract_answer_ips, reorder_answer_address_records}
use cognidns_core.Codec.Bytes.{Bytes}
use cognidns_core.Codec.Answers.Referral.{analyze_referral_targets}
use cognidns_core.Cache.Domain.{normalize_domain, same_or_subdomain, any_domain}
use cognidns_core.Cache.State.{ResponseCache, is_frozen_for_qname, second, get, get_stale, put}
use cognidns_core.Cache.Shard.{CacheKey}
use cognidns_core.Resolver.Client.{finalize_response_for_client}
use cognidns_core.Resolver.NsHosts.{noted}
use cognidns_core.Resolver.Popularity.{PopularitySketch, decay_all, increment, estimate}
use cognidns_core.Health.State.{
  IpHealthManager, register_domain_ips, prefer_healthy_ips, all_unhealthy_for_domain, Event,
  unlogged, record_all_unhealthy_event,
}

-- The fields of the resolver that these functions read and change.
pub record ServeConfig : Type 0 where
  pub cache_ttl : ℕ
  pub freeze_cache_ttl_decay : Bool
  pub freeze_cache_domains : List Bytes
  pub prefetch_popularity_threshold : ℕ

pub record ServeState : Type 0 where
  pub cache : ResponseCache
  pub hot_cache : ResponseCache
  pub bad_cache : ResponseCache
  pub popularity : PopularitySketch
  pub decay_mask : ℕ
  pub ip_health : Option IpHealthManager

abbrev seconds : Option ℕ → Option ℕ
seconds secs = secs >>= λ s. some (s * second)

unfoldable pub negative_ttl : ServeConfig → Bytes → ℕ
negative_ttl cfg p =
    max
      (opt_or (or_else (seconds (extract_negative_cache_ttl p)) (seconds (extract_cache_ttl p)))
        (λ t. t) cfg.cache_ttl)
      second

unfoldable pub positive_ttl : ServeConfig → Bytes → ℕ
positive_ttl cfg p = max (opt_or (seconds (extract_cache_ttl p)) (λ t. t) cfg.cache_ttl) second

unfoldable pub has_terminal_soa : Bytes → Bool
has_terminal_soa p =
    opt_or (analyze_referral_targets p)
      (λ value. value.has_authority_soa && length value.authority_ns_hostnames == 0) false

unfoldable pub cache_ttl_if_cacheable : ServeConfig → Bytes → Option ℕ
cache_ttl_if_cacheable cfg p = response_code p >>= λ rcode.
    let answers = opt_or (answer_count p) (λ n. n) 0 in
    if rcode == 3
    then some (negative_ttl cfg p)
    else if not (rcode == 0)
    then none
    else if ltb 0 answers
    then some (positive_ttl cfg p)
    else if has_terminal_soa p
    then some (negative_ttl cfg p)
    else none

-- At most `DNSSEC_BAD_CACHE_MAX_TTL_SECS`, and at least a second.
unfoldable pub bad_cache_ttl_for_response : ServeConfig → Bytes → ℕ
bad_cache_ttl_for_response cfg response =
    max (min (opt_or (seconds (extract_cache_ttl response)) (λ t. t) cfg.cache_ttl) (30 * second))
      second

unfoldable pub is_cache_ttl_frozen_for_qname : ServeConfig → ServeState → Bytes → Bool
is_cache_ttl_frozen_for_qname cfg s qname =
    is_frozen_for_qname s.cache qname
    || cfg.freeze_cache_ttl_decay
    || any_domain (same_or_subdomain (normalize_domain qname)) cfg.freeze_cache_domains

-- The packet, the state of the addresses and the event that is written.
unfoldable pub apply_ip_health_policy :
    ℕ → Option IpHealthManager → Option Bytes → Bytes → Bytes × Option IpHealthManager × Event
apply_ip_health_policy now none domain p = (p, none, unlogged)
apply_ip_health_policy now (some manager) none p = (p, some manager, unlogged)
apply_ip_health_policy now (some manager) (some domain) p =
    let ips = extract_answer_ips p in
    let registered = register_domain_ips manager domain ips in
    let preferred_ips = prefer_healthy_ips registered domain ips in
    let adjusted = opt_or (reorder_answer_address_records p preferred_ips) (λ q. q) p in
    let (noted, event) = record_all_unhealthy_event now registered domain ips in
    if length ips == 0
    then (p, some manager, unlogged)
    else if all_unhealthy_for_domain registered domain ips
    then (adjusted, some noted, event)
    else (adjusted, some registered, unlogged)

module _ (cfg : ServeConfig) (hash : CacheKey → ℕ) (hash_pair : CacheKey → ℕ × ℕ) where
  -- The counter of increments, a static there, starts at 0 and is never reset; on a multiple of 16384 before the
  -- count all counters of the sketch are halved.
  unfoldable pub bump_popularity : ServeState → CacheKey → ServeState
  bump_popularity s key =
      let counted = increment hash_pair s.popularity key in
      record s {
        popularity = if s.decay_mask % 16384 == 0 then decay_all counted else counted;
        decay_mask = (s.decay_mask + 1) % 18446744073709551616;
      }

  unfoldable pub promote_hot_cache_if_popular : ℕ → ServeState → CacheKey → Bytes → ServeState
  promote_hot_cache_if_popular now s key p =
      let threshold = max cfg.prefetch_popularity_threshold 1 in
      let promote : ℕ → ServeState =
        λ ttl. record s { hot_cache = put hash s.hot_cache key p (max ttl second) now } in
      if ltb (estimate hash_pair s.popularity key) threshold
      then s
      else opt_or (cache_ttl_if_cacheable cfg p) promote s

  -- What all hits do with the stored bytes; `name` is the context's query name.
  abbrev pub answer_for : ℕ → Bytes → Option Bytes → ServeState → Bytes → ServeState × Bytes
  answer_for now request name s cached =
      let served =
        apply_ip_health_policy now s.ip_health name (finalize_response_for_client request cached) in
      (record s { ip_health = served.1 }, served.0)

  -- `now` and `later` are the clock readings of the cache; the event of the addresses' health is
  -- left to Health.
  unfoldable pub try_bad_cache_hit :
      Bool → ℕ → ℕ → Bytes → Option Bytes → CacheKey → ServeState → ServeState × Option Bytes
  try_bad_cache_hit free now later request name key s =
      let got = get hash free s.bad_cache key false now later in
      let read : ServeState = record s { bad_cache = got.0 } in
      opt_or (got.1)
        (λ cached.
          let answered = answer_for later request name read cached in
          (answered.0, some (answered.1)))
        (read, none)

  unfoldable pub try_hot_cache_hit :
      Bool → ℕ → ℕ → Bytes → Option Bytes → CacheKey → ServeState → ServeState × Option Bytes
  try_hot_cache_hit free now later request name key s =
      let got =
        get hash free s.hot_cache key (is_cache_ttl_frozen_for_qname cfg s key.qname) now later in
      let read : ServeState = record s { hot_cache = got.0 } in
      opt_or (got.1)
        (λ cached.
          let answered = answer_for later request name read cached in
          (bump_popularity (answered.0) key, some (answered.1)))
        (read, none)

  unfoldable pub try_cache_hit :
      Bool → ℕ → ℕ → Bytes → Option Bytes → CacheKey → ServeState → ServeState × Option Bytes
  try_cache_hit free now later request name key s =
      let got =
        get hash free s.cache key (is_cache_ttl_frozen_for_qname cfg s key.qname) now later in
      let read : ServeState = record s { cache = got.0 } in
      opt_or (got.1)
        (λ cached.
          let answered = answer_for later request name read cached in
          let counted = bump_popularity (answered.0) key in
          (promote_hot_cache_if_popular later counted key (answered.1), some (answered.1)))
        (read, none)

  unfoldable pub try_stale_cache_hit :
      ℕ → Bytes → Option Bytes → CacheKey → ServeState → ServeState × Option Bytes
  try_stale_cache_hit now request name key s =
      opt_or (get_stale hash s.cache key)
        (λ cached.
          let answered = answer_for now request name s cached in (answered.0, some (answered.1)))
        (s, none)
