-- ===== src/Resolver/Windows.antt =====
-- The windows of src/resolver/mod.rs: the budget of prefetches, the adaptive capacity of the cache,
-- and the prefetch of the other address type. Calls run one after the other; times are
-- nanoseconds.
use cognidns_core.Prelude.{
  ℕ, ◌+◌, ◌-◌, ◌*◌, ◌%◌, min, max, bit_and, Bool, true, false, not, ◌||◌, Option, none, some, ltb,
  leb, ◌==◌, if◌then◌else◌, ◌>>=◌, none_if,
}
use cognidns_core.Codec.Edns.{opt_or}
use cognidns_core.Codec.Build.{build_query_like_request}
use cognidns_core.Codec.Bytes.{Bytes}
use cognidns_core.Codec.Header.{parse_header}
use cognidns_core.Cache.State.{ResponseCache, set_capacity, remaining_ttl}
use cognidns_core.Cache.Shard.{CacheKey}
use cognidns_core.Resolver.Names.{cache_key_for_query}

pub record PrefetchBudget : Type 0 where
  pub prefetch_budget_window_start : ℕ
  pub prefetch_budget_consumed : ℕ

unfoldable pub rotate_budget : ℕ → ℕ → PrefetchBudget → PrefetchBudget
rotate_budget prefetch_window now b =
    if ltb (now - b.prefetch_budget_window_start) prefetch_window
    then b
    else record { prefetch_budget_window_start = now; prefetch_budget_consumed = 0 }

-- The count is taken back when the budget is overshot.
unfoldable pub consume_prefetch_budget : ℕ → ℕ → ℕ → PrefetchBudget → PrefetchBudget × Bool
consume_prefetch_budget prefetch_budget_per_window prefetch_window now b =
    let rotated = rotate_budget prefetch_window now b in
    let prev = rotated.prefetch_budget_consumed in
    if prefetch_budget_per_window == 0
    then (b, false)
    else if leb prefetch_budget_per_window prev
    then (rotated, false)
    else (record rotated { prefetch_budget_consumed = prev + 1 }, true)

-- `target_above` and `target_below` say whether the ratio of misses is at least the high and at
-- most the low bound, comparisons of floats that are parameters without assumptions.
pub record AdaptiveConfig : Type 0 where
  pub adaptive_cache_enabled : Bool
  pub adaptive_cache_window : ℕ
  pub adaptive_cache_step : ℕ
  pub adaptive_cache_min_capacity : ℕ
  pub adaptive_cache_max_capacity : ℕ
  pub target_above : ℕ → ℕ → Bool
  pub target_below : ℕ → ℕ → Bool

pub record AdaptiveState : Type 0 where
  pub adaptive_cache_window_start : ℕ
  pub adaptive_cache_hits : ℕ
  pub adaptive_cache_misses : ℕ
  pub current_cache_capacity : ℕ
  pub adapted_cache : ResponseCache

unfoldable pub tuned_capacity : AdaptiveConfig → ℕ → ℕ → ℕ → ℕ
tuned_capacity cfg misses total current =
    if cfg.target_above misses total
    then min (min (current + cfg.adaptive_cache_step) 18446744073709551615)
        cfg.adaptive_cache_max_capacity
    else if cfg.target_below misses total
    then max (current - cfg.adaptive_cache_step) cfg.adaptive_cache_min_capacity
    else current

-- `free` says which locks of the cache's shards `set_capacity` gets.
unfoldable pub maybe_tune_cache_capacity :
    AdaptiveConfig → (ℕ → Bool) → ℕ → ℕ → AdaptiveState → AdaptiveState
maybe_tune_cache_capacity cfg free now later s =
    let total = s.adaptive_cache_hits + s.adaptive_cache_misses in
    let target = tuned_capacity cfg s.adaptive_cache_misses total s.current_cache_capacity in
    let counters_reset : AdaptiveState = record s {
      adaptive_cache_window_start = now;
      adaptive_cache_hits = 0;
      adaptive_cache_misses = 0;
    } in
    let tuned : AdaptiveState = record counters_reset {
      current_cache_capacity = target;
      adapted_cache = set_capacity free s.adapted_cache target later;
    } in
    if not cfg.adaptive_cache_enabled
    then s
    else if ltb (now - s.adaptive_cache_window_start) cfg.adaptive_cache_window
    then s
    else if total == 0 || target == s.current_cache_capacity
    then counters_reset
    else tuned

unfoldable pub sibling_qtype : ℕ → Option ℕ
sibling_qtype qtype = if qtype == 1 then some 28 else if qtype == 28 then some 1 else none

-- The query that is sent for the other address type of a key that is near its expiry. `present`
-- says whether either cache holds the other key, `grant` whether the budget grants the prefetch,
-- `fresh_id` is the id for a request without a header.
unfoldable pub prefetch_query :
    ℕ
    → ℕ
    → ℕ
    → ℕ
    → (CacheKey → Bool)
    → Bool
    → ℕ
    → Option ℕ
    → Option Bytes
    → Bytes
    → CacheKey
    → Option Bytes
prefetch_query ttl_trigger threshold remaining_ttl count present grant fresh_id query_type
      query_name request key =
    do
      qtype ← query_type
      sibling ← sibling_qtype qtype
      qname ← query_name
      let header = parse_header request
      let query_id = opt_or header (λ h. h.id) fresh_id
      let rd = opt_or header (λ h. not (bit_and h.flags 0x0100 == 0)) true
      let refused = ltb ttl_trigger remaining_ttl || ltb count (max threshold 1)
      let known = present (cache_key_for_query qname sibling key.dnssec_ok) || not grant
      go ← none_if (refused || known)
      build_query_like_request request query_id qname sibling rd

-- `upstream_udp_shard_count`, `upstream_tcp_shard_count`; an unknown number of processors is none.
unfoldable pub upstream_udp_shard_count : Option ℕ → ℕ
upstream_udp_shard_count parallelism = opt_or parallelism (λ n. min (max (n * 2) 2) 16) 2

unfoldable pub upstream_tcp_shard_count : Option ℕ → ℕ
upstream_tcp_shard_count parallelism = opt_or parallelism (λ n. min (max n 2) 4) 2

unfoldable pub upstream_udp_shard_index : ℕ → ℕ → ℕ
upstream_udp_shard_index query_id shard_count =
    if shard_count == 0 then 0 else query_id % shard_count
