-- ===== src/Cache/Invariant.antt =====
-- The operations of the cache as steps, and the caches that can be reached from a new one.
use cognidns_core.Prelude.{
  ℕ, ◌≤◌, ◌<◌, max, ◌≢◌, Bool, true, Option, none, some, [], arith, length, length-replicate,
}
use cognidns_core.Codec.Bytes.{Bytes}
use cognidns_core.Cache.Capacity.{
  IsBounded, put-IsBounded, get-IsBounded, prune-IsBounded, clear_all-IsBounded,
  clear_domain-IsBounded, set_freeze_domain-IsBounded, set_freeze_all-IsBounded,
  set_capacity-IsBounded,
}
use cognidns_core.Cache.State.{
  ResponseCache, cache_shard_count, new, set_freeze_all, set_freeze_domain, total_entries,
  clear_all, clear_domain, set_capacity, get, put, prune_expired,
}
use cognidns_core.Cache.Bounds.{total_entries-le, Within-empty, replicate-Distinct}
use cognidns_core.Cache.Shard.{CacheKey, Entries}

-- `set_capacity` and the operations by which the resolver uses the cache. A call of
-- `set_capacity` skips the shards whose lock another thread holds; this one finds all free.
pub data Step (hash : CacheKey → ℕ) (c : ResponseCache) : ResponseCache → Type 0 where
  put_step :
      (key : CacheKey) (response : Bytes) (ttl now : ℕ)
      → Step hash c (put hash c key response ttl now)
  get_step :
      (free : Bool) (key : CacheKey) (freeze_ttl : Bool) (now later : ℕ)
      → Step hash c (get hash free c key freeze_ttl now later).0
  prune_step : (key : CacheKey) (now : ℕ) → Step hash c (prune_expired hash c key now)
  clear_all_step : Step hash c (clear_all c).0
  clear_domain_step : (domain : Bytes) → Step hash c (clear_domain c domain).0
  freeze_all_step : (enabled : Bool) → Step hash c (set_freeze_all c enabled)
  freeze_domain_step :
      (domain : Bytes) (enabled : Bool) → Step hash c (set_freeze_domain c domain enabled).0
  capacity_step : (capacity now : ℕ) → Step hash c (set_capacity (λ i. true) c capacity now)

pub data Reach (hash : CacheKey → ℕ) (start : ResponseCache) : ResponseCache → Type 0 where
  here : Reach hash start start
  then_step : {c d : ResponseCache} → Reach hash start c → Step hash c d → Reach hash start d

pub Step-IsBounded :
    {hash : CacheKey → ℕ} {c d : ResponseCache} → Step hash c d → IsBounded c → IsBounded d
Step-IsBounded {hash} {c} (put_step key response ttl now) b =
    put-IsBounded hash c key response ttl now b
Step-IsBounded {hash} {c} (get_step free key freeze now later) b =
    get-IsBounded hash free c key freeze now later b
Step-IsBounded {hash} {c} (prune_step key now) b = prune-IsBounded hash c key now b
Step-IsBounded {hash} {c} clear_all_step b = clear_all-IsBounded c b
Step-IsBounded {hash} {c} (clear_domain_step domain) b = clear_domain-IsBounded c domain b
Step-IsBounded {hash} {c} (freeze_all_step enabled) b = set_freeze_all-IsBounded c enabled b
Step-IsBounded {hash} {c} (freeze_domain_step domain enabled) b =
    set_freeze_domain-IsBounded c domain enabled b
Step-IsBounded {hash} {c} (capacity_step capacity now) b = set_capacity-IsBounded c capacity now b

shard_count_pos :
    (parallelism : Option ℕ) (capacity : ℕ) → 0 < cache_shard_count parallelism capacity
unfolding cache_shard_count
shard_count_pos none capacity = ground arith
shard_count_pos (some n) capacity = ground arith

pub new-IsBounded : (parallelism : Option ℕ) (capacity : ℕ) → IsBounded (new parallelism capacity)
unfolding new
new-IsBounded parallelism capacity =
    let n = cache_shard_count parallelism capacity in
    let l = length-replicate {A = Entries} n [] in
    record {
      valid = record {
        some_shard = rw l (shard_count_pos parallelism capacity);
        distinct = replicate-Distinct n;
      };
      within = λ pos. rw l (Within-empty capacity n 0 n);
    }

Reach-IsBounded :
    {hash : CacheKey → ℕ} {s c : ResponseCache} → Reach hash s c → IsBounded s → IsBounded c
Reach-IsBounded here b = b
Reach-IsBounded (then_step r st) b = Step-IsBounded st (Reach-IsBounded r b)

-- Every cache that the operations reach from a new one, and whose capacity is not 0, has at most
-- as many entries as the capacity, or as there are shards if that is more. `set_capacity` counts
-- as an operation here if it finds no shard locked.
pub Reach-bounds :
    (hash : CacheKey → ℕ) (parallelism : Option ℕ) (capacity : ℕ) {c : ResponseCache}
    → Reach hash (new parallelism capacity) c
    → c.capacity ≢ 0
    → total_entries c.shards ≤ max c.capacity (length c.shards)
Reach-bounds hash parallelism capacity {c} r pos =
    let b = Reach-IsBounded r (new-IsBounded parallelism capacity) in
    total_entries-le c.capacity c.shards b.valid.some_shard (b.within pos)
