-- ===== src/Cache/State.antt =====
-- `ResponseCache` of src/cache.rs: its operations on the shards. An operation returns the new cache
-- beside its result. The clock is an argument wherever the code reads it.
use cognidns_core.Prelude.{
  ℕ, ◌+◌, ◌-◌, ◌*◌, ◌/◌, ◌%◌, min, max, Bool, true, false, not, ◌&&◌, Option, none, some, List, [],
  ◌∷◌, ltb, leb, ◌==◌, if◌then◌else◌, length, get_or, replicate, set,
}
use cognidns_core.Codec.Ttl.{decay_response_ttl_in_place}
use cognidns_core.Codec.Edns.{opt_or, response_code}
use cognidns_core.Codec.Bytes.{Bytes}
use cognidns_core.Cache.Domain.{
  normalize_domain, same_or_subdomain, any_domain, add_domain, remove_domain,
}
use cognidns_core.Cache.Shard.{
  CacheKey, CacheEntry, Entries, lookup, remove, insert, retain, touch, trim_to,
  make_room_for_insert_locked,
}

-- The cache's state. `capacity` 0 means unbounded.
pub record ResponseCache : Type 0 where
  pub shards : List Entries
  pub capacity : ℕ
  pub freeze_all : Bool
  pub freeze_domains : List Bytes

-- `available_parallelism()`, `none` for its error.
unfoldable pub cache_shard_count : Option ℕ → ℕ → ℕ
cache_shard_count parallelism capacity =
    let preferred = opt_or parallelism (λ n. min (max (n * 2) 8) 64) 16 in
    if capacity == 0 then preferred else min preferred (max capacity 1)

unfoldable pub new : Option ℕ → ℕ → ResponseCache
new parallelism capacity = record {
  shards = replicate (cache_shard_count parallelism capacity) [];
  capacity = capacity;
  freeze_all = false;
  freeze_domains = [];
}

-- The share of one shard: the quotient, and one more for as many shards as the remainder says.
unfoldable pub bounded_shard_capacity : ℕ → ℕ → ℕ → Option ℕ
bounded_shard_capacity total shard_index shard_count =
    if total == 0
    then none
    else some (total / shard_count + (if ltb shard_index (total % shard_count) then 1 else 0))

unfoldable pub is_frozen_for_qname : ResponseCache → Bytes → Bool
is_frozen_for_qname c qname =
    if c.freeze_all
    then true
    else if length (normalize_domain qname) == 0
    then false
    else any_domain (same_or_subdomain (normalize_domain qname)) c.freeze_domains

unfoldable pub set_freeze_all : ResponseCache → Bool → ResponseCache
set_freeze_all c enabled = record c { freeze_all = enabled }

-- The cache, and the number of frozen domains.
unfoldable pub set_freeze_domain : ResponseCache → Bytes → Bool → ResponseCache × ℕ
set_freeze_domain c domain enabled =
    let normalized = normalize_domain domain in
    let domains =
      if enabled
      then add_domain normalized c.freeze_domains
      else remove_domain normalized c.freeze_domains in
    if length normalized == 0
    then (c, length c.freeze_domains)
    else (record c { freeze_domains = domains }, length domains)

-- Every shard in turn, with its index.
unfoldable pub map_shards : (ℕ → Entries → Entries) → ℕ → List Entries → List Entries
map_shards f i [] = []
map_shards f i (s ∷ ss) = f i s ∷ map_shards f (i + 1) ss

abbrev pub total_entries : List Entries → ℕ
total_entries [] = 0
total_entries (s ∷ ss) = length s + total_entries ss

-- The cache, and how many entries were removed.
unfoldable pub clear_all : ResponseCache → ResponseCache × ℕ
clear_all c = (record c { shards = map_shards (λ i s. []) 0 c.shards }, total_entries c.shards)

unfoldable pub clear_domain : ResponseCache → Bytes → ResponseCache × ℕ
clear_domain c domain =
    let normalized = normalize_domain domain in
    let kept =
      map_shards
        (λ i s. retain (λ k e. not (same_or_subdomain (normalize_domain k.qname) normalized)) s) 0
        c.shards in
    if length normalized == 0
    then (c, 0)
    else (record c { shards = kept }, total_entries c.shards - total_entries kept)

-- `free i` says that no other thread holds the lock of shard `i`.
unfoldable pub trim_shard : (ℕ → Bool) → ℕ → ℕ → ℕ → ℕ → Entries → Entries
trim_shard free capacity shard_count now i s =
    if free i
    then opt_or (bounded_shard_capacity capacity i shard_count)
        (λ cap. trim_to cap (retain (λ k e. ltb now e.expires_at) s)) s
    else s

unfoldable pub set_capacity : (ℕ → Bool) → ResponseCache → ℕ → ℕ → ResponseCache
set_capacity free c capacity now =
    if capacity == 0 then record c { capacity = capacity } else record c {
      capacity = capacity;
      shards = map_shards (trim_shard free capacity (length c.shards) now) 0 c.shards;
    }

abbrev pub second : ℕ
second = 1000000000

-- What a hit returns: the stored bytes, or a copy with the TTLs of a longer stay taken off.
unfoldable pub hit_response : CacheEntry → Bool → ℕ → Bytes
hit_response e freeze_ttl now =
    let elapsed = now - e.inserted_at in
    if freeze_ttl
    then e.response
    else if ltb elapsed second
    then e.response
    else decay_response_ttl_in_place e.response (elapsed / second)

-- The key's entry goes if it has expired by `now`.
unfoldable pub drop_expired : CacheKey → ℕ → Entries → Entries
drop_expired key now s =
    opt_or (lookup key s) (λ e. if leb e.expires_at now then remove key s else s) s

-- `now` is read first, `later` once the write lock is held; `free` says that the lock for the
-- touch could be taken.
unfoldable pub get_shard : Bool → CacheKey → Bool → ℕ → ℕ → Entries → Entries × Option Bytes
get_shard free key freeze_ttl now later s = elim (lookup key s) [
  | none ↦ (s, none)
  | some e ↦
      if not freeze_ttl && leb e.expires_at now
      then (drop_expired key later s, none)
      else (if free then touch key now s else s, some (hit_response e freeze_ttl now))
]

unfoldable pub insert_shard : ℕ → Option ℕ → CacheKey → Bytes → ℕ → Entries → Entries
insert_shard now capacity key response ttl s =
    insert key
      (record {
        response = response;
        inserted_at = now;
        expires_at = now + ttl;
        original_ttl_secs = ttl / second;
        rcode = opt_or (response_code response) (λ r. r) 2;
        last_access = now;
      })
      (make_room_for_insert_locked now capacity s)

-- The key hash of the standard library is a parameter, with no assumption on it.
module _ (hash : CacheKey → ℕ) where
  unfoldable pub shard_index_for_key : CacheKey → ℕ → ℕ
  shard_index_for_key key shard_count = hash key % shard_count

  abbrev pub index_of : ResponseCache → CacheKey → ℕ
  index_of c key = shard_index_for_key key (length c.shards)

  abbrev pub shard_of : ResponseCache → CacheKey → Entries
  shard_of c key = get_or c.shards (index_of c key) []

  abbrev pub with_shard : ResponseCache → CacheKey → Entries → ResponseCache
  with_shard c key s = record c { shards = set c.shards (index_of c key) s }

  unfoldable pub get : Bool → ResponseCache → CacheKey → Bool → ℕ → ℕ → ResponseCache × Option Bytes
  get free c key freeze_ttl now later =
      let (s, r) = get_shard free key freeze_ttl now later (shard_of c key) in
      (with_shard c key s, r)

  unfoldable pub get_stale : ResponseCache → CacheKey → Option Bytes
  get_stale c key = opt_or (lookup key (shard_of c key)) (λ e. some e.response) none

  -- In nanoseconds.
  unfoldable pub remaining_ttl : ResponseCache → CacheKey → Bool → ℕ → Option ℕ
  remaining_ttl c key freeze_ttl now =
      opt_or (lookup key (shard_of c key))
        (λ e.
          if freeze_ttl
          then some (max e.original_ttl_secs 1 * second)
          else if leb e.expires_at now
          then none
          else some (e.expires_at - now))
        none

  unfoldable pub put : ResponseCache → CacheKey → Bytes → ℕ → ℕ → ResponseCache
  put c key response ttl now = with_shard c key (
      insert_shard now (bounded_shard_capacity c.capacity (index_of c key) (length c.shards)) key
        response ttl (shard_of c key))

  unfoldable pub prune_expired : ResponseCache → CacheKey → ℕ → ResponseCache
  prune_expired c key now = with_shard c key (drop_expired key now (shard_of c key))
