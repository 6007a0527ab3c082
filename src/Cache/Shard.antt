-- ===== src/Cache/Shard.antt =====
-- One shard of src/cache.rs: a hash map from keys to entries, and its eviction.
use cognidns_core.Prelude.{
  ℕ, zero, suc, ◌+◌, Bool, true, false, not, ◌&&◌, Option, none, some, List, [], ◌∷◌, ltb, leb,
  ◌==◌, if◌then◌else◌, length, take,
}
use cognidns_core.Codec.Text.{text_eq}
use cognidns_core.Codec.Bytes.{Bytes}

pub record CacheKey : Type 0 where
  pub qname : Bytes
  pub qtype : ℕ
  pub dnssec_ok : Bool

-- Instants are nanoseconds from a common origin.
pub record CacheEntry : Type 0 where
  pub response : Bytes
  pub inserted_at : ℕ
  pub expires_at : ℕ
  pub original_ttl_secs : ℕ
  pub rcode : ℕ
  pub last_access : ℕ

abbrev pub Entries : Type 0
Entries = List (CacheKey × CacheEntry)

abbrev pub bool_eq : Bool → Bool → Bool
bool_eq true b = b
bool_eq false b = not b

unfoldable pub key_eq : CacheKey → CacheKey → Bool
key_eq a b = text_eq a.qname b.qname && (a.qtype == b.qtype && bool_eq a.dnssec_ok b.dnssec_ok)

-- `HashMap::get`
unfoldable pub lookup : CacheKey → Entries → Option CacheEntry
lookup key [] = none
lookup key ((k, e) ∷ s) = if key_eq k key then some e else lookup key s

-- `HashMap::remove`
unfoldable pub remove : CacheKey → Entries → Entries
remove key [] = []
remove key ((k, e) ∷ s) = let rest = remove key s in if key_eq k key then rest else (k, e) ∷ rest

-- `HashMap::insert`
unfoldable pub insert : CacheKey → CacheEntry → Entries → Entries
insert key e s = (key, e) ∷ remove key s

-- `HashMap::retain`
unfoldable pub retain : (CacheKey → CacheEntry → Bool) → Entries → Entries
retain keep [] = []
retain keep ((k, e) ∷ s) = let rest = retain keep s in if keep k e then (k, e) ∷ rest else rest

-- `entry.last_access = now` through `get_mut`
unfoldable pub touch : CacheKey → ℕ → Entries → Entries
touch key now [] = []
touch key now ((k, e) ∷ s) =
    if key_eq k key then (k, record e { last_access = now }) ∷ s else (k, e) ∷ touch key now s

-- The sampling loop: the key and the access time of the oldest entry so far.
unfoldable pub oldest_from : CacheKey → ℕ → Entries → CacheKey
oldest_from key access [] = key
oldest_from key access ((k, e) ∷ s) =
    if ltb e.last_access access then oldest_from k e.last_access s else oldest_from key access s

-- The least recently used of the first five entries; the first one of several.
unfoldable pub oldest_key : Entries → Option CacheKey
oldest_key [] = none
oldest_key ((k, e) ∷ s) = some (oldest_from k e.last_access (take 4 s))

-- `while entries.len() >= bound` evict the oldest of the sample. A round removes an entry, so the
-- number of entries is fuel enough.
unfoldable pub evict_loop : ℕ → ℕ → Entries → Entries
evict_loop zero bound s = s
evict_loop (suc f) bound s =
    let next : Entries = elim (oldest_key s) [
      | none ↦ s
      | some k ↦ evict_loop f bound (remove k s)
    ] in
    if ltb (length s) bound then s else next

-- `while entries.len() > shard_cap` of `set_capacity`, with the same sample
unfoldable pub trim_to : ℕ → Entries → Entries
trim_to cap s = evict_loop (length s) (cap + 1) s

unfoldable pub make_room_for_insert_locked : ℕ → Option ℕ → Entries → Entries
make_room_for_insert_locked now none s = s
make_room_for_insert_locked now (some zero) s = []
make_room_for_insert_locked now (some (suc n)) s =
    let live = if leb (suc n) (length s) then retain (λ k e. ltb now e.expires_at) s else s in
    evict_loop (length live) (suc n) live
