-- ===== src/Cache/Keeps.antt =====
-- What the operations of the cache do to one shard: no key twice, and no more entries.
use cognidns_core.Prelude.{
  ℕ, ◌+◌, ◌≤◌, ◌≡◌, ◌≢◌, inl, inr, Bool, true, false, not, ◌&&◌, some, arith, ltb, leb,
  if◌then◌else◌, Bool-cases, Option-cases, length,
}
use cognidns_core.Cache.State.{bounded_shard_capacity, trim_shard, drop_expired, get_shard}
use cognidns_core.Cache.Evict.{evict_loop-lt, evict_loop-Distinct}
use cognidns_core.Cache.Insert.{shard_bound}
use cognidns_core.Cache.Map.{
  length-remove-le, Distinct, remove-Distinct, retain-Distinct, touch-Distinct, length-touch,
}
use cognidns_core.Cache.Bounds.{share}
use cognidns_core.Cache.Shard.{CacheKey, Entries, lookup, retain, touch, trim_to}

pub drop_expired-keeps :
    (key : CacheKey) (now : ℕ) (s : Entries)
    → Distinct s
    → Distinct (drop_expired key now s) × (length (drop_expired key now s) ≤ length s)
unfolding drop_expired
drop_expired-keeps key now s d = elim (Option-cases (lookup key s)) [
  | inl h ↦ rw h (d, omega arith)
  | inr (e, h) ↦ elim (Bool-cases (leb e.expires_at now)) [
    | inl t ↦ rw (h, t) (remove-Distinct key s d, length-remove-le key s)
    | inr t ↦ rw (h, t) (d, omega arith)
  ]
]

pub touched-keeps :
    (free : Bool) (key : CacheKey) (now : ℕ) (s : Entries)
    → Distinct s
    → Distinct (if free then touch key now s else s)
      × (length (if free then touch key now s else s) ≤ length s)
touched-keeps true key now s d = (touch-Distinct key now s d, omega (arith, length-touch key now s))
touched-keeps false key now s d = (d, omega arith)

pub get_shard-keeps :
    (free : Bool) (key : CacheKey) (freeze : Bool) (now later : ℕ) (s : Entries)
    → Distinct s
    → Distinct (get_shard free key freeze now later s).0
      × (length (get_shard free key freeze now later s).0 ≤ length s)
unfolding get_shard
get_shard-keeps free key freeze now later s d = elim (Option-cases (lookup key s)) [
  | inl h ↦ rw (h, get_shard) (d, omega arith)
  | inr (e, h) ↦ elim (Bool-cases (not freeze && leb e.expires_at now)) [
    | inl t ↦ rw (h, get_shard, t) (drop_expired-keeps key later s d)
    | inr t ↦ rw (h, get_shard, t) (touched-keeps free key now s d)
  ]
]

pub trim_to-Distinct : (cap : ℕ) (s : Entries) → Distinct s → Distinct (trim_to cap s)
unfolding trim_to
trim_to-Distinct cap s d = evict_loop-Distinct (length s) (cap + 1) s d

pub length-trim_to : (cap : ℕ) (s : Entries) → length (trim_to cap s) ≤ cap
unfolding trim_to
length-trim_to cap s =
    omega (arith, evict_loop-lt (length s) (cap + 1) s (omega arith) (omega arith))

pub bounded-eq :
    (total n i : ℕ) → total ≢ 0 → bounded_shard_capacity total i n ≡ some (share total n i)
unfolding bounded_shard_capacity
bounded-eq total n i h = ground arith

pub trim_shard-keeps :
    (total n now j : ℕ) (s : Entries)
    → total ≢ 0
    → (Distinct s → Distinct (trim_shard (λ i. true) total n now j s))
      × (length (trim_shard (λ i. true) total n now j s) ≤ shard_bound (share total n j))
unfolding trim_shard
trim_shard-keeps total n now j s h =
    let live = retain (λ k e. ltb now e.expires_at) s in
    rw (bounded-eq total n j h) (
      λ d. trim_to-Distinct (share total n j) live (retain-Distinct _ s d),
      omega (arith, length-trim_to (share total n j) live),
    )
