-- ===== src/Cache/Reads.antt =====
-- What is read from the cache after it was written, and after it has expired.
use cognidns_core.Prelude.{
  ℕ, ◌+◌, ◌-◌, ◌/◌, ◌≤◌, ◌<◌, ◌≡◌, refl, ap, ◌∙◌, ◌⊎◌, inl, inr, Bool, true, false, Option, none,
  some, List, [], arith, ltb, leb, if◌then◌else◌, Bool-cases, Option-cases, length, get_or, set,
  length-set, get_or-set_self, get_or-set_ne,
}
use cognidns_core.Codec.Ttl.{decay_response_ttl_in_place}
use cognidns_core.Codec.Edns.{opt_or}
use cognidns_core.Codec.Bytes.{Bytes}
use cognidns_core.Cache.State.{
  ResponseCache, bounded_shard_capacity, second, hit_response, drop_expired, get_shard,
  insert_shard, shard_index_for_key, index_of, shard_of, with_shard, get, get_stale, put,
}
use cognidns_core.Cache.Insert.{new_entry, lookup-insert_shard, insert_shard_ne}
use cognidns_core.Cache.Map.{lookup-remove_self, Distinct}
use cognidns_core.Cache.Shard.{CacheKey, CacheEntry, Entries, key_eq, lookup, remove}
use native.Mathlib.Nat.{mod-lt}
use native.Mathlib.Decide.{ℕ_discrete}

-- The cache has a shard, and no shard holds a key twice.
pub record IsValid (c : ResponseCache) : Type 0 where
  pub some_shard : 0 < length c.shards
  pub distinct : (i : ℕ) → Distinct (get_or c.shards i [])

module _ (hash : CacheKey → ℕ) (c : ResponseCache) (key : CacheKey) (v : IsValid c) where
  pub index-lt : index_of hash c key < length c.shards
  unfolding shard_index_for_key
  index-lt = mod-lt (hash key) v.some_shard

  -- The shard of the key, after it was replaced.
  pub shard_of-with_shard :
      (s : Entries)
      → get_or (with_shard hash c key s).shards (index_of hash (with_shard hash c key s) key) [] ≡ s
  shard_of-with_shard s =
      rw (length-set c.shards (index_of hash c key) s)
        (get_or-set_self c.shards (index_of hash c key) s [] index-lt)

  pub with_shard-IsValid : (s : Entries) → Distinct s → IsValid (with_shard hash c key s)
  with_shard-IsValid s d =
      let n = index_of hash c key in
      record {
        some_shard = rw (length-set c.shards n s) (v.some_shard);
        distinct = λ i. elim (ℕ_discrete n i) [
          | yes e ↦ rw (← e, get_or-set_self c.shards n s [] index-lt) d
          | no ne ↦ rw (get_or-set_ne c.shards n i s [] ne) (v.distinct i)
        ];
      }

-- A read of the key's own shard.
get_shard_hit :
    (free : Bool) (key : CacheKey) (now later : ℕ) (s : Entries) (e : CacheEntry)
    → lookup key s ≡ some e
    → now < e.expires_at
    → (get_shard free key false now later s).1 ≡ some (hit_response e false now)
unfolding get_shard
get_shard_hit free key now later s e h fresh =
    let t : leb e.expires_at now ≡ false = ground arith in rw (h, get_shard, t)

get_shard_expired :
    (free : Bool) (key : CacheKey) (now later : ℕ) (s : Entries) (e : CacheEntry)
    → lookup key s ≡ some e
    → e.expires_at ≤ now
    → now ≤ later
    → get_shard free key false now later s ≡ (remove key s, none)
unfolding get_shard drop_expired
get_shard_expired free key now later s e h old order =
    let t : leb e.expires_at now ≡ true = ground arith in
    let u : leb e.expires_at later ≡ true = ground arith in rw (h, get_shard, t, h, u)

get_shard_absent :
    (free : Bool) (key : CacheKey) (freeze : Bool) (now later : ℕ) (s : Entries)
    → lookup key s ≡ none
    → get_shard free key freeze now later s ≡ (s, none)
unfolding get_shard
get_shard_absent free key freeze now later s h = rw (h, get_shard)

get_shard_old :
    (free : Bool) (key : CacheKey) (now later : ℕ) (s : Entries) (e : CacheEntry)
    → lookup key s ≡ some e
    → leb e.expires_at now ≡ true
    → (get_shard free key false now later s).1 ≡ none
unfolding get_shard
get_shard_old free key now later s e h t = rw (h, get_shard, t)

abbrev stale_bytes : Option CacheEntry → Option Bytes
stale_bytes x = opt_or x (λ e. some e.response) none

carry :
    (x y : Option CacheEntry)
    → (x ≡ y) ⊎ (x ≡ none)
    → (stale_bytes x ≡ stale_bytes y) ⊎ (stale_bytes x ≡ none)
carry x y (inl e) = inl (ap stale_bytes e)
carry x y (inr e) = inr (ap stale_bytes e)

-- The entry of a key after one shard was replaced by one in which the key kept its entry or lost
-- it.
lookup-set :
    (ss : List Entries) (n m : ℕ) (t : Entries) (j : CacheKey)
    → n < length ss
    → (lookup j t ≡ lookup j (get_or ss n [])) ⊎ (lookup j t ≡ none)
    → (lookup j (get_or (set ss n t) m []) ≡ lookup j (get_or ss m []))
      ⊎ (lookup j (get_or (set ss n t) m []) ≡ none)
lookup-set ss n m t j lt h = elim (ℕ_discrete n m) [
  | yes e ↦ rw (← e, get_or-set_self ss n t [] lt) h
  | no ne ↦ inl (ap (lookup j) (get_or-set_ne ss n m t [] ne))
]

module _ (hash : CacheKey → ℕ) (c : ResponseCache) (key : CacheKey) where
  -- In a cache that has a shard and no key twice in one, a response that was stored is returned
  -- until it expires: as it was stored for a second, and after that with its TTLs reduced by the
  -- whole seconds since.
  pub get-put :
      (free : Bool) (response : Bytes) (ttl now now' later : ℕ)
      → IsValid c
      → now' < now + ttl
      → (get hash free (put hash c key response ttl now) key false now' later).1
        ≡ some (
            if ltb (now' - now) second
            then response
            else decay_response_ttl_in_place response ((now' - now) / second))
  unfolding get put
  get-put free response ttl now now' later v fresh =
      let share = bounded_shard_capacity c.capacity (index_of hash c key) (length c.shards) in
      let s = shard_of hash c key in
      let e = new_entry now share key response ttl s in
      rw (shard_of-with_shard hash c key v (insert_shard now share key response ttl s)) (
        get_shard_hit free key now' later (insert_shard now share key response ttl s) e
          (lookup-insert_shard now share key response ttl s) fresh
        ∙ unfold hit_response in refl)

  -- In a cache that has a shard and no key twice in one, storing a response leaves the response of
  -- another key as it was, or that key has none afterwards.
  pub get_stale-put_ne :
      (response : Bytes) (ttl now : ℕ) (j : CacheKey)
      → IsValid c
      → key_eq key j ≡ false
      → (get_stale hash (put hash c key response ttl now) j ≡ get_stale hash c j)
        ⊎ (get_stale hash (put hash c key response ttl now) j ≡ none)
  unfolding get_stale put
  get_stale-put_ne response ttl now j v h =
      let n = index_of hash c key in
      let share = bounded_shard_capacity c.capacity n (length c.shards) in
      let t = insert_shard now share key response ttl (shard_of hash c key) in
      rw (length-set c.shards n t) (
        carry _ _ (
          lookup-set c.shards n (index_of hash c j) t j (index-lt hash c key v)
            (insert_shard_ne now share key response ttl (shard_of hash c key) j (v.distinct n) h)))

  -- A read without frozen TTLs that returns a response found an entry of the key that has not
  -- expired, and the response is the one that a hit makes of this entry.
  pub get_fresh :
      (free : Bool) (now later : ℕ) (r : Bytes)
      → (get hash free c key false now later).1 ≡ some r
      → (e : CacheEntry) × (lookup key (shard_of hash c key) ≡ some e)
        × (now < e.expires_at)
        × (r ≡ hit_response e false now)
  unfolding get
  get_fresh free now later r h = elim (Option-cases (lookup key (shard_of hash c key))) [
    | inl a ↦ cc (rw (get_shard_absent free key false now later (shard_of hash c key) a) at h)
    | inr (e, a) ↦ elim (Bool-cases (leb e.expires_at now)) [
      | inl old ↦ cc (get_shard_old free key now later (shard_of hash c key) e a old)
      | inr fresh ↦
          let lt : now < e.expires_at = ground arith in
          let hit = get_shard_hit free key now later (shard_of hash c key) e a lt in (e, a, lt, cc)
    ]
  ]

  -- In a cache that has a shard and no key twice in one, a read that finds the entry of its key
  -- expired returns nothing, and `get_stale` finds nothing for the key afterwards.
  pub get_stale-get_expired :
      (free : Bool) (now later : ℕ) (e : CacheEntry)
      → IsValid c
      → lookup key (shard_of hash c key) ≡ some e
      → e.expires_at ≤ now
      → now ≤ later
      → ((get hash free c key false now later).1 ≡ none)
        × (get_stale hash (get hash free c key false now later).0 key ≡ none)
  unfolding get get_stale
  get_stale-get_expired free now later e v h old order =
      let s = shard_of hash c key in
      rw (get_shard_expired free key now later s e h old order)
        (refl, rw (shard_of-with_shard hash c key v (remove key s), lookup-remove_self key s))
