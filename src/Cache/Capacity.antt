-- ===== src/Cache/Capacity.antt =====
-- Every operation of the cache keeps the shards within their capacities.
use cognidns_core.Prelude.{
  ℕ, ◌+◌, ◌≤◌, ◌≡◌, refl, ◌≢◌, inl, inr, Bool, true, false, [], arith, ◌==◌, Bool-cases, length,
  length-set,
}
use cognidns_core.Codec.Bytes.{Bytes}
use cognidns_core.Cache.Domain.{normalize_domain}
use cognidns_core.Cache.State.{
  ResponseCache, bounded_shard_capacity, set_freeze_all, set_freeze_domain, map_shards, clear_all,
  clear_domain, trim_shard, set_capacity, drop_expired, get_shard, insert_shard, index_of, shard_of,
  with_shard, get, put, prune_expired,
}
use cognidns_core.Cache.Keeps.{drop_expired-keeps, get_shard-keeps, bounded-eq, trim_shard-keeps}
use cognidns_core.Cache.Insert.{shard_bound, insert_shard-Distinct, length-insert_shard}
use cognidns_core.Cache.Map.{Distinct, retain-Distinct, length-retain-le}
use cognidns_core.Cache.Bounds.{
  share, Within, Within-set, Within-get, length-map_shards, Within-map_shards, Within-shrink,
  map_shards-Distinct,
}
use cognidns_core.Cache.Reads.{IsValid, with_shard-IsValid}
use cognidns_core.Cache.Shard.{CacheKey, Entries}
use native.Mathlib.Nat.{le_trans}
use native.Mathlib.Decide.{ℕ_discrete}

pub record IsBounded (c : ResponseCache) : Type 0 where
  pub valid : IsValid c
  pub within : c.capacity ≢ 0 → Within c.capacity (length c.shards) 0 c.shards

-- One shard replaced by another that is no larger than its share.
pub replace-IsBounded :
    (hash : CacheKey → ℕ) (c : ResponseCache) (key : CacheKey) (s : Entries)
    → IsBounded c
    → Distinct s
    → (c.capacity ≢ 0
        → length s ≤ shard_bound (share c.capacity (length c.shards) (index_of hash c key)))
    → IsBounded (with_shard hash c key s)
replace-IsBounded hash c key s b d h =
    let n = index_of hash c key in
    record {
      valid = with_shard-IsValid hash c key b.valid s d;
      within = λ pos. rw (length-set c.shards n s) (
          Within-set c.capacity (length c.shards) 0 n c.shards s (b.within pos)
            (let e : 0 + n ≡ n = omega arith in rw e (h pos)));
    }

-- The shard of a key is within its share.
pub shard_of-le :
    (hash : CacheKey → ℕ) (c : ResponseCache) (key : CacheKey)
    → IsBounded c
    → c.capacity ≢ 0
    → length (shard_of hash c key)
      ≤ shard_bound (share c.capacity (length c.shards) (index_of hash c key))
shard_of-le hash c key b pos =
    let n = index_of hash c key in
    let e : 0 + n ≡ n = omega arith in
    rw e at (Within-get c.capacity (length c.shards) 0 n c.shards (b.within pos))

pub put-IsBounded :
    (hash : CacheKey → ℕ) (c : ResponseCache) (key : CacheKey) (response : Bytes) (ttl now : ℕ)
    → IsBounded c
    → IsBounded (put hash c key response ttl now)
unfolding put
put-IsBounded hash c key response ttl now b =
    let n = index_of hash c key in
    let cap = bounded_shard_capacity c.capacity n (length c.shards) in
    replace-IsBounded hash c key (insert_shard now cap key response ttl (shard_of hash c key)) b
      (insert_shard-Distinct now cap key response ttl (shard_of hash c key) (b.valid.distinct n))
      (λ pos. rw (bounded-eq c.capacity (length c.shards) n pos) (
        length-insert_shard now (share c.capacity (length c.shards) n) key response ttl
          (shard_of hash c key)))

pub get-IsBounded :
    (hash : CacheKey → ℕ) (free : Bool) (c : ResponseCache) (key : CacheKey) (freeze : Bool)
    (now later : ℕ)
    → IsBounded c
    → IsBounded (get hash free c key freeze now later).0
unfolding get
get-IsBounded hash free c key freeze now later b =
    let (d, l) =
      get_shard-keeps free key freeze now later (shard_of hash c key)
        (b.valid.distinct (index_of hash c key)) in
    replace-IsBounded hash c key (get_shard free key freeze now later (shard_of hash c key)).0 b d
      (λ pos. le_trans l (shard_of-le hash c key b pos))

pub prune-IsBounded :
    (hash : CacheKey → ℕ) (c : ResponseCache) (key : CacheKey) (now : ℕ)
    → IsBounded c
    → IsBounded (prune_expired hash c key now)
unfolding prune_expired
prune-IsBounded hash c key now b =
    let (d, l) =
      drop_expired-keeps key now (shard_of hash c key) (b.valid.distinct (index_of hash c key)) in
    replace-IsBounded hash c key (drop_expired key now (shard_of hash c key)) b d
      (λ pos. le_trans l (shard_of-le hash c key b pos))

-- Every shard replaced by one that is no larger.
pub shrink-IsBounded :
    (c : ResponseCache) (f : ℕ → Entries → Entries)
    → ((j : ℕ) (s : Entries) → Distinct s → Distinct (f j s))
    → ((j : ℕ) (s : Entries) → length (f j s) ≤ length s)
    → IsBounded c
    → IsBounded (record c { shards = map_shards f 0 c.shards })
shrink-IsBounded c f hd hl b = record {
  valid = record {
    some_shard = rw (length-map_shards f 0 c.shards) (b.valid.some_shard);
    distinct = map_shards-Distinct f 0 c.shards hd b.valid.distinct;
  };
  within = λ pos.
      rw (length-map_shards f 0 c.shards)
        (Within-shrink f c.capacity (length c.shards) 0 c.shards hl (b.within pos));
}

pub same_shards-IsBounded :
    (c d : ResponseCache)
    → d.shards ≡ c.shards
    → d.capacity ≡ c.capacity
    → IsBounded c
    → IsBounded d
same_shards-IsBounded c d s k b = record {
  valid = record { some_shard = rw s (b.valid.some_shard); distinct = rw s (b.valid.distinct) };
  within = rw (s, k) (b.within);
}

pub clear_all-IsBounded : (c : ResponseCache) → IsBounded c → IsBounded (clear_all c).0
unfolding clear_all
clear_all-IsBounded c b = shrink-IsBounded c (λ i s. []) (λ j s d. tt) (λ j s. omega arith) b

pub clear_domain-IsBounded :
    (c : ResponseCache) (domain : Bytes) → IsBounded c → IsBounded (clear_domain c domain).0
unfolding clear_domain
clear_domain-IsBounded c domain b = elim (Bool-cases (length (normalize_domain domain) == 0)) [
  | inl h ↦ rw h b
  | inr h ↦
      rw h (shrink-IsBounded c _ (λ j s d. retain-Distinct _ s d) (λ j s. length-retain-le _ s) b)
]

pub set_freeze_domain-IsBounded :
    (c : ResponseCache) (domain : Bytes) (enabled : Bool)
    → IsBounded c
    → IsBounded (set_freeze_domain c domain enabled).0
unfolding set_freeze_domain
set_freeze_domain-IsBounded c domain enabled b =
    elim (Bool-cases (length (normalize_domain domain) == 0)) [
      | inl h ↦ rw h b
      | inr h ↦ rw h (same_shards-IsBounded c _ refl refl b)
    ]

pub set_freeze_all-IsBounded :
    (c : ResponseCache) (enabled : Bool) → IsBounded c → IsBounded (set_freeze_all c enabled)
unfolding set_freeze_all
set_freeze_all-IsBounded c enabled b = same_shards-IsBounded c _ refl refl b

pub set_capacity-IsBounded :
    (c : ResponseCache) (capacity now : ℕ)
    → IsBounded c
    → IsBounded (set_capacity (λ i. true) c capacity now)
unfolding set_capacity
set_capacity-IsBounded c capacity now b = elim (ℕ_discrete capacity 0) [
  | yes z ↦
      let t : (capacity == 0) ≡ true = ground arith in
      rw t (record {
        valid = record { some_shard = b.valid.some_shard; distinct = b.valid.distinct };
        within = λ pos. absurd (pos z);
      })
  | no nz ↦
      let t : (capacity == 0) ≡ false = ground arith in
      let n = length c.shards in
      let f = trim_shard (λ i. true) capacity n now in
      rw t (record {
        valid = record {
          some_shard = rw (length-map_shards f 0 c.shards) (b.valid.some_shard);
          distinct =
              map_shards-Distinct f 0 c.shards (λ j s. (trim_shard-keeps capacity n now j s nz).0)
                b.valid.distinct;
        };
        within = λ pos. rw (length-map_shards f 0 c.shards) (
            Within-map_shards f capacity n 0 c.shards
              (λ j s. (trim_shard-keeps capacity n now j s nz).1));
      })
]
