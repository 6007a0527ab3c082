-- ===== src/Cache/Insert.antt =====
-- Insertion into one shard: room is made first, and nothing else changes.
use cognidns_core.Prelude.{
  ℕ, zero, suc, ◌+◌, ◌/◌, ◌≤◌, ◌<◌, max, ◌≡◌, refl, ◌⊎◌, inl, inr, false, Option, none, some, arith,
  ltb, leb, if◌then◌else◌, Bool-cases, length,
}
use cognidns_core.Codec.Edns.{opt_or, response_code}
use cognidns_core.Codec.Bytes.{Bytes}
use cognidns_core.Cache.State.{second, insert_shard}
use cognidns_core.Cache.Evict.{
  Shrinks, Shrinks-refl, Shrinks-trans, retain-Shrinks, evict_loop-lt, evict_loop-Shrinks,
  evict_loop-Distinct,
}
use cognidns_core.Cache.Map.{
  lookup-insert_self, lookup-insert_ne, length-remove-le, Distinct, insert-Distinct,
  retain-Distinct,
}
use cognidns_core.Cache.Shard.{
  CacheKey, CacheEntry, Entries, key_eq, lookup, insert, retain, make_room_for_insert_locked,
}

-- At least one entry fits a shard whatever its share: the new entry is put in an emptied shard.
abbrev pub shard_bound : ℕ → ℕ
shard_bound share = max share 1

live_Shrinks :
    (now n : ℕ) (s : Entries)
    → Distinct s
    → Shrinks s (if leb (suc n) (length s) then retain (λ k e. ltb now e.expires_at) s else s)
live_Shrinks now n s d = elim (Bool-cases (leb (suc n) (length s))) [
  | inl h ↦ rw h (retain-Shrinks (λ k e. ltb now e.expires_at) s d)
  | inr h ↦ rw h (Shrinks-refl s)
]

live_Distinct :
    (now n : ℕ) (s : Entries)
    → Distinct s
    → Distinct (if leb (suc n) (length s) then retain (λ k e. ltb now e.expires_at) s else s)
live_Distinct now n s d = elim (Bool-cases (leb (suc n) (length s))) [
  | inl h ↦ rw h (retain-Distinct (λ k e. ltb now e.expires_at) s d)
  | inr h ↦ rw h d
]

pub make_room-Shrinks :
    (now : ℕ) (capacity : Option ℕ) (s : Entries)
    → Distinct s
    → Shrinks s (make_room_for_insert_locked now capacity s)
unfolding make_room_for_insert_locked lookup
make_room-Shrinks now none s d = Shrinks-refl s
make_room-Shrinks now (some zero) s d = λ k. inr refl
make_room-Shrinks now (some (suc n)) s d =
    Shrinks-trans s _ _ (live_Shrinks now n s d) (evict_loop-Shrinks _ (suc n) _)

pub make_room-Distinct :
    (now : ℕ) (capacity : Option ℕ) (s : Entries)
    → Distinct s
    → Distinct (make_room_for_insert_locked now capacity s)
unfolding make_room_for_insert_locked
make_room-Distinct now none s d = d
make_room-Distinct now (some zero) s d = tt
make_room-Distinct now (some (suc n)) s d =
    evict_loop-Distinct _ (suc n) _ (live_Distinct now n s d)

pub make_room-lt :
    (now share : ℕ) (s : Entries)
    → length (make_room_for_insert_locked now (some share) s) < shard_bound share
unfolding make_room_for_insert_locked
make_room-lt now zero s = omega arith
make_room-lt now (suc n) s =
    let live = if leb (suc n) (length s) then retain (λ k e. ltb now e.expires_at) s else s in
    omega (arith, evict_loop-lt (length live) (suc n) live (omega arith) (omega arith))

module _ (now : ℕ) (capacity : Option ℕ) (key : CacheKey) (response : Bytes) (ttl : ℕ)
    (s : Entries) where
  abbrev pub new_entry : CacheEntry
  new_entry = record {
    response = response;
    inserted_at = now;
    expires_at = now + ttl;
    original_ttl_secs = ttl / second;
    rcode = opt_or (response_code response) (λ r. r) 2;
    last_access = now;
  }

  pub lookup-insert_shard :
      lookup key (insert_shard now capacity key response ttl s) ≡ some new_entry
  unfolding insert_shard
  lookup-insert_shard = lookup-insert_self key new_entry _

  pub insert_shard-Distinct : Distinct s → Distinct (insert_shard now capacity key response ttl s)
  unfolding insert_shard
  insert_shard-Distinct d = insert-Distinct key new_entry _ (make_room-Distinct now capacity s d)

  -- Any other key keeps its entry or is evicted.
  pub insert_shard_ne :
      (j : CacheKey)
      → Distinct s
      → key_eq key j ≡ false
      → (lookup j (insert_shard now capacity key response ttl s) ≡ lookup j s)
        ⊎ (lookup j (insert_shard now capacity key response ttl s) ≡ none)
  unfolding insert_shard
  insert_shard_ne j d h =
      rw (lookup-insert_ne j key new_entry (make_room_for_insert_locked now capacity s) h)
        (make_room-Shrinks now capacity s d j)

length-insert : (k : CacheKey) (e : CacheEntry) (s : Entries) → length (insert k e s) ≤ length s + 1
unfolding insert
length-insert k e s = omega (arith, length-remove-le k s)

-- After an insertion a bounded shard holds at most its share, or one entry where its share is 0.
pub length-insert_shard :
    (now share : ℕ) (key : CacheKey) (response : Bytes) (ttl : ℕ) (s : Entries)
    → length (insert_shard now (some share) key response ttl s) ≤ shard_bound share
unfolding insert_shard
length-insert_shard now share key response ttl s =
    let room = make_room_for_insert_locked now (some share) s in
    omega (
      arith,
      length-insert key (new_entry now (some share) key response ttl s) room,
      make_room-lt now share s,
    )
