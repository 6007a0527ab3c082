-- ===== src/Resolver/Expiring.antt =====
-- Maps whose entries expire, as the caches of name servers and of delegations in
-- src/resolver/mod.rs use them: both drop, evict and store in the same way.
use cognidns_core.Prelude.{ℕ, Option, none, some, List, [], ◌∷◌, ltb, leb, if◌then◌else◌, length}
use cognidns_core.Maps.{text_key, remove_key, insert_key}
use cognidns_core.Codec.Edns.{opt_or}
use cognidns_core.Codec.Bytes.{Bytes}

module _ {V : Type 0} (expires_at : V → ℕ) (last_access : V → ℕ) where
  -- `retain(|_, value| now < value.expires_at)`
  unfoldable pub retain_live : ℕ → List (Bytes × V) → List (Bytes × V)
  retain_live now [] = []
  retain_live now ((k, v) ∷ m) =
      let rest = retain_live now m in if ltb now (expires_at v) then (k, v) ∷ rest else rest

  unfoldable pub least_recent_from : Bytes → ℕ → List (Bytes × V) → Bytes
  least_recent_from key access [] = key
  least_recent_from key access ((k, v) ∷ m) =
      if ltb (last_access v) access
      then least_recent_from k (last_access v) m
      else least_recent_from key access m

  -- `min_by_key(|(_, value)| value.last_access)`: the first of several
  unfoldable pub least_recent : List (Bytes × V) → Option Bytes
  least_recent [] = none
  least_recent ((k, v) ∷ m) = some (least_recent_from k (last_access v) m)

  unfoldable pub retain_if_full : ℕ → ℕ → List (Bytes × V) → List (Bytes × V)
  retain_if_full shard_capacity now m =
      if leb shard_capacity (length m) then retain_live now m else m

  -- The key that is evicted from a map that is still full.
  unfoldable pub evicted_key : ℕ → List (Bytes × V) → Option Bytes
  evicted_key shard_capacity m = if leb shard_capacity (length m) then least_recent m else none

  -- Room for the entry is made first, whether or not the map has one of its key.
  unfoldable pub store_entry : ℕ → ℕ → Bytes → V → List (Bytes × V) → List (Bytes × V)
  store_entry shard_capacity now key v m =
      let kept = retain_if_full shard_capacity now m in
      insert_key key v (opt_or (evicted_key shard_capacity kept) (λ k. remove_key k kept) kept)
