-- ===== src/Resolver/Tests.antt =====
-- The resolver of src/resolver on concrete keys.
use cognidns_core.Prelude.{ℕ, ◌+◌, ◌≤◌, min, ◌≡◌, refl, false, none, some, [], ◌∷◌, arith, get_or}
use cognidns_core.Codec.Text.{text_eq}
use cognidns_core.Cache.Shard.{CacheKey, bool_eq, key_eq}
use cognidns_core.Resolver.Inflight.{
  abandoned, parked, resumed, wake, insert_handle, copy_handle, park, remove_entry, notify,
  drop_owner, Flights, at_start, flies, all_outside, IsOwned,
}
use cognidns_core.Resolver.Popularity.{
  PopularitySketch, top_count, new_sketch, cell_index, bump, increment_rows, estimate_rows,
  decay_all, increment, estimate,
}
use cognidns_core.Resolver.Inflight.Owner.{Flights-IsOwned}
use cognidns_core.Resolver.Popularity.Counts.{occurrences, increments, occurrences-le-estimate}

program : Unit {0}
unfolding new_sketch cell_index bump increment_rows estimate_rows decay_all increment estimate
    occurrences increments key_eq text_eq bool_eq
program = tt

abbrev key_a : CacheKey
key_a = record { qname = 97 ∷ []; qtype = 1; dnssec_ok = false }

abbrev key_b : CacheKey
key_b = record { qname = 98 ∷ []; qtype = 1; dnssec_ok = false }

-- Hashes that agree in the first row only.
abbrev hashes : CacheKey → ℕ × ℕ
hashes key = (3, key.qtype + get_or key.qname 0 0)

abbrev sketch : PopularitySketch
sketch = increments hashes (new_sketch 4 2) (key_a ∷ key_b ∷ key_a ∷ [])

estimate_a : estimate hashes sketch key_a ≡ 2
unfolding program
estimate_a = refl

estimate_decayed : estimate hashes (decay_all sketch) key_a ≡ 1
unfolding program
estimate_decayed = refl

occurrences-le-estimate_example :
    min (occurrences key_a (key_a ∷ key_b ∷ key_a ∷ [])) top_count ≤ estimate hashes sketch key_a
occurrences-le-estimate_example =
    occurrences-le-estimate hashes key_a 4 2 (key_a ∷ key_b ∷ key_a ∷ []) (omega arith)

-- A task that begins to wait after the owner's notification is not woken: nobody owns the key, no
-- entry is left, and the task stays parked.
lost_wakeup :
    Flights (all_outside 2) (record { entry = none; tasks = resumed ∷ parked 0 ∷ []; fresh = 1 })
unfolding wake
lost_wakeup =
    flies
      (flies
        (flies
          (flies (flies at_start (insert_handle 0 (omega arith) refl refl))
            (copy_handle 1 0 refl refl))
          (remove_entry 0 0 refl))
        (notify 0 0 refl))
      (park 1 0 refl)

-- After an owner was dropped its entry stays, and a task that comes then waits for nobody.
dropped_owner :
    Flights
      (all_outside 2)
      (record { entry = some 0; tasks = abandoned 0 ∷ parked 0 ∷ []; fresh = 1 })
dropped_owner =
    flies
      (flies
        (flies (flies at_start (insert_handle 0 (omega arith) refl refl)) (drop_owner 0 0 refl))
        (copy_handle 1 0 refl refl))
      (park 1 0 refl)

Flights-IsOwned_example :
    IsOwned (record { entry = some 0; tasks = abandoned 0 ∷ parked 0 ∷ []; fresh = 1 })
Flights-IsOwned_example = Flights-IsOwned 2 dropped_owner
