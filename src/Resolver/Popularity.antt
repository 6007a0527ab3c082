-- ===== src/Resolver/Popularity.antt =====
-- The count-min sketch of src/resolver/popularity.rs, with increments one after the other. The
-- pair of hashes of a key is a parameter without assumptions.
pub mod Counts
use cognidns_core.Prelude.{
  ℕ, zero, suc, ◌+◌, ◌*◌, ◌/◌, ◌%◌, List, map, ltb, ◌==◌, if◌then◌else◌, get_or, replicate, set,
}
use cognidns_core.Cache.Shard.{CacheKey}

pub record PopularitySketch : Type 0 where
  pub counters : List ℕ
  pub width : ℕ
  pub depth : ℕ

-- `u32::MAX`
abbrev pub top_count : ℕ
top_count = 4294967295

unfoldable pub new_sketch : ℕ → ℕ → PopularitySketch
new_sketch width depth = record {
  counters = replicate (width * depth) 0;
  width = width;
  depth = depth;
}

-- `h1.wrapping_add(row.wrapping_mul(h2)) % width + row * width`, on 64 bits
unfoldable pub cell_index : ℕ × ℕ → ℕ → ℕ → ℕ
cell_index (h1, h2) width row =
    (h1 + row * h2 % 18446744073709551616) % 18446744073709551616 % width + row * width

-- `fetch_add(1)` on 32 bits, and the store if the counter was at its maximum
unfoldable pub bump : ℕ → List ℕ → List ℕ
bump idx counters =
    let prev = get_or counters idx 0 in
    let added = set counters idx ((prev + 1) % 4294967296) in
    if prev == top_count then set added idx top_count else added

-- `for row in 0..depth`: the rows that are left, and the row.
unfoldable pub increment_rows : ℕ × ℕ → ℕ → ℕ → ℕ → List ℕ → List ℕ
increment_rows hashes width zero row counters = counters
increment_rows hashes width (suc left) row counters =
    increment_rows hashes width left (row + 1) (bump (cell_index hashes width row) counters)

unfoldable pub estimate_rows : ℕ × ℕ → ℕ → ℕ → ℕ → List ℕ → ℕ → ℕ
estimate_rows hashes width zero row counters lowest = lowest
estimate_rows hashes width (suc left) row counters lowest =
    let val = get_or counters (cell_index hashes width row) 0 in
    estimate_rows hashes width left (row + 1) counters (if ltb val lowest then val else lowest)

unfoldable pub decay_all : PopularitySketch → PopularitySketch
decay_all s = record s { counters = map (λ val. if ltb 0 val then val / 2 else val) s.counters }

module _ (hash_pair : CacheKey → ℕ × ℕ) where
  unfoldable pub increment : PopularitySketch → CacheKey → PopularitySketch
  increment s key = record s {
    counters = increment_rows (hash_pair key) s.width s.depth 0 s.counters;
  }

  unfoldable pub estimate : PopularitySketch → CacheKey → ℕ
  estimate s key = estimate_rows (hash_pair key) s.width s.depth 0 s.counters top_count
