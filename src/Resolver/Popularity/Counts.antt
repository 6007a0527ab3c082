-- ===== src/Resolver/Popularity/Counts.antt =====
-- The sketch of src/resolver/popularity.rs never counts too few.
use cognidns_core.Prelude.{
  ℕ, zero, suc, ◌+◌, ◌*◌, ◌%◌, ◌≤◌, ◌<◌, min, ◌≡◌, refl, sym, ◌∙◌, subst, ◌≢◌, inl, inr, List, [],
  ◌∷◌, arith, ◌==◌, if◌then◌else◌, Bool-cases, length, get_or, replicate, set, length-set,
  length-replicate, get_or-set_self, get_or-set_ne,
}
use cognidns_core.Cache.Map.{key_eq_sound}
use cognidns_core.Cache.Shard.{CacheKey, key_eq}
use cognidns_core.Resolver.Popularity.{
  PopularitySketch, top_count, new_sketch, cell_index, bump, increment_rows, estimate_rows,
  increment, estimate,
}
use native.Mathlib.Nat.{mul-le-mul_right, suc-mul, mul_comm, le_trans, mod-lt, mod-eq_of_lt}
use native.Mathlib.Decide.{ℕ_discrete}

-- No counter is above the maximum.
abbrev Fits : List ℕ → Type 0
Fits counters = (i : ℕ) → get_or counters i 0 ≤ top_count

module _ (idx : ℕ) (counters : List ℕ) where
  length-bump : length (bump idx counters) ≡ length counters
  unfolding bump
  length-bump =
      let n = (get_or counters idx 0 + 1) % 4294967296 in
      elim (Bool-cases (get_or counters idx 0 == top_count)) [
        | inl t ↦ rw t (length-set (set counters idx n) idx top_count ∙ length-set counters idx n)
        | inr t ↦ rw t (length-set counters idx n)
      ]

  bump_self :
      Fits counters
      → idx < length counters
      → get_or (bump idx counters) idx 0 ≡ min (get_or counters idx 0 + 1) top_count
  unfolding bump
  bump_self fits lt =
      let prev = get_or counters idx 0 in
      let le = fits idx in
      let n = (prev + 1) % 4294967296 in
      let longer : idx < length (set counters idx n) = rw (length-set counters idx n) lt in
      elim (Bool-cases (prev == top_count)) [
        | inl t ↦ rw (t, get_or-set_self (set counters idx n) idx top_count 0 longer) (ground arith)
        | inr t ↦
            let m : prev + 1 < 4294967296 = ground arith in
            rw (t, get_or-set_self counters idx n 0 lt, mod-eq_of_lt m) (omega arith)
      ]

  bump_ne : (j : ℕ) → idx ≢ j → get_or (bump idx counters) j 0 ≡ get_or counters j 0
  unfolding bump
  bump_ne j ne =
      let n = (get_or counters idx 0 + 1) % 4294967296 in
      elim (Bool-cases (get_or counters idx 0 == top_count)) [
        | inl t ↦ rw t (
            get_or-set_ne (set counters idx n) idx j top_count 0 ne
            ∙ get_or-set_ne counters idx j n 0 ne)
        | inr t ↦ rw t (get_or-set_ne counters idx j n 0 ne)
      ]

  bump-le :
      (j : ℕ)
      → Fits counters
      → idx < length counters
      → get_or counters j 0 ≤ get_or (bump idx counters) j 0
  bump-le j fits lt = elim (ℕ_discrete idx j) [
    | yes e ↦ rw⁻¹ e (rw (bump_self fits lt) (let le = fits idx in omega arith))
    | no ne ↦ rw (bump_ne j ne) (omega arith)
  ]

  bump-Fits : Fits counters → idx < length counters → Fits (bump idx counters)
  bump-Fits fits lt j = elim (ℕ_discrete idx j) [
    | yes e ↦ rw⁻¹ e (rw (bump_self fits lt) (omega arith))
    | no ne ↦ rw (bump_ne j ne) (fits j)
  ]

-- Below the bound of its row a cell is below the number of counters.
cell_index-lt :
    (hashes : ℕ × ℕ) (width depth row : ℕ)
    → 0 < width
    → row < depth
    → cell_index hashes width row < width * depth
unfolding cell_index
cell_index-lt (h1, h2) width depth row pos lt =
    let hashed = (h1 + row * h2 % 18446744073709551616) % 18446744073709551616 in
    let inside : hashed % width < width = mod-lt hashed pos in
    let rows : suc row * width ≤ depth * width = mul-le-mul_right width lt in
    let next = suc-mul row width in let turned = mul_comm depth width in omega arith

module _ (hashes : ℕ × ℕ) (width depth : ℕ) (pos : 0 < width) where
  -- What the remaining rows keep and raise.
  record Raised (left row : ℕ) (before after : List ℕ) : Type 0 where
    fits : Fits after
    long : length after ≡ width * depth
    grows : (j : ℕ) → get_or before j 0 ≤ get_or after j 0
    counts :
        (r : ℕ)
        → row ≤ r
        → r < row + left
        → min (get_or before (cell_index hashes width r) 0 + 1) top_count
          ≤ get_or after (cell_index hashes width r) 0

  increment_rows-Raised :
      (left row : ℕ) (counters : List ℕ)
      → row + left ≤ depth
      → Fits counters
      → length counters ≡ width * depth
      → Raised left row counters (increment_rows hashes width left row counters)
  unfolding increment_rows
  increment_rows-Raised zero row counters le fits long = record {
    fits = fits;
    long = long;
    grows = λ j. omega arith;
    counts = λ r ge lt. absurd (omega arith);
  }
  increment_rows-Raised (suc left) row counters le fits long =
      let idx = cell_index hashes width row in
      let lt : idx < length counters =
        rw long (cell_index-lt hashes width depth row pos (omega arith)) in
      let ih =
        increment_rows-Raised left (row + 1) (bump idx counters) (omega arith)
          (bump-Fits idx counters fits lt) (length-bump idx counters ∙ long) in
      record {
        fits = ih.fits;
        long = ih.long;
        grows = λ j. le_trans (bump-le idx counters j fits lt) (ih.grows j);
        counts = λ r ge below. elim (ℕ_discrete row r) [
          | yes e ↦
              rw⁻¹ e (le_trans (rw (bump_self idx counters fits lt) (omega arith)) (ih.grows idx))
          | no ne ↦
              le_trans
                (let step = bump-le idx counters (cell_index hashes width r) fits lt in omega arith)
                (ih.counts r (omega arith) (omega arith))
        ];
      }

estimate_rows-le :
    (hashes : ℕ × ℕ) (width left row : ℕ) (counters : List ℕ) (lowest bound : ℕ)
    → bound ≤ lowest
    → ((r : ℕ) → row ≤ r → r < row + left → bound ≤ get_or counters (cell_index hashes width r) 0)
    → bound ≤ estimate_rows hashes width left row counters lowest
unfolding estimate_rows
estimate_rows-le hashes width zero row counters lowest bound le all = le
estimate_rows-le hashes width (suc left) row counters lowest bound le all =
    estimate_rows-le hashes width left (row + 1) counters _ bound
      (let here_le = all row (omega arith) (omega arith) in ground arith)
      (λ r ge lt. all r (omega arith) (omega arith))

-- How often the key is among those.
unfoldable pub occurrences : CacheKey → List CacheKey → ℕ
occurrences key [] = 0
occurrences key (k ∷ ks) = (if key_eq k key then 1 else 0) + occurrences key ks

-- The increments of the keys, of which the last comes first.
unfoldable pub increments : (CacheKey → ℕ × ℕ) → PopularitySketch → List CacheKey → PopularitySketch
increments hash s [] = s
increments hash s (k ∷ ks) = increment hash (increments hash s ks) k

get_or-zeros : (n i : ℕ) → get_or (replicate n zero) i zero ≡ zero
get_or-zeros zero i = refl
get_or-zeros (suc n) zero = refl
get_or-zeros (suc n) (suc i) = get_or-zeros n i

module _ (hash : CacheKey → ℕ × ℕ) (key : CacheKey) where
  -- A sketch whose counters are not too low for the key.
  record Counted (n : ℕ) (s : PopularitySketch) : Type 0 where
    positive : 0 < s.width
    fits : Fits s.counters
    long : length s.counters ≡ s.width * s.depth
    enough :
        (r : ℕ)
        → r < s.depth
        → min n top_count ≤ get_or s.counters (cell_index (hash key) s.width r) 0

  new-Counted : (width depth : ℕ) → 0 < width → Counted 0 (new_sketch width depth)
  unfolding new_sketch
  new-Counted width depth pos = record {
    positive = pos;
    fits = λ i. rw (get_or-zeros (width * depth) i) (omega arith);
    long = length-replicate (width * depth) 0;
    enough = λ r lt. omega arith;
  }

  increment-Counted :
      (k : CacheKey) (n : ℕ) (s : PopularitySketch)
      → Counted n s
      → Counted ((if key_eq k key then 1 else 0) + n) (increment hash s k)
  unfolding increment
  increment-Counted k n s c =
      let raised =
        increment_rows-Raised (hash k) s.width s.depth c.positive s.depth 0 s.counters (omega arith)
          c.fits c.long in
      record {
        positive = c.positive;
        fits = raised.fits;
        long = raised.long;
        enough = λ r lt. elim (Bool-cases (key_eq k key)) [
          | inl t ↦ rw t (
              rw⁻¹ (key_eq_sound k key t) (
                le_trans
                  (let low =
                      subst
                        (λ x. min n top_count ≤ get_or s.counters (cell_index (hash x) s.width r) 0)
                        (sym (key_eq_sound k key t)) (c.enough r lt) in
                    omega arith)
                  (raised.counts r (omega arith) (omega arith))))
          | inr t ↦ rw t (
              le_trans (let low = c.enough r lt in omega arith)
                (raised.grows (cell_index (hash key) s.width r)))
        ];
      }

  increments-Counted :
      (s : PopularitySketch) (ks : List CacheKey)
      → Counted 0 s
      → Counted (occurrences key ks) (increments hash s ks)
  unfolding occurrences increments
  increments-Counted s [] c = c
  increments-Counted s (k ∷ ks) c =
      increment-Counted k (occurrences key ks) (increments hash s ks) (increments-Counted s ks c)

-- The sketch never counts too few: after any increments, the estimate of a key is the number of
-- its own increments or more, up to the maximum of 32 bits. The width is not 0, the hashes are
-- arbitrary, the increments come one after the other and the counters have not been halved.
pub occurrences-le-estimate :
    (hash : CacheKey → ℕ × ℕ) (key : CacheKey) (width depth : ℕ) (ks : List CacheKey)
    → 0 < width
    → min (occurrences key ks) top_count
      ≤ estimate hash (increments hash (new_sketch width depth) ks) key
unfolding estimate
occurrences-le-estimate hash key width depth ks pos =
    let s = increments hash (new_sketch width depth) ks in
    let c =
      increments-Counted hash key (new_sketch width depth) ks
        (new-Counted hash key width depth pos) in
    estimate_rows-le (hash key) s.width s.depth 0 s.counters top_count _ (omega arith)
      (λ r ge lt. c.enough r (omega arith))
