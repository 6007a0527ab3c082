-- ===== src/Cache/Bounds.antt =====
-- The capacity of the cache: the shares of the shards add up, and every operation keeps each
-- shard within its share.
use cognidns_core.Prelude.{
  ℕ, zero, suc, ◌+◌, ◌*◌, ◌/◌, ◌%◌, ◌≤◌, ◌<◌, min, max, ◌≡◌, refl, ap, inl, inr, List, [], ◌∷◌,
  arith, ltb, if◌then◌else◌, Bool-cases, length, get_or, replicate, set,
}
use cognidns_core.Cache.State.{map_shards, total_entries}
use cognidns_core.Cache.Insert.{shard_bound}
use cognidns_core.Cache.Map.{Distinct}
use cognidns_core.Cache.Shard.{Entries}
use native.Mathlib.Nat.{add-zero, mod-lt, div-add-mod}

-- The share of shard `i`, as a number.
abbrev pub share : ℕ → ℕ → ℕ → ℕ
share total n i = total / n + (if ltb i (total % n) then 1 else 0)

-- Shard `i` and those after it hold at most their shares, or one entry where the share is 0.
abbrev pub Within : ℕ → ℕ → ℕ → List Entries → Type 0
Within total n i [] = Unit
Within total n i (s ∷ ss) = (length s ≤ shard_bound (share total n i)) × Within total n (i + 1) ss

share_step :
    (q r i : ℕ) → q + (if ltb i r then 1 else 0) + (i * q + min i r) ≡ (i + 1) * q + min (i + 1) r
share_step q r i = ground arith

-- With a share of at least one everywhere the entries are at most the shares' sum, in closed form.
total-le-shares :
    (total n i : ℕ) (ss : List Entries)
    → 1 ≤ total / n
    → Within total n i ss
    → total_entries ss + (i * (total / n) + min i (total % n))
      ≤ (i + length ss) * (total / n) + min (i + length ss) (total % n)
total-le-shares total n i [] h w = omega arith
total-le-shares total n i (s ∷ ss) h w =
    let ih = total-le-shares total n (i + 1) ss h w.1 in
    let e : i + 1 + length ss ≡ i + length (s ∷ ss) = omega arith in
    let ih' = rw e at ih in omega (arith, w.0, share_step (total / n) (total % n) i)

-- With a quotient of 0 every share is 0 or 1.
total-le-count :
    (total n i : ℕ) (ss : List Entries)
    → total / n ≡ 0
    → Within total n i ss
    → total_entries ss ≤ length ss
total-le-count total n i [] h w = omega arith
total-le-count total n i (s ∷ ss) h w =
    let ih = total-le-count total n (i + 1) ss h w.1 in
    let b : shard_bound (share total n i) ≤ 1 = ground arith in omega (arith, w.0)

-- A bounded cache holds at most as many entries as its capacity, or as it has shards if that is
-- more.
pub total_entries-le :
    (total : ℕ) (ss : List Entries)
    → 0 < length ss
    → Within total (length ss) 0 ss
    → total_entries ss ≤ max total (length ss)
total_entries-le total ss pos w = elim (Bool-cases (ltb (total / length ss) 1)) [
  | inl small ↦ omega (arith, total-le-count total (length ss) 0 ss (ground arith) w)
  | inr large ↦
      let n = length ss in
      let h = total-le-shares total n 0 ss (ground arith) w in
      let m = mod-lt total {m = n} pos in
      let d = div-add-mod total n in
      let e : 0 + n ≡ n = omega arith in let h' = rw e at h in omega arith
]

pub Within-set :
    (total n i k : ℕ) (ss : List Entries) (t : Entries)
    → Within total n i ss
    → length t ≤ shard_bound (share total n (i + k))
    → Within total n i (set ss k t)
Within-set total n i k [] t w h = tt
Within-set total n i zero (s ∷ ss) t w h =
    (omega (arith, ap (λ x. shard_bound (share total n x)) (add-zero i)), w.1)
Within-set total n i (suc k) (s ∷ ss) t w h =
    let e : i + suc k ≡ i + 1 + k = omega arith in
    (w.0, Within-set total n (i + 1) k ss t w.1 (rw e at h))

pub Within-get :
    (total n i k : ℕ) (ss : List Entries)
    → Within total n i ss
    → length (get_or ss k []) ≤ shard_bound (share total n (i + k))
Within-get total n i k [] w = omega arith
Within-get total n i zero (s ∷ ss) w =
    omega (arith, w.0, ap (λ x. shard_bound (share total n x)) (add-zero i))
Within-get total n i (suc k) (s ∷ ss) w =
    let e : i + suc k ≡ i + 1 + k = omega arith in rw e (Within-get total n (i + 1) k ss w.1)

pub length-map_shards :
    (f : ℕ → Entries → Entries) (i : ℕ) (ss : List Entries) → length (map_shards f i ss) ≡ length ss
unfolding map_shards
length-map_shards f i [] = refl
length-map_shards f i (s ∷ ss) = ap suc (length-map_shards f (i + 1) ss)

pub Within-map_shards :
    (f : ℕ → Entries → Entries) (total n i : ℕ) (ss : List Entries)
    → ((j : ℕ) (s : Entries) → length (f j s) ≤ shard_bound (share total n j))
    → Within total n i (map_shards f i ss)
unfolding map_shards
Within-map_shards f total n i [] h = tt
Within-map_shards f total n i (s ∷ ss) h = (h i s, Within-map_shards f total n (i + 1) ss h)

pub Within-shrink :
    (f : ℕ → Entries → Entries) (total n i : ℕ) (ss : List Entries)
    → ((j : ℕ) (s : Entries) → length (f j s) ≤ length s)
    → Within total n i ss
    → Within total n i (map_shards f i ss)
unfolding map_shards
Within-shrink f total n i [] h w = tt
Within-shrink f total n i (s ∷ ss) h w =
    (omega (arith, h i s, w.0), Within-shrink f total n (i + 1) ss h w.1)

pub Within-empty : (total n i k : ℕ) → Within total n i (replicate k [])
Within-empty total n i zero = tt
Within-empty total n i (suc k) = (omega arith, Within-empty total n (i + 1) k)

pub map_shards-Distinct :
    (f : ℕ → Entries → Entries) (i : ℕ) (ss : List Entries)
    → ((j : ℕ) (s : Entries) → Distinct s → Distinct (f j s))
    → ((j : ℕ) → Distinct (get_or ss j []))
    → (j : ℕ) → Distinct (get_or (map_shards f i ss) j [])
unfolding map_shards
map_shards-Distinct f i [] h d j = tt
map_shards-Distinct f i (s ∷ ss) h d zero = h i s (d 0)
map_shards-Distinct f i (s ∷ ss) h d (suc j) = map_shards-Distinct f (i + 1) ss h (λ k. d (suc k)) j

pub replicate-Distinct : (k j : ℕ) → Distinct (get_or (replicate k []) j [])
replicate-Distinct zero j = tt
replicate-Distinct (suc k) zero = tt
replicate-Distinct (suc k) (suc j) = replicate-Distinct k j
