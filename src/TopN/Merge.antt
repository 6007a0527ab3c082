-- ===== src/TopN/Merge.antt =====
-- The merged counts of src/topn.rs are sums over the maps, on 64 bits.
use cognidns_core.Prelude.{
  ℕ, ◌+◌, ◌%◌, ◌<◌, ◌≡◌, refl, ◌∙◌, inl, inr, List, [], ◌∷◌, arith, if◌then◌else◌, Bool-cases,
}
use cognidns_core.Maps.{
  Key, text_key, find_key, update_entry, find_key-nil, find_key-update_entry_self,
  find_key-update_entry_ne,
}
use cognidns_core.Codec.Edns.{opt_or}
use cognidns_core.TopN.State.{add_u64, merge_map, merge_maps}

abbrev pub wrap : ℕ
wrap = 18446744073709551616

module _ {K : Type 0} {V : Type 0} ⦃key : Key K⦄ (value : V → ℕ) where
  -- The values of a key, added up.
  unfoldable pub sum_of : K → List (K × V) → ℕ
  sum_of k [] = 0
  sum_of k ((j, v) ∷ m) = let rest = sum_of k m in if key.same j k then value v + rest else rest

  unfoldable pub sum_in : K → List (List (K × V)) → ℕ
  sum_in k [] = 0
  sum_in k (m ∷ ms) = sum_of k m + sum_in k ms

module _ {K : Type 0} ⦃key : Key K⦄ where
  -- The merged count of a key, 0 if it has none.
  abbrev pub count_of : K → List (K × ℕ) → ℕ
  count_of k m = opt_or (find_key k m) (λ c. c) 0

  count_of-update :
      (k j : K) (n : ℕ) (m : List (K × ℕ))
      → count_of k (update_entry j 0 (λ c. add_u64 c n) m)
        ≡ (if key.same j k then add_u64 (count_of k m) n else count_of k m)
  count_of-update k j n m = elim (Bool-cases (key.same j k)) [
    | inl t ↦ rw (t, key.same_sound j k t, find_key-update_entry_self k 0 (λ c. add_u64 c n) m) refl
    | inr t ↦ rw (t, find_key-update_entry_ne k j 0 (λ c. add_u64 c n) m t) refl
  ]

add_twice : (a b c : ℕ) → (add_u64 a b + c) % wrap ≡ (a + (b + c)) % wrap
add_twice a b c = omega arith

module _ {K : Type 0} {V : Type 0} ⦃key : Key K⦄ (value : V → ℕ) where
  count_of-merge_map :
      (k : K) (m : List (K × V)) (merged : List (K × ℕ))
      → count_of k (merge_map 0 (λ c v. add_u64 c (value v)) m merged) % wrap
        ≡ (count_of k merged + sum_of value k m) % wrap
  unfolding merge_map sum_of
  count_of-merge_map k [] merged = omega arith
  count_of-merge_map k ((j, v) ∷ m) merged =
      let ih = count_of-merge_map k m (update_entry j 0 (λ c. add_u64 c (value v)) merged) in
      ih
      ∙ rw (count_of-update k j (value v) merged) (elim (Bool-cases (key.same j k)) [
        | inl t ↦ rw t (add_twice (count_of k merged) (value v) (sum_of value k m))
        | inr t ↦ rw t refl
      ])

  count_of-merge_maps :
      (k : K) (ms : List (List (K × V))) (merged : List (K × ℕ))
      → count_of k (merge_maps 0 (λ c v. add_u64 c (value v)) ms merged) % wrap
        ≡ (count_of k merged + sum_in value k ms) % wrap
  unfolding merge_maps sum_in
  count_of-merge_maps k [] merged = omega arith
  count_of-merge_maps k (m ∷ ms) merged =
      let ih = count_of-merge_maps k ms (merge_map 0 (λ c v. add_u64 c (value v)) m merged) in
      let one = count_of-merge_map k m merged in omega arith

  merge_map-lt :
      (k : K) (m : List (K × V)) (merged : List (K × ℕ))
      → count_of k merged < wrap
      → count_of k (merge_map 0 (λ c v. add_u64 c (value v)) m merged) < wrap
  unfolding merge_map
  merge_map-lt k [] merged lt = lt
  merge_map-lt k ((j, v) ∷ m) merged lt =
      merge_map-lt k m (update_entry j 0 (λ c. add_u64 c (value v)) merged) (
        rw (count_of-update k j (value v) merged)
          (elim (Bool-cases (key.same j k)) [ inl t ↦ rw t (omega arith) | inr t ↦ rw t lt ]))

  merge_maps-lt :
      (k : K) (ms : List (List (K × V))) (merged : List (K × ℕ))
      → count_of k merged < wrap
      → count_of k (merge_maps 0 (λ c v. add_u64 c (value v)) ms merged) < wrap
  unfolding merge_maps
  merge_maps-lt k [] merged lt = lt
  merge_maps-lt k (m ∷ ms) merged lt =
      merge_maps-lt k ms (merge_map 0 (λ c v. add_u64 c (value v)) m merged)
        (merge_map-lt k m merged lt)

  -- The merged count of a key is the sum of its values.
  pub count_of-merged :
      (k : K) (ms : List (List (K × V)))
      → count_of k (merge_maps 0 (λ c v. add_u64 c (value v)) ms []) ≡ sum_in value k ms % wrap
  count_of-merged k ms =
      let none_yet : count_of k [] ≡ 0 = rw (find_key-nil k) refl in
      let lt = merge_maps-lt k ms [] (rw none_yet (omega arith)) in
      let e = count_of-merge_maps k ms [] in omega arith
