-- ===== src/TopN/Top.antt =====
-- What the lookups of src/topn.rs return of the merged counts: the entries with the highest.
use mathlib.Core.List.Perm
use cognidns_core.Prelude.{
  ℕ, zero, suc, ◌≤◌, min, max, ◌≡◌, refl, ap, ◌∙◌, inl, inr, List, [], ◌∷◌, ◌++◌, arith, leb,
  leb→le, Bool-cases, length, take, drop, All, All-map, take-append-drop, length-take,
}
use cognidns_core.TopN.State.{insert_desc, sort_desc, top_entries}
use mathlib.Core.List.{Perm}
use native.Mathlib.Nat.{le_trans}

module _ {E : Type 0} (count : E → ℕ) where
  -- No count is above that of an earlier element.
  unfoldable pub Descending : List E → Type 0
  Descending [] = Unit {0}
  Descending (a ∷ l) = All (λ b. count b ≤ count a) l × Descending l

  -- The result is sorted, has as many entries as asked for or as there are, and no entry that
  -- is left out has a higher count than one of the result.
  pub record IsTop (n : ℕ) (entries result : List E) : Type 0 where
    pub left_out : List E
    pub same_entries : Perm (result ++ left_out) entries
    pub sorted : Descending result
    pub as_many : length result ≡ min n (length entries)
    pub highest : All (λ a. All (λ b. count b ≤ count a) left_out) result

  insert_desc-perm : (a : E) (bs : List E) → Perm (insert_desc count a bs) (a ∷ bs)
  unfolding insert_desc
  insert_desc-perm a [] = Perm.rfl
  insert_desc-perm a (b ∷ bs) = elim (Bool-cases (leb (count b) (count a))) [
    | inl t ↦ rw t Perm.rfl
    | inr t ↦ rw t (Perm.trans (Perm.cons b (insert_desc-perm a bs)) (Perm.swap a b bs))
  ]

  pub sort_desc-perm : (bs : List E) → Perm (sort_desc count bs) bs
  unfolding sort_desc
  sort_desc-perm [] = Perm.rfl
  sort_desc-perm (b ∷ bs) =
      Perm.trans (insert_desc-perm b (sort_desc count bs)) (Perm.cons b (sort_desc-perm bs))

  length-insert_desc : (a : E) (bs : List E) → length (insert_desc count a bs) ≡ suc (length bs)
  unfolding insert_desc
  length-insert_desc a [] = refl
  length-insert_desc a (b ∷ bs) = ground (arith, length-insert_desc a bs)

  length-sort_desc : (bs : List E) → length (sort_desc count bs) ≡ length bs
  unfolding sort_desc
  length-sort_desc [] = refl
  length-sort_desc (b ∷ bs) =
      length-insert_desc b (sort_desc count bs) ∙ ap suc (length-sort_desc bs)

  insert_desc-All :
      (P : E → Type 0) (a : E) (bs : List E) → P a → All P bs → All P (insert_desc count a bs)
  unfolding insert_desc
  insert_desc-All P a [] p h = (p, tt)
  insert_desc-All P a (b ∷ bs) p h = elim (Bool-cases (leb (count b) (count a))) [
    | inl t ↦ rw t (p, h)
    | inr t ↦ rw t (h.0, insert_desc-All P a bs p h.1)
  ]

  insert_desc-Descending :
      (a : E) (bs : List E) → Descending bs → Descending (insert_desc count a bs)
  unfolding insert_desc Descending
  insert_desc-Descending a [] d = (tt, tt)
  insert_desc-Descending a (b ∷ bs) d = elim (Bool-cases (leb (count b) (count a))) [
    | inl t ↦
        let le = leb→le (count b) (count a) t in
        rw t ((le, All-map (λ c h. le_trans h le) bs d.0), d)
    | inr t ↦
        let le : count a ≤ count b = ground arith in
        rw t (insert_desc-All (λ c. count c ≤ count b) a bs le d.0, insert_desc-Descending a bs d.1)
  ]

  pub sort_desc-All : (P : E → Type 0) (bs : List E) → All P bs → All P (sort_desc count bs)
  unfolding sort_desc
  sort_desc-All P [] h = tt
  sort_desc-All P (b ∷ bs) h = insert_desc-All P b (sort_desc count bs) h.0 (sort_desc-All P bs h.1)

  pub sort_desc-Descending : (bs : List E) → Descending (sort_desc count bs)
  unfolding sort_desc Descending
  sort_desc-Descending [] = tt
  sort_desc-Descending (b ∷ bs) =
      insert_desc-Descending b (sort_desc count bs) (sort_desc-Descending bs)

  take-All : (P : E → Type 0) (n : ℕ) (l : List E) → All P l → All P (take n l)
  take-All P zero l h = tt
  take-All P (suc n) [] h = tt
  take-All P (suc n) (a ∷ l) h = (h.0, take-All P n l h.1)

  drop-All : (P : E → Type 0) (n : ℕ) (l : List E) → All P l → All P (drop n l)
  drop-All P zero l h = h
  drop-All P (suc n) [] h = tt
  drop-All P (suc n) (a ∷ l) h = drop-All P n l h.1

  take-Descending : (n : ℕ) (l : List E) → Descending l → Descending (take n l)
  unfolding Descending
  take-Descending zero l d = tt
  take-Descending (suc n) [] d = tt
  take-Descending (suc n) (a ∷ l) d = (take-All _ n l d.0, take-Descending n l d.1)

  take_over_drop :
      (n : ℕ) (l : List E)
      → Descending l
      → All (λ a. All (λ b. count b ≤ count a) (drop n l)) (take n l)
  unfolding Descending
  take_over_drop zero l d = tt
  take_over_drop (suc n) [] d = tt
  take_over_drop (suc n) (a ∷ l) d = (drop-All _ n l d.0, take_over_drop n l d.1)

  pub top_entries-IsTop :
      (n : ℕ) (entries : List E) → IsTop (min (max n 1) 100) entries (top_entries count n entries)
  unfolding top_entries
  top_entries-IsTop n entries =
      let k = min (max n 1) 100 in
      let sorted = sort_desc count entries in
      record {
        left_out = drop k sorted;
        same_entries = rw (take-append-drop k sorted) (sort_desc-perm entries);
        sorted = take-Descending k sorted (sort_desc-Descending entries);
        as_many = length-take k sorted ∙ ap (min k) (length-sort_desc entries);
        highest = take_over_drop k sorted (sort_desc-Descending entries);
      }
