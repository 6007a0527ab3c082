-- ===== src/Policy/Trie/Min.antt =====
-- The least of two indices that may be missing.
use cognidns_core.Prelude.{
  ℕ, min, ◌≡◌, refl, ap, inl, inr, Option, none, some, arith, leb, Bool-cases,
}
use cognidns_core.Policy.Trie.{update_min_index, note_min}

pub note_min-none : (a : Option ℕ) → note_min none a ≡ a
unfolding note_min
note_min-none none = refl
note_min-none (some x) = refl

pub note_min_assoc : (a b c : Option ℕ) → note_min (note_min a b) c ≡ note_min a (note_min b c)
unfolding note_min
note_min_assoc a b none = refl
note_min_assoc a none (some z) = rw (note_min-none (some z))
note_min_assoc none (some y) (some z) = refl
note_min_assoc (some x) (some y) (some z) =
    let e : min (min x y) z ≡ min x (min y z) = omega arith in rw e

pub update_min_index-note_min : (t : Option ℕ) (i : ℕ) → update_min_index t i ≡ note_min t (some i)
unfolding update_min_index note_min
update_min_index-note_min none i = refl
update_min_index-note_min (some c) i = elim (Bool-cases (leb c i)) [
  | inl t ↦ rw t (let e : c ≡ min c i = ground arith in ap some e)
  | inr t ↦ rw t (let e : i ≡ min c i = ground arith in ap some e)
]

pub note_min_comm : (a b : Option ℕ) → note_min a b ≡ note_min b a
unfolding note_min
note_min_comm none none = refl
note_min_comm none (some y) = refl
note_min_comm (some x) none = refl
note_min_comm (some x) (some y) = let e : min x y ≡ min y x = omega arith in ap some e
