-- ===== src/Maps.antt =====
-- Hash maps of the standard library, as lists of pairs whose order stands for the order of
-- iteration. The equality of the keys is an instance with its laws.
use cognidns_core.Prelude.{
  ℕ, ◌≡◌, refl, sym, subst, inl, inr, Bool, true, false, Option, none, some, List, [], ◌∷◌, ◌==◌,
  if◌then◌else◌, ==_iff, ==_refl, Bool-cases, ◌>>=◌,
}
use cognidns_core.Codec.Edns.{opt_or}
use cognidns_core.Codec.Text.{text_eq}
use cognidns_core.Codec.Bytes.{Bytes}
use cognidns_core.Codec.Text.Split.{text_eq_sound, text_eq_refl}

pub record Key (K : Type 0) : Type 0 where
  pub same : K → K → Bool
  pub same_refl : (k : K) → same k k ≡ true
  pub same_sound : (j k : K) → same j k ≡ true → j ≡ k

instance abbrev pub text_key : Key Bytes
text_key = record { same = text_eq; same_refl = text_eq_refl; same_sound = text_eq_sound }

instance abbrev pub number_key : Key ℕ
number_key = record {
  same = λ a b. a == b;
  same_refl = ==_refl;
  same_sound = λ a b h. (==_iff a b).0 h;
}

module _ {K : Type 0} {V : Type 0} ⦃key : Key K⦄ where
  -- `get`
  unfoldable pub find_key : K → List (K × V) → Option V
  find_key k [] = none
  find_key k ((j, v) ∷ m) = if key.same j k then some v else find_key k m

  -- `remove`
  unfoldable pub remove_key : K → List (K × V) → List (K × V)
  remove_key k [] = []
  remove_key k ((j, v) ∷ m) =
      let rest = remove_key k m in if key.same j k then rest else (j, v) ∷ rest

  -- `insert`
  unfoldable pub insert_key : K → V → List (K × V) → List (K × V)
  insert_key k v m = (k, v) ∷ remove_key k m

  -- `entry(k).or_insert(d)`, and an update of the value in place
  unfoldable pub update_entry : K → V → (V → V) → List (K × V) → List (K × V)
  update_entry k d f [] = (k, f d) ∷ []
  update_entry k d f ((j, v) ∷ m) =
      let rest = update_entry k d f m in if key.same j k then (j, f v) ∷ m else (j, v) ∷ rest

  -- `get_mut`, and an update of the value in place
  unfoldable pub modify_key : K → (V → V) → List (K × V) → List (K × V)
  modify_key k f [] = []
  modify_key k f ((j, v) ∷ m) =
      let rest = modify_key k f m in if key.same j k then (j, f v) ∷ m else (j, v) ∷ rest

module _ {K : Type 0} ⦃key : Key K⦄ where
  pub same_ne : (i j k : K) → key.same i k ≡ true → key.same k j ≡ false → key.same i j ≡ false
  same_ne i j k e h = subst (λ x. key.same x j ≡ false) (sym (key.same_sound i k e)) h

module _ {K : Type 0} {V : Type 0} ⦃key : Key K⦄ where
  pub find_key-nil : (k : K) → find_key {V = V} k [] ≡ none
  unfolding find_key
  find_key-nil k = refl

  pub find_key-insert_key_self :
      (k : K) (v : V) (m : List (K × V)) → find_key k (insert_key k v m) ≡ some v
  unfolding find_key insert_key
  find_key-insert_key_self k v m = rw (key.same_refl k)

  pub find_key-remove_key_ne :
      (j k : K) (m : List (K × V))
      → key.same k j ≡ false
      → find_key j (remove_key k m) ≡ find_key j m
  unfolding find_key remove_key
  find_key-remove_key_ne j k [] h = refl
  find_key-remove_key_ne j k ((i, v) ∷ m) h = elim (Bool-cases (key.same i k)) [
    | inl t ↦ rw (t, same_ne i j k t h) (find_key-remove_key_ne j k m h)
    | inr t ↦ elim (Bool-cases (key.same i j)) [
      | inl s ↦ rw (t, s) refl
      | inr s ↦ rw (t, s) (find_key-remove_key_ne j k m h)
    ]
  ]

  pub find_key-insert_key_ne :
      (j k : K) (v : V) (m : List (K × V))
      → key.same k j ≡ false
      → find_key j (insert_key k v m) ≡ find_key j m
  unfolding find_key insert_key
  find_key-insert_key_ne j k v m h = rw h (find_key-remove_key_ne j k m h)

  pub find_key-remove_key_self : (k : K) (m : List (K × V)) → find_key k (remove_key k m) ≡ none
  unfolding find_key remove_key
  find_key-remove_key_self k [] = refl
  find_key-remove_key_self k ((i, v) ∷ m) = elim (Bool-cases (key.same i k)) [
    | inl t ↦ rw t (find_key-remove_key_self k m)
    | inr t ↦ rw (t, find_key, t) (find_key-remove_key_self k m)
  ]

  pub find_key-update_entry_self :
      (k : K) (d : V) (f : V → V) (m : List (K × V))
      → find_key k (update_entry k d f m) ≡ some (f (opt_or (find_key k m) (λ v. v) d))
  unfolding find_key update_entry
  find_key-update_entry_self k d f [] = rw (key.same_refl k)
  find_key-update_entry_self k d f ((i, v) ∷ m) = elim (Bool-cases (key.same i k)) [
    | inl t ↦ rw (t, find_key, t)
    | inr t ↦ rw (t, find_key, t) (find_key-update_entry_self k d f m)
  ]

  pub find_key-update_entry_ne :
      (j k : K) (d : V) (f : V → V) (m : List (K × V))
      → key.same k j ≡ false
      → find_key j (update_entry k d f m) ≡ find_key j m
  unfolding find_key update_entry
  find_key-update_entry_ne j k d f [] h = rw h
  find_key-update_entry_ne j k d f ((i, v) ∷ m) h = elim (Bool-cases (key.same i k)) [
    | inl t ↦ rw (t, find_key, same_ne i j k t h)
    | inr t ↦ elim (Bool-cases (key.same i j)) [
      | inl s ↦ rw (t, s) refl
      | inr s ↦ rw (t, s) (find_key-update_entry_ne j k d f m h)
    ]
  ]

  pub find_key-modify_key_self :
      (k : K) (f : V → V) (m : List (K × V))
      → find_key k (modify_key k f m) ≡ (find_key k m >>= λ v. some (f v))
  unfolding find_key modify_key
  find_key-modify_key_self k f [] = refl
  find_key-modify_key_self k f ((i, v) ∷ m) = elim (Bool-cases (key.same i k)) [
    | inl t ↦ rw (t, find_key, t)
    | inr t ↦ rw (t, find_key, t) (find_key-modify_key_self k f m)
  ]

  pub find_key-modify_key_ne :
      (j k : K) (f : V → V) (m : List (K × V))
      → key.same k j ≡ false
      → find_key j (modify_key k f m) ≡ find_key j m
  unfolding find_key modify_key
  find_key-modify_key_ne j k f [] h = refl
  find_key-modify_key_ne j k f ((i, v) ∷ m) h = elim (Bool-cases (key.same i k)) [
    | inl t ↦ rw (t, find_key, same_ne i j k t h)
    | inr t ↦ elim (Bool-cases (key.same i j)) [
      | inl s ↦ rw (t, s) refl
      | inr s ↦ rw (t, s) (find_key-modify_key_ne j k f m h)
    ]
  ]
