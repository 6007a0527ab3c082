-- ===== src/Codec/Answers/Preference.antt =====
-- The order of the addresses that `reorder_answer_address_records` of src/codec/dns.rs asks for,
-- and what its sort makes of them.
use mathlib.Core.List.Perm
use cognidns_core.Prelude.{
  ℕ, suc, ◌+◌, ◌≤◌, ◌<◌, ◌≡◌, refl, ap, ◌∙◌, ◌⊎◌, inl, inr, true, false, none, some, List, [], ◌∷◌,
  arith, if◌then◌else◌, Bool-cases, length, All, All-map,
}
use cognidns_core.Maps.{
  text_key, find_key, update_entry, find_key-nil, find_key-update_entry_self,
  find_key-update_entry_ne,
}
use cognidns_core.Codec.Text.{text_eq}
use cognidns_core.Codec.Answers.{
  AddressRecord, rank_map, rank_of, goes_first, insert_address, sort_addresses,
}
use cognidns_core.Codec.Bytes.{Bytes}
use cognidns_core.Codec.Text.Split.{text_eq_sound}
use mathlib.Core.List.{Perm}

-- The first position of an address in a list, or the length of the list.
unfoldable pub position : Bytes → List Bytes → ℕ
position ip [] = 0
position ip (x ∷ xs) = let rest = position ip xs in if text_eq x ip then 0 else suc rest

-- An address goes before those that are preferred less, and among equals before those that came
-- later. All that are not in the list are preferred equally, and least.
abbrev pub Precedes : List Bytes → AddressRecord → AddressRecord → Type 0
Precedes ips a b =
    (position a.slot_address ips < position b.slot_address ips)
    ⊎ (position a.slot_address ips ≡ position b.slot_address ips) × (a.slot_index ≤ b.slot_index)

unfoldable pub InOrder : List Bytes → List AddressRecord → Type 0
InOrder ips [] = Unit {0}
InOrder ips (a ∷ l) = All (Precedes ips a) l × InOrder ips l

rank_map-found :
    (ip : Bytes) (i v : ℕ) (ips : List Bytes) (m : List (Bytes × ℕ))
    → find_key ip m ≡ some v
    → find_key ip (rank_map i ips m) ≡ some v
unfolding rank_map
rank_map-found ip i v [] m h = h
rank_map-found ip i v (x ∷ xs) m h = elim (Bool-cases (text_eq x ip)) [
  | inl t ↦
      let e = text_eq_sound x ip t in
      rank_map-found ip (i + 1) v xs (update_entry x i (λ r. r) m)
        (rw e (find_key-update_entry_self ip i (λ r. r) m ∙ rw h refl))
  | inr t ↦
      rank_map-found ip (i + 1) v xs (update_entry x i (λ r. r) m)
        (find_key-update_entry_ne ip x i (λ r. r) m t ∙ h)
]

rank_map-new :
    (ip : Bytes) (i : ℕ) (ips : List Bytes) (m : List (Bytes × ℕ))
    → find_key ip m ≡ none
    → (find_key ip (rank_map i ips m) ≡ some (i + position ip ips)) × (position ip ips < length ips)
      ⊎ (find_key ip (rank_map i ips m) ≡ none) × (position ip ips ≡ length ips)
unfolding rank_map position
rank_map-new ip i [] m h = inr (h, refl)
rank_map-new ip i (x ∷ xs) m h = elim (Bool-cases (text_eq x ip)) [
  | inl t ↦
      let e = text_eq_sound x ip t in
      let here : find_key ip (update_entry x i (λ r. r) m) ≡ some i =
        rw e (find_key-update_entry_self ip i (λ r. r) m ∙ rw h refl) in
      let start : i + 0 ≡ i = omega arith in
      inl (
        rw (t, start) (rank_map-found ip (i + 1) i xs (update_entry x i (λ r. r) m) here),
        rw t (omega arith),
      )
  | inr t ↦
      let left = find_key-update_entry_ne ip x i (λ r. r) m t ∙ h in
      let next : i + 1 + position ip xs ≡ i + suc (position ip xs) = omega arith in
      elim (rank_map-new ip (i + 1) xs (update_entry x i (λ r. r) m) left) [
        | inl (found, lt) ↦ inl (rw t (found ∙ ap some next), rw t (omega arith))
        | inr (missing, e) ↦ inr (missing, rw t (ap suc e))
      ]
]

module _ (ips : List Bytes) where
  rank_of-position :
      (a : AddressRecord)
      → (rank_of ips a ≡ position a.slot_address ips) × (position a.slot_address ips < length ips)
        ⊎ (rank_of ips a ≡ length ips + 1024 + a.slot_index)
          × (position a.slot_address ips ≡ length ips)
  unfolding rank_of
  rank_of-position a =
      let start : 0 + position a.slot_address ips ≡ position a.slot_address ips = omega arith in
      elim (rank_map-new a.slot_address 0 ips [] (find_key-nil a.slot_address)) [
        | inl (found, lt) ↦ inl (rw (found, start) refl, lt)
        | inr (missing, e) ↦ inr (rw missing refl, e)
      ]

  goes_first-Precedes :
      (a b : AddressRecord) → goes_first (rank_of ips) a b ≡ true → Precedes ips a b
  unfolding goes_first
  goes_first-Precedes a b h =
      let ra = rank_of-position a in let rb = rank_of-position b in ground arith

  goes_later-Precedes :
      (a b : AddressRecord) → goes_first (rank_of ips) a b ≡ false → Precedes ips b a
  unfolding goes_first
  goes_later-Precedes a b h =
      let ra = rank_of-position a in let rb = rank_of-position b in ground arith

  Precedes-trans : (a b c : AddressRecord) → Precedes ips a b → Precedes ips b c → Precedes ips a c
  Precedes-trans a b c p q = ground arith

  insert_address-All :
      (P : AddressRecord → Type 0) (a : AddressRecord) (bs : List AddressRecord)
      → P a
      → All P bs
      → All P (insert_address (rank_of ips) a bs)
  unfolding insert_address
  insert_address-All P a [] p h = (p, tt)
  insert_address-All P a (b ∷ bs) p h = elim (Bool-cases (goes_first (rank_of ips) a b)) [
    | inl t ↦ rw t (p, h)
    | inr t ↦ rw t (h.0, insert_address-All P a bs p h.1)
  ]

  insert_address-InOrder :
      (a : AddressRecord) (bs : List AddressRecord)
      → InOrder ips bs
      → InOrder ips (insert_address (rank_of ips) a bs)
  unfolding insert_address InOrder
  insert_address-InOrder a [] h = (tt, tt)
  insert_address-InOrder a (b ∷ bs) h = elim (Bool-cases (goes_first (rank_of ips) a b)) [
    | inl t ↦
        let first = goes_first-Precedes a b t in
        rw t ((first, All-map (λ c p. Precedes-trans a b c first p) bs h.0), h)
    | inr t ↦ rw t (
      insert_address-All (Precedes ips b) a bs (goes_later-Precedes a b t) h.0,
      insert_address-InOrder a bs h.1,
    )
  ]

  pub sort_addresses-InOrder :
      (bs : List AddressRecord) → InOrder ips (sort_addresses (rank_of ips) bs)
  unfolding sort_addresses InOrder
  sort_addresses-InOrder [] = tt
  sort_addresses-InOrder (b ∷ bs) =
      insert_address-InOrder b (sort_addresses (rank_of ips) bs) (sort_addresses-InOrder bs)

  pub InOrder-short : (bs : List AddressRecord) → length bs ≤ 1 → InOrder ips bs
  unfolding InOrder
  InOrder-short [] h = tt
  InOrder-short (b ∷ []) h = (tt, tt)
  InOrder-short (b ∷ c ∷ bs) h = absurd (omega arith)

insert_address-perm :
    (rank : AddressRecord → ℕ) (a : AddressRecord) (bs : List AddressRecord)
    → Perm (insert_address rank a bs) (a ∷ bs)
unfolding insert_address
insert_address-perm rank a [] = Perm.rfl
insert_address-perm rank a (b ∷ bs) = elim (Bool-cases (goes_first rank a b)) [
  | inl t ↦ rw t Perm.rfl
  | inr t ↦ rw t (Perm.trans (Perm.cons b (insert_address-perm rank a bs)) (Perm.swap a b bs))
]

pub sort_addresses-perm :
    (rank : AddressRecord → ℕ) (bs : List AddressRecord) → Perm (sort_addresses rank bs) bs
unfolding sort_addresses
sort_addresses-perm rank [] = Perm.rfl
sort_addresses-perm rank (b ∷ bs) =
    Perm.trans (insert_address-perm rank b (sort_addresses rank bs))
      (Perm.cons b (sort_addresses-perm rank bs))
