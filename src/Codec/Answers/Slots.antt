-- ===== src/Codec/Answers/Slots.antt =====
-- The answers of a response in src/codec/dns.rs as slots, sorted and put together again.
use mathlib.Core.List.Perm
use cognidns_core.Prelude.{
  ℕ, zero, suc, ◌+◌, ◌-◌, ◌≤◌, ◌≡◌, refl, sym, ap, ◌∙◌, inl, inr, none, some, List, [], ◌∷◌, ◌++◌,
  map, append_assoc, arith, Option-cases, >>=-eq-some, length, drop, take-append-drop,
}
use cognidns_core.Codec.Name.{skip_name}
use cognidns_core.Codec.Edns.{opt_or}
use cognidns_core.Codec.Section.{rr_end}
use cognidns_core.Codec.Answers.{
  address_at, AnswerSlot, read_slots, AddressRecord, address_records, insert_address,
  sort_addresses, rebuild, concat_bytes,
}
use cognidns_core.Codec.Bytes.{Bytes, slice}
use cognidns_core.Codec.Name.Skip.{skip_name_bounds}
use cognidns_core.Codec.Section.Skip.{rr_end_bounds}
use mathlib.Core.List.{perm_middle, Perm}

-- The bytes of the address records, and of the others.
pub addresses_of : List AnswerSlot → List Bytes
addresses_of [] = []
addresses_of (s ∷ ss) =
    let rest = addresses_of ss in opt_or s.address (λ ip. s.rr_bytes ∷ rest) rest

pub others_of : List AnswerSlot → List Bytes
others_of [] = []
others_of (s ∷ ss) = let rest = others_of ss in opt_or s.address (λ ip. rest) (s.rr_bytes ∷ rest)

pub addresses_of-records :
    (i : ℕ) (ss : List AnswerSlot)
    → map (λ a. a.slot_bytes) (address_records i ss) ≡ addresses_of ss
unfolding address_records addresses_of
addresses_of-records i [] = refl
addresses_of-records i (s ∷ ss) = elim (Option-cases s.address) [
  | inl e ↦ rw e (addresses_of-records (i + 1) ss)
  | inr (ip, e) ↦ rw e (ap (◌∷◌ s.rr_bytes) (addresses_of-records (i + 1) ss))
]

pub slots-perm :
    (ss : List AnswerSlot) → Perm (map (λ s. s.rr_bytes) ss) (others_of ss ++ addresses_of ss)
unfolding addresses_of others_of
slots-perm [] = Perm.rfl
slots-perm (s ∷ ss) = elim (Option-cases s.address) [
  | inl e ↦ rw e (Perm.cons s.rr_bytes (slots-perm ss))
  | inr (ip, e) ↦ rw e (
      Perm.trans (Perm.cons s.rr_bytes (slots-perm ss))
        (Perm.symm (perm_middle (others_of ss) (addresses_of ss))))
]

-- Records that are no addresses are where they were.
pub Keeps : List AnswerSlot → List Bytes → Type 0
Keeps [] [] = Unit {0}
Keeps [] (b ∷ bs) = ⊥
Keeps (s ∷ ss) [] = ⊥
Keeps (s ∷ ss) (b ∷ bs) = (s.address ≡ none → b ≡ s.rr_bytes) × Keeps ss bs

-- The answers in the places of the address records.
pub in_address_places : List AnswerSlot → List Bytes → List Bytes
in_address_places [] bs = []
in_address_places (s ∷ ss) [] = []
in_address_places (s ∷ ss) (b ∷ bs) =
    let rest = in_address_places ss bs in opt_or s.address (λ ip. b ∷ rest) rest

-- What the rebuilt answers are, of the slots and the sorted addresses.
unfoldable pub Rebuilt : List AnswerSlot → List Bytes → List Bytes → Type 0
Rebuilt ss sorted out =
    (rebuild ss sorted ≡ some out)
    × Perm out (others_of ss ++ sorted)
    × Keeps ss out
    × (in_address_places ss out ≡ sorted)

keep_record :
    (s : AnswerSlot) (ss : List AnswerSlot) (sorted out : List Bytes)
    → s.address ≡ none
    → Rebuilt ss sorted out
    → Rebuilt (s ∷ ss) sorted (s.rr_bytes ∷ out)
unfolding rebuild others_of Keeps in_address_places Rebuilt
keep_record s ss [] out e (built, perm, keeps, placed) =
    (rw (e, built) refl, rw e (Perm.cons s.rr_bytes perm), (λ _. refl, keeps), rw (e, placed) refl)
keep_record s ss (b ∷ bs) out e (built, perm, keeps, placed) =
    (rw (e, built) refl, rw e (Perm.cons s.rr_bytes perm), (λ _. refl, keeps), rw (e, placed) refl)

replace_record :
    (s : AnswerSlot) (ss : List AnswerSlot) (b : Bytes) (bs out : List Bytes) (ip : Bytes)
    → s.address ≡ some ip
    → Rebuilt ss bs out
    → Rebuilt (s ∷ ss) (b ∷ bs) (b ∷ out)
unfolding rebuild others_of Keeps in_address_places Rebuilt
replace_record s ss b bs out ip e (built, perm, keeps, placed) = (
  rw (e, built) refl,
  rw e (Perm.trans (Perm.cons b perm) (Perm.symm (perm_middle (others_of ss) bs))),
  (λ no_address. let c : none ≡ some ip = sym no_address ∙ e in cc, keeps),
  rw (e, placed) refl,
)

nothing-Rebuilt : Rebuilt [] [] []
unfolding rebuild others_of Keeps in_address_places Rebuilt
nothing-Rebuilt = (refl, Perm.rfl, tt, refl)

pub rebuild_lem :
    (ss : List AnswerSlot) (sorted : List Bytes)
    → length sorted ≡ length (addresses_of ss)
    → (out : List Bytes) × Rebuilt ss sorted out
unfolding addresses_of
rebuild_lem [] [] h = ([], nothing-Rebuilt)
rebuild_lem [] (b ∷ bs) h = absurd (omega arith)
rebuild_lem (s ∷ ss) [] h = elim (Option-cases s.address) [
  | inl e ↦
      let (out, rebuilt) = rebuild_lem ss [] (rw e at h) in
      (s.rr_bytes ∷ out, keep_record s ss [] out e rebuilt)
  | inr (ip, e) ↦
      let none_left : 0 ≡ suc (length (addresses_of ss)) = rw e at h in absurd (omega arith)
]
rebuild_lem (s ∷ ss) (b ∷ bs) h = elim (Option-cases s.address) [
  | inl e ↦
      let (out, rebuilt) = rebuild_lem ss (b ∷ bs) (rw e at h) in
      (s.rr_bytes ∷ out, keep_record s ss (b ∷ bs) out e rebuilt)
  | inr (ip, e) ↦
      let left : suc (length bs) ≡ suc (length (addresses_of ss)) = rw e at h in
      let (out, rebuilt) = rebuild_lem ss bs (omega arith) in
      (b ∷ out, replace_record s ss b bs out ip e rebuilt)
]

drop-drop : {A : Type 0} (m n : ℕ) (xs : List A) → drop n (drop m xs) ≡ drop (m + n) xs
drop-drop zero n xs = let e : 0 + n ≡ n = omega arith in rw e refl
drop-drop (suc m) zero [] = let e : suc m + 0 ≡ suc (m + 0) = omega arith in rw e refl
drop-drop (suc m) (suc n) [] = let e : suc m + suc n ≡ suc (m + suc n) = omega arith in rw e refl
drop-drop (suc m) n (x ∷ xs) =
    let e : suc m + n ≡ suc (m + n) = omega arith in rw e (drop-drop m n xs)

slice-append-drop : (p : Bytes) (o n : ℕ) → o ≤ n → slice p o n ++ drop n p ≡ drop o p
slice-append-drop p o n le =
    let e : o + (n - o) ≡ n = omega arith in
    let d = drop-drop o (n - o) p in
    let d' : drop (n - o) (drop o p) ≡ drop n p = rw e at d in
    rw⁻¹ d' (take-append-drop (n - o) (drop o p))

-- The slots are the bytes between the start and the end of the section.
pub read_slots-concat :
    (n : ℕ) (p : Bytes) (o : ℕ) (r : List AnswerSlot × ℕ)
    → read_slots n p o ≡ some r
    → concat_bytes (map (λ s. s.rr_bytes) r.0) ++ drop r.1 p ≡ drop o p
unfolding read_slots concat_bytes
read_slots-concat zero p o r h = rw⁻¹ (ap (λ x. opt_or x (λ y. y) ([], o)) h) refl
read_slots-concat (suc n) p o r h =
    let (name_end, named, h1) = >>=-eq-some (skip_name p o) _ h in
    let (next, ended, h2) = >>=-eq-some (rr_end p name_end) _ h1 in
    let (rest, read, h3) = >>=-eq-some (read_slots n p next) _ h2 in
    let slot : AnswerSlot = record { rr_bytes = slice p o next; address = address_at p name_end } in
    let whole : (slot ∷ rest.0, rest.1) ≡ r = ap (λ x. opt_or x (λ y. y) ([], o)) h3 in
    let (named_lo, named_hi) = skip_name_bounds p o name_end named in
    let (size, ended_lo, ended_hi) = rr_end_bounds p name_end next ended in
    let here_bytes = slice-append-drop p o next (omega arith) in
    rw⁻¹ whole (
      append_assoc (slice p o next) (concat_bytes (map (λ s. s.rr_bytes) rest.0)) (drop rest.1 p)
      ∙ rw (read_slots-concat n p next rest read) here_bytes)

pub Keeps-refl : (ss : List AnswerSlot) → Keeps ss (map (λ s. s.rr_bytes) ss)
unfolding Keeps
Keeps-refl [] = tt
Keeps-refl (s ∷ ss) = ((λ _. refl), Keeps-refl ss)

pub in_address_places-same :
    (ss : List AnswerSlot) → in_address_places ss (map (λ s. s.rr_bytes) ss) ≡ addresses_of ss
unfolding in_address_places addresses_of
in_address_places-same [] = refl
in_address_places-same (s ∷ ss) = rw (in_address_places-same ss) refl

pub length-read_slots :
    (n : ℕ) (p : Bytes) (o : ℕ) (r : List AnswerSlot × ℕ)
    → read_slots n p o ≡ some r
    → length r.0 ≡ n
unfolding read_slots
length-read_slots zero p o r h = rw⁻¹ (ap (λ x. opt_or x (λ y. y) ([], o)) h) refl
length-read_slots (suc n) p o r h =
    let (name_end, named, h1) = >>=-eq-some (skip_name p o) _ h in
    let (next, ended, h2) = >>=-eq-some (rr_end p name_end) _ h1 in
    let (rest, read, h3) = >>=-eq-some (read_slots n p next) _ h2 in
    rw⁻¹ (ap (λ x. opt_or x (λ y. y) ([], o)) h3) (ap suc (length-read_slots n p next rest read))

pub length-address_records :
    (i : ℕ) (ss : List AnswerSlot) → length (address_records i ss) ≤ length ss
unfolding address_records
length-address_records i [] = omega arith
length-address_records i (s ∷ ss) =
    let shorter = length-address_records (i + 1) ss in
    elim (Option-cases s.address) [ inl e ↦ rw e (omega arith) | inr (ip, e) ↦ rw e (omega arith) ]

length-insert_address :
    (rank : AddressRecord → ℕ) (a : AddressRecord) (bs : List AddressRecord)
    → length (insert_address rank a bs) ≡ suc (length bs)
unfolding insert_address
length-insert_address rank a [] = refl
length-insert_address rank a (b ∷ bs) = ground (arith, length-insert_address rank a bs)

length-sort_addresses :
    (rank : AddressRecord → ℕ) (bs : List AddressRecord)
    → length (sort_addresses rank bs) ≡ length bs
unfolding sort_addresses
length-sort_addresses rank [] = refl
length-sort_addresses rank (b ∷ bs) =
    length-insert_address rank b (sort_addresses rank bs) ∙ ap suc (length-sort_addresses rank bs)

length-map_bytes : (bs : List AddressRecord) → length (map (λ a. a.slot_bytes) bs) ≡ length bs
length-map_bytes [] = refl
length-map_bytes (b ∷ bs) = ap suc (length-map_bytes bs)

pub length-sorted :
    (rank : AddressRecord → ℕ) (ss : List AnswerSlot)
    → length (map (λ a. a.slot_bytes) (sort_addresses rank (address_records 0 ss)))
      ≡ length (addresses_of ss)
length-sorted rank ss =
    length-map_bytes (sort_addresses rank (address_records 0 ss))
    ∙ length-sort_addresses rank (address_records 0 ss)
    ∙ sym (length-map_bytes (address_records 0 ss))
    ∙ ap length (addresses_of-records 0 ss)
