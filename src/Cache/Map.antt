-- ===== src/Cache/Map.antt =====
-- The hash map of one shard: what a lookup sees after each of its operations.
use cognidns_core.Prelude.{
  ℕ, ◌≤◌, ◌≡◌, refl, inl, inr, Bool, true, false, none, some, [], ◌∷◌, arith, if◌then◌else◌,
  ==_refl, Bool-cases, ◌>>=◌, length,
}
use cognidns_core.Codec.Text.Split.{text_eq_sound, text_eq_refl}
use cognidns_core.Cache.Shard.{
  CacheKey, CacheEntry, Entries, bool_eq, key_eq, lookup, remove, insert, retain, touch,
}

bool_eq_sound : (a b : Bool) → bool_eq a b ≡ true → a ≡ b
bool_eq_sound true true h = refl
bool_eq_sound true false h = cc
bool_eq_sound false true h = cc
bool_eq_sound false false h = refl

bool_eq_refl : (a : Bool) → bool_eq a a ≡ true
bool_eq_refl true = refl
bool_eq_refl false = refl

pub key_eq_sound : (a b : CacheKey) → key_eq a b ≡ true → a ≡ b
unfolding key_eq
key_eq_sound a b h =
    let n : a.qname ≡ b.qname = text_eq_sound a.qname b.qname (ground arith) in
    let t : a.qtype ≡ b.qtype = ground arith in
    let d : a.dnssec_ok ≡ b.dnssec_ok = bool_eq_sound a.dnssec_ok b.dnssec_ok (ground arith) in
    λ i. record { qname = n i; qtype = t i; dnssec_ok = d i }

pub key_eq_refl : (a : CacheKey) → key_eq a a ≡ true
unfolding key_eq
key_eq_refl a = rw (text_eq_refl a.qname, ==_refl a.qtype) (bool_eq_refl a.dnssec_ok)

pub key_eq-sym : (a b : CacheKey) → key_eq a b ≡ false → key_eq b a ≡ false
key_eq-sym a b h = elim (Bool-cases (key_eq b a)) [
  | inr e ↦ e
  | inl e ↦ let eq = key_eq_sound b a e in let r = key_eq_refl a in cc (rw eq at h)
]

pub lookup-remove_self : (k : CacheKey) (s : Entries) → lookup k (remove k s) ≡ none
unfolding lookup remove
lookup-remove_self k [] = refl
lookup-remove_self k ((j, e) ∷ s) = ground (arith, lookup-remove_self k s)

pub lookup-remove_ne :
    (j k : CacheKey) (s : Entries) → key_eq k j ≡ false → lookup j (remove k s) ≡ lookup j s
unfolding lookup remove
lookup-remove_ne j k [] h = refl
lookup-remove_ne j k ((i, e) ∷ s) h =
    ground (arith, lookup-remove_ne j k s h, key_eq_sound i k, key_eq_sound i j)

pub lookup-insert_self :
    (k : CacheKey) (e : CacheEntry) (s : Entries) → lookup k (insert k e s) ≡ some e
unfolding lookup insert
lookup-insert_self k e s = rw (key_eq_refl k)

pub lookup-insert_ne :
    (j k : CacheKey) (e : CacheEntry) (s : Entries)
    → key_eq k j ≡ false
    → lookup j (insert k e s) ≡ lookup j s
unfolding lookup insert
lookup-insert_ne j k e s h = rw h (lookup-remove_ne j k s h)

pub length-remove-le : (k : CacheKey) (s : Entries) → length (remove k s) ≤ length s
unfolding remove
length-remove-le k [] = omega arith
length-remove-le k ((j, e) ∷ s) = ground (arith, length-remove-le k s)

-- No key stands twice.
abbrev pub Distinct : Entries → Type 0
Distinct [] = Unit
Distinct ((k, e) ∷ s) = (lookup k s ≡ none) × Distinct s

lookup-remove-none :
    (j k : CacheKey) (s : Entries) → lookup j s ≡ none → lookup j (remove k s) ≡ none
unfolding lookup remove
lookup-remove-none j k [] h = refl
lookup-remove-none j k ((i, e) ∷ s) h = ground (arith, lookup-remove-none j k s)

pub remove-Distinct : (k : CacheKey) (s : Entries) → Distinct s → Distinct (remove k s)
unfolding remove
remove-Distinct k [] d = tt
remove-Distinct k ((j, e) ∷ s) d = elim (Bool-cases (key_eq j k)) [
  | inl h ↦ rw h (remove-Distinct k s d.1)
  | inr h ↦ rw h (lookup-remove-none j k s d.0, remove-Distinct k s d.1)
]

pub insert-Distinct :
    (k : CacheKey) (e : CacheEntry) (s : Entries) → Distinct s → Distinct (insert k e s)
unfolding insert
insert-Distinct k e s d = (lookup-remove_self k s, remove-Distinct k s d)

pub lookup-retain-none :
    (keep : CacheKey → CacheEntry → Bool) (j : CacheKey) (s : Entries)
    → lookup j s ≡ none
    → lookup j (retain keep s) ≡ none
unfolding lookup retain
lookup-retain-none keep j [] h = refl
lookup-retain-none keep j ((i, e) ∷ s) h = ground (arith, lookup-retain-none keep j s)

pub retain-Distinct :
    (keep : CacheKey → CacheEntry → Bool) (s : Entries) → Distinct s → Distinct (retain keep s)
unfolding retain
retain-Distinct keep [] d = tt
retain-Distinct keep ((j, e) ∷ s) d = elim (Bool-cases (keep j e)) [
  | inl h ↦ rw h (lookup-retain-none keep j s d.0, retain-Distinct keep s d.1)
  | inr h ↦ rw h (retain-Distinct keep s d.1)
]

-- `retain` keeps exactly the entries that pass the test.
pub lookup-retain :
    (keep : CacheKey → CacheEntry → Bool) (j : CacheKey) (s : Entries)
    → Distinct s
    → lookup j (retain keep s) ≡ (lookup j s >>= λ e. if keep j e then some e else none)
unfolding lookup retain
lookup-retain keep j [] d = refl
lookup-retain keep j ((i, e) ∷ s) d =
    ground (arith, lookup-retain keep j s d.1, lookup-retain-none keep j s, key_eq_sound i j)

pub length-retain-le :
    (keep : CacheKey → CacheEntry → Bool) (s : Entries) → length (retain keep s) ≤ length s
unfolding retain
length-retain-le keep [] = omega arith
length-retain-le keep ((j, e) ∷ s) = ground (arith, length-retain-le keep s)

lookup-touch-none :
    (j k : CacheKey) (now : ℕ) (s : Entries) → lookup j s ≡ none → lookup j (touch k now s) ≡ none
unfolding lookup touch
lookup-touch-none j k now [] h = refl
lookup-touch-none j k now ((i, e) ∷ s) h = ground (arith, lookup-touch-none j k now s)

pub touch-Distinct : (k : CacheKey) (now : ℕ) (s : Entries) → Distinct s → Distinct (touch k now s)
unfolding touch
touch-Distinct k now [] d = tt
touch-Distinct k now ((j, e) ∷ s) d = elim (Bool-cases (key_eq j k)) [
  | inl h ↦ rw h d
  | inr h ↦ rw h (lookup-touch-none j k now s d.0, touch-Distinct k now s d.1)
]

pub length-touch : (k : CacheKey) (now : ℕ) (s : Entries) → length (touch k now s) ≡ length s
unfolding touch
length-touch k now [] = refl
length-touch k now ((j, e) ∷ s) = ground (arith, length-touch k now s)
