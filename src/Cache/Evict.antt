-- ===== src/Cache/Evict.antt =====
-- Eviction: it ends below the bound, and only removes entries.
use cognidns_core.Prelude.{
  ℕ, zero, suc, ◌≤◌, ◌<◌, ◌≡◌, refl, ◌∙◌, ◌⊎◌, inl, inr, Bool, true, false, none, some, [], ◌∷◌,
  arith, ltb, if◌then◌else◌, ltb→lt, Bool-cases, Option-cases, length, take,
}
use cognidns_core.Cache.Map.{
  key_eq_sound, key_eq_refl, lookup-remove_self, lookup-remove_ne, length-remove-le, Distinct,
  remove-Distinct, lookup-retain-none, lookup-retain,
}
use cognidns_core.Cache.Shard.{
  CacheKey, CacheEntry, Entries, key_eq, lookup, remove, retain, oldest_from, oldest_key,
  evict_loop,
}

-- What is in `t` is in `s`: every key has its entry of `s`, or none.
abbrev pub Shrinks : Entries → Entries → Type 0
Shrinks s t = (k : CacheKey) → (lookup k t ≡ lookup k s) ⊎ (lookup k t ≡ none)

pub Shrinks-refl : (s : Entries) → Shrinks s s
Shrinks-refl s k = inl refl

pub Shrinks-trans : (r s t : Entries) → Shrinks r s → Shrinks s t → Shrinks r t
Shrinks-trans r s t h g k = join (h k) (g k)
  where
    join :
        (lookup k s ≡ lookup k r) ⊎ (lookup k s ≡ none)
        → (lookup k t ≡ lookup k s) ⊎ (lookup k t ≡ none)
        → (lookup k t ≡ lookup k r) ⊎ (lookup k t ≡ none)
    join (inl a) (inl b) = inl (b ∙ a)
    join (inr a) (inl b) = inr (b ∙ a)
    join a (inr b) = inr b

pub remove-Shrinks : (j : CacheKey) (s : Entries) → Shrinks s (remove j s)
remove-Shrinks j s k = elim (Bool-cases (key_eq j k)) [
  | inl e ↦ inr (rw (← key_eq_sound j k e) (lookup-remove_self j s))
  | inr e ↦ inl (lookup-remove_ne k j s e)
]

pub retain-Shrinks :
    (keep : CacheKey → CacheEntry → Bool) (s : Entries) → Distinct s → Shrinks s (retain keep s)
retain-Shrinks keep s d k = elim (Option-cases (lookup k s)) [
  | inl e ↦ inr (lookup-retain-none keep k s e)
  | inr (a, e) ↦
      let r : lookup k (retain keep s) ≡ (if keep k a then some a else none) =
        lookup-retain keep k s d ∙ rw e in
      elim (Bool-cases (keep k a)) [ inl h ↦ inl (rw (e, r, h)) | inr h ↦ inr (rw (r, h)) ]
]

abbrev pub Found : CacheKey → Entries → Type 0
Found k s = (e : CacheEntry) × (lookup k s ≡ some e)

Found-head : (k : CacheKey) (e : CacheEntry) (s : Entries) → Found k ((k, e) ∷ s)
unfolding lookup
Found-head k e s = (e, rw (key_eq_refl k))

Found-tail : (k j : CacheKey) (e : CacheEntry) (s : Entries) → Found k s → Found k ((j, e) ∷ s)
unfolding lookup
Found-tail k j e s (d, f) = elim (Bool-cases (key_eq j k)) [
  | inl h ↦ (e, rw h)
  | inr h ↦ (d, rw h f)
]

-- The key that the sample picks is the first one or a key of the rest.
oldest_from-Found :
    (k : CacheKey) (a n : ℕ) (s : Entries)
    → (oldest_from k a (take n s) ≡ k) ⊎ Found (oldest_from k a (take n s)) s
unfolding oldest_from
oldest_from-Found k a zero s = inl refl
oldest_from-Found k a (suc n) [] = inl refl
oldest_from-Found k a (suc n) ((j, e) ∷ s) = elim (Bool-cases (ltb e.last_access a)) [
  | inl h ↦ rw h (elim (oldest_from-Found j e.last_access n s) [
    | inl eq ↦ inr (rw eq (Found-head j e s))
    | inr f ↦ inr (Found-tail _ j e s f)
  ])
  | inr h ↦
      rw h
        (elim (oldest_from-Found k a n s) [ inl eq ↦ inl eq | inr f ↦ inr (Found-tail _ j e s f) ])
]

pub oldest_key-Found : (s : Entries) (k : CacheKey) → oldest_key s ≡ some k → Found k s
unfolding oldest_key
oldest_key-Found [] k h = cc
oldest_key-Found ((j, e) ∷ s) k h =
    let eq : oldest_from j e.last_access (take 4 s) ≡ k = cc in
    rw (← eq) (elim (oldest_from-Found j e.last_access 4 s) [
      | inl same ↦ rw same (Found-head j e s)
      | inr f ↦ Found-tail _ j e s f
    ])

oldest_key-some : (s : Entries) → 0 < length s → (k : CacheKey) × (oldest_key s ≡ some k)
unfolding oldest_key
oldest_key-some [] h = absurd (omega arith)
oldest_key-some ((j, e) ∷ s) h = (oldest_from j e.last_access (take 4 s), refl)

length-remove-lt :
    (k : CacheKey) (s : Entries) (e : CacheEntry)
    → lookup k s ≡ some e
    → length (remove k s) < length s
unfolding lookup remove
length-remove-lt k [] e h = cc
length-remove-lt k ((j, d) ∷ s) e h = ground (arith, length-remove-lt k s e, length-remove-le k s)

-- One round of the loop.
evict_loop_step :
    (f bound : ℕ) (s : Entries) (k : CacheKey)
    → ltb (length s) bound ≡ false
    → oldest_key s ≡ some k
    → evict_loop (suc f) bound s ≡ evict_loop f bound (remove k s)
unfolding evict_loop
evict_loop_step f bound s k t e = rw (t, e, evict_loop)

evict_loop_stop :
    (f bound : ℕ) (s : Entries) → ltb (length s) bound ≡ true → evict_loop f bound s ≡ s
unfolding evict_loop
evict_loop_stop zero bound s t = refl
evict_loop_stop (suc f) bound s t = rw t

-- With a bound over 0 and at least as much fuel as there are entries, the loop ends with fewer
-- entries than the bound.
pub evict_loop-lt :
    (f bound : ℕ) (s : Entries) → 0 < bound → length s ≤ f → length (evict_loop f bound s) < bound
evict_loop-lt zero bound s b h = unfold evict_loop in (omega arith)
evict_loop-lt (suc f) bound s b h = elim (Bool-cases (ltb (length s) bound)) [
  | inl t ↦ rw (evict_loop_stop (suc f) bound s t) (ltb→lt (length s) bound t)
  | inr t ↦
      let (k, e) = oldest_key-some s (ground arith) in
      let (d, m) = oldest_key-Found s k e in
      rw (evict_loop_step f bound s k t e)
        (evict_loop-lt f bound (remove k s) b (omega (arith, length-remove-lt k s d m)))
]

pub evict_loop-Shrinks : (f bound : ℕ) (s : Entries) → Shrinks s (evict_loop f bound s)
evict_loop-Shrinks zero bound s = unfold evict_loop in (Shrinks-refl s)
evict_loop-Shrinks (suc f) bound s = elim (Bool-cases (ltb (length s) bound)) [
  | inl t ↦ rw (evict_loop_stop (suc f) bound s t) (Shrinks-refl s)
  | inr t ↦ elim (Option-cases (oldest_key s)) [
    | inl e ↦ unfold evict_loop in (rw (t, e, evict_loop) (Shrinks-refl s))
    | inr (k, e) ↦ rw (evict_loop_step f bound s k t e) (
        Shrinks-trans s (remove k s) _ (remove-Shrinks k s)
          (evict_loop-Shrinks f bound (remove k s)))
  ]
]

pub evict_loop-Distinct : (f bound : ℕ) (s : Entries) → Distinct s → Distinct (evict_loop f bound s)
evict_loop-Distinct zero bound s d = unfold evict_loop in d
evict_loop-Distinct (suc f) bound s d = elim (Bool-cases (ltb (length s) bound)) [
  | inl t ↦ rw (evict_loop_stop (suc f) bound s t) d
  | inr t ↦ elim (Option-cases (oldest_key s)) [
    | inl e ↦ unfold evict_loop in (rw (t, e, evict_loop) d)
    | inr (k, e) ↦
        rw (evict_loop_step f bound s k t e)
          (evict_loop-Distinct f bound (remove k s) (remove-Distinct k s d))
  ]
]
