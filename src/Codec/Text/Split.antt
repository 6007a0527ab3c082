-- ===== src/Codec/Text/Split.antt =====
-- `split('.')` and `join(".")` undo one another, and the pieces of a UTF-8 text are UTF-8.
use cognidns_core.Prelude.{
  ℕ, zero, suc, ◌≤◌, ◌≡◌, refl, sym, ◌∙◌, ◌≢◌, inl, inr, true, false, some, List, [], ◌∷◌, arith,
  leb, ◌==◌, ==_iff, ==_refl, Bool-cases, Option-cases, All,
}
use cognidns_core.Codec.Text.{
  utf8_lead, utf8_from, is_utf8, text_eq, cons_head, split_dots, join_dots,
}
use cognidns_core.Codec.Bytes.{Bytes}

pub text_eq_sound : (a b : Bytes) → text_eq a b ≡ true → a ≡ b
unfolding text_eq
text_eq_sound [] [] h = refl
text_eq_sound [] (b ∷ ys) h = cc
text_eq_sound (a ∷ xs) [] h = cc
text_eq_sound (a ∷ xs) (b ∷ ys) h = ground (arith, text_eq_sound xs ys)

pub text_eq_refl : (a : Bytes) → text_eq a a ≡ true
unfolding text_eq
text_eq_refl [] = refl
text_eq_refl (a ∷ xs) = rw (==_refl a) (text_eq_refl xs)

join-cons_head : (b : ℕ) (ls : List Bytes) → join_dots (cons_head b ls) ≡ b ∷ join_dots ls
unfolding join_dots
join-cons_head b [] = refl
join-cons_head b (l ∷ []) = refl
join-cons_head b (l ∷ m ∷ ls) = refl

join-empty : (ls : List Bytes) → ls ≢ [] → join_dots ([] ∷ ls) ≡ 46 ∷ join_dots ls
unfolding join_dots
join-empty [] h = absurd (h refl)
join-empty (l ∷ ls) h = refl

pub split_dots-ne-nil : (x : Bytes) → split_dots x ≢ []
unfolding split_dots
split_dots-ne-nil [] h = cc
split_dots-ne-nil (b ∷ r) h = elim (Bool-cases (b == 46)) [
  | inl e ↦ cc (rw (e, split_dots) at h)
  | inr e ↦ cons_head-ne-nil b (split_dots r) (rw (e, split_dots) at h)
]
  where
    cons_head-ne-nil : (c : ℕ) (ls : List Bytes) → cons_head c ls ≢ []
    cons_head-ne-nil c [] k = cc
    cons_head-ne-nil c (l ∷ ls) k = cc

pub join-split_dots : (x : Bytes) → join_dots (split_dots x) ≡ x
unfolding split_dots
join-split_dots [] = unfold join_dots in refl
join-split_dots (b ∷ r) = elim (Bool-cases (b == 46)) [
  | inl e ↦
      let eq : b ≡ 46 = ground arith in
      rw (e, split_dots)
        (rw (join-empty (split_dots r) (split_dots-ne-nil r), join-split_dots r, eq))
  | inr e ↦ rw (e, split_dots) (rw (join-cons_head b (split_dots r), join-split_dots r))
]

-- The first piece ends in the state in which the text is read; the others start afresh.
abbrev pub Pieces : ℕ → ℕ → ℕ → List Bytes → Type 0
Pieces n lo hi [] = ⊥
Pieces n lo hi (l ∷ ls) = (utf8_from n lo hi l ≡ true) × All (λ x. is_utf8 x ≡ true) ls

utf8_lead_lo : (b n lo hi : ℕ) → utf8_lead b ≡ some (n, lo, hi) → 128 ≤ lo
unfolding utf8_lead
utf8_lead_lo b n lo hi h = ground arith

utf8_lead_dot : utf8_lead 46 ≡ some (0, 0x80, 0xBF)
unfolding utf8_lead
utf8_lead_dot = refl

Pieces-cons_head :
    (b n lo hi m l h : ℕ) (ls : List Bytes)
    → utf8_lead b ≡ some (m, l, h)
    → Pieces m l h ls
    → Pieces 0 lo hi (cons_head b ls)
unfolding utf8_from
Pieces-cons_head b n lo hi m l h [] e p = absurd p
Pieces-cons_head b n lo hi m l h (x ∷ xs) e p = (rw (e, utf8_from) (p.0), p.1)

Pieces-continue :
    (b n lo hi : ℕ) (ls : List Bytes)
    → (leb lo b ≡ true) × (leb b hi ≡ true)
    → Pieces n 0x80 0xBF ls
    → Pieces (suc n) lo hi (cons_head b ls)
unfolding utf8_from
Pieces-continue b n lo hi [] e p = absurd p
Pieces-continue b n lo hi (x ∷ xs) e p = (ground arith, p.1)

Pieces-dot :
    (m l h lo hi : ℕ) (ls : List Bytes)
    → utf8_lead 46 ≡ some (m, l, h)
    → Pieces m l h ls
    → Pieces 0 lo hi ([] ∷ ls)
unfolding utf8_from
Pieces-dot m l h lo hi [] e p = absurd p
Pieces-dot m l h lo hi (x ∷ xs) e p =
    let z = sym utf8_lead_dot ∙ e in
    let a : m ≡ 0 = cc in
    let b : l ≡ 0x80 = cc in let c : h ≡ 0xBF = cc in (refl, (rw (← a, ← b, ← c) (p.0), p.1))

-- Inversion of one step of the reader.
utf8_step :
    (b lo hi : ℕ) (r : Bytes)
    → utf8_from 0 lo hi (b ∷ r) ≡ true
    → (m : ℕ) × (l : ℕ) × (h : ℕ) × (utf8_lead b ≡ some (m, l, h)) × (utf8_from m l h r ≡ true)
unfolding utf8_from
utf8_step b lo hi r e = elim (Option-cases (utf8_lead b)) [
  | inl k ↦ cc (rw (k, utf8_from) at e)
  | inr ((m, l, h), k) ↦ (m, l, h, k, rw (k, utf8_from) at e)
]

utf8_more :
    (b n lo hi : ℕ) (r : Bytes)
    → utf8_from (suc n) lo hi (b ∷ r) ≡ true
    → (leb lo b ≡ true) × (leb b hi ≡ true) × (utf8_from n 0x80 0xBF r ≡ true)
unfolding utf8_from
utf8_more b n lo hi r e = ground arith

pub utf8-split :
    (n lo hi : ℕ) (x : Bytes)
    → 128 ≤ lo
    → utf8_from n lo hi x ≡ true
    → Pieces n lo hi (split_dots x)
unfolding split_dots
utf8-split zero lo hi [] h e = unfold utf8_from in (refl, tt)
utf8-split (suc n) lo hi [] h e = unfold utf8_from in cc e
utf8-split zero lo hi (b ∷ r) h e =
    let (m, l, k, lead, rest) = utf8_step b lo hi r e in
    let ih = utf8-split m l k r (utf8_lead_lo b m l k lead) rest in
    elim (Bool-cases (b == 46)) [
      | inl d ↦
          let eq : b ≡ 46 = (==_iff b 46).0 d in
          rw (d, split_dots) (Pieces-dot m l k lo hi (split_dots r) (rw eq at lead) ih)
      | inr d ↦
          unfold split_dots in
          rw (d, split_dots) (Pieces-cons_head b 0 lo hi m l k (split_dots r) lead ih)
    ]
utf8-split (suc n) lo hi (b ∷ r) h e =
    let (low, high, rest) = utf8_more b n lo hi r e in
    let ih = utf8-split n 0x80 0xBF r (omega arith) rest in
    let d : (b == 46) ≡ false = ground arith in
    rw (d, split_dots) (Pieces-continue b n lo hi (split_dots r) (low, high) ih)
