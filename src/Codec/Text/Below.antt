-- ===== src/Codec/Text/Below.antt =====
-- Names that end in a suffix, and the test for them by `==` and `ends_with`.
use cognidns_core.Prelude.{
  ◌≡◌, refl, sym, ap, ◌∙◌, ◌⊎◌, inl, inr, Bool, true, false, ◌||◌, [], ◌∷◌, ◌++◌, arith, ◌==◌,
  ==_refl, Bool-cases,
}
use cognidns_core.Codec.Text.{text_eq, is_prefix, ends_with}
use cognidns_core.Codec.Bytes.{Bytes}
use cognidns_core.Codec.Text.Split.{text_eq_sound, text_eq_refl}
use mathlib.Core.List.{reverse, reverse-append, reverse-reverse}

is_prefix_sound : (a b : Bytes) → is_prefix a b ≡ true → (r : Bytes) × (b ≡ a ++ r)
unfolding is_prefix
is_prefix_sound [] b h = (b, refl)
is_prefix_sound (x ∷ a) [] h = cc
is_prefix_sound (x ∷ a) (y ∷ b) h = elim (Bool-cases (x == y)) [
  | inl t ↦
      let (r, e) = is_prefix_sound a b (rw t at h) in
      let xy : x ≡ y = ground arith in (r, rw (xy, e))
  | inr t ↦ cc (rw t at h)
]

is_prefix-append : (a r : Bytes) → is_prefix a (a ++ r) ≡ true
unfolding is_prefix
is_prefix-append [] r = refl
is_prefix-append (x ∷ a) r = rw (==_refl x) (is_prefix-append a r)

pub ends_with-append : (a s : Bytes) → ends_with (a ++ s) s ≡ true
unfolding ends_with
ends_with-append a s = rw (reverse-append a s) (is_prefix-append (reverse s) (reverse a))

pub ends_with_sound : (xs s : Bytes) → ends_with xs s ≡ true → (a : Bytes) × (xs ≡ a ++ s)
unfolding ends_with
ends_with_sound xs s h =
    let (r, e) = is_prefix_sound (reverse s) (reverse xs) h in
    (
      reverse r,
      sym (reverse-reverse xs)
          ∙ ap reverse e
          ∙ reverse-append (reverse s) r
          ∙ ap (λ x. reverse r ++ x) (reverse-reverse s),
    )

-- The name is the suffix, or ends in the suffix behind a dot.
abbrev pub IsBelow : Bytes → Bytes → Type 0
IsBelow query suffix = (query ≡ suffix) ⊎ ((labels : Bytes) × (query ≡ labels ++ (46 ∷ suffix)))

or-true : (b : Bool) → (b || true) ≡ true
or-true true = refl
or-true false = refl

pub below-matches :
    (query suffix : Bytes)
    → IsBelow query suffix
    → (text_eq query suffix || ends_with query (46 ∷ suffix)) ≡ true
below-matches query suffix (inl e) = rw (e, text_eq_refl suffix)
below-matches query suffix (inr (labels, e)) =
    rw (e, ends_with-append labels (46 ∷ suffix)) (or-true _)

-- The test of the code for a name and a domain, against what it is to mean.
pub IsBelow-sound :
    (query suffix : Bytes)
    → (text_eq query suffix || ends_with query (46 ∷ suffix)) ≡ true
    → IsBelow query suffix
IsBelow-sound query suffix h = elim (Bool-cases (text_eq query suffix)) [
  | inl t ↦ inl (text_eq_sound query suffix t)
  | inr t ↦ inr (ends_with_sound query (46 ∷ suffix) (rw t at h))
]
