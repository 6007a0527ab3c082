-- ===== src/Cache/Freeze.antt =====
-- Which names `set_freeze_domain` freezes.
use cognidns_core.Prelude.{
  ◌<◌, ◌≡◌, refl, sym, ap, ◌∙◌, ◌↔◌, ◌⊎◌, inl, inr, Bool, true, false, ◌||◌, List, [], ◌∷◌, ◌++◌,
  arith, ◌==◌, Bool-cases, length,
}
use cognidns_core.Codec.Text.{text_eq}
use cognidns_core.Codec.Bytes.{Bytes}
use cognidns_core.Codec.Text.Split.{text_eq_sound}
use cognidns_core.Codec.Text.Below.{IsBelow}
use cognidns_core.Cache.Domain.{
  normalize_domain, same_or_subdomain, any_domain, text_le, insert_sorted, sort_domains, dedup_from,
  dedup, add_domain,
}
use cognidns_core.Cache.Below.{same_or_subdomain_sound, same_or_subdomain-below}
use cognidns_core.Cache.State.{ResponseCache, is_frozen_for_qname, set_freeze_domain}

or_comm : (a b : Bool) → (a || b) ≡ (b || a)
or_comm true true = refl
or_comm true false = refl
or_comm false true = refl
or_comm false false = refl

or_swap : (a b c : Bool) → (a || (b || c)) ≡ (b || (a || c))
or_swap true true c = refl
or_swap true false c = refl
or_swap false true c = refl
or_swap false false c = refl

module _ (f : Bytes → Bool) where
  any_domain-insert_sorted :
      (x : Bytes) (ys : List Bytes) → any_domain f (insert_sorted x ys) ≡ (f x || any_domain f ys)
  unfolding any_domain insert_sorted
  any_domain-insert_sorted x [] = refl
  any_domain-insert_sorted x (y ∷ ys) = elim (Bool-cases (text_le x y)) [
    | inl t ↦ rw t refl
    | inr t ↦ rw (t, any_domain-insert_sorted x ys) (or_swap (f y) (f x) (any_domain f ys))
  ]

  any_domain-sort_domains : (xs : List Bytes) → any_domain f (sort_domains xs) ≡ any_domain f xs
  unfolding any_domain sort_domains
  any_domain-sort_domains [] = refl
  any_domain-sort_domains (x ∷ xs) =
      any_domain-insert_sorted x (sort_domains xs) ∙ ap (λ b. f x || b) (any_domain-sort_domains xs)

  any_domain-dedup_from :
      (x : Bytes) (ys : List Bytes)
      → (f x || any_domain f (dedup_from x ys)) ≡ (f x || any_domain f ys)
  unfolding any_domain dedup_from
  any_domain-dedup_from x [] = refl
  any_domain-dedup_from x (y ∷ ys) = elim (Bool-cases (text_eq x y)) [
    | inl t ↦
        rw (t, text_eq_sound x y t) (any_domain-dedup_from y ys ∙ absorb (f y) (any_domain f ys))
    | inr t ↦ rw (t, any_domain-dedup_from y ys) refl
  ]
    where
      absorb : (a b : Bool) → (a || b) ≡ (a || (a || b))
      absorb true b = refl
      absorb false b = refl

  any_domain-dedup : (xs : List Bytes) → any_domain f (dedup xs) ≡ any_domain f xs
  unfolding any_domain dedup
  any_domain-dedup [] = refl
  any_domain-dedup (x ∷ xs) = any_domain-dedup_from x xs

  any_domain-append :
      (xs : List Bytes) (x : Bytes) → any_domain f (xs ++ (x ∷ [])) ≡ (f x || any_domain f xs)
  unfolding any_domain
  any_domain-append [] x = refl
  any_domain-append (y ∷ xs) x = rw (any_domain-append xs x) (or_swap (f y) (f x) (any_domain f xs))

  any_domain_known :
      (x : Bytes) (ds : List Bytes)
      → any_domain (λ d. text_eq d x) ds ≡ true
      → any_domain f ds ≡ (f x || any_domain f ds)
  unfolding any_domain
  any_domain_known x [] h = cc
  any_domain_known x (d ∷ ds) h = elim (Bool-cases (text_eq d x)) [
    | inl t ↦ rw (text_eq_sound d x t) (twice (f x) (any_domain f ds))
    | inr t ↦
        ap (λ b. f d || b) (any_domain_known x ds (rw t at h))
        ∙ or_swap (f d) (f x) (any_domain f ds)
  ]
    where
      twice : (a b : Bool) → (a || b) ≡ (a || (a || b))
      twice true b = refl
      twice false b = refl

  -- The domain is added to what the list says, whatever the order.
  pub any_domain-add_domain :
      (x : Bytes) (ds : List Bytes) → any_domain f (add_domain x ds) ≡ (f x || any_domain f ds)
  unfolding add_domain
  any_domain-add_domain x ds = elim (Bool-cases (any_domain (λ d. text_eq d x) ds)) [
    | inl t ↦ rw t (any_domain_known x ds t)
    | inr t ↦ rw t (
        any_domain-dedup (sort_domains (ds ++ (x ∷ [])))
        ∙ any_domain-sort_domains (ds ++ (x ∷ []))
        ∙ any_domain-append ds x)
  ]

set_freeze_domain_test :
    (c : ResponseCache) (domain qname : Bytes)
    → 0 < length (normalize_domain domain)
    → 0 < length (normalize_domain qname)
    → is_frozen_for_qname (set_freeze_domain c domain true).0 qname ≡ (
        same_or_subdomain (normalize_domain qname) (normalize_domain domain)
        || is_frozen_for_qname c qname)
unfolding is_frozen_for_qname set_freeze_domain
set_freeze_domain_test c domain qname hd hq =
    let d : (length (normalize_domain domain) == 0) ≡ false = ground arith in
    let q : (length (normalize_domain qname) == 0) ≡ false = ground arith in
    elim (Bool-cases c.freeze_all) [
      | inl t ↦
          rw (d, t)
            (or_comm true (same_or_subdomain (normalize_domain qname) (normalize_domain domain)))
      | inr t ↦
          rw (d, t, q)
            (any_domain-add_domain (same_or_subdomain (normalize_domain qname))
              (normalize_domain domain) c.freeze_domains)
    ]

or-cases : (a b : Bool) → (a || b) ≡ true → (a ≡ true) ⊎ (b ≡ true)
or-cases true b h = inl refl
or-cases false b h = inr h

-- After a domain is frozen a name is frozen exactly if it is the domain, ends in it behind a dot,
-- or was frozen before, for a domain and a name that are not empty.
pub is_frozen-set_freeze_domain :
    (c : ResponseCache) (domain qname : Bytes)
    → 0 < length (normalize_domain domain)
    → 0 < length (normalize_domain qname)
    → (is_frozen_for_qname (set_freeze_domain c domain true).0 qname ≡ true) ↔ (
        IsBelow (normalize_domain qname) (normalize_domain domain)
        ⊎ (is_frozen_for_qname c qname ≡ true))
is_frozen-set_freeze_domain c domain qname hd hq =
    let name = normalize_domain qname in
    let parent = normalize_domain domain in
    let e = set_freeze_domain_test c domain qname hd hq in
    (
      λ h.
          elim (or-cases (same_or_subdomain name parent) (is_frozen_for_qname c qname)
            (sym e ∙ h)) [ inl t ↦ inl (same_or_subdomain_sound name parent t) | inr t ↦ inr t ],
      λ b. e ∙ (elim b [
        | inl below ↦ rw (same_or_subdomain-below name parent below) refl
        | inr t ↦ rw t (or_comm (same_or_subdomain name parent) true)
      ]),
    )
