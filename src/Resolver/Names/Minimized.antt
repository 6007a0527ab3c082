-- ===== src/Resolver/Names/Minimized.antt =====
-- The names that the minimization of src/resolver/util.rs asks for.
use cognidns_core.Prelude.{
  ℕ, zero, suc, ◌-◌, ◌≤◌, ◌<◌, ◌≡◌, refl, sym, ap, ◌∙◌, subst, ◌≢◌, inl, inr, true, false, none,
  some, List, [], ◌∷◌, ◌++◌, append_assoc, arith, ltb, ltb→lt, Bool-cases, length, drop,
  length-append,
}
use cognidns_core.Codec.Edns.{opt_or}
use cognidns_core.Codec.Text.{text_eq, split_dots, join_dots, ends_with}
use cognidns_core.Codec.Bytes.{Bytes}
use cognidns_core.Codec.Text.Split.{text_eq_refl, split_dots-ne-nil, join-split_dots}
use cognidns_core.Codec.Text.Below.{ends_with-append}
use cognidns_core.Cache.Domain.{same_or_subdomain}
use cognidns_core.Resolver.Names.{
  normalize_qname, suffixes_of, iter_domain_suffixes, nth, iterative_minimized_qname,
}
use mathlib.Core.List.{reverse, reverse-append}

module _ {A : Type 0} where
  reverse-cons : (x : A) (xs : List A) → reverse (x ∷ xs) ≡ reverse xs ++ (x ∷ [])
  reverse-cons x xs = reverse-append (x ∷ []) xs

  length-reverse : (xs : List A) → length (reverse xs) ≡ length xs
  length-reverse [] = refl
  length-reverse (x ∷ xs) =
      rw (reverse-cons x xs, length-append (reverse xs) (x ∷ []), length-reverse xs) (omega arith)

  nth-append_left : (xs ys : List A) (n : ℕ) → n < length xs → nth (xs ++ ys) n ≡ nth xs n
  nth-append_left [] ys n h = absurd (omega arith)
  nth-append_left (x ∷ xs) ys zero h = refl
  nth-append_left (x ∷ xs) ys (suc n) h = nth-append_left xs ys n (omega arith)

  nth-append_end : (xs : List A) (y : A) → nth (xs ++ (y ∷ [])) (length xs) ≡ some y
  nth-append_end [] y = refl
  nth-append_end (x ∷ xs) y = nth-append_end xs y

  nth_past : (xs : List A) (n : ℕ) → length xs ≤ n → nth xs n ≡ none
  nth_past [] n h = refl
  nth_past (x ∷ xs) zero h = absurd (omega arith)
  nth_past (x ∷ xs) (suc n) h = nth_past xs n (omega arith)

length-suffixes_of : (ls : List Bytes) → length (suffixes_of ls) ≡ length ls
unfolding suffixes_of
length-suffixes_of [] = refl
length-suffixes_of (l ∷ ls) = ap (λ n. suc n) (length-suffixes_of ls)

-- The suffixes from the shortest on.
nth-suffixes_of :
    (ls : List Bytes) (d : ℕ)
    → d < length ls
    → nth (reverse (suffixes_of ls)) d ≡ some (join_dots (drop (length ls - suc d) ls))
unfolding suffixes_of
nth-suffixes_of [] d h = absurd (omega arith)
nth-suffixes_of (l ∷ ls) d h =
    let whole = join_dots (l ∷ ls) in
    let shorter = suffixes_of ls in
    let len : length (reverse shorter) ≡ length ls =
      length-reverse shorter ∙ length-suffixes_of ls in
    elim (Bool-cases (ltb d (length ls))) [
      | inl t ↦
          let lt : d < length ls = ltb→lt d (length ls) t in
          let e : suc (length ls) - suc d ≡ suc (length ls - suc d) = omega arith in
          rw (reverse-cons whole shorter, e)
            (nth-append_left (reverse shorter) (whole ∷ []) d (omega arith)
              ∙ nth-suffixes_of ls d lt)
      | inr t ↦
          let at_end : d ≡ length (reverse shorter) = ground arith in
          let e : suc (length ls) - suc d ≡ 0 = omega arith in
          rw (reverse-cons whole shorter, e, at_end) (nth-append_end (reverse shorter) whole)
    ]

join-drop :
    (ls : List Bytes) (k : ℕ)
    → suc k < length ls
    → (a : Bytes) × (join_dots ls ≡ a ++ (46 ∷ join_dots (drop (suc k) ls)))
unfolding join_dots
join-drop [] k h = absurd (omega arith)
join-drop (l ∷ []) k h = absurd (omega arith)
join-drop (l ∷ m ∷ ls) zero h = (l, refl)
join-drop (l ∷ m ∷ ls) (suc k) h =
    let (a, e) = join-drop (m ∷ ls) k (omega arith) in
    (l ++ (46 ∷ a), rw e (sym (append_assoc l (46 ∷ a) (46 ∷ join_dots (drop (suc k) (m ∷ ls))))))

join-drop-subdomain :
    (ls : List Bytes) (k : ℕ)
    → k < length ls
    → same_or_subdomain (join_dots ls) (join_dots (drop k ls)) ≡ true
unfolding same_or_subdomain
join-drop-subdomain ls zero h = rw (text_eq_refl (join_dots ls)) refl
join-drop-subdomain ls (suc k) h =
    let (a, e) = join-drop ls k h in
    let parent = 46 ∷ join_dots (drop (suc k) ls) in
    let ends : ends_with (join_dots ls) parent ≡ true = rw e (ends_with-append a parent) in
    ground arith

nth_or-suffixes_of :
    (ls : List Bytes) (d : ℕ) (name : Bytes)
    → join_dots ls ≡ name
    → opt_or (nth (reverse (suffixes_of ls)) d) (λ s. s) name
      ≡ join_dots (drop (length ls - suc d) ls)
nth_or-suffixes_of ls d name e = elim (Bool-cases (ltb d (length ls))) [
  | inl t ↦ rw (nth-suffixes_of ls d (ltb→lt d (length ls) t)) refl
  | inr t ↦
      let all_labels : length ls - suc d ≡ 0 = ground arith in
      let len = length-reverse (suffixes_of ls) in
      let len_suffixes = length-suffixes_of ls in
      rw (nth_past (reverse (suffixes_of ls)) d (ground arith), all_labels) (sym e)
]

length_positive : (ls : List Bytes) → ls ≢ [] → 0 < length ls
length_positive [] h = absurd (h refl)
length_positive (l ∷ ls) h = omega arith

-- A name that is not the root, and that normalizing again leaves as it is, is minimized to its
-- last labels, one more than the depth or all of them: the name itself or one it is below.
pub minimized-subdomain :
    (qname : Bytes) (depth : ℕ)
    → text_eq (normalize_qname qname) (46 ∷ []) ≡ false
    → normalize_qname (normalize_qname qname) ≡ normalize_qname qname
    → (iterative_minimized_qname qname depth
        ≡ join_dots (
            drop
              (length (split_dots (normalize_qname qname)) - suc depth)
              (split_dots (normalize_qname qname))))
      × (same_or_subdomain (normalize_qname qname) (iterative_minimized_qname qname depth) ≡ true)
unfolding iterative_minimized_qname iter_domain_suffixes
minimized-subdomain qname depth not_root again =
    let name = normalize_qname qname in
    let labels = split_dots name in
    let k = length labels - suc depth in
    let minimized : iterative_minimized_qname qname depth ≡ join_dots (drop k labels) =
      rw (not_root, again, not_root)
        (nth_or-suffixes_of labels depth name (join-split_dots name)) in
    let some_label = length_positive labels (split_dots-ne-nil name) in
    (
      minimized,
      ap (same_or_subdomain name) minimized
          ∙ subst (λ n. same_or_subdomain n (join_dots (drop k labels)) ≡ true)
              (join-split_dots name) (join-drop-subdomain labels k (omega arith)),
    )
