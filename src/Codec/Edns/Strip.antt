-- ===== src/Codec/Edns/Strip.antt =====
-- No OPT record is left by `strip_edns_opt_from_request`.
use cognidns_core.Prelude.{
  ℕ, zero, suc, ◌+◌, ◌-◌, ◌≤◌, ◌≡◌, refl, sym, ap, ◌∙◌, ◌⊎◌, inl, inr, true, false, none, some,
  ◌++◌, arith, ◌==◌, Bool-cases, Option-cases, length, drop, length-append, length-take,
  length-drop, get_or-take, get_or-drop,
}
use cognidns_core.Codec.Name.{skip_name}
use cognidns_core.Codec.Edns.{find_opt, opt_or}
use cognidns_core.Codec.Section.{rr_type_at, rr_end}
use cognidns_core.Codec.Bytes.{Bytes, slice}
use cognidns_core.Codec.Edns.Append.{find_opt_step}
use cognidns_core.Codec.Edns.Rewrite.{Kept, keep_others}
use cognidns_core.Codec.Name.Skip.{skip_name_bounds}
use cognidns_core.Codec.Section.Moved.{
  Moved, Moved-shrink, u16_at-Moved, skip_name-Moved, rr_end-Moved,
}
use cognidns_core.Codec.Section.Skip.{rr_end_bounds}
use cognidns_core.Codec.Bytes.Frame.{
  SameOn, SameOn-shrink, SameOn-trans, SameOn-append, byte-append_right,
}

-- One round of the loop, on a record that is kept and on one that is not.
pub keep_others-inv :
    (n : ℕ) (p : Bytes) (o : ℕ) (kept out : Kept)
    → keep_others (suc n) p o kept ≡ some out
    → (k : ℕ) × (m : ℕ) × (skip_name p o ≡ some k)
      × (rr_end p k ≡ some m)
      × (((rr_type_at p k == 41) ≡ true)
            × (keep_others n p m (record kept { removed = true }) ≡ some out)
          ⊎ (((rr_type_at p k == 41) ≡ false)
              × ((kept.count == 65535) ≡ false)
              × (keep_others n p m (record {
                bytes = kept.bytes ++ slice p o m;
                count = kept.count + 1;
                removed = kept.removed;
              })
                  ≡ some out)))
unfolding keep_others
keep_others-inv n p o kept out e = elim (Option-cases (skip_name p o)) [
  | inl u ↦ cc (rw u at e)
  | inr (k, u) ↦ elim (Option-cases (rr_end p k)) [
    | inl w ↦ cc (rw (u, w) at e)
    | inr (m, w) ↦ elim (Bool-cases (rr_type_at p k == 41)) [
      | inl t ↦ (k, m, u, w, inl (t, rw (u, w, t) at e))
      | inr t ↦ elim (Bool-cases (kept.count == 65535)) [
        | inl full ↦ cc (rw (u, w, t, full) at e)
        | inr room ↦ (k, m, u, w, inr (t, room, rw (u, w, t, room) at e))
      ]
    ]
  ]
]

length-slice : (p : Bytes) (o m : ℕ) → o ≤ m → m ≤ length p → length (slice p o m) ≡ m - o
length-slice p o m h l = omega (arith, length-take (m - o) (drop o p), length-drop o p)

-- The bytes that are kept already stay in front, and the count does not fall.
pub keep_others_front :
    (n : ℕ) (p : Bytes) (o : ℕ) (kept out : Kept)
    → keep_others n p o kept ≡ some out
    → (length kept.bytes ≤ length out.bytes)
      × SameOn 0 (length kept.bytes) kept.bytes out.bytes
      × (kept.count ≤ out.count)
keep_others_front zero p o kept out e =
    let e' : some kept ≡ some out = unfold keep_others in e in
    let same : kept ≡ out = ap (λ x. opt_or x (λ y. y) kept) e' in
    rw (← same) (omega arith, λ i a b. refl, omega arith)
keep_others_front (suc n) p o kept out e =
    let (k, m, ek, em, c) = keep_others-inv n p o kept out e in
    elim c [
      | inl (t, r) ↦ keep_others_front n p m (record kept { removed = true }) out r
      | inr (t, room, r) ↦
          let more = kept.bytes ++ slice p o m in
          let (l, s, c) =
            keep_others_front n p m
              (record { bytes = more; count = kept.count + 1; removed = kept.removed }) out r in
          let n = length-append kept.bytes (slice p o m) in
          (
            omega arith,
            SameOn-trans kept.bytes more out.bytes 0 (length kept.bytes)
                (SameOn-append kept.bytes (slice p o m) 0)
                (SameOn-shrink more out.bytes 0 0 (length kept.bytes) (length more) s (omega arith)
                  (omega arith)),
            omega arith,
          )
    ]

-- The record that is kept stands at the end of what was kept before.
slice-Moved :
    (p front out q : Bytes) (o m : ℕ)
    → o ≤ m
    → m ≤ length p
    → SameOn 0 (length (front ++ slice p o m)) (front ++ slice p o m) out
    → SameOn (length front) (length out) out q
    → length (front ++ slice p o m) ≤ length out
    → Moved o (length front) (m - o) p q
slice-Moved p front out q o m h l s k le i lt =
    let len = length-append front (slice p o m) in
    let part = length-slice p o m h l in
    k (length front + i) (omega arith) (omega arith)
    ∙ s (length front + i) (omega arith) (omega arith)
    ∙ byte-append_right front (slice p o m) i
    ∙ get_or-take (m - o) (drop o p) i 0 lt
    ∙ get_or-drop o p i 0

-- A record that is no OPT record is passed by the search, wherever it stands.
find_opt-Moved :
    (n : ℕ) (p q : Bytes) (o o' k m : ℕ)
    → skip_name p o ≡ some k
    → rr_end p k ≡ some m
    → (rr_type_at p k == 41) ≡ false
    → Moved o o' (m - o) p q
    → o' + (m - o) ≤ length q
    → find_opt (suc n) q o' ≡ find_opt n q (o' + (m - o))
find_opt-Moved n p q o o' k m ek em t s l =
    let (ok, _) = skip_name_bounds p o k ek in
    let (_, km, _) = rr_end_bounds p k m em in
    let z : o' + 0 ≡ o' = omega arith in
    let w : o + 0 ≡ o = omega arith in
    let at : o + (k - o) ≡ k = omega arith in
    let end : o' + (k - o) + (m - k) ≡ o' + (m - o) = omega arith in
    let ek' =
      skip_name-Moved p q o o' k ek
        (rw (z, w) at (Moved-shrink p q o o' (m - o) 0 (k - o) s (omega arith))) (omega arith) in
    let em' =
      rr_end-Moved p q k (o' + (k - o)) m em
        (rw at at (Moved-shrink p q o o' (m - o) (k - o) (m - k) s (omega arith))) (omega arith) in
    let ty = u16_at-Moved p q o o' (m - o) (k - o) s (omega arith) in
    let t' : (rr_type_at q (o' + (k - o)) == 41) ≡ false = rw (ty, at) t in
    find_opt_step n q o' (o' + (k - o)) (o' + (m - o)) ek' (em' ∙ ap some end) t'

-- The search over what the loop kept finds nothing.
pub keep_others-find_opt :
    (n : ℕ) (p : Bytes) (o : ℕ) (kept out : Kept) (q : Bytes)
    → keep_others n p o kept ≡ some out
    → SameOn (length kept.bytes) (length out.bytes) out.bytes q
    → length out.bytes ≤ length q
    → find_opt (out.count - kept.count) q (length kept.bytes) ≡ none
keep_others-find_opt zero p o kept out q e s l =
    let e' : some kept ≡ some out = unfold keep_others in e in
    let same : kept ≡ out = ap (λ x. opt_or x (λ y. y) kept) e' in
    let z : out.count - kept.count ≡ 0 = rw same (omega arith) in rw z (unfold find_opt in refl)
keep_others-find_opt (suc n) p o kept out q e s l =
    let (k, m, ek, em, c) = keep_others-inv n p o kept out e in
    elim c [
      | inl (t, r) ↦ keep_others-find_opt n p m (record kept { removed = true }) out q r s l
      | inr (t, room, r) ↦
          let more = kept.bytes ++ slice p o m in
          let then : Kept = record {
            bytes = more;
            count = kept.count + 1;
            removed = kept.removed;
          } in
          let (l', s', c') = keep_others_front n p m then out r in
          let (ok, _) = skip_name_bounds p o k ek in
          let (_, km, ml) = rr_end_bounds p k m em in
          let len = length-append kept.bytes (slice p o m) in
          let part = length-slice p o m (omega arith) ml in
          let moved = slice-Moved p kept.bytes out.bytes q o m (omega arith) ml s' s l' in
          let past =
            find_opt-Moved (out.count - (kept.count + 1)) p q o (length kept.bytes) k m ek em t
              moved (omega arith) in
          let there : length kept.bytes + (m - o) ≡ length more = omega arith in
          let one : suc (out.count - (kept.count + 1)) ≡ out.count - kept.count = omega arith in
          let ih =
            keep_others-find_opt n p m then out q r
              (SameOn-shrink out.bytes q (length kept.bytes) (length more) (length out.bytes)
                (length out.bytes) s (omega arith) (omega arith))
              l in
          ap (λ x. find_opt x q (length kept.bytes)) (sym one)
          ∙ past
          ∙ ap (find_opt (out.count - (kept.count + 1)) q) there
          ∙ ih
    ]
