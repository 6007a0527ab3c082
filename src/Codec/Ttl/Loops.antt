-- ===== src/Codec/Ttl/Loops.antt =====
-- The loop for the smallest TTL on what the decay loop leaves.
use cognidns_core.Prelude.{
  ℕ, zero, suc, ◌+◌, ◌-◌, ◌≡◌, refl, ◌∙◌, ◌⊎◌, inl, inr, false, Option, none, some, arith, ltb,
  Bool-cases, Option-cases, length,
}
use cognidns_core.Codec.Name.{skip_name}
use cognidns_core.Codec.Ttl.{note_ttl, min_ttl_loop, decay_record, decay_loop}
use cognidns_core.Codec.Section.{rr_type_at, rr_ttl_at, rr_end}
use cognidns_core.Codec.Bytes.{Bytes}
use cognidns_core.Codec.Ttl.Rounds.{
  length-decay_record, length-decay_loop, record_before, record_after, record_ttl, record_AllBytes,
  record_end, decay_loop_before, less, note_ttl-less, min_ttl_loop_same, lift,
}
use cognidns_core.Codec.Name.Skip.{skip_name_bounds, skip_name_frame}
use cognidns_core.Codec.Section.Skip.{rr_end_bounds, rr_end_frame}
use cognidns_core.Codec.Bytes.All.{AllBytes}
use cognidns_core.Codec.Bytes.Frame.{SameOn-shrink, SameOn-trans, u16_at_same, u32_at_same}

pub min_ttl_loop_unnamed :
    (n : ℕ) (p : Bytes) (o : ℕ) (x : Option ℕ)
    → skip_name p o ≡ none
    → min_ttl_loop (suc n) p o x ≡ none
unfolding min_ttl_loop
min_ttl_loop_unnamed n p o x h = rw h

pub min_ttl_loop_cut :
    (n : ℕ) (p : Bytes) (o m : ℕ) (x : Option ℕ)
    → skip_name p o ≡ some m
    → rr_end p m ≡ none
    → min_ttl_loop (suc n) p o x ≡ none
unfolding min_ttl_loop
min_ttl_loop_cut n p o m x h k = rw (h, k)

pub min_ttl_loop_step :
    (n : ℕ) (p : Bytes) (o m r : ℕ) (x : Option ℕ)
    → skip_name p o ≡ some m
    → rr_end p m ≡ some r
    → min_ttl_loop (suc n) p o x ≡ min_ttl_loop n p r (note_ttl (rr_type_at p m) (rr_ttl_at p m) x)
unfolding min_ttl_loop
min_ttl_loop_step n p o m r x h k = rw (h, k)

pub decay_loop_unnamed :
    (n : ℕ) (p : Bytes) (o e : ℕ) → skip_name p o ≡ none → decay_loop (suc n) p o e ≡ p
unfolding decay_loop
decay_loop_unnamed n p o e h = rw (h, decay_loop)

pub decay_loop_cut :
    (n : ℕ) (p : Bytes) (o m e : ℕ)
    → skip_name p o ≡ some m
    → rr_end p m ≡ none
    → (decay_loop (suc n) p o e ≡ p) ⊎ (decay_loop (suc n) p o e ≡ decay_record p m e)
unfolding decay_loop
decay_loop_cut n p o m e h k =
    let k' = record_end p m e ∙ k in
    elim (Bool-cases (ltb (length p) (m + 10))) [
      | inl short ↦ inl (rw (h, decay_loop, short))
      | inr long ↦ inr (rw (h, decay_loop, long, k'))
    ]

pub decay_loop_step :
    (n : ℕ) (p : Bytes) (o m r e : ℕ)
    → skip_name p o ≡ some m
    → rr_end p m ≡ some r
    → decay_loop (suc n) p o e ≡ decay_loop n (decay_record p m e) r e
unfolding decay_loop
decay_loop_step n p o m r e h k =
    let k' = record_end p m e ∙ k in
    let (_, mr, rl) = rr_end_bounds p m r k in
    let long : ltb (length p) (m + 10) ≡ false = ground arith in rw (h, decay_loop, long, k')

-- The record that stopped the decay stops the loop for the smallest TTL too.
pub min_ttl-decay_cut :
    (n : ℕ) (p d : Bytes) (o m e : ℕ) (x : Option ℕ)
    → skip_name p o ≡ some m
    → rr_end p m ≡ none
    → (d ≡ p) ⊎ (d ≡ decay_record p m e)
    → min_ttl_loop (suc n) d o x ≡ none
min_ttl-decay_cut n p d o m e x h k (inl same) = rw same (min_ttl_loop_cut n p o m x h k)
min_ttl-decay_cut n p d o m e x h k (inr written) = rw written (
    min_ttl_loop_cut n (decay_record p m e) o m x
      (skip_name_frame p (decay_record p m e) o m h
        (SameOn-shrink p (decay_record p m e) o o m (m + 4) (record_before p m e o) (omega arith)
          (omega arith))
        (omega (arith, length-decay_record p m e)))
      (record_end p m e ∙ k))

-- The step of the induction, over the packet `d` that the rest of the loop leaves.
pub min_ttl_step :
    (n : ℕ) (p : Bytes) (o m r e : ℕ) (x : Option ℕ)
    → AllBytes p
    → skip_name p o ≡ some m
    → rr_end p m ≡ some r
    → min_ttl_loop n
        (decay_loop n (decay_record p m e) r e)
        r
        (less e (note_ttl (rr_type_at p m) (rr_ttl_at p m) x))
      ≡ lift e (min_ttl_loop n (decay_record p m e) r (note_ttl (rr_type_at p m) (rr_ttl_at p m) x))
    → min_ttl_loop (suc n) (decay_loop n (decay_record p m e) r e) o (less e x)
      ≡ lift e (min_ttl_loop n p r (note_ttl (rr_type_at p m) (rr_ttl_at p m) x))
min_ttl_step n p o m r e x h u k ih =
    let q = decay_record p m e in
    let d = decay_loop n q r e in
    let (om, _) = skip_name_bounds p o m u in
    let (_, mr, rl) = rr_end_bounds p m r k in
    let lq = length-decay_record p m e in
    let ld = length-decay_loop n q r e in
    let early =
      SameOn-trans p q d 0 (m + 4)
        (SameOn-shrink p q 0 0 (m + 4) (m + 4) (record_before p m e 0) (omega arith) (omega arith))
        (SameOn-shrink q d 0 0 (m + 4) r (decay_loop_before n q r e) (omega arith) (omega arith)) in
    let late = SameOn-shrink q d 0 m r r (decay_loop_before n q r e) (omega arith) (omega arith) in
    let u' : skip_name d o ≡ some m =
      skip_name_frame p d o m u (SameOn-shrink p d 0 o m (m + 4) early (omega arith) (omega arith))
        (omega arith) in
    let k' : rr_end d m ≡ some r = rr_end_frame q d m r (record_end p m e ∙ k) late (omega arith) in
    let ty : rr_type_at d m ≡ rr_type_at p m =
      u16_at_same p d 0 (m + 4) m early (omega arith) (omega arith) in
    let late_ttl : rr_ttl_at d m ≡ rr_ttl_at p m - e =
      u32_at_same q d m r (m + 4) late (omega arith) (omega arith)
      ∙ record_ttl p m e h (omega arith) in
    let same : min_ttl_loop n q r (note_ttl (rr_type_at p m) (rr_ttl_at p m) x)
        ≡ min_ttl_loop n p r (note_ttl (rr_type_at p m) (rr_ttl_at p m) x) =
      min_ttl_loop_same n p q r _ lq (
        SameOn-shrink p q (m + 8) r (length p) (length p) (record_after p m e (length p))
          (omega arith) (omega arith)) in
    min_ttl_loop_step n d o m r (less e x) u' k' ∙ rw (ty, late_ttl, note_ttl-less, ← same) ih

pub min_ttl_loop-decay_loop :
    (n : ℕ) (p : Bytes) (o e : ℕ) (m : Option ℕ)
    → AllBytes p
    → min_ttl_loop n (decay_loop n p o e) o (less e m) ≡ lift e (min_ttl_loop n p o m)
min_ttl_loop-decay_loop zero p o e m h = unfold min_ttl_loop decay_loop in refl
min_ttl_loop-decay_loop (suc n) p o e x h = elim (Option-cases (skip_name p o)) [
  | inl u ↦ rw (
    decay_loop_unnamed n p o e u,
    min_ttl_loop_unnamed n p o (less e x) u,
    min_ttl_loop_unnamed n p o x u,
  )
  | inr (m, u) ↦ elim (Option-cases (rr_end p m)) [
    | inl k ↦ rw (
      min_ttl-decay_cut n p _ o m e (less e x) u k (decay_loop_cut n p o m e u k),
      min_ttl_loop_cut n p o m x u k,
    )
    | inr (r, k) ↦
        rw (decay_loop_step n p o m r e u k, min_ttl_loop_step n p o m r x u k)
          (min_ttl_step n p o m r e x h u k (
            min_ttl_loop-decay_loop n (decay_record p m e) r e
              (note_ttl (rr_type_at p m) (rr_ttl_at p m) x) (record_AllBytes p m e h)))
  ]
]
