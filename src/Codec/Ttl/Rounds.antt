-- ===== src/Codec/Ttl/Rounds.antt =====
-- One round of the decay, and what the two loops over the records read.
use mathlib.Core.Option
use cognidns_core.Prelude.{
  ℕ, zero, suc, ◌+◌, ◌-◌, ◌≤◌, ◌≡◌, refl, inl, inr, Option, none, some, arith, Option-cases, length,
}
use cognidns_core.Codec.Name.{skip_name}
use cognidns_core.Codec.Ttl.{note_ttl, min_ttl_loop, decay_record, decay_loop}
use cognidns_core.Codec.Section.{rr_ttl_at, rr_end}
use cognidns_core.Codec.Bytes.{Bytes, byte, length-write, u32_at-write}
use cognidns_core.Codec.Name.Skip.{skip_name_bounds}
use cognidns_core.Codec.Section.Skip.{rr_end_bounds, skip_name_same, rr_end_same}
use cognidns_core.Codec.Bytes.All.{AllBytes, AllBytes-write, u32_at-lt}
use cognidns_core.Codec.Bytes.Frame.{
  SameOn, SameOn-shrink, SameOn-write_before, SameOn-write_after, u16_at_same, u32_at_same,
}

pub length-decay_record : (p : Bytes) (n e : ℕ) → length (decay_record p n e) ≡ length p
unfolding decay_record
length-decay_record p n e = length-write p (n + 4) _

pub length-decay_loop : (n : ℕ) (p : Bytes) (o e : ℕ) → length (decay_loop n p o e) ≡ length p
unfolding decay_loop
length-decay_loop zero p o e = refl
length-decay_loop (suc n) p o e = elim (Option-cases (skip_name p o)) [
  | inl h ↦ rw (h, decay_loop)
  | inr (m, h) ↦
      let q = decay_record p m e in
      elim (Option-cases (rr_end q m)) [
        | inl k ↦ rw (h, decay_loop, k) (ground (arith, length-decay_record p m e))
        | inr (r, k) ↦
            rw (h, decay_loop, k)
              (ground (arith, length-decay_record p m e, length-decay_loop n q r e))
      ]
]

-- What one round of the loop leaves: the bytes before the TTL and those after it.
pub record_before : (p : Bytes) (m e a : ℕ) → SameOn a (m + 4) p (decay_record p m e)
unfolding decay_record
record_before p m e a = SameOn-write_before p (m + 4) _ a (m + 4) (omega arith)

pub record_after : (p : Bytes) (m e b : ℕ) → SameOn (m + 8) b p (decay_record p m e)
unfolding decay_record
record_after p m e b = SameOn-write_after p (m + 4) _ (m + 8) b (omega arith)

pub record_ttl :
    (p : Bytes) (m e : ℕ)
    → AllBytes p
    → m + 10 ≤ length p
    → rr_ttl_at (decay_record p m e) m ≡ rr_ttl_at p m - e
unfolding decay_record
record_ttl p m e h l =
    u32_at-write p (m + 4) (rr_ttl_at p m - e) (omega arith)
      (let b = u32_at-lt p (m + 4) h in omega arith)

pub record_AllBytes : (p : Bytes) (m e : ℕ) → AllBytes p → AllBytes (decay_record p m e)
unfolding decay_record
record_AllBytes p m e h = AllBytes-write p (m + 4) _ h (omega arith)

-- The end of the record is the same before and after the write.
pub record_end : (p : Bytes) (m e : ℕ) → rr_end (decay_record p m e) m ≡ rr_end p m
record_end p m e =
    rr_end_same p (decay_record p m e) m (length-decay_record p m e) (record_after p m e (length p))

-- The loop leaves what stands before its offset.
pub decay_loop_before : (n : ℕ) (p : Bytes) (o e : ℕ) → SameOn 0 o p (decay_loop n p o e)
unfolding decay_loop
decay_loop_before zero p o e i i₁ i₂ = refl
decay_loop_before (suc n) p o e i i₁ i₂ = elim (Option-cases (skip_name p o)) [
  | inl h ↦ rw (h, decay_loop)
  | inr (m, h) ↦
      let q = decay_record p m e in
      let (om, _) = skip_name_bounds p o m h in
      let step : byte q i ≡ byte p i = record_before p m e 0 i (omega arith) (omega arith) in
      elim (Option-cases (rr_end q m)) [
        | inl k ↦ rw (h, decay_loop, k) (ground arith)
        | inr (r, k) ↦
            let (_, mr, _) = rr_end_bounds q m r k in
            let rest = decay_loop_before n q r e i i₁ (omega arith) in
            rw (h, decay_loop, k) (ground arith)
      ]
]

abbrev pub less : ℕ → Option ℕ → Option ℕ
less e = Option.map (λ t. t - e)

pub note_ttl-less :
    (ty t e : ℕ) (m : Option ℕ) → note_ttl ty (t - e) (less e m) ≡ less e (note_ttl ty t m)
unfolding note_ttl
note_ttl-less ty t e none = ground arith
note_ttl-less ty t e (some c) = ground arith

-- The loop for the smallest TTL reads nothing before its offset.
pub min_ttl_loop_same :
    (n : ℕ) (p q : Bytes) (o : ℕ) (m : Option ℕ)
    → length q ≡ length p
    → SameOn o (length p) p q
    → min_ttl_loop n q o m ≡ min_ttl_loop n p o m
unfolding min_ttl_loop
min_ttl_loop_same zero p q o m l s = refl
min_ttl_loop_same (suc n) p q o m l s = elim (Option-cases (skip_name p o)) [
  | inl h ↦ rw (skip_name_same p q o l s, h)
  | inr (k, h) ↦
      let (ok, _) = skip_name_bounds p o k h in
      let s' = SameOn-shrink p q o k (length p) (length p) s (omega arith) (omega arith) in
      let e' =
        rr_end_same p q k l
          (SameOn-shrink p q k (k + 8) (length p) (length p) s' (omega arith) (omega arith)) in
      elim (Option-cases (rr_end p k)) [
        | inl d ↦ rw (skip_name_same p q o l s, h, e', d)
        | inr (r, d) ↦
            let (_, kr, rl) = rr_end_bounds p k r d in
            rw
              (
                skip_name_same p q o l s,
                h,
                e',
                d,
                u16_at_same p q k (length p) k s' (omega arith) (omega arith),
                u32_at_same p q k (length p) (k + 4) s' (omega arith) (omega arith),
              )
              (min_ttl_loop_same n p q r _ l
                (SameOn-shrink p q k r (length p) (length p) s' (omega arith) (omega arith)))
      ]
]

-- `lift` takes the difference under the outer option.
abbrev pub lift : ℕ → Option (Option ℕ) → Option (Option ℕ)
lift e = Option.map (less e)
