-- ===== src/Codec/Edns/Append.antt =====
-- The OPT record that `append_edns_opt_with_options` adds is the one that `extract_edns_opt`
-- finds.
use cognidns_core.Prelude.{
  ℕ, zero, suc, ◌≤◌, ◌≡◌, ◌∙◌, inl, inr, false, none, some, arith, ◌==◌, Bool-cases, >>=-eq-some,
  length,
}
use cognidns_core.Codec.Name.{skip_name}
use cognidns_core.Codec.Edns.{find_opt}
use cognidns_core.Codec.Section.{rr_type_at, rr_end, skip_rr, skip_rrs}
use cognidns_core.Codec.Bytes.{Bytes}
use cognidns_core.Codec.Name.Skip.{skip_name_bounds, skip_name_frame}
use cognidns_core.Codec.Section.Skip.{rr_end_bounds, rr_end_frame, skip_rrs-inv, skip_rrs_bounds}
use cognidns_core.Codec.Bytes.Frame.{SameOn, SameOn-shrink, u16_at_same}

-- The parts of one record that is no OPT record, from a search that finds none.
pub find_opt-inv :
    (n : ℕ) (p : Bytes) (o k m : ℕ)
    → skip_name p o ≡ some k
    → rr_end p k ≡ some m
    → find_opt (suc n) p o ≡ none
    → ((rr_type_at p k == 41) ≡ false) × (find_opt n p m ≡ none)
unfolding find_opt
find_opt-inv n p o k m ek em h = elim (Bool-cases (rr_type_at p k == 41)) [
  | inl opt ↦ cc (rw (ek, em, opt) at h)
  | inr other ↦ (other, rw (ek, em, other) at h)
]

pub find_opt_step :
    (n : ℕ) (p : Bytes) (o k m : ℕ)
    → skip_name p o ≡ some k
    → rr_end p k ≡ some m
    → (rr_type_at p k == 41) ≡ false
    → find_opt (suc n) p o ≡ find_opt n p m
unfolding find_opt
find_opt_step n p o k m ek em t = rw (ek, em, t)

pub find_opt_here :
    (n : ℕ) (p : Bytes) (o k m : ℕ)
    → skip_name p o ≡ some k
    → rr_end p k ≡ some m
    → rr_type_at p k ≡ 41
    → find_opt (suc n) p o ≡ some (o, k, m)
unfolding find_opt
find_opt_here n p o k m ek em t = rw (ek, em, t)

skip_rr-inv :
    (p : Bytes) (o m : ℕ)
    → skip_rr p o ≡ some m
    → (k : ℕ) × (skip_name p o ≡ some k) × (rr_end p k ≡ some m)
unfolding skip_rr
skip_rr-inv p o m e = >>=-eq-some (skip_name p o) (λ k. rr_end p k) e

-- The search goes past records among which it finds none.
pub find_opt_past :
    (n : ℕ) (p q : Bytes) (o e : ℕ)
    → skip_rrs n p o ≡ some e
    → find_opt n p o ≡ none
    → SameOn o e p q
    → length p ≤ length q
    → find_opt (suc n) q o ≡ find_opt 1 q e
find_opt_past zero p q o e h f s l = unfold skip_rrs in (ground arith)
find_opt_past (suc n) p q o e h f s l =
    let (m, em, er) = skip_rrs-inv n p o e h in
    let (k, ek, ez) = skip_rr-inv p o m em in
    let (ok, _) = skip_name_bounds p o k ek in
    let (_, km, _) = rr_end_bounds p k m ez in
    let (me, _) = skip_rrs_bounds n p m e er in
    let (t, f') = find_opt-inv n p o k m ek ez f in
    let ek' =
      skip_name_frame p q o k ek (SameOn-shrink p q o o k e s (omega arith) (omega arith)) l in
    let ez' = rr_end_frame p q k m ez (SameOn-shrink p q o k m e s (omega arith) (omega arith)) l in
    let t' : (rr_type_at q k == 41) ≡ false =
      rw (u16_at_same p q o e k s (omega arith) (omega arith)) t in
    find_opt_step (suc n) q o k m ek' ez' t'
    ∙ find_opt_past n p q m e er f' (SameOn-shrink p q o m e e s (omega arith) (omega arith)) l
