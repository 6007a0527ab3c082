-- ===== src/Codec/Name/Skip.antt =====
-- `skip_name`: its bounds, its fuel, and which bytes it reads.
use cognidns_core.Prelude.{
  ℕ, zero, suc, ◌+◌, ◌≤◌, ◌<◌, ◌≡◌, refl, ◌∙◌, false, some, arith, leb, length,
}
use cognidns_core.Codec.Name.{skip_name_loop, skip_name}
use cognidns_core.Codec.Bytes.{Bytes, byte}
use cognidns_core.Codec.Bytes.Frame.{SameOn, SameOn-shrink}

pub skip_name_loop_bounds :
    (f : ℕ) (p : Bytes) (o r : ℕ) → skip_name_loop f p o ≡ some r → (o < r) × (r ≤ length p)
unfolding skip_name_loop
skip_name_loop_bounds zero p o r e = cc
skip_name_loop_bounds (suc f) p o r e =
    ground (arith, skip_name_loop_bounds f p (o + 1 + byte p o) r)

-- Two amounts of fuel over the number of bytes behind the offset give the same result.
pub skip_name_loop_fuel :
    (f g : ℕ) (p : Bytes) (o : ℕ)
    → length p < o + f
    → length p < o + g
    → skip_name_loop f p o ≡ skip_name_loop g p o
unfolding skip_name_loop
skip_name_loop_fuel zero zero p o h k = refl
skip_name_loop_fuel zero (suc g) p o h k = ground arith
skip_name_loop_fuel (suc f) zero p o h k = ground arith
skip_name_loop_fuel (suc f) (suc g) p o h k =
    ground (arith, skip_name_loop_fuel f g p (o + 1 + byte p o))

skip_name_loop_frame :
    (f : ℕ) (p q : Bytes) (o r : ℕ)
    → skip_name_loop f p o ≡ some r
    → SameOn o r p q
    → length p ≤ length q
    → skip_name_loop f q o ≡ some r
unfolding skip_name_loop
skip_name_loop_frame zero p q o r e s l = cc
skip_name_loop_frame (suc f) p q o r e s l =
    let len = byte p o in
    let (lo, hi) = skip_name_loop_bounds (suc f) p o r e in
    let same : byte q o ≡ byte p o = s o (omega arith) lo in
    let rest : skip_name_loop f p (o + 1 + len) ≡ some r
        → skip_name_loop f q (o + 1 + len) ≡ some r =
      λ t.
        skip_name_loop_frame f p q (o + 1 + len) r t
          (SameOn-shrink p q o (o + 1 + len) r r s (omega arith) (omega arith)) l in
    rw same (ground arith)

pub skip_name_bounds : (p : Bytes) (o r : ℕ) → skip_name p o ≡ some r → (o < r) × (r ≤ length p)
unfolding skip_name
skip_name_bounds p o r e = skip_name_loop_bounds (length p + 1) p o r e

pub skip_name_frame :
    (p q : Bytes) (o r : ℕ)
    → skip_name p o ≡ some r
    → SameOn o r p q
    → length p ≤ length q
    → skip_name q o ≡ some r
unfolding skip_name
skip_name_frame p q o r e s l =
    skip_name_loop_frame (length q + 1) p q o r
      (skip_name_loop_fuel (length q + 1) (length p + 1) p o (omega arith) (omega arith) ∙ e) s l

-- The root name takes one byte.
skip_name_loop_root :
    (f : ℕ) (p : Bytes) (o : ℕ)
    → byte p o ≡ 0
    → o < length p
    → skip_name_loop (suc f) p o ≡ some (o + 1)
unfolding skip_name_loop
skip_name_loop_root f p o z h = let t : leb (length p) o ≡ false = ground arith in rw (z, t)

pub skip_name_root :
    (p : Bytes) (o : ℕ) → byte p o ≡ 0 → o < length p → skip_name p o ≡ some (o + 1)
unfolding skip_name
skip_name_root p o z h =
    skip_name_loop_fuel (length p + 1) (suc (length p)) p o (omega arith) (omega arith)
    ∙ skip_name_loop_root (length p) p o z h
