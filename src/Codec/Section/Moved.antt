-- ===== src/Codec/Section/Moved.antt =====
-- A record that stands in another packet, at another offset, is skipped there as well.
use cognidns_core.Prelude.{ℕ, zero, suc, ◌+◌, ◌-◌, ◌≤◌, ◌<◌, ◌≡◌, refl, ◌∙◌, some, arith, length}
use cognidns_core.Codec.Name.{skip_name_loop, skip_name}
use cognidns_core.Codec.Section.{rdlen_at, rr_end}
use cognidns_core.Codec.Bytes.{Bytes, byte, u16_at}
use cognidns_core.Codec.Name.Skip.{skip_name_loop_bounds, skip_name_loop_fuel}
use cognidns_core.Codec.Section.Skip.{rr_end_bounds}

-- `n` bytes of `p` from `a` on stand in `q` from `b` on.
abbrev pub Moved : ℕ → ℕ → ℕ → Bytes → Bytes → Type 0
Moved a b n p q = (i : ℕ) → i < n → byte q (b + i) ≡ byte p (a + i)

pub Moved-shrink :
    (p q : Bytes) (a b n k m : ℕ) → Moved a b n p q → k + m ≤ n → Moved (a + k) (b + k) m p q
Moved-shrink p q a b n k m s h i lt =
    let x : b + k + i ≡ b + (k + i) = omega arith in
    let y : a + k + i ≡ a + (k + i) = omega arith in rw (x, y) (s (k + i) (omega arith))

pub u16_at-Moved :
    (p q : Bytes) (a b n k : ℕ) → Moved a b n p q → k + 2 ≤ n → u16_at q (b + k) ≡ u16_at p (a + k)
unfolding u16_at
u16_at-Moved p q a b n k s h =
    let x : b + k + 1 ≡ b + (k + 1) = omega arith in
    let y : a + k + 1 ≡ a + (k + 1) = omega arith in
    rw (x, y, s k (omega arith), s (k + 1) (omega arith)) refl

skip_name_loop-Moved :
    (f : ℕ) (p q : Bytes) (o o' r : ℕ)
    → skip_name_loop f p o ≡ some r
    → Moved o o' (r - o) p q
    → o' + (r - o) ≤ length q
    → skip_name_loop f q o' ≡ some (o' + (r - o))
unfolding skip_name_loop
skip_name_loop-Moved zero p q o o' r e s l = cc
skip_name_loop-Moved (suc f) p q o o' r e s l =
    let len = byte p o in
    let (lo, hi) = skip_name_loop_bounds (suc f) p o r e in
    let z : o' + 0 ≡ o' = omega arith in
    let w : o + 0 ≡ o = omega arith in
    let same : byte q o' ≡ byte p o = rw (z, w) at (s 0 (omega arith)) in
    let rest : skip_name_loop f p (o + 1 + len) ≡ some r
        → skip_name_loop f q (o' + 1 + len) ≡ some (o' + (r - o)) =
      λ t.
        let (lt, _) = skip_name_loop_bounds f p (o + 1 + len) r t in
        let x : o + 1 + len ≡ o + (1 + len) = omega arith in
        let y : o' + 1 + len ≡ o' + (1 + len) = omega arith in
        let m : Moved (o + 1 + len) (o' + 1 + len) (r - (o + 1 + len)) p q =
          rw (x, y)
            (Moved-shrink p q o o' (r - o) (1 + len) (r - (o + (1 + len))) s (omega arith)) in
        let v : o' + 1 + len + (r - (o + 1 + len)) ≡ o' + (r - o) = omega arith in
        rw v at (skip_name_loop-Moved f p q (o + 1 + len) (o' + 1 + len) r t m (omega arith)) in
    let inside : skip_name_loop f p (o + 1 + len) ≡ some r → o + 1 + len < r =
      λ t. (skip_name_loop_bounds f p (o + 1 + len) r t).0 in
    rw same (ground arith)

pub skip_name-Moved :
    (p q : Bytes) (o o' r : ℕ)
    → skip_name p o ≡ some r
    → Moved o o' (r - o) p q
    → o' + (r - o) ≤ length q
    → skip_name q o' ≡ some (o' + (r - o))
unfolding skip_name
skip_name-Moved p q o o' r e s l =
    let f = length p + length q + 1 in
    skip_name_loop_fuel (length q + 1) f q o' (omega arith) (omega arith)
    ∙ skip_name_loop-Moved f p q o o' r
        (skip_name_loop_fuel f (length p + 1) p o (omega arith) (omega arith) ∙ e) s l

pub rr_end-Moved :
    (p q : Bytes) (k k' m : ℕ)
    → rr_end p k ≡ some m
    → Moved k k' (m - k) p q
    → k' + (m - k) ≤ length q
    → rr_end q k' ≡ some (k' + (m - k))
rr_end-Moved p q k k' m e s l =
    let (eq, lo, hi) = rr_end_bounds p k m e in
    let same : rdlen_at q k' ≡ rdlen_at p k = u16_at-Moved p q k k' (m - k) 8 s (omega arith) in
    unfold rr_end in (ground arith)
