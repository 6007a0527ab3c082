-- ===== src/Codec/Name/Agree.antt =====
-- `skip_name` and `parse_name` agree on where a name ends.
use cognidns_core.Prelude.{
  ℕ, zero, suc, ◌+◌, ◌-◌, ◌≤◌, ◌<◌, ◌≡◌, ap, ◌∙◌, inl, inr, Option, some, List, [], ◌∷◌, ◌++◌,
  arith, leb, Bool-cases, >>=-eq-some, length,
}
use cognidns_core.Codec.Name.{
  skip_name_loop, skip_name, parse_labels, parse_name_with_depth, parse_name,
}
use cognidns_core.Codec.Text.{join_dots}
use cognidns_core.Codec.Bytes.{Bytes, byte, slice}
use cognidns_core.Codec.Name.Skip.{skip_name_bounds}

skip-parse_labels :
    (follow : ℕ → Option (Bytes × ℕ)) (f : ℕ) (p : Bytes) (o : ℕ) (acc ls : List Bytes) (c c' : ℕ)
    → parse_labels follow f p o acc c ≡ some (ls, c')
    → (skip_name_loop f p o ≡ some (o + c' - c)) × (c < c')
unfolding skip_name_loop parse_labels
skip-parse_labels follow zero p o acc ls c c' e = cc
skip-parse_labels follow (suc f) p o acc ls c c' e =
    let len = byte p o in
    ground (
      arith,
      skip-parse_labels follow f p (o + 1 + len) (acc ++ (slice p (o + 1) (o + 1 + len) ∷ [])) ls
          (c + 1 + len) c',
    )

parse_name_with_depth-inv :
    (n : ℕ) (p : Bytes) (o : ℕ) (name : Bytes) (c : ℕ)
    → parse_name_with_depth (suc n) p o ≡ some (name, c)
    → (ls : List Bytes) × (parse_labels (parse_name_with_depth n p) (length p + 1) p o [] 0
        ≡ some (ls, c))
      × (name ≡ join_dots ls)
unfolding parse_name_with_depth
parse_name_with_depth-inv n p o name c e = elim (Bool-cases (leb (length p) o)) [
  | inl out ↦ cc (rw (out, parse_name_with_depth) at e)
  | inr inside ↦
      let e' = rw (inside, parse_name_with_depth) at e in
      let ((ls, k), el, er) =
        >>=-eq-some (parse_labels (parse_name_with_depth n p) (length p + 1) p o [] 0) _ e' in
      (ls, ground arith, ground arith)
]

-- A name that is parsed is skipped in the same bytes: where `parse_name` succeeds, `skip_name`
-- ends behind the bytes that it consumed, which are one at least and lie in the packet.
pub skip_name-parse_name :
    (p : Bytes) (o : ℕ) (name : Bytes) (consumed : ℕ)
    → parse_name p o ≡ some (name, consumed)
    → (skip_name p o ≡ some (o + consumed)) × (0 < consumed) × (o + consumed ≤ length p)
unfolding parse_name
skip_name-parse_name p o name c e =
    let (ls, el, _) = parse_name_with_depth-inv 16 p o name c e in
    let (s, lt) = skip-parse_labels (parse_name_with_depth 16 p) (length p + 1) p o [] ls 0 c el in
    let s' : skip_name p o ≡ some (o + c) =
      unfold skip_name in (s ∙ ap some (let x : o + c - 0 ≡ o + c = omega arith in x)) in
    (s', lt, (skip_name_bounds p o (o + c) s').1)
