-- ===== src/Codec/Name/Ends.antt =====
-- The loop of `skip_name` ends: its rounds as a relation without fuel.
use cognidns_core.Prelude.{
  ℕ, zero, suc, ◌+◌, ◌≤◌, ◌<◌, ◌≡◌, ◌≢◌, inl, inr, true, false, Option, none, some, arith, ltb, leb,
  ◌==◌, Bool-cases, length,
}
use cognidns_core.Codec.Name.{is_pointer, skip_name_loop, skip_name}
use cognidns_core.Codec.Bytes.{Bytes, byte}

-- What the loop gives from an offset, by the rounds that lead there.
pub data Skips (p : Bytes) : ℕ → Option ℕ → Type 0 where
  past_end : (o : ℕ) → length p ≤ o → Skips p o none
  cut_pointer :
      (o : ℕ) → o < length p → is_pointer (byte p o) ≡ true → length p ≤ o + 1 → Skips p o none
  pointer : (o : ℕ) → o + 1 < length p → is_pointer (byte p o) ≡ true → Skips p o (some (o + 2))
  root_label : (o : ℕ) → o < length p → byte p o ≡ 0 → Skips p o (some (o + 1))
  cut_label :
      (o : ℕ)
      → o < length p
      → is_pointer (byte p o) ≡ false
      → byte p o ≢ 0
      → length p < o + 1 + byte p o
      → Skips p o none
  next_label :
      (o : ℕ) {r : Option ℕ}
      → o < length p
      → is_pointer (byte p o) ≡ false
      → byte p o ≢ 0
      → o + 1 + byte p o ≤ length p
      → Skips p (o + 1 + byte p o) r
      → Skips p o r

skip_name_loop-Skips :
    (f : ℕ) (p : Bytes) (o : ℕ) → length p < o + f → Skips p o (skip_name_loop f p o)
unfolding skip_name_loop
skip_name_loop-Skips zero p o h = past_end o (omega arith)
skip_name_loop-Skips (suc f) p o h = elim (Bool-cases (leb (length p) o)) [
  | inl t ↦ rw t (past_end o (ground arith))
  | inr t ↦ elim (Bool-cases (is_pointer (byte p o))) [
    | inl u ↦ elim (Bool-cases (leb (length p) (o + 1))) [
      | inl v ↦ rw (t, u, v) (cut_pointer o (ground arith) u (ground arith))
      | inr v ↦ rw (t, u, v) (pointer o (ground arith) u)
    ]
    | inr u ↦ elim (Bool-cases (byte p o == 0)) [
      | inl v ↦ rw (t, u, v) (root_label o (ground arith) (ground arith))
      | inr v ↦ elim (Bool-cases (ltb (length p) (o + 1 + byte p o))) [
        | inl w ↦ rw (t, u, v, w) (cut_label o (ground arith) u (λ e. ground arith) (ground arith))
        | inr w ↦
            rw (t, u, v, w)
              (next_label o (ground arith) u (λ e. ground arith) (ground arith)
                (skip_name_loop-Skips f p (o + 1 + byte p o) (omega arith)))
      ]
    ]
  ]
]

-- From every offset the loop of `skip_name` ends after finitely many rounds, and what it then gives
-- is the result of `skip_name`; in particular the fuel never runs out.
pub skip_name-Skips : (p : Bytes) (o : ℕ) → Skips p o (skip_name p o)
unfolding skip_name
skip_name-Skips p o = skip_name_loop-Skips (length p + 1) p o (omega arith)
