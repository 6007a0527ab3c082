-- ===== src/Codec/Bytes/All.antt =====
-- Packets all of whose positions hold bytes.
use cognidns_core.Prelude.{
  ℕ, zero, suc, ◌+◌, ◌<◌, ◌≡◌, inl, inr, Bool, true, ◌&&◌, [], ◌∷◌, arith, ltb, Bool-cases, All,
}
use cognidns_core.Codec.Bytes.{Bytes, IsByte, byte, u16_at, u32_at, write}

-- Every position holds a byte.
abbrev pub AllBytes : Bytes → Type 0
AllBytes p = (i : ℕ) → byte p i < 256

pub AllBytes-of_All : (p : Bytes) → All IsByte p → AllBytes p
AllBytes-of_All [] h i = omega arith
AllBytes-of_All (b ∷ p) h zero = h.0
AllBytes-of_All (b ∷ p) h (suc i) = AllBytes-of_All p h.1 i

pub AllBytes-write :
    (p : Bytes) (o : ℕ) (bs : Bytes) → AllBytes p → All IsByte bs → AllBytes (write p o bs)
unfolding write
AllBytes-write [] o bs h k i = h i
AllBytes-write (x ∷ xs) zero [] h k i = h i
AllBytes-write (x ∷ xs) zero (b ∷ bs) h k zero = k.0
AllBytes-write (x ∷ xs) zero (b ∷ bs) h k (suc i) = AllBytes-write xs zero bs (λ j. h (suc j)) k.1 i
AllBytes-write (x ∷ xs) (suc o) bs h k zero = h 0
AllBytes-write (x ∷ xs) (suc o) bs h k (suc i) = AllBytes-write xs o bs (λ j. h (suc j)) k i

pub u32_at-lt : (p : Bytes) (o : ℕ) → AllBytes p → u32_at p o < 4294967296
unfolding u32_at
u32_at-lt p o h =
    let a = h o in let b = h (o + 1) in let c = h (o + 2) in let d = h (o + 3) in omega arith

pub u16_at-lt : (p : Bytes) (o : ℕ) → AllBytes p → u16_at p o < 65536
unfolding u16_at
u16_at-lt p o h = let a = h o in let b = h (o + 1) in omega arith

-- A test that a packet consists of bytes.
abbrev pub all_bytes : Bytes → Bool
all_bytes [] = true
all_bytes (b ∷ p) = ltb b 256 && all_bytes p

pub all_bytes_sound : (p : Bytes) → all_bytes p ≡ true → All IsByte p
all_bytes_sound [] h = tt
all_bytes_sound (b ∷ p) h = elim (Bool-cases (ltb b 256)) [
  | inl t ↦ (ground arith, all_bytes_sound p (rw t at h))
  | inr t ↦ cc (rw t at h)
]
