-- ===== src/Codec/Bytes.antt =====
-- Byte slices and vectors of src/codec/dns.rs: indexed reads, big-endian words and
-- `copy_from_slice`. Rust's `packet[i]` panics out of range; every read of the codec stands
-- behind a test of the length, and here a read out of range gives 0.
pub mod All
pub mod Frame
use cognidns_core.Prelude.{
  ℕ, zero, suc, ◌+◌, ◌-◌, ◌*◌, ◌/◌, ◌%◌, ◌≤◌, ◌<◌, ◌≡◌, refl, ap, List, [], ◌∷◌, arith, length,
  get_or, take, drop,
}

abbrev pub Bytes : Type 0
Bytes = List ℕ

abbrev pub IsByte : ℕ → Type 0
IsByte b = b < 256

abbrev pub byte : Bytes → ℕ → ℕ
byte p i = get_or p i 0

-- `u16::from_be_bytes([p[o], p[o + 1]])`
unfoldable pub u16_at : Bytes → ℕ → ℕ
u16_at p o = byte p o * 256 + byte p (o + 1)

-- `u32::from_be_bytes([p[o], …, p[o + 3]])`
unfoldable pub u32_at : Bytes → ℕ → ℕ
u32_at p o = byte p o * 16777216 + byte p (o + 1) * 65536 + byte p (o + 2) * 256 + byte p (o + 3)

-- `v.to_be_bytes()` of a u16 and of a u32
abbrev pub be16 : ℕ → Bytes
be16 v = v / 256 % 256 ∷ v % 256 ∷ []

abbrev pub be32 : ℕ → Bytes
be32 v = v / 16777216 % 256 ∷ v / 65536 % 256 ∷ v / 256 % 256 ∷ v % 256 ∷ []

-- `p[o..o + bs.len()].copy_from_slice(bs)`
unfoldable pub write : Bytes → ℕ → Bytes → Bytes
write [] o bs = []
write (x ∷ xs) zero [] = x ∷ xs
write (x ∷ xs) zero (b ∷ bs) = b ∷ write xs zero bs
write (x ∷ xs) (suc o) bs = x ∷ write xs o bs

-- `&p[from..to]`
abbrev pub slice : Bytes → ℕ → ℕ → Bytes
slice p from to = take (to - from) (drop from p)

pub length-write : (p : Bytes) (o : ℕ) (bs : Bytes) → length (write p o bs) ≡ length p
unfolding write
length-write [] o bs = refl
length-write (x ∷ xs) zero [] = refl
length-write (x ∷ xs) zero (b ∷ bs) = ap suc (length-write xs zero bs)
length-write (x ∷ xs) (suc o) bs = ap suc (length-write xs o bs)

-- What a read sees after a write.
pub byte-write_before :
    (p : Bytes) (o : ℕ) (bs : Bytes) (i : ℕ) → i < o → byte (write p o bs) i ≡ byte p i
unfolding write
byte-write_before [] o bs i h = refl
byte-write_before (x ∷ xs) zero bs i h = absurd (omega arith)
byte-write_before (x ∷ xs) (suc o) bs zero h = refl
byte-write_before (x ∷ xs) (suc o) bs (suc i) h = byte-write_before xs o bs i (omega arith)

pub byte-write_after :
    (p : Bytes) (o : ℕ) (bs : Bytes) (i : ℕ) → o + length bs ≤ i → byte (write p o bs) i ≡ byte p i
unfolding write
byte-write_after [] o bs i h = refl
byte-write_after (x ∷ xs) zero [] i h = refl
byte-write_after (x ∷ xs) zero (b ∷ bs) zero h = absurd (omega arith)
byte-write_after (x ∷ xs) zero (b ∷ bs) (suc i) h = byte-write_after xs zero bs i (omega arith)
byte-write_after (x ∷ xs) (suc o) bs zero h = absurd (omega arith)
byte-write_after (x ∷ xs) (suc o) bs (suc i) h = byte-write_after xs o bs i (omega arith)

pub byte-write_in :
    (p : Bytes) (o : ℕ) (bs : Bytes) (i : ℕ)
    → i < length bs
    → o + i < length p
    → byte (write p o bs) (o + i) ≡ byte bs i
unfolding write
byte-write_in [] o bs i h k = absurd (omega arith)
byte-write_in (x ∷ xs) zero [] i h k = absurd (omega arith)
byte-write_in (x ∷ xs) zero (b ∷ bs) zero h k = refl
byte-write_in (x ∷ xs) zero (b ∷ bs) (suc i) h k =
    let e : 0 + suc i ≡ suc (0 + i) = omega arith in
    rw e (byte-write_in xs zero bs i (omega arith) (omega arith))
byte-write_in (x ∷ xs) (suc o) bs i h k =
    let e : suc o + i ≡ suc (o + i) = omega arith in rw e (byte-write_in xs o bs i h (omega arith))

-- A word that is written is read back.
pub u16_at-write :
    (p : Bytes) (o v : ℕ) → o + 2 ≤ length p → v < 65536 → u16_at (write p o (be16 v)) o ≡ v
unfolding u16_at
u16_at-write p o v h k =
    let e : o + 0 ≡ o = omega arith in
    let a : byte (write p o (be16 v)) o ≡ v / 256 % 256 =
      rw e at (byte-write_in p o (be16 v) 0 (omega arith) (omega arith)) in
    let b : byte (write p o (be16 v)) (o + 1) ≡ v % 256 =
      byte-write_in p o (be16 v) 1 (omega arith) (omega arith) in
    omega arith

pub u32_at-write :
    (p : Bytes) (o v : ℕ) → o + 4 ≤ length p → v < 4294967296 → u32_at (write p o (be32 v)) o ≡ v
unfolding u32_at
u32_at-write p o v h k =
    let e : o + 0 ≡ o = omega arith in
    let a : byte (write p o (be32 v)) o ≡ v / 16777216 % 256 =
      rw e at (byte-write_in p o (be32 v) 0 (omega arith) (omega arith)) in
    let b : byte (write p o (be32 v)) (o + 1) ≡ v / 65536 % 256 =
      byte-write_in p o (be32 v) 1 (omega arith) (omega arith) in
    let c : byte (write p o (be32 v)) (o + 2) ≡ v / 256 % 256 =
      byte-write_in p o (be32 v) 2 (omega arith) (omega arith) in
    let d : byte (write p o (be32 v)) (o + 3) ≡ v % 256 =
      byte-write_in p o (be32 v) 3 (omega arith) (omega arith) in
    omega arith
