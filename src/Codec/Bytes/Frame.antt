-- ===== src/Codec/Bytes/Frame.antt =====
-- Two packets that agree on a range of positions, as a write to another place or bytes added at
-- the end leave them.
use cognidns_core.Prelude.{
  ℕ, zero, suc, ◌+◌, ◌-◌, ◌≤◌, ◌<◌, ◌≡◌, refl, sym, ◌∙◌, [], ◌∷◌, ◌++◌, arith, length, take, drop,
  get_or-append_left, get_or-append_right,
}
use cognidns_core.Codec.Bytes.{
  Bytes, byte, u16_at, u32_at, write, slice, byte-write_before, byte-write_after,
}

-- `q` holds at `from`, …, `to - 1` what `p` holds there.
abbrev pub SameOn : ℕ → ℕ → Bytes → Bytes → Type 0
SameOn from to p q = (i : ℕ) → from ≤ i → i < to → byte q i ≡ byte p i

pub SameOn-shrink : (p q : Bytes) (a b c d : ℕ) → SameOn a d p q → a ≤ b → c ≤ d → SameOn b c p q
SameOn-shrink p q a b c d h l r i i₁ i₂ = h i (omega arith) (omega arith)

pub SameOn-sym : (p q : Bytes) (a b : ℕ) → SameOn a b p q → SameOn a b q p
SameOn-sym p q a b h i i₁ i₂ = sym (h i i₁ i₂)

pub SameOn-trans : (p q r : Bytes) (a b : ℕ) → SameOn a b p q → SameOn a b q r → SameOn a b p r
SameOn-trans p q r a b h k i i₁ i₂ = k i i₁ i₂ ∙ h i i₁ i₂

pub SameOn-append : (p t : Bytes) (a : ℕ) → SameOn a (length p) p (p ++ t)
SameOn-append p t a i i₁ i₂ = get_or-append_left p t i 0 i₂

pub SameOn-write_before :
    (p : Bytes) (o : ℕ) (bs : Bytes) (a b : ℕ) → b ≤ o → SameOn a b p (write p o bs)
SameOn-write_before p o bs a b h i i₁ i₂ = byte-write_before p o bs i (omega arith)

pub SameOn-write_after :
    (p : Bytes) (o : ℕ) (bs : Bytes) (a b : ℕ) → o + length bs ≤ a → SameOn a b p (write p o bs)
SameOn-write_after p o bs a b h i i₁ i₂ = byte-write_after p o bs i (omega arith)

pub u16_at_same :
    (p q : Bytes) (a b o : ℕ) → SameOn a b p q → a ≤ o → o + 2 ≤ b → u16_at q o ≡ u16_at p o
unfolding u16_at
u16_at_same p q a b o h l r =
    let x = h o (omega arith) (omega arith) in
    let y = h (o + 1) (omega arith) (omega arith) in omega arith

pub u32_at_same :
    (p q : Bytes) (a b o : ℕ) → SameOn a b p q → a ≤ o → o + 4 ≤ b → u32_at q o ≡ u32_at p o
unfolding u32_at
u32_at_same p q a b o h l r =
    let x = h o (omega arith) (omega arith) in
    let y = h (o + 1) (omega arith) (omega arith) in
    let z = h (o + 2) (omega arith) (omega arith) in
    let w = h (o + 3) (omega arith) (omega arith) in omega arith

pub drop-write :
    (p : Bytes) (o : ℕ) (bs : Bytes) (n : ℕ) → o + length bs ≤ n → drop n (write p o bs) ≡ drop n p
unfolding write
drop-write [] o bs n h = refl
drop-write (x ∷ xs) zero [] n h = refl
drop-write (x ∷ xs) zero (b ∷ bs) zero h = absurd (omega arith)
drop-write (x ∷ xs) zero (b ∷ bs) (suc n) h = drop-write xs zero bs n (omega arith)
drop-write (x ∷ xs) (suc o) bs zero h = absurd (omega arith)
drop-write (x ∷ xs) (suc o) bs (suc n) h = drop-write xs o bs n (omega arith)

pub drop-append_left : (p t : Bytes) (n : ℕ) → n ≤ length p → drop n (p ++ t) ≡ drop n p ++ t
drop-append_left p t zero h = refl
drop-append_left [] t (suc n) h = absurd (omega arith)
drop-append_left (x ∷ p) t (suc n) h = drop-append_left p t n (omega arith)

take-nil : (k : ℕ) → take {A = ℕ} k [] ≡ []
take-nil zero = refl
take-nil (suc k) = refl

pub drop-take : (p : Bytes) (m n : ℕ) → drop m (take n p) ≡ slice p m n
drop-take p zero n = let e : n - 0 ≡ n = omega arith in rw e refl
drop-take p (suc m) zero = let e : 0 - suc m ≡ 0 = omega arith in rw e refl
drop-take [] (suc m) (suc n) =
    let e : suc n - suc m ≡ n - m = omega arith in rw e (sym (take-nil (n - m)))
drop-take (x ∷ p) (suc m) (suc n) =
    let e : suc n - suc m ≡ n - m = omega arith in rw e (drop-take p m n)

pub drop-append_right : (p t : Bytes) (n : ℕ) → drop (length p + n) (p ++ t) ≡ drop n t
drop-append_right [] t n = let e : 0 + n ≡ n = omega arith in rw e
drop-append_right (x ∷ p) t n =
    let e : suc (length p) + n ≡ suc (length p + n) = omega arith in rw e (drop-append_right p t n)

pub byte-append_right : (p t : Bytes) (i : ℕ) → byte (p ++ t) (length p + i) ≡ byte t i
byte-append_right p t i =
    let e : length p + i - length p ≡ i = omega arith in
    rw e at (get_or-append_right p t (length p + i) 0 (omega arith))

pub u16_at-append_right : (p t : Bytes) (i : ℕ) → u16_at (p ++ t) (length p + i) ≡ u16_at t i
unfolding u16_at
u16_at-append_right p t i =
    let a = byte-append_right p t i in
    let b = byte-append_right p t (i + 1) in
    let e : length p + (i + 1) ≡ length p + i + 1 = omega arith in rw (a, ← e, b)

pub slice-append_right :
    (p t : Bytes) (i n : ℕ) → slice (p ++ t) (length p + i) (length p + i + n) ≡ take n (drop i t)
slice-append_right p t i n =
    let e : length p + i + n - (length p + i) ≡ n = omega arith in rw (e, drop-append_right p t i)
