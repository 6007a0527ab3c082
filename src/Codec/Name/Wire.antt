-- ===== src/Codec/Name/Wire.antt =====
-- The labels of a name on the wire, as `encode_name` writes them and `parse_name` reads them.
use cognidns_core.Prelude.{
  holds_below, ℕ, zero, suc, ◌+◌, ◌-◌, ◌≤◌, ◌<◌, ◌≡◌, refl, sym, ap, ◌∙◌, inl, inr, Bool, true,
  false, not, ◌||◌, Option, some, List, [], ◌∷◌, ◌++◌, append_assoc, append-nil, arith, ltb, leb,
  ◌==◌, Bool-cases, holds_below_sound, length, drop, All, length-append, take-append,
}
use cognidns_core.Codec.Name.{is_pointer, parse_labels, encode_labels}
use cognidns_core.Codec.Text.{is_utf8}
use cognidns_core.Codec.Bytes.{Bytes, byte, slice}

-- A length byte and the label, label by label, and a zero byte at the end.
unfoldable pub wire : List Bytes → Bytes
wire [] = 0 ∷ []
wire (l ∷ ls) = (length l ∷ l) ++ wire ls

abbrev pub IsLabel : Bytes → Type 0
IsLabel l = (0 < length l) × (length l ≤ 63)

abbrev pub IsUtf8 : Bytes → Type 0
IsUtf8 l = is_utf8 l ≡ true

-- What the loop of `encode_name` leaves in the buffer when it takes every label.
pub encode_labels-wire :
    (ls : List Bytes) (out w : Bytes)
    → encode_labels ls out ≡ (w, true)
    → (w ≡ out ++ wire ls) × All IsLabel ls
unfolding encode_labels wire
encode_labels-wire [] out w e = (ground arith, tt)
encode_labels-wire (l ∷ ls) out w e =
    let head = length l ∷ l in
    elim (Bool-cases (length l == 0 || ltb 63 (length l))) [
      | inl bad ↦ cc (rw (bad, encode_labels) at e)
      | inr good ↦
          let (eq, ok) = encode_labels-wire ls (out ++ head) w (rw (good, encode_labels) at e) in
          (eq ∙ append_assoc out head (wire ls), (ground arith, ok))
    ]

small_table : holds_below (λ b. not (is_pointer b)) 64 ≡ true
unfolding holds_below is_pointer
small_table = refl

-- A length byte of a label is no compression pointer.
pub is_pointer-small : (b : ℕ) → b < 64 → is_pointer b ≡ false
is_pointer-small b h =
    not-true (holds_below_sound (λ x. not (is_pointer x)) 64 {i = b} h small_table)
  where
    not-true : {c : Bool} → not c ≡ true → c ≡ false
    not-true {c} k = ground arith

pub byte-middle : (pre rest : Bytes) (b : ℕ) → byte (pre ++ (b ∷ rest)) (length pre) ≡ b
byte-middle [] rest b = refl
byte-middle (x ∷ pre) rest b = byte-middle pre rest b

drop-middle : (pre t : Bytes) (b : ℕ) → drop (length pre + 1) (pre ++ (b ∷ t)) ≡ t
drop-middle [] t b = refl
drop-middle (x ∷ pre) t b =
    let e : suc (length pre) + 1 ≡ suc (length pre + 1) = omega arith in rw e (drop-middle pre t b)

pub slice-middle :
    (pre l rest : Bytes) (b : ℕ)
    → slice (pre ++ (b ∷ (l ++ rest))) (length pre + 1) (length pre + 1 + length l) ≡ l
slice-middle pre l rest b =
    let e : length pre + 1 + length l - (length pre + 1) ≡ length l = omega arith in
    rw (e, drop-middle pre (l ++ rest) b) (take-append l rest)

-- One label that the loop of `parse_name` reads.
parse_labels_step :
    (follow : ℕ → Option (Bytes × ℕ)) (f : ℕ) (pre l rest : Bytes) (acc : List Bytes) (c : ℕ)
    → IsLabel l
    → IsUtf8 l
    → parse_labels follow (suc f) (pre ++ (length l ∷ (l ++ rest))) (length pre) acc c
      ≡ parse_labels follow f
          (pre ++ (length l ∷ (l ++ rest)))
          (length pre + 1 + length l)
          (acc ++ (l ∷ []))
          (c + 1 + length l)
unfolding parse_labels
parse_labels_step follow f pre l rest acc c (lo, hi) u =
    let p = pre ++ (length l ∷ (l ++ rest)) in
    let b = byte-middle pre (l ++ rest) (length l) in
    let s = slice-middle pre l rest (length l) in
    let n : length p ≡ length pre + suc (length l + length rest) =
      length-append pre (length l ∷ (l ++ rest))
      ∙ ap (λ x. length pre + suc x) (length-append l rest) in
    let ptr = is_pointer-small (length l) (omega arith) in
    let t₁ : leb (length p) (length pre) ≡ false = ground arith in
    let t₂ : (length l == 0) ≡ false = ground arith in
    let t₃ : ltb (length p) (length pre + 1 + length l) ≡ false = ground arith in
    rw (b, s, u, t₁, ptr, t₂, t₃)

parse_labels_end :
    (follow : ℕ → Option (Bytes × ℕ)) (f : ℕ) (pre rest : Bytes) (acc : List Bytes) (c : ℕ)
    → parse_labels follow (suc f) (pre ++ (0 ∷ rest)) (length pre) acc c ≡ some (acc, c + 1)
unfolding parse_labels
parse_labels_end follow f pre rest acc c =
    let b = byte-middle pre rest 0 in
    let n : length (pre ++ (0 ∷ rest)) ≡ length pre + suc (length rest) =
      length-append pre (0 ∷ rest) in
    let t₁ : leb (length (pre ++ (0 ∷ rest))) (length pre) ≡ false = ground arith in rw (b, t₁)

-- The loop reads the labels that stand at its offset.
pub parse_labels-wire :
    (follow : ℕ → Option (Bytes × ℕ)) (ls : List Bytes) (f : ℕ) (p pre rest : Bytes) (o : ℕ)
    (acc : List Bytes) (c : ℕ)
    → All IsLabel ls
    → All IsUtf8 ls
    → length ls < f
    → o ≡ length pre
    → p ≡ pre ++ (wire ls ++ rest)
    → parse_labels follow f p o acc c ≡ some (acc ++ ls, c + length (wire ls))
unfolding wire
parse_labels-wire follow [] zero p pre rest o acc c v u h e q = absurd (omega arith)
parse_labels-wire follow [] (suc f) p pre rest o acc c v u h e q =
    rw (q, e, append-nil acc) (parse_labels_end follow f pre rest acc c)
parse_labels-wire follow (l ∷ ls) zero p pre rest o acc c v u h e q = absurd (omega arith)
parse_labels-wire follow (l ∷ ls) (suc f) p pre rest o acc c v u h e q =
    let head = length l ∷ l in
    let q' : p ≡ pre ++ (length l ∷ (l ++ (wire ls ++ rest))) =
      q ∙ ap (λ x. pre ++ (length l ∷ x)) (append_assoc l (wire ls) rest) in
    let q'' : p ≡ (pre ++ head) ++ (wire ls ++ rest) =
      q' ∙ sym (append_assoc pre head (wire ls ++ rest)) in
    let ih =
      parse_labels-wire follow ls f p (pre ++ head) rest (length pre + 1 + length l)
        (acc ++ (l ∷ [])) (c + 1 + length l) v.1 u.1 (omega arith)
        (omega (arith, length-append pre head)) q'' in
    let n : c + 1 + length l + length (wire ls) ≡ c + length (wire (l ∷ ls)) =
      omega (arith, length-append l (wire ls)) in
    let step = parse_labels_step follow f pre l (wire ls ++ rest) acc c v.0 u.0 in
    let step' = rw (← q') at step in
    let whole = step' ∙ ih in rw e (rw (append_assoc acc (l ∷ []) ls, n) at whole)

pub length-wire : (ls : List Bytes) → length ls < length (wire ls)
unfolding wire
length-wire [] = omega arith
length-wire (l ∷ ls) = omega (arith, length-append l (wire ls), length-wire ls)
