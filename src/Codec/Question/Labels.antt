-- ===== src/Codec/Question/Labels.antt =====
-- The first question of a packet whose name stands uncompressed behind the header.
use cognidns_core.Prelude.{
  holds_below, ℕ, zero, suc, ◌+◌, ◌<◌, bit_and, ◌≡◌, refl, sym, ap, ◌∙◌, true, false, some, List,
  [], ◌∷◌, ◌++◌, append_assoc, append-nil, arith, ltb, leb, ◌==◌, if◌then◌else◌, holds_below_sound,
  length, All, length-append,
}
use cognidns_core.Codec.Text.{join_dots}
use cognidns_core.Codec.Question.{question_labels, question_name}
use cognidns_core.Codec.Bytes.{Bytes}
use cognidns_core.Codec.Name.Wire.{wire, IsLabel, IsUtf8, byte-middle, slice-middle}

plain_table : holds_below (λ b. bit_and b 0xC0 == 0) 64 ≡ true
unfolding holds_below
plain_table = refl

question_labels_step :
    (f : ℕ) (pre l rest : Bytes) (acc : List Bytes)
    → IsLabel l
    → IsUtf8 l
    → question_labels (suc f) (pre ++ (length l ∷ (l ++ rest))) (length pre) acc
      ≡ question_labels f
          (pre ++ (length l ∷ (l ++ rest)))
          (length pre + 1 + length l)
          (acc ++ (l ∷ []))
unfolding question_labels
question_labels_step f pre l rest acc (lo, hi) u =
    let p = pre ++ (length l ∷ (l ++ rest)) in
    let b = byte-middle pre (l ++ rest) (length l) in
    let s = slice-middle pre l rest (length l) in
    let n : length p ≡ length pre + suc (length l + length rest) =
      length-append pre (length l ∷ (l ++ rest))
      ∙ ap (λ x. length pre + suc x) (length-append l rest) in
    let plain =
      holds_below_sound (λ x. bit_and x 0xC0 == 0) 64 {i = length l} (omega arith) plain_table in
    let t₁ : leb (length p) (length pre) ≡ false = ground arith in
    let t₂ : (length l == 0) ≡ false = ground arith in
    let t₃ : ltb (length p) (length pre + 1 + length l) ≡ false = ground arith in
    rw (b, s, u, t₁, t₂, plain, t₃)

question_labels_end :
    (f : ℕ) (pre rest : Bytes) (acc : List Bytes)
    → question_labels (suc f) (pre ++ (0 ∷ rest)) (length pre) acc ≡ some (acc, length pre + 1)
unfolding question_labels
question_labels_end f pre rest acc =
    let b = byte-middle pre rest 0 in
    let n : length (pre ++ (0 ∷ rest)) ≡ length pre + suc (length rest) =
      length-append pre (0 ∷ rest) in
    let t₁ : leb (length (pre ++ (0 ∷ rest))) (length pre) ≡ false = ground arith in rw (b, t₁)

-- The loop reads the labels that stand at its offset.
pub question_labels-wire :
    (ls : List Bytes) (f : ℕ) (p pre rest : Bytes) (o : ℕ) (acc : List Bytes)
    → All IsLabel ls
    → All IsUtf8 ls
    → length ls < f
    → o ≡ length pre
    → p ≡ pre ++ (wire ls ++ rest)
    → question_labels f p o acc ≡ some (acc ++ ls, o + length (wire ls))
unfolding wire
question_labels-wire [] zero p pre rest o acc v u h e q = absurd (omega arith)
question_labels-wire [] (suc f) p pre rest o acc v u h e q =
    rw (q, e, append-nil acc) (question_labels_end f pre rest acc)
question_labels-wire (l ∷ ls) zero p pre rest o acc v u h e q = absurd (omega arith)
question_labels-wire (l ∷ ls) (suc f) p pre rest o acc v u h e q =
    let head = length l ∷ l in
    let q' : p ≡ pre ++ (length l ∷ (l ++ (wire ls ++ rest))) =
      q ∙ ap (λ x. pre ++ (length l ∷ x)) (append_assoc l (wire ls) rest) in
    let q'' : p ≡ (pre ++ head) ++ (wire ls ++ rest) =
      q' ∙ sym (append_assoc pre head (wire ls ++ rest)) in
    let ih =
      question_labels-wire ls f p (pre ++ head) rest (length pre + 1 + length l) (acc ++ (l ∷ []))
        v.1 u.1 (omega arith) (omega (arith, length-append pre head)) q'' in
    let n : length pre + 1 + length l + length (wire ls) ≡ length pre + length (wire (l ∷ ls)) =
      omega (arith, length-append l (wire ls)) in
    let step = question_labels_step f pre l (wire ls ++ rest) acc v.0 u.0 in
    let step' = rw (← q') at step in
    let whole = step' ∙ ih in rw e (rw (append_assoc acc (l ∷ []) ls, n) at whole)

-- "." for the root
abbrev pub shown : Bytes → Bytes
shown name = if length name == 0 then 46 ∷ [] else name

pub question_name-shown :
    (ls : List Bytes) → All IsLabel ls → question_name ls ≡ shown (join_dots ls)
unfolding join_dots
question_name-shown [] v = refl
question_name-shown (l ∷ []) v = let t : (length l == 0) ≡ false = ground arith in rw t
question_name-shown (l ∷ m ∷ ls) v =
    let rest = 46 ∷ join_dots (m ∷ ls) in
    let t : (length (l ++ rest) == 0) ≡ false =
      let n = length-append l rest in let k : 0 < length l = v.0.0 in ground arith in
    rw t
