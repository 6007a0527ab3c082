-- ===== src/Codec/Section/Skip.antt =====
-- Records and questions that are skipped: bounds, and which bytes are read.
use cognidns_core.Prelude.{
  ℕ, zero, suc, ◌+◌, ◌-◌, ◌*◌, ◌≤◌, max, ◌≡◌, sym, ◌∙◌, inl, inr, some, arith, ltb, Bool-cases,
  Option-cases, >>=-eq-some, length,
}
use cognidns_core.Codec.Name.{skip_name}
use cognidns_core.Codec.Section.{rdlen_at, rr_end, skip_rr, skip_rrs, skip_question, skip_questions}
use cognidns_core.Codec.Bytes.{Bytes}
use cognidns_core.Codec.Name.Skip.{skip_name_bounds, skip_name_frame}
use cognidns_core.Codec.Bytes.Frame.{SameOn, SameOn-shrink, SameOn-sym, u16_at_same}

pub rr_end_bounds :
    (p : Bytes) (n r : ℕ)
    → rr_end p n ≡ some r
    → (r ≡ n + 10 + rdlen_at p n) × (n + 10 ≤ r) × (r ≤ length p)
unfolding rr_end
rr_end_bounds p n r e = ground arith

pub rr_end_frame :
    (p q : Bytes) (n r : ℕ)
    → rr_end p n ≡ some r
    → SameOn n r p q
    → length p ≤ length q
    → rr_end q n ≡ some r
rr_end_frame p q n r e s l =
    let (eq, lo, hi) = rr_end_bounds p n r e in
    let same : rdlen_at q n ≡ rdlen_at p n =
      u16_at_same p q n r (n + 8) s (omega arith) (omega arith) in
    unfold rr_end in (ground arith)

pub skip_rr_bounds : (p : Bytes) (o r : ℕ) → skip_rr p o ≡ some r → (o + 11 ≤ r) × (r ≤ length p)
unfolding skip_rr
skip_rr_bounds p o r e =
    let (n, en, er) = >>=-eq-some (skip_name p o) (λ n. rr_end p n) e in
    omega (arith, skip_name_bounds p o n en, rr_end_bounds p n r er)

pub skip_rr_frame :
    (p q : Bytes) (o r : ℕ)
    → skip_rr p o ≡ some r
    → SameOn o r p q
    → length p ≤ length q
    → skip_rr q o ≡ some r
unfolding skip_rr
skip_rr_frame p q o r e s l =
    let (n, en, er) = >>=-eq-some (skip_name p o) (λ n. rr_end p n) e in
    let (on, _) = skip_name_bounds p o n en in
    let (_, nr, _) = rr_end_bounds p n r er in
    rw (skip_name_frame p q o n en (SameOn-shrink p q o o n r s (omega arith) (omega arith)) l)
      (rr_end_frame p q n r er (SameOn-shrink p q o n r r s (omega arith) (omega arith)) l)

pub skip_rrs-inv :
    (n : ℕ) (p : Bytes) (o r : ℕ)
    → skip_rrs (suc n) p o ≡ some r
    → (m : ℕ) × (skip_rr p o ≡ some m) × (skip_rrs n p m ≡ some r)
unfolding skip_rrs
skip_rrs-inv n p o r e = >>=-eq-some (skip_rr p o) (λ m. skip_rrs n p m) e

pub skip_rrs_bounds :
    (n : ℕ) (p : Bytes) (o r : ℕ)
    → skip_rrs n p o ≡ some r
    → (o + 11 * n ≤ r) × (r ≤ max o (length p))
unfolding skip_rrs
skip_rrs_bounds zero p o r e = ground arith
skip_rrs_bounds (suc n) p o r e =
    let (m, em, er) = >>=-eq-some (skip_rr p o) (λ m. skip_rrs n p m) e in
    omega (arith, skip_rr_bounds p o m em, skip_rrs_bounds n p m r er)

pub skip_rrs_frame :
    (n : ℕ) (p q : Bytes) (o r : ℕ)
    → skip_rrs n p o ≡ some r
    → SameOn o r p q
    → length p ≤ length q
    → skip_rrs n q o ≡ some r
unfolding skip_rrs
skip_rrs_frame zero p q o r e s l = e
skip_rrs_frame (suc n) p q o r e s l =
    let (m, em, er) = >>=-eq-some (skip_rr p o) (λ m. skip_rrs n p m) e in
    let (om, _) = skip_rr_bounds p o m em in
    let (mr, _) = skip_rrs_bounds n p m r er in
    rw (skip_rr_frame p q o m em (SameOn-shrink p q o o m r s (omega arith) (omega arith)) l)
      (skip_rrs_frame n p q m r er (SameOn-shrink p q o m r r s (omega arith) (omega arith)) l)

pub skip_question_bounds :
    (p : Bytes) (o r : ℕ) → skip_question p o ≡ some r → (o + 5 ≤ r) × (r ≤ length p)
unfolding skip_question
skip_question_bounds p o r e =
    ground (arith, Option-cases (skip_name p o), skip_name_bounds p o (r - 4))

pub skip_question_frame :
    (p q : Bytes) (o r : ℕ)
    → skip_question p o ≡ some r
    → SameOn o r p q
    → length p ≤ length q
    → skip_question q o ≡ some r
unfolding skip_question
skip_question_frame p q o r e s l =
    let (n, en, er) = >>=-eq-some (skip_name p o) _ e in
    let (on, _) = skip_name_bounds p o n en in
    let eq : r ≡ n + 4 = ground arith in
    rw (skip_name_frame p q o n en (SameOn-shrink p q o o n r s (omega arith) (omega arith)) l)
      (ground arith)

pub skip_questions_bounds :
    (n : ℕ) (p : Bytes) (o r : ℕ)
    → skip_questions n p o ≡ some r
    → (o + 5 * n ≤ r) × (r ≤ max o (length p))
unfolding skip_questions
skip_questions_bounds zero p o r e = ground arith
skip_questions_bounds (suc n) p o r e =
    let (m, em, er) = >>=-eq-some (skip_question p o) (λ m. skip_questions n p m) e in
    omega (arith, skip_question_bounds p o m em, skip_questions_bounds n p m r er)

pub skip_questions_frame :
    (n : ℕ) (p q : Bytes) (o r : ℕ)
    → skip_questions n p o ≡ some r
    → SameOn o r p q
    → length p ≤ length q
    → skip_questions n q o ≡ some r
unfolding skip_questions
skip_questions_frame zero p q o r e s l = e
skip_questions_frame (suc n) p q o r e s l =
    let (m, em, er) = >>=-eq-some (skip_question p o) (λ m. skip_questions n p m) e in
    let (om, _) = skip_question_bounds p o m em in
    let (mr, _) = skip_questions_bounds n p m r er in
    rw (skip_question_frame p q o m em (SameOn-shrink p q o o m r s (omega arith) (omega arith)) l)
      (skip_questions_frame n p q m r er (SameOn-shrink p q o m r r s (omega arith) (omega arith))
        l)

-- Packets of one length that agree from an offset on are read alike from there.
pub skip_name_same :
    (p q : Bytes) (o : ℕ)
    → length q ≡ length p
    → SameOn o (length p) p q
    → skip_name q o ≡ skip_name p o
skip_name_same p q o l s = elim (Option-cases (skip_name p o)) [
  | inr (r, e) ↦
      let (or, rl) = skip_name_bounds p o r e in
      rw e (
        skip_name_frame p q o r e (SameOn-shrink p q o o r (length p) s (omega arith) rl)
          (omega arith))
  | inl e ↦ elim (Option-cases (skip_name q o)) [
    | inl d ↦ d ∙ sym e
    | inr (r, d) ↦
        let (or, rl) = skip_name_bounds q o r d in
        let back =
          skip_name_frame q p o r d
            (SameOn-sym p q o r (SameOn-shrink p q o o r (length p) s (omega arith) (omega arith)))
            (omega arith) in
        cc
  ]
]

pub rr_end_same :
    (p q : Bytes) (n : ℕ)
    → length q ≡ length p
    → SameOn (n + 8) (length p) p q
    → rr_end q n ≡ rr_end p n
unfolding rr_end
rr_end_same p q n l s = elim (Bool-cases (ltb (length p) (n + 10))) [
  | inl short ↦ ground arith
  | inr long ↦
      let same : rdlen_at q n ≡ rdlen_at p n =
        u16_at_same p q (n + 8) (length p) (n + 8) s (omega arith) (ground arith) in
      ground arith
]
