-- ===== src/Codec/Section/Shorter.antt =====
-- Sections are skipped alike in a packet that agrees with them, even if it is shorter.
use cognidns_core.Prelude.{ℕ, zero, suc, ◌+◌, ◌-◌, ◌≤◌, ◌≡◌, some, arith, >>=-eq-some, length}
use cognidns_core.Codec.Name.{skip_name}
use cognidns_core.Codec.Section.{rr_end, skip_rr, skip_rrs, skip_question, skip_questions}
use cognidns_core.Codec.Bytes.{Bytes}
use cognidns_core.Codec.Name.Skip.{skip_name_bounds}
use cognidns_core.Codec.Section.Moved.{Moved, skip_name-Moved, rr_end-Moved}
use cognidns_core.Codec.Section.Skip.{
  rr_end_bounds, skip_rr_bounds, skip_rrs-inv, skip_rrs_bounds, skip_question_bounds,
  skip_questions_bounds,
}
use cognidns_core.Codec.Bytes.Frame.{SameOn, SameOn-shrink}

SameOn-Moved : (p q : Bytes) (a b : ℕ) → SameOn a b p q → Moved a a (b - a) p q
SameOn-Moved p q a b s i h = s (a + i) (omega arith) (omega arith)

skip_name_shorter :
    (p q : Bytes) (o r : ℕ)
    → skip_name p o ≡ some r
    → SameOn o r p q
    → r ≤ length q
    → skip_name q o ≡ some r
skip_name_shorter p q o r e s l =
    let (lt, _) = skip_name_bounds p o r e in
    let n : o + (r - o) ≡ r = omega arith in
    rw n at (skip_name-Moved p q o o r e (SameOn-Moved p q o r s) (omega arith))

skip_rr_shorter :
    (p q : Bytes) (o r : ℕ)
    → skip_rr p o ≡ some r
    → SameOn o r p q
    → r ≤ length q
    → skip_rr q o ≡ some r
unfolding skip_rr
skip_rr_shorter p q o r e s l =
    let (n, en, er) = >>=-eq-some (skip_name p o) (λ k. rr_end p k) e in
    let (on, _) = skip_name_bounds p o n en in
    let (_, nr, _) = rr_end_bounds p n r er in
    let m : n + (r - n) ≡ r = omega arith in
    rw
      (skip_name_shorter p q o n en (SameOn-shrink p q o o n r s (omega arith) (omega arith))
        (omega arith))
      (rw m at (
        rr_end-Moved p q n n r er
          (SameOn-Moved p q n r (SameOn-shrink p q o n r r s (omega arith) (omega arith)))
          (omega arith)))

pub skip_rrs_shorter :
    (n : ℕ) (p q : Bytes) (o r : ℕ)
    → skip_rrs n p o ≡ some r
    → SameOn o r p q
    → r ≤ length q
    → skip_rrs n q o ≡ some r
unfolding skip_rrs
skip_rrs_shorter zero p q o r e s l = e
skip_rrs_shorter (suc n) p q o r e s l =
    let (m, em, er) = skip_rrs-inv n p o r (unfold skip_rrs in e) in
    let (om, _) = skip_rr_bounds p o m em in
    let (mr, _) = skip_rrs_bounds n p m r er in
    rw
      (skip_rr_shorter p q o m em (SameOn-shrink p q o o m r s (omega arith) (omega arith))
        (omega arith))
      (skip_rrs_shorter n p q m r er (SameOn-shrink p q o m r r s (omega arith) (omega arith)) l)

skip_question_shorter :
    (p q : Bytes) (o r : ℕ)
    → skip_question p o ≡ some r
    → SameOn o r p q
    → r ≤ length q
    → skip_question q o ≡ some r
unfolding skip_question
skip_question_shorter p q o r e s l =
    let (n, en, er) = >>=-eq-some (skip_name p o) _ e in
    let (on, _) = skip_name_bounds p o n en in
    let eq : r ≡ n + 4 = ground arith in
    rw
      (skip_name_shorter p q o n en (SameOn-shrink p q o o n r s (omega arith) (omega arith))
        (omega arith))
      (ground arith)

pub skip_questions_shorter :
    (n : ℕ) (p q : Bytes) (o r : ℕ)
    → skip_questions n p o ≡ some r
    → SameOn o r p q
    → r ≤ length q
    → skip_questions n q o ≡ some r
unfolding skip_questions
skip_questions_shorter zero p q o r e s l = e
skip_questions_shorter (suc n) p q o r e s l =
    let (m, em, er) = >>=-eq-some (skip_question p o) (λ m. skip_questions n p m) e in
    let (om, _) = skip_question_bounds p o m em in
    let (mr, _) = skip_questions_bounds n p m r er in
    rw
      (skip_question_shorter p q o m em (SameOn-shrink p q o o m r s (omega arith) (omega arith))
        (omega arith))
      (skip_questions_shorter n p q m r er (SameOn-shrink p q o m r r s (omega arith) (omega arith))
        l)
