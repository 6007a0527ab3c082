-- ===== src/Health/Order.antt =====
-- The order in which `prefer_healthy_ips` of src/health.rs gives the addresses.
use cognidns_core.Prelude.{
  ℕ, ◌+◌, ◌≤◌, ◌<◌, ◌≡◌, refl, sym, inl, inr, Bool, true, false, not, ◌&&◌, ◌||◌, Option, List, [],
  ◌∷◌, ◌++◌, map, append-nil, arith, ltb, leb, ◌==◌, if◌then◌else◌, ==_iff, Bool-cases, length, All,
}
use cognidns_core.Codec.Edns.{opt_or}
use cognidns_core.Codec.Bytes.{Bytes}
use cognidns_core.Cache.Domain.{normalize_domain}
use cognidns_core.Health.State.{
  IpHealthManager, healthy_of, score_of, Ranked, rank_ips, ranks_before, insert_ranked, sort_ranked,
  prefer_healthy_ips,
}
use mathlib.Core.List.{map-append}

-- Those that pass the test, in their order.
unfoldable pub those : (Bytes → Bool) → List Bytes → List Bytes
those test [] = []
those test (ip ∷ ips) = let rest = those test ips in if test ip then ip ∷ rest else rest

unfoldable pub scored : ℕ → List Ranked → List Ranked
scored k [] = []
scored k (r ∷ rs) = let rest = scored k rs in if r.score == k then r ∷ rest else rest

-- Every index is `i` or more.
abbrev From : ℕ → List Ranked → Type 0
From i = All (λ r. i ≤ r.index)

abbrev Scores : ℕ → List Ranked → Type 0
Scores k = All (λ r. r.score ≡ k)

scored-Scores : (k : ℕ) (rs : List Ranked) → Scores k (scored k rs)
unfolding scored
scored-Scores k [] = tt
scored-Scores k (r ∷ rs) = elim (Bool-cases (r.score == k)) [
  | inl t ↦ rw t ((==_iff r.score k).0 t, scored-Scores k rs)
  | inr t ↦ rw t (scored-Scores k rs)
]

scored-From : (k i : ℕ) (rs : List Ranked) → From i rs → From i (scored k rs)
unfolding scored
scored-From k i [] h = tt
scored-From k i (r ∷ rs) h = elim (Bool-cases (r.score == k)) [
  | inl t ↦ rw t (h.0, scored-From k i rs h.1)
  | inr t ↦ rw t (scored-From k i rs h.1)
]

rank_ips-From :
    (score : Bytes → ℕ) (j i : ℕ) (ips : List Bytes) → j ≤ i → From j (rank_ips score i ips)
unfolding rank_ips
rank_ips-From score j i [] h = tt
rank_ips-From score j i (ip ∷ ips) h = (h, rank_ips-From score j (i + 1) ips (omega arith))

-- An element goes behind those of a higher score.
insert_behind :
    (a : Ranked) (k : ℕ) (bs cs : List Ranked)
    → Scores k bs
    → a.score < k
    → insert_ranked a (bs ++ cs) ≡ bs ++ insert_ranked a cs
unfolding insert_ranked ranks_before
insert_behind a k [] cs h lt = refl
insert_behind a k (b ∷ bs) cs h lt =
    let t : (ltb b.score a.score || (a.score == b.score && leb a.index b.index)) ≡ false =
      ground arith in
    rw (t, insert_behind a k bs cs h.1 lt)

-- An element goes before those of its score and a later index.
insert_before :
    (a : Ranked) (k : ℕ) (bs cs : List Ranked)
    → Scores k bs
    → k ≤ a.score
    → From a.index bs
    → insert_ranked a cs ≡ a ∷ cs
    → insert_ranked a (bs ++ cs) ≡ a ∷ (bs ++ cs)
unfolding insert_ranked ranks_before
insert_before a k [] cs h le from e = e
insert_before a k (b ∷ bs) cs h le from e =
    let t : (ltb b.score a.score || (a.score == b.score && leb a.index b.index)) ≡ true =
      ground arith in
    rw t

insert_nil : (a : Ranked) → insert_ranked a [] ≡ a ∷ []
unfolding insert_ranked
insert_nil a = refl

-- The three classes, one after the other.
classes : List Ranked → List Ranked
classes rs = scored 2 rs ++ (scored 1 rs ++ (scored 0 rs ++ []))

module _ (a : Ranked) (rs : List Ranked) (from : From a.index rs) where
  before_class :
      (k : ℕ) (cs : List Ranked)
      → k ≤ a.score
      → insert_ranked a cs ≡ a ∷ cs
      → insert_ranked a (scored k rs ++ cs) ≡ a ∷ (scored k rs ++ cs)
  before_class k cs le e =
      insert_before a k (scored k rs) cs (scored-Scores k rs) le (scored-From k a.index rs from) e

  behind_class :
      (k : ℕ) (cs : List Ranked)
      → a.score < k
      → insert_ranked a (scored k rs ++ cs) ≡ scored k rs ++ insert_ranked a cs
  behind_class k cs lt = insert_behind a k (scored k rs) cs (scored-Scores k rs) lt

  before_last : insert_ranked a (scored 0 rs ++ []) ≡ a ∷ (scored 0 rs ++ [])
  before_last = before_class 0 [] (omega arith) (insert_nil a)

  -- Where a new first element goes.
  insert-classes : a.score ≤ 2 → insert_ranked a (classes rs) ≡ classes (a ∷ rs)
  unfolding classes scored
  insert-classes le = elim (Bool-cases (a.score == 2)) [
    | inl t2 ↦
        let t1 : (a.score == 1) ≡ false = ground arith in
        let t0 : (a.score == 0) ≡ false = ground arith in
        rw (t2, t1, t0)
          (before_class 2 _ (ground arith) (before_class 1 _ (ground arith) before_last))
    | inr t2 ↦ elim (Bool-cases (a.score == 1)) [
      | inl t1 ↦
          let t0 : (a.score == 0) ≡ false = ground arith in
          rw (
            t2,
            t1,
            t0,
            behind_class 2 (scored 1 rs ++ (scored 0 rs ++ [])) (ground arith),
            before_class 1 (scored 0 rs ++ []) (ground arith) before_last,
          )
      | inr t1 ↦
          let t0 : (a.score == 0) ≡ true = ground arith in
          rw (
            t2,
            t1,
            t0,
            behind_class 2 (scored 1 rs ++ (scored 0 rs ++ [])) (ground arith),
            behind_class 1 (scored 0 rs ++ []) (ground arith),
            before_last,
          )
    ]
  ]

nil_classes : classes [] ≡ []
unfolding classes scored
nil_classes = refl

sort_ranked-rank_ips :
    (score : Bytes → ℕ)
    → ((ip : Bytes) → score ip ≤ 2)
    → (i : ℕ) (ips : List Bytes)
    → sort_ranked (rank_ips score i ips) ≡ classes (rank_ips score i ips)
unfolding sort_ranked rank_ips
sort_ranked-rank_ips score le i [] = sym nil_classes
sort_ranked-rank_ips score le i (ip ∷ ips) = rw (sort_ranked-rank_ips score le (i + 1) ips) (
    insert-classes (record { score = score ip; index = i; ranked_ip = ip })
      (rank_ips score (i + 1) ips) (rank_ips-From score i (i + 1) ips (omega arith)) (le ip))

-- The addresses of a class, from those ranked.
map-scored :
    (score : Bytes → ℕ) (k i : ℕ) (ips : List Bytes)
    → map (λ r. r.ranked_ip) (scored k (rank_ips score i ips)) ≡ those (λ ip. score ip == k) ips
unfolding scored rank_ips those
map-scored score k i [] = refl
map-scored score k i (ip ∷ ips) = elim (Bool-cases (score ip == k)) [
  | inl t ↦ rw (t, map-scored score k (i + 1) ips)
  | inr t ↦ rw (t, map-scored score k (i + 1) ips)
]

those_ext :
    (f g : Bytes → Bool) (ips : List Bytes)
    → ((ip : Bytes) → f ip ≡ g ip)
    → those f ips ≡ those g ips
unfolding those
those_ext f g [] h = refl
those_ext f g (ip ∷ ips) h = rw (h ip, those_ext f g ips h)

-- Verdicts: healthy, not probed often enough yet, unhealthy.
abbrev pub is_healthy : Option Bool → Bool
is_healthy v = opt_or v (λ b. b) false

abbrev pub is_unknown : Option Bool → Bool
is_unknown v = opt_or v (λ b. false) true

abbrev pub is_unhealthy : Option Bool → Bool
is_unhealthy v = opt_or v not false

module _ (m : IpHealthManager) (domain : Bytes) where
  score-le : (ip : Bytes) → score_of m domain ip ≤ 2
  unfolding score_of
  score-le ip = ground arith

  score-healthy : (ip : Bytes) → (score_of m domain ip == 2) ≡ is_healthy (healthy_of m domain ip)
  unfolding score_of
  score-healthy ip = ground arith

  score-unknown : (ip : Bytes) → (score_of m domain ip == 1) ≡ is_unknown (healthy_of m domain ip)
  unfolding score_of
  score-unknown ip = ground arith

  score-unhealthy :
      (ip : Bytes) → (score_of m domain ip == 0) ≡ is_unhealthy (healthy_of m domain ip)
  unfolding score_of
  score-unhealthy ip = ground arith

-- The addresses in the order of their verdicts, as an answer should list them.
unfoldable pub by_verdict : IpHealthManager → Bytes → List Bytes → List Bytes
by_verdict m domain ips =
    those (λ ip. is_healthy (healthy_of m domain ip)) ips
    ++ (those (λ ip. is_unknown (healthy_of m domain ip)) ips
        ++ those (λ ip. is_unhealthy (healthy_of m domain ip)) ips)

sorted-by_verdict :
    (m : IpHealthManager) (domain : Bytes) (ips : List Bytes)
    → map (λ r. r.ranked_ip) (sort_ranked (rank_ips (score_of m domain) 0 ips))
      ≡ by_verdict m domain ips
unfolding by_verdict classes
sorted-by_verdict m domain ips =
    let rs = rank_ips (score_of m domain) 0 ips in
    let f : Ranked → Bytes = λ r. r.ranked_ip in
    rw
      (
        sort_ranked-rank_ips (score_of m domain) (score-le m domain) 0 ips,
        append-nil (scored 0 rs),
        map-append f (scored 2 rs) (scored 1 rs ++ scored 0 rs),
        map-append f (scored 1 rs) (scored 0 rs),
        map-scored (score_of m domain) 2 0 ips,
        map-scored (score_of m domain) 1 0 ips,
        map-scored (score_of m domain) 0 0 ips,
        those_ext _ _ ips (score-healthy m domain),
        those_ext _ _ ips (score-unknown m domain),
        those_ext _ _ ips (score-unhealthy m domain),
      )
      refl

nil_by_verdict : (m : IpHealthManager) (domain : Bytes) → by_verdict m domain [] ≡ []
unfolding by_verdict those
nil_by_verdict m domain = refl

single_by_verdict :
    (m : IpHealthManager) (domain ip : Bytes) → by_verdict m domain (ip ∷ []) ≡ ip ∷ []
unfolding by_verdict those
single_by_verdict m domain ip = ground arith

-- With health checks enabled, the addresses come in three blocks, each in the order of the
-- argument: those whose last verdict is healthy, those without a verdict, the unhealthy ones.
pub prefer_healthy_ips-by_verdict :
    (m : IpHealthManager) (domain : Bytes) (ips : List Bytes)
    → m.cfg.enabled ≡ true
    → prefer_healthy_ips m domain ips ≡ by_verdict m (normalize_domain domain) ips
unfolding prefer_healthy_ips
prefer_healthy_ips-by_verdict m domain [] e =
    let t : (not m.cfg.enabled || true) ≡ true = ground arith in
    rw t (sym (nil_by_verdict m (normalize_domain domain)))
prefer_healthy_ips-by_verdict m domain (ip ∷ []) e =
    let t : (not m.cfg.enabled || true) ≡ true = ground arith in
    rw t (sym (single_by_verdict m (normalize_domain domain) ip))
prefer_healthy_ips-by_verdict m domain (ip ∷ jp ∷ ips) e =
    let t : (not m.cfg.enabled || leb (length (ip ∷ jp ∷ ips)) 1) ≡ false = ground arith in
    rw t (sorted-by_verdict m (normalize_domain domain) (ip ∷ jp ∷ ips))
