-- ===== src/TopN/Counts.antt =====
-- The counts that the lookups of src/topn.rs merge, against the queries that were recorded.
use cognidns_core.Prelude.{
  ℕ, ◌+◌, ◌-◌, ◌*◌, ◌%◌, ◌<◌, min, max, ◌≡◌, refl, ap, ◌∙◌, inl, inr, Bool, List, [], ◌∷◌, map,
  arith, ltb, if◌then◌else◌, Bool-cases, length, take_whole, length-take,
}
use cognidns_core.Maps.{text_key, update_entry}
use cognidns_core.Codec.Text.{text_eq}
use cognidns_core.Codec.Bytes.{Bytes}
use cognidns_core.Codec.Text.Split.{text_eq_sound}
use cognidns_core.TopN.Top.{IsTop, top_entries-IsTop}
use cognidns_core.TopN.State.{
  DomainCounter, BucketSnapshot, TopNState, Query, bucket_secs, max_history_buckets, new_state,
  ip_key, add_u64, no_queries, count_query, rotate_bucket, flush_batch, background_round, in_window,
  cutoff_of, merged_domains, top_domains,
}
use cognidns_core.TopN.Merge.{wrap, sum_of, sum_in, count_of, count_of-merged}

-- How often a domain is asked for.
unfoldable pub asked : Bytes → List Query → ℕ
asked d [] = 0
asked d (q ∷ qs) = (if text_eq q.query_domain d then 1 else 0) + asked d qs

abbrev totals : Bytes → List (Bytes × DomainCounter) → ℕ
totals = sum_of (λ c. c.total)

totals-update :
    (d j : Bytes) (ok : Bool) (m : List (Bytes × DomainCounter))
    → totals d (update_entry j no_queries (count_query ok) m) % wrap
      ≡ ((if text_eq j d then 1 else 0) + totals d m) % wrap
unfolding sum_of update_entry count_query
totals-update d j ok [] = omega arith
totals-update d j ok ((i, c) ∷ m) = elim (Bool-cases (text_eq i j)) [
  | inl t ↦
      let same_test : text_eq i d ≡ text_eq j d = ap (λ x. text_eq x d) (text_eq_sound i j t) in
      rw (t, same_test)
        (elim (Bool-cases (text_eq j d)) [
          | inl u ↦ rw u (omega arith)
          | inr u ↦ rw u (omega arith)
        ])
  | inr t ↦ rw t (elim (Bool-cases (text_eq i d)) [
    | inl u ↦ rw u (let ih = totals-update d j ok m in omega arith)
    | inr u ↦ rw u (totals-update d j ok m)
  ])
]

-- The queries of the current bucket and of the history.
kept_total : Bytes → TopNState → ℕ
kept_total d st =
    totals d st.current_domains + sum_in (λ c. c.total) d (map (λ b. b.domains) st.history)

flush_batch-total :
    (d : Bytes) (qs : List Query) (st : TopNState)
    → kept_total d (flush_batch qs st) % wrap ≡ (asked d qs + kept_total d st) % wrap
unfolding flush_batch asked kept_total
flush_batch-total d [] st = omega arith
flush_batch-total d (q ∷ qs) st =
    let noted : TopNState = record st {
      current_domains =
          update_entry q.query_domain no_queries (count_query q.succeeded) st.current_domains;
      current_ips = update_entry ⦃key = ip_key⦄ q.query_ip 0 (λ n. add_u64 n 1) st.current_ips;
    } in
    let ih = flush_batch-total d qs noted in
    let one = totals-update d q.query_domain q.succeeded st.current_domains in omega arith

-- Nothing was dropped: there is room for one bucket more, or was.
record Roomy (st : TopNState) : Type 0 where
  as_configured : st.max_history ≡ max_history_buckets
  not_full : length st.history < max_history_buckets

flush_batch-history : (qs : List Query) (st : TopNState) → (flush_batch qs st).history ≡ st.history
unfolding flush_batch
flush_batch-history [] st = refl
flush_batch-history (q ∷ qs) st = flush_batch-history qs _

flush_batch-max :
    (qs : List Query) (st : TopNState) → (flush_batch qs st).max_history ≡ st.max_history
unfolding flush_batch
flush_batch-max [] st = refl
flush_batch-max (q ∷ qs) st = flush_batch-max qs _

rotate_bucket-total :
    (d : Bytes) (now later unix : ℕ) (st : TopNState)
    → st.max_history ≡ max_history_buckets
    → length (rotate_bucket now later unix st).history < max_history_buckets
    → (kept_total d (rotate_bucket now later unix st) ≡ kept_total d st)
      × (length st.history < max_history_buckets)
unfolding rotate_bucket kept_total sum_of sum_in
rotate_bucket-total d now later unix st full room =
    elim (Bool-cases (ltb (now - st.current_start) (bucket_secs * 1000000000))) [
      | inl t ↦ rw t (refl, rw t at room)
      | inr t ↦
          let snapshot : BucketSnapshot = record {
            start_unix_secs = st.current_start_unix_secs;
            domains = st.current_domains;
            ips = st.current_ips;
          } in
          let shorter = rw t at room in
          let len = length-take st.max_history (snapshot ∷ st.history) in
          let small : length st.history < max_history_buckets = omega arith in
          let whole = take_whole st.max_history (snapshot ∷ st.history) (omega arith) in
          (rw (t, whole) (omega arith), small)
    ]

rotate_bucket-max :
    (now later unix : ℕ) (st : TopNState)
    → (rotate_bucket now later unix st).max_history ≡ st.max_history
unfolding rotate_bucket
rotate_bucket-max now later unix st = ground arith

-- A round of the background task: the two readings of the clock, the seconds, the queries.
pub record Round : Type 0 where
  pub now : ℕ
  pub later : ℕ
  pub unix : ℕ
  pub batch : List Query

-- The state after the rounds, of which the latest comes first.
unfoldable pub after_rounds : TopNState → List Round → TopNState
after_rounds st [] = st
after_rounds st (r ∷ rs) = background_round r.now r.later r.unix r.batch (after_rounds st rs)

unfoldable pub asked_in_all : Bytes → List Round → ℕ
asked_in_all d [] = 0
asked_in_all d (r ∷ rs) = asked d r.batch + asked_in_all d rs

after_rounds-max :
    (now unix : ℕ) (rs : List Round)
    → (after_rounds (new_state now unix) rs).max_history ≡ max_history_buckets
unfolding after_rounds background_round
after_rounds-max now unix [] = refl
after_rounds-max now unix (r ∷ rs) =
    let st = after_rounds (new_state now unix) rs in
    flush_batch-max r.batch (rotate_bucket r.now r.later r.unix st)
    ∙ rotate_bucket-max r.now r.later r.unix st
    ∙ after_rounds-max now unix rs

new_state-total : (d : Bytes) (now unix : ℕ) → kept_total d (new_state now unix) ≡ 0
unfolding kept_total sum_of sum_in
new_state-total d now unix = refl

after_rounds-total :
    (d : Bytes) (now unix : ℕ) (rs : List Round)
    → length (after_rounds (new_state now unix) rs).history < max_history_buckets
    → kept_total d (after_rounds (new_state now unix) rs) % wrap ≡ asked_in_all d rs % wrap
unfolding after_rounds background_round asked_in_all
after_rounds-total d now unix [] room = rw (new_state-total d now unix) refl
after_rounds-total d now unix (r ∷ rs) room =
    let st = after_rounds (new_state now unix) rs in
    let turned = rotate_bucket r.now r.later r.unix st in
    let room_before = rw (flush_batch-history r.batch turned) at room in
    let (same, room_then) =
      rotate_bucket-total d r.now r.later r.unix st (after_rounds-max now unix rs) room_before in
    let ih = after_rounds-total d now unix rs room_then in
    let step = flush_batch-total d r.batch turned in omega arith

count_of-merged_domains :
    (d : Bytes) (cutoff : ℕ) (st : TopNState)
    → in_window cutoff st.history ≡ st.history
    → count_of d (merged_domains cutoff st) ≡ kept_total d st % wrap
unfolding merged_domains kept_total sum_in
count_of-merged_domains d cutoff st all_in =
    rw all_in
      (count_of-merged (λ c. c.total) d (st.current_domains ∷ map (λ b. b.domains) st.history))

-- After any rounds of the background task, as long as fewer than 60 buckets are in the history
-- and all of them reach into the window, the merged count of a domain is the number of queries
-- for it in all rounds, on 64 bits; and the lookup returns the entries with the highest counts,
-- sorted, as many as asked for, at least one and at most 100.
pub top_domains-IsTop :
    (now unix : ℕ) (rs : List Round) (today n window_secs : ℕ)
    → let st = after_rounds (new_state now unix) rs in
      let cutoff = cutoff_of today window_secs in
      length st.history < max_history_buckets
      → in_window cutoff st.history ≡ st.history
      → IsTop
          (λ e. e.1)
          (min (max n 1) 100)
          (merged_domains cutoff st)
          (top_domains today n window_secs st)
        × ((d : Bytes) → count_of d (merged_domains cutoff st) ≡ asked_in_all d rs % wrap)
unfolding top_domains
top_domains-IsTop now unix rs today n window_secs room all_in =
    let st = after_rounds (new_state now unix) rs in
    let cutoff = cutoff_of today window_secs in
    (top_entries-IsTop (λ e. e.1) n (merged_domains cutoff st), counts)
  where
    counts :
        (d : Bytes)
        → count_of d
            (merged_domains (cutoff_of today window_secs) (after_rounds (new_state now unix) rs))
          ≡ asked_in_all d rs % wrap
    counts d =
        count_of-merged_domains d (cutoff_of today window_secs)
          (after_rounds (new_state now unix) rs) all_in
        ∙ after_rounds-total d now unix rs room
