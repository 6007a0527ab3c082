-- ===== src/TopN/Tests.antt =====
-- The statistics of src/topn.rs on three queries in two rounds.
use cognidns_core.Prelude.{
  ℕ, ◌%◌, min, max, ◌≡◌, refl, Bool, true, false, List, [], ◌∷◌, arith, length,
}
use cognidns_core.Maps.{text_key, find_key, update_entry}
use cognidns_core.Codec.Text.{text_eq}
use cognidns_core.Codec.Bytes.{Bytes}
use cognidns_core.Policy.Trie.{IpAddr, v4}
use cognidns_core.Policy.Rate.{ip_eq}
use cognidns_core.TopN.Top.{IsTop}
use cognidns_core.TopN.State.{
  TopNState, Query, new_state, count_query, rotate_bucket, flush_batch, background_round, in_window,
  cutoff_of, merge_map, merge_maps, insert_desc, sort_desc, top_entries, merged_domains,
  top_domains, add_counter, top_domains_with_success, merged_clients, top_clients,
}
use cognidns_core.TopN.Merge.{wrap, count_of}
use cognidns_core.TopN.Counts.{asked, Round, after_rounds, asked_in_all, top_domains-IsTop}

program : Unit {0}
unfolding count_query rotate_bucket flush_batch background_round in_window cutoff_of merge_map
    merge_maps insert_desc sort_desc top_entries merged_domains top_domains add_counter
    top_domains_with_success merged_clients top_clients after_rounds asked_in_all asked update_entry
    text_eq ip_eq find_key
program = tt

abbrev client : IpAddr
client = v4 (10 ∷ 0 ∷ 0 ∷ 1 ∷ [])

abbrev query_for : ℕ → Bool → Query
query_for letter ok = record { query_domain = letter ∷ []; query_ip = client; succeeded = ok }

-- The second round finds the bucket a minute old.
abbrev rounds : List Round
rounds =
    record {
      now = 61000000000;
      later = 61000000000;
      unix = 1061;
      batch = query_for 98 true ∷ query_for 98 false ∷ [];
    }
    ∷ record { now = 1000000000; later = 1000000000; unix = 1001; batch = query_for 97 true ∷ [] }
    ∷ []

abbrev counted_state : TopNState
counted_state = after_rounds (new_state 0 1000) rounds

busiest : top_domains 1070 5 300 counted_state ≡ (98 ∷ [], 2) ∷ (97 ∷ [], 1) ∷ []
unfolding program
busiest = refl

only_one : top_domains 1070 0 300 counted_state ≡ (98 ∷ [], 2) ∷ []
unfolding program
only_one = refl

one_client : top_clients 1070 5 300 counted_state ≡ (client, 3) ∷ []
unfolding program
one_client = refl

with_success :
    top_domains_with_success 1070 1 300 counted_state
    ≡ record { stats_domain = 98 ∷ []; total_count = 2; success_count = 1 } ∷ []
unfolding program
with_success = refl

one_bucket : length counted_state.history ≡ 1
unfolding program
one_bucket = refl

bucket_in_window : in_window (cutoff_of 1070 300) counted_state.history ≡ counted_state.history
unfolding program
bucket_in_window = refl

top_domains-IsTop_example :
    IsTop
      (λ e. e.1)
      (min (max 5 1) 100)
      (merged_domains (cutoff_of 1070 300) counted_state)
      (top_domains 1070 5 300 counted_state)
    × ((d : Bytes)
        → count_of d (merged_domains (cutoff_of 1070 300) counted_state)
          ≡ asked_in_all d rounds % wrap)
top_domains-IsTop_example =
    top_domains-IsTop 0 1000 rounds 1070 5 300 (rw one_bucket (omega arith)) bucket_in_window
