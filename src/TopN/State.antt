-- ===== src/TopN/State.antt =====
-- `TopNState` of src/topn.rs: the background task's rounds and the lookups. Instants are
-- nanoseconds; the clocks are arguments.
use cognidns_core.Prelude.{
  ℕ, ◌+◌, ◌-◌, ◌*◌, ◌%◌, min, max, ◌≡◌, ap, Bool, true, List, [], ◌∷◌, map, ltb, leb, if◌then◌else◌,
  take,
}
use cognidns_core.Maps.{Key, text_key, update_entry}
use cognidns_core.Codec.Bytes.{Bytes}
use cognidns_core.Codec.Text.Split.{text_eq_sound, text_eq_refl}
use cognidns_core.Policy.Trie.{IpAddr, v4, v6}
use cognidns_core.Policy.Rate.{ip_eq}

pub record DomainCounter : Type 0 where
  pub total : ℕ
  pub success : ℕ

pub record BucketSnapshot : Type 0 where
  pub start_unix_secs : ℕ
  pub domains : List (Bytes × DomainCounter)
  pub ips : List (IpAddr × ℕ)

pub record TopNState : Type 0 where
  pub current_domains : List (Bytes × DomainCounter)
  pub current_ips : List (IpAddr × ℕ)
  pub current_start : ℕ
  pub current_start_unix_secs : ℕ
  pub history : List BucketSnapshot
  pub max_history : ℕ

-- `TopNEvent::Query`
pub record Query : Type 0 where
  pub query_domain : Bytes
  pub query_ip : IpAddr
  pub succeeded : Bool

abbrev pub bucket_secs : ℕ
bucket_secs = 60

abbrev pub max_history_buckets : ℕ
max_history_buckets = 60

abbrev pub new_state : ℕ → ℕ → TopNState
new_state now unix = record {
  current_domains = [];
  current_ips = [];
  current_start = now;
  current_start_unix_secs = unix;
  history = [];
  max_history = max_history_buckets;
}

pub ip_eq_refl : (ip : IpAddr) → ip_eq ip ip ≡ true
unfolding ip_eq
ip_eq_refl (v4 a) = text_eq_refl a
ip_eq_refl (v6 a) = text_eq_refl a

pub ip_eq_sound : (a b : IpAddr) → ip_eq a b ≡ true → a ≡ b
unfolding ip_eq
ip_eq_sound (v4 a) (v4 b) h = ap v4 (text_eq_sound a b h)
ip_eq_sound (v4 a) (v6 b) h = cc
ip_eq_sound (v6 a) (v4 b) h = cc
ip_eq_sound (v6 a) (v6 b) h = ap v6 (text_eq_sound a b h)

instance abbrev pub ip_key : Key IpAddr
ip_key = record { same = ip_eq; same_refl = ip_eq_refl; same_sound = ip_eq_sound }

-- `+=` on 64 bits
abbrev pub add_u64 : ℕ → ℕ → ℕ
add_u64 a b = (a + b) % 18446744073709551616

abbrev pub no_queries : DomainCounter
no_queries = record { total = 0; success = 0 }

unfoldable pub count_query : Bool → DomainCounter → DomainCounter
count_query succeeded c = record {
  total = add_u64 c.total 1;
  success = if succeeded then add_u64 c.success 1 else c.success;
}

-- The bucket moves into the history once it is a minute old; `later` is the second reading of
-- the clock.
unfoldable pub rotate_bucket : ℕ → ℕ → ℕ → TopNState → TopNState
rotate_bucket now later unix st =
    let snapshot : BucketSnapshot = record {
      start_unix_secs = st.current_start_unix_secs;
      domains = st.current_domains;
      ips = st.current_ips;
    } in
    if ltb (now - st.current_start) (bucket_secs * 1000000000) then st else record {
      current_domains = [];
      current_ips = [];
      current_start = later;
      current_start_unix_secs = unix;
      history = take st.max_history (snapshot ∷ st.history);
      max_history = st.max_history;
    }

unfoldable pub flush_batch : List Query → TopNState → TopNState
flush_batch [] st = st
flush_batch (q ∷ qs) st = flush_batch qs (record st {
  current_domains =
      update_entry q.query_domain no_queries (count_query q.succeeded) st.current_domains;
  current_ips = update_entry q.query_ip 0 (λ n. add_u64 n 1) st.current_ips;
})

-- One round of the loop, after the channel was drained.
unfoldable pub background_round : ℕ → ℕ → ℕ → List Query → TopNState → TopNState
background_round now later unix batch st = flush_batch batch (rotate_bucket now later unix st)

abbrev clamp : ℕ → ℕ → ℕ → ℕ
clamp low high n = min (max n low) high

-- The buckets of the history that reach into the window.
unfoldable pub in_window : ℕ → List BucketSnapshot → List BucketSnapshot
in_window cutoff [] = []
in_window cutoff (b ∷ bs) =
    let rest = in_window cutoff bs in
    if ltb cutoff (b.start_unix_secs + bucket_secs) then b ∷ rest else rest

unfoldable pub cutoff_of : ℕ → ℕ → ℕ
cutoff_of unix window_secs = unix - clamp 1 3600 window_secs

module _ {K : Type 0} {V : Type 0} {C : Type 0} ⦃key : Key K⦄ where
  -- The entries of one map added to the merged counts.
  unfoldable pub merge_map : C → (C → V → C) → List (K × V) → List (K × C) → List (K × C)
  merge_map start add [] merged = merged
  merge_map start add ((k, v) ∷ m) merged =
      merge_map start add m (update_entry k start (λ c. add c v) merged)

  unfoldable pub merge_maps : C → (C → V → C) → List (List (K × V)) → List (K × C) → List (K × C)
  merge_maps start add [] merged = merged
  merge_maps start add (m ∷ ms) merged = merge_maps start add ms (merge_map start add m merged)

module _ {E : Type 0} (count : E → ℕ) where
  -- `sort_unstable_by`, by descending count
  unfoldable pub insert_desc : E → List E → List E
  insert_desc a [] = a ∷ []
  insert_desc a (b ∷ bs) =
      let rest = insert_desc a bs in if leb (count b) (count a) then a ∷ b ∷ bs else b ∷ rest

  unfoldable pub sort_desc : List E → List E
  sort_desc [] = []
  sort_desc (a ∷ bs) = insert_desc a (sort_desc bs)

  -- The first `n`, at least one and at most 100.
  unfoldable pub top_entries : ℕ → List E → List E
  top_entries n entries = take (clamp 1 100 n) (sort_desc entries)

unfoldable pub merged_domains : ℕ → TopNState → List (Bytes × ℕ)
merged_domains cutoff st =
    merge_maps 0 (λ n c. add_u64 n c.total)
      (st.current_domains ∷ map (λ b. b.domains) (in_window cutoff st.history)) []

unfoldable pub top_domains : ℕ → ℕ → ℕ → TopNState → List (Bytes × ℕ)
top_domains unix n window_secs st =
    top_entries (λ e. e.1) n (merged_domains (cutoff_of unix window_secs) st)

unfoldable pub add_counter : DomainCounter → DomainCounter → DomainCounter
add_counter a b = record { total = add_u64 a.total b.total; success = add_u64 a.success b.success }

-- `success_rate` is the quotient of the two counts, a float that is left out.
pub record TopDomainStats : Type 0 where
  pub stats_domain : Bytes
  pub total_count : ℕ
  pub success_count : ℕ

unfoldable pub top_domains_with_success : ℕ → ℕ → ℕ → TopNState → List TopDomainStats
top_domains_with_success unix n window_secs st =
    let merged =
      merge_maps no_queries add_counter
        (st.current_domains
          ∷ map (λ b. b.domains) (in_window (cutoff_of unix window_secs) st.history))
        [] in
    top_entries (λ s. s.total_count) n
      (map (λ (d, c). record { stats_domain = d; total_count = c.total; success_count = c.success })
        merged)

unfoldable pub merged_clients : ℕ → TopNState → List (IpAddr × ℕ)
merged_clients cutoff st =
    merge_maps 0 add_u64 (st.current_ips ∷ map (λ b. b.ips) (in_window cutoff st.history)) []

unfoldable pub top_clients : ℕ → ℕ → ℕ → TopNState → List (IpAddr × ℕ)
top_clients unix n window_secs st =
    top_entries (λ e. e.1) n (merged_clients (cutoff_of unix window_secs) st)
