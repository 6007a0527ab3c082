-- ===== src/Policy/Tests.antt =====
-- The policy of src/policy.rs on concrete networks, names and clients.
use cognidns_core.Prelude.{
  ℕ, ◌+◌, ◌-◌, ◌<◌, min, ◌≡◌, refl, ◌↔◌, true, false, Option, none, some, List, [], ◌∷◌, arith, All,
}
use cognidns_core.Codec.Text.{text_eq, strip_prefix}
use cognidns_core.Codec.Bytes.{Bytes}
use cognidns_core.Codec.Text.Below.{IsBelow}
use cognidns_core.Policy.Trie.{
  bit_at, update_min_index, insert_loop, insert_prefix_bits, note_min, lookup_loop, lookup_bits, v4,
  IpNet, v4_net, empty_trie, insert_net, lookup_ip, insert_all,
}
use cognidns_core.Policy.Names.{normalize_query_name, domain_matches_normalized}
use cognidns_core.Policy.Access.{evaluate-acl_denied}
use cognidns_core.Policy.Rate.{rotate, fetch_add, ip_eq, window_of, set_window, consume_token}
use cognidns_core.Policy.Engine.{
  PolicyConfig, acl_denied, PolicyEngine, RequestContext, patterns_of, default_position, nth_view,
  parse_all, view_nets, new_with_views, matched_view, any_matches, blocked_by, limit_rate, evaluate,
}
use cognidns_core.Policy.Trie.Lookup.{same_bits}
use cognidns_core.Policy.Trie.Least.{covers, IsLeast, lookup_ip-insert_all}
use cognidns_core.Policy.Names.Match.{domain_matches-wildcard}
use cognidns_core.Policy.Rate.Cap.{granted, granted-eq}

program : Unit {0}
unfolding bit_at update_min_index insert_loop insert_prefix_bits note_min lookup_loop lookup_bits
    insert_net lookup_ip insert_all parse_all view_nets new_with_views patterns_of default_position
    nth_view normalize_query_name domain_matches_normalized matched_view any_matches blocked_by
    limit_rate evaluate rotate fetch_add window_of set_window consume_token ip_eq text_eq same_bits
    strip_prefix
program = tt

abbrev ten : Bytes
ten = 10 ∷ 1 ∷ 2 ∷ 3 ∷ []

-- 10.0.0.0/8 with index 1, 10.1.0.0/16 with index 0
abbrev nets : List (IpNet × ℕ)
nets = (v4_net (10 ∷ 0 ∷ 0 ∷ 0 ∷ []) 8, 1) ∷ (v4_net (10 ∷ 1 ∷ 0 ∷ 0 ∷ []) 16, 0) ∷ []

nets-looked_up : lookup_ip (insert_all empty_trie nets) (v4 ten) ≡ some 0
unfolding program
nets-looked_up = refl

lookup_ip-insert_all_example :
    IsLeast nets (v4 ten) (lookup_ip (insert_all empty_trie nets) (v4 ten))
lookup_ip-insert_all_example = lookup_ip-insert_all nets (v4 ten)

-- A parser that knows one network, 10.0.0.0/8.
abbrev parse_ten : Bytes → Option IpNet
parse_ten item = some (v4_net (10 ∷ 0 ∷ 0 ∷ 0 ∷ []) 8)

abbrev config : PolicyConfig
config = record {
  allow_clients = (49 ∷ []) ∷ [];
  blocked_domains = [];
  rate_limit_per_second = 0;
  deny_any_queries = false;
}

abbrev engine : PolicyEngine
engine = record {
  allowed_clients_count = 1;
  allowed_clients_matcher = insert_all empty_trie ((v4_net (10 ∷ 0 ∷ 0 ∷ 0 ∷ []) 8, 0) ∷ []);
  global_patterns = [];
  views = [];
  view_matcher = empty_trie;
  default_view_index = none;
  rate_limit = 0;
  deny_any = false;
  client_windows = [];
}

abbrev request : RequestContext
request = record { client_ip = v4 (11 ∷ 0 ∷ 0 ∷ 1 ∷ []); query_name = none; query_type = some 1 }

engine-built : new_with_views parse_ten config [] ≡ some engine
unfolding program
engine-built = refl

allow_list-parsed :
    parse_all parse_ten config.allow_clients ≡ some (v4_net (10 ∷ 0 ∷ 0 ∷ 0 ∷ []) 8 ∷ [])
unfolding program
allow_list-parsed = refl

evaluate-acl_denied_example : ((evaluate true 5 engine request).1.reason ≡ acl_denied) ↔ (
    (0 < 1)
    × All (λ net. covers net request.client_ip ≡ false) (v4_net (10 ∷ 0 ∷ 0 ∷ 0 ∷ []) 8 ∷ []))
evaluate-acl_denied_example =
    evaluate-acl_denied parse_ten config [] engine (v4_net (10 ∷ 0 ∷ 0 ∷ 0 ∷ []) 8 ∷ []) true 5
      request engine-built allow_list-parsed

request-denied : (evaluate true 5 engine request).1.reason ≡ acl_denied
unfolding program
request-denied = refl

fresh_window : (window_of (v4 ten) 5 []).window_start ≡ 5
unfolding program
fresh_window = refl

small_count : (window_of (v4 ten) 5 []).count + 3 < 18446744073709551616
unfolding program
small_count = omega arith

granted-eq_example :
    granted (true ∷ true ∷ true ∷ []) 2 5 (v4 ten) [] ≡ min 3 (2 - (window_of (v4 ten) 5 []).count)
granted-eq_example =
    granted-eq (true ∷ true ∷ true ∷ []) 2 5 (v4 ten) [] (ground arith) fresh_window small_count

domain_matches-wildcard_example :
    (domain_matches_normalized (97 ∷ 46 ∷ 98 ∷ []) (42 ∷ 46 ∷ 98 ∷ []) ≡ true)
    ↔ IsBelow (97 ∷ 46 ∷ 98 ∷ []) (98 ∷ [])
domain_matches-wildcard_example =
    domain_matches-wildcard (97 ∷ 46 ∷ 98 ∷ []) (98 ∷ []) (omega arith) (omega arith)
