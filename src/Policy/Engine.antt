-- ===== src/Policy/Engine.antt =====
-- `PolicyEngine` of src/policy.rs: its construction from the configuration, and the evaluation of
-- a request. The parser of networks is the package ipnet's, and a parameter.
use cognidns_core.Prelude.{
  ℕ, zero, suc, ◌+◌, Bool, true, false, not, ◌&&◌, ◌||◌, Option, none, some, List, [], ◌∷◌, ◌++◌,
  map, ◌==◌, if◌then◌else◌, ◌>>=◌, length,
}
use cognidns_core.Codec.Edns.{opt_or}
use cognidns_core.Codec.Text.{trim, eq_ignore_case}
use cognidns_core.Codec.Bytes.{Bytes}
use cognidns_core.Policy.Trie.{IpAddr, IpNet, CidrTrie, empty_trie, lookup_ip, insert_all}
use cognidns_core.Policy.Names.{
  normalize_query_name, normalize_domain_pattern, domain_matches_normalized,
}
use cognidns_core.Policy.Rate.{Windows, consume_token}
use cognidns_core.Policy.Rate.Cap.{granted}

pub record PolicyConfig : Type 0 where
  pub allow_clients : List Bytes
  pub blocked_domains : List Bytes
  pub rate_limit_per_second : ℕ
  pub deny_any_queries : Bool

-- What the policy reads of a view.
pub record DnsView : Type 0 where
  pub view_name : Bytes
  pub client_cidrs : List Bytes
  pub view_domains : List Bytes

-- The `reason` strings.
pub data Reason : Type 0 where
  allow : Reason
  acl_denied : Reason
  any_denied : Reason
  view_blocked : Reason
  rpz_blocked : Reason
  rate_limited : Reason

pub record PolicyDecision : Type 0 where
  pub allowed : Bool
  pub decision_rcode : ℕ
  pub reason : Reason
  pub view : Option Bytes

abbrev pub refuse : Reason → PolicyDecision
refuse why = record { allowed = false; decision_rcode = 5; reason = why; view = none }

abbrev pub refuse_in_view : Reason → Bytes → PolicyDecision
refuse_in_view why name = record (refuse why) { view = some name }

abbrev pub allow_decision : PolicyDecision
allow_decision = record { allowed = true; decision_rcode = 0; reason = allow; view = none }

pub record PolicyView : Type 0 where
  pub name : Bytes
  pub patterns : List Bytes

pub record PolicyEngine : Type 0 where
  pub allowed_clients_count : ℕ
  pub allowed_clients_matcher : CidrTrie
  pub global_patterns : List Bytes
  pub views : List PolicyView
  pub view_matcher : CidrTrie
  pub default_view_index : Option ℕ
  pub rate_limit : ℕ
  pub deny_any : Bool
  pub client_windows : Windows

-- What the policy reads of a request.
pub record RequestContext : Type 0 where
  pub client_ip : IpAddr
  pub query_name : Option Bytes
  pub query_type : Option ℕ

-- The normalized patterns that are not empty.
unfoldable pub patterns_of : List Bytes → List Bytes
patterns_of [] = []
patterns_of (item ∷ items) =
    let rest = patterns_of items in
    if length (normalize_domain_pattern item) == 0
    then rest
    else normalize_domain_pattern item ∷ rest

abbrev pub enumerate {ℓ} : {A : Type ℓ} → ℕ → List A → List (A × ℕ)
enumerate i [] = []
enumerate i (x ∷ xs) = (x, i) ∷ enumerate (i + 1) xs

-- "default"
abbrev default_name : Bytes
default_name = 100 ∷ 101 ∷ 102 ∷ 97 ∷ 117 ∷ 108 ∷ 116 ∷ []

unfoldable pub default_position : ℕ → List PolicyView → Option ℕ
default_position i [] = none
default_position i (v ∷ vs) =
    if eq_ignore_case (trim v.name) default_name then some i else default_position (i + 1) vs

unfoldable pub nth_view : List PolicyView → ℕ → Option PolicyView
nth_view [] i = none
nth_view (v ∷ vs) zero = some v
nth_view (v ∷ vs) (suc i) = nth_view vs i

abbrev policy_view : DnsView → PolicyView
policy_view v = record { name = v.view_name; patterns = patterns_of v.view_domains }

module _ (parse : Bytes → Option IpNet) where
  unfoldable pub parse_all : List Bytes → Option (List IpNet)
  parse_all [] = some []
  parse_all (item ∷ items) = do net ← parse item; nets ← parse_all items; some (net ∷ nets)

  -- Every network of every view, with the view's index.
  unfoldable pub view_nets : ℕ → List DnsView → Option (List (IpNet × ℕ))
  view_nets i [] = some []
  view_nets i (v ∷ vs) = do
    nets ← parse_all v.client_cidrs
    rest ← view_nets (i + 1) vs
    some (map (λ net. (net, i)) nets ++ rest)

  unfoldable pub new_with_views : PolicyConfig → List DnsView → Option PolicyEngine
  new_with_views config vs = do
    allowed_clients ← parse_all config.allow_clients
    nets ← view_nets 0 vs
    some (record {
      allowed_clients_count = length allowed_clients;
      allowed_clients_matcher = insert_all empty_trie (enumerate 0 allowed_clients);
      global_patterns = patterns_of config.blocked_domains;
      views = map policy_view vs;
      view_matcher = insert_all empty_trie nets;
      default_view_index = default_position 0 (map policy_view vs);
      rate_limit = config.rate_limit_per_second;
      deny_any = config.deny_any_queries;
      client_windows = [];
    })

-- The view of the first network that covers the client, or the default view.
unfoldable pub matched_view : PolicyEngine → IpAddr → Option PolicyView
matched_view e ip = elim (lookup_ip e.view_matcher ip >>= nth_view e.views) [
  | some v ↦ some v
  | none ↦ e.default_view_index >>= nth_view e.views
]

unfoldable pub any_matches : Bytes → List Bytes → Bool
any_matches query [] = false
any_matches query (p ∷ ps) = domain_matches_normalized query p || any_matches query ps

-- The block lists: the view's first, then the global one.
unfoldable pub blocked_by : PolicyEngine → Option PolicyView → Bytes → Option PolicyDecision
blocked_by e matched query =
    let globally : Option PolicyDecision =
      if any_matches query e.global_patterns
      then some (record {
        allowed = false;
        decision_rcode = 3;
        reason = rpz_blocked;
        view = matched >>= λ v. some v.name;
      })
      else none in
    elim matched [
      | none ↦ globally
      | some v ↦
          if any_matches query v.patterns
          then some (refuse_in_view view_blocked v.name)
          else globally
    ]

abbrev with_windows : PolicyEngine → Windows → PolicyEngine
with_windows e windows = record e { client_windows = windows }

-- The last test: the client's rate.
unfoldable pub limit_rate :
    Bool → ℕ → PolicyEngine → IpAddr → Option PolicyView → PolicyEngine × PolicyDecision
limit_rate swaps now_secs e ip matched =
    let (windows, granted) = consume_token swaps e.rate_limit now_secs ip e.client_windows in
    let passed = record allow_decision { view = matched >>= λ v. some v.name } in
    if e.rate_limit == 0
    then (e, passed)
    else (with_windows e windows, if granted then passed else refuse rate_limited)

-- `client_addr.ip()`, the clock in seconds and the outcome of the weak exchange are arguments.
unfoldable pub evaluate : Bool → ℕ → PolicyEngine → RequestContext → PolicyEngine × PolicyDecision
evaluate swaps now_secs e ctx =
    let denied = opt_or (lookup_ip e.allowed_clients_matcher ctx.client_ip) (λ i. false) true in
    let matched = matched_view e ctx.client_ip in
    let blocked = ctx.query_name >>= λ q. blocked_by e matched (normalize_query_name q) in
    if not (e.allowed_clients_count == 0) && denied
    then (e, refuse acl_denied)
    else if e.deny_any && opt_or ctx.query_type (λ t. t == 255) false
    then (e, refuse any_denied)
    else opt_or blocked (λ d. (e, d)) (limit_rate swaps now_secs e ctx.client_ip matched)
