-- ===== src/Health/State.antt =====
-- `IpHealthManager` of src/health.rs: the registered addresses, the results of the probes, and what
-- the resolver reads of them. The clock, in nanoseconds, is an argument.
use cognidns_core.Prelude.{
  ℕ, ◌+◌, ◌-◌, ◌%◌, min, Bool, true, false, not, ◌&&◌, ◌||◌, Option, none, some, List, [], ◌∷◌,
  ◌++◌, map, ltb, leb, ◌==◌, if◌then◌else◌, ◌>>=◌, length,
}
use cognidns_core.Maps.{text_key, find_key, remove_key, insert_key, update_entry, modify_key}
use cognidns_core.Codec.Edns.{opt_or}
use cognidns_core.Codec.Text.{trim}
use cognidns_core.Codec.Bytes.{Bytes}
use cognidns_core.Cache.Domain.{normalize_domain}
use cognidns_core.Health.Config.{HealthCheckConfig}

pub record IpProbeState : Type 0 where
  pub healthy : Option Bool
  pub consecutive_failures : ℕ
  pub consecutive_successes : ℕ
  pub last_error : Option Bytes
  pub last_checked : Option ℕ

-- `IpProbeState::default`
abbrev pub unprobed : IpProbeState
unprobed = record {
  healthy = none;
  consecutive_failures = 0;
  consecutive_successes = 0;
  last_error = none;
  last_checked = none;
}

abbrev pub ProbeStates : Type 0
ProbeStates = List (Bytes × IpProbeState)

pub record DomainProbeState : Type 0 where
  pub ips : ProbeStates
  pub last_all_unhealthy_logged : Option ℕ

abbrev pub unregistered : DomainProbeState
unregistered = record { ips = []; last_all_unhealthy_logged = none }

pub record IpHealthManager : Type 0 where
  pub cfg : HealthCheckConfig
  pub state : List (Bytes × DomainProbeState)
  pub all_unhealthy_events : ℕ
  pub notify_attempt_total : ℕ
  pub notify_fail_total : ℕ

abbrev pub new_manager : HealthCheckConfig → IpHealthManager
new_manager cfg = record {
  cfg = cfg;
  state = [];
  all_unhealthy_events = 0;
  notify_attempt_total = 0;
  notify_fail_total = 0;
}

-- The loop over the addresses: what is left of the old states, and those that are kept.
unfoldable pub register_loop : List Bytes → ProbeStates → ProbeStates → ProbeStates
register_loop [] old keep = keep
register_loop (ip ∷ ips) old keep =
    let key = trim ip in
    let existing = opt_or (find_key key old) (λ s. s) unprobed in
    let skipped = register_loop ips old keep in
    let taken = register_loop ips (remove_key key old) (insert_key key existing keep) in
    if length key == 0 then skipped else taken

unfoldable pub register_domain_ips : IpHealthManager → Bytes → List Bytes → IpHealthManager
register_domain_ips m domain ips =
    let normalized_domain = normalize_domain domain in
    let registered : IpHealthManager = record m {
      state =
          update_entry normalized_domain unregistered
            (λ entry. record entry { ips = register_loop ips entry.ips [] }) m.state;
    } in
    if not m.cfg.enabled || length ips == 0
    then m
    else if length normalized_domain == 0
    then m
    else registered

-- The last verdict on an address of a domain.
unfoldable pub healthy_of : IpHealthManager → Bytes → Bytes → Option Bool
healthy_of m normalized_domain ip = do
  domain_state ← find_key normalized_domain m.state
  ip_state ← find_key ip domain_state.ips
  ip_state.healthy

unfoldable pub score_of : IpHealthManager → Bytes → Bytes → ℕ
score_of m normalized_domain ip =
    opt_or (healthy_of m normalized_domain ip) (λ healthy. if healthy then 2 else 0) 1

-- `(score, index, ip)`
pub record Ranked : Type 0 where
  pub score : ℕ
  pub index : ℕ
  pub ranked_ip : Bytes

unfoldable pub rank_ips : (Bytes → ℕ) → ℕ → List Bytes → List Ranked
rank_ips score i [] = []
rank_ips score i (ip ∷ ips) =
    record { score = score ip; index = i; ranked_ip = ip } ∷ rank_ips score (i + 1) ips

-- `b.0.cmp(&a.0).then_with(|| a.1.cmp(&b.1))` is not greater.
unfoldable pub ranks_before : Ranked → Ranked → Bool
ranks_before a b = ltb b.score a.score || (a.score == b.score && leb a.index b.index)

-- `sort_by`
unfoldable pub insert_ranked : Ranked → List Ranked → List Ranked
insert_ranked a [] = a ∷ []
insert_ranked a (b ∷ bs) =
    let rest = insert_ranked a bs in if ranks_before a b then a ∷ b ∷ bs else b ∷ rest

unfoldable pub sort_ranked : List Ranked → List Ranked
sort_ranked [] = []
sort_ranked (a ∷ bs) = insert_ranked a (sort_ranked bs)

unfoldable pub prefer_healthy_ips : IpHealthManager → Bytes → List Bytes → List Bytes
prefer_healthy_ips m domain ips =
    let ranked = rank_ips (score_of m (normalize_domain domain)) 0 ips in
    if not m.cfg.enabled || leb (length ips) 1
    then ips
    else map (λ r. r.ranked_ip) (sort_ranked ranked)

-- The loop over the addresses, with the number of those checked.
unfoldable pub all_unhealthy_loop : ProbeStates → ℕ → List Bytes → Option ℕ
all_unhealthy_loop states checked [] = some checked
all_unhealthy_loop states checked (ip ∷ ips) =
    let rest = all_unhealthy_loop states (checked + 1) ips in
    elim (find_key ip states) [
      | none ↦ none
      | some ip_state ↦ opt_or ip_state.healthy (λ healthy. if healthy then none else rest) none
    ]

unfoldable pub all_unhealthy_for_domain : IpHealthManager → Bytes → List Bytes → Bool
all_unhealthy_for_domain m domain ips =
    if not m.cfg.enabled || length ips == 0
    then false
    else opt_or (find_key (normalize_domain domain) m.state)
        (λ domain_state.
          opt_or (all_unhealthy_loop domain_state.ips 0 ips) (λ checked. checked == length ips)
            false)
        false

abbrev pub minute : ℕ
minute = 60000000000

-- Whether a domain's event may be logged again.
unfoldable pub should_log : ℕ → Option ℕ → Bool
should_log now last = opt_or last (λ t. not (ltb (now - t) minute)) true

-- The event, and the webhook that is then called, if one is configured.
pub data Event : Type 0 where
  unlogged : Event
  logged : Option Bytes → Event

unfoldable pub webhook_url : HealthCheckConfig → Option Bytes
webhook_url cfg =
    opt_or cfg.notify_webhook (λ url. if length (trim url) == 0 then none else some (trim url)) none

unfoldable pub note_event : ℕ → DomainProbeState → DomainProbeState
note_event now entry =
    if should_log now entry.last_all_unhealthy_logged
    then record entry { last_all_unhealthy_logged = some now }
    else entry

unfoldable pub record_all_unhealthy_event :
    ℕ → IpHealthManager → Bytes → List Bytes → IpHealthManager × Event
record_all_unhealthy_event now m domain ips =
    let normalized_domain = normalize_domain domain in
    let entry = opt_or (find_key normalized_domain m.state) (λ s. s) unregistered in
    let noted = update_entry normalized_domain unregistered (note_event now) m.state in
    if not m.cfg.enabled || length ips == 0
    then (m, unlogged)
    else if should_log now entry.last_all_unhealthy_logged
    then (
      record m {
        state = noted;
        all_unhealthy_events = (m.all_unhealthy_events + 1) % 18446744073709551616;
      },
      logged (webhook_url m.cfg),
    )
    else (record m { state = noted }, unlogged)

pub record HealthCheckSummary : Type 0 where
  pub summary_enabled : Bool
  pub tracked_domains : ℕ
  pub tracked_ips : ℕ
  pub degraded_domains : ℕ
  pub events : ℕ
  pub notify_attempts : ℕ
  pub notify_fails : ℕ

unfoldable pub all_down : ProbeStates → Bool
all_down [] = true
all_down ((ip, s) ∷ states) = opt_or s.healthy not false && all_down states

unfoldable pub count_ips : List (Bytes × DomainProbeState) → ℕ
count_ips [] = 0
count_ips ((d, s) ∷ all) = length s.ips + count_ips all

unfoldable pub count_degraded : List (Bytes × DomainProbeState) → ℕ
count_degraded [] = 0
count_degraded ((d, s) ∷ all) =
    (if not (length s.ips == 0) && all_down s.ips then 1 else 0) + count_degraded all

unfoldable pub summary : IpHealthManager → HealthCheckSummary
summary m = record {
  summary_enabled = m.cfg.enabled;
  tracked_domains = length m.state;
  tracked_ips = count_ips m.state;
  degraded_domains = count_degraded m.state;
  events = m.all_unhealthy_events;
  notify_attempts = m.notify_attempt_total;
  notify_fails = m.notify_fail_total;
}

unfoldable pub collect_workload : List (Bytes × DomainProbeState) → List (Bytes × Bytes)
collect_workload [] = []
collect_workload ((domain, s) ∷ all) =
    map (λ entry. (domain, entry.0)) s.ips ++ collect_workload all

-- The result of a probe: `Ok(())`, or the text of the error.
pub data ProbeResult : Type 0 where
  probe_ok : ProbeResult
  probe_err : Bytes → ProbeResult

-- `saturating_add(1)` on 32 bits
abbrev pub count_up : ℕ → ℕ
count_up n = min (n + 1) 4294967295

unfoldable pub note_probe : HealthCheckConfig → ℕ → ProbeResult → IpProbeState → IpProbeState
note_probe cfg now probe_ok s =
    let successes = count_up s.consecutive_successes in
    record {
      healthy = if leb cfg.success_threshold successes then some true else s.healthy;
      consecutive_failures = 0;
      consecutive_successes = successes;
      last_error = none;
      last_checked = some now;
    }
note_probe cfg now (probe_err text) s =
    let failures = count_up s.consecutive_failures in
    record {
      healthy = if leb cfg.failure_threshold failures then some false else s.healthy;
      consecutive_failures = failures;
      consecutive_successes = 0;
      last_error = some text;
      last_checked = some now;
    }

unfoldable pub update_probe_result :
    ℕ → IpHealthManager → Bytes → Bytes → ProbeResult → IpHealthManager
update_probe_result now m domain ip result = record m {
  state =
      modify_key domain (λ s. record s { ips = modify_key ip (note_probe m.cfg now result) s.ips })
        m.state;
}
