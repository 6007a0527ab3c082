-- ===== src/Health/Config.antt =====
-- `HealthCheckConfig` of src/health.rs and its validation.
use cognidns_core.Prelude.{
  ℕ, ◌≤◌, ◌<◌, ◌≡◌, refl, ◌↔◌, ◌⊎◌, inl, inr, Bool, true, false, not, ◌&&◌, ◌||◌, Option, none, [],
  ◌∷◌, arith, ltb, ◌==◌, if◌then◌else◌, Bool-cases, length,
}
use cognidns_core.Codec.Text.{trim, eq_ignore_case}
use cognidns_core.Codec.Bytes.{Bytes}

pub record HealthCheckConfig : Type 0 where
  pub enabled : Bool
  pub mode : Bytes
  pub port : ℕ
  pub http_path : Bytes
  pub http_host_header : Option Bytes
  pub interval_secs : ℕ
  pub timeout_ms : ℕ
  pub max_parallel : ℕ
  pub failure_threshold : ℕ
  pub success_threshold : ℕ
  pub all_unhealthy_log_file : Bytes
  pub notify_webhook : Option Bytes
  pub probe_tls_insecure_skip_verify : Bool
  pub webhook_tls_insecure_skip_verify : Bool
  pub notify_webhook_retries : ℕ
  pub notify_webhook_backoff_ms : ℕ

-- "tcp", "http", "https"
abbrev pub tcp_mode : Bytes
tcp_mode = 116 ∷ 99 ∷ 112 ∷ []

abbrev pub http_mode : Bytes
http_mode = 104 ∷ 116 ∷ 116 ∷ 112 ∷ []

abbrev pub https_mode : Bytes
https_mode = 104 ∷ 116 ∷ 116 ∷ 112 ∷ 115 ∷ []

-- `HealthCheckConfig::default`
abbrev pub default_config : HealthCheckConfig
default_config = record {
  enabled = false;
  mode = tcp_mode;
  port = 80;
  http_path = 47 ∷ [];
  http_host_header = none;
  interval_secs = 30;
  timeout_ms = 1000;
  max_parallel = 64;
  failure_threshold = 2;
  success_threshold = 1;
  all_unhealthy_log_file =
      108 ∷ 111 ∷ 103 ∷ 115 ∷ 47 ∷ 104 ∷ 101 ∷ 97 ∷ 108 ∷ 116 ∷ 104 ∷ 45 ∷ 97 ∷ 108 ∷ 108 ∷ 45 ∷ 117
      ∷ 110 ∷ 104 ∷ 101 ∷ 97 ∷ 108 ∷ 116 ∷ 104 ∷ 121 ∷ 46 ∷ 108 ∷ 111 ∷ 103 ∷ [];
  notify_webhook = none;
  probe_tls_insecure_skip_verify = false;
  webhook_tls_insecure_skip_verify = false;
  notify_webhook_retries = 2;
  notify_webhook_backoff_ms = 500;
}

-- The messages of `validate`'s errors, named after the field.
pub data ConfigFault : Type 0 where
  mode_fault : ConfigFault
  port_fault : ConfigFault
  interval_fault : ConfigFault
  timeout_fault : ConfigFault
  max_parallel_fault : ConfigFault
  failure_threshold_fault : ConfigFault
  success_threshold_fault : ConfigFault
  http_path_fault : ConfigFault
  retries_fault : ConfigFault
  backoff_fault : ConfigFault

-- `Ok(())` or the error.
pub data Verdict : Type 0 where
  accepted : Verdict
  rejected : ConfigFault → Verdict

unfoldable pub validate : HealthCheckConfig → Verdict
validate c =
    if not c.enabled
    then accepted
    else if not (eq_ignore_case c.mode tcp_mode)
        && (not (eq_ignore_case c.mode http_mode) && not (eq_ignore_case c.mode https_mode))
    then rejected mode_fault
    else if c.port == 0
    then rejected port_fault
    else if c.interval_secs == 0
    then rejected interval_fault
    else if c.timeout_ms == 0
    then rejected timeout_fault
    else if c.max_parallel == 0
    then rejected max_parallel_fault
    else if c.failure_threshold == 0
    then rejected failure_threshold_fault
    else if c.success_threshold == 0
    then rejected success_threshold_fault
    else if length (trim c.http_path) == 0
    then rejected http_path_fault
    else if ltb 10 c.notify_webhook_retries
    then rejected retries_fault
    else if c.notify_webhook_backoff_ms == 0
    then rejected backoff_fault
    else accepted

-- What an enabled health check needs.
pub record IsUsable (c : HealthCheckConfig) : Type 0 where
  pub known_mode :
      (eq_ignore_case c.mode tcp_mode
        || (eq_ignore_case c.mode http_mode || eq_ignore_case c.mode https_mode))
      ≡ true
  pub some_port : 0 < c.port
  pub some_interval : 0 < c.interval_secs
  pub some_timeout : 0 < c.timeout_ms
  pub some_parallel : 0 < c.max_parallel
  pub some_failures : 0 < c.failure_threshold
  pub some_successes : 0 < c.success_threshold
  pub some_path : 0 < length (trim c.http_path)
  pub few_retries : c.notify_webhook_retries ≤ 10
  pub some_backoff : 0 < c.notify_webhook_backoff_ms

-- A test that rejects, passed.
passed :
    (t : Bool) (e : ConfigFault) (v : Verdict)
    → (if t then rejected e else v) ≡ accepted
    → (t ≡ false) × (v ≡ accepted)
passed true e v h = cc
passed false e v h = (refl, h)

when_enabled :
    (t : Bool) (v : Verdict) → t ≡ true → (if not t then accepted else v) ≡ accepted → v ≡ accepted
when_enabled true v e h = h
when_enabled false v e h = cc

positive : (n : ℕ) → (n == 0) ≡ false → 0 < n
positive n h = ground arith

at_most : (m n : ℕ) → ltb m n ≡ false → n ≤ m
at_most m n h = ground arith

one_of_three : (a b c : Bool) → (not a && (not b && not c)) ≡ false → (a || (b || c)) ≡ true
one_of_three a b c h = ground arith

validate-IsUsable : (c : HealthCheckConfig) → c.enabled ≡ true → validate c ≡ accepted → IsUsable c
unfolding validate
validate-IsUsable c e h0 =
    let h = when_enabled c.enabled _ e h0 in
    let (t1, h1) = passed _ _ _ h in
    let (t2, h2) = passed _ _ _ h1 in
    let (t3, h3) = passed _ _ _ h2 in
    let (t4, h4) = passed _ _ _ h3 in
    let (t5, h5) = passed _ _ _ h4 in
    let (t6, h6) = passed _ _ _ h5 in
    let (t7, h7) = passed _ _ _ h6 in
    let (t8, h8) = passed _ _ _ h7 in
    let (t9, h9) = passed _ _ _ h8 in
    let (t10, h10) = passed _ _ _ h9 in
    record {
      known_mode =
          one_of_three (eq_ignore_case c.mode tcp_mode) (eq_ignore_case c.mode http_mode)
            (eq_ignore_case c.mode https_mode) t1;
      some_port = positive _ t2;
      some_interval = positive _ t3;
      some_timeout = positive _ t4;
      some_parallel = positive _ t5;
      some_failures = positive _ t6;
      some_successes = positive _ t7;
      some_path = positive _ t8;
      few_retries = at_most _ _ t9;
      some_backoff = positive _ t10;
    }

IsUsable-validate : (c : HealthCheckConfig) → IsUsable c → validate c ≡ accepted
unfolding validate
IsUsable-validate c u =
    let mode_ok = u.known_mode in
    let port_ok : (c.port == 0) ≡ false = ground (arith, u.some_port) in
    let interval_ok : (c.interval_secs == 0) ≡ false = ground (arith, u.some_interval) in
    let timeout_ok : (c.timeout_ms == 0) ≡ false = ground (arith, u.some_timeout) in
    let parallel_ok : (c.max_parallel == 0) ≡ false = ground (arith, u.some_parallel) in
    let failures_ok : (c.failure_threshold == 0) ≡ false = ground (arith, u.some_failures) in
    let successes_ok : (c.success_threshold == 0) ≡ false = ground (arith, u.some_successes) in
    let path_ok : (length (trim c.http_path) == 0) ≡ false = ground (arith, u.some_path) in
    let retries_ok : ltb 10 c.notify_webhook_retries ≡ false = ground (arith, u.few_retries) in
    let backoff_ok : (c.notify_webhook_backoff_ms == 0) ≡ false = ground (arith, u.some_backoff) in
    rw
      (
        port_ok, interval_ok, timeout_ok, parallel_ok, failures_ok, successes_ok, path_ok,
        retries_ok, backoff_ok,
      )
      (ground arith)

-- A configuration is accepted exactly if health checks are disabled, or the mode is one of the
-- three, the port, the interval, the timeout, the parallelism, both thresholds and the backoff
-- are positive, the path is not blank and there are at most 10 retries.
pub validate-IsUsable_iff :
    (c : HealthCheckConfig) → (validate c ≡ accepted) ↔ ((c.enabled ≡ false) ⊎ IsUsable c)
unfolding validate
validate-IsUsable_iff c = (only_if, if_usable)
  where
    only_if : validate c ≡ accepted → (c.enabled ≡ false) ⊎ IsUsable c
    only_if h = elim (Bool-cases c.enabled) [
      | inl e ↦ inr (validate-IsUsable c e h)
      | inr e ↦ inl e
    ]

    if_usable : (c.enabled ≡ false) ⊎ IsUsable c → validate c ≡ accepted
    if_usable (inl e) = rw e refl
    if_usable (inr u) = IsUsable-validate c u
