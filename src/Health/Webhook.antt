-- ===== src/Health/Webhook.antt =====
-- `post_all_unhealthy_webhook` of src/health.rs: the attempts, their counters and the pauses. The
-- URL parser and the client are packages': the parser, whether a client can be built and the
-- outcome of each attempt are arguments.
pub mod Attempts
use cognidns_core.Prelude.{
  ℕ, zero, suc, ◌+◌, ◌*◌, ◌%◌, ◌^◌, min, Bool, true, false, not, ◌||◌, Option, none, List, [], ◌∷◌,
  ◌==◌, if◌then◌else◌, length,
}
use cognidns_core.Codec.Edns.{opt_or}
use cognidns_core.Codec.Text.{trim, is_prefix}
use cognidns_core.Codec.Bytes.{Bytes}
use cognidns_core.Health.Config.{HealthCheckConfig}

pub record NotifyCounters : Type 0 where
  pub attempts : ℕ
  pub fails : ℕ

-- `fetch_add(1)` on 64 bits
abbrev pub tick : ℕ → ℕ
tick n = (n + 1) % 18446744073709551616

-- `saturating_mul` of the configured pause with a power of two, at most `2 ^ 16`
unfoldable pub backoff_ms : ℕ → ℕ → ℕ
backoff_ms pause attempt = min (pause * 2 ^ min attempt 16) 18446744073709551615

-- "http://", "https://"
abbrev pub http_scheme : Bytes
http_scheme = 104 ∷ 116 ∷ 116 ∷ 112 ∷ 58 ∷ 47 ∷ 47 ∷ []

abbrev pub https_scheme : Bytes
https_scheme = 104 ∷ 116 ∷ 116 ∷ 112 ∷ 115 ∷ 58 ∷ 47 ∷ 47 ∷ []

unfoldable pub parse_http_like_url : (Bytes → Option Bytes) → Bytes → Option Bytes
parse_http_like_url parse url =
    let trimmed = trim url in
    if length trimmed == 0
    then none
    else if not (is_prefix http_scheme trimmed || is_prefix https_scheme trimmed)
    then none
    else parse trimmed

-- `for attempt in 0..=retries`: how many attempts are left after this one, the counters, whether
-- an attempt succeeded, and the pauses. `succeeds` says which attempts get a success status.
unfoldable pub attempt_loop :
    (ℕ → Bool) → ℕ → ℕ → ℕ → NotifyCounters → NotifyCounters × Bool × List ℕ
attempt_loop succeeds pause zero attempt c =
    let tried = record c { attempts = tick c.attempts } in
    if succeeds attempt
    then (tried, true, [])
    else (record tried { fails = tick c.fails }, false, [])
attempt_loop succeeds pause (suc left) attempt c =
    let tried = record c { attempts = tick c.attempts } in
    let failed_once : NotifyCounters = record tried { fails = tick c.fails } in
    let (after, delivered, pauses) = attempt_loop succeeds pause left (attempt + 1) failed_once in
    if succeeds attempt
    then (tried, true, [])
    else (after, delivered, backoff_ms pause attempt ∷ pauses)

unfoldable pub post_all_unhealthy_webhook :
    (Bytes → Option Bytes)
    → Bool
    → (ℕ → Bool)
    → HealthCheckConfig
    → Bytes
    → NotifyCounters
    → NotifyCounters × Bool × List ℕ
post_all_unhealthy_webhook parse client succeeds cfg url c =
    let not_sent : NotifyCounters × Bool × List ℕ =
      (record c { fails = tick c.fails }, false, []) in
    opt_or (parse_http_like_url parse url)
      (λ parsed.
        if client
        then attempt_loop succeeds cfg.notify_webhook_backoff_ms cfg.notify_webhook_retries 0 c
        else not_sent)
      not_sent
