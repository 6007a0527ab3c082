-- ===== src/Health/Webhook/Attempts.antt =====
-- How many attempts the webhook of src/health.rs makes, and with what pauses.
use cognidns_core.Prelude.{
  ℕ, zero, suc, ◌+◌, ◌≤◌, ◌<◌, ◌≡◌, refl, ap, subst, Bool, true, false, Option, some, List, [], ◌∷◌,
  arith,
}
use cognidns_core.Codec.Bytes.{Bytes}
use cognidns_core.Health.Webhook.{
  NotifyCounters, tick, backoff_ms, parse_http_like_url, attempt_loop, post_all_unhealthy_webhook,
}
use cognidns_core.Health.Config.{HealthCheckConfig}
use native.Mathlib.Nat.{mod-eq_of_lt}

-- The pauses after so many failed attempts.
unfoldable pub pauses_from : ℕ → ℕ → ℕ → List ℕ
pauses_from pause attempt zero = []
pauses_from pause attempt (suc n) = backoff_ms pause attempt ∷ pauses_from pause (attempt + 1) n

-- So many attempts and fails more.
abbrev pub counted : ℕ → ℕ → NotifyCounters → NotifyCounters
counted made lost c = record { attempts = c.attempts + made; fails = c.fails + lost }

tick-eq : (n : ℕ) → n + 1 < 18446744073709551616 → tick n ≡ n + 1
tick-eq n lt = mod-eq_of_lt lt

counters_eq :
    {a b c d : ℕ}
    → a ≡ b
    → c ≡ d
    → Path NotifyCounters (record { attempts = a; fails = c }) (record { attempts = b; fails = d })
counters_eq e f = rw (e, f) refl

module _ (succeeds : ℕ → Bool) (pause : ℕ) where
  delivered_at :
      (left k attempt : ℕ) (c : NotifyCounters)
      → k ≤ left
      → ((i : ℕ) → i < k → succeeds (attempt + i) ≡ false)
      → succeeds (attempt + k) ≡ true
      → c.attempts + left + 1 < 18446744073709551616
      → c.fails + left + 1 < 18446744073709551616
      → attempt_loop succeeds pause left attempt c
        ≡ (counted (k + 1) k c, true, pauses_from pause attempt k)
  unfolding attempt_loop pauses_from
  delivered_at zero zero attempt c le before now fits_a fits_f =
      let s : succeeds attempt ≡ true = subst (λ x. succeeds x ≡ true) (omega arith) now in
      rw (s, tick-eq c.attempts (omega arith))
        (ap (λ x. (x, true, [])) (counters_eq refl (omega arith)))
  delivered_at zero (suc k) attempt c le before now fits_a fits_f = absurd (omega arith)
  delivered_at (suc left) zero attempt c le before now fits_a fits_f =
      let s : succeeds attempt ≡ true = subst (λ x. succeeds x ≡ true) (omega arith) now in
      rw (s, tick-eq c.attempts (omega arith))
        (ap (λ x. (x, true, [])) (counters_eq refl (omega arith)))
  delivered_at (suc left) (suc k) attempt c le before now fits_a fits_f =
      let s : succeeds attempt ≡ false =
        subst (λ x. succeeds x ≡ false) (omega arith) (before 0 (omega arith)) in
      let ih =
        delivered_at left k (attempt + 1) (counted 1 1 c) (omega arith)
          (λ i lt. subst (λ x. succeeds x ≡ false) (omega arith) (before (i + 1) (omega arith)))
          (subst (λ x. succeeds x ≡ true) (omega arith) now) (omega arith) (omega arith) in
      rw (s, tick-eq c.attempts (omega arith), tick-eq c.fails (omega arith), ih)
        (ap (λ x. (x, true, pauses_from pause attempt (suc k)))
          (counters_eq (omega arith) (omega arith)))

  undelivered :
      (left attempt : ℕ) (c : NotifyCounters)
      → ((i : ℕ) → i ≤ left → succeeds (attempt + i) ≡ false)
      → c.attempts + left + 1 < 18446744073709551616
      → c.fails + left + 1 < 18446744073709551616
      → attempt_loop succeeds pause left attempt c
        ≡ (counted (left + 1) (left + 1) c, false, pauses_from pause attempt left)
  unfolding attempt_loop pauses_from
  undelivered zero attempt c never fits_a fits_f =
      let s : succeeds attempt ≡ false =
        subst (λ x. succeeds x ≡ false) (omega arith) (never 0 (omega arith)) in
      rw (s, tick-eq c.attempts (omega arith), tick-eq c.fails (omega arith))
        (ap (λ x. (x, false, [])) (counters_eq refl refl))
  undelivered (suc left) attempt c never fits_a fits_f =
      let s : succeeds attempt ≡ false =
        subst (λ x. succeeds x ≡ false) (omega arith) (never 0 (omega arith)) in
      let ih =
        undelivered left (attempt + 1) (counted 1 1 c)
          (λ i le. subst (λ x. succeeds x ≡ false) (omega arith) (never (i + 1) (omega arith)))
          (omega arith) (omega arith) in
      rw (s, tick-eq c.attempts (omega arith), tick-eq c.fails (omega arith), ih)
        (ap (λ x. (x, false, pauses_from pause attempt (suc left)))
          (counters_eq (omega arith) (omega arith)))

-- With a valid URL and a client, the first attempt that succeeds, if it is among the configured
-- retries, ends the notification: it is delivered, a failure is counted for each attempt before
-- it, and before each further attempt there was the pause that its number asks for. The counters
-- do not wrap.
pub post_webhook_delivers :
    (parse : Bytes → Option Bytes) (succeeds : ℕ → Bool) (cfg : HealthCheckConfig)
    (url parsed : Bytes) (c : NotifyCounters) (k : ℕ)
    → parse_http_like_url parse url ≡ some parsed
    → c.attempts + cfg.notify_webhook_retries + 1 < 18446744073709551616
    → c.fails + cfg.notify_webhook_retries + 1 < 18446744073709551616
    → k ≤ cfg.notify_webhook_retries
    → ((i : ℕ) → i < k → succeeds i ≡ false)
    → succeeds k ≡ true
    → post_all_unhealthy_webhook parse true succeeds cfg url c
      ≡ (counted (k + 1) k c, true, pauses_from cfg.notify_webhook_backoff_ms 0 k)
unfolding post_all_unhealthy_webhook pauses_from
post_webhook_delivers parse succeeds cfg url parsed c k valid fits_a fits_f le before now =
    rw valid (
      delivered_at succeeds cfg.notify_webhook_backoff_ms cfg.notify_webhook_retries k 0 c le
        (λ i lt. subst (λ x. succeeds x ≡ false) (omega arith) (before i lt))
        (subst (λ x. succeeds x ≡ true) (omega arith) now) fits_a fits_f)

-- If no attempt succeeds, there is one attempt more than retries are configured, all of them
-- count as failures, and nothing is delivered.
pub post_webhook_gives_up :
    (parse : Bytes → Option Bytes) (succeeds : ℕ → Bool) (cfg : HealthCheckConfig)
    (url parsed : Bytes) (c : NotifyCounters)
    → parse_http_like_url parse url ≡ some parsed
    → c.attempts + cfg.notify_webhook_retries + 1 < 18446744073709551616
    → c.fails + cfg.notify_webhook_retries + 1 < 18446744073709551616
    → ((i : ℕ) → i ≤ cfg.notify_webhook_retries → succeeds i ≡ false)
    → post_all_unhealthy_webhook parse true succeeds cfg url c ≡ (
      counted (cfg.notify_webhook_retries + 1) (cfg.notify_webhook_retries + 1) c,
      false,
      pauses_from cfg.notify_webhook_backoff_ms 0 cfg.notify_webhook_retries,
    )
unfolding post_all_unhealthy_webhook pauses_from
post_webhook_gives_up parse succeeds cfg url parsed c valid fits_a fits_f never = rw valid (
    undelivered succeeds cfg.notify_webhook_backoff_ms cfg.notify_webhook_retries 0 c
      (λ i le. subst (λ x. succeeds x ≡ false) (omega arith) (never i le)) fits_a fits_f)
