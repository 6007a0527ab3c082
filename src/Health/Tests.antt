-- ===== src/Health/Tests.antt =====
-- The health checks of src/health.rs on a domain with two addresses.
use cognidns_core.Prelude.{
  ◌≡◌, refl, ◌↔◌, ◌⊎◌, true, false, ◌&&◌, none, some, List, [], ◌∷◌, ◌++◌, arith, ◌==◌, length,
}
use cognidns_core.Maps.{text_key, find_key, remove_key, insert_key, update_entry, modify_key}
use cognidns_core.Codec.Text.{
  text_eq, strip_prefix, strip_any, strip_while, trim_start_any, trim_end_any, trim, trim_end_dots,
  lower_byte, to_lower, eq_ignore_case, is_prefix,
}
use cognidns_core.Codec.Bytes.{Bytes}
use cognidns_core.Cache.Domain.{normalize_domain}
use cognidns_core.Health.Unhealthy.{every, all_unhealthy-every}
use cognidns_core.Health.Webhook.{
  NotifyCounters, backoff_ms, http_scheme, parse_http_like_url, attempt_loop,
  post_all_unhealthy_webhook,
}
use cognidns_core.Health.Runs.{
  run_length, judge, Report, after_reports, history_of, state_of, healthy_of-after_reports,
}
use cognidns_core.Health.Register.{listed, kept, register_domain_ips-kept}
use cognidns_core.Health.Config.{
  HealthCheckConfig, default_config, retries_fault, accepted, rejected, validate, IsUsable,
  validate-IsUsable_iff,
}
use cognidns_core.Health.State.{
  unprobed, IpHealthManager, new_manager, register_loop, register_domain_ips, healthy_of, score_of,
  rank_ips, ranks_before, insert_ranked, sort_ranked, prefer_healthy_ips, all_unhealthy_loop,
  all_unhealthy_for_domain, should_log, webhook_url, note_event, record_all_unhealthy_event,
  all_down, count_ips, count_degraded, summary, collect_workload, probe_ok, probe_err, note_probe,
  update_probe_result,
}
use cognidns_core.Health.Order.{those, is_unhealthy, by_verdict, prefer_healthy_ips-by_verdict}
use cognidns_core.Health.Events.{Call, logged_times, Spaced, last_logged, logged_times-Spaced}
use cognidns_core.Health.Webhook.Attempts.{pauses_from, counted, post_webhook_delivers}

program : Unit {0}
unfolding register_domain_ips register_loop normalize_domain trim trim_start_any trim_end_any
    strip_while strip_any strip_prefix trim_end_dots to_lower lower_byte find_key remove_key
    insert_key update_entry modify_key text_eq prefer_healthy_ips score_of healthy_of rank_ips
    sort_ranked insert_ranked ranks_before update_probe_result note_probe after_reports
    all_unhealthy_for_domain all_unhealthy_loop record_all_unhealthy_event note_event should_log
    summary count_ips count_degraded all_down validate eq_ignore_case by_verdict every listed kept
    parse_http_like_url is_prefix webhook_url run_length judge history_of collect_workload
    logged_times Spaced post_all_unhealthy_webhook attempt_loop pauses_from backoff_ms those
program = tt

-- "a.b", and the addresses "1" and "2"
abbrev a_b : Bytes
a_b = 97 ∷ 46 ∷ 98 ∷ []

abbrev first_ip : Bytes
first_ip = 49 ∷ []

abbrev second_ip : Bytes
second_ip = 50 ∷ []

abbrev checked : HealthCheckConfig
checked = record default_config { enabled = true }

abbrev both : List Bytes
both = first_ip ∷ second_ip ∷ []

abbrev registered : IpHealthManager
registered = record (new_manager checked) {
  state =
      (
        a_b,
        record {
          ips = (second_ip, unprobed) ∷ (first_ip, unprobed) ∷ [];
          last_all_unhealthy_logged = none;
        },
      )
      ∷ [];
}

-- The domain is registered under its normal form, the addresses without spaces.
register-registered :
    register_domain_ips
      (new_manager checked)
      (97 ∷ 46 ∷ 66 ∷ 46 ∷ [])
      ((32 ∷ 49 ∷ []) ∷ second_ip ∷ [])
    ≡ registered
unfolding program
register-registered = refl

validate-accepted : validate checked ≡ accepted
unfolding program
validate-accepted = refl

validate-retries :
    validate (record checked { notify_webhook_retries = 11 }) ≡ rejected retries_fault
unfolding program
validate-retries = refl

-- The first address fails twice, the second answers.
abbrev reports : List Report
reports =
    record { when = 3; domain = a_b; ip = first_ip; result = probe_err [] }
    ∷ record { when = 2; domain = a_b; ip = second_ip; result = probe_ok }
    ∷ record { when = 1; domain = a_b; ip = first_ip; result = probe_err [] }
    ∷ []

abbrev probed : IpHealthManager
probed = after_reports registered reports

prefer-probed : prefer_healthy_ips probed a_b both ≡ second_ip ∷ first_ip ∷ []
unfolding program
prefer-probed = refl

one_is_up : all_unhealthy_for_domain probed a_b both ≡ false
unfolding program
one_is_up = refl

first_is_down : all_unhealthy_for_domain probed a_b (first_ip ∷ []) ≡ true
unfolding program
first_is_down = refl

summary-probed : (summary probed).tracked_ips ≡ 2
unfolding program
summary-probed = refl

workload : collect_workload registered.state ≡ (a_b, second_ip) ∷ (a_b, first_ip) ∷ []
unfolding program
workload = refl

first_unprobed : state_of registered a_b first_ip ≡ some unprobed
unfolding program
first_unprobed = refl

healthy_of-after_reports_example :
    healthy_of probed a_b first_ip ≡ judge checked (history_of a_b first_ip reports)
healthy_of-after_reports_example =
    healthy_of-after_reports registered a_b first_ip reports first_unprobed (omega arith)
      (omega arith)

first_judged : judge checked (history_of a_b first_ip reports) ≡ some false
unfolding program
first_judged = refl

prefer_healthy_ips-by_verdict_example :
    prefer_healthy_ips registered a_b both ≡ by_verdict registered (normalize_domain a_b) both
prefer_healthy_ips-by_verdict_example = prefer_healthy_ips-by_verdict registered a_b both refl

all_unhealthy-every_example : all_unhealthy_for_domain registered a_b both ≡ (
    true
    && (true && every (λ ip. is_unhealthy (healthy_of registered (normalize_domain a_b) ip)) both))
all_unhealthy-every_example = all_unhealthy-every registered a_b both

validate-IsUsable_iff_example :
    (validate checked ≡ accepted) ↔ ((checked.enabled ≡ false) ⊎ IsUsable checked)
validate-IsUsable_iff_example = validate-IsUsable_iff checked

named : (length (normalize_domain a_b) == 0) ≡ false
unfolding program
named = refl

register_domain_ips-kept_example :
    state_of (register_domain_ips registered a_b both) (normalize_domain a_b) first_ip
    ≡ kept (listed first_ip both) (state_of registered (normalize_domain a_b) first_ip) none
register_domain_ips-kept_example =
    register_domain_ips-kept registered a_b both first_ip refl refl named refl

-- An address that is listed twice loses its verdict.
twice_listed :
    healthy_of (register_domain_ips probed a_b (first_ip ∷ first_ip ∷ [])) a_b first_ip ≡ none
unfolding program
twice_listed = refl

abbrev calls : List Call
calls =
    record { when = 70000000000; domain = a_b; ips = both }
    ∷ record { when = 80000000000; domain = a_b; ips = both }
    ∷ record { when = 130000000000; domain = a_b; ips = both }
    ∷ []

two_logged : logged_times a_b registered calls ≡ 70000000000 ∷ 130000000000 ∷ []
unfolding program
two_logged = refl

logged_times-Spaced_example :
    Spaced (last_logged registered a_b) (logged_times a_b registered calls)
logged_times-Spaced_example = logged_times-Spaced a_b registered calls

-- "http://a"
abbrev hook : Bytes
hook = http_scheme ++ (97 ∷ [])

abbrev no_posts : NotifyCounters
no_posts = record { attempts = 0; fails = 0 }

hook-parsed : parse_http_like_url some hook ≡ some hook
unfolding program
hook-parsed = refl

post_webhook_delivers_example :
    post_all_unhealthy_webhook some true (λ i. i == 1) checked hook no_posts
    ≡ (counted 2 1 no_posts, true, pauses_from 500 0 1)
post_webhook_delivers_example =
    post_webhook_delivers some (λ i. i == 1) checked hook hook no_posts 1 hook-parsed (omega arith)
      (omega arith) (omega arith) (λ i lt. ground arith) refl
