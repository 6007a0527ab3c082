-- ===== src/Health/Unhealthy.antt =====
-- When `all_unhealthy_for_domain` of src/health.rs reports a domain, and what that means for the
-- order of its addresses.
use cognidns_core.Prelude.{
  ℕ, ◌+◌, ◌≡◌, refl, ap, ◌≢◌, inl, inr, Bool, true, false, not, ◌&&◌, none, some, List, [], ◌∷◌,
  arith, ◌==◌, if◌then◌else◌, Option-cases, ◌>>=◌, length,
}
use cognidns_core.Maps.{text_key, find_key}
use cognidns_core.Codec.Bytes.{Bytes}
use cognidns_core.Cache.Domain.{normalize_domain}
use cognidns_core.Health.State.{
  ProbeStates, IpHealthManager, healthy_of, all_unhealthy_loop, all_unhealthy_for_domain,
}
use cognidns_core.Health.Order.{is_unhealthy}

unfoldable pub every : (Bytes → Bool) → List Bytes → Bool
every test [] = true
every test (ip ∷ ips) = test ip && every test ips

all_unhealthy_loop-every :
    (states : ProbeStates) (checked : ℕ) (ips : List Bytes)
    → all_unhealthy_loop states checked ips ≡ (
        if every (λ ip. is_unhealthy (find_key ip states >>= λ s. s.healthy)) ips
        then some (checked + length ips)
        else none)
unfolding all_unhealthy_loop every
all_unhealthy_loop-every states checked [] = ap some (omega arith)
all_unhealthy_loop-every states checked (ip ∷ ips) =
    ground (arith, all_unhealthy_loop-every states (checked + 1) ips)

every-none :
    (test : Bytes → Bool) (ips : List Bytes)
    → ((ip : Bytes) → test ip ≡ false)
    → length ips ≢ 0
    → every test ips ≡ false
unfolding every
every-none test [] h pos = absurd (pos refl)
every-none test (ip ∷ ips) h pos = rw (h ip)

-- A domain is reported exactly if health checks are enabled, there is an address, and the last
-- verdict on each of the addresses is unhealthy.
pub all_unhealthy-every :
    (m : IpHealthManager) (domain : Bytes) (ips : List Bytes)
    → all_unhealthy_for_domain m domain ips ≡ (
        m.cfg.enabled
        && (not (length ips == 0)
            && every (λ ip. is_unhealthy (healthy_of m (normalize_domain domain) ip)) ips))
unfolding all_unhealthy_for_domain healthy_of
all_unhealthy-every m domain ips =
    elim (Option-cases (find_key (normalize_domain domain) m.state)) [
      | inl e ↦ rw e (ground (arith, every-none (λ ip. false) ips (λ ip. refl)))
      | inr (s, e) ↦ rw (e, all_unhealthy_loop-every s.ips 0 ips) (ground arith)
    ]
