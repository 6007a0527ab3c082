-- ===== src/Health/Runs.antt =====
-- The verdict on an address in src/health.rs against the history of its probes.
use cognidns_core.Prelude.{
  ℕ, ◌+◌, ◌≤◌, min, ◌≡◌, refl, ap, ◌∙◌, inl, inr, Bool, true, false, ◌&&◌, Option, none, some, List,
  [], ◌∷◌, arith, leb, if◌then◌else◌, Bool-cases, Option-cases, ◌>>=◌,
}
use cognidns_core.Maps.{
  text_key, find_key, modify_key, find_key-modify_key_self, find_key-modify_key_ne,
}
use cognidns_core.Codec.Text.{text_eq}
use cognidns_core.Codec.Bytes.{Bytes}
use cognidns_core.Codec.Text.Split.{text_eq_sound}
use cognidns_core.Health.Config.{HealthCheckConfig}
use cognidns_core.Health.State.{
  IpProbeState, unprobed, DomainProbeState, IpHealthManager, healthy_of, ProbeResult, probe_ok,
  probe_err, note_probe, update_probe_result,
}

abbrev is_ok : ProbeResult → Bool
is_ok probe_ok = true
is_ok (probe_err text) = false

-- The history of an address, the latest result first: how many results of one kind it begins with.
unfoldable pub run_length : Bool → List ProbeResult → ℕ
run_length kind [] = 0
run_length kind (r ∷ rs) = elim (is_ok r) [
  | true ↦ elim kind [ true ↦ run_length kind rs + 1 | false ↦ 0 ]
  | false ↦ elim kind [ true ↦ 0 | false ↦ run_length kind rs + 1 ]
]

-- The latest time when a run of successes, or of failures, was as long as its threshold decides.
unfoldable pub judge : HealthCheckConfig → List ProbeResult → Option Bool
judge cfg [] = none
judge cfg (r ∷ rs) =
    let earlier = judge cfg rs in
    let threshold = if is_ok r then cfg.success_threshold else cfg.failure_threshold in
    if leb threshold (run_length (is_ok r) (r ∷ rs)) then some (is_ok r) else earlier

-- What the state of an address says of its history.
record Tells (cfg : HealthCheckConfig) (h : List ProbeResult) (s : IpProbeState) : Type 0 where
  failures : s.consecutive_failures ≡ min (run_length false h) 4294967295
  successes : s.consecutive_successes ≡ min (run_length true h) 4294967295
  verdict : s.healthy ≡ judge cfg h

unprobed-Tells : (cfg : HealthCheckConfig) → Tells cfg [] unprobed
unfolding run_length judge
unprobed-Tells cfg = record { failures = refl; successes = refl; verdict = refl }

note_probe-Tells :
    (cfg : HealthCheckConfig) (now : ℕ) (r : ProbeResult) (h : List ProbeResult) (s : IpProbeState)
    → cfg.success_threshold ≤ 4294967295
    → cfg.failure_threshold ≤ 4294967295
    → Tells cfg h s
    → Tells cfg (r ∷ h) (note_probe cfg now r s)
unfolding run_length judge note_probe
note_probe-Tells cfg now probe_ok h s fits_s fits_f t = record {
  failures = omega arith;
  successes = rw t.successes (omega arith);
  verdict = rw (t.successes, t.verdict) (ground arith);
}
note_probe-Tells cfg now (probe_err text) h s fits_s fits_f t = record {
  failures = rw t.failures (omega arith);
  successes = omega arith;
  verdict = rw (t.failures, t.verdict) (ground arith);
}

-- A result that the loop over the probes reports: when, the domain, the address, the result.
pub record Report : Type 0 where
  pub when : ℕ
  pub domain : Bytes
  pub ip : Bytes
  pub result : ProbeResult

-- The manager after the reports, of which the latest comes first.
unfoldable pub after_reports : IpHealthManager → List Report → IpHealthManager
after_reports m [] = m
after_reports m (r ∷ rs) = update_probe_result r.when (after_reports m rs) r.domain r.ip r.result

-- The reports on one address of a domain, among those on all.
unfoldable pub history_of : Bytes → Bytes → List Report → List ProbeResult
history_of domain ip [] = []
history_of domain ip (r ∷ rs) =
    let rest = history_of domain ip rs in
    if text_eq r.domain domain && text_eq r.ip ip then r.result ∷ rest else rest

after_reports-cfg : (m : IpHealthManager) (rs : List Report) → (after_reports m rs).cfg ≡ m.cfg
unfolding after_reports update_probe_result
after_reports-cfg m [] = refl
after_reports-cfg m (r ∷ rs) = after_reports-cfg m rs

-- The state of an address.
abbrev pub state_of : IpHealthManager → Bytes → Bytes → Option IpProbeState
state_of m domain ip = find_key domain m.state >>= λ s. find_key ip s.ips

module _ (now : ℕ) (m : IpHealthManager) (domain ip : Bytes) (result : ProbeResult) where
  state_of-update_self :
      state_of (update_probe_result now m domain ip result) domain ip
      ≡ (state_of m domain ip >>= λ s. some (note_probe m.cfg now result s))
  unfolding update_probe_result
  state_of-update_self =
      let f : IpProbeState → IpProbeState = note_probe m.cfg now result in
      let g : DomainProbeState → DomainProbeState = λ s. record s { ips = modify_key ip f s.ips } in
      rw (find_key-modify_key_self domain g m.state)
        (elim (Option-cases (find_key domain m.state)) [
          | inl e ↦ rw e refl
          | inr (s, e) ↦ rw e (find_key-modify_key_self ip f s.ips)
        ])

  state_of-update_ne :
      (d i : Bytes)
      → (text_eq domain d && text_eq ip i) ≡ false
      → state_of (update_probe_result now m domain ip result) d i ≡ state_of m d i
  unfolding update_probe_result
  state_of-update_ne d i h =
      let f : IpProbeState → IpProbeState = note_probe m.cfg now result in
      let g : DomainProbeState → DomainProbeState = λ s. record s { ips = modify_key ip f s.ips } in
      elim (Bool-cases (text_eq domain d)) [
        | inr t ↦ rw (find_key-modify_key_ne d domain g m.state t) refl
        | inl t ↦
            let u : text_eq ip i ≡ false = rw t at h in
            rw⁻¹ (text_eq_sound domain d t) (
              rw (find_key-modify_key_self domain g m.state)
                (elim (Option-cases (find_key domain m.state)) [
                  | inl e ↦ rw e refl
                  | inr (s, e) ↦ rw e (find_key-modify_key_ne i ip f s.ips u)
                ]))
      ]

  state_of-update_own :
      (d i : Bytes)
      → (text_eq domain d && text_eq ip i) ≡ true
      → state_of (update_probe_result now m domain ip result) d i
        ≡ (state_of m d i >>= λ s. some (note_probe m.cfg now result s))
  state_of-update_own d i h =
      let same_domain : text_eq domain d ≡ true = ground arith in
      let same_ip : text_eq ip i ≡ true = ground arith in
      rw⁻¹ (text_eq_sound domain d same_domain, text_eq_sound ip i same_ip) state_of-update_self

healthy_of-state_of :
    (m : IpHealthManager) (domain ip : Bytes)
    → healthy_of m domain ip ≡ (state_of m domain ip >>= λ s. s.healthy)
unfolding healthy_of
healthy_of-state_of m domain ip = elim (Option-cases (find_key domain m.state)) [
  | inl e ↦ rw e refl
  | inr (s, e) ↦ rw e refl
]

module _ (m : IpHealthManager) (domain ip : Bytes)
    (registered : state_of m domain ip ≡ some unprobed)
    (fits_s : m.cfg.success_threshold ≤ 4294967295)
    (fits_f : m.cfg.failure_threshold ≤ 4294967295) where
  reports-Tells :
      (rs : List Report)
      → (s : IpProbeState) × (state_of (after_reports m rs) domain ip ≡ some s)
        × Tells m.cfg (history_of domain ip rs) s
  unfolding after_reports history_of
  reports-Tells [] = (unprobed, registered, unprobed-Tells m.cfg)
  reports-Tells (r ∷ rs) =
      let (s, e, tells) = reports-Tells rs in
      let before = after_reports m rs in
      elim (Bool-cases (text_eq r.domain domain && text_eq r.ip ip)) [
        | inr t ↦
            (s, state_of-update_ne r.when before r.domain r.ip r.result domain ip t ∙ e, rw t tells)
        | inl t ↦
            let noted = note_probe before.cfg r.when r.result s in
            let own = state_of-update_own r.when before r.domain r.ip r.result domain ip t in
            let cfg = after_reports-cfg m rs in
            (
              noted,
              own ∙ ap (λ o. o >>= λ s. some (note_probe before.cfg r.when r.result s)) e,
              rw (t, cfg)
                  (note_probe-Tells m.cfg r.when r.result (history_of domain ip rs) s fits_s fits_f
                    tells),
            )
      ]

-- After any reports on any addresses, an address that was registered and not yet probed has
-- the verdict of its own reports: that of the latest run that was as long as its threshold, none
-- if there is no such run. The thresholds are 32 bits wide, as the counters are.
pub healthy_of-after_reports :
    (m : IpHealthManager) (domain ip : Bytes) (rs : List Report)
    → state_of m domain ip ≡ some unprobed
    → m.cfg.success_threshold ≤ 4294967295
    → m.cfg.failure_threshold ≤ 4294967295
    → healthy_of (after_reports m rs) domain ip ≡ judge m.cfg (history_of domain ip rs)
healthy_of-after_reports m domain ip rs registered fits_s fits_f =
    let (s, e, tells) = reports-Tells m domain ip registered fits_s fits_f rs in
    rw (healthy_of-state_of (after_reports m rs) domain ip, e) tells.verdict
