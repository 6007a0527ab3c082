-- ===== src/Health/Events.antt =====
-- How often `record_all_unhealthy_event` of src/health.rs logs a domain.
use cognidns_core.Prelude.{
  ℕ, ◌+◌, ◌≤◌, ◌≡◌, refl, inl, inr, Bool, true, false, not, ◌&&◌, ◌||◌, Option, none, some, List,
  [], ◌∷◌, arith, ◌==◌, if◌then◌else◌, Bool-cases, Option-cases, ◌>>=◌, length,
}
use cognidns_core.Maps.{
  text_key, find_key, update_entry, find_key-update_entry_self, find_key-update_entry_ne,
}
use cognidns_core.Codec.Edns.{opt_or}
use cognidns_core.Codec.Text.{text_eq}
use cognidns_core.Codec.Bytes.{Bytes}
use cognidns_core.Codec.Text.Split.{text_eq_sound}
use cognidns_core.Cache.Domain.{normalize_domain}
use cognidns_core.Health.State.{
  DomainProbeState, unregistered, IpHealthManager, minute, should_log, Event, unlogged, logged,
  note_event, record_all_unhealthy_event,
}

-- A call: when, the domain, its addresses.
pub record Call : Type 0 where
  pub when : ℕ
  pub domain : Bytes
  pub ips : List Bytes

abbrev was_logged : Event → Bool
was_logged unlogged = false
was_logged (logged url) = true

-- The times at which the calls log the domain.
unfoldable pub logged_times : Bytes → IpHealthManager → List Call → List ℕ
logged_times d m [] = []
logged_times d m (c ∷ cs) =
    let (after, event) = record_all_unhealthy_event c.when m c.domain c.ips in
    let rest = logged_times d after cs in
    if was_logged event && text_eq (normalize_domain c.domain) d then c.when ∷ rest else rest

-- Each time is a minute or more after the one before it.
unfoldable pub Spaced : Option ℕ → List ℕ → Type 0
Spaced last [] = Unit {0}
Spaced none (t ∷ ts) = Spaced (some t) ts
Spaced (some last) (t ∷ ts) = (last + minute ≤ t) × Spaced (some t) ts

abbrev last_in : List (Bytes × DomainProbeState) → Bytes → Option ℕ
last_in state d = find_key d state >>= λ s. s.last_all_unhealthy_logged

abbrev pub last_logged : IpHealthManager → Bytes → Option ℕ
last_logged m d = last_in m.state d

should_log-le : (now last : ℕ) → should_log now (some last) ≡ true → last + minute ≤ now
unfolding should_log
should_log-le now last h = ground arith

last_of-entry :
    (d : Bytes) (state : List (Bytes × DomainProbeState))
    → (opt_or (find_key d state) (λ s. s) unregistered).last_all_unhealthy_logged ≡ last_in state d
last_of-entry d state = elim (Option-cases (find_key d state)) [
  | inl e ↦ rw e refl
  | inr (s, e) ↦ rw e refl
]

note_event_last :
    (now : ℕ) (s : DomainProbeState)
    → (note_event now s).last_all_unhealthy_logged ≡ (
        if should_log now s.last_all_unhealthy_logged
        then some now
        else s.last_all_unhealthy_logged)
unfolding note_event
note_event_last now s = ground arith

module _ (now : ℕ) (m : IpHealthManager) (domain : Bytes) (ips : List Bytes) where
  abbrev noted : List (Bytes × DomainProbeState)
  noted = update_entry (normalize_domain domain) unregistered (note_event now) m.state

  state-record :
      (record_all_unhealthy_event now m domain ips).0.state
      ≡ (if not m.cfg.enabled || length ips == 0 then m.state else noted)
  unfolding record_all_unhealthy_event
  state-record = ground arith

  was_logged-record : was_logged (record_all_unhealthy_event now m domain ips).1 ≡ (
      not (not m.cfg.enabled || length ips == 0)
      && should_log now (last_logged m (normalize_domain domain)))
  unfolding record_all_unhealthy_event
  was_logged-record = rw (last_of-entry (normalize_domain domain) m.state) (ground arith)

  last_in-noted_self : last_in noted (normalize_domain domain) ≡ (
      if should_log now (last_logged m (normalize_domain domain))
      then some now
      else last_logged m (normalize_domain domain))
  last_in-noted_self =
      rw
        (
          find_key-update_entry_self (normalize_domain domain) unregistered (note_event now)
              m.state,
          note_event_last now
              (opt_or (find_key (normalize_domain domain) m.state) (λ s. s) unregistered),
          last_of-entry (normalize_domain domain) m.state,
        )
        refl

  last_in-noted_ne :
      (d : Bytes) → text_eq (normalize_domain domain) d ≡ false → last_in noted d ≡ last_logged m d
  last_in-noted_ne d h =
      rw
        (find_key-update_entry_ne d (normalize_domain domain) unregistered (note_event now) m.state
          h)
        refl

Spaced-cons :
    (last : Option ℕ) (now : ℕ) (ts : List ℕ)
    → should_log now last ≡ true
    → Spaced (some now) ts
    → Spaced last (now ∷ ts)
unfolding Spaced
Spaced-cons none now ts h spaced = spaced
Spaced-cons (some last) now ts h spaced = (should_log-le now last h, spaced)

own_step :
    (last : Option ℕ) (now : ℕ) (ts : List ℕ)
    → Spaced (if should_log now last then some now else last) ts
    → Spaced last (if should_log now last && true then now ∷ ts else ts)
own_step last now ts spaced = elim (Bool-cases (should_log now last)) [
  | inl t ↦ rw t (Spaced-cons last now ts t (rw t at spaced))
  | inr t ↦ rw t (rw t at spaced)
]

never : (b : Bool) (ts us : List ℕ) → (if b && false then ts else us) ≡ us
never b ts us = ground arith

-- One call: what it logs, and the domain's last time afterwards.
record_step :
    (d : Bytes) (m : IpHealthManager) (c : Call) (ts : List ℕ)
    → Spaced (last_logged (record_all_unhealthy_event c.when m c.domain c.ips).0 d) ts
    → Spaced (last_logged m d) (
        if was_logged (record_all_unhealthy_event c.when m c.domain c.ips).1
          && text_eq (normalize_domain c.domain) d
        then c.when ∷ ts
        else ts)
record_step d m c ts spaced0 =
    let guard = not m.cfg.enabled || length c.ips == 0 in
    let spaced = rw (state-record c.when m c.domain c.ips) at spaced0 in
    rw (was_logged-record c.when m c.domain c.ips) (elim (Bool-cases guard) [
      | inl t ↦ rw t (rw t at spaced)
      | inr t ↦
          let spaced_noted = rw t at spaced in
          elim (Bool-cases (text_eq (normalize_domain c.domain) d)) [
            | inr u ↦
                rw (t, u, never (should_log c.when (last_logged m (normalize_domain c.domain))))
                  (rw (last_in-noted_ne c.when m c.domain c.ips d u) at spaced_noted)
            | inl u ↦
                let e = text_eq_sound (normalize_domain c.domain) d u in
                let noted_last = last_in-noted_self c.when m c.domain c.ips in
                let self = rw e at noted_last in
                rw (t, u, e) (own_step (last_logged m d) c.when ts (rw (e, self) at spaced_noted))
          ]
    ])

-- Whatever calls report domains without a healthy address, the log lines of one domain are a
-- minute apart or more, counted from its last line in the state.
pub logged_times-Spaced :
    (d : Bytes) (m : IpHealthManager) (cs : List Call)
    → Spaced (last_logged m d) (logged_times d m cs)
unfolding logged_times Spaced
logged_times-Spaced d m [] = tt
logged_times-Spaced d m (c ∷ cs) =
    record_step d m c (logged_times d (record_all_unhealthy_event c.when m c.domain c.ips).0 cs)
      (logged_times-Spaced d (record_all_unhealthy_event c.when m c.domain c.ips).0 cs)
