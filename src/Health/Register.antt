-- ===== src/Health/Register.antt =====
-- What `register_domain_ips` of src/health.rs keeps of the states of a domain's addresses.
use cognidns_core.Prelude.{
  ℕ, zero, suc, ◌≡◌, refl, sym, inl, inr, true, false, not, ◌||◌, Option, none, some, List, [], ◌∷◌,
  arith, ◌==◌, if◌then◌else◌, Bool-cases, Option-cases, length,
}
use cognidns_core.Maps.{
  text_key, find_key, remove_key, insert_key, find_key-nil, find_key-insert_key_self,
  find_key-remove_key_ne, find_key-insert_key_ne, find_key-remove_key_self,
  find_key-update_entry_self,
}
use cognidns_core.Codec.Edns.{opt_or}
use cognidns_core.Codec.Text.{text_eq, trim}
use cognidns_core.Codec.Bytes.{Bytes}
use cognidns_core.Codec.Text.Split.{text_eq_sound, text_eq_refl}
use cognidns_core.Cache.Domain.{normalize_domain}
use cognidns_core.Health.Runs.{state_of}
use cognidns_core.Health.State.{
  IpProbeState, unprobed, ProbeStates, DomainProbeState, unregistered, IpHealthManager,
  register_loop, register_domain_ips,
}

-- How often an address is listed, with the spaces around it taken off.
unfoldable pub listed : Bytes → List Bytes → ℕ
listed key [] = 0
listed key (ip ∷ ips) =
    let rest = listed key ips in if text_eq (trim ip) key then suc rest else rest

-- The state of an address that is listed so often, and had this state.
unfoldable pub kept : ℕ → Option IpProbeState → Option IpProbeState → Option IpProbeState
kept zero old keep = keep
kept (suc zero) old keep = some (opt_or old (λ s. s) unprobed)
kept (suc (suc n)) old keep = some unprobed

kept-zero : (old keep : Option IpProbeState) → kept zero old keep ≡ keep
unfolding kept
kept-zero old keep = refl

kept-once :
    (n : ℕ) (old keep : Option IpProbeState)
    → kept n none (some (opt_or old (λ s. s) unprobed)) ≡ kept (suc n) old keep
unfolding kept
kept-once zero old keep = refl
kept-once (suc zero) old keep = refl
kept-once (suc (suc n)) old keep = refl

register_loop-kept :
    (key : Bytes) (ips : List Bytes) (old keep : ProbeStates)
    → (length key == 0) ≡ false
    → find_key key (register_loop ips old keep)
      ≡ kept (listed key ips) (find_key key old) (find_key key keep)
unfolding register_loop listed
register_loop-kept key [] old keep some_key = sym (kept-zero (find_key key old) (find_key key keep))
register_loop-kept key (ip ∷ ips) old keep some_key =
    let existing = opt_or (find_key (trim ip) old) (λ s. s) unprobed in
    let ih =
      register_loop-kept key ips (remove_key (trim ip) old) (insert_key (trim ip) existing keep)
        some_key in
    elim (Bool-cases (text_eq (trim ip) key)) [
      | inl t ↦
          let e = text_eq_sound (trim ip) key t in
          let ih' =
            rw
              (
                e,
                find_key-remove_key_self key old,
                find_key-insert_key_self key (opt_or (find_key key old) (λ s. s) unprobed) keep,
              )
              at ih in
          rw (e, text_eq_refl key, some_key, ih') (kept-once (listed key ips) _ _)
      | inr t ↦ elim (Bool-cases (length (trim ip) == 0)) [
        | inl z ↦ rw (t, z) (register_loop-kept key ips old keep some_key)
        | inr z ↦
            rw
              (
                t,
                z,
                ih,
                find_key-remove_key_ne key (trim ip) old t,
                find_key-insert_key_ne key (trim ip) existing keep t,
              )
              refl
      ]
    ]

-- After a registration the state of an address is the default if the list names it twice or more,
-- the state it had, or the default, if the list names it once, and none if the list does not
-- name it. Health checks are enabled, and the list, the domain and the address are not empty.
pub register_domain_ips-kept :
    (m : IpHealthManager) (domain : Bytes) (ips : List Bytes) (key : Bytes)
    → m.cfg.enabled ≡ true
    → (length ips == 0) ≡ false
    → (length (normalize_domain domain) == 0) ≡ false
    → (length key == 0) ≡ false
    → state_of (register_domain_ips m domain ips) (normalize_domain domain) key
      ≡ kept (listed key ips) (state_of m (normalize_domain domain) key) none
unfolding register_domain_ips
register_domain_ips-kept m domain ips key enabled some_ips some_domain some_key =
    let t : (not m.cfg.enabled || length ips == 0) ≡ false = ground arith in
    let g : DomainProbeState → DomainProbeState =
      λ entry. record entry { ips = register_loop ips entry.ips [] } in
    rw (t, some_domain, find_key-update_entry_self (normalize_domain domain) unregistered g m.state)
      (elim (Option-cases (find_key (normalize_domain domain) m.state)) [
        | inl e ↦ rw (e, register_loop-kept key ips [] [] some_key, find_key-nil key) refl
        | inr (s, e) ↦ rw (e, register_loop-kept key ips s.ips [] some_key, find_key-nil key) refl
      ])
