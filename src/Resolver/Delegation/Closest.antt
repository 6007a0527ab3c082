-- ===== src/Resolver/Delegation/Closest.antt =====
-- Which delegation the cache of src/resolver/mod.rs answers with.
use cognidns_core.Prelude.{
  ℕ, ◌%◌, ◌<◌, ◌≡◌, refl, ◌∙◌, ◌≢◌, ◌⊎◌, inl, inr, Bool, true, false, not, ◌||◌, Option, none, some,
  List, [], ◌∷◌, map, arith, leb, ◌==◌, ==_iff, Bool-cases, Option-cases, ◌>>=◌, length, get_or,
  length-set, get_or-set_self, get_or-set_ne,
}
use cognidns_core.Maps.{text_key, find_key, remove_key}
use cognidns_core.Codec.Edns.{opt_or}
use cognidns_core.Codec.Bytes.{Bytes}
use cognidns_core.Codec.Answers.Scans.{some_answer}
use cognidns_core.Resolver.Names.{normalize_qname, iter_domain_suffixes, aux_cache_shard_index}
use cognidns_core.Resolver.Delegation.{
  DelegationCacheShard, DelegationCache, DelegationConfig, cools_down, shard_index, locked,
  unlocked, visit_zone, visit_zones, get_cached_delegation_endpoints,
}
use cognidns_core.Resolver.Delegation.Settled.{
  usable, usable-remove_key, Settled, clean-Settled, entries-clean, remove-Settled,
}
use native.Mathlib.Nat.{mod-lt}

module _ (cfg : DelegationConfig) (hash : Bytes → ℕ) (matches_family : Bytes → Bool) (now : ℕ) where
  -- What the cache gives for one zone.
  abbrev pub answer_of : DelegationCache → Bytes → Option (List Bytes)
  answer_of c zone = usable now zone (locked cfg hash matches_family now c zone).entries

  -- The first zone of a list that the cache has an answer for.
  pub first_usable : DelegationCache → List Bytes → Option (Bytes × List Bytes)
  first_usable c [] = none
  first_usable c (zone ∷ zones) =
      opt_or (answer_of c zone) (λ endpoints. some (zone, endpoints)) (first_usable c zones)

  answer_of-unlocked :
      (c : DelegationCache) (zone other : Bytes) (s : DelegationCacheShard)
      → 0 < length c
      → Settled cfg now s
      → usable now other s.entries
        ≡ usable now other (locked cfg hash matches_family now c zone).entries
      → answer_of (unlocked cfg hash matches_family c zone s) other ≡ answer_of c other
  unfolding aux_cache_shard_index
  answer_of-unlocked c zone other s pos settled same =
      let i = hash zone % length c in
      let j = hash other % length c in
      let d : DelegationCacheShard = record { entries = []; last_cleanup = now } in
      let below : i < length c = mod-lt (hash zone) pos in
      elim (Bool-cases (i == j)) [
        | inl t ↦
            let eq : i ≡ j = (==_iff i j).0 t in
            rw
              (
                length-set c i s,
                ← eq,
                get_or-set_self c i s d below,
                entries-clean cfg now s settled,
              )
              same
        | inr t ↦ rw (length-set c i s, get_or-set_ne c i j s d (λ e. ground arith)) refl
      ]

  -- One round that ends without an answer leaves what the cache gives for each zone.
  record Unchanged (c d : DelegationCache) : Type 0 where
    same_length : length d ≡ length c
    same_answers : (other : Bytes) → answer_of d other ≡ answer_of c other

  unlocked-Unchanged :
      (c : DelegationCache) (zone : Bytes) (s : DelegationCacheShard)
      → 0 < length c
      → Settled cfg now s
      → ((other : Bytes)
          → usable now other s.entries
            ≡ usable now other (locked cfg hash matches_family now c zone).entries)
      → Unchanged c (unlocked cfg hash matches_family c zone s)
  unlocked-Unchanged c zone s pos settled same = record {
    same_length = length-set c (shard_index cfg hash matches_family c zone) s;
    same_answers = λ other. answer_of-unlocked c zone other s pos settled (same other);
  }

  visit_zone-answer :
      (c : DelegationCache) (zone : Bytes)
      → 0 < length c
      → ((visit_zone cfg hash matches_family now c zone).1
          ≡ (answer_of c zone >>= λ endpoints. some (zone, endpoints)))
        × ((answer_of c zone ≢ none)
            ⊎ Unchanged c (visit_zone cfg hash matches_family now c zone).0)
  unfolding visit_zone
  visit_zone-answer c zone pos =
      let s = locked cfg hash matches_family now c zone in
      let settled = clean-Settled cfg now (
        get_or c (shard_index cfg hash matches_family c zone)
          (record { entries = []; last_cleanup = now })) in
      elim (Option-cases (find_key zone s.entries)) [
        | inl e ↦ rw e (refl, inr (unlocked-Unchanged c zone s pos settled (λ other. refl)))
        | inr (v, e) ↦ elim (Bool-cases (leb v.expires_at now)) [
          | inl t ↦
              let none_left : usable now zone s.entries ≡ none = rw (e, t) refl in
              rw (e, t)
                (
                  refl,
                  inr (
                      unlocked-Unchanged c zone (record s { entries = remove_key zone s.entries })
                        pos (remove-Settled cfg now s zone settled)
                        (λ other. usable-remove_key now zone other s.entries none_left)),
                )
          | inr t ↦ elim (Bool-cases (cools_down now v)) [
            | inl u ↦
                rw (e, t, u) (refl, inr (unlocked-Unchanged c zone s pos settled (λ other. refl)))
            | inr u ↦ rw (e, t, u) (refl, inl (λ h. cc))
          ]
        ]
      ]

  first_usable-Unchanged :
      (c d : DelegationCache) (zones : List Bytes)
      → Unchanged c d
      → first_usable d zones ≡ first_usable c zones
  unfolding first_usable
  first_usable-Unchanged c d [] u = refl
  first_usable-Unchanged c d (zone ∷ zones) u =
      rw (u.same_answers zone, first_usable-Unchanged c d zones u) refl

  visit_zones-first_usable :
      (zones : List Bytes) (c : DelegationCache)
      → 0 < length c
      → (visit_zones cfg hash matches_family now zones c).1 ≡ first_usable c zones
  unfolding visit_zones first_usable
  visit_zones-first_usable [] c pos = refl
  visit_zones-first_usable (zone ∷ zones) c pos =
      let (answered, rest) = visit_zone-answer c zone pos in
      let next = (visit_zone cfg hash matches_family now c zone).0 in
      elim (Option-cases (answer_of c zone)) [
        | inl e ↦ elim rest [
          | inl some_answer ↦ absurd (some_answer e)
          | inr u ↦
              let none_found = rw e at answered in
              rw (none_found, e)
                (visit_zones-first_usable zones next (rw (u.same_length) pos)
                  ∙ first_usable-Unchanged c next zones u)
        ]
        | inr (endpoints, e) ↦ let found = rw e at answered in rw (found, e) refl
      ]

  -- If the cache is enabled and has a shard, it answers for a name with the endpoints of the
  -- closest zone at or above it whose entry is neither expired nor cooling down, and with nothing
  -- if there is none; what the lookups before it clean up or drop makes no difference.
  pub get_delegation-closest :
      (c : DelegationCache) (qname : Bytes)
      → cfg.enable_delegation_cache ≡ true
      → cfg.delegation_cache_capacity ≢ 0
      → 0 < length c
      → (get_cached_delegation_endpoints cfg hash matches_family now c qname).1
        ≡ first_usable c (map normalize_qname (iter_domain_suffixes qname))
  unfolding get_cached_delegation_endpoints
  get_delegation-closest c qname enabled pos shards =
      let t : (not cfg.enable_delegation_cache || cfg.delegation_cache_capacity == 0) ≡ false =
        ground arith in
      rw t (visit_zones-first_usable (map normalize_qname (iter_domain_suffixes qname)) c shards)
