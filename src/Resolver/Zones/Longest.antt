-- ===== src/Resolver/Zones/Longest.antt =====
-- The zone that src/resolver/mod.rs finds for a name.
use mathlib.Core.List.Perm
use cognidns_core.Prelude.{
  ℕ, ◌≤◌, ◌≡◌, subst, ◌≢◌, ◌⊎◌, inl, inr, Bool, true, false, none, some, List, [], ◌∷◌, map,
  Bool-cases, Option-cases, length, All, All-map,
}
use cognidns_core.Codec.Bytes.{Bytes}
use cognidns_core.Codec.Text.Below.{IsBelow}
use cognidns_core.Cache.Domain.{same_or_subdomain}
use cognidns_core.Cache.Below.{same_or_subdomain_sound, not-IsBelow}
use cognidns_core.TopN.Top.{Descending, sort_desc-perm, sort_desc-All, sort_desc-Descending}
use cognidns_core.TopN.State.{sort_desc}
use cognidns_core.Resolver.Names.{normalize_qname}
use cognidns_core.Resolver.Zones.{
  AuthoritativeZone, AuthoritativeZoneEntry, zone_entry, build_authoritative_zone_entries,
  first_zone, find_authoritative_zone,
}
use mathlib.Core.List.{Perm}

abbrev covers : Bytes → AuthoritativeZoneEntry → Bool
covers name e = same_or_subdomain name e.zone_name

abbrev name_length : AuthoritativeZoneEntry → ℕ
name_length e = length e.zone_name

-- A name that is the zone's or below it; every name is below the root.
abbrev pub InZone : Bytes → Bytes → Type 0
InZone name zone_name = (zone_name ≡ 46 ∷ []) ⊎ IsBelow name zone_name

abbrev pub NotRoot : AuthoritativeZoneEntry → Type 0
NotRoot e = e.zone_name ≢ 46 ∷ []

covers-InZone :
    (name : Bytes) (e : AuthoritativeZoneEntry) → covers name e ≡ true → InZone name e.zone_name
covers-InZone name e h = inr (same_or_subdomain_sound name e.zone_name h)

uncovered :
    (name : Bytes) (e : AuthoritativeZoneEntry)
    → NotRoot e
    → covers name e ≡ false
    → ¬ InZone name e.zone_name
uncovered name e not_root h (inl root) = not_root root
uncovered name e not_root h (inr below) = not-IsBelow name e.zone_name h below

-- The name is in the zone of the entry, and of the other zones that it is in none has a longer
-- name.
pub record IsLongest (name : Bytes) (entries : List AuthoritativeZoneEntry)
    (e : AuthoritativeZoneEntry) : Type 0 where
  pub others : List AuthoritativeZoneEntry
  pub same_entries : Perm (e ∷ others) entries
  pub covering : InZone name e.zone_name
  pub longest :
      All (λ o. (¬ InZone name o.zone_name) ⊎ (length o.zone_name ≤ length e.zone_name)) others

first_zone-IsLongest :
    (name : Bytes) (es : List AuthoritativeZoneEntry) (e : AuthoritativeZoneEntry)
    → Descending name_length es
    → All NotRoot es
    → first_zone name es ≡ some e
    → IsLongest name es e
unfolding first_zone Descending
first_zone-IsLongest name [] e d roots h = cc
first_zone-IsLongest name (a ∷ es) e d roots h = elim (Bool-cases (covers name a)) [
  | inl t ↦
      let same : a ≡ e = cc (rw t at h) in
      subst (IsLongest name (a ∷ es)) same (record {
        others = es;
        same_entries = Perm.rfl;
        covering = covers-InZone name a t;
        longest = All-map (λ o le. inr le) es d.0;
      })
  | inr t ↦
      let rest = first_zone-IsLongest name es e d.1 roots.1 (rw t at h) in
      record {
        others = a ∷ rest.others;
        same_entries = Perm.trans (Perm.swap a e rest.others) (Perm.cons a rest.same_entries);
        covering = rest.covering;
        longest = (inl (uncovered name a roots.0 t), rest.longest);
      }
]

first_zone-none :
    (name : Bytes) (es : List AuthoritativeZoneEntry)
    → All NotRoot es
    → first_zone name es ≡ none
    → All (λ e. ¬ InZone name e.zone_name) es
unfolding first_zone
first_zone-none name [] roots h = tt
first_zone-none name (a ∷ es) roots h = elim (Bool-cases (covers name a)) [
  | inl t ↦ cc (rw t at h)
  | inr t ↦ (uncovered name a roots.0 t, first_zone-none name es roots.1 (rw t at h))
]

-- Of configured zones that are not the root, the search finds the one with the longest name that
-- the query is in, if there is one, and nothing otherwise.
pub find_zone-IsLongest :
    (zones : List AuthoritativeZone) (qname : Bytes)
    → All NotRoot (map zone_entry zones)
    → ((e : AuthoritativeZoneEntry) × (find_authoritative_zone
            (build_authoritative_zone_entries zones)
            qname
          ≡ some e)
        × IsLongest (normalize_qname qname) (map zone_entry zones) e)
      ⊎ ((find_authoritative_zone (build_authoritative_zone_entries zones) qname ≡ none)
          × All
              (λ e. ¬ InZone (normalize_qname qname) e.zone_name)
              (build_authoritative_zone_entries zones))
unfolding find_authoritative_zone build_authoritative_zone_entries
find_zone-IsLongest zones qname no_root =
    let name = normalize_qname qname in
    let found = map zone_entry zones in
    let sorted = sort_desc name_length found in
    let roots = sort_desc-All name_length NotRoot found no_root in
    elim (Option-cases (first_zone name sorted)) [
      | inl e ↦ inr (e, first_zone-none name sorted roots e)
      | inr (z, e) ↦
          let longest =
            first_zone-IsLongest name sorted z (sort_desc-Descending name_length found) roots e in
          inl (
            z,
            e,
            record {
              others = longest.others;
              same_entries = Perm.trans longest.same_entries (sort_desc-perm name_length found);
              covering = longest.covering;
              longest = longest.longest;
            },
          )
    ]
