-- ===== src/Resolver/Zones.antt =====
-- The authoritative zones of src/resolver/mod.rs: their index, and the zone that answers for a
-- name. `ZoneSoa`, `StaticRecord` and `AuthoritativeZone` are those of src/config.rs,
-- without the fields that the index does not read.
pub mod Longest
use cognidns_core.Prelude.{
  ℕ, Bool, false, Option, none, some, List, [], ◌∷◌, ◌++◌, map, ltb, if◌then◌else◌, length,
}
use cognidns_core.Maps.{Key, text_key, update_entry}
use cognidns_core.Codec.Edns.{opt_or}
use cognidns_core.Codec.Text.{text_eq}
use cognidns_core.Codec.Bytes.{Bytes}
use cognidns_core.Codec.Answers.Referral.{DnsReferralAnalysis}
use cognidns_core.Resolver.Names.{
  domain_is_same_or_subdomain_of, normalize_qname, cache_key_for_query, parse_zone_record_qtype,
}
use cognidns_core.Cache.Domain.{same_or_subdomain, any_domain}
use cognidns_core.Cache.Map.{key_eq_sound, key_eq_refl}
use cognidns_core.Cache.Shard.{CacheKey, key_eq}
use cognidns_core.TopN.State.{sort_desc}

pub record ZoneSoa : Type 0 where
  pub mname : Bytes
  pub rname : Bytes
  pub serial : ℕ
  pub refresh : ℕ
  pub retry : ℕ
  pub expire : ℕ
  pub minimum_ttl : ℕ

pub record StaticRecord : Type 0 where
  pub record_qname : Bytes
  pub record_qtype : Bytes
  pub record_answer : Bytes
  pub record_ttl : ℕ

pub record AuthoritativeZone : Type 0 where
  pub zone_title : Bytes
  pub zone_soa : Option ZoneSoa
  pub zone_records : List StaticRecord

pub record MultiRecordEntry : Type 0 where
  pub answers : List Bytes
  pub ttl : ℕ
  pub qtype_name : Bytes

pub record AuthoritativeZoneEntry : Type 0 where
  pub zone_name : Bytes
  pub soa : Option ZoneSoa
  pub record_index : List (CacheKey × MultiRecordEntry)
  pub name_set : List Bytes

abbrev pub cache_key : Key CacheKey
cache_key = record { same = key_eq; same_refl = key_eq_refl; same_sound = key_eq_sound }

-- `HashSet::insert`
abbrev add_name : Bytes → List Bytes → List Bytes
add_name x names = if any_domain (λ d. text_eq d x) names then names else x ∷ names

unfoldable pub index_record :
    StaticRecord
    → List (CacheKey × MultiRecordEntry) × List Bytes
    → List (CacheKey × MultiRecordEntry) × List Bytes
index_record r (index, names) =
    let add : ℕ → List (CacheKey × MultiRecordEntry) × List Bytes = λ qtype. (
      update_entry ⦃key = cache_key⦄ (cache_key_for_query r.record_qname qtype false)
          (record { answers = []; ttl = r.record_ttl; qtype_name = r.record_qtype })
          (λ e. record e { answers = e.answers ++ (r.record_answer ∷ []) }) index,
      add_name (normalize_qname r.record_qname) names,
    ) in
    opt_or (parse_zone_record_qtype r.record_qtype) add (index, names)

unfoldable pub index_records :
    List StaticRecord
    → List (CacheKey × MultiRecordEntry) × List Bytes
    → List (CacheKey × MultiRecordEntry) × List Bytes
index_records [] built = built
index_records (r ∷ rs) built = index_records rs (index_record r built)

unfoldable pub build_zone_record_index :
    List StaticRecord → Bytes → List (CacheKey × MultiRecordEntry) × List Bytes
build_zone_record_index records zone_name = index_records records ([], zone_name ∷ [])

unfoldable pub zone_entry : AuthoritativeZone → AuthoritativeZoneEntry
zone_entry z =
    let name = normalize_qname z.zone_title in
    let built = build_zone_record_index z.zone_records name in
    record { zone_name = name; soa = z.zone_soa; record_index = built.0; name_set = built.1 }

-- The longest zone name first; the order of zones as long as each other is kept.
unfoldable pub build_authoritative_zone_entries :
    List AuthoritativeZone → List AuthoritativeZoneEntry
build_authoritative_zone_entries zones = sort_desc (λ e. length e.zone_name) (map zone_entry zones)

-- `find`
unfoldable pub first_zone : Bytes → List AuthoritativeZoneEntry → Option AuthoritativeZoneEntry
first_zone name [] = none
first_zone name (e ∷ es) = if same_or_subdomain name e.zone_name then some e else first_zone name es

unfoldable pub find_authoritative_zone :
    List AuthoritativeZoneEntry → Bytes → Option AuthoritativeZoneEntry
find_authoritative_zone entries qname = first_zone (normalize_qname qname) entries

unfoldable pub qname_belongs_to_zone : Bytes → Bytes → Bool
qname_belongs_to_zone qname zone_name =
    same_or_subdomain (normalize_qname qname) (normalize_qname zone_name)

-- `max_by_key`: of those as long as each other, the last
unfoldable pub longest_zone : List Bytes → Option Bytes → Option Bytes
longest_zone [] best = best
longest_zone (z ∷ zs) best =
    longest_zone zs (if ltb (length z) (opt_or best length 0) then best else some z)

unfoldable pub zones_above : Bytes → List Bytes → List Bytes
zones_above qname [] = []
zones_above qname (z ∷ zs) =
    let rest = zones_above qname zs in
    if domain_is_same_or_subdomain_of qname (normalize_qname z)
    then normalize_qname z ∷ rest
    else rest

unfoldable pub select_referral_zone_for_query : Bytes → DnsReferralAnalysis → Option Bytes
select_referral_zone_for_query qname referral =
    longest_zone (zones_above (normalize_qname qname) referral.authority_zones) none
