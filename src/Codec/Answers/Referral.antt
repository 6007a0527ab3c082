-- ===== src/Codec/Answers/Referral.antt =====
-- Referrals in src/codec/dns.rs: the name servers and zones that a response refers to, and the
-- test that decides whether it may be followed.
use cognidns_core.Prelude.{
  ℕ, ◌+◌, ◌-◌, ◌*◌, min, Bool, true, false, not, ◌&&◌, ◌||◌, Option, none, some, List, [], ◌∷◌,
  ◌++◌, ltb, leb, ◌==◌, if◌then◌else◌, ◌>>=◌, length,
}
use cognidns_core.Maps.{text_key, update_entry}
use cognidns_core.Codec.Name.{parse_name}
use cognidns_core.Codec.Edns.{opt_or}
use cognidns_core.Codec.Text.{text_eq, trim}
use cognidns_core.Codec.Section.{
  answer, authority, additional, ScanEnd, failed, Visitor, scan_resource_records,
}
use cognidns_core.Codec.Bytes.{Bytes}
use cognidns_core.Codec.Header.{parse_header}
use cognidns_core.Codec.Answers.Scans.{bare_name, endpoint_from_rdata, sort_dedup}
use cognidns_core.Cache.Domain.{same_or_subdomain, any_domain}

pub record DnsReferralAnalysis : Type 0 where
  pub glue_nameservers : List Bytes
  pub authority_ns_hostnames : List Bytes
  pub authority_zones : List Bytes
  pub has_authority_soa : Bool

unfoldable pub push_ns : Option (Bytes × ℕ) → List Bytes → List Bytes
push_ns none names = names
push_ns (some (hostname, consumed)) names =
    if length hostname == 0 then names else names ++ (bare_name hostname ∷ [])

unfoldable pub visit_referral : Bytes → Visitor DnsReferralAnalysis
visit_referral p a answer r = (a, false)
visit_referral p a authority r =
    let with_ns : DnsReferralAnalysis = record a {
      authority_zones =
          if length r.owner == 0
          then a.authority_zones
          else a.authority_zones ++ (bare_name r.owner ∷ []);
      authority_ns_hostnames = push_ns (parse_name p r.rdata_offset) a.authority_ns_hostnames;
    } in
    let with_soa : DnsReferralAnalysis = record a { has_authority_soa = true } in
    (
      if not (r.rr_class == 1)
          then a
          else if r.rr_type == 2
          then with_ns
          else if r.rr_type == 6
          then with_soa
          else a,
      false,
    )
visit_referral p a additional r =
    let endpoint = endpoint_from_rdata r.rr_type r.rdata in
    let with_glue : DnsReferralAnalysis = record a {
      glue_nameservers = a.glue_nameservers ++ opt_or endpoint (λ e. e ∷ []) [];
    } in
    (if r.rr_class == 1 then with_glue else a, false)

abbrev no_referral : DnsReferralAnalysis
no_referral = record {
  glue_nameservers = [];
  authority_ns_hostnames = [];
  authority_zones = [];
  has_authority_soa = false;
}

-- `None` for a scan that is cut off; else the three lists sorted, without duplicates.
unfoldable pub sorted_referral : DnsReferralAnalysis × ScanEnd → Option DnsReferralAnalysis
sorted_referral (a, failed) = none
sorted_referral (a, end) = some (record {
  glue_nameservers = sort_dedup a.glue_nameservers;
  authority_ns_hostnames = sort_dedup a.authority_ns_hostnames;
  authority_zones = sort_dedup a.authority_zones;
  has_authority_soa = a.has_authority_soa;
})

unfoldable pub analyze_referral_targets : Bytes → Option DnsReferralAnalysis
analyze_referral_targets p = parse_header p >>= λ header.
    sorted_referral (scan_resource_records (visit_referral p) p header no_referral)

unfoldable pub visit_glue : Visitor (List (Bytes × List Bytes))
visit_glue m additional r =
    let added =
      opt_or (endpoint_from_rdata r.rr_type r.rdata)
        (λ e. update_entry (bare_name r.owner) [] (λ es. es ++ (e ∷ [])) m) m in
    (if r.rr_class == 1 && (r.rr_type == 1 || r.rr_type == 28) then added else m, false)
visit_glue m section r = (m, false)

-- What was read before a cut is kept.
unfoldable pub build_ns_hostname_glue_map : Bytes → List (Bytes × List Bytes)
build_ns_hostname_glue_map p =
    opt_or (parse_header p) (λ header. (scan_resource_records visit_glue p header []).0) []

unfoldable pub domain_is_same_or_subdomain_of : Bytes → Bytes → Bool
domain_is_same_or_subdomain_of name zone =
    if text_eq (trim zone) (46 ∷ [])
    then true
    else if length (bare_name zone) == 0
    then false
    else same_or_subdomain (bare_name name) (bare_name zone)

unfoldable pub all_names : (Bytes → Bool) → List Bytes → Bool
all_names test [] = true
all_names test (n ∷ ns) = test n && all_names test ns

-- `glue_coverage` is the quotient of the two numbers, at most 1: below one half, below 1, or 1.
pub data Coverage : Type 0 where
  low_coverage : Coverage
  some_coverage : Coverage
  full_coverage : Coverage

unfoldable pub coverage_of : ℕ → ℕ → Coverage
coverage_of glue hostnames =
    if hostnames == 0
    then full_coverage
    else if leb hostnames glue
    then full_coverage
    else if ltb (2 * glue) hostnames
    then low_coverage
    else some_coverage

pub record ReferralSecurityValidation : Type 0 where
  pub is_valid : Bool
  pub trust_level : ℕ
  pub authority_zones_valid : Bool
  pub bailiwick_valid : Bool
  pub glue_coverage : Coverage

-- `saturating_add` and `saturating_sub` of 20, on 8 bits
unfoldable pub trust_of : Coverage → Bool → Bool → ℕ
trust_of coverage has_soa in_zone =
    let covered : ℕ = elim coverage [
      | full_coverage ↦ min (80 + 20) 255
      | low_coverage ↦ 80 - 20
      | some_coverage ↦ 80
    ] in
    let with_soa = if has_soa then covered - 20 else covered in
    if in_zone then with_soa else with_soa - 20

unfoldable pub validate_referral_security : Bytes → DnsReferralAnalysis → ReferralSecurityValidation
validate_referral_security qname a =
    let zones_valid =
      not (length a.authority_zones == 0)
      && all_names (λ zone. domain_is_same_or_subdomain_of qname zone) a.authority_zones in
    let in_zone =
      all_names
        (λ hostname.
          any_domain (λ zone. domain_is_same_or_subdomain_of hostname zone) a.authority_zones)
        a.authority_ns_hostnames in
    let coverage = coverage_of (length a.glue_nameservers) (length a.authority_ns_hostnames) in
    if not zones_valid
    then record {
      is_valid = false;
      trust_level = 0;
      authority_zones_valid = false;
      bailiwick_valid = false;
      glue_coverage = low_coverage;
    }
    else record {
      is_valid = true;
      trust_level = trust_of coverage a.has_authority_soa in_zone;
      authority_zones_valid = true;
      bailiwick_valid = in_zone;
      glue_coverage = coverage;
    }

unfoldable pub extract_glue_nameservers : Bytes → List Bytes
extract_glue_nameservers p = opt_or (analyze_referral_targets p) (λ a. a.glue_nameservers) []

unfoldable pub extract_authority_ns_hostnames : Bytes → List Bytes
extract_authority_ns_hostnames p =
    opt_or (analyze_referral_targets p) (λ a. a.authority_ns_hostnames) []
