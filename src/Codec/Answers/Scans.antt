-- ===== src/Codec/Answers/Scans.antt =====
-- The scans of the answer section in src/codec/dns.rs, and the analysis of the answers to a name.
use cognidns_core.Prelude.{
  ℕ, zero, suc, ◌+◌, bit_and, Bool, true, false, not, ◌&&◌, ◌||◌, Option, none, some, List, [], ◌∷◌,
  ◌++◌, ◌==◌, if◌then◌else◌, ◌>>=◌, length,
}
use cognidns_core.Codec.Name.{parse_name}
use cognidns_core.Codec.Edns.{opt_or}
use cognidns_core.Codec.Text.{trim_end_dots, to_lower, eq_ignore_case}
use cognidns_core.Codec.Section.{
  rr_type_at, rr_class_at, rr_ttl_at, rdlen_at, rr_end, skip_question_section, answer,
  DnsRecordView, ScanEnd, failed, broke, continued, Visitor, scan_resource_records,
  scan_answer_records,
}
use cognidns_core.Codec.Bytes.{Bytes, slice}
use cognidns_core.Codec.Header.{parse_header}
use cognidns_core.Codec.Text.Address.{decimal, ipv4_text, ipv6_text}
use cognidns_core.Cache.Domain.{sort_domains, dedup}

-- `name.trim_end_matches('.').to_ascii_lowercase()`
unfoldable pub bare_name : Bytes → Bytes
bare_name name = to_lower (trim_end_dots name)

-- `endpoint_from_rdata_with_port`, and with port 53
unfoldable pub endpoint_from_rdata_with_port : ℕ → Bytes → ℕ → Option Bytes
endpoint_from_rdata_with_port rr_type rdata port =
    if rr_type == 1 && length rdata == 4
    then some (ipv4_text rdata ++ (58 ∷ decimal port))
    else if rr_type == 28 && length rdata == 16
    then some ((91 ∷ ipv6_text rdata) ++ (93 ∷ 58 ∷ decimal port))
    else none

unfoldable pub endpoint_from_rdata : ℕ → Bytes → Option Bytes
endpoint_from_rdata rr_type rdata = endpoint_from_rdata_with_port rr_type rdata 53

-- `.sort()` and `.dedup()`
abbrev pub sort_dedup : List Bytes → List Bytes
sort_dedup ds = dedup (sort_domains ds)

-- The state of a scan that is not cut off, or that breaks.
abbrev pub unless_failed : {S : Type 0} → S × ScanEnd → S → S
unless_failed (s, failed) d = d
unless_failed (s, broke) d = s
unless_failed (s, continued o) d = s

abbrev pub has_broken : {S : Type 0} → S × ScanEnd → Bool
has_broken (s, failed) = false
has_broken (s, broke) = true
has_broken (s, continued o) = false

-- The visitor of `extract_answer_ip_endpoints_with_port`.
unfoldable pub visit_endpoint : ℕ → Visitor (List Bytes)
visit_endpoint port result answer r =
    let endpoint = endpoint_from_rdata_with_port r.rr_type r.rdata port in
    (if r.rr_class == 1 then result ++ opt_or endpoint (λ e. e ∷ []) [] else result, false)
visit_endpoint port result section r = (result, false)

unfoldable pub extract_answer_ip_endpoints_with_port : Bytes → ℕ → List Bytes
extract_answer_ip_endpoints_with_port p port =
    opt_or (parse_header p)
      (λ header.
        sort_dedup (unless_failed (scan_resource_records (visit_endpoint port) p header []) []))
      []

unfoldable pub extract_answer_ip_endpoints : Bytes → List Bytes
extract_answer_ip_endpoints p = extract_answer_ip_endpoints_with_port p 53

-- A scan that breaks at the first answer that passes the test.
unfoldable pub some_answer : (DnsRecordView → Bool) → Bytes → Bool
some_answer test p =
    opt_or (parse_header p)
      (λ header. has_broken (scan_answer_records {S = Unit {0}} (λ s r. (s, test r)) p header tt))
      false

unfoldable pub answer_has_record_type : Bytes → ℕ → Bool
answer_has_record_type p target_type = some_answer (λ r. r.rr_type == target_type) p

unfoldable pub answer_has_record_type_for_name : Bytes → Bytes → ℕ → Bool
answer_has_record_type_for_name p qname target_type =
    some_answer
      (λ r.
        r.rr_class == 1
        && (r.rr_type == target_type && eq_ignore_case (trim_end_dots r.owner) (bare_name qname)))
      p

unfoldable pub answer_has_cname_for_name : Bytes → Bytes → Bool
answer_has_cname_for_name p qname = answer_has_record_type_for_name p qname 5

-- The target of a CNAME record of class IN that can be read and is not empty.
unfoldable pub cname_target : Bytes → DnsRecordView → Option Bytes
cname_target p r =
    let target = parse_name p r.rdata_offset >>= λ t. if length t.0 == 0 then none else some t.0 in
    if r.rr_type == 5 && r.rr_class == 1 then target else none

unfoldable pub visit_first_cname : Bytes → Option Bytes → DnsRecordView → Option Bytes × Bool
visit_first_cname p result r =
    opt_or (cname_target p r) (λ target. (some target, true)) (result, false)

-- The target of the first scan that breaks.
unfoldable pub extract_first_answer_cname : Bytes → Option Bytes
extract_first_answer_cname p = parse_header p >>= λ header.
    unless_failed (scan_answer_records (visit_first_cname p) p header none) none

unfoldable pub visit_cname :
    Bytes → List (Bytes × Bytes × ℕ) → DnsRecordView → List (Bytes × Bytes × ℕ) × Bool
visit_cname p result r =
    let kept =
      opt_or (cname_target p r) (λ target. result ++ ((r.owner, target, r.ttl) ∷ [])) result in
    (if length r.owner == 0 then result else kept, false)

-- `(owner, target, ttl)`
unfoldable pub extract_answer_cname_records : Bytes → List (Bytes × Bytes × ℕ)
extract_answer_cname_records p =
    opt_or (parse_header p)
      (λ header. unless_failed (scan_answer_records (visit_cname p) p header []) []) []

-- `(owner, type, class, ttl, rdata)`
pub record AnswerRecord : Type 0 where
  pub answer_owner : Bytes
  pub answer_type : ℕ
  pub answer_class : ℕ
  pub answer_ttl : ℕ
  pub answer_rdata : Bytes

abbrev pub answer_record : DnsRecordView → AnswerRecord
answer_record r = record {
  answer_owner = r.owner;
  answer_type = r.rr_type;
  answer_class = r.rr_class;
  answer_ttl = r.ttl;
  answer_rdata = r.rdata;
}

unfoldable pub extract_answer_records_by_type : Bytes → ℕ → List AnswerRecord
extract_answer_records_by_type p wanted =
    opt_or (parse_header p)
      (λ header.
        unless_failed
          (scan_answer_records {S = List AnswerRecord}
            (λ result r.
              (if r.rr_type == wanted then result ++ (answer_record r ∷ []) else result, false))
            p header [])
          [])
      []

pub record DnsAnswerAnalysis : Type 0 where
  pub rcode : ℕ
  pub has_target_record : Bool
  pub has_owner_cname : Bool
  pub first_cname : Option Bytes
  pub cname_records : List (Bytes × Bytes × ℕ)

pub record DnsAnswerFollowupAnalysis : Type 0 where
  pub analysis : DnsAnswerAnalysis
  pub dname_records : List AnswerRecord

-- The variables of the loop after a CNAME record with a target.
unfoldable pub note_cname :
    Bytes → Bool → Option (Bytes × ℕ) → ℕ → DnsAnswerAnalysis → DnsAnswerAnalysis
note_cname owner owned none ttl a = a
note_cname owner owned (some (target, consumed)) ttl a =
    let with_owner = a.has_owner_cname || owned in
    let records =
      if length owner == 0
      then a.cname_records
      else a.cname_records ++ ((owner, target, ttl) ∷ []) in
    let noted : DnsAnswerAnalysis = record a {
      has_owner_cname = with_owner;
      first_cname = some (opt_or a.first_cname (λ c. c) target);
      cname_records = records;
    } in
    if length target == 0 then record a { has_owner_cname = with_owner } else noted

-- The record whose name ends at the offset.
unfoldable pub note_answer :
    Bytes → Bytes → ℕ → Bytes → ℕ → DnsAnswerFollowupAnalysis → DnsAnswerFollowupAnalysis
note_answer p target target_type owner offset a =
    let rr_type = rr_type_at p offset in
    let rr_class = rr_class_at p offset in
    let ttl = rr_ttl_at p offset in
    let owned = eq_ignore_case (trim_end_dots owner) target in
    let b = a.analysis in
    let typed : DnsAnswerAnalysis = record b {
      has_target_record = b.has_target_record || (rr_type == target_type && owned);
    } in
    let dname : AnswerRecord = record {
      answer_owner = owner;
      answer_type = rr_type;
      answer_class = rr_class;
      answer_ttl = ttl;
      answer_rdata = slice p (offset + 10) (offset + 10 + rdlen_at p offset);
    } in
    if not (rr_class == 1)
    then a
    else if rr_type == 5
    then record a { analysis = note_cname owner owned (parse_name p (offset + 10)) ttl typed }
    else if rr_type == 39
    then record { analysis = typed; dname_records = a.dname_records ++ (dname ∷ []) }
    else record a { analysis = typed }

unfoldable pub analysis_loop :
    ℕ → Bytes → Bytes → ℕ → ℕ → DnsAnswerFollowupAnalysis → Option DnsAnswerFollowupAnalysis
analysis_loop zero p target target_type offset a = some a
analysis_loop (suc n) p target target_type offset a = do
  (owner, consumed) ← parse_name p offset
  next ← rr_end p (offset + consumed)
  analysis_loop n p target target_type next
      (note_answer p target target_type owner (offset + consumed) a)

unfoldable pub analyze_answer_for_name_with_dnames :
    Bytes → Bytes → ℕ → Option DnsAnswerFollowupAnalysis
analyze_answer_for_name_with_dnames p qname target_type = do
  header ← parse_header p
  offset ← skip_question_section p header
  analysis_loop header.ancount p (bare_name qname) target_type offset (record {
    analysis = record {
      rcode = bit_and header.flags 0x000F;
      has_target_record = false;
      has_owner_cname = false;
      first_cname = none;
      cname_records = [];
    };
    dname_records = [];
  })

unfoldable pub analyze_answer_for_name : Bytes → Bytes → ℕ → Option DnsAnswerAnalysis
analyze_answer_for_name p qname target_type =
    analyze_answer_for_name_with_dnames p qname target_type >>= λ a. some a.analysis
