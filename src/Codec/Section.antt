-- ===== src/Codec/Section.antt =====
-- The sections of a packet, of src/codec/dns.rs: questions and resource records one after the
-- other, and the scan of the records with a visitor.
pub mod Shorter
pub mod Moved
pub mod Skip
use cognidns_core.Prelude.{
  ℕ, zero, suc, ◌+◌, Bool, true, false, Option, none, some, ltb, if◌then◌else◌, ◌>>=◌, length,
}
use cognidns_core.Codec.Name.{skip_name, parse_name}
use cognidns_core.Codec.Bytes.{Bytes, u16_at, u32_at, slice}
use cognidns_core.Codec.Header.{DnsHeader}

-- A record's fixed fields from the end of its owner name on: type, class, TTL and data length.
abbrev pub rr_type_at : Bytes → ℕ → ℕ
rr_type_at p name_end = u16_at p name_end

abbrev pub rr_class_at : Bytes → ℕ → ℕ
rr_class_at p name_end = u16_at p (name_end + 2)

abbrev pub rr_ttl_at : Bytes → ℕ → ℕ
rr_ttl_at p name_end = u32_at p (name_end + 4)

abbrev pub rdlen_at : Bytes → ℕ → ℕ
rdlen_at p name_end = u16_at p (name_end + 8)

-- `name_end + 10` and the data after it lie in the packet: the end of the record.
unfoldable pub rr_end : Bytes → ℕ → Option ℕ
unfolding u16_at
rr_end p name_end =
    let next = name_end + 10 + rdlen_at p name_end in
    if ltb (length p) (name_end + 10) then none else if ltb (length p) next then none else some next

unfoldable pub skip_rr : Bytes → ℕ → Option ℕ
unfolding skip_name rr_end
skip_rr p offset = skip_name p offset >>= λ name_end. rr_end p name_end

-- `for _ in 0..n { offset = skip_rr(packet, offset)?; }`
unfoldable pub skip_rrs : ℕ → Bytes → ℕ → Option ℕ
unfolding skip_rr
skip_rrs zero p offset = some offset
skip_rrs (suc n) p offset = skip_rr p offset >>= λ next. skip_rrs n p next

-- One question: a name, a type and a class.
unfoldable pub skip_question : Bytes → ℕ → Option ℕ
unfolding skip_name
skip_question p offset = skip_name p offset >>= λ name_end.
    if ltb (length p) (name_end + 4) then none else some (name_end + 4)

unfoldable pub skip_questions : ℕ → Bytes → ℕ → Option ℕ
unfolding skip_question
skip_questions zero p offset = some offset
skip_questions (suc n) p offset = skip_question p offset >>= λ next. skip_questions n p next

unfoldable pub skip_question_section : Bytes → DnsHeader → Option ℕ
unfolding skip_questions
skip_question_section p header = skip_questions header.qdcount p 12

pub data DnsSection : Type 0 where
  answer authority additional : DnsSection

pub record DnsRecordView : Type 0 where
  pub owner : Bytes
  pub rr_type : ℕ
  pub rr_class : ℕ
  pub ttl : ℕ
  pub rdata_offset : ℕ
  pub rdata : Bytes

-- How a scan ends: `None`, `Some(Break(_))` or `Some(Continue(offset))`.
pub data ScanEnd : Type 0 where
  failed : ScanEnd
  broke : ScanEnd
  continued : ℕ → ScanEnd

-- A visitor changes the state that its closure captures, and says whether to break.
abbrev pub Visitor : Type 0 → Type 0
Visitor S = S → DnsSection → DnsRecordView → S × Bool

abbrev record_view : Bytes → Bytes → ℕ → DnsRecordView
record_view p owner cursor = record {
  owner = owner;
  rr_type = rr_type_at p cursor;
  rr_class = rr_class_at p cursor;
  ttl = rr_ttl_at p cursor;
  rdata_offset = cursor + 10;
  rdata = slice p (cursor + 10) (cursor + 10 + rdlen_at p cursor);
}

abbrev after_visit : {S : Type 0} → ℕ → S × Bool → S × ScanEnd
after_visit rdata_end (s, true) = (s, broke)
after_visit rdata_end (s, false) = (s, continued rdata_end)

-- The next step of a scan that goes on.
abbrev pub then_scan : {S : Type 0} → S × ScanEnd → (ℕ → S → S × ScanEnd) → S × ScanEnd
then_scan (s, failed) k = (s, failed)
then_scan (s, broke) k = (s, broke)
then_scan (s, continued next) k = k next s

module _ {S : Type 0} (visitor : Visitor S) where
  unfoldable pub scan_single_resource_record : Bytes → ℕ → DnsSection → S → S × ScanEnd
  unfolding parse_name rr_end
  scan_single_resource_record p offset section s = elim (parse_name p offset) [
    | none ↦ (s, failed)
    | some (owner, consumed) ↦ elim (rr_end p (offset + consumed)) [
      | none ↦ (s, failed)
      | some next ↦ after_visit next (visitor s section (record_view p owner (offset + consumed)))
    ]
  ]

  -- The three loops, each over the records that its section counts.
  unfoldable pub scan_section : ℕ → Bytes → ℕ → DnsSection → S → S × ScanEnd
  unfolding scan_single_resource_record
  scan_section zero p offset section s = (s, continued offset)
  scan_section (suc n) p offset section s =
      then_scan (scan_single_resource_record p offset section s)
        (λ next t. scan_section n p next section t)

  unfoldable pub scan_resource_records : Bytes → DnsHeader → S → S × ScanEnd
  unfolding skip_question_section scan_section
  scan_resource_records p header s = elim (skip_question_section p header) [
    | none ↦ (s, failed)
    | some offset ↦ then_scan (scan_section header.ancount p offset answer s) (λ o t.
        then_scan (scan_section header.nscount p o authority t)
          (λ o' t'. scan_section header.arcount p o' additional t'))
  ]

-- `scan_answer_records`: the visitor sees the records of the answer section alone.
abbrev answers_only : {S : Type 0} → (S → DnsRecordView → S × Bool) → Visitor S
answers_only visitor s answer record' = visitor s record'
answers_only visitor s authority record' = (s, false)
answers_only visitor s additional record' = (s, false)

unfoldable pub scan_answer_records :
    {S : Type 0} → (S → DnsRecordView → S × Bool) → Bytes → DnsHeader → S → S × ScanEnd
unfolding scan_resource_records
scan_answer_records visitor p header s = scan_resource_records (answers_only visitor) p header s
