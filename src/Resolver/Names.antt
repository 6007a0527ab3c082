-- ===== src/Resolver/Names.antt =====
-- Names, types of records and shares of shards in src/resolver/util.rs.
pub mod Minimized
use cognidns_core.Prelude.{
  ℕ, zero, suc, ◌+◌, ◌-◌, ◌*◌, ◌/◌, ◌%◌, min, max, Bool, true, ◌&&◌, ◌||◌, Option, none, some, List,
  [], ◌∷◌, map, ltb, leb, ◌==◌, if◌then◌else◌, or_else, length,
}
use cognidns_core.Codec.Edns.{opt_or}
use cognidns_core.Codec.Text.{
  text_eq, trim, trim_end_dots, split_dots, join_dots, to_lower, ends_with,
}
use cognidns_core.Codec.Bytes.{Bytes}
use cognidns_core.Cache.Shard.{CacheKey}
use mathlib.Core.List.{reverse}

unfoldable pub normalize_qname : Bytes → Bytes
normalize_qname qname =
    let normalized = trim_end_dots (trim qname) in
    if length normalized == 0 || text_eq normalized (46 ∷ []) then 46 ∷ [] else to_lower normalized

unfoldable pub cache_key_for_query : Bytes → ℕ → Bool → CacheKey
cache_key_for_query qname qtype dnssec_ok = record {
  qname = normalize_qname qname;
  qtype = qtype;
  dnssec_ok = dnssec_ok;
}

-- `labels[index..].join(".")` for each index
unfoldable pub suffixes_of : List Bytes → List Bytes
suffixes_of [] = []
suffixes_of (l ∷ ls) = join_dots (l ∷ ls) ∷ suffixes_of ls

unfoldable pub iter_domain_suffixes : Bytes → List Bytes
iter_domain_suffixes qname =
    let normalized = normalize_qname qname in
    if text_eq normalized (46 ∷ []) then [] else suffixes_of (split_dots normalized)

-- `nth`
abbrev pub nth {ℓ} : {A : Type ℓ} → List A → ℕ → Option A
nth [] n = none
nth (x ∷ xs) zero = some x
nth (x ∷ xs) (suc n) = nth xs n

unfoldable pub iterative_minimized_qname : Bytes → ℕ → Bytes
iterative_minimized_qname qname depth =
    let normalized = normalize_qname qname in
    if text_eq normalized (46 ∷ [])
    then 46 ∷ []
    else opt_or (nth (reverse (iter_domain_suffixes normalized)) depth) (λ s. s) normalized

unfoldable pub domain_is_same_or_subdomain_of : Bytes → Bytes → Bool
domain_is_same_or_subdomain_of qname zone =
    let name = normalize_qname qname in
    let parent = normalize_qname zone in
    if text_eq parent (46 ∷ []) then true else text_eq name parent || ends_with name (46 ∷ parent)

-- `to_ascii_uppercase`
unfoldable pub upper_byte : ℕ → ℕ
upper_byte b = if leb 97 b && leb b 122 then b - 32 else b

unfoldable pub to_upper : Bytes → Bytes
to_upper = map upper_byte

-- The digits of `parse::<u16>`, most significant first, and the value so far.
unfoldable pub parse_digits : Bytes → ℕ → Option ℕ
parse_digits [] value = some value
parse_digits (b ∷ bs) value =
    let next = value * 10 + (b - 48) in
    let rest = parse_digits bs next in if leb 48 b && leb b 57 && ltb next 65536 then rest else none

-- `parse::<u16>`: a plus sign may stand in front of at least one digit.
unfoldable pub parse_u16 : Bytes → Option ℕ
parse_u16 [] = none
parse_u16 (b ∷ []) = parse_digits (b ∷ []) 0
parse_u16 (b ∷ c ∷ bs) = if b == 43 then parse_digits (c ∷ bs) 0 else parse_digits (b ∷ c ∷ bs) 0

-- The first type whose name is the text.
unfoldable pub type_named : List (Bytes × ℕ) → Bytes → Option ℕ
type_named [] name = none
type_named ((t, n) ∷ ts) name =
    let rest = type_named ts name in if text_eq name t then some n else rest

abbrev record_types : List (Bytes × ℕ)
record_types =
    (65 ∷ [], 1)
    ∷ (78 ∷ 83 ∷ [], 2)
    ∷ (67 ∷ 78 ∷ 65 ∷ 77 ∷ 69 ∷ [], 5)
    ∷ (83 ∷ 79 ∷ 65 ∷ [], 6)
    ∷ (80 ∷ 84 ∷ 82 ∷ [], 12)
    ∷ (77 ∷ 88 ∷ [], 15)
    ∷ (84 ∷ 88 ∷ 84 ∷ [], 16)
    ∷ (65 ∷ 65 ∷ 65 ∷ 65 ∷ [], 28)
    ∷ (83 ∷ 82 ∷ 86 ∷ [], 33)
    ∷ (83 ∷ 86 ∷ 67 ∷ 66 ∷ [], 64)
    ∷ (72 ∷ 84 ∷ 84 ∷ 80 ∷ 83 ∷ [], 65)
    ∷ (67 ∷ 65 ∷ 65 ∷ [], 257)
    ∷ (65 ∷ 78 ∷ 89 ∷ [], 255)
    ∷ []

unfoldable pub parse_record_qtype : Bytes → Option ℕ
parse_record_qtype qtype =
    let normalized = to_upper (trim_end_dots (trim qtype)) in
    or_else (type_named record_types normalized) (parse_u16 normalized)

abbrev zone_record_types : List (Bytes × ℕ)
zone_record_types =
    (65 ∷ [], 1)
    ∷ (78 ∷ 83 ∷ [], 2)
    ∷ (67 ∷ 78 ∷ 65 ∷ 77 ∷ 69 ∷ [], 5)
    ∷ (77 ∷ 88 ∷ [], 15)
    ∷ (84 ∷ 88 ∷ 84 ∷ [], 16)
    ∷ (65 ∷ 65 ∷ 65 ∷ 65 ∷ [], 28)
    ∷ (80 ∷ 84 ∷ 82 ∷ [], 12)
    ∷ []

unfoldable pub parse_zone_record_qtype : Bytes → Option ℕ
parse_zone_record_qtype qtype = type_named zone_record_types (to_upper (trim qtype))

-- `None` is an unknown number of processors.
unfoldable pub aux_cache_shard_count : Option ℕ → ℕ → ℕ
aux_cache_shard_count parallelism capacity =
    let preferred = opt_or parallelism (λ n. min (max (n * 2) 8) 64) 16 in
    if capacity == 0 then preferred else min preferred (max capacity 1)

unfoldable pub aux_cache_shard_index : (Bytes → ℕ) → Bytes → ℕ → ℕ
aux_cache_shard_index hash key shard_count = hash key % shard_count

unfoldable pub bounded_aux_shard_capacity : ℕ → ℕ → ℕ → Option ℕ
bounded_aux_shard_capacity total_capacity shard_index shard_count =
    if total_capacity == 0
    then none
    else some (
        total_capacity / shard_count
        + (if ltb shard_index (total_capacity % shard_count) then 1 else 0))
