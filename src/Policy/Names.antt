-- ===== src/Policy/Names.antt =====
-- The block list patterns of src/policy.rs.
pub mod Match
use cognidns_core.Prelude.{Bool, false, ◌||◌, none, some, [], ◌∷◌, ◌==◌, if◌then◌else◌, length}
use cognidns_core.Codec.Text.{text_eq, strip_prefix, trim, trim_end_dots, to_lower, ends_with}
use cognidns_core.Codec.Bytes.{Bytes}

unfoldable pub normalize_query_name : Bytes → Bytes
normalize_query_name value = to_lower (trim_end_dots (trim value))

unfoldable pub normalize_domain_pattern : Bytes → Bytes
normalize_domain_pattern value = to_lower (trim_end_dots (trim value))

-- `pattern.strip_prefix("*.")` is the first test.
unfoldable pub domain_matches_normalized : Bytes → Bytes → Bool
domain_matches_normalized query pattern =
    if length query == 0 || length pattern == 0
    then false
    else (elim (strip_prefix (42 ∷ 46 ∷ []) pattern) [
      | some suffix ↦
          if length suffix == 0
          then false
          else text_eq query suffix || ends_with query (46 ∷ suffix)
      | none ↦ text_eq query pattern
    ])
