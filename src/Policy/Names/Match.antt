-- ===== src/Policy/Names/Match.antt =====
-- Which names a pattern of a block list matches.
use cognidns_core.Prelude.{◌<◌, ◌≡◌, sym, ◌∙◌, ◌↔◌, true, false, ◌||◌, ◌∷◌, arith, ◌==◌, length}
use cognidns_core.Codec.Text.{text_eq, strip_prefix, ends_with}
use cognidns_core.Codec.Bytes.{Bytes}
use cognidns_core.Codec.Text.Below.{IsBelow, below-matches, IsBelow-sound}
use cognidns_core.Policy.Names.{domain_matches_normalized}

wildcard-eq :
    (query suffix : Bytes)
    → 0 < length query
    → 0 < length suffix
    → domain_matches_normalized query (42 ∷ 46 ∷ suffix)
      ≡ (text_eq query suffix || ends_with query (46 ∷ suffix))
unfolding domain_matches_normalized strip_prefix
wildcard-eq query suffix hq hs =
    let q : (length query == 0) ≡ false = ground arith in
    let s : (length suffix == 0) ≡ false = ground arith in
    let p : (length (42 ∷ 46 ∷ suffix) == 0) ≡ false = ground arith in rw (q, p, s)

-- A pattern `*.suffix` matches exactly the names that are the suffix or end in it behind a dot,
-- where neither is empty.
pub domain_matches-wildcard :
    (query suffix : Bytes)
    → 0 < length query
    → 0 < length suffix
    → (domain_matches_normalized query (42 ∷ 46 ∷ suffix) ≡ true) ↔ IsBelow query suffix
domain_matches-wildcard query suffix hq hs =
    let w = wildcard-eq query suffix hq hs in
    (λ h. IsBelow-sound query suffix (sym w ∙ h), λ b. w ∙ below-matches query suffix b)
