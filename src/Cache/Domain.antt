-- ===== src/Cache/Domain.antt =====
-- Domain names in src/cache.rs: their normal form, and the list of frozen domains.
use cognidns_core.Prelude.{
  Bool, true, false, ◌&&◌, ◌||◌, List, [], ◌∷◌, ◌++◌, ltb, ◌==◌, if◌then◌else◌,
}
use cognidns_core.Codec.Text.{text_eq, trim, trim_end_dots, to_lower, ends_with}
use cognidns_core.Codec.Bytes.{Bytes}

unfoldable pub normalize_domain : Bytes → Bytes
normalize_domain value = to_lower (trim_end_dots (trim value))

-- `name == domain || name.ends_with(&format!(".{domain}"))`
unfoldable pub same_or_subdomain : Bytes → Bytes → Bool
same_or_subdomain name domain = text_eq name domain || ends_with name (46 ∷ domain)

unfoldable pub any_domain : (Bytes → Bool) → List Bytes → Bool
any_domain test [] = false
any_domain test (d ∷ ds) = test d || any_domain test ds

-- `<=` on texts, byte by byte
unfoldable pub text_le : Bytes → Bytes → Bool
text_le [] ys = true
text_le (a ∷ xs) [] = false
text_le (a ∷ xs) (b ∷ ys) = ltb a b || (a == b && text_le xs ys)

-- `sort`
unfoldable pub insert_sorted : Bytes → List Bytes → List Bytes
insert_sorted x [] = x ∷ []
insert_sorted x (y ∷ ys) = if text_le x y then x ∷ y ∷ ys else y ∷ insert_sorted x ys

unfoldable pub sort_domains : List Bytes → List Bytes
sort_domains [] = []
sort_domains (x ∷ xs) = insert_sorted x (sort_domains xs)

-- `dedup`: without the elements that equal the one before them
unfoldable pub dedup_from : Bytes → List Bytes → List Bytes
dedup_from x [] = []
dedup_from x (y ∷ ys) = let rest = dedup_from y ys in if text_eq x y then rest else y ∷ rest

unfoldable pub dedup : List Bytes → List Bytes
dedup [] = []
dedup (x ∷ xs) = x ∷ dedup_from x xs

unfoldable pub add_domain : Bytes → List Bytes → List Bytes
add_domain x ds =
    if any_domain (λ d. text_eq d x) ds then ds else dedup (sort_domains (ds ++ (x ∷ [])))

-- `retain(|d| d != &normalized)`
unfoldable pub remove_domain : Bytes → List Bytes → List Bytes
remove_domain x [] = []
remove_domain x (d ∷ ds) = let rest = remove_domain x ds in if text_eq d x then rest else d ∷ rest
