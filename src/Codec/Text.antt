-- ===== src/Codec/Text.antt =====
-- The functions of `str` that src/codec/dns.rs and src/cache.rs call, over the UTF-8 bytes of
-- a text: `from_utf8`, `trim`, `strip_suffix`, `trim_end_matches`, `split`, `join`,
-- `to_ascii_lowercase`, `eq_ignore_ascii_case`, `ends_with` and `==`.
pub mod Address
pub mod Below
pub mod Split
use cognidns_core.Prelude.{
  ℕ, zero, suc, ◌+◌, Bool, true, false, ◌&&◌, Option, none, some, List, [], ◌∷◌, ◌++◌, map, ltb,
  leb, ◌==◌, if◌then◌else◌, length,
}
use cognidns_core.Codec.Bytes.{Bytes}
use mathlib.Core.List.{reverse}

-- A lead byte: how many continuation bytes follow, and the range of the first of them.
unfoldable pub utf8_lead : ℕ → Option (ℕ × ℕ × ℕ)
utf8_lead b =
    if ltb b 0x80
    then some (0, 0x80, 0xBF)
    else if ltb b 0xC2
    then none
    else if ltb b 0xE0
    then some (1, 0x80, 0xBF)
    else if b == 0xE0
    then some (2, 0xA0, 0xBF)
    else if b == 0xED
    then some (2, 0x80, 0x9F)
    else if ltb b 0xF0
    then some (2, 0x80, 0xBF)
    else if b == 0xF0
    then some (3, 0x90, 0xBF)
    else if ltb b 0xF4
    then some (3, 0x80, 0xBF)
    else if b == 0xF4
    then some (3, 0x80, 0x8F)
    else none

unfoldable pub utf8_from : ℕ → ℕ → ℕ → Bytes → Bool
unfolding utf8_lead
utf8_from zero lo hi [] = true
utf8_from (suc n) lo hi [] = false
utf8_from zero lo hi (b ∷ r) = elim (utf8_lead b) [
  | none ↦ false
  | some (n, l, h) ↦ utf8_from n l h r
]
utf8_from (suc n) lo hi (b ∷ r) = leb lo b && (leb b hi && utf8_from n 0x80 0xBF r)

-- `std::str::from_utf8(p).is_ok()`
abbrev pub is_utf8 : Bytes → Bool
is_utf8 = utf8_from 0 0x80 0xBF

-- `==` on texts
unfoldable pub text_eq : Bytes → Bytes → Bool
text_eq [] [] = true
text_eq [] (b ∷ ys) = false
text_eq (a ∷ xs) [] = false
text_eq (a ∷ xs) (b ∷ ys) = a == b && text_eq xs ys

-- The UTF-8 forms of the characters with the Unicode property White_Space.
abbrev white_space : List Bytes
white_space =
    (9 ∷ [])
    ∷ (10 ∷ [])
    ∷ (11 ∷ [])
    ∷ (12 ∷ [])
    ∷ (13 ∷ [])
    ∷ (32 ∷ [])
    ∷ (0xC2 ∷ 0x85 ∷ [])
    ∷ (0xC2 ∷ 0xA0 ∷ [])
    ∷ (0xE1 ∷ 0x9A ∷ 0x80 ∷ [])
    ∷ (0xE2 ∷ 0x80 ∷ 0x80 ∷ [])
    ∷ (0xE2 ∷ 0x80 ∷ 0x81 ∷ [])
    ∷ (0xE2 ∷ 0x80 ∷ 0x82 ∷ [])
    ∷ (0xE2 ∷ 0x80 ∷ 0x83 ∷ [])
    ∷ (0xE2 ∷ 0x80 ∷ 0x84 ∷ [])
    ∷ (0xE2 ∷ 0x80 ∷ 0x85 ∷ [])
    ∷ (0xE2 ∷ 0x80 ∷ 0x86 ∷ [])
    ∷ (0xE2 ∷ 0x80 ∷ 0x87 ∷ [])
    ∷ (0xE2 ∷ 0x80 ∷ 0x88 ∷ [])
    ∷ (0xE2 ∷ 0x80 ∷ 0x89 ∷ [])
    ∷ (0xE2 ∷ 0x80 ∷ 0x8A ∷ [])
    ∷ (0xE2 ∷ 0x80 ∷ 0xA8 ∷ [])
    ∷ (0xE2 ∷ 0x80 ∷ 0xA9 ∷ [])
    ∷ (0xE2 ∷ 0x80 ∷ 0xAF ∷ [])
    ∷ (0xE2 ∷ 0x81 ∷ 0x9F ∷ [])
    ∷ (0xE3 ∷ 0x80 ∷ 0x80 ∷ [])
    ∷ []

-- `strip_prefix`
unfoldable pub strip_prefix : Bytes → Bytes → Option Bytes
strip_prefix [] xs = some xs
strip_prefix (b ∷ bs) [] = none
strip_prefix (b ∷ bs) (x ∷ xs) = if b == x then strip_prefix bs xs else none

-- The text without the first of the prefixes that it begins with.
unfoldable pub strip_any : List Bytes → Bytes → Option Bytes
unfolding strip_prefix
strip_any [] xs = none
strip_any (b ∷ bs) xs = elim (strip_prefix b xs) [ none ↦ strip_any bs xs | some r ↦ some r ]

-- Each round drops a byte at least, so the length is fuel enough.
unfoldable pub strip_while : ℕ → List Bytes → Bytes → Bytes
unfolding strip_any
strip_while zero bs xs = xs
strip_while (suc f) bs xs = elim (strip_any bs xs) [ none ↦ xs | some r ↦ strip_while f bs r ]

-- `trim_start_matches` and `trim_end_matches`, of any of the given texts
unfoldable pub trim_start_any : List Bytes → Bytes → Bytes
unfolding strip_while
trim_start_any bs xs = strip_while (length xs) bs xs

unfoldable pub trim_end_any : List Bytes → Bytes → Bytes
unfolding trim_start_any
trim_end_any bs xs = reverse (trim_start_any (map reverse bs) (reverse xs))

-- `trim`
unfoldable pub trim : Bytes → Bytes
unfolding trim_start_any trim_end_any
trim xs = trim_end_any white_space (trim_start_any white_space xs)

-- `trim_end_matches('.')`
unfoldable pub trim_end_dots : Bytes → Bytes
unfolding trim_end_any
trim_end_dots = trim_end_any ((46 ∷ []) ∷ [])

-- `strip_suffix('.').unwrap_or(self)`
unfoldable pub strip_dot : Bytes → Bytes
strip_dot [] = []
strip_dot (b ∷ []) = if b == 46 then [] else b ∷ []
strip_dot (b ∷ c ∷ r) = b ∷ strip_dot (c ∷ r)

abbrev pub cons_head : ℕ → List Bytes → List Bytes
cons_head b [] = (b ∷ []) ∷ []
cons_head b (l ∷ ls) = (b ∷ l) ∷ ls

-- `split('.')`
unfoldable pub split_dots : Bytes → List Bytes
split_dots [] = [] ∷ []
split_dots (b ∷ r) = let rest = split_dots r in if b == 46 then [] ∷ rest else cons_head b rest

-- `join(".")`
unfoldable pub join_dots : List Bytes → Bytes
join_dots [] = []
join_dots (l ∷ []) = l
join_dots (l ∷ m ∷ ls) = l ++ (46 ∷ join_dots (m ∷ ls))

-- `to_ascii_lowercase`
unfoldable pub lower_byte : ℕ → ℕ
lower_byte b = if leb 65 b && leb b 90 then b + 32 else b

unfoldable pub to_lower : Bytes → Bytes
unfolding lower_byte
to_lower = map lower_byte

-- `eq_ignore_ascii_case`
unfoldable pub eq_ignore_case : Bytes → Bytes → Bool
unfolding to_lower text_eq
eq_ignore_case a b = text_eq (to_lower a) (to_lower b)

-- `ends_with`
unfoldable pub is_prefix : Bytes → Bytes → Bool
is_prefix [] xs = true
is_prefix (b ∷ bs) [] = false
is_prefix (b ∷ bs) (x ∷ xs) = b == x && is_prefix bs xs

unfoldable pub ends_with : Bytes → Bytes → Bool
unfolding is_prefix
ends_with xs suffix = is_prefix (reverse suffix) (reverse xs)
