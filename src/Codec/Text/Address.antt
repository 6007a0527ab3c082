-- ===== src/Codec/Text/Address.antt =====
-- The texts of IP addresses, as the standard library prints them for src/codec/dns.rs.
use cognidns_core.Prelude.{
  ℕ, zero, suc, ◌+◌, ◌*◌, ◌/◌, ◌%◌, Bool, false, ◌&&◌, List, [], ◌∷◌, ◌++◌, map, ltb, ◌==◌,
  if◌then◌else◌, take, drop,
}
use cognidns_core.Codec.Text.{join_dots}
use cognidns_core.Codec.Bytes.{Bytes}

-- A digit, in lower case.
abbrev digit_char : ℕ → ℕ
digit_char d = if ltb d 10 then d + 48 else d + 87

-- A number of 16 bits in a base from 10 on has five digits at most.
unfoldable pub radix_loop : ℕ → ℕ → ℕ → Bytes
radix_loop zero base n = digit_char n ∷ []
radix_loop (suc f) base n =
    let higher = radix_loop f base (n / base) in
    if ltb n base then digit_char n ∷ [] else higher ++ (digit_char (n % base) ∷ [])

abbrev pub decimal : ℕ → Bytes
decimal = radix_loop 4 10

abbrev pub hexadecimal : ℕ → Bytes
hexadecimal = radix_loop 4 16

-- `Ipv4Addr`, of its four octets
unfoldable pub ipv4_text : Bytes → Bytes
ipv4_text octets = join_dots (map decimal octets)

-- The eight segments of sixteen octets.
unfoldable pub segments : Bytes → List ℕ
segments [] = []
segments (hi ∷ []) = []
segments (hi ∷ lo ∷ r) = (hi * 256 + lo) ∷ segments r

-- The first of the longest runs of zero segments: the position, the current run and the longest,
-- each as its start and its length.
unfoldable pub zero_run : List ℕ → ℕ → ℕ × ℕ → ℕ × ℕ → ℕ × ℕ
zero_run [] i current longest = longest
zero_run (s ∷ ss) i (start, len) (best_start, best_len) =
    let begin = if len == 0 then i else start in
    let extended =
      zero_run ss (i + 1) (begin, len + 1)
        (if ltb best_len (len + 1) then (begin, len + 1) else (best_start, best_len)) in
    let ended = zero_run ss (i + 1) (0, 0) (best_start, best_len) in
    if s == 0 then extended else ended

unfoldable pub join_colons : List ℕ → Bytes
join_colons [] = []
join_colons (s ∷ []) = hexadecimal s
join_colons (s ∷ t ∷ ss) = hexadecimal s ++ (58 ∷ join_colons (t ∷ ss))

-- The first six segments of a mapped IPv4 address.
unfoldable pub is_mapped : List ℕ → Bool
is_mapped (a ∷ b ∷ c ∷ d ∷ e ∷ f ∷ ss) =
    a == 0 && (b == 0 && (c == 0 && (d == 0 && (e == 0 && f == 65535))))
is_mapped _ = false

-- `Ipv6Addr`, of its sixteen octets
unfoldable pub ipv6_text : Bytes → Bytes
ipv6_text octets =
    let ss = segments octets in
    let (start, len) = zero_run ss 0 (0, 0) (0, 0) in
    if is_mapped ss
    then 58 ∷ 58 ∷ 102 ∷ 102 ∷ 102 ∷ 102 ∷ 58 ∷ ipv4_text (drop 12 octets)
    else if ltb 1 len
    then join_colons (take start ss) ++ (58 ∷ 58 ∷ join_colons (drop (start + len) ss))
    else join_colons ss
