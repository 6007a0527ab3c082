-- ===== src/Codec/Name.antt =====
-- Domain names on the wire, of src/codec/dns.rs: labels, compression pointers and their reader,
-- skipper and writer. A text is the list of its UTF-8 bytes.
pub mod Agree
pub mod RoundTrip
pub mod Wire
pub mod Ends
pub mod Skip
use cognidns_core.Prelude.{
  ℕ, zero, suc, ◌+◌, ◌*◌, bit_and, bit_or, Bool, true, false, ◌||◌, Option, none, some, List, [],
  ◌∷◌, ◌++◌, ltb, leb, ◌==◌, if◌then◌else◌, ◌>>=◌, length,
}
use cognidns_core.Codec.Text.{is_utf8, text_eq, trim, strip_dot, split_dots, join_dots}
use cognidns_core.Codec.Bytes.{Bytes, byte, slice}

-- `len & 0b1100_0000 == 0b1100_0000`
unfoldable pub is_pointer : ℕ → Bool
is_pointer len = bit_and len 0xC0 == 0xC0

-- The loop of `skip_name`; it leaves the offset unchanged or moves it on by a byte at least, so
-- one round more than the packet has bytes is fuel enough.
unfoldable pub skip_name_loop : ℕ → Bytes → ℕ → Option ℕ
unfolding is_pointer
skip_name_loop zero p offset = none
skip_name_loop (suc f) p offset =
    let len = byte p offset in
    let rest = skip_name_loop f p (offset + 1 + len) in
    if leb (length p) offset
    then none
    else if is_pointer len
    then (if leb (length p) (offset + 1) then none else some (offset + 2))
    else if len == 0
    then some (offset + 1)
    else if ltb (length p) (offset + 1 + len)
    then none
    else rest

unfoldable pub skip_name : Bytes → ℕ → Option ℕ
unfolding skip_name_loop
skip_name p offset = skip_name_loop (length p + 1) p offset

-- `((len as u16 & 0x3F) << 8) | packet[offset + 1] as u16`
unfoldable pub pointer_target : ℕ → ℕ → ℕ
pointer_target len low = bit_or (bit_and len 0x3F * 256) low

-- `labels.push(suffix)` unless the suffix is empty
unfoldable pub push_suffix : List Bytes → Bytes → List Bytes
push_suffix labels [] = labels
push_suffix labels (b ∷ r) = labels ++ ((b ∷ r) ∷ [])

-- The loop of `parse_name_with_depth`; `follow` is its call one level deeper.
unfoldable pub parse_labels :
    (ℕ → Option (Bytes × ℕ)) → ℕ → Bytes → ℕ → List Bytes → ℕ → Option (List Bytes × ℕ)
unfolding is_pointer pointer_target push_suffix
parse_labels follow zero p offset labels consumed = none
parse_labels follow (suc f) p offset labels consumed =
    let len = byte p offset in
    let label = slice p (offset + 1) (offset + 1 + len) in
    let rest =
      parse_labels follow f p (offset + 1 + len) (labels ++ (label ∷ [])) (consumed + 1 + len) in
    let suffix = follow (pointer_target len (byte p (offset + 1))) in
    if leb (length p) offset
    then none
    else if is_pointer len
    then (if leb (length p) (offset + 1)
        then none
        else (suffix >>= λ s. some (push_suffix labels s.0, consumed + 2)))
    else if len == 0
    then some (labels, consumed + 1)
    else if ltb (length p) (offset + 1 + len)
    then none
    else if is_utf8 label
    then rest
    else none

-- The first argument is `17 - depth`: at `depth > 16` there is no level left.
unfoldable pub parse_name_with_depth : ℕ → Bytes → ℕ → Option (Bytes × ℕ)
parse_name_with_depth zero p offset = none
parse_name_with_depth (suc levels) p offset =
    let parsed = parse_labels (parse_name_with_depth levels p) (length p + 1) p offset [] 0 in
    if leb (length p) offset then none else (parsed >>= λ r. some (join_dots r.0, r.1))

unfoldable pub parse_name : Bytes → ℕ → Option (Bytes × ℕ)
parse_name p offset = parse_name_with_depth 17 p offset

-- The loop of `encode_name` over the labels: the buffer, and whether every label was taken. A
-- label that is refused leaves the labels before it in the buffer.
unfoldable pub encode_labels : List Bytes → Bytes → Bytes × Bool
encode_labels [] out = (out ++ (0 ∷ []), true)
encode_labels (l ∷ ls) out =
    let rest = encode_labels ls (out ++ (length l ∷ l)) in
    if length l == 0 || ltb 63 (length l) then (out, false) else rest

-- The name without spaces around it and without the dot of an absolute name.
unfoldable pub canonical : Bytes → Bytes
canonical name = strip_dot (trim name)

-- The buffer after `encode_name`, and whether it returned `Some(())`.
unfoldable pub encode_name : Bytes → Bytes → Bytes × Bool
encode_name name out =
    if length (trim name) == 0 || text_eq (trim name) (46 ∷ [])
    then (out ++ (0 ∷ []), true)
    else if length (canonical name) == 0
    then (out ++ (0 ∷ []), true)
    else encode_labels (split_dots (canonical name)) out

abbrev pub when_done : Bytes × Bool → Option Bytes
when_done (out, true) = some out
when_done (out, false) = none

-- `encode_name(name, &mut out)?` where the caller drops `out` with the error
unfoldable pub try_encode_name : Bytes → Bytes → Option Bytes
try_encode_name name out = when_done (encode_name name out)
