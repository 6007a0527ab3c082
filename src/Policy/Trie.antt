-- ===== src/Policy/Trie.antt =====
-- The CIDR trie of src/policy.rs: one level of nodes per bit, with the least index at a prefix's
-- end. An address is its octets, and a network its octets and its prefix length.
pub mod Min
pub mod Least
pub mod Lookup
use cognidns_core.Prelude.{
  ℕ, zero, suc, ◌+◌, ◌-◌, ◌*◌, ◌/◌, ◌%◌, ◌^◌, min, Bool, Option, none, some, List, [], ◌∷◌, leb,
  ◌==◌, if◌then◌else◌, length,
}
use cognidns_core.Codec.Bytes.{Bytes, byte}

mutual
  pub data CidrTrieNode : Type 0 where
    node : CidrTrieLink → CidrTrieLink → Option ℕ → CidrTrieNode

  -- `Option<Box<CidrTrieNode>>`
  pub data CidrTrieLink : Type 0 where
    no_child : CidrTrieLink
    child : CidrTrieNode → CidrTrieLink

-- `CidrTrieNode::default()`
abbrev pub empty_node : CidrTrieNode
empty_node = node no_child no_child none

abbrev pub terminal_min_index : CidrTrieNode → Option ℕ
terminal_min_index (node zero_link one_link terminal) = terminal

abbrev pub link : Bool → CidrTrieNode → CidrTrieLink
link bit (node zero_link one_link terminal) = if bit then one_link else zero_link

abbrev pub with_link : Bool → CidrTrieLink → CidrTrieNode → CidrTrieNode
with_link bit l (node zero_link one_link terminal) =
    node (if bit then zero_link else l) (if bit then l else one_link) terminal

-- `get_or_insert_with`
abbrev pub get_or_insert : CidrTrieLink → CidrTrieNode
get_or_insert no_child = empty_node
get_or_insert (child n) = n

-- `(byte >> offset) & 1`, with the highest bit first
unfoldable pub bit_at : Bytes → ℕ → Bool
bit_at bytes bit = (byte bytes (bit / 8) / 2 ^ (7 - bit % 8)) % 2 == 1

unfoldable pub update_min_index : Option ℕ → ℕ → Option ℕ
update_min_index none candidate = some candidate
update_min_index (some current) candidate =
    if leb current candidate then some current else some candidate

-- The loop from bit `bit`, with `n` bits to go.
unfoldable pub insert_loop : ℕ → Bytes → ℕ → ℕ → CidrTrieNode → CidrTrieNode
insert_loop zero bytes bit index (node zero_link one_link terminal) =
    node zero_link one_link (update_min_index terminal index)
insert_loop (suc n) bytes bit index root =
    let b = bit_at bytes bit in
    with_link b (child (insert_loop n bytes (bit + 1) index (get_or_insert (link b root)))) root

unfoldable pub insert_prefix_bits : CidrTrieNode → Bytes → ℕ → ℕ → CidrTrieNode
insert_prefix_bits root bytes prefix_len index = insert_loop prefix_len bytes 0 index root

-- `best`, with the terminal index of the next node if it has one
unfoldable pub note_min : Option ℕ → Option ℕ → Option ℕ
note_min best none = best
note_min none (some candidate) = some candidate
note_min (some current) (some candidate) = some (min current candidate)

unfoldable pub lookup_loop : ℕ → Bytes → ℕ → CidrTrieNode → Option ℕ → Option ℕ
lookup_loop zero bytes bit root best = best
lookup_loop (suc n) bytes bit root best = elim (link (bit_at bytes bit) root) [
  | no_child ↦ best
  | child below ↦ lookup_loop n bytes (bit + 1) below (note_min best (terminal_min_index below))
]

unfoldable pub lookup_bits : CidrTrieNode → Bytes → Option ℕ
lookup_bits root bytes = lookup_loop (length bytes * 8) bytes 0 root (terminal_min_index root)

pub data IpAddr : Type 0 where
  v4 : Bytes → IpAddr
  v6 : Bytes → IpAddr

pub data IpNet : Type 0 where
  v4_net : Bytes → ℕ → IpNet
  v6_net : Bytes → ℕ → IpNet

pub record CidrTrie : Type 0 where
  pub ipv4_root : CidrTrieNode
  pub ipv6_root : CidrTrieNode

-- `CidrTrie::default()`
abbrev pub empty_trie : CidrTrie
empty_trie = record { ipv4_root = empty_node; ipv6_root = empty_node }

unfoldable pub insert_net : CidrTrie → IpNet → ℕ → CidrTrie
insert_net t (v4_net addr prefix_len) index = record t {
  ipv4_root = insert_prefix_bits t.ipv4_root addr prefix_len index;
}
insert_net t (v6_net addr prefix_len) index = record t {
  ipv6_root = insert_prefix_bits t.ipv6_root addr prefix_len index;
}

unfoldable pub lookup_ip : CidrTrie → IpAddr → Option ℕ
lookup_ip t (v4 octets) = lookup_bits t.ipv4_root octets
lookup_ip t (v6 octets) = lookup_bits t.ipv6_root octets

-- The loops of `new_with_views` over the networks, each with its index.
unfoldable pub insert_all : CidrTrie → List (IpNet × ℕ) → CidrTrie
insert_all t [] = t
insert_all t ((net, index) ∷ nets) = insert_all (insert_net t net index) nets
