-- ===== src/Policy/Trie/Least.antt =====
-- The trie finds the least index of the networks that cover an address.
use cognidns_core.Prelude.{
  ℕ, ◌*◌, ◌≤◌, min, ◌≡◌, refl, sym, ap, ◌∙◌, subst, ◌⊎◌, inl, inr, Bool, true, false, ◌&&◌, Option,
  none, some, List, [], ◌∷◌, arith, leb, if◌then◌else◌, Bool-cases, length, All, All-map,
}
use cognidns_core.Codec.Bytes.{Bytes}
use cognidns_core.Policy.Trie.{
  CidrTrieNode, insert_prefix_bits, note_min, lookup_bits, IpAddr, v4, v6, IpNet, v4_net, v6_net,
  CidrTrie, empty_trie, insert_net, lookup_ip, insert_all,
}
use cognidns_core.Policy.Trie.Lookup.{hit-empty_node, same_bits, note_if, hit-insert_loop}
use cognidns_core.Policy.Trie.Min.{note_min-none, note_min_assoc}

-- An address is in a network of its family if the bits of the prefix agree.
abbrev pub covers : IpNet → IpAddr → Bool
covers (v4_net p prefix_len) (v4 q) = leb prefix_len (length q * 8) && same_bits prefix_len p q 0
covers (v4_net p prefix_len) (v6 q) = false
covers (v6_net p prefix_len) (v4 q) = false
covers (v6_net p prefix_len) (v6 q) = leb prefix_len (length q * 8) && same_bits prefix_len p q 0

-- A network with this index covers the address.
abbrev pub HasCover : List (IpNet × ℕ) → IpAddr → ℕ → Type 0
HasCover [] ip i = ⊥
HasCover ((net, j) ∷ nets) ip i = ((covers net ip ≡ true) × (j ≡ i)) ⊎ HasCover nets ip i

-- The least index of the networks that cover the address, if there is one.
abbrev pub IsLeast : List (IpNet × ℕ) → IpAddr → Option ℕ → Type 0
IsLeast nets ip none = All (λ x. covers x.0 ip ≡ false) nets
IsLeast nets ip (some i) = HasCover nets ip i × All (λ x. (covers x.0 ip ≡ false) ⊎ (i ≤ x.1)) nets

abbrev index_if : Bool → ℕ → Option ℕ
index_if b i = if b then some i else none

abbrev least : List (IpNet × ℕ) → IpAddr → Option ℕ
least [] ip = none
least ((net, i) ∷ nets) ip = note_min (index_if (covers net ip) i) (least nets ip)

note_if-index_if : (b : Bool) (i : ℕ) (a : Option ℕ) → note_if b i a ≡ note_min a (index_if b i)
unfolding note_min
note_if-index_if true i a = refl
note_if-index_if false i a = refl

lookup_bits-insert_prefix_bits :
    (root : CidrTrieNode) (p q : Bytes) (k i : ℕ)
    → lookup_bits (insert_prefix_bits root p k i) q
      ≡ note_min (lookup_bits root q) (index_if (leb k (length q * 8) && same_bits k p q 0) i)
unfolding lookup_bits insert_prefix_bits
lookup_bits-insert_prefix_bits root p q k i =
    hit-insert_loop k (length q * 8) p q 0 i root
    ∙ note_if-index_if (leb k (length q * 8) && same_bits k p q 0) i _

lookup_ip-insert_net :
    (t : CidrTrie) (net : IpNet) (i : ℕ) (ip : IpAddr)
    → lookup_ip (insert_net t net i) ip ≡ note_min (lookup_ip t ip) (index_if (covers net ip) i)
unfolding lookup_ip insert_net
lookup_ip-insert_net t (v4_net p k) i (v4 q) = lookup_bits-insert_prefix_bits t.ipv4_root p q k i
lookup_ip-insert_net t (v4_net p k) i (v6 q) = unfold note_min in refl
lookup_ip-insert_net t (v6_net p k) i (v4 q) = unfold note_min in refl
lookup_ip-insert_net t (v6_net p k) i (v6 q) = lookup_bits-insert_prefix_bits t.ipv6_root p q k i

lookup_ip-insert_all_from :
    (nets : List (IpNet × ℕ)) (t : CidrTrie) (ip : IpAddr)
    → lookup_ip (insert_all t nets) ip ≡ note_min (lookup_ip t ip) (least nets ip)
unfolding insert_all
lookup_ip-insert_all_from [] t ip = unfold note_min in refl
lookup_ip-insert_all_from ((net, i) ∷ nets) t ip =
    lookup_ip-insert_all_from nets (insert_net t net i) ip
    ∙ ap (λ x. note_min x (least nets ip)) (lookup_ip-insert_net t net i ip)
    ∙ note_min_assoc (lookup_ip t ip) (index_if (covers net ip) i) (least nets ip)

lookup_ip-empty_trie : (ip : IpAddr) → lookup_ip empty_trie ip ≡ none
unfolding lookup_ip lookup_bits
lookup_ip-empty_trie (v4 q) = hit-empty_node (length q * 8) q 0
lookup_ip-empty_trie (v6 q) = hit-empty_node (length q * 8) q 0

-- One network more, in front.
IsLeast-cons :
    (net : IpNet) (i : ℕ) (nets : List (IpNet × ℕ)) (ip : IpAddr) (r : Option ℕ)
    → IsLeast nets ip r
    → IsLeast ((net, i) ∷ nets) ip (note_min (index_if (covers net ip) i) r)
unfolding note_min
IsLeast-cons net i nets ip none h = elim (Bool-cases (covers net ip)) [
  | inl t ↦ rw t (inl (t, refl), (inr (omega arith), All-map (λ x e. inl e) nets h))
  | inr t ↦ rw t (t, h)
]
IsLeast-cons net i nets ip (some j) (found, h) = elim (Bool-cases (covers net ip)) [
  | inl t ↦ elim (Bool-cases (leb i j)) [
    | inl le ↦
        let e : min i j ≡ i = ground arith in
        rw t (
          subst (λ m. IsLeast ((net, i) ∷ nets) ip (some m)) (sym e)
            (
              inl (t, refl),
              (
                inr (omega arith),
                All-map (λ x c. elim c [ inl u ↦ inl u | inr l ↦ inr (ground arith) ]) nets h,
              ),
            ))
    | inr gt ↦
        let e : min i j ≡ j = ground arith in
        rw t (
          subst (λ m. IsLeast ((net, i) ∷ nets) ip (some m)) (sym e)
            (inr found, (inr (ground arith), h)))
  ]
  | inr t ↦ rw t (inr found, (inl t, h))
]

least-IsLeast : (nets : List (IpNet × ℕ)) (ip : IpAddr) → IsLeast nets ip (least nets ip)
least-IsLeast [] ip = tt
least-IsLeast ((net, i) ∷ nets) ip =
    IsLeast-cons net i nets ip (least nets ip) (least-IsLeast nets ip)

-- A lookup in the trie of a list of networks returns the least index of the networks that cover
-- the address, and nothing if none does. IPv4 and IPv6 do not mix.
pub lookup_ip-insert_all :
    (nets : List (IpNet × ℕ)) (ip : IpAddr)
    → IsLeast nets ip (lookup_ip (insert_all empty_trie nets) ip)
lookup_ip-insert_all nets ip =
    let e : lookup_ip (insert_all empty_trie nets) ip ≡ least nets ip =
      lookup_ip-insert_all_from nets empty_trie ip
      ∙ ap (λ x. note_min x (least nets ip)) (lookup_ip-empty_trie ip)
      ∙ note_min-none (least nets ip) in
    rw e (least-IsLeast nets ip)
