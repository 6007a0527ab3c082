-- ===== src/Policy/Trie/Lookup.antt =====
-- What a lookup in the trie finds, against the list of the networks that were inserted.
use cognidns_core.Prelude.{
  ℕ, zero, suc, ◌+◌, ◌≡◌, refl, sym, ap, ◌∙◌, ◌⊎◌, inl, inr, Bool, true, false, ◌&&◌, Option, none,
  some, arith, leb, if◌then◌else◌, Bool-cases,
}
use cognidns_core.Codec.Bytes.{Bytes}
use cognidns_core.Policy.Trie.{
  CidrTrieNode, node, CidrTrieLink, no_child, child, empty_node, terminal_min_index, link,
  with_link, get_or_insert, bit_at, update_min_index, insert_loop, note_min, lookup_loop,
}
use cognidns_core.Policy.Trie.Min.{note_min_assoc, update_min_index-note_min, note_min_comm}
use cognidns_core.Cache.Shard.{bool_eq}

-- What is found at a node and below it.
abbrev pub hit : ℕ → Bytes → ℕ → CidrTrieNode → Option ℕ
hit n q bit root = lookup_loop n q bit root (terminal_min_index root)

abbrev hit_link : ℕ → Bytes → ℕ → CidrTrieLink → Option ℕ
hit_link n q bit no_child = none
hit_link n q bit (child below) = hit n q bit below

link-cases : (l : CidrTrieLink) → (l ≡ no_child) ⊎ ((below : CidrTrieNode) × (l ≡ child below))
link-cases no_child = inl refl
link-cases (child below) = inr (below, refl)

lookup_loop-no_child :
    (n : ℕ) (q : Bytes) (bit : ℕ) (root : CidrTrieNode) (best : Option ℕ)
    → link (bit_at q bit) root ≡ no_child
    → lookup_loop (suc n) q bit root best ≡ best
unfolding lookup_loop
lookup_loop-no_child n q bit root best e = rw (lookup_loop, e)

lookup_loop-child :
    (n : ℕ) (q : Bytes) (bit : ℕ) (root below : CidrTrieNode) (best : Option ℕ)
    → link (bit_at q bit) root ≡ child below
    → lookup_loop (suc n) q bit root best
      ≡ lookup_loop n q (bit + 1) below (note_min best (terminal_min_index below))
unfolding lookup_loop
lookup_loop-child n q bit root below best e = rw (lookup_loop, e)

lookup_loop-note_min :
    (n : ℕ) (q : Bytes) (bit : ℕ) (root : CidrTrieNode) (a b : Option ℕ)
    → lookup_loop n q bit root (note_min a b) ≡ note_min a (lookup_loop n q bit root b)
lookup_loop-note_min zero q bit root a b = unfold lookup_loop in refl
lookup_loop-note_min (suc n) q bit root a b = elim (link-cases (link (bit_at q bit) root)) [
  | inl e ↦
      rw (lookup_loop-no_child n q bit root (note_min a b) e, lookup_loop-no_child n q bit root b e)
  | inr (below, e) ↦
      let t = terminal_min_index below in
      rw
        (
          lookup_loop-child n q bit root below (note_min a b) e,
          lookup_loop-child n q bit root below b e,
          note_min_assoc a b t,
        )
        (lookup_loop-note_min n q (bit + 1) below a (note_min b t))
]

-- The best index at a node, and what is found below.
lookup_loop_step :
    (n : ℕ) (q : Bytes) (bit : ℕ) (root : CidrTrieNode) (best : Option ℕ)
    → lookup_loop (suc n) q bit root best
      ≡ note_min best (hit_link n q (bit + 1) (link (bit_at q bit) root))
lookup_loop_step n q bit root best = elim (link-cases (link (bit_at q bit) root)) [
  | inl e ↦ rw (lookup_loop-no_child n q bit root best e, e) (unfold note_min in refl)
  | inr (below, e) ↦
      rw (lookup_loop-child n q bit root below best e, e)
        (lookup_loop-note_min n q (bit + 1) below best (terminal_min_index below))
]

link-empty_node : (b : Bool) → link b empty_node ≡ no_child
link-empty_node true = refl
link-empty_node false = refl

pub hit-empty_node : (n : ℕ) (q : Bytes) (bit : ℕ) → hit n q bit empty_node ≡ none
hit-empty_node zero q bit = unfold lookup_loop in refl
hit-empty_node (suc n) q bit =
    lookup_loop-no_child n q bit empty_node none (link-empty_node (bit_at q bit))

hit-get_or_insert :
    (n : ℕ) (q : Bytes) (bit : ℕ) (l : CidrTrieLink)
    → hit n q bit (get_or_insert l) ≡ hit_link n q bit l
hit-get_or_insert n q bit no_child = hit-empty_node n q bit
hit-get_or_insert n q bit (child below) = refl

-- The bits of `p` and `q` from `bit` on are the same, `k` of them.
unfoldable pub same_bits : ℕ → Bytes → Bytes → ℕ → Bool
same_bits zero p q bit = true
same_bits (suc k) p q bit = bool_eq (bit_at p bit) (bit_at q bit) && same_bits k p q (bit + 1)

abbrev pub note_if : Bool → ℕ → Option ℕ → Option ℕ
note_if b i a = if b then note_min a (some i) else a

note_if_under :
    (b : Bool) (i : ℕ) (a c : Option ℕ) → note_min a (note_if b i c) ≡ note_if b i (note_min a c)
note_if_under true i a c = sym (note_min_assoc a c (some i))
note_if_under false i a c = refl

link-with_link :
    (a b : Bool) (l : CidrTrieLink) (root : CidrTrieNode)
    → link a (with_link b l root) ≡ (if bool_eq b a then l else link a root)
link-with_link true true l (node x y t) = refl
link-with_link true false l (node x y t) = refl
link-with_link false true l (node x y t) = refl
link-with_link false false l (node x y t) = refl

bool_eq-eq : (a b : Bool) → bool_eq a b ≡ true → a ≡ b
bool_eq-eq true true h = refl
bool_eq-eq true false h = cc
bool_eq-eq false true h = cc
bool_eq-eq false false h = refl

terminal-with_link :
    (b : Bool) (l : CidrTrieLink) (root : CidrTrieNode)
    → terminal_min_index (with_link b l root) ≡ terminal_min_index root
terminal-with_link b l (node x y t) = refl

hit_terminal :
    (n i : ℕ) (q : Bytes) (bit : ℕ) (x y : CidrTrieLink) (t : Option ℕ)
    → hit n q bit (node x y (update_min_index t i)) ≡ note_min (hit n q bit (node x y t)) (some i)
hit_terminal zero i q bit x y t = unfold lookup_loop in (update_min_index-note_min t i)
hit_terminal (suc n) i q bit x y t =
    let l = hit_link n q (bit + 1) (link (bit_at q bit) (node x y t)) in
    rw (
      lookup_loop_step n q bit (node x y (update_min_index t i)) (update_min_index t i),
      lookup_loop_step n q bit (node x y t) t,
      update_min_index-note_min t i,
      note_min_assoc t (some i) l,
      note_min_assoc t l (some i),
      note_min_comm (some i) l,
    )

leb-suc : (k n : ℕ) → leb (suc k) (suc n) ≡ leb k n
leb-suc k n = elim (Bool-cases (leb k n)) [
  | inl t ↦ (let e : leb (suc k) (suc n) ≡ true = ground arith in e ∙ sym t)
  | inr t ↦ (let e : leb (suc k) (suc n) ≡ false = ground arith in e ∙ sym t)
]

&&-false : (a : Bool) → (a && false) ≡ false
&&-false true = refl
&&-false false = refl

insert_loop-suc :
    (k : ℕ) (p : Bytes) (bit i : ℕ) (root : CidrTrieNode)
    → insert_loop (suc k) p bit i root
      ≡ with_link
          (bit_at p bit)
          (child (insert_loop k p (bit + 1) i (get_or_insert (link (bit_at p bit) root))))
          root
unfolding insert_loop
insert_loop-suc k p bit i root = refl

-- What is found at a node with one link replaced.
hit-with_link :
    (n : ℕ) (q : Bytes) (bit : ℕ) (b : Bool) (l : CidrTrieLink) (root : CidrTrieNode)
    → hit (suc n) q bit (with_link b l root)
      ≡ note_min (terminal_min_index root) (
          hit_link n q (bit + 1) (if bool_eq b (bit_at q bit) then l else link (bit_at q bit) root))
hit-with_link n q bit b l root =
    lookup_loop_step n q bit (with_link b l root) (terminal_min_index (with_link b l root))
    ∙ rw (link-with_link (bit_at q bit) b l root, terminal-with_link b l root)

covers-suc :
    (k n : ℕ) (p q : Bytes) (bit : ℕ)
    → (leb (suc k) (suc n) && same_bits (suc k) p q bit)
      ≡ (bool_eq (bit_at p bit) (bit_at q bit) && (leb k n && same_bits k p q (bit + 1)))
unfolding same_bits
covers-suc k n p q bit = elim (Bool-cases (bool_eq (bit_at p bit) (bit_at q bit))) [
  | inl h ↦ rw h (ap (λ x. x && same_bits k p q (bit + 1)) (leb-suc k n))
  | inr h ↦ rw h (&&-false (leb (suc k) (suc n)))
]

-- One insertion adds its index to what is found for the addresses with the prefix.
pub hit-insert_loop :
    (k n : ℕ) (p q : Bytes) (bit i : ℕ) (root : CidrTrieNode)
    → hit n q bit (insert_loop k p bit i root)
      ≡ note_if (leb k n && same_bits k p q bit) i (hit n q bit root)
hit-insert_loop zero n p q bit i (node x y t) =
    let e : leb 0 n ≡ true = ground arith in
    rw e (unfold insert_loop in unfold same_bits in (hit_terminal n i q bit x y t))
hit-insert_loop (suc k) zero p q bit i root =
    let e : leb (suc k) 0 ≡ false = ground arith in
    rw (e, insert_loop-suc k p bit i root)
      (unfold lookup_loop in
        (terminal-with_link (bit_at p bit)
          (child (insert_loop k p (bit + 1) i (get_or_insert (link (bit_at p bit) root)))) root))
hit-insert_loop (suc k) (suc n) p q bit i root =
    let b = bit_at p bit in
    let a = bit_at q bit in
    let t = terminal_min_index root in
    let l = link b root in
    let below = insert_loop k p (bit + 1) i (get_or_insert l) in
    let same = leb k n && same_bits k p q (bit + 1) in
    let left : hit (suc n) q bit (insert_loop (suc k) p bit i root)
        ≡ note_min t (hit_link n q (bit + 1) (if bool_eq b a then child below else link a root)) =
      ap (hit (suc n) q bit) (insert_loop-suc k p bit i root)
      ∙ hit-with_link n q bit b (child below) root in
    let right : note_if (bool_eq b a && same) i (note_min t (hit_link n q (bit + 1) (link a root)))
        ≡ note_if (leb (suc k) (suc n) && same_bits (suc k) p q bit) i (hit (suc n) q bit root) =
      rw (covers-suc k n p q bit, lookup_loop_step n q bit root t) refl in
    let found : hit n q (bit + 1) below ≡ note_if same i (hit_link n q (bit + 1) l) =
      hit-insert_loop k n p q (bit + 1) i (get_or_insert l)
      ∙ ap (note_if same i) (hit-get_or_insert n q (bit + 1) l) in
    elim (Bool-cases (bool_eq b a)) [
      | inl h ↦
          let e : l ≡ link a root = ap (λ x. link x root) (bool_eq-eq b a h) in
          let r = rw h at right in
          (rw h at left)
          ∙ ap (note_min t) (found ∙ ap (λ x. note_if same i (hit_link n q (bit + 1) x)) e)
          ∙ note_if_under same i t (hit_link n q (bit + 1) (link a root))
          ∙ r
      | inr h ↦ (rw h at left) ∙ (rw h at right)
    ]
