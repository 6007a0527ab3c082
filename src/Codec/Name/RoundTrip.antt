-- ===== src/Codec/Name/RoundTrip.antt =====
-- `parse_name` reads what `encode_name` wrote.
use cognidns_core.Prelude.{
  ℕ, suc, ◌+◌, ◌-◌, ◌<◌, ◌≡◌, refl, sym, ap, ◌⊎◌, inl, inr, Bool, true, false, ◌||◌, some, List, [],
  ◌∷◌, ◌++◌, append_assoc, arith, leb, ◌==◌, Bool-cases, length, All, length-append,
}
use cognidns_core.Codec.Name.{
  parse_labels, parse_name_with_depth, parse_name, encode_labels, canonical, encode_name,
}
use cognidns_core.Codec.Text.{text_eq, trim, strip_dot, split_dots, join_dots}
use cognidns_core.Codec.Bytes.{Bytes}
use cognidns_core.Codec.Name.Wire.{
  wire, IsLabel, IsUtf8, encode_labels-wire, parse_labels-wire, length-wire,
}
use cognidns_core.Codec.Text.Split.{text_eq_sound, join-split_dots, Pieces, utf8-split}

canonical_root : (name : Bytes) → (trim name ≡ []) ⊎ (trim name ≡ 46 ∷ []) → canonical name ≡ []
unfolding canonical strip_dot
canonical_root name (inl e) = rw e
canonical_root name (inr e) = rw e

length-zero : (x : Bytes) → (length x == 0) ≡ true → x ≡ []
length-zero [] h = refl
length-zero (b ∷ x) h = absurd (ground arith)

root_cases : (x : Bytes) → (length x == 0 || text_eq x (46 ∷ [])) ≡ true → (x ≡ []) ⊎ (x ≡ 46 ∷ [])
root_cases [] h = inl refl
root_cases (b ∷ x) h = inr (text_eq_sound (b ∷ x) (46 ∷ []) (ground arith))

-- A name as labels on the wire.
abbrev pub OnWire : Bytes → Bytes → Bytes → Type 0
OnWire name out w =
    (ls : List Bytes) × (w ≡ out ++ wire ls)
    × All IsLabel ls
    × All IsUtf8 ls
    × (join_dots ls ≡ name)

root-OnWire :
    (name out w : Bytes)
    → name ≡ []
    → ◌≡◌ {A = Bytes × Bool} (out ++ (0 ∷ []), true) (w, true)
    → OnWire name out w
unfolding wire join_dots
root-OnWire name out w e d = ([], ap (λ x. x.0) (sym d), tt, tt, sym e)

All-of_Pieces : (ls : List Bytes) → Pieces 0 0x80 0xBF ls → All IsUtf8 ls
All-of_Pieces [] p = absurd p
All-of_Pieces (l ∷ ls) p = p

labels-OnWire :
    (name out w : Bytes)
    → IsUtf8 name
    → encode_labels (split_dots name) out ≡ (w, true)
    → OnWire name out w
labels-OnWire name out w u e =
    let (eq, ok) = encode_labels-wire (split_dots name) out w e in
    (
      split_dots name,
      eq,
      ok,
      All-of_Pieces (split_dots name) (utf8-split 0 0x80 0xBF name (omega arith) u),
      join-split_dots name,
    )

-- Every name that `encode_name` takes stands on the wire as its labels.
pub encode_name-OnWire :
    (name out w : Bytes)
    → IsUtf8 (canonical name)
    → encode_name name out ≡ (w, true)
    → OnWire (canonical name) out w
unfolding encode_name
encode_name-OnWire name out w u e =
    elim (Bool-cases (length (trim name) == 0 || text_eq (trim name) (46 ∷ []))) [
      | inl root ↦
          root-OnWire (canonical name) out w (canonical_root name (root_cases (trim name) root))
            (rw root at e)
      | inr named ↦ elim (Bool-cases (length (canonical name) == 0)) [
        | inl empty ↦
            root-OnWire (canonical name) out w (length-zero (canonical name) empty)
              (rw (named, empty) at e)
        | inr some_label ↦ labels-OnWire (canonical name) out w u (rw (named, some_label) at e)
      ]
    ]

parse_name_with_depth-eq :
    (n : ℕ) (p : Bytes) (o : ℕ) (r : List Bytes × ℕ)
    → parse_labels (parse_name_with_depth n p) (length p + 1) p o [] 0 ≡ some r
    → o < length p
    → parse_name_with_depth (suc n) p o ≡ some (join_dots r.0, r.1)
unfolding parse_name_with_depth
parse_name_with_depth-eq n p o r e h = let t : leb (length p) o ≡ false = ground arith in rw (t, e)

parse_name-wire :
    (out rest : Bytes) (ls : List Bytes)
    → All IsLabel ls
    → All IsUtf8 ls
    → parse_name ((out ++ wire ls) ++ rest) (length out)
      ≡ some (join_dots ls, length (out ++ wire ls) - length out)
unfolding parse_name
parse_name-wire out rest ls v u =
    let p = (out ++ wire ls) ++ rest in
    let n : length p ≡ length out + length (wire ls) + length rest =
      omega (arith, length-append (out ++ wire ls) rest, length-append out (wire ls)) in
    let read =
      parse_labels-wire (parse_name_with_depth 16 p) ls (length p + 1) p out rest (length out) [] 0
        v u (omega (arith, length-wire ls)) refl (append_assoc out (wire ls) rest) in
    let c : 0 + length (wire ls) ≡ length (out ++ wire ls) - length out =
      omega (arith, length-append out (wire ls)) in
    rw c at (
      parse_name_with_depth-eq 16 p (length out) (ls, 0 + length (wire ls)) read
        (omega (arith, length-wire ls)))

-- What `encode_name` appends to a buffer for a name that it takes, and that is UTF-8, is read back
-- by `parse_name` as the same name, without the spaces and the last dot, and exactly the appended
-- bytes are consumed, whatever follows them.
pub parse_name-encode_name :
    (name out w rest : Bytes)
    → IsUtf8 (canonical name)
    → encode_name name out ≡ (w, true)
    → parse_name (w ++ rest) (length out) ≡ some (canonical name, length w - length out)
parse_name-encode_name name out w rest u e =
    let (ls, eq, v, u', j) = encode_name-OnWire name out w u e in
    rw (eq, ← j) (parse_name-wire out rest ls v u')
