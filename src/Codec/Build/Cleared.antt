-- ===== src/Codec/Build/Cleared.antt =====
-- The header words that a truncation writes.
use cognidns_core.Prelude.{
  ℕ, ◌+◌, ◌≤◌, ◌<◌, ◌≡◌, refl, ◌∙◌, ◌⊎◌, inl, inr, false, some, arith, ltb, length, take, drop,
  get_or-take,
}
use cognidns_core.Codec.Bytes.{
  Bytes, u16_at, be16, write, length-write, byte-write_before, byte-write_after, u16_at-write,
}
use cognidns_core.Codec.Header.{parse_header}
use cognidns_core.Codec.Bytes.Frame.{drop-write}

u16_at-write_other :
    (p : Bytes) (o v i : ℕ) → (i + 2 ≤ o) ⊎ (o + 2 ≤ i) → u16_at (write p o (be16 v)) i ≡ u16_at p i
unfolding u16_at
u16_at-write_other p o v i (inl h) =
    rw
      (
        byte-write_before p o (be16 v) i (omega arith),
        byte-write_before p o (be16 v) (i + 1) (omega arith),
      )
      refl
u16_at-write_other p o v i (inr h) =
    rw
      (
        byte-write_after p o (be16 v) i (omega arith),
        byte-write_after p o (be16 v) (i + 1) (omega arith),
      )
      refl

pub u16_at-take : (n : ℕ) (p : Bytes) (i : ℕ) → i + 1 < n → u16_at (take n p) i ≡ u16_at p i
unfolding u16_at
u16_at-take n p i h =
    rw (get_or-take n p i 0 (omega arith), get_or-take n p (i + 1) 0 (omega arith)) refl

-- Three counts set to zero behind the flags and the number of questions.
abbrev pub cleared : Bytes → ℕ → ℕ → Bytes
cleared p flags qdcount =
    write (write (write (write (write p 2 (be16 flags)) 4 (be16 qdcount)) 6 (be16 0)) 8 (be16 0)) 10
      (be16 0)

pub length-cleared : (p : Bytes) (flags qdcount : ℕ) → length (cleared p flags qdcount) ≡ length p
length-cleared p flags qdcount =
    let a = write p 2 (be16 flags) in
    let b = write a 4 (be16 qdcount) in
    let c = write b 6 (be16 0) in
    let d = write c 8 (be16 0) in
    length-write d 10 (be16 0)
    ∙ length-write c 8 (be16 0)
    ∙ length-write b 6 (be16 0)
    ∙ length-write a 4 (be16 qdcount)
    ∙ length-write p 2 (be16 flags)

pub drop-cleared : (p : Bytes) (flags qdcount : ℕ) → drop 12 (cleared p flags qdcount) ≡ drop 12 p
drop-cleared p flags qdcount =
    let a = write p 2 (be16 flags) in
    let b = write a 4 (be16 qdcount) in
    let c = write b 6 (be16 0) in
    let d = write c 8 (be16 0) in
    drop-write d 10 (be16 0) 12 (omega arith)
    ∙ drop-write c 8 (be16 0) 12 (omega arith)
    ∙ drop-write b 6 (be16 0) 12 (omega arith)
    ∙ drop-write a 4 (be16 qdcount) 12 (omega arith)
    ∙ drop-write p 2 (be16 flags) 12 (omega arith)

pub parse_header-cleared :
    (p : Bytes) (flags qdcount : ℕ)
    → 12 ≤ length p
    → flags < 65536
    → qdcount < 65536
    → parse_header (cleared p flags qdcount)
      ≡ some (record {
        id = u16_at p 0;
        flags = flags;
        qdcount = qdcount;
        ancount = 0;
        nscount = 0;
        arcount = 0;
      })
unfolding parse_header
parse_header-cleared p flags qdcount long hf hq =
    let a = write p 2 (be16 flags) in
    let b = write a 4 (be16 qdcount) in
    let c = write b 6 (be16 0) in
    let d = write c 8 (be16 0) in
    let e = write d 10 (be16 0) in
    let la = length-write p 2 (be16 flags) in
    let lb = length-write a 4 (be16 qdcount) in
    let lc = length-write b 6 (be16 0) in
    let ld = length-write c 8 (be16 0) in
    let le = length-write d 10 (be16 0) in
    let f0 : u16_at e 0 ≡ u16_at p 0 =
      u16_at-write_other d 10 0 0 (inl (omega arith))
      ∙ u16_at-write_other c 8 0 0 (inl (omega arith))
      ∙ u16_at-write_other b 6 0 0 (inl (omega arith))
      ∙ u16_at-write_other a 4 qdcount 0 (inl (omega arith))
      ∙ u16_at-write_other p 2 flags 0 (inl (omega arith)) in
    let f2 : u16_at e 2 ≡ flags =
      u16_at-write_other d 10 0 2 (inl (omega arith))
      ∙ u16_at-write_other c 8 0 2 (inl (omega arith))
      ∙ u16_at-write_other b 6 0 2 (inl (omega arith))
      ∙ u16_at-write_other a 4 qdcount 2 (inl (omega arith))
      ∙ u16_at-write p 2 flags (omega arith) hf in
    let f4 : u16_at e 4 ≡ qdcount =
      u16_at-write_other d 10 0 4 (inl (omega arith))
      ∙ u16_at-write_other c 8 0 4 (inl (omega arith))
      ∙ u16_at-write_other b 6 0 4 (inl (omega arith))
      ∙ u16_at-write a 4 qdcount (omega arith) hq in
    let f6 : u16_at e 6 ≡ 0 =
      u16_at-write_other d 10 0 6 (inl (omega arith))
      ∙ u16_at-write_other c 8 0 6 (inl (omega arith))
      ∙ u16_at-write b 6 0 (omega arith) (omega arith) in
    let f8 : u16_at e 8 ≡ 0 =
      u16_at-write_other d 10 0 8 (inl (omega arith))
      ∙ u16_at-write c 8 0 (omega arith) (omega arith) in
    let f10 : u16_at e 10 ≡ 0 = u16_at-write d 10 0 (omega arith) (omega arith) in
    let t : ltb (length e) 12 ≡ false = ground arith in rw (t, f0, f2, f4, f6, f8, f10) refl
