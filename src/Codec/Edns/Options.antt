-- ===== src/Codec/Edns/Options.antt =====
-- `parse_edns_options` reads the options that `build_edns_opt_record` writes.
use cognidns_core.Prelude.{
  ℕ, zero, suc, ◌+◌, ◌%◌, ◌≤◌, ◌<◌, ◌≡◌, refl, sym, ap, ◌∙◌, true, false, some, List, [], ◌∷◌, ◌++◌,
  append_assoc, append-nil, arith, ltb, leb, length, All, length-append, take-append,
}
use cognidns_core.Codec.Edns.{DnsEdnsOption, encode_options, parse_options_loop, parse_edns_options}
use cognidns_core.Codec.Bytes.{Bytes, u16_at, be16, slice}
use cognidns_core.Codec.Bytes.Frame.{u16_at-append_right, slice-append_right}

pub record IsOption (o : DnsEdnsOption) : Type 0 where
  pub code_fits : o.code < 65536
  pub payload_fits : length o.payload < 65536

length-encode_options : (os : List DnsEdnsOption) → length os ≤ length (encode_options os)
unfolding encode_options
length-encode_options [] = omega arith
length-encode_options (o ∷ os) =
    omega (arith, length-append o.payload (encode_options os), length-encode_options os)

-- The loop takes the option that stands at its offset.
parse_options_step :
    (f : ℕ) (pre rest : Bytes) (o : DnsEdnsOption) (acc : List DnsEdnsOption)
    → IsOption o
    → parse_options_loop
        (suc f)
        (pre ++ (be16 o.code ++ (be16 (length o.payload % 65536) ++ (o.payload ++ rest))))
        (length pre)
        acc
      ≡ parse_options_loop f
          (pre ++ (be16 o.code ++ (be16 (length o.payload % 65536) ++ (o.payload ++ rest))))
          (length pre + 4 + length o.payload)
          (acc ++ (o ∷ []))
unfolding parse_options_loop
parse_options_step f pre rest o acc v =
    let t = be16 o.code ++ (be16 (length o.payload % 65536) ++ (o.payload ++ rest)) in
    let p = pre ++ t in
    let z : length pre + 0 ≡ length pre = omega arith in
    let c : u16_at p (length pre) ≡ o.code =
      rw z at (u16_at-append_right pre t 0) ∙ unfold u16_at in (omega (arith, v.code_fits)) in
    let l : u16_at p (length pre + 2) ≡ length o.payload =
      u16_at-append_right pre t 2 ∙ unfold u16_at in (omega (arith, v.payload_fits)) in
    let n : length p ≡ length pre + (4 + (length o.payload + length rest)) =
      omega (arith, length-append pre t, length-append o.payload rest) in
    let s : slice p (length pre + 4) (length pre + 4 + length o.payload) ≡ o.payload =
      slice-append_right pre t 4 (length o.payload) ∙ take-append o.payload rest in
    let t₁ : leb (length p) (length pre) ≡ false = ground arith in
    let t₂ : ltb (length p) (length pre + 4) ≡ false = ground arith in
    let t₃ : ltb (length p) (length pre + 4 + length o.payload) ≡ false = ground arith in
    rw (c, l, s, t₁, t₂, t₃)

parse_options-encode_options :
    (os : List DnsEdnsOption) (f : ℕ) (p pre : Bytes) (o : ℕ) (acc : List DnsEdnsOption)
    → All IsOption os
    → length os ≤ f
    → o ≡ length pre
    → p ≡ pre ++ encode_options os
    → parse_options_loop f p o acc ≡ some (acc ++ os)
unfolding encode_options
parse_options-encode_options [] zero p pre o acc v h e q =
    unfold parse_options_loop in (ap some (sym (append-nil acc)))
parse_options-encode_options [] (suc f) p pre o acc v h e q =
    let n : length p ≡ length pre = ap length (q ∙ append-nil pre) in
    let t : leb (length p) o ≡ true = ground arith in
    unfold parse_options_loop in (rw t (ap some (sym (append-nil acc))))
parse_options-encode_options (x ∷ os) zero p pre o acc v h e q = absurd (omega arith)
parse_options-encode_options (x ∷ os) (suc f) p pre o acc v h e q =
    let t = be16 x.code ++ (be16 (length x.payload % 65536) ++ x.payload) in
    let q' : p ≡ (pre ++ t) ++ encode_options os =
      q ∙ sym (append_assoc pre t (encode_options os)) in
    let step = parse_options_step f pre (encode_options os) x acc v.0 in
    let rest =
      parse_options-encode_options os f p (pre ++ t) (length pre + 4 + length x.payload)
        (acc ++ (x ∷ [])) v.1 (omega arith) (omega (arith, length-append pre t)) q' in
    let step' = rw (← q) at step in
    let whole = step' ∙ rest in rw e (rw (append_assoc acc (x ∷ []) os) at whole)

-- Options whose codes and lengths fit into 16 bits are read back as they were written.
pub parse_edns_options-encode_options :
    (os : List DnsEdnsOption) → All IsOption os → parse_edns_options (encode_options os) ≡ some os
unfolding parse_edns_options
parse_edns_options-encode_options os v =
    parse_options-encode_options os (length (encode_options os)) (encode_options os) [] 0 [] v
      (length-encode_options os) refl refl
