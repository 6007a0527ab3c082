-- ===== src/Resolver/Upstreams/Order.antt =====
-- The order of the upstreams in src/resolver/mod.rs.
use mathlib.Core.List.Perm
use cognidns_core.Prelude.{
  ℕ, zero, suc, ◌+◌, ◌-◌, ◌%◌, ◌≤◌, ◌<◌, ◌≡◌, refl, sym, ap, ◌∙◌, inl, inr, Bool, true, false, List,
  [], ◌∷◌, ◌++◌, arith, Bool-cases, length, All,
}
use cognidns_core.TopN.Top.{Descending, sort_desc-perm, sort_desc-All, sort_desc-Descending}
use cognidns_core.TopN.State.{sort_desc}
use cognidns_core.Resolver.Upstreams.{
  UpstreamState, state_at, is_healthy, round_robin, with_health, select_upstream_order,
}
use mathlib.Core.List.{perm_middle, perm_append_comm, Perm}
use mathlib.Core.Path.{ap₂}
use native.Mathlib.Nat.{mod-lt, mod-add-mod, mod-eq-sub-mod, mod-eq_of_lt}

-- The numbers from the first one on.
abbrev pub numbers : ℕ → ℕ → List ℕ
numbers from zero = []
numbers from (suc n) = from ∷ numbers (from + 1) n

-- Modulo a length that the sum passes at most once.
mod_below :
    (start len o : ℕ) → 0 < len → start % len + o < len → (start + o) % len ≡ start % len + o
mod_below start len o pos h = sym (mod-add-mod start len o) ∙ mod-eq_of_lt h

mod_past :
    (start len o : ℕ) → o < len → len ≤ start % len + o → (start + o) % len ≡ start % len + o - len
mod_past start len o h k =
    let below : start % len < len = mod-lt start (omega arith) in
    sym (mod-add-mod start len o) ∙ mod-eq-sub-mod k ∙ mod-eq_of_lt (omega arith)

round_robin-below :
    (start len o n : ℕ)
    → 0 < len
    → start % len + o + n ≤ len
    → round_robin start len o n ≡ numbers (start % len + o) n
unfolding round_robin
round_robin-below start len o zero pos h = refl
round_robin-below start len o (suc n) pos h =
    let e : start % len + (o + 1) ≡ start % len + o + 1 = omega arith in
    ap₂ (λ x xs. x ∷ xs) (mod_below start len o pos (omega arith))
      (rw e at (round_robin-below start len (o + 1) n pos (omega arith)))

round_robin-past :
    (start len o n : ℕ)
    → len ≤ start % len + o
    → o + n ≤ len
    → round_robin start len o n ≡ numbers (start % len + o - len) n
unfolding round_robin
round_robin-past start len o zero h k = refl
round_robin-past start len o (suc n) h k =
    let e : start % len + (o + 1) - len ≡ start % len + o - len + 1 = omega arith in
    ap₂ (λ x xs. x ∷ xs) (mod_past start len o (omega arith) h)
      (rw e at (round_robin-past start len (o + 1) n (omega arith) (omega arith)))

round_robin-append :
    (start len o m n : ℕ)
    → round_robin start len o (m + n) ≡ round_robin start len o m ++ round_robin start len (o + m) n
unfolding round_robin
round_robin-append start len o zero n =
    let e : o + 0 ≡ o = omega arith in let z : 0 + n ≡ n = omega arith in rw (e, z) refl
round_robin-append start len o (suc m) n =
    let e : o + suc m ≡ o + 1 + m = omega arith in
    let z : suc m + n ≡ suc (m + n) = omega arith in
    rw (e, z) (ap (◌∷◌ ((start + o) % len)) (round_robin-append start len (o + 1) m n))

numbers-append : (from m n : ℕ) → numbers from (m + n) ≡ numbers from m ++ numbers (from + m) n
numbers-append from zero n =
    let e : from + 0 ≡ from = omega arith in let z : 0 + n ≡ n = omega arith in rw (e, z) refl
numbers-append from (suc m) n =
    let e : from + suc m ≡ from + 1 + m = omega arith in
    let z : suc m + n ≡ suc (m + n) = omega arith in
    rw (e, z) (ap (◌∷◌ from) (numbers-append (from + 1) m n))

-- Each index once, from wherever the round starts.
round_robin-perm : (start len : ℕ) → 0 < len → Perm (round_robin start len 0 len) (numbers 0 len)
round_robin-perm start len pos =
    let s = start % len in
    let below : s < len = mod-lt start pos in
    let front = numbers s (len - s) in
    let back = numbers 0 s in
    let cut : len - s + s ≡ len = omega arith in
    let cut' : s + (len - s) ≡ len = omega arith in
    let z : s + 0 ≡ s = omega arith in
    let zero_s : 0 + s ≡ s = omega arith in
    let w : s + (0 + (len - s)) - len ≡ 0 = omega arith in
    let rotated : round_robin start len 0 len ≡ front ++ back =
      ap (round_robin start len 0) (sym cut)
      ∙ round_robin-append start len 0 (len - s) s
      ∙ ap₂ (λ a b. a ++ b) (rw z at (round_robin-below start len 0 (len - s) pos (omega arith)))
          (rw w at (round_robin-past start len (0 + (len - s)) s (omega arith) (omega arith))) in
    let whole : back ++ front ≡ numbers 0 len =
      rw zero_s at (sym (numbers-append 0 s (len - s))) ∙ ap (numbers 0) cut' in
    rw (rotated, ← whole) (perm_append_comm front back)

with_health-perm :
    (upstreams : List UpstreamState) (now : ℕ) (is : List ℕ)
    → Perm (with_health true upstreams now is ++ with_health false upstreams now is) is
unfolding with_health
with_health-perm upstreams now [] = Perm.rfl
with_health-perm upstreams now (i ∷ is) =
    let up = with_health true upstreams now is in
    let down = with_health false upstreams now is in
    let rest = with_health-perm upstreams now is in
    elim (Bool-cases (is_healthy now (state_at upstreams i))) [
      | inl t ↦ rw t (Perm.cons i rest)
      | inr t ↦ rw t (Perm.trans (perm_middle up down) (Perm.cons i rest))
    ]

with_health-All :
    (wanted : Bool) (upstreams : List UpstreamState) (now : ℕ) (is : List ℕ)
    → All
        (λ i. is_healthy now (state_at upstreams i) ≡ wanted)
        (with_health wanted upstreams now is)
unfolding with_health
with_health-All wanted upstreams now [] = tt
with_health-All true upstreams now (i ∷ is) =
    let rest = with_health-All true upstreams now is in
    elim (Bool-cases (is_healthy now (state_at upstreams i))) [
      | inl t ↦ rw t (t, rest)
      | inr t ↦ rw t rest
    ]
with_health-All false upstreams now (i ∷ is) =
    let rest = with_health-All false upstreams now is in
    elim (Bool-cases (is_healthy now (state_at upstreams i))) [
      | inl t ↦ rw t rest
      | inr t ↦ rw t (t, rest)
    ]

-- Each upstream once; first those whose deadline has passed or that have none, then the others,
-- and in each part no score above an earlier one.
pub record IsOrder (upstreams : List UpstreamState) (now : ℕ) (order : List ℕ) : Type 0 where
  pub healthy : List ℕ
  pub unhealthy : List ℕ
  pub split : order ≡ healthy ++ unhealthy
  pub once : Perm order (numbers 0 (length upstreams))
  pub up : All (λ i. is_healthy now (state_at upstreams i) ≡ true) healthy
  pub down : All (λ i. is_healthy now (state_at upstreams i) ≡ false) unhealthy
  pub healthy_sorted : Descending (λ i. (state_at upstreams i).score) healthy
  pub unhealthy_sorted : Descending (λ i. (state_at upstreams i).score) unhealthy

-- The order names each upstream once, the healthy ones before the others, each part by descending
-- score, wherever the round starts.
pub select_upstream_order-IsOrder :
    (upstreams : List UpstreamState) (start now : ℕ)
    → IsOrder upstreams now (select_upstream_order upstreams start now)
unfolding select_upstream_order Descending
select_upstream_order-IsOrder [] start now = record {
  healthy = [];
  unhealthy = [];
  split = refl;
  once = Perm.rfl;
  up = tt;
  down = tt;
  healthy_sorted = tt;
  unhealthy_sorted = tt;
}
select_upstream_order-IsOrder (u ∷ us) start now =
    let upstreams = u ∷ us in
    let score : ℕ → ℕ = λ i. (state_at upstreams i).score in
    let indices = round_robin start (length upstreams) 0 (length upstreams) in
    let ups = with_health true upstreams now indices in
    let downs = with_health false upstreams now indices in
    record {
      healthy = sort_desc score ups;
      unhealthy = sort_desc score downs;
      split = refl;
      once = Perm.trans (Perm.append (sort_desc-perm score ups) (sort_desc-perm score downs)) (
          Perm.trans (with_health-perm upstreams now indices)
            (round_robin-perm start (length upstreams) (omega arith)));
      up = sort_desc-All score _ ups (with_health-All true upstreams now indices);
      down = sort_desc-All score _ downs (with_health-All false upstreams now indices);
      healthy_sorted = sort_desc-Descending score ups;
      unhealthy_sorted = sort_desc-Descending score downs;
    }
