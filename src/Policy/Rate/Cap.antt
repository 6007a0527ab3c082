-- ===== src/Policy/Rate/Cap.antt =====
-- How many tokens the rate limiter grants to a client within a second.
use cognidns_core.Prelude.{
  ℕ, ◌+◌, ◌-◌, ◌%◌, ◌<◌, min, ◌≡◌, refl, ap, ◌≢◌, inl, inr, Bool, true, false, List, [], ◌∷◌, arith,
  ltb, leb, ◌==◌, if◌then◌else◌, Bool-cases, length,
}
use cognidns_core.Codec.Text.Split.{text_eq_refl}
use cognidns_core.Policy.Trie.{IpAddr, v4, v6}
use cognidns_core.Policy.Rate.{
  AtomicRateWindow, rotate, fetch_add, Windows, ip_eq, window_of, set_window, consume_token,
}
use native.Mathlib.Nat.{mod-eq_of_lt}

-- Calls of one client in the same second, one after the other: the number of tokens granted.
pub granted : List Bool → ℕ → ℕ → IpAddr → Windows → ℕ
granted [] limit now ip windows = 0
granted (s ∷ swaps) limit now ip windows =
    let (after, ok) = consume_token s limit now ip windows in
    (if ok then 1 else 0) + granted swaps limit now ip after

ip_eq_refl : (ip : IpAddr) → ip_eq ip ip ≡ true
unfolding ip_eq
ip_eq_refl (v4 a) = text_eq_refl a
ip_eq_refl (v6 a) = text_eq_refl a

window_of-set_window :
    (ip : IpAddr) (now : ℕ) (w : AtomicRateWindow) (windows : Windows)
    → window_of ip now (set_window ip w windows) ≡ w
unfolding window_of set_window
window_of-set_window ip now w [] = rw (ip_eq_refl ip)
window_of-set_window ip now w ((k, x) ∷ windows) = elim (Bool-cases (ip_eq k ip)) [
  | inl t ↦ rw (t, window_of, t)
  | inr t ↦ rw (t, window_of, t) (window_of-set_window ip now w windows)
]

rotate_same :
    (s : Bool) (now : ℕ) (w : AtomicRateWindow) → w.window_start ≡ now → rotate s now w ≡ w
unfolding rotate
rotate_same s now w h = let t : leb 1 (now - w.window_start) ≡ false = ground arith in rw t

-- One call in the second of the window.
consume_token-eq :
    (s : Bool) (limit now : ℕ) (ip : IpAddr) (windows : Windows)
    → limit ≢ 0
    → (window_of ip now windows).window_start ≡ now
    → (window_of ip now windows).count + 1 < 18446744073709551616
    → consume_token s limit now ip windows ≡ (
      set_window ip
          (record { count = (window_of ip now windows).count + 1; window_start = now })
          windows,
      ltb (window_of ip now windows).count limit,
    )
unfolding consume_token fetch_add
consume_token-eq s limit now ip windows pos h lt =
    let w = window_of ip now windows in
    let t : (limit == 0) ≡ false = ground arith in
    let m : (w.count + 1) % 18446744073709551616 ≡ w.count + 1 = mod-eq_of_lt lt in
    rw (rotate_same s now w h, t, m, h) refl

-- A client whose window began in this second is granted what is left of the limit and no more,
-- whatever the number of calls, if they come one after the other, the limit is not 0 and the
-- counter does not wrap.
pub granted-eq :
    (swaps : List Bool) (limit now : ℕ) (ip : IpAddr) (windows : Windows)
    → limit ≢ 0
    → (window_of ip now windows).window_start ≡ now
    → (window_of ip now windows).count + length swaps < 18446744073709551616
    → granted swaps limit now ip windows
      ≡ min (length swaps) (limit - (window_of ip now windows).count)
unfolding granted
granted-eq [] limit now ip windows pos h lt = omega arith
granted-eq (s ∷ swaps) limit now ip windows pos h lt =
    let w = window_of ip now windows in
    let w' : AtomicRateWindow = record { count = w.count + 1; window_start = now } in
    let e = window_of-set_window ip now w' windows in
    let ih =
      granted-eq swaps limit now ip (set_window ip w' windows) pos (ap (λ x. x.window_start) e)
        (rw e (omega arith)) in
    let ih' = rw e at ih in
    rw (consume_token-eq s limit now ip windows pos h (omega arith))
      (elim (Bool-cases (ltb w.count limit)) [
        | inl t ↦ rw (t, ih') (ground arith)
        | inr t ↦ rw (t, ih') (ground arith)
      ])
