-- ===== src/Policy/Rate.antt =====
-- The rate limiter of src/policy.rs: one window per client, counted per second.
pub mod Cap
use cognidns_core.Prelude.{
  ℕ, ◌+◌, ◌-◌, ◌%◌, Bool, true, false, ◌&&◌, List, [], ◌∷◌, ltb, leb, ◌==◌, if◌then◌else◌,
}
use cognidns_core.Codec.Text.{text_eq}
use cognidns_core.Policy.Trie.{IpAddr, v4, v6}

pub record AtomicRateWindow : Type 0 where
  pub count : ℕ
  pub window_start : ℕ

-- `AtomicRateWindow::new`
abbrev pub new_window : ℕ → AtomicRateWindow
new_window now_secs = record { count = 0; window_start = now_secs }

-- `compare_exchange_weak` and the reset: `swaps` is false where the exchange fails though the
-- values agree.
unfoldable pub rotate : Bool → ℕ → AtomicRateWindow → AtomicRateWindow
rotate swaps now_secs w =
    if leb 1 (now_secs - w.window_start) && swaps
    then record { count = 0; window_start = now_secs }
    else w

-- `fetch_add` on 64 bits, and the test of the count before
unfoldable pub fetch_add : ℕ → AtomicRateWindow → AtomicRateWindow × Bool
fetch_add limit w = (record w { count = (w.count + 1) % 18446744073709551616 }, ltb w.count limit)

abbrev pub Windows : Type 0
Windows = List (IpAddr × AtomicRateWindow)

unfoldable pub ip_eq : IpAddr → IpAddr → Bool
ip_eq (v4 a) (v4 b) = text_eq a b
ip_eq (v4 a) (v6 b) = false
ip_eq (v6 a) (v4 b) = false
ip_eq (v6 a) (v6 b) = text_eq a b

-- The client's window, or a new one.
unfoldable pub window_of : IpAddr → ℕ → Windows → AtomicRateWindow
window_of ip now_secs [] = new_window now_secs
window_of ip now_secs ((k, w) ∷ windows) = if ip_eq k ip then w else window_of ip now_secs windows

unfoldable pub set_window : IpAddr → AtomicRateWindow → Windows → Windows
set_window ip w [] = (ip, w) ∷ []
set_window ip w ((k, x) ∷ windows) =
    if ip_eq k ip then (k, w) ∷ windows else (k, x) ∷ set_window ip w windows

-- One call that no other call interrupts: the windows, and whether a token was left.
unfoldable pub consume_token : Bool → ℕ → ℕ → IpAddr → Windows → Windows × Bool
consume_token swaps limit now_secs ip windows =
    let (w, granted) = fetch_add limit (rotate swaps now_secs (window_of ip now_secs windows)) in
    if limit == 0 then (windows, true) else (set_window ip w windows, granted)
