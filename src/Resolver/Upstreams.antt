-- ===== src/Resolver/Upstreams.antt =====
-- The state of the upstreams in src/resolver/mod.rs and the order in which they are asked. A score
-- is a float there; here it is its rank under `total_cmp`, and the formula of
-- `compute_upstream_score` is a parameter without assumptions.
pub mod Order
use cognidns_core.Prelude.{
  ℕ, zero, suc, ◌+◌, ◌%◌, min, Bool, true, false, not, Option, none, some, List, [], ◌∷◌, ◌++◌, leb,
  if◌then◌else◌, length, get_or,
}
use cognidns_core.Codec.Edns.{opt_or}
use cognidns_core.TopN.State.{sort_desc}

pub record UpstreamState : Type 0 where
  pub consecutive_failures : ℕ
  pub last_rtt : Option ℕ
  pub unhealthy_until : Option ℕ
  pub successes : ℕ
  pub failures : ℕ
  pub score : ℕ

-- `upstreams[i].state.write()`, and an update of the state in place
abbrev modify_at : (UpstreamState → UpstreamState) → ℕ → List UpstreamState → List UpstreamState
modify_at f i [] = []
modify_at f zero (s ∷ ss) = f s ∷ ss
modify_at f (suc i) (s ∷ ss) = s ∷ modify_at f i ss

-- `saturating_add(1)` of a u64
abbrev succ_u64 : ℕ → ℕ
succ_u64 n = min (n + 1) 18446744073709551615

module _ (compute_upstream_score : UpstreamState → ℕ → ℕ) where
  -- `now` is read after the state is changed.
  unfoldable pub mark_upstream_success : ℕ → ℕ → List UpstreamState → ℕ → List UpstreamState
  mark_upstream_success upstream_index elapsed upstreams now =
      modify_at
        (λ s.
          let state : UpstreamState = record s {
            consecutive_failures = 0;
            last_rtt = some elapsed;
            unhealthy_until = none;
            successes = succ_u64 s.successes;
          } in
          record state { score = compute_upstream_score state now })
        upstream_index upstreams

  -- The count of consecutive failures has 32 bits. `now` and `later` are the two readings.
  unfoldable pub mark_upstream_failure : ℕ → ℕ → List UpstreamState → ℕ → ℕ → List UpstreamState
  mark_upstream_failure unhealthy_backoff upstream_index upstreams now later =
      modify_at
        (λ s.
          let state : UpstreamState = record s {
            consecutive_failures = (s.consecutive_failures + 1) % 4294967296;
            unhealthy_until = some (now + unhealthy_backoff);
            failures = succ_u64 s.failures;
          } in
          record state { score = compute_upstream_score state later })
        upstream_index upstreams

abbrev unmarked : UpstreamState
unmarked = record {
  consecutive_failures = 0;
  last_rtt = none;
  unhealthy_until = none;
  successes = 0;
  failures = 0;
  score = 0;
}

abbrev pub state_at : List UpstreamState → ℕ → UpstreamState
state_at upstreams i = get_or upstreams i unmarked

unfoldable pub is_healthy : ℕ → UpstreamState → Bool
is_healthy now s = opt_or s.unhealthy_until (λ deadline. leb deadline now) true

-- `(start + offset) % len` for the offsets that are left
unfoldable pub round_robin : ℕ → ℕ → ℕ → ℕ → List ℕ
round_robin start len offset zero = []
round_robin start len offset (suc left) =
    (start + offset) % len ∷ round_robin start len (offset + 1) left

-- The indices that are healthy, or those that are not, in the order they are met.
unfoldable pub with_health : Bool → List UpstreamState → ℕ → List ℕ → List ℕ
with_health wanted upstreams now [] = []
with_health wanted upstreams now (i ∷ is) =
    let rest = with_health wanted upstreams now is in
    let healthy = is_healthy now (state_at upstreams i) in
    if (if wanted then healthy else not healthy) then i ∷ rest else rest

-- `start` is the value of `next_upstream` before it is counted up; the sorts keep the order of
-- equal scores.
unfoldable pub select_upstream_order : List UpstreamState → ℕ → ℕ → List ℕ
select_upstream_order [] start now = []
select_upstream_order (u ∷ us) start now =
    let upstreams = u ∷ us in
    let indices = round_robin start (length upstreams) 0 (length upstreams) in
    let by_score = sort_desc (λ i. (state_at upstreams i).score) in
    by_score (with_health true upstreams now indices)
    ++ by_score (with_health false upstreams now indices)
