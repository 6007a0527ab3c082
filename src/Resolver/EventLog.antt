-- ===== src/Resolver/EventLog.antt =====
-- The logs of events in src/resolver/mod.rs: appending, dropping what is older than the window of
-- statistics, and counting. The ratios of a snapshot are quotients of its counts, floats that are
-- left out.
use cognidns_core.Prelude.{
  ℕ, ◌+◌, ◌-◌, ◌/◌, List, [], ◌∷◌, ◌++◌, ltb, leb, if◌then◌else◌, length, drop,
}
use cognidns_core.Cache.State.{second}

-- A deque, the oldest event first, with the time of each event.
abbrev pub Log : Type 0 → Type 0
Log E = List (ℕ × E)

module _ {E : Type 0} where
  unfoldable pub trim_events : ℕ → ℕ → Log E → Log E
  trim_events window now [] = []
  trim_events window now ((at, e) ∷ events) =
      let rest = trim_events window now events in
      if leb (now - at) window then (at, e) ∷ events else rest

  -- `while events.len() > 8192 { events.pop_front() }`
  unfoldable pub drop_oldest : Log E → Log E
  drop_oldest events = drop (length events - 8192) events

  unfoldable pub record_event : ℕ → ℕ → E → Log E → Log E
  record_event window now e events =
      drop_oldest (trim_events window now (events ++ ((now, e) ∷ [])))

  -- The events that are not older than the window, counted by a test.
  unfoldable pub count_recent : (E → ℕ) → ℕ → ℕ → Log E → ℕ
  count_recent weight window now [] = 0
  count_recent weight window now ((at, e) ∷ events) =
      let rest = count_recent weight window now events in
      if ltb window (now - at) then rest else weight e + rest

pub data IterativeEventKind : Type 0 where
  success_event : IterativeEventKind
  failure_event : IterativeEventKind
  fallback_event : IterativeEventKind
  loop_detected : IterativeEventKind

pub data NsCacheEventKind : Type 0 where
  hit : NsCacheEventKind
  miss : NsCacheEventKind
  expired : NsCacheEventKind
  store : NsCacheEventKind
  evict : NsCacheEventKind
  cleanup : ℕ → NsCacheEventKind

pub record IterativeWindowSnapshot : Type 0 where
  pub snapshot_secs : ℕ
  pub successes : ℕ
  pub failures : ℕ
  pub fallbacks : ℕ
  pub loops : ℕ

pub record NsCacheWindowSnapshot : Type 0 where
  pub window_secs : ℕ
  pub hits : ℕ
  pub misses : ℕ
  pub expirations : ℕ
  pub stores : ℕ
  pub evicts : ℕ
  pub cleanups : ℕ
  pub cleanup_removed : ℕ

-- The log is trimmed before it is counted; the first result is the log that is left.
unfoldable pub iterative_window_snapshot_for :
    ℕ → ℕ → ℕ → Log IterativeEventKind → Log IterativeEventKind × IterativeWindowSnapshot
iterative_window_snapshot_for stats_window window now log =
    let events = trim_events stats_window now log in
    let count : (IterativeEventKind → ℕ) → ℕ = λ weight. count_recent weight window now events in
    (
      events,
      record {
        snapshot_secs = window / second;
        successes = count (λ e. elim e [ success_event ↦ 1 | _ ↦ 0 ]);
        failures = count (λ e. elim e [ failure_event ↦ 1 | _ ↦ 0 ]);
        fallbacks = count (λ e. elim e [ fallback_event ↦ 1 | _ ↦ 0 ]);
        loops = count (λ e. elim e [ loop_detected ↦ 1 | _ ↦ 0 ]);
      },
    )

unfoldable pub ns_cache_window_snapshot_for :
    ℕ → ℕ → ℕ → Log NsCacheEventKind → Log NsCacheEventKind × NsCacheWindowSnapshot
ns_cache_window_snapshot_for stats_window window now log =
    let events = trim_events stats_window now log in
    let count : (NsCacheEventKind → ℕ) → ℕ = λ weight. count_recent weight window now events in
    (
      events,
      record {
        window_secs = window / second;
        hits = count (λ e. elim e [ hit ↦ 1 | _ ↦ 0 ]);
        misses = count (λ e. elim e [ miss ↦ 1 | _ ↦ 0 ]);
        expirations = count (λ e. elim e [ expired ↦ 1 | _ ↦ 0 ]);
        stores = count (λ e. elim e [ store ↦ 1 | _ ↦ 0 ]);
        evicts = count (λ e. elim e [ evict ↦ 1 | _ ↦ 0 ]);
        cleanups = count (λ e. elim e [ cleanup gone ↦ 1 | _ ↦ 0 ]);
        cleanup_removed = count (λ e. elim e [ cleanup gone ↦ gone | _ ↦ 0 ]);
      },
    )
