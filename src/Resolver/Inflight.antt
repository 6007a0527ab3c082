-- ===== src/Resolver/Inflight.antt =====
-- `register_or_wait` and `finish_inflight` of src/resolver/mod.rs as steps of concurrent tasks that
-- ask for one key. A `Notify` is a number; `notify_waiters` wakes the tasks that wait for it by
-- then, and a task that begins to wait later is not woken. A future that is dropped while it waits,
-- as a handler's is when its client goes away, runs no further step: nothing removes the entry of
-- an owner that is dropped.
pub mod Owner
use cognidns_core.Prelude.{
  ℕ, ◌+◌, ◌<◌, ◌≡◌, ◌⊎◌, Option, none, some, List, [], ◌∷◌, ◌==◌, if◌then◌else◌, length, get_or,
  replicate, set,
}

-- Where a task stands: `owner_of` between `register_or_wait` and the end of its resolution,
-- `removed` once the map's entry is gone, `holds` with a handle that it does not wait on yet,
-- `abandoned` when an owner was dropped or has panicked during its resolution.
pub data Phase : Type 0 where
  outside : Phase
  owner_of : ℕ → Phase
  abandoned : ℕ → Phase
  removed : ℕ → Phase
  holds : ℕ → Phase
  parked : ℕ → Phase
  resumed : Phase

-- The map's entry of the key, the tasks, and the number of the next handle.
pub record InFlight : Type 0 where
  pub entry : Option ℕ
  pub tasks : List Phase
  pub fresh : ℕ

abbrev pub phase_of : InFlight → ℕ → Phase
phase_of s i = get_or s.tasks i outside

-- `notify_waiters`
unfoldable pub wake : ℕ → List Phase → List Phase
wake n [] = []
wake n (parked m ∷ ps) = let rest = wake n ps in if m == n then resumed ∷ rest else parked m ∷ rest
wake n (p ∷ ps) = p ∷ wake n ps

pub data FlightStep (s : InFlight) : InFlight → Type 0 where
  -- The vacant entry: the task inserts its handle and owns the resolution.
  insert_handle :
      (i : ℕ)
      → i < length s.tasks
      → phase_of s i ≡ outside
      → s.entry ≡ none
      → FlightStep s (record {
        entry = some s.fresh;
        tasks = set s.tasks i (owner_of s.fresh);
        fresh = s.fresh + 1;
      })
  -- The occupied entry: the task takes a copy of the handle.
  copy_handle :
      (i n : ℕ)
      → phase_of s i ≡ outside
      → s.entry ≡ some n
      → FlightStep s (record s { tasks = set s.tasks i (holds n) })
  -- `notified()`
  park :
      (i n : ℕ)
      → phase_of s i ≡ holds n
      → FlightStep s (record s { tasks = set s.tasks i (parked n) })
  -- `finish_inflight`: first the entry goes,
  remove_entry :
      (i n : ℕ)
      → phase_of s i ≡ owner_of n
      → FlightStep s (record s { entry = none; tasks = set s.tasks i (removed n) })
  -- then those that wait are woken.
  notify :
      (i n : ℕ)
      → phase_of s i ≡ removed n
      → FlightStep s (record s { tasks = wake n (set s.tasks i resumed) })
  -- The future of an owner is dropped, or panics, before `finish_inflight`.
  drop_owner :
      (i n : ℕ)
      → phase_of s i ≡ owner_of n
      → FlightStep s (record s { tasks = set s.tasks i (abandoned n) })
  -- The future of a task that waits is dropped.
  drop_waiter :
      (i n : ℕ)
      → phase_of s i ≡ parked n
      → FlightStep s (record s { tasks = set s.tasks i outside })

pub data Flights (s : InFlight) : InFlight → Type 0 where
  at_start : Flights s s
  flies : {t u : InFlight} → Flights s t → FlightStep t u → Flights s u

-- As many tasks, none of which has begun.
abbrev pub all_outside : ℕ → InFlight
all_outside n = record { entry = none; tasks = replicate n outside; fresh = 0 }

-- The task owns the entry, or was its owner when it was dropped.
abbrev pub IsOwnerOf : InFlight → ℕ → ℕ → Type 0
IsOwnerOf s n i = (phase_of s i ≡ owner_of n) ⊎ (phase_of s i ≡ abandoned n)

-- An owner is named by the entry, there is one owner at most, and an entry has its owner, or a task
-- that was dropped as its owner.
pub record IsOwned (s : InFlight) : Type 0 where
  pub owner-entry : (i n : ℕ) → phase_of s i ≡ owner_of n → s.entry ≡ some n
  pub one_owner : (i j m n : ℕ) → phase_of s i ≡ owner_of m → phase_of s j ≡ owner_of n → i ≡ j
  pub entry-owner : (n : ℕ) → s.entry ≡ some n → (i : ℕ) × IsOwnerOf s n i
