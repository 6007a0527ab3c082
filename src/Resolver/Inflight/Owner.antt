-- ===== src/Resolver/Inflight/Owner.antt =====
-- The tasks in flight of src/resolver/mod.rs: one key has one owner at most.
use cognidns_core.Prelude.{
  ℕ, zero, suc, ◌+◌, ◌≤◌, ◌<◌, ◌≡◌, refl, sym, ap, ◌∙◌, subst, ◌≢◌, ◌↔◌, inl, inr, none, some, List,
  [], ◌∷◌, arith, ◌==◌, Bool-cases, length, get_or, get_or_beyond, replicate, set, length-set,
  get_or-set_self, get_or-set_ne,
}
use cognidns_core.Codec.Edns.{opt_or}
use cognidns_core.Resolver.Inflight.{
  Phase, outside, owner_of, abandoned, removed, holds, parked, resumed, InFlight, phase_of, wake,
  FlightStep, insert_handle, copy_handle, park, remove_entry, notify, drop_owner, drop_waiter,
  Flights, at_start, flies, all_outside, IsOwnerOf, IsOwned,
}
use native.Mathlib.Decide.{ℕ_discrete, dec_lt}

not_inside :
    (xs : List Phase) (i : ℕ) (p : Phase) → length xs ≤ i → get_or (set xs i p) i outside ≡ outside
not_inside xs i p h = get_or_beyond (set xs i p) i outside (rw (length-set xs i p) h)

-- An owner after a task took another phase was one before.
other_owner :
    (xs : List Phase) (i j : ℕ) (p : Phase) (n : ℕ)
    → p ≢ owner_of n
    → get_or (set xs i p) j outside ≡ owner_of n
    → (i ≢ j) × (get_or xs j outside ≡ owner_of n)
other_owner xs i j p n other h = elim (ℕ_discrete i j) [
  | no ne ↦ (ne, sym (get_or-set_ne xs i j p outside ne) ∙ h)
  | yes e ↦
      let own : get_or (set xs i p) i outside ≡ owner_of n =
        subst (λ x. get_or (set xs i p) x outside ≡ owner_of n) (sym e) h in
      elim (dec_lt i (length xs)) [
        | yes lt ↦ absurd (other (sym (get_or-set_self xs i p outside lt) ∙ own))
        | no ge ↦ let out : outside ≡ owner_of n = sym (not_inside xs i p (omega arith)) ∙ own in cc
      ]
]

wake-owner :
    (k : ℕ) (xs : List Phase) (j n : ℕ)
    → (get_or (wake k xs) j outside ≡ owner_of n) ↔ (get_or xs j outside ≡ owner_of n)
unfolding wake
wake-owner k [] j n = (λ h. h, λ h. h)
wake-owner k (outside ∷ xs) zero n = (λ h. h, λ h. h)
wake-owner k (owner_of m ∷ xs) zero n = (λ h. h, λ h. h)
wake-owner k (abandoned m ∷ xs) zero n = (λ h. h, λ h. h)
wake-owner k (removed m ∷ xs) zero n = (λ h. h, λ h. h)
wake-owner k (holds m ∷ xs) zero n = (λ h. h, λ h. h)
wake-owner k (resumed ∷ xs) zero n = (λ h. h, λ h. h)
wake-owner k (parked m ∷ xs) zero n = elim (Bool-cases (m == k)) [
  | inl t ↦ rw t (λ h. cc, λ h. cc)
  | inr t ↦ rw t (λ h. h, λ h. h)
]
wake-owner k (outside ∷ xs) (suc j) n = wake-owner k xs j n
wake-owner k (owner_of m ∷ xs) (suc j) n = wake-owner k xs j n
wake-owner k (abandoned m ∷ xs) (suc j) n = wake-owner k xs j n
wake-owner k (removed m ∷ xs) (suc j) n = wake-owner k xs j n
wake-owner k (holds m ∷ xs) (suc j) n = wake-owner k xs j n
wake-owner k (resumed ∷ xs) (suc j) n = wake-owner k xs j n
wake-owner k (parked m ∷ xs) (suc j) n = elim (Bool-cases (m == k)) [
  | inl t ↦ rw t (wake-owner k xs j n)
  | inr t ↦ rw t (wake-owner k xs j n)
]

wake-abandoned :
    (k : ℕ) (xs : List Phase) (j n : ℕ)
    → get_or xs j outside ≡ abandoned n
    → get_or (wake k xs) j outside ≡ abandoned n
unfolding wake
wake-abandoned k [] j n h = h
wake-abandoned k (parked m ∷ xs) zero n h = cc
wake-abandoned k (outside ∷ xs) zero n h = h
wake-abandoned k (owner_of m ∷ xs) zero n h = h
wake-abandoned k (abandoned m ∷ xs) zero n h = h
wake-abandoned k (removed m ∷ xs) zero n h = h
wake-abandoned k (holds m ∷ xs) zero n h = h
wake-abandoned k (resumed ∷ xs) zero n h = h
wake-abandoned k (outside ∷ xs) (suc j) n h = wake-abandoned k xs j n h
wake-abandoned k (owner_of m ∷ xs) (suc j) n h = wake-abandoned k xs j n h
wake-abandoned k (abandoned m ∷ xs) (suc j) n h = wake-abandoned k xs j n h
wake-abandoned k (removed m ∷ xs) (suc j) n h = wake-abandoned k xs j n h
wake-abandoned k (holds m ∷ xs) (suc j) n h = wake-abandoned k xs j n h
wake-abandoned k (resumed ∷ xs) (suc j) n h = wake-abandoned k xs j n h
wake-abandoned k (parked m ∷ xs) (suc j) n h = elim (Bool-cases (m == k)) [
  | inl t ↦ rw t (wake-abandoned k xs j n h)
  | inr t ↦ rw t (wake-abandoned k xs j n h)
]

-- A task that is no owner, before and after, changes its phase.
set-IsOwned :
    (s : InFlight) (i : ℕ) (p : Phase)
    → ((n : ℕ) → p ≢ owner_of n)
    → ((n : ℕ) → ¬ IsOwnerOf s n i)
    → IsOwned s
    → IsOwned (record s { tasks = set s.tasks i p })
set-IsOwned s i p other no_owner o = record {
  owner-entry = λ j n h. o.owner-entry j n (other_owner s.tasks i j p n (other n) h).1;
  one_owner = λ j k m n h g.
      o.one_owner j k m n (other_owner s.tasks i j p m (other m) h).1
        (other_owner s.tasks i k p n (other n) g).1;
  entry-owner = λ n h.
      let (j, g) = o.entry-owner n h in
      let same : phase_of (record s { tasks = set s.tasks i p }) j ≡ phase_of s j =
        get_or-set_ne s.tasks i j p outside (λ e. no_owner n (subst (IsOwnerOf s n) (sym e) g)) in
      (j, elim g [ inl own ↦ inl (same ∙ own) | inr was ↦ inr (same ∙ was) ]);
}

wake-IsOwned : (s : InFlight) (k : ℕ) → IsOwned s → IsOwned (record s { tasks = wake k s.tasks })
wake-IsOwned s k o = record {
  owner-entry = λ j n h. o.owner-entry j n ((wake-owner k s.tasks j n).0 h);
  one_owner = λ i j m n h g.
      o.one_owner i j m n ((wake-owner k s.tasks i m).0 h) ((wake-owner k s.tasks j n).0 g);
  entry-owner = λ n h.
      let (j, g) = o.entry-owner n h in
      (
        j,
        elim g [
          | inl own ↦ inl ((wake-owner k s.tasks j n).1 own)
          | inr was ↦ inr (wake-abandoned k s.tasks j n was)
        ],
      );
}

-- The step by which a task becomes the owner.
insert-IsOwned :
    (s : InFlight) (i : ℕ)
    → i < length s.tasks
    → s.entry ≡ none
    → IsOwned s
    → IsOwned (record {
      entry = some s.fresh;
      tasks = set s.tasks i (owner_of s.fresh);
      fresh = s.fresh + 1;
    })
insert-IsOwned s i lt vacant o = record {
  owner-entry = λ j n h. elim (ℕ_discrete i j) [
    | yes e ↦ same j n e h
    | no ne ↦
        absurd (nobody j n (sym (get_or-set_ne s.tasks i j (owner_of s.fresh) outside ne) ∙ h))
  ];
  one_owner = λ j k m n h g. sym (the_owner j m h) ∙ the_owner k n g;
  entry-owner = λ n h. (i, inl (placed ∙ ap (λ x. owner_of (opt_or x (λ k. k) 0)) h));
}
  where
    placed : get_or (set s.tasks i (owner_of s.fresh)) i outside ≡ owner_of s.fresh
    placed = get_or-set_self s.tasks i (owner_of s.fresh) outside lt

    same :
        (j n : ℕ)
        → i ≡ j
        → get_or (set s.tasks i (owner_of s.fresh)) j outside ≡ owner_of n
        → some s.fresh ≡ some n
    same j n e h =
        let own : get_or (set s.tasks i (owner_of s.fresh)) i outside ≡ owner_of n =
          subst (λ x. get_or (set s.tasks i (owner_of s.fresh)) x outside ≡ owner_of n) (sym e) h in
        let both : owner_of s.fresh ≡ owner_of n = sym placed ∙ own in cc

    nobody : (j n : ℕ) → phase_of s j ≡ owner_of n → ⊥
    nobody j n h = let e : none ≡ some n = sym vacant ∙ o.owner-entry j n h in cc

    the_owner : (j n : ℕ) → get_or (set s.tasks i (owner_of s.fresh)) j outside ≡ owner_of n → i ≡ j
    the_owner j n h = elim (ℕ_discrete i j) [
      | yes e ↦ e
      | no ne ↦
          absurd (nobody j n (sym (get_or-set_ne s.tasks i j (owner_of s.fresh) outside ne) ∙ h))
    ]

remove-IsOwned :
    (s : InFlight) (i k : ℕ)
    → phase_of s i ≡ owner_of k
    → IsOwned s
    → IsOwned (record s { entry = none; tasks = set s.tasks i (removed k) })
remove-IsOwned s i k own o = record {
  owner-entry = λ j n h. absurd (nobody j n h);
  one_owner = λ j l m n h g. absurd (nobody j m h);
  entry-owner = λ n h. cc;
}
  where
    nobody : (j n : ℕ) → get_or (set s.tasks i (removed k)) j outside ≡ owner_of n → ⊥
    nobody j n h =
        let (ne, g) = other_owner s.tasks i j (removed k) n (λ e. cc) h in
        ne (o.one_owner i j k n own g)

-- An owner that is dropped leaves the entry to nobody else.
drop-IsOwned :
    (s : InFlight) (i k : ℕ)
    → phase_of s i ≡ owner_of k
    → IsOwned s
    → IsOwned (record s { tasks = set s.tasks i (abandoned k) })
drop-IsOwned s i k own o = record {
  owner-entry = λ j n h. o.owner-entry j n (other_owner s.tasks i j (abandoned k) n (λ e. cc) h).1;
  one_owner = λ j l m n h g.
      o.one_owner j l m n (other_owner s.tasks i j (abandoned k) m (λ e. cc) h).1
        (other_owner s.tasks i l (abandoned k) n (λ e. cc) g).1;
  entry-owner = λ n h.
      let held : some n ≡ some k = sym h ∙ o.owner-entry i k own in
      let same : n ≡ k = ap (λ x. opt_or x (λ y. y) 0) held in
      (i, inr (get_or-set_self s.tasks i (abandoned k) outside inside ∙ ap abandoned (sym same)));
}
  where
    inside : i < length s.tasks
    inside = elim (dec_lt i (length s.tasks)) [
      | yes lt ↦ lt
      | no ge ↦
          let out : outside ≡ owner_of k =
            sym (get_or_beyond s.tasks i outside (omega arith)) ∙ own in
          cc
    ]

-- A task whose phase is neither an owner's nor a dropped owner's.
no_owner_at :
    (s : InFlight) (i : ℕ) (p : Phase)
    → ((n : ℕ) → p ≢ owner_of n)
    → ((n : ℕ) → p ≢ abandoned n)
    → phase_of s i ≡ p
    → (n : ℕ) → ¬ IsOwnerOf s n i
no_owner_at s i p h g e n (inl own) = h n (sym e ∙ own)
no_owner_at s i p h g e n (inr was) = g n (sym e ∙ was)

FlightStep-IsOwned : {s t : InFlight} → FlightStep s t → IsOwned s → IsOwned t
FlightStep-IsOwned {s} (insert_handle i lt idle vacant) o = insert-IsOwned s i lt vacant o
FlightStep-IsOwned {s} (copy_handle i n idle taken) o =
    set-IsOwned s i (holds n) (λ k e. cc) (no_owner_at s i outside (λ k e. cc) (λ k e. cc) idle) o
FlightStep-IsOwned {s} (park i n held) o =
    set-IsOwned s i (parked n) (λ k e. cc) (no_owner_at s i (holds n) (λ k e. cc) (λ k e. cc) held)
      o
FlightStep-IsOwned {s} (remove_entry i n own) o = remove-IsOwned s i n own o
FlightStep-IsOwned {s} (notify i n gone) o =
    wake-IsOwned (record s { tasks = set s.tasks i resumed }) n
      (set-IsOwned s i resumed (λ k e. cc)
        (no_owner_at s i (removed n) (λ k e. cc) (λ k e. cc) gone) o)
FlightStep-IsOwned {s} (drop_owner i n own) o = drop-IsOwned s i n own o
FlightStep-IsOwned {s} (drop_waiter i n waits) o =
    set-IsOwned s i outside (λ k e. cc) (no_owner_at s i (parked n) (λ k e. cc) (λ k e. cc) waits) o

get_or-outside : (n i : ℕ) → get_or (replicate n outside) i outside ≡ outside
get_or-outside zero i = refl
get_or-outside (suc n) zero = refl
get_or-outside (suc n) (suc i) = get_or-outside n i

start-IsOwned : (n : ℕ) → IsOwned (all_outside n)
start-IsOwned n = record {
  owner-entry = λ i m h. absurd (nobody i m h);
  one_owner = λ i j m k h g. absurd (nobody i m h);
  entry-owner = λ m h. cc;
}
  where
    nobody : (i m : ℕ) → get_or (replicate n outside) i outside ≡ owner_of m → ⊥
    nobody i m h = let c : outside ≡ owner_of m = sym (get_or-outside n i) ∙ h in cc

-- Whatever the order of their steps, dropped futures included, tasks that ask for one key have one
-- owner at most, which the map's entry names, and an entry has its owner, or else a task that was
-- dropped as its owner.
pub Flights-IsOwned : (n : ℕ) {s : InFlight} → Flights (all_outside n) s → IsOwned s
Flights-IsOwned n at_start = start-IsOwned n
Flights-IsOwned n (flies run step) = FlightStep-IsOwned step (Flights-IsOwned n run)
