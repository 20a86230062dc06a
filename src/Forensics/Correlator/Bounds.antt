-- ===== src/Forensics/Correlator/Bounds.antt =====
-- The bounds that src/forensics/correlator.rs keeps on its timelines.
use system_pilot.Abi.{ProcessIdentity}
use system_pilot.Base.Map.{
  Map, contains_key, contains_key-insert, contains_key-remove, contains_key_first, insert,
  insert-All, length-insert, length-remove_present, length-remove-le, contains_key-some, lookup,
  lookup-All, remove, remove-All,
}
use system_pilot.Base.{
  ℕ, ◌≤◌, ◌<◌, ◌≡◌, refl, subst, Bool, true, false, List, [], ◌∷◌, some, ◌⊎◌, inl, inr, All,
  Bool-cases, Option-cases, contains, contains-append_one, length, length-append, length-drop, drop,
  ltb, ◌||◌, ◌++◌, ◌==◌, arith,
}
use system_pilot.Forensics.Classifier.{Classified}
use system_pilot.Forensics.Correlator.{
  Correlator, CorrelatorConfig, Timeline, initial, new, evict, ensure_capacity, push_event, settle,
  store, record_event, ingest, run,
}
use system_pilot.Forensics.Events.{KernelEvent, identity_eq, identity_beq_iff}

abbrev Tracked : List ProcessIdentity → Map ProcessIdentity Timeline → Type 0
Tracked order m = (p : ProcessIdentity) → contains_key p m ≡ true → contains p order ≡ true

abbrev Short : ℕ → ProcessIdentity × Timeline → Type 0
Short n x = length x.1.events ≤ n

evict-Tracked :
    (order : List ProcessIdentity) (m : Map ProcessIdentity Timeline)
    → Tracked order m
    → Tracked (evict order m).0 (evict order m).1
unfolding evict contains
evict-Tracked [] m h = h
evict-Tracked (q ∷ order) m h = elim (Bool-cases (contains_key q m)) [
  | inl here ↦ rw here (λ p c. ground (arith, contains_key-remove q p m, h p))
  | inr gone ↦ rw gone (evict-Tracked order m (λ p c. ground (arith, identity_beq_iff q p, h p)))
]

evict-Short :
    (n : ℕ) (order : List ProcessIdentity) (m : Map ProcessIdentity Timeline)
    → All (Short n) m
    → All (Short n) (evict order m).1
unfolding evict
evict-Short n [] m h = h
evict-Short n (q ∷ order) m h = elim (Bool-cases (contains_key q m)) [
  | inl here ↦ rw here (remove-All (Short n) q m h)
  | inr gone ↦ rw gone (evict-Short n order m h)
]

nothing-Tracked : (m : Map ProcessIdentity Timeline) → Tracked [] m → length m ≡ 0
unfolding contains
nothing-Tracked [] h = refl
nothing-Tracked ((p, t) ∷ m) h = absurd (ground (arith, h p (contains_key_first p t m)))

evict_makes_room :
    (order : List ProcessIdentity) (m : Map ProcessIdentity Timeline)
    → Tracked order m
    → 0 < length m
    → length (evict order m).1 < length m
unfolding evict contains
evict_makes_room [] m h pos = absurd (omega (arith, nothing-Tracked m h))
evict_makes_room (q ∷ order) m h pos = elim (Bool-cases (contains_key q m)) [
  | inl here ↦ rw here (omega (arith, length-remove_present q m here))
  | inr gone ↦
      rw gone (evict_makes_room order m (λ p c. ground (arith, identity_beq_iff q p, h p)) pos)
]

pub record Inv (c : Correlator) : Type 0 where
  pub some_processes : 0 < c.max_processes
  pub some_events : 0 < c.max_events_per_process
  pub bounded : length c.timelines ≤ c.max_processes
  pub short : All (Short c.max_events_per_process) c.timelines
  pub tracked : Tracked c.insertion_order c.timelines

abbrev HasRoom : ProcessIdentity → Correlator → Type 0
HasRoom p c = (contains_key p c.timelines ≡ true) ⊎ (length c.timelines < c.max_processes)

ensure_capacity-Inv : (p : ProcessIdentity) (c : Correlator) → Inv c → Inv (ensure_capacity p c)
unfolding ensure_capacity
ensure_capacity-Inv p c v =
    elim (Bool-cases (contains_key p c.timelines || ltb (length c.timelines) c.max_processes)) [
      | inl fits ↦ rw fits v
      | inr full ↦ rw full (record {
        some_processes = v.some_processes;
        some_events = v.some_events;
        bounded =
            ground (arith, evict_makes_room c.insertion_order c.timelines v.tracked, v.bounded);
        short = evict-Short _ c.insertion_order c.timelines v.short;
        tracked = evict-Tracked c.insertion_order c.timelines v.tracked;
      })
    ]

ensure_capacity-HasRoom :
    (p : ProcessIdentity) (c : Correlator) → Inv c → HasRoom p (ensure_capacity p c)
unfolding ensure_capacity
ensure_capacity-HasRoom p c v =
    ground (arith, evict_makes_room c.insertion_order c.timelines v.tracked)

push_event-Short :
    (n : ℕ) (event : KernelEvent) (t : Timeline)
    → 0 < n
    → length t.events ≤ n
    → length (push_event n event t).events ≤ n
unfolding push_event
push_event-Short n event t pos h = ground (
  arith,
  length-append t.events (event ∷ []),
  length-append (drop 1 t.events) (event ∷ []),
  length-drop 1 t.events,
)

module _ (p : ProcessIdentity) (t : Timeline) (c : Correlator) (v : Inv c) where
  insert_bounded : HasRoom p c → length (insert p t c.timelines) ≤ c.max_processes
  insert_bounded room = ground (arith, length-insert p t c.timelines, v.bounded)

  insert-Tracked_new : Tracked (c.insertion_order ++ (p ∷ [])) (insert p t c.timelines)
  insert-Tracked_new q h = ground (
    arith,
    contains_key-insert p q t c.timelines,
    contains-append_one q p c.insertion_order,
    v.tracked q,
  )

  insert-Tracked_old :
      contains_key p c.timelines ≡ true → Tracked c.insertion_order (insert p t c.timelines)
  insert-Tracked_old old q h =
      ground (
        arith,
        contains_key-insert p q t c.timelines,
        identity_beq_iff p q,
        v.tracked p,
        v.tracked q,
      )

remove-Inv :
    (p : ProcessIdentity) (c : Correlator)
    → Inv c
    → Inv (record c { timelines = remove p c.timelines })
remove-Inv p c v = record {
  some_processes = v.some_processes;
  some_events = v.some_events;
  bounded = omega (arith, v.bounded, length-remove-le p c.timelines);
  short = remove-All (Short c.max_events_per_process) p c.timelines v.short;
  tracked = λ q h. ground (arith, contains_key-remove p q c.timelines, v.tracked q);
}

store-Inv :
    (p : ProcessIdentity) (event : KernelEvent) (c : Correlator)
    → Inv c
    → HasRoom p c
    → Inv (store p event c).0
unfolding store
store-Inv p event c v room = elim (Option-cases (lookup p c.timelines)) [
  | inl new ↦ rw new (record {
    some_processes = v.some_processes;
    some_events = v.some_events;
    bounded = insert_bounded p _ c v room;
    short =
        insert-All (Short c.max_events_per_process) p _ c.timelines
          (push_event-Short _ event _ v.some_events (omega arith)) v.short;
    tracked = insert-Tracked_new p _ c v;
  })
  | inr (t, old) ↦ rw old (record {
    some_processes = v.some_processes;
    some_events = v.some_events;
    bounded = insert_bounded p _ c v room;
    short =
        insert-All (Short c.max_events_per_process) p _ c.timelines
          (push_event-Short _ event _ v.some_events (
            lookup-All (λ s. length s.events ≤ c.max_events_per_process) p c.timelines t v.short
              old))
          v.short;
    tracked = insert-Tracked_old p _ c v (contains_key-some p c.timelines t old);
  })
]

settle-Inv : (p : ProcessIdentity) (c : Correlator) (r : Classified) → Inv c → Inv (settle p c r).0
settle-Inv p c (Classified.report r) v = remove-Inv p c v
settle-Inv p c Classified.nothing v = remove-Inv p c v
settle-Inv p c Classified.panicked v = v

record_event-Inv :
    (p : ProcessIdentity) (event : KernelEvent) (is_death : Bool) (c : Correlator)
    → Inv c
    → Inv (record_event p event is_death c).0
unfolding record_event
record_event-Inv p event true c v =
    settle-Inv p _ _
      (store-Inv p event _ (ensure_capacity-Inv p c v) (ensure_capacity-HasRoom p c v))
record_event-Inv p event false c v =
    store-Inv p event _ (ensure_capacity-Inv p c v) (ensure_capacity-HasRoom p c v)

-- Every event keeps the bounds.
pub ingest-Inv : (c : Correlator) (event : KernelEvent) → Inv c → Inv (ingest c event).0
unfolding ingest
ingest-Inv c (KernelEvent.telemetry_loss t dropped) v = elim (Bool-cases (dropped == 0)) [
  | inl none_lost ↦ rw none_lost v
  | inr lost ↦ rw lost (record {
    some_processes = v.some_processes;
    some_events = v.some_events;
    bounded = v.bounded;
    short = v.short;
    tracked = v.tracked;
  })
]
ingest-Inv c (KernelEvent.process_exit t p pid ppid g code leader) v =
    record_event-Inv p _ leader c v
ingest-Inv c (KernelEvent.signal_generated t p s si pid uid k g) v = record_event-Inv p _ false c v
ingest-Inv c (KernelEvent.oom_victim t p g k) v = record_event-Inv p _ false c v

new-Inv : (config : CorrelatorConfig) (c : Correlator) → new config ≡ some c → Inv c
unfolding new contains_key
new-Inv config c h = subst Inv {x = initial config} {y = c} (ground arith) (record {
  some_processes = ground arith;
  some_events = ground arith;
  bounded = omega arith;
  short = tt;
  tracked = λ p k. ground arith;
})

run-Inv : (c : Correlator) (events : List KernelEvent) → Inv c → Inv (run c events)
unfolding run
run-Inv c [] v = v
run-Inv c (event ∷ events) v = run-Inv (ingest c event).0 events (ingest-Inv c event v)

-- From a new correlator on, whatever events arrive, there are never more timelines than
-- `max_processes`, no timeline holds more than `max_events_per_process` events, and every process
-- with a timeline stands in the eviction order.
pub run-new-Inv :
    (config : CorrelatorConfig) (c : Correlator) (events : List KernelEvent)
    → new config ≡ some c
    → Inv (run c events)
run-new-Inv config c events h = run-Inv c events (new-Inv config c h)
