-- ===== src/Forensics/Correlator/Order.antt =====
-- How the eviction order of src/forensics/correlator.rs grows.
use mathlib.Core.List.{append_assoc, append-nil}
use system_pilot.Abi.{ProcessIdentity}
use system_pilot.Base.Map.{lookup, insert, remove}
use system_pilot.Base.{ℕ, ◌<◌, ◌≡◌, ◌∙◌, refl, sym, List, [], ◌∷◌, ◌++◌, map, length, ap, arith}
use system_pilot.Forensics.Correlator.Deaths.{ingest-Death, leader_exit_event}
use system_pilot.Forensics.Correlator.{Correlator, ensure_capacity, store, ingest, run}
use system_pilot.Forensics.Events.{KernelEvent, identity_eq, identity_beq_iff}

-- The exit of a group leader: who, when, its parent and control group, and how it ended.
pub record Departure : Type 0 where
  pub process : ProcessIdentity
  pub time : ℕ
  pub pid : ℕ
  pub ppid : ℕ
  pub cgroup : ℕ
  pub code : ℕ

abbrev pub exit_of : Departure → KernelEvent
exit_of x = leader_exit_event x.process x.time x.pid x.ppid x.cgroup x.code

ensure_capacity_empty :
    (p : ProcessIdentity) (c : Correlator)
    → 0 < c.max_processes
    → c.timelines ≡ []
    → ensure_capacity p c ≡ c
unfolding ensure_capacity
ensure_capacity_empty p c pos none_yet = ground (arith, ap length none_yet)

store_empty :
    (p : ProcessIdentity) (event : KernelEvent) (c : Correlator)
    → c.timelines ≡ []
    → let c' = (store p event c).0 in
      (c'.max_processes ≡ c.max_processes)
      × (remove p c'.timelines ≡ [])
      × (c'.insertion_order ≡ c.insertion_order ++ (p ∷ []))
unfolding store lookup insert remove
store_empty p event c none_yet = rw none_yet (refl, ground (arith, identity_beq_iff p p), refl)

ingest-exit_of :
    (c : Correlator) (x : Departure)
    → 0 < c.max_processes
    → c.timelines ≡ []
    → let c' = (ingest c (exit_of x)).0 in
      (c'.max_processes ≡ c.max_processes)
      × (c'.timelines ≡ [])
      × (c'.insertion_order ≡ c.insertion_order ++ (x.process ∷ []))
ingest-exit_of c x pos none_yet =
    let (r, e, describes, capped, state) =
      ingest-Death c x.process x.time x.pid x.ppid x.cgroup x.code in
    rw (state, ensure_capacity_empty x.process c pos none_yet)
      (store_empty x.process (exit_of x) c none_yet)

-- However many group leaders exit, whatever their exits say, each known only by its exit, a correlator
-- that has room for one and started without timelines holds none afterwards, and its eviction order has
-- grown by the process of each of them: no death takes an entry out.
pub deaths_grow_order :
    (c : Correlator) (xs : List Departure)
    → 0 < c.max_processes
    → c.timelines ≡ []
    → let c' = run c (map exit_of xs) in
      (c'.timelines ≡ [])
      × (c'.insertion_order ≡ c.insertion_order ++ map (λ (x : Departure). x.process) xs)
unfolding run
deaths_grow_order c [] pos none_yet = (none_yet, sym (append-nil c.insertion_order))
deaths_grow_order c (x ∷ xs) pos none_yet =
    let (room, gone, grown) = ingest-exit_of c x pos none_yet in
    let (empty, longer) = deaths_grow_order (ingest c (exit_of x)).0 xs (rw room pos) gone in
    let rest = map (λ (x : Departure). x.process) xs in
    (
      empty,
      longer ∙ (ap (λ o. o ++ rest) grown ∙ append_assoc c.insertion_order (x.process ∷ []) rest),
    )
