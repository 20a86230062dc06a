-- ===== src/Tests/Collector.antt =====
-- The ingress of crates/syspilot-collector/src/lib.rs over a queue that is a list.
use system_pilot.Abi.Words.{Endian}
use system_pilot.Abi.{RawEvent}
use system_pilot.Base.{
  ℕ, ◌≤◌, ◌<◌, ◌≡◌, refl, false, List, [], ◌∷◌, ◌++◌, Option, none, some, length, ltb,
  if◌then◌else◌, arith,
}
use system_pilot.Collector.Accounting.{Balanced, arrive, take_one, run, start, run-new-Balanced}
use system_pilot.Collector.Backlog.{offer, take_next, view, push_refines, try_pop_refines}
use system_pilot.Collector.Ingress.{EventPriority, PriorityIngress, new, push, try_pop}
use system_pilot.Collector.Queue.{ArrayQueue, ring_new, ring_try_push, is_power_of_two}
use system_pilot.Tests.Abi.{exit_event}

-- A bounded queue that meets the laws.
record ListQueue (A : Type 0) : Type 0 where
  items : List A
  room : ℕ

module _ {A : Type 0} where
  abbrev list_push : ListQueue A → A → Option (ListQueue A)
  list_push q a =
      if ltb (length q.items) q.room then some (record q { items = q.items ++ (a ∷ []) }) else none

  abbrev split : List A → ℕ → Option (A × ListQueue A)
  split [] n = none
  split (a ∷ rest) n = some (a, record { items = rest; room = n })

  list_push_room :
      (q : ListQueue A) (a : A)
      → length q.items < q.room
      → (q' : ListQueue A) × (list_push q a ≡ some q')
        × (q'.items ≡ q.items ++ (a ∷ []))
        × (q'.room ≡ q.room)
  list_push_room q a h = (record q { items = q.items ++ (a ∷ []) }, ground arith, refl, refl)

  list_push_full : (q : ListQueue A) (a : A) → q.room ≤ length q.items → list_push q a ≡ none
  list_push_full q a h = ground arith

  list_pop_empty : (q : ListQueue A) → q.items ≡ [] → split q.items q.room ≡ none
  list_pop_empty q h = rw h

  list_pop_front :
      (q : ListQueue A) (a : A) (rest : List A)
      → q.items ≡ a ∷ rest
      → (q' : ListQueue A) × (split q.items q.room ≡ some (a, q'))
        × (q'.items ≡ rest)
        × (q'.room ≡ q.room)
  list_pop_front q a rest h = (record q { items = rest }, rw h, refl, refl)

abbrev list_queue : ArrayQueue RawEvent
list_queue = record {
  Queue = ListQueue RawEvent;
  make = λ n. record { items = []; room = n };
  push = list_push;
  pop = λ q. split q.items q.room;
  contents = λ q. q.items;
  capacity = λ q. q.room;
  contents-make = λ n. refl;
  capacity-make = λ n. refl;
  push_room = list_push_room;
  push_full = list_push_full;
  pop_empty = list_pop_empty;
  pop_front = list_pop_front;
}

abbrev quiet : PriorityIngress list_queue
quiet = record {
  critical = record { items = []; room = 3 };
  auxiliary = record { items = exit_event ∷ []; room = 1 };
  counters = record { received = 1; malformed = 0; critical_dropped = 0; auxiliary_dropped = 0 };
}

-- The full auxiliary queue refuses, and the critical one still has room.
push_refines_example :
    let (i, accepted) = push list_queue quiet exit_event EventPriority.debug in
    (view list_queue i, accepted) ≡ offer (view list_queue quiet) exit_event EventPriority.debug
push_refines_example = push_refines list_queue quiet exit_event EventPriority.debug

debug_refused : (push list_queue quiet exit_event EventPriority.debug).1 ≡ false
unfolding push ring_try_push
debug_refused = refl

try_pop_refines_example :
    let (i, event) = try_pop list_queue quiet in
    (view list_queue i, event) ≡ take_next (view list_queue quiet)
try_pop_refines_example = try_pop_refines list_queue quiet

abbrev empty_ingress : PriorityIngress list_queue
empty_ingress = record {
  critical = record { items = []; room = 3 };
  auxiliary = record { items = []; room = 1 };
  counters = record { received = 0; malformed = 0; critical_dropped = 0; auxiliary_dropped = 0 };
}

made : new list_queue 4 2 ≡ some empty_ingress
unfolding new ring_new is_power_of_two
made = refl

run-new-Balanced_example : Balanced list_queue Endian.little (
    run list_queue Endian.little
      (start list_queue Endian.little empty_ingress)
      (arrive (1 ∷ 2 ∷ 3 ∷ []) EventPriority.critical ∷ take_one ∷ []))
run-new-Balanced_example =
    run-new-Balanced list_queue Endian.little 4 2 empty_ingress
      (arrive (1 ∷ 2 ∷ 3 ∷ []) EventPriority.critical ∷ take_one ∷ []) made
