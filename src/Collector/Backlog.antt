-- ===== src/Collector/Backlog.antt =====
-- What `PriorityIngress` of crates/syspilot-collector/src/lib.rs promises: two bounded first-in,
-- first-out lists, of which the critical one is served first.
use system_pilot.Abi.{RawEvent}
use system_pilot.Base.{
  ℕ, ◌≡◌, Bool, true, false, List, [], ◌∷◌, ◌++◌, Option, none, some, length, ltb, if◌then◌else◌,
  inl, inr, arith,
}
use system_pilot.Collector.Ingress.{EventPriority, PriorityIngress, push, try_pop}
use system_pilot.Collector.Queue.{ArrayQueue, push-cases, pop-cases, ring_try_push, ring_try_pop}

pub record Backlog : Type 0 where
  pub critical : List RawEvent
  pub auxiliary : List RawEvent
  pub critical_capacity : ℕ
  pub auxiliary_capacity : ℕ

abbrev pub is_critical : EventPriority → Bool
is_critical EventPriority.critical = true
is_critical EventPriority.high = true
is_critical EventPriority.normal = false
is_critical EventPriority.debug = false

unfoldable pub offer : Backlog → RawEvent → EventPriority → Backlog × Bool
offer b event priority =
    if is_critical priority
    then (if ltb (length b.critical) b.critical_capacity
        then (record b { critical = b.critical ++ (event ∷ []) }, true)
        else (b, false))
    else (if ltb (length b.auxiliary) b.auxiliary_capacity
        then (record b { auxiliary = b.auxiliary ++ (event ∷ []) }, true)
        else (b, false))

abbrev take_from : Backlog → List RawEvent → List RawEvent → Backlog × Option RawEvent
take_from b (event ∷ rest) auxiliary = (record b { critical = rest }, some event)
take_from b [] (event ∷ rest) = (record b { auxiliary = rest }, some event)
take_from b [] [] = (b, none)

unfoldable pub take_next : Backlog → Backlog × Option RawEvent
take_next b = take_from b b.critical b.auxiliary

module _ (Q : ArrayQueue RawEvent) where
  abbrev pub view : PriorityIngress Q → Backlog
  view i = record {
    critical = Q.contents i.critical;
    auxiliary = Q.contents i.auxiliary;
    critical_capacity = Q.capacity i.critical;
    auxiliary_capacity = Q.capacity i.auxiliary;
  }

  push_critical_refines :
      (i : PriorityIngress Q) (event : RawEvent)
      → let (i', accepted) = push Q i event EventPriority.critical in
        (view i', accepted) ≡ offer (view i) event EventPriority.critical
  unfolding push offer ring_try_push
  push_critical_refines i event = elim (push-cases Q i.critical event) [
    | inl (room, (q', pushed, longer, same)) ↦ rw pushed (ground arith)
    | inr (full, refused) ↦ rw refused (ground arith)
  ]

  push_auxiliary_refines :
      (i : PriorityIngress Q) (event : RawEvent)
      → let (i', accepted) = push Q i event EventPriority.normal in
        (view i', accepted) ≡ offer (view i) event EventPriority.normal
  unfolding push offer ring_try_push
  push_auxiliary_refines i event = elim (push-cases Q i.auxiliary event) [
    | inl (room, (q', pushed, longer, same)) ↦ rw pushed (ground arith)
    | inr (full, refused) ↦ rw refused (ground arith)
  ]

  -- `push` is `offer` on what the queues hold: it appends to the queue of its priority if there is
  -- room, and otherwise refuses and loses nothing that is queued.
  pub push_refines :
      (i : PriorityIngress Q) (event : RawEvent) (priority : EventPriority)
      → let (i', accepted) = push Q i event priority in
        (view i', accepted) ≡ offer (view i) event priority
  unfolding push offer
  push_refines i event EventPriority.critical = push_critical_refines i event
  push_refines i event EventPriority.high = push_critical_refines i event
  push_refines i event EventPriority.normal = push_auxiliary_refines i event
  push_refines i event EventPriority.debug = push_auxiliary_refines i event

  -- `try_pop` is `take_next` on what the queues hold: the oldest critical record, else the oldest
  -- auxiliary one, else nothing.
  pub try_pop_refines :
      (i : PriorityIngress Q)
      → let (i', event) = try_pop Q i in (view i', event) ≡ take_next (view i)
  unfolding try_pop take_next ring_try_pop
  try_pop_refines i = elim (pop-cases Q i.critical) [
    | inr (event, q', here, popped, same) ↦ rw popped (rw here (ground arith))
    | inl (empty, refused) ↦ elim (pop-cases Q i.auxiliary) [
      | inr (event, q', here, popped, same) ↦ rw (refused, popped) (rw (empty, here) (ground arith))
      | inl (empty', refused') ↦ rw (refused, refused') (rw (empty, empty') (ground arith))
    ]
  ]
