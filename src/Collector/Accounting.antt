-- ===== src/Collector/Accounting.antt =====
-- The counters of crates/syspilot-collector/src/lib.rs account for every record that arrives.
use system_pilot.Abi.Words.{Endian}
use system_pilot.Abi.{RawEvent, decode}
use system_pilot.Base.{
  ℕ, ◌+◌, ◌%◌, ◌^◌, ◌≡◌, refl, ap, List, [], ◌∷◌, Option, none, some, length, length-append, inl,
  inr, Option-cases, arith,
}
use system_pilot.Collector.Ingress.{
  no_counts, EventPriority, PriorityIngress, new, push, ingest_bytes, try_pop,
}
use system_pilot.Collector.Queue.{
  ArrayQueue, push-cases, pop-cases, ring_new, ring_new_empty, ring_try_push, ring_try_pop,
}

-- What a producer and a consumer do: a buffer arrives, or a record is asked for.
pub data Call : Type 0 where
  arrive : List ℕ → EventPriority → Call
  take_one : Call

abbrev pub one_if_some : Option RawEvent → ℕ
one_if_some none = 0
one_if_some (some event) = 1

module _ (Q : ArrayQueue RawEvent) (e : Endian) where
  -- The ingress, with how many buffers arrived and how many records were handed out so far.
  pub record Trace : Type 0 where
    pub ingress : PriorityIngress Q
    pub arrived : ℕ
    pub handed_out : ℕ

  unfoldable pub step : Trace → Call → Trace
  step t (arrive bytes priority) = record t {
    ingress = (ingest_bytes Q e t.ingress bytes priority).0;
    arrived = t.arrived + 1;
  }
  step t take_one =
      let (i, event) = try_pop Q t.ingress in
      record t { ingress = i; handed_out = t.handed_out + one_if_some event }

  pub run : Trace → List Call → Trace
  run t [] = t
  run t (call ∷ calls) = run (step t call) calls

  abbrev pub queued : PriorityIngress Q → ℕ
  queued i = length (Q.contents i.critical) + length (Q.contents i.auxiliary)

  -- Modulo the width of the counters: what arrived was received or malformed, and what was received
  -- is still queued, was handed out or was dropped.
  pub record Balanced (t : Trace) : Type 0 where
    pub arrivals : t.arrived % 2 ^ 64 ≡ (t.ingress.received + t.ingress.malformed) % 2 ^ 64
    pub received :
        t.ingress.received % 2 ^ 64
        ≡ (queued t.ingress
            + t.handed_out
            + t.ingress.critical_dropped
            + t.ingress.auxiliary_dropped)
          % 2 ^ 64

  -- The effect of a push on the sums.
  abbrev Counted : PriorityIngress Q → PriorityIngress Q → Type 0
  Counted i i' =
      (i'.received ≡ (i.received + 1) % 2 ^ 64)
      × (i'.malformed ≡ i.malformed)
      × ((queued i' + i'.critical_dropped + i'.auxiliary_dropped) % 2 ^ 64
          ≡ (queued i + i.critical_dropped + i.auxiliary_dropped + 1) % 2 ^ 64)

  module _ (i : PriorityIngress Q) (event : RawEvent) where
    push_critical-Counted : Counted i (push Q i event EventPriority.critical).0
    unfolding push ring_try_push
    push_critical-Counted = elim (push-cases Q i.critical event) [
      | inl (room, (q', pushed, longer, same)) ↦
          let more = length-append (Q.contents i.critical) (event ∷ []) in
          rw pushed (refl, refl, omega (arith, ap length longer, more))
      | inr (full, refused) ↦ rw refused (refl, refl, omega arith)
    ]

    push_auxiliary-Counted : Counted i (push Q i event EventPriority.normal).0
    unfolding push ring_try_push
    push_auxiliary-Counted = elim (push-cases Q i.auxiliary event) [
      | inl (room, (q', pushed, longer, same)) ↦
          let more = length-append (Q.contents i.auxiliary) (event ∷ []) in
          rw pushed (refl, refl, omega (arith, ap length longer, more))
      | inr (full, refused) ↦ rw refused (refl, refl, omega arith)
    ]

    push-Counted : (priority : EventPriority) → Counted i (push Q i event priority).0
    unfolding push
    push-Counted EventPriority.critical = push_critical-Counted
    push-Counted EventPriority.high = push_critical-Counted
    push-Counted EventPriority.normal = push_auxiliary-Counted
    push-Counted EventPriority.debug = push_auxiliary-Counted

  arrive-Balanced :
      (t : Trace) (bytes : List ℕ) (priority : EventPriority)
      → Balanced t
      → Balanced (step t (arrive bytes priority))
  unfolding step ingest_bytes
  arrive-Balanced t bytes priority v = elim (Option-cases (decode e bytes)) [
    | inl malformed ↦ rw malformed (record { arrivals = omega arith; received = omega arith })
    | inr (event, decoded) ↦
        let (counted, same, sum) = push-Counted t.ingress event priority in
        rw decoded (record {
          arrivals = omega (arith, counted, same);
          received = omega (arith, counted, sum);
        })
  ]

  take-Balanced : (t : Trace) → Balanced t → Balanced (step t take_one)
  unfolding step try_pop ring_try_pop
  take-Balanced t v = elim (pop-cases Q t.ingress.critical) [
    | inr (event, q', here, popped, same) ↦
        rw popped
          (record { arrivals = v.arrivals; received = omega (arith, ap length here, v.received) })
    | inl (empty, refused) ↦ elim (pop-cases Q t.ingress.auxiliary) [
      | inr (event, q', here, popped, same) ↦
          rw (refused, popped)
            (record { arrivals = v.arrivals; received = omega (arith, ap length here, v.received) })
      | inl (empty', refused') ↦
          rw (refused, refused')
            (record { arrivals = v.arrivals; received = omega (arith, v.received) })
    ]
  ]

  run-Balanced : (t : Trace) (calls : List Call) → Balanced t → Balanced (run t calls)
  unfolding run
  run-Balanced t [] v = v
  run-Balanced t (arrive bytes priority ∷ calls) v =
      run-Balanced (step t (arrive bytes priority)) calls (arrive-Balanced t bytes priority v)
  run-Balanced t (take_one ∷ calls) v = run-Balanced (step t take_one) calls (take-Balanced t v)

  abbrev pub start : PriorityIngress Q → Trace
  start i = record { ingress = i; arrived = 0; handed_out = 0 }

  new_empty :
      (n m : ℕ) (i : PriorityIngress Q)
      → new Q n m ≡ some i
      → (Q.contents i.critical ≡ []) × (Q.contents i.auxiliary ≡ []) × (i.counters ≡ no_counts)
  unfolding new
  new_empty n m i h = elim (Option-cases (ring_new Q n)) [
    | inl refused ↦ absurd (ground arith)
    | inr (q, made) ↦ elim (Option-cases (ring_new Q m)) [
      | inl refused ↦ absurd (ground arith)
      | inr (q', made') ↦ (
        ground (arith, ring_new_empty Q n q made),
        ground (arith, ring_new_empty Q m q' made'),
        ground arith,
      )
    ]
  ]

  -- From a new ingress on, whatever arrives and is taken, in any order: modulo 2 ^ 64 every buffer
  -- that arrived was counted as received or as malformed, and every record received is still
  -- queued, was handed out, or was counted as dropped.
  pub run-new-Balanced :
      (critical_capacity auxiliary_capacity : ℕ) (i : PriorityIngress Q) (calls : List Call)
      → new Q critical_capacity auxiliary_capacity ≡ some i
      → Balanced (run (start i) calls)
  run-new-Balanced critical_capacity auxiliary_capacity i calls h =
      let (critical, auxiliary, counts) = new_empty critical_capacity auxiliary_capacity i h in
      run-Balanced (start i) calls (record {
        arrivals = ground arith;
        received = ground (arith, ap length critical, ap length auxiliary);
      })
