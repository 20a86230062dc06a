-- ===== src/Collector/Ingress.antt =====
-- crates/syspilot-collector/src/lib.rs: `PriorityIngress`. Each operation is one step; the
-- counters are atomic `u64` numbers, which wrap.
use system_pilot.Abi.Words.{Endian}
use system_pilot.Abi.{RawEvent, decode}
use system_pilot.Base.{ℕ, ◌+◌, ◌%◌, ◌^◌, Bool, true, false, List, Option, none, some, ◌>>=◌}
use system_pilot.Collector.Queue.{ArrayQueue, ring_new, ring_try_push, ring_try_pop}

pub data EventPriority : Type 0 where
  critical high normal debug : EventPriority

-- `Counters`, and `CollectorMetrics`, which is a reading of them.
pub record CollectorMetrics : Type 0 where
  pub received : ℕ
  pub malformed : ℕ
  pub critical_dropped : ℕ
  pub auxiliary_dropped : ℕ

abbrev pub no_counts : CollectorMetrics
no_counts = record { received = 0; malformed = 0; critical_dropped = 0; auxiliary_dropped = 0 }

-- `fetch_add(1, …)`.
abbrev pub tick : ℕ → ℕ
tick n = (n + 1) % 2 ^ 64

module _ (Q : ArrayQueue RawEvent) where
  pub record PriorityIngress : Type 0 where
    pub critical : Q.Queue
    pub auxiliary : Q.Queue
    pub counters : CollectorMetrics
    pub open counters use *

  -- `PriorityIngress::new`.
  unfoldable pub new : ℕ → ℕ → Option PriorityIngress
  new critical_capacity auxiliary_capacity = do
    urgent ← ring_new Q critical_capacity
    other ← ring_new Q auxiliary_capacity
    some (record { critical = urgent; auxiliary = other; counters = no_counts })

  -- The two arms of `push`, behind the count of what was received.
  abbrev pub push_critical : PriorityIngress → Option Q.Queue → PriorityIngress × Bool
  push_critical i none = (
    record i { counters = record (i.counters) { critical_dropped = tick i.critical_dropped } },
    false,
  )
  push_critical i (some ring) = (record i { critical = ring }, true)

  abbrev pub push_auxiliary : PriorityIngress → Option Q.Queue → PriorityIngress × Bool
  push_auxiliary i none = (
    record i { counters = record (i.counters) { auxiliary_dropped = tick i.auxiliary_dropped } },
    false,
  )
  push_auxiliary i (some ring) = (record i { auxiliary = ring }, true)

  abbrev pub count_received : PriorityIngress → PriorityIngress
  count_received i = record i { counters = record (i.counters) { received = tick i.received } }

  abbrev pub push_counted : PriorityIngress → RawEvent → EventPriority → PriorityIngress × Bool
  push_counted i event EventPriority.critical = push_critical i (ring_try_push Q i.critical event)
  push_counted i event EventPriority.high = push_critical i (ring_try_push Q i.critical event)
  push_counted i event EventPriority.normal = push_auxiliary i (ring_try_push Q i.auxiliary event)
  push_counted i event EventPriority.debug = push_auxiliary i (ring_try_push Q i.auxiliary event)

  -- `PriorityIngress::push`.
  unfoldable pub push : PriorityIngress → RawEvent → EventPriority → PriorityIngress × Bool
  push i event priority = push_counted (count_received i) event priority

  abbrev pub push_decoded :
      PriorityIngress → EventPriority → Option RawEvent → PriorityIngress × Bool
  push_decoded i priority none =
      (record i { counters = record (i.counters) { malformed = tick i.malformed } }, false)
  push_decoded i priority (some event) = push i event priority

  -- `PriorityIngress::ingest_bytes`.
  unfoldable pub ingest_bytes :
      Endian → PriorityIngress → List ℕ → EventPriority → PriorityIngress × Bool
  ingest_bytes e i bytes priority = push_decoded i priority (decode e bytes)

  abbrev pub pop_auxiliary :
      PriorityIngress → Option (RawEvent × Q.Queue) → PriorityIngress × Option RawEvent
  pop_auxiliary i none = (i, none)
  pop_auxiliary i (some (event, ring)) = (record i { auxiliary = ring }, some event)

  abbrev pub pop_critical :
      PriorityIngress → Option (RawEvent × Q.Queue) → PriorityIngress × Option RawEvent
  pop_critical i none = pop_auxiliary i (ring_try_pop Q i.auxiliary)
  pop_critical i (some (event, ring)) = (record i { critical = ring }, some event)

  -- `PriorityIngress::try_pop`.
  unfoldable pub try_pop : PriorityIngress → PriorityIngress × Option RawEvent
  try_pop i = pop_critical i (ring_try_pop Q i.critical)

  -- `PriorityIngress::metrics`.
  unfoldable pub metrics : PriorityIngress → CollectorMetrics
  metrics i = i.counters
