-- ===== src/Forensics/Correlator.antt =====
-- src/forensics/correlator.rs: the bounded timeline store. The `HashMap` is an association list, a
-- `VecDeque` the list of its elements, front first; an assertion that fails is `none`.
pub mod Bounds
pub mod Order
pub mod Loss
pub mod Deaths
use system_pilot.Abi.{ProcessIdentity}
use system_pilot.Base.Map.{Map, lookup, insert, remove, contains_key}
use system_pilot.Base.{
  ℕ, zero, suc, ◌+◌, ◌%◌, ◌^◌, Bool, true, false, not, ◌&&◌, ◌||◌, List, [], ◌∷◌, ◌++◌, Option,
  none, some, length, drop, ltb, ◌==◌, if◌then◌else◌,
}
use system_pilot.Forensics.Classifier.{Classified, classify}
use system_pilot.Forensics.Events.{KernelEvent, DeathReport, identity_eq}

pub record CorrelatorConfig : Type 0 where
  pub max_processes : ℕ
  pub max_events_per_process : ℕ

-- `CorrelatorConfig::default`.
abbrev pub default_config : CorrelatorConfig
default_config = record { max_processes = 16_384; max_events_per_process = 16 }

pub data IngestOutcome : Type 0 where
  accepted : IngestOutcome
  death : DeathReport → IngestOutcome
  ignored : IngestOutcome
  panicked : IngestOutcome

pub record Timeline : Type 0 where
  pub events : List KernelEvent
  pub loss_epoch_at_creation : ℕ

pub record Correlator : Type 0 where
  pub config : CorrelatorConfig
  pub open config use *
  pub timelines : Map ProcessIdentity Timeline
  pub insertion_order : List ProcessIdentity
  pub telemetry_loss_epoch : ℕ

abbrev pub initial : CorrelatorConfig → Correlator
initial config = record {
  config = config;
  timelines = [];
  insertion_order = [];
  telemetry_loss_epoch = 0;
}

-- `Correlator::new`.
unfoldable pub new : CorrelatorConfig → Option Correlator
new config =
    if ltb 0 config.max_processes && ltb 0 config.max_events_per_process
    then some (initial config)
    else none

-- The loop of `ensure_capacity`: entries of the order that have no timeline are passed over.
unfoldable pub evict :
    List ProcessIdentity
    → Map ProcessIdentity Timeline
    → List ProcessIdentity × Map ProcessIdentity Timeline
evict [] timelines = ([], timelines)
evict (evicted ∷ order) timelines =
    if contains_key evicted timelines
    then (order, remove evicted timelines)
    else evict order timelines

unfoldable pub ensure_capacity : ProcessIdentity → Correlator → Correlator
ensure_capacity process c =
    if contains_key process c.timelines || ltb (length c.timelines) c.max_processes
    then c
    else (let (order, timelines) = evict c.insertion_order c.timelines in
        record c { insertion_order = order; timelines = timelines })

-- `entry(identity).or_insert_with(…)`: the timeline, and the order with a new process at its back.
abbrev pub entry : Option Timeline → ProcessIdentity → Correlator → Timeline × List ProcessIdentity
entry (some timeline) process c = (timeline, c.insertion_order)
entry none process c = (
  record { events = []; loss_epoch_at_creation = c.telemetry_loss_epoch },
  c.insertion_order ++ (process ∷ []),
)

-- `pop_front` on a full timeline, then `push_back`.
unfoldable pub push_event : ℕ → KernelEvent → Timeline → Timeline
push_event max_events event t = record t {
  events = (if length t.events == max_events then drop 1 t.events else t.events) ++ (event ∷ []);
}

-- The end of `ingest` for the exit of a group leader.
abbrev pub settle : ProcessIdentity → Correlator → Classified → Correlator × IngestOutcome
settle process c (Classified.report r) =
    (record c { timelines = remove process c.timelines }, IngestOutcome.death r)
settle process c Classified.nothing =
    (record c { timelines = remove process c.timelines }, IngestOutcome.ignored)
settle process c Classified.panicked = (c, IngestOutcome.panicked)

-- The event is stored in the timeline of its process, for which there is room.
unfoldable pub store : ProcessIdentity → KernelEvent → Correlator → Correlator × Timeline
store process event c =
    let (timeline, order) = entry (lookup process c.timelines) process c in
    let timeline' = push_event c.max_events_per_process event timeline in
    (
      record c { timelines = insert process timeline' c.timelines; insertion_order = order },
      timeline',
    )

unfoldable pub record_event :
    ProcessIdentity → KernelEvent → Bool → Correlator → Correlator × IngestOutcome
record_event process event is_death c =
    let (c', timeline) = store process event (ensure_capacity process c) in
    if is_death
    then settle process c' (
        classify process timeline.events
          (not (timeline.loss_epoch_at_creation == c'.telemetry_loss_epoch)))
    else (c', IngestOutcome.accepted)

-- `Correlator::ingest`.
unfoldable pub ingest : Correlator → KernelEvent → Correlator × IngestOutcome
ingest c (KernelEvent.telemetry_loss t dropped_records) = (
  (if dropped_records == 0
      then c
      else record c { telemetry_loss_epoch = (c.telemetry_loss_epoch + 1) % 2 ^ 64 }),
  IngestOutcome.accepted,
)
ingest c (KernelEvent.process_exit t process pid ppid cgroup_id exit_code is_leader) =
    record_event process (KernelEvent.process_exit t process pid ppid cgroup_id exit_code is_leader)
      is_leader c
ingest c (KernelEvent.signal_generated t target signal si_code pid uid kernel cgroup_id) =
    record_event target
      (KernelEvent.signal_generated t target signal si_code pid uid kernel cgroup_id) false c
ingest c (KernelEvent.oom_victim t victim cgroup_id kind) =
    record_event victim (KernelEvent.oom_victim t victim cgroup_id kind) false c

-- A collector thread feeds one event after another.
pub run : Correlator → List KernelEvent → Correlator
run c [] = c
run c (event ∷ events) = run (ingest c event).0 events
