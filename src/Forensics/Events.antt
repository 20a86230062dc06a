-- ===== src/Forensics/Events.antt =====
-- src/forensics/events.rs: kernel events, verdicts, and the step from the raw ABI record to an event.
-- An `i32` is its bit pattern, so `exit_code as u32` is the same number.
use system_pilot.Abi.{ProcessIdentity, RawEvent, identity, is_group_leader, sender_is_kernel}
use system_pilot.Base.{
  ℕ, ◌/◌, ◌%◌, ◌≡◌, Bool, true, List, ◌==◌, if◌then◌else◌, ltb, ◌&&◌, ◌↔◌, Eq, arith,
}

pub data OomKind : Type 0 where
  global memcg unknown : OomKind

pub data KernelEvent : Type 0 where
  process_exit :
      (timestamp_ns : ℕ) (process : ProcessIdentity) (pid ppid cgroup_id exit_code : ℕ)
      (is_leader : Bool)
      → KernelEvent
  signal_generated :
      (timestamp_ns : ℕ) (target : ProcessIdentity) (signal si_code sender_pid sender_uid : ℕ)
      (from_kernel : Bool) (cgroup_id : ℕ)
      → KernelEvent
  oom_victim :
      (timestamp_ns : ℕ) (victim : ProcessIdentity) (cgroup_id : ℕ) (kind : OomKind) → KernelEvent
  telemetry_loss : (timestamp_ns dropped_records : ℕ) → KernelEvent

-- `KernelEvent::timestamp_ns`.
unfoldable pub timestamp : KernelEvent → ℕ
timestamp (KernelEvent.process_exit t _ _ _ _ _ _) = t
timestamp (KernelEvent.signal_generated t _ _ _ _ _ _ _) = t
timestamp (KernelEvent.oom_victim t _ _ _) = t
timestamp (KernelEvent.telemetry_loss t _) = t

pub data ExitDisposition : Type 0 where
  exited : (status : ℕ) → ExitDisposition
  signalled : (signal : ℕ) (core_dumped : Bool) → ExitDisposition

-- `ExitDisposition::from_exit_code`: `raw & 0x7f`, `(raw >> 8) & 0xff` and `raw & 0x80 != 0`.
unfoldable pub from_exit_code : ℕ → ExitDisposition
from_exit_code raw =
    let signal = raw % 128 in
    if signal == 0
    then ExitDisposition.exited (raw / 256 % 256)
    else ExitDisposition.signalled signal (raw / 128 % 2 == 1)

pub data Confidence : Type 0 where
  unknown low medium high confirmed : Confidence

-- The derived order: the position of the variant.
abbrev pub rank : Confidence → ℕ
rank Confidence.unknown = 0
rank Confidence.low = 1
rank Confidence.medium = 2
rank Confidence.high = 3
rank Confidence.confirmed = 4

-- `Ord::min`, which returns its first argument when both are equal.
abbrev pub min_confidence : Confidence → Confidence → Confidence
min_confidence a b = if ltb (rank b) (rank a) then b else a

pub data SignalOrigin : Type 0 where
  kernel : SignalOrigin
  process : (pid uid : ℕ) → SignalOrigin
  unknown : SignalOrigin

pub data Cause : Type 0 where
  normal_exit : (status : ℕ) → Cause
  fatal_signal : (signal : ℕ) (origin : SignalOrigin) → Cause
  global_oom : Cause
  cgroup_oom : (cgroup_id : ℕ) → Cause
  unknown : Cause

pub data Evidence : Type 0 where
  exit : (disposition : ExitDisposition) → Evidence
  signal : (number : ℕ) (origin : SignalOrigin) (si_code : ℕ) → Evidence
  oom_victim : (kind : OomKind) (cgroup_id : ℕ) → Evidence
  telemetry_loss : (dropped_records : ℕ) → Evidence

pub record DeathReport : Type 0 where
  pub process : ProcessIdentity
  pub timestamp_ns : ℕ
  pub cgroup_id : ℕ
  pub disposition : ExitDisposition
  pub cause : Cause
  pub confidence : Confidence
  pub evidence : List Evidence
  pub evidence_incomplete : Bool

-- The `match` on `event.oom_kind` in `normalize_raw_event`.
abbrev pub oom_kind_of : ℕ → OomKind
oom_kind_of k = if k == 1 then OomKind.global else if k == 2 then OomKind.memcg else OomKind.unknown

unfoldable pub normalize_raw_event : RawEvent → KernelEvent
normalize_raw_event (RawEvent.process_exit r) =
    KernelEvent.process_exit r.header.timestamp_ns (identity r.header) r.header.pid r.ppid
      r.header.cgroup_id r.exit_code (is_group_leader r)
normalize_raw_event (RawEvent.signal_generated r) =
    KernelEvent.signal_generated r.header.timestamp_ns (identity r.header) r.signal r.si_code
      r.sender_pid r.sender_uid (sender_is_kernel r) r.header.cgroup_id
normalize_raw_event (RawEvent.oom_victim r) =
    KernelEvent.oom_victim r.header.timestamp_ns (identity r.header) r.header.cgroup_id
      (oom_kind_of r.oom_kind)
normalize_raw_event (RawEvent.telemetry_loss r) =
    KernelEvent.telemetry_loss r.header.timestamp_ns r.dropped_records

-- The derived equality of identities.
abbrev pub identity_beq : ProcessIdentity → ProcessIdentity → Bool
identity_beq a b = a.tgid == b.tgid && a.start_boottime_ns == b.start_boottime_ns

pub identity_beq_iff : (a b : ProcessIdentity) → (identity_beq a b ≡ true) ↔ (a ≡ b)
identity_beq_iff a b = ground arith

instance abbrev pub identity_eq : Eq ProcessIdentity
identity_eq = record { beq = identity_beq; beq_iff = identity_beq_iff }
