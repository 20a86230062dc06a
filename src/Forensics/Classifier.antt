-- ===== src/Forensics/Classifier.antt =====
-- src/forensics/classifier.rs: the causal rules. A panic (`unreachable!`) is a result of its own.
pub mod Verdicts
pub mod Justified
use system_pilot.Abi.{ProcessIdentity}
use system_pilot.Base.{
  ℕ, ◌-◌, ◌≡◌, Bool, true, false, ◌&&◌, List, [], ◌∷◌, ◌++◌, Option, none, some, leb, ◌==◌,
  if◌then◌else◌, find_last, ◌>>=◌, map_some,
}
use system_pilot.Forensics.Events.{
  KernelEvent, OomKind, ExitDisposition, Confidence, SignalOrigin, Cause, Evidence, DeathReport,
  from_exit_code, min_confidence, identity_beq,
}

-- MAX_CAUSAL_DISTANCE_NS.
abbrev pub max_causal_distance_ns : ℕ
max_causal_distance_ns = 5_000_000_000

-- `SignalOrigin::from_parts`.
unfoldable pub from_parts : ℕ → ℕ → Bool → SignalOrigin
from_parts sender_pid sender_uid sender_is_kernel =
    if sender_is_kernel
    then SignalOrigin.kernel
    else if sender_pid == 0
    then SignalOrigin.unknown
    else SignalOrigin.process sender_pid sender_uid

-- Not after the exit, and at most five seconds before it. The source evaluates the subtraction only where
-- `event_timestamp_ns <= timestamp_ns`, so that it has no underflow.
abbrev pub is_causal : ℕ → ℕ → Bool
is_causal event exit = leb event exit && leb (exit - event) max_causal_distance_ns

pub record Exit : Type 0 where
  pub timestamp_ns : ℕ
  pub cgroup_id : ℕ
  pub exit_code : ℕ

-- The closures that `find_map` is called with.
unfoldable pub leader_exit : ProcessIdentity → KernelEvent → Option Exit
leader_exit process (KernelEvent.process_exit t p _ _ cgroup_id exit_code true) =
    if identity_beq p process
    then some (record { timestamp_ns = t; cgroup_id = cgroup_id; exit_code = exit_code })
    else none
leader_exit process _ = none

pub record Generated : Type 0 where
  pub signal : ℕ
  pub origin : SignalOrigin
  pub si_code : ℕ

unfoldable pub generated_signal : ProcessIdentity → ℕ → ℕ → KernelEvent → Option Generated
generated_signal process expected at (KernelEvent.signal_generated t p s si pid uid k _) =
    if identity_beq p process && (s == expected && is_causal t at)
    then some (record { signal = s; origin = from_parts pid uid k; si_code = si })
    else none
generated_signal process expected at _ = none

unfoldable pub oom_record : ProcessIdentity → ℕ → KernelEvent → Option (OomKind × ℕ)
oom_record process at (KernelEvent.oom_victim t p cgroup_id kind) =
    if identity_beq p process && is_causal t at then some (kind, cgroup_id) else none
oom_record process at _ = none

unfoldable pub terminal_signal : ExitDisposition → Option ℕ
terminal_signal (ExitDisposition.signalled s _) = some s
terminal_signal (ExitDisposition.exited _) = none

abbrev pub origin_of : Option Generated → SignalOrigin
origin_of none = SignalOrigin.unknown
origin_of (some g) = g.origin

abbrev pub origin_confidence : SignalOrigin → Confidence
origin_confidence SignalOrigin.unknown = Confidence.medium
origin_confidence _ = Confidence.high

-- The last arm: `(Some(signal), _)`.
abbrev pub signal_verdict : ℕ → Option Generated → Cause × Confidence
signal_verdict s g = (Cause.fatal_signal s (origin_of g), origin_confidence (origin_of g))

-- The arms for `Some(9)` with an OOM record, in order.
abbrev pub killed_verdict : ℕ → Option Generated → OomKind × ℕ → Cause × Confidence
killed_verdict cgroup_id g (OomKind.memcg, oom_cgroup_id) =
    if oom_cgroup_id == cgroup_id
    then (Cause.cgroup_oom cgroup_id, Confidence.confirmed)
    else signal_verdict 9 g
killed_verdict cgroup_id g (OomKind.global, _) = (Cause.global_oom, Confidence.high)
killed_verdict cgroup_id g (OomKind.unknown, _) = (Cause.unknown, Confidence.medium)

-- The `(None, _)` arm; `none` is the `unreachable!`.
abbrev pub exit_verdict : ExitDisposition → Option (Cause × Confidence)
exit_verdict (ExitDisposition.exited status) = some (Cause.normal_exit status, Confidence.confirmed)
exit_verdict (ExitDisposition.signalled _ _) = none

abbrev pub oom_or_signal : ℕ → ℕ → Option Generated → Option (OomKind × ℕ) → Cause × Confidence
oom_or_signal cgroup_id s g none = signal_verdict s g
oom_or_signal cgroup_id s g (some oom) =
    if s == 9 then killed_verdict cgroup_id g oom else signal_verdict s g

unfoldable pub verdict :
    ℕ
    → ExitDisposition
    → Option ℕ
    → Option Generated
    → Option (OomKind × ℕ)
    → Option (Cause × Confidence)
verdict cgroup_id d none g oom = exit_verdict d
verdict cgroup_id d (some s) g oom = some (oom_or_signal cgroup_id s g oom)

abbrev pub signal_evidence : Option Generated → List Evidence
signal_evidence none = []
signal_evidence (some g) = Evidence.signal g.signal g.origin g.si_code ∷ []

abbrev pub oom_evidence : Option (OomKind × ℕ) → List Evidence
oom_evidence none = []
oom_evidence (some (kind, cgroup_id)) = Evidence.oom_victim kind cgroup_id ∷ []

abbrev pub loss_evidence : Bool → List Evidence
loss_evidence incomplete = if incomplete then Evidence.telemetry_loss 0 ∷ [] else []

-- What `classify` comes to: no report, a report, or a panic.
pub data Classified : Type 0 where
  nothing : Classified
  report : DeathReport → Classified
  panicked : Classified

-- The report at the end of `classify`.
abbrev pub report_of :
    ProcessIdentity
    → Exit
    → ExitDisposition
    → List Evidence
    → Bool
    → Cause
    → Confidence
    → DeathReport
report_of process at d evidence incomplete cause confidence = record {
  process = process;
  timestamp_ns = at.timestamp_ns;
  cgroup_id = at.cgroup_id;
  disposition = d;
  cause = cause;
  confidence = if incomplete then min_confidence confidence Confidence.medium else confidence;
  evidence = evidence;
  evidence_incomplete = incomplete;
}

abbrev pub conclude :
    ProcessIdentity
    → Exit
    → ExitDisposition
    → List Evidence
    → Bool
    → Option (Cause × Confidence)
    → Classified
conclude process at d evidence incomplete none = Classified.panicked
conclude process at d evidence incomplete (some (cause, confidence)) =
    Classified.report (report_of process at d evidence incomplete cause confidence)

-- The body of `classify` behind the exit event.
unfoldable pub classify_exit : ProcessIdentity → List KernelEvent → Bool → Exit → Classified
classify_exit process events incomplete at =
    let d = from_exit_code at.exit_code in
    let terminal = terminal_signal d in
    let g : Option Generated =
      terminal >>= λ s. find_last (generated_signal process s at.timestamp_ns) events in
    let oom = find_last (oom_record process at.timestamp_ns) events in
    conclude process at d
      (Evidence.exit d ∷ (signal_evidence g ++ (oom_evidence oom ++ loss_evidence incomplete)))
      incomplete (verdict at.cgroup_id d terminal g oom)

abbrev pub or_nothing : (Exit → Classified) → Option Exit → Classified
or_nothing f none = Classified.nothing
or_nothing f (some at) = f at

-- `Classifier::classify`.
unfoldable pub classify : ProcessIdentity → List KernelEvent → Bool → Classified
classify process events incomplete =
    or_nothing (classify_exit process events incomplete) (find_last (leader_exit process) events)
