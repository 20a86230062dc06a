-- ===== src/Forensics/Classifier/Verdicts.antt =====
-- What the causal rules of src/forensics/classifier.rs guarantee of a report.
use system_pilot.Abi.{ProcessIdentity}
use system_pilot.Base.{◌≤◌, ◌≡◌, ◌≢◌, ◌↔◌, Bool, true, List, none, some, find_last, refl, arith}
use system_pilot.Forensics.Classifier.{
  Classified, Exit, classify, classify_exit, leader_exit, verdict, terminal_signal,
}
use system_pilot.Forensics.Events.{KernelEvent, DeathReport, from_exit_code, rank}

-- The `unreachable!` of the last match is never reached.
pub classify_never_panics :
    (process : ProcessIdentity) (events : List KernelEvent) (incomplete : Bool)
    → classify process events incomplete ≢ Classified.panicked
unfolding classify classify_exit from_exit_code terminal_signal verdict
classify_never_panics process events incomplete h = ground arith

-- There is no report exactly when the events hold no exit of this process's group leader.
pub classify_nothing_iff :
    (process : ProcessIdentity) (events : List KernelEvent) (incomplete : Bool)
    → (classify process events incomplete ≡ Classified.nothing)
      ↔ (find_last (leader_exit process) events ≡ none)
unfolding classify classify_exit from_exit_code terminal_signal verdict
classify_nothing_iff process events incomplete = ground arith

-- With telemetry lost the confidence is at most medium.
pub incomplete_capped :
    (process : ProcessIdentity) (events : List KernelEvent) (r : DeathReport)
    → classify process events true ≡ Classified.report r
    → rank r.confidence ≤ 2
unfolding classify classify_exit
incomplete_capped process events r h = ground arith

-- A report that describes this exit of this process.
abbrev pub Describes : ProcessIdentity → Exit → Bool → DeathReport → Type 0
Describes process at incomplete r =
    (r.process ≡ process)
    × (r.timestamp_ns ≡ at.timestamp_ns)
    × (r.cgroup_id ≡ at.cgroup_id)
    × (r.disposition ≡ from_exit_code at.exit_code)
    × (r.evidence_incomplete ≡ incomplete)

reported :
    (process : ProcessIdentity) (events : List KernelEvent) (incomplete : Bool) (at : Exit)
    (x : Classified)
    → classify_exit process events incomplete at ≡ x
    → (r : DeathReport) × (x ≡ Classified.report r) × Describes process at incomplete r
unfolding classify_exit from_exit_code terminal_signal verdict
reported process events incomplete at (Classified.report r) h =
    (r, refl, (ground arith, ground arith, ground arith, ground arith, ground arith))
reported process events incomplete at Classified.nothing h = absurd (ground arith)
reported process events incomplete at Classified.panicked h = absurd (ground arith)

-- Whenever an exit of the group leader is found, there is a report, and it describes that exit.
pub classify-Describes :
    (process : ProcessIdentity) (events : List KernelEvent) (incomplete : Bool) (at : Exit)
    → find_last (leader_exit process) events ≡ some at
    → (r : DeathReport) × (classify process events incomplete ≡ Classified.report r)
      × Describes process at incomplete r
unfolding classify
classify-Describes process events incomplete at h =
    rw (h, classify) (reported process events incomplete at _ refl)
