-- ===== src/Forensics/Correlator/Loss.antt =====
-- What a loss of telemetry does to the reports of src/forensics/correlator.rs.
use system_pilot.Abi.{ProcessIdentity}
use system_pilot.Base.Map.{lookup}
use system_pilot.Base.{
  ℕ, ◌+◌, ◌<◌, ◌≤◌, ◌^◌, ◌≢◌, ◌≡◌, true, false, ◌%◌, not, ◌==◌, ◌∙◌, some, arith,
}
use system_pilot.Forensics.Correlator.Deaths.{
  ensure_capacity_known, leader_exit_event, ingest-Death,
}
use system_pilot.Forensics.Correlator.{
  Correlator, IngestOutcome, Timeline, ensure_capacity, push_event, store, ingest,
}
use system_pilot.Forensics.Events.{KernelEvent, DeathReport, identity_eq, rank}

is_stale :
    (c : Correlator) (p : ProcessIdentity) (timeline : Timeline) (event : KernelEvent)
    → lookup p c.timelines ≡ some timeline
    → timeline.loss_epoch_at_creation ≢ c.telemetry_loss_epoch
    → let (c', t) = store p event (ensure_capacity p c) in
      not (t.loss_epoch_at_creation == c'.telemetry_loss_epoch) ≡ true
unfolding store push_event
is_stale c p timeline event known older =
    rw (ensure_capacity_known p c timeline known, known) (ground arith)

stale_report :
    (c : Correlator) (p : ProcessIdentity) (timeline : Timeline) (t pid ppid g code : ℕ)
    → lookup p c.timelines ≡ some timeline
    → timeline.loss_epoch_at_creation ≢ c.telemetry_loss_epoch
    → (r : DeathReport) × ((ingest c (leader_exit_event p t pid ppid g code)).1
        ≡ IngestOutcome.death r)
      × (r.evidence_incomplete ≡ true)
      × (rank r.confidence ≤ 2)
stale_report c p timeline t pid ppid g code known older =
    let (r, e, (process, time, cgroup, disposition, loss), capped, state) =
      ingest-Death c p t pid ppid g code in
    let incomplete = is_stale c p timeline (leader_exit_event p t pid ppid g code) known older in
    (r, e, loss ∙ incomplete, capped incomplete)

-- When records are dropped while a process is being followed and its exit is the very next event, the
-- report of its death says that the evidence is incomplete, and its confidence is at most medium, as long
-- as the loss counter does not wrap.
pub loss_marks_report :
    (c : Correlator) (p : ProcessIdentity) (timeline : Timeline)
    (lost_at dropped t pid ppid g code : ℕ)
    → lookup p c.timelines ≡ some timeline
    → timeline.loss_epoch_at_creation ≤ c.telemetry_loss_epoch
    → c.telemetry_loss_epoch + 1 < 2 ^ 64
    → 0 < dropped
    → let c' = (ingest c (KernelEvent.telemetry_loss lost_at dropped)).0 in
      (r : DeathReport) × ((ingest c' (KernelEvent.process_exit t p pid ppid g code true)).1
        ≡ IngestOutcome.death r)
      × (r.evidence_incomplete ≡ true)
      × (rank r.confidence ≤ 2)
unfolding ingest
loss_marks_report c p timeline lost_at dropped t pid ppid g code known older no_wrap lost =
    let counted : (dropped == 0) ≡ false = ground arith in
    rw counted (
      stale_report (record c { telemetry_loss_epoch = (c.telemetry_loss_epoch + 1) % 2 ^ 64 }) p
        timeline t pid ppid g code known (omega arith))
