-- ===== src/Tests/Forensics.antt =====
-- Deaths and losses at concrete events, for src/forensics.
use system_pilot.Abi.{ProcessIdentity}
use system_pilot.Base.Map.{lookup, contains_key, insert}
use system_pilot.Base.{ℕ, ◌≤◌, ◌≡◌, refl, map, true, false, List, [], ◌∷◌, none, find_last, arith}
use system_pilot.Forensics.Classifier.Justified.{
  Precedes, cgroup_oom_justified, fatal_signal_justified,
}
use system_pilot.Forensics.Classifier.{
  Classified, classify, classify_exit, leader_exit, generated_signal, oom_record, verdict,
  terminal_signal, from_parts,
}
use system_pilot.Forensics.Correlator.Bounds.{Inv, run-new-Inv}
use system_pilot.Forensics.Correlator.Deaths.{leader_exit_reported}
use system_pilot.Forensics.Correlator.Loss.{loss_marks_report}
use system_pilot.Forensics.Correlator.Order.{Departure, exit_of, deaths_grow_order}
use system_pilot.Forensics.Correlator.{
  Correlator, IngestOutcome, Timeline, initial, new, ensure_capacity, push_event, store,
  record_event, ingest, run,
}
use system_pilot.Forensics.Events.{
  KernelEvent, OomKind, ExitDisposition, Confidence, Cause, Evidence, SignalOrigin, DeathReport,
  from_exit_code, rank, identity_eq,
}

abbrev victim : ProcessIdentity
victim = record { tgid = 7; start_boottime_ns = 1 }

abbrev killed : KernelEvent
killed = KernelEvent.process_exit 10 victim 7 1 3 9 true

abbrev oom : OomKind → KernelEvent
oom kind = KernelEvent.oom_victim 5 victim 3 kind

abbrev sent : KernelEvent
sent = KernelEvent.signal_generated 6 victim 9 0 44 1000 false 3

abbrev report_on : Cause → Confidence → List Evidence → DeathReport
report_on cause confidence evidence = record {
  process = victim;
  timestamp_ns = 10;
  cgroup_id = 3;
  disposition = ExitDisposition.signalled 9 false;
  cause = cause;
  confidence = confidence;
  evidence = Evidence.exit (ExitDisposition.signalled 9 false) ∷ evidence;
  evidence_incomplete = false;
}

cgroup_death :
    classify victim (oom OomKind.memcg ∷ killed ∷ []) false
    ≡ Classified.report (
        report_on
          (Cause.cgroup_oom 3)
          Confidence.confirmed
          (Evidence.oom_victim OomKind.memcg 3 ∷ []))
unfolding classify classify_exit leader_exit generated_signal oom_record verdict terminal_signal
    from_exit_code find_last
cgroup_death = refl

global_death :
    classify victim (oom OomKind.global ∷ killed ∷ []) false
    ≡ Classified.report
        (report_on Cause.global_oom Confidence.high (Evidence.oom_victim OomKind.global 3 ∷ []))
unfolding classify classify_exit leader_exit generated_signal oom_record verdict terminal_signal
    from_exit_code find_last
global_death = refl

signal_death :
    classify victim (sent ∷ killed ∷ []) false
    ≡ Classified.report (
        report_on
          (Cause.fatal_signal 9 (SignalOrigin.process 44 1000))
          Confidence.high
          (Evidence.signal 9 (SignalOrigin.process 44 1000) 0 ∷ []))
unfolding classify classify_exit leader_exit generated_signal oom_record verdict terminal_signal
    from_exit_code from_parts find_last
signal_death = refl

cgroup_oom_justified_example :
    Precedes
      (oom OomKind.memcg ∷ killed ∷ [])
      10
      (λ t. KernelEvent.oom_victim t victim 3 OomKind.memcg)
cgroup_oom_justified_example =
    (cgroup_oom_justified victim (oom OomKind.memcg ∷ killed ∷ []) false _ cgroup_death 3 refl).2

fatal_signal_justified_example :
    (si : ℕ) × (cgroup_id : ℕ) × Precedes
      (sent ∷ killed ∷ [])
      10
      (λ t. KernelEvent.signal_generated t victim 9 si 44 1000 false cgroup_id)
fatal_signal_justified_example =
    (fatal_signal_justified victim (sent ∷ killed ∷ []) false _ signal_death 9 44 1000 refl).1

abbrev two : Correlator
two = initial (record { max_processes = 2; max_events_per_process = 2 })

abbrev watched : Timeline
watched = record { events = sent ∷ []; loss_epoch_at_creation = 0 }

abbrev watching : Correlator
watching = record two { timelines = (victim, watched) ∷ []; insertion_order = victim ∷ [] }

ingest_watches : (ingest two sent).0 ≡ watching
unfolding ingest record_event ensure_capacity store lookup insert contains_key push_event
ingest_watches = refl

run-new-Inv_example : Inv (run two (sent ∷ oom OomKind.memcg ∷ killed ∷ []))
run-new-Inv_example =
    run-new-Inv (two.config) two (sent ∷ oom OomKind.memcg ∷ killed ∷ []) (unfold new in refl)

leader_exit_reported_example :
    let (c', outcome) = ingest watching killed in
    (r : DeathReport) × (outcome ≡ IngestOutcome.death r)
    × (r.process ≡ victim)
    × (r.timestamp_ns ≡ 10)
    × (r.cgroup_id ≡ 3)
    × (r.disposition ≡ from_exit_code 9)
    × (lookup victim c'.timelines ≡ none)
leader_exit_reported_example = leader_exit_reported watching victim 10 7 1 3 9

loss_marks_report_example :
    let c' = (ingest watching (KernelEvent.telemetry_loss 8 2)).0 in
    (r : DeathReport) × ((ingest c' killed).1 ≡ IngestOutcome.death r)
    × (r.evidence_incomplete ≡ true)
    × (rank r.confidence ≤ 2)
loss_marks_report_example =
    loss_marks_report watching victim watched 8 2 10 7 1 3 9 (unfold lookup in refl) (omega arith)
      (omega arith) (omega arith)

abbrev departures : List Departure
departures =
    record { process = victim; time = 10; pid = 7; ppid = 1; cgroup = 3; code = 9 }
    ∷ (record { process = victim; time = 12; pid = 7; ppid = 1; cgroup = 3; code = 0 } ∷ [])

deaths_grow_order_example :
    let c' = run two (map exit_of departures) in
    (c'.timelines ≡ []) × (c'.insertion_order ≡ victim ∷ (victim ∷ []))
deaths_grow_order_example = deaths_grow_order two departures (omega arith) refl
