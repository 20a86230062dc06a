-- ===== src/Tests/Export.antt =====
-- A publication and rounds of the worker over a small spool, for src/distributed.rs.
use system_pilot.Base.Strings.{is_blank}
use system_pilot.Base.Texts.{text}
use system_pilot.Base.{
  ℕ, zero, suc, ◌≡◌, ◌⊎◌, refl, Bool, true, false, [], ◌∷◌, List, Option, some, Text, text_eq,
  nat_eq, contains,
}
use system_pilot.Distributed.Acknowledgement.{
  IngestionAcknowledgement, accepted_records, check_accepted, check_decided, check_delay,
  check_highest, check_rejected, max_sequence, validate_acknowledgement, whole_batch,
}
use system_pilot.Distributed.Envelope.{
  TelemetryKind, TelemetryEnvelope, default_export_policy, validate,
}
use system_pilot.Distributed.Redaction.{default_policy}
use system_pilot.Json.{bool}
use system_pilot.Error.{AppError, AppResult, ok, err}
use system_pilot.Export.Delivery.{WasAccepted, round_loses_nothing}
use system_pilot.Export.Kept.{IsKept}
use system_pilot.Export.Origin.{AreNumbered}
use system_pilot.Export.{
  ExportMetrics, PublishCalls, RoundCalls, TelemetryPublisher, Worker, answer, attempts, carry_out,
  round,
}
use system_pilot.Spool.{
  Calls, DiskSpool, SequenceFile, SpoolFile, acknowledge, file_at, count_files, exists_file,
  pending, read_files, read_record, remove_file, stats_unlocked,
}

abbrev fine : Calls
fine = record {
  now = some 100;
  prepares = true;
  lists = true;
  writes = true;
  inspects = λ _. true;
  reads = λ _. true;
  renames = λ _. true;
  removes = λ _. true;
}

abbrev nothing_counted : ExportMetrics
nothing_counted = record {
  queued = 0;
  sent = 0;
  retried = 0;
  rejected = 0;
  dropped = 0;
  last_acknowledgement_unix_nanos = 0;
  spool_bytes = 0;
  quarantined = 0;
  persistence_failures = 0;
}

abbrev spool : DiskSpool
spool = record {
  disk = record {
    sequence_file = SequenceFile.holds 5;
    records = record { sequence = 4; bytes = text "hi"; modified = some 95 } ∷ [];
    quarantine = [];
  };
  max_bytes = 10;
  max_age_secs = 50;
}

abbrev publisher : TelemetryPublisher
publisher = record {
  has_sender = true;
  node_id = text "n";
  attributes = [];
  metrics = nothing_counted;
  spool = some spool;
  redaction = default_policy;
}

abbrev calls : PublishCalls
calls = record { numbering = fine; appending = fine; counting = fine }

abbrev no_address : Text → Bool
no_address t = false

abbrev short : TelemetryEnvelope → AppResult Text
short e = ok (text "x")

abbrev four : TelemetryEnvelope
four = record {
  schema_version = 1;
  message_id = text "m";
  node_id = text "n";
  sequence = 4;
  observed_at_unix_nanos = 9;
  kind = TelemetryKind.health;
  payload = bool true;
  attributes = [];
}

abbrev reads_four : Text → Option TelemetryEnvelope
reads_four t = some four

-- A collector that cannot be reached at first, and accepts everything after that.
abbrev late : ℕ → List TelemetryEnvelope → AppResult IngestionAcknowledgement
late zero batch = err AppError.protocol
late (suc k) batch = ok (whole_batch batch)

abbrev worker : Worker
worker = record { spool = spool; metrics = nothing_counted }

abbrev round_calls : RoundCalls
round_calls = record { reading = fine; removing = fine; counting = fine }

-- The record is sent in the second attempt, and leaves the spool.
delivers_late :
    let w = round reads_four default_export_policy late round_calls 77 worker in
    (w.spool.records ≡ []) × (w.metrics.sent ≡ 1) × (w.metrics.retried ≡ 1)
unfolding round pending read_files read_record validate is_blank attempts answer carry_out
    acknowledge exists_file remove_file whole_batch validate_acknowledgement check_accepted
    check_rejected check_highest check_delay check_decided accepted_records max_sequence contains
    stats_unlocked count_files
delivers_late = (refl, refl, refl)

abbrev four_file : SpoolFile
four_file = record { sequence = 4; bytes = text "hi"; modified = some 95 }

four-AreNumbered : AreNumbered reads_four spool.records
unfolding read_record validate is_blank
four-AreNumbered = (refl, tt)

round_loses_nothing_example :
    IsKept four_file (round reads_four default_export_policy late round_calls 77 worker).spool
    ⊎ WasAccepted reads_four late four_file
round_loses_nothing_example =
    round_loses_nothing reads_four default_export_policy late round_calls 77 worker four_file
      (tt, tt) four-AreNumbered (unfold file_at in refl)
