-- ===== src/Export.antt =====
-- src/distributed.rs: `TelemetryPublisher::publish` and one round of the export worker, over the
-- spool. The collector's answers, the outcomes of the system calls and the clock are arguments; the
-- waits between attempts are left out. The channel only wakes the worker.
pub mod Publish
pub mod Kept
pub mod Origin
pub mod Delivery
use system_pilot.Base.Map.{Map}
use system_pilot.Base.Texts.{decimal}
use system_pilot.Base.Atomic.{fetch_add, fetch_sub}
use system_pilot.Base.{
  ℕ, zero, suc, ◌+◌, ◌-◌, ◌%◌, ◌^◌, Bool, true, false, not, List, [], ◌∷◌, ◌++◌, Option, none, some,
  Text, length, ltb, ◌==◌, if◌then◌else◌,
}
use system_pilot.Distributed.Acknowledgement.{
  IngestionAcknowledgement, accepted_records, validate_acknowledgement,
}
use system_pilot.Distributed.Envelope.{
  TelemetryEnvelope, TelemetryKind, ExportPolicy, telemetry_schema_version,
}
use system_pilot.Distributed.Redaction.{RedactionPolicy, redact_value}
use system_pilot.Json.{Value}
use system_pilot.Error.{AppError, AppResult, ok, err}
use system_pilot.Spool.{
  Calls, DiskSpool, SpoolStats, acknowledge, append, next_sequence, pending, stats_unlocked,
}

pub record ExportMetrics : Type 0 where
  pub queued : ℕ
  pub sent : ℕ
  pub retried : ℕ
  pub rejected : ℕ
  pub dropped : ℕ
  pub last_acknowledgement_unix_nanos : ℕ
  pub spool_bytes : ℕ
  pub quarantined : ℕ
  pub persistence_failures : ℕ

abbrev pub count_failure : ExportMetrics → ExportMetrics
count_failure m = record m { persistence_failures = fetch_add m.persistence_failures 1 }

abbrev pub store_stats : SpoolStats → ExportMetrics → ExportMetrics
store_stats stats m = record m {
  queued = stats.records;
  spool_bytes = stats.bytes;
  quarantined = stats.quarantined;
}

pub record TelemetryPublisher : Type 0 where
  pub has_sender : Bool
  pub node_id : Text
  pub attributes : Map Text Text
  pub metrics : ExportMetrics
  pub spool : Option DiskSpool
  pub redaction : RedactionPolicy

abbrev pub with_spool : DiskSpool → ExportMetrics → TelemetryPublisher → TelemetryPublisher
with_spool s m p = record p { metrics = m; spool = some s }

-- The envelope that `publish` builds.
abbrev pub envelope : TelemetryPublisher → TelemetryKind → ℕ → Value → ℕ → TelemetryEnvelope
envelope p kind now payload sequence = record {
  schema_version = telemetry_schema_version;
  message_id = p.node_id ++ (b'-' ∷ (decimal now ++ (b'-' ∷ decimal sequence)));
  node_id = p.node_id;
  sequence = sequence;
  observed_at_unix_nanos = now;
  kind = kind;
  payload = payload;
  attributes = p.attributes;
}

-- The calls of one `publish`: those of `next_sequence`, of `append` and of `stats`.
pub record PublishCalls : Type 0 where
  pub numbering : Calls
  pub appending : Calls
  pub counting : Calls

module _ (encode : TelemetryEnvelope → AppResult Text) (is_ip : Text → Bool) where
  abbrev pub published :
      TelemetryPublisher
      → DiskSpool
      → AppResult SpoolStats
      → TelemetryPublisher × AppResult (Unit {0})
  published p s (err e) = (with_spool s p.metrics p, err e)
  published p s (ok stats) = (with_spool s (store_stats stats p.metrics) p, ok tt)

  abbrev pub appended :
      PublishCalls
      → TelemetryPublisher
      → DiskSpool × AppResult (Unit {0})
      → TelemetryPublisher × AppResult (Unit {0})
  appended io p (s, err e) = (with_spool s (count_failure p.metrics) p, err e)
  appended io p (s, ok _) = published p s (stats_unlocked io.counting s)

  abbrev pub numbered :
      PublishCalls
      → TelemetryPublisher
      → TelemetryKind
      → ℕ
      → Value
      → DiskSpool × AppResult ℕ
      → TelemetryPublisher × AppResult (Unit {0})
  numbered io p kind now payload (s, err e) = (with_spool s (count_failure p.metrics) p, err e)
  numbered io p kind now payload (s, ok n) =
      appended io p (append encode io.appending s (envelope p kind now payload n))

  abbrev pub publish_value :
      PublishCalls
      → TelemetryPublisher
      → TelemetryKind
      → ℕ
      → DiskSpool
      → AppResult Value
      → TelemetryPublisher × AppResult (Unit {0})
  publish_value io p kind now s (err e) = (p, err AppError.protocol)
  publish_value io p kind now s (ok payload) =
      numbered io p kind now (redact_value is_ip p.redaction payload) (next_sequence io.numbering s)

  abbrev pub publish_to :
      PublishCalls
      → TelemetryPublisher
      → TelemetryKind
      → ℕ
      → AppResult Value
      → Option DiskSpool
      → TelemetryPublisher × AppResult (Unit {0})
  publish_to io p kind now payload none = (p, err AppError.protocol)
  publish_to io p kind now payload (some s) = publish_value io p kind now s payload

  -- `publish`, of a payload that `serde_json::to_value` gave.
  unfoldable pub publish :
      PublishCalls
      → TelemetryPublisher
      → TelemetryKind
      → ℕ
      → AppResult Value
      → TelemetryPublisher × AppResult (Unit {0})
  publish io p kind now payload =
      if p.has_sender then publish_to io p kind now payload p.spool else (p, ok tt)

-- What the worker changes.
pub record Worker : Type 0 where
  pub spool : DiskSpool
  pub metrics : ExportMetrics

-- The commit of the accepted records.
abbrev pub committed : ℕ → ℕ → ExportMetrics → DiskSpool × AppResult (Unit {0}) → Worker × Bool
committed now count m (s, err e) = (record { spool = s; metrics = count_failure m }, false)
committed now count m (s, ok _) = (
  record {
    spool = s;
    metrics = record m {
      queued = fetch_sub m.queued count;
      sent = fetch_add m.sent count;
      last_acknowledgement_unix_nanos = now;
    };
  },
  true,
)

abbrev pub commit : Calls → ℕ → Worker → List TelemetryEnvelope → Worker × Bool
commit io now w [] = (w, true)
commit io now w (r ∷ rs) =
    committed now (length (r ∷ rs)) w.metrics (acknowledge io w.spool (r ∷ rs))

-- The rejections are counted when the commit did not fail.
abbrev pub count_rejected : ℕ → Worker × Bool → Worker × Bool
count_rejected n (w, false) = (w, false)
count_rejected n (w, true) =
    (record w { metrics = record (w.metrics) { rejected = fetch_add w.metrics.rejected n } }, true)

-- A valid acknowledgement is carried out.
unfoldable pub carry_out :
    Calls → ℕ → Worker → List TelemetryEnvelope → IngestionAcknowledgement → Worker × Bool
carry_out io now w batch a =
    count_rejected (length a.rejected_records)
      (commit io now w (accepted_records a.accepted_message_ids batch))

-- The acknowledgement of an attempt, if it has a valid one.
abbrev pub valid_only :
    IngestionAcknowledgement → AppResult (Unit {0}) → Option IngestionAcknowledgement
valid_only a (ok _) = some a
valid_only a (err e) = none

unfoldable pub answer :
    List TelemetryEnvelope → AppResult IngestionAcknowledgement → Option IngestionAcknowledgement
answer batch (err e) = none
answer batch (ok a) = valid_only a (validate_acknowledgement a batch)

abbrev pub count_retry : ℕ → ℕ → Worker → Worker
count_retry attempt n w =
    if attempt == 0
    then w
    else record w { metrics = record (w.metrics) { retried = fetch_add w.metrics.retried n } }

abbrev pub attempted :
    (IngestionAcknowledgement → Worker × Bool)
    → Option IngestionAcknowledgement
    → Worker × Bool
    → Worker × Bool
attempted f none rest = rest
attempted f (some a) rest = f a

-- The attempts of a round; the first argument counts those that are left.
unfoldable pub attempts :
    ℕ
    → ℕ
    → (ℕ → AppResult IngestionAcknowledgement)
    → Calls
    → ℕ
    → List TelemetryEnvelope
    → Worker
    → Worker × Bool
attempts zero attempt sink io now batch w = (w, false)
attempts (suc left) attempt sink io now batch w =
    let w' = count_retry attempt (length batch) w in
    let rest = attempts left (attempt + 1) sink io now batch w' in
    attempted (carry_out io now w' batch) (answer batch (sink attempt)) rest

abbrev pub give_up : ℕ → Worker × Bool → Worker
give_up n (w, true) = w
give_up n (w, false) = record w {
  metrics = record (w.metrics) { rejected = fetch_add w.metrics.rejected n };
}

abbrev pub counted_spool : AppResult SpoolStats → Worker → Worker
counted_spool (ok stats) w = record w { metrics = store_stats stats w.metrics }
counted_spool (err e) w = record w { metrics = count_failure w.metrics }

-- The calls of a round: those of `pending`, of `acknowledge` and of `stats`.
pub record RoundCalls : Type 0 where
  pub reading : Calls
  pub removing : Calls
  pub counting : Calls

abbrev pub send :
    ExportPolicy
    → (ℕ → List TelemetryEnvelope → AppResult IngestionAcknowledgement)
    → RoundCalls
    → ℕ
    → ExportMetrics
    → DiskSpool × AppResult (List TelemetryEnvelope)
    → Worker
send policy sink io now m (s, err e) = record { spool = s; metrics = count_failure m }
send policy sink io now m (s, ok []) = record { spool = s; metrics = m }
send policy sink io now m (s, ok (r ∷ rs)) =
    let w' = give_up (length (r ∷ rs)) (
      attempts (policy.max_retries + 1) 0 (λ attempt. sink attempt (r ∷ rs)) io.removing now
        (r ∷ rs) (record { spool = s; metrics = m })) in
    counted_spool (stats_unlocked io.counting w'.spool) w'

-- One round of `spawn_export_worker`.
unfoldable pub round :
    (Text → Option TelemetryEnvelope)
    → ExportPolicy
    → (ℕ → List TelemetryEnvelope → AppResult IngestionAcknowledgement)
    → RoundCalls
    → ℕ
    → Worker
    → Worker
round decode policy sink io now w =
    send policy sink io now w.metrics (pending decode io.reading w.spool policy.batch_size)
