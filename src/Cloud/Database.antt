-- ===== src/Cloud/Database.antt =====
-- crates/syspilot-cloud/src/lib.rs: the statements that the collector sends to PostgreSQL, as an interface.
-- A transaction is a value that each statement changes or fails on; what is not committed is lost. A commit
-- gives what the database holds afterwards and whether it was confirmed: one that was not may have been
-- carried out all the same.
use system_pilot.Alert.{ProcessAlert}
use system_pilot.Base.{ℕ, Bool, Option, Text}
use system_pilot.Cloud.Timestamp.{UnixTimestamp}
use system_pilot.Distributed.Envelope.{TelemetryEnvelope}
use system_pilot.Json.{Value}

pub record Database (Store Transaction Tenant : Type 0) : Type 0 where
  pub begin : Store → Option Transaction
  pub authenticate : Transaction → Text → Option (Option (Tenant × Text))
  pub set_tenant : Transaction → Tenant → Option Transaction
  -- INSERT INTO telemetry_messages … ON CONFLICT DO NOTHING RETURNING true.
  pub insert_message :
      Transaction
      → Tenant
      → TelemetryEnvelope
      → UnixTimestamp
      → Value
      → Text
      → Option (Transaction × Bool)
  -- SELECT envelope_digest, envelope FROM telemetry_messages.
  pub stored_message :
      Transaction → Tenant → TelemetryEnvelope → Option (Option (Option Text × Value))
  -- UPDATE telemetry_messages SET envelope_digest.
  pub set_digest : Transaction → Tenant → TelemetryEnvelope → Text → Option Transaction
  -- INSERT INTO reasoning_jobs.
  pub queue_job : Transaction → Tenant → TelemetryEnvelope → Option Transaction
  -- INSERT INTO alerts … ON CONFLICT DO UPDATE.
  pub upsert_alert :
      Transaction → Tenant → TelemetryEnvelope → ProcessAlert → UnixTimestamp → Option Transaction
  -- INSERT INTO notification_deliveries.
  pub queue_notifications : Transaction → Tenant → ProcessAlert → Option Transaction
  -- UPDATE nodes SET last_seen_at.
  pub touch_node : Transaction → Tenant → Text → Option Transaction
  -- INSERT INTO active_server_days.
  pub count_day : Transaction → Tenant → Text → Option Transaction
  -- INSERT INTO node_sequence_state … GREATEST.
  pub raise_sequence : Transaction → Tenant → Text → ℕ → Option Transaction
  pub commit : Store → Transaction → Store × Bool
