-- ===== src/Cloud/Server.antt =====
-- crates/syspilot-cloud/src/lib.rs: the handler `ingest`, with the state that requests share. A request is
-- one step, in which others may hold permits; its own is dropped at the end.
pub mod Tallies
pub mod Agreement
pub mod Acknowledged
pub mod Rollback
use system_pilot.Base.Atomic.{fetch_add}
use system_pilot.Base.{
  ℕ, ◌+◌, ◌%◌, ◌^◌, Bool, true, false, not, ◌||◌, List, [], ◌∷◌, ◌++◌, Option, none, some, Text, Eq,
  text_beq, length, if◌then◌else◌,
}
use system_pilot.Base.Texts.{text}
use system_pilot.Cloud.Admission.{Admission, drop_permit, max, try_acquire}
use system_pilot.Cloud.Api.{ApiError, ApiResult, ok, err, ◌>>=◌}
use system_pilot.Cloud.Database.{Database}
use system_pilot.Cloud.Ingest.{
  Codec, InsertOutcome, Metrics, bearer_token, insert_envelope, record_batch_state, sent,
  validate_batch,
}
use system_pilot.Distributed.Acknowledgement.{IngestionAcknowledgement, RejectedRecord}
use system_pilot.Distributed.Envelope.{TelemetryEnvelope}

-- What the loop of `ingest` collects.
pub record Tally : Type 0 where
  pub accepted_message_ids : List Text
  pub rejected_records : List RejectedRecord
  pub highest_accepted_sequence : Option ℕ

abbrev pub empty_tally : Tally
empty_tally = record {
  accepted_message_ids = [];
  rejected_records = [];
  highest_accepted_sequence = none;
}

abbrev pub unwrap_or : ℕ → Option ℕ → ℕ
unwrap_or d none = d
unwrap_or d (some n) = n

abbrev pub reject : TelemetryEnvelope → Text → Tally → Tally
reject r reason t = record t {
  rejected_records =
      t.rejected_records ++ (record { message_id = r.message_id; reason = reason } ∷ []);
}

abbrev pub tally : TelemetryEnvelope → InsertOutcome → Tally → Tally
tally r InsertOutcome.accepted t = record t {
  accepted_message_ids = t.accepted_message_ids ++ (r.message_id ∷ []);
  highest_accepted_sequence = some (max (unwrap_or 0 t.highest_accepted_sequence) r.sequence);
}
tally r InsertOutcome.sequence_conflict t = reject r (text "sequence_conflict") t
tally r InsertOutcome.replay_conflict t = reject r (text "message_id_content_conflict") t

abbrev pub acknowledgement : Tally → IngestionAcknowledgement
acknowledgement t = record {
  accepted_message_ids = t.accepted_message_ids;
  highest_accepted_sequence = t.highest_accepted_sequence;
  rejected_records = t.rejected_records;
  retry_after_ms = none;
}

-- `AppState`, with what the database has committed.
pub record Server (Store Key : Type 0) : Type 0 where
  pub store : Store
  pub admission : Admission Key
  pub metrics : Metrics

module _ {Store Key : Type 0} where
  abbrev pub count_request : Server Store Key → Server Store Key
  count_request s = record s {
    metrics = record (s.metrics) { requests = fetch_add s.metrics.requests 1 };
  }

  abbrev pub count_unauthorized : Server Store Key → Server Store Key
  count_unauthorized s = record s {
    metrics = record (s.metrics) { unauthorized = fetch_add s.metrics.unauthorized 1 };
  }

  abbrev pub count_saturated : Server Store Key → Server Store Key
  count_saturated s = record s {
    metrics = record (s.metrics) { saturated = fetch_add s.metrics.saturated 1 };
  }

  abbrev pub count_database_error : Server Store Key → Server Store Key
  count_database_error s = record s {
    metrics = record (s.metrics) { database_errors = fetch_add s.metrics.database_errors 1 };
  }

  abbrev pub count_records : Tally → Server Store Key → Server Store Key
  count_records t s = record s {
    metrics = record (s.metrics) {
      accepted = fetch_add s.metrics.accepted (length t.accepted_message_ids);
      rejected = fetch_add s.metrics.rejected (length t.rejected_records);
    };
  }

-- Some envelope names another node.
unfoldable pub has_other_node : Text → List TelemetryEnvelope → Bool
has_other_node node [] = false
has_other_node node (r ∷ rs) = not (text_beq r.node_id node) || has_other_node node rs

module _ {Store Transaction Tenant : Type 0} ⦃e : Eq (Tenant × Text)⦄
    (db : Database Store Transaction Tenant) (codec : Codec) where
  -- The loop of `ingest` over the batch.
  unfoldable pub insert_all :
      Tenant → Tally → List TelemetryEnvelope → Transaction → ApiResult (Transaction × Tally)
  insert_all tenant t [] tx = ok (tx, t)
  insert_all tenant t (r ∷ rs) tx =
      insert_envelope db codec tx tenant r >>= λ x. insert_all tenant (tally r x.1 t) rs x.0

  abbrev pub committed :
      Server Store (Tenant × Text)
      → Tally
      → Store × Bool
      → Server Store (Tenant × Text) × ApiResult IngestionAcknowledgement
  committed s t (store, false) =
      (count_database_error (record s { store = store }), err ApiError.database)
  committed s t (store, true) =
      (count_records t (record s { store = store }), ok (acknowledgement t))

  abbrev pub recorded :
      Server Store (Tenant × Text)
      → ApiResult (Transaction × Tally)
      → Server Store (Tenant × Text) × ApiResult IngestionAcknowledgement
  recorded s (err x) = (s, err x)
  recorded s (ok (tx, t)) = committed s t (db.commit s.store tx)

  -- What `ingest` writes in the transaction.
  unfoldable pub write_batch :
      Transaction → Tenant → Text → List TelemetryEnvelope → ApiResult (Transaction × Tally)
  write_batch tx tenant node batch = do
    tx' ← sent db codec (db.set_tenant tx tenant)
    x ← insert_all tenant empty_tally batch tx'
    tx'' ← record_batch_state db codec x.0 tenant node x.1.highest_accepted_sequence
    ok (tx'', x.1)

  -- The permit is dropped at the end.
  abbrev pub with_permit :
      Tenant × Text
      → Server Store (Tenant × Text) × ApiResult IngestionAcknowledgement
      → Server Store (Tenant × Text) × ApiResult IngestionAcknowledgement
  with_permit key (s, result) = (record s { admission = drop_permit s.admission key }, result)

  abbrev pub admitted :
      Server Store (Tenant × Text)
      → Transaction
      → Tenant × Text
      → List TelemetryEnvelope
      → Admission (Tenant × Text) × Bool
      → Server Store (Tenant × Text) × ApiResult IngestionAcknowledgement
  admitted s tx key batch (a, false) =
      (count_saturated (record s { admission = a }), err ApiError.saturated)
  admitted s tx key batch (a, true) =
      with_permit key (recorded (record s { admission = a }) (write_batch tx key.0 key.1 batch))

  abbrev pub identified :
      Server Store (Tenant × Text)
      → Transaction
      → List TelemetryEnvelope
      → Option (Option (Tenant × Text))
      → Server Store (Tenant × Text) × ApiResult IngestionAcknowledgement
  identified s tx batch none = (count_database_error s, err ApiError.database)
  identified s tx batch (some none) = (count_unauthorized s, err ApiError.unauthorized)
  identified s tx batch (some (some key)) =
      if has_other_node key.1 batch
      then (s, err ApiError.invalid)
      else admitted s tx key batch (try_acquire s.admission key)

  abbrev pub begun :
      Server Store (Tenant × Text)
      → Text
      → List TelemetryEnvelope
      → Option Transaction
      → Server Store (Tenant × Text) × ApiResult IngestionAcknowledgement
  begun s digest batch none = (count_database_error s, err ApiError.database)
  begun s digest batch (some tx) = identified s tx batch (db.authenticate tx digest)

  abbrev pub with_token :
      Server Store (Tenant × Text)
      → List TelemetryEnvelope
      → Option Text
      → Server Store (Tenant × Text) × ApiResult IngestionAcknowledgement
  with_token s batch none = (count_unauthorized s, err ApiError.unauthorized)
  with_token s batch (some token) = begun s (codec.token_digest token) batch (db.begin s.store)

  abbrev pub validated :
      Server Store (Tenant × Text)
      → Option Text
      → List TelemetryEnvelope
      → ApiResult (Unit {0})
      → Server Store (Tenant × Text) × ApiResult IngestionAcknowledgement
  validated s header batch (err x) = (s, err x)
  validated s header batch (ok _) = with_token s batch (bearer_token header)

  -- `ingest`, with the authorization header of the request.
  unfoldable pub ingest :
      Server Store (Tenant × Text)
      → Option Text
      → List TelemetryEnvelope
      → Server Store (Tenant × Text) × ApiResult IngestionAcknowledgement
  ingest s header batch = validated (count_request s) header batch (validate_batch batch)
