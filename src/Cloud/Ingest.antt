-- ===== src/Cloud/Ingest.antt =====
-- crates/syspilot-cloud/src/lib.rs: `ingest` and what it calls, over the database as an interface and with
-- the JSON encoding and the digests as parameters.
use system_pilot.Alert.{ProcessAlert}
use system_pilot.Base.Strings.{is_blank, starts_with}
use system_pilot.Base.Texts.{text}
use system_pilot.Base.{
  ℕ, ◌^◌, Bool, true, false, not, ◌&&◌, ◌||◌, List, [], ◌∷◌, Option, none, some, Text, text_beq,
  text_eq, length, drop, leb, ltb, ◌==◌, if◌then◌else◌,
}
use system_pilot.Cloud.Api.{ApiError, ApiResult, ok, err, ok_or, ◌>>=◌, ◌>>◌}
use system_pilot.Cloud.Database.{Database}
use system_pilot.Cloud.Timestamp.{from_nanos}
use system_pilot.Distributed.Envelope.{
  TelemetryEnvelope, TelemetryKind, telemetry_schema_version, validate,
}
use system_pilot.Distributed.Redaction.{is_one_of}
use system_pilot.Json.{Value}
use system_pilot.Error.{AppResult}

abbrev pub max_batch : ℕ
max_batch = 256

pub record Metrics : Type 0 where
  pub requests : ℕ
  pub accepted : ℕ
  pub rejected : ℕ
  pub unauthorized : ℕ
  pub saturated : ℕ
  pub database_errors : ℕ

-- `map_err` to `ApiError::Invalid`.
abbrev pub or_invalid : AppResult (Unit {0}) → ApiResult (Unit {0})
or_invalid (AppResult.ok _) = ok tt
or_invalid (AppResult.err e) = err ApiError.invalid

abbrev pub check_sequence : TelemetryEnvelope → ApiResult (Unit {0})
check_sequence r =
    if not (r.schema_version == telemetry_schema_version) || r.sequence == 0
    then err ApiError.invalid
    else ok tt

-- The body of the loop of `validate_batch`.
unfoldable pub validate_record : TelemetryEnvelope → ApiResult (Unit {0})
validate_record r = do
  or_invalid (validate r)
  check_sequence r
  observed ← from_nanos r.observed_at_unix_nanos
  ok tt

unfoldable pub validate_records : List TelemetryEnvelope → ApiResult (Unit {0})
validate_records [] = ok tt
validate_records (r ∷ rs) = do validate_record r; validate_records rs

-- `validate_batch`.
unfoldable pub validate_batch : List TelemetryEnvelope → ApiResult (Unit {0})
validate_batch batch =
    if length batch == 0 || ltb max_batch (length batch)
    then err ApiError.invalid
    else validate_records batch

abbrev pub token_of_length : Text → Option Text
token_of_length token =
    if leb 32 (length token) && leb (length token) 1024 then some token else none

-- `bearer_token`, of the header where there is one; a token is ASCII, and its length one of bytes.
unfoldable pub bearer_token : Option Text → Option Text
bearer_token none = none
bearer_token (some header) =
    if starts_with header (text "Bearer ") then token_of_length (drop 7 header) else none

pub data InsertOutcome : Type 0 where
  accepted sequence_conflict replay_conflict : InsertOutcome

abbrev pub is_alert : TelemetryKind → Bool
is_alert TelemetryKind.process_alert = true
is_alert _ = false

abbrev pub is_health : TelemetryKind → Bool
is_health TelemetryKind.health = true
is_health _ = false

-- `i64::try_from`.
abbrev pub bigint : ℕ → ApiResult ℕ
bigint n = if ltb n (2 ^ 63) then ok n else err ApiError.invalid

-- The encoder of serde, the digests, and the equality of JSON values.
pub record Codec : Type 0 where
  pub to_value : TelemetryEnvelope → Option Value
  pub to_vec : TelemetryEnvelope → Option Text
  pub sha256 : Text → Text
  pub token_digest : Text → Text
  pub value_beq : Value → Value → Bool
  pub alert_from_value : Value → Option ProcessAlert

module _ {Store Transaction Tenant : Type 0} (db : Database Store Transaction Tenant)
    (codec : Codec) where
  -- `map_err(database_error)`.
  abbrev pub sent {ℓ} : {A : Type ℓ} → Option A → ApiResult A
  sent = ok_or ApiError.database

  -- `envelope_digest`.
  unfoldable pub envelope_digest : TelemetryEnvelope → ApiResult Text
  envelope_digest r = do
    canonical ← ok_or ApiError.invalid (codec.to_vec r)
    ok (codec.sha256 canonical)

  -- The check of `materialize_alert`.
  abbrev pub check_alert : ProcessAlert → ApiResult (Unit {0})
  check_alert a =
      if is_blank a.instance_id
        || (is_blank a.rule_id
            || not (
                is_one_of a.state
                  (text "firing" ∷ text "acknowledged" ∷ text "resolved" ∷ text "suppressed" ∷ [])))
      then err ApiError.invalid
      else ok tt

  -- `materialize_alert`.
  unfoldable pub materialize_alert :
      Transaction → Tenant → TelemetryEnvelope → ApiResult Transaction
  materialize_alert tx tenant r = do
    alert ← ok_or ApiError.invalid (codec.alert_from_value r.payload)
    check_alert alert
    observed ← from_nanos alert.observed_at_unix_nanos
    tx' ← sent (db.upsert_alert tx tenant r alert observed)
    if text_beq alert.state (text "firing")
        then sent (db.queue_notifications tx' tenant alert)
        else ok tx'

  -- What follows a new message.
  abbrev pub follow_up : Transaction → Tenant → TelemetryEnvelope → ApiResult Transaction
  follow_up tx tenant r = do
    tx' ← (if is_alert r.kind then materialize_alert tx tenant r else ok tx)
    if is_health r.kind then ok tx' else sent (db.queue_job tx' tenant r)

  -- The `match` on what is stored of a message that was not new.
  abbrev pub replayed :
      Transaction
      → Tenant
      → TelemetryEnvelope
      → Value
      → Text
      → Option (Option Text × Value)
      → ApiResult (Transaction × InsertOutcome)
  replayed tx tenant r envelope digest none = ok (tx, InsertOutcome.sequence_conflict)
  replayed tx tenant r envelope digest (some (some stored, _)) =
      ok (
        tx,
        if text_beq stored digest then InsertOutcome.accepted else InsertOutcome.replay_conflict,
      )
  replayed tx tenant r envelope digest (some (none, stored)) =
      if codec.value_beq stored envelope
      then (sent (db.set_digest tx tenant r digest) >>= λ tx'. ok (tx', InsertOutcome.accepted))
      else ok (tx, InsertOutcome.replay_conflict)

  abbrev pub inserted :
      Tenant
      → TelemetryEnvelope
      → Value
      → Text
      → Transaction × Bool
      → ApiResult (Transaction × InsertOutcome)
  inserted tenant r envelope digest (tx, true) =
      follow_up tx tenant r >>= λ tx'. ok (tx', InsertOutcome.accepted)
  inserted tenant r envelope digest (tx, false) =
      sent (db.stored_message tx tenant r) >>= λ replay. replayed tx tenant r envelope digest replay

  -- `insert_envelope`; the encoding of the kind, a name, does not fail.
  unfoldable pub insert_envelope :
      Transaction → Tenant → TelemetryEnvelope → ApiResult (Transaction × InsertOutcome)
  insert_envelope tx tenant r = do
    bigint r.sequence
    observed ← from_nanos r.observed_at_unix_nanos
    envelope ← ok_or ApiError.invalid (codec.to_value r)
    digest ← envelope_digest r
    new ← sent (db.insert_message tx tenant r observed envelope digest)
    inserted tenant r envelope digest new

  abbrev pub raised : Transaction → Tenant → Text → Option ℕ → ApiResult Transaction
  raised tx tenant node none = ok tx
  raised tx tenant node (some n) = bigint n >>= λ n'. sent (db.raise_sequence tx tenant node n')

  -- `record_batch_state`.
  unfoldable pub record_batch_state : Transaction → Tenant → Text → Option ℕ → ApiResult Transaction
  record_batch_state tx tenant node highest = do
    tx' ← sent (db.touch_node tx tenant node)
    tx'' ← sent (db.count_day tx' tenant node)
    raised tx'' tenant node highest
