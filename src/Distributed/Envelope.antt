-- ===== src/Distributed/Envelope.antt =====
-- src/distributed.rs: `TelemetryEnvelope` and `ExportPolicy` with their validation.
use system_pilot.Base.Map.{Map}
use system_pilot.Base.Strings.{is_blank}
use system_pilot.Base.{
  ℕ, ◌≤◌, ◌<◌, ◌≡◌, ◌↔◌, ◌⊎◌, inl, inr, Bool, true, false, not, ◌&&◌, ◌||◌, Text, ltb, leb, ◌==◌,
  if◌then◌else◌, arith,
}
use system_pilot.Json.{Value, null}
use system_pilot.Error.{AppError, AppResult, ok, err}

abbrev pub telemetry_schema_version : ℕ
telemetry_schema_version = 1

pub data TelemetryKind : Type 0 where
  process_lifecycle process_alert process_snapshot system_snapshot causal_graph health :
      TelemetryKind

pub record TelemetryEnvelope : Type 0 where
  pub schema_version : ℕ
  pub message_id : Text
  pub node_id : Text
  pub sequence : ℕ
  pub observed_at_unix_nanos : ℕ
  pub kind : TelemetryKind
  pub payload : Value
  pub attributes : Map Text Text

-- `Value::is_null`.
abbrev pub is_null : Value → Bool
is_null null = true
is_null _ = false

-- `TelemetryEnvelope::validate`.
unfoldable pub validate : TelemetryEnvelope → AppResult (Unit {0})
validate e =
    if not (e.schema_version == telemetry_schema_version)
    then err AppError.protocol
    else if is_blank e.message_id || is_blank e.node_id
    then err AppError.validation
    else if e.observed_at_unix_nanos == 0 || is_null e.payload
    then err AppError.validation
    else ok tt

pub record ExportPolicy : Type 0 where
  pub batch_size : ℕ
  pub flush_interval_ms : ℕ
  pub max_queue_messages : ℕ
  pub retry_backoff_ms : ℕ
  pub max_retries : ℕ
  pub request_timeout_ms : ℕ
  pub spool_max_bytes : ℕ
  pub spool_max_age_seconds : ℕ

-- `ExportPolicy::default`, with DEFAULT_MAX_BYTES and DEFAULT_MAX_AGE_SECS of src/spool.rs.
abbrev pub default_export_policy : ExportPolicy
default_export_policy = record {
  batch_size = 256;
  flush_interval_ms = 1_000;
  max_queue_messages = 4_096;
  retry_backoff_ms = 1_000;
  max_retries = 3;
  request_timeout_ms = 10_000;
  spool_max_bytes = 536_870_912;
  spool_max_age_seconds = 604_800;
}

-- `ExportPolicy::validate`.
unfoldable pub validate_policy : ExportPolicy → AppResult (Unit {0})
validate_policy p =
    if not (leb 1 p.batch_size && leb p.batch_size 10_000)
      || (p.flush_interval_ms == 0
          || (ltb p.max_queue_messages p.batch_size
              || (p.request_timeout_ms == 0
                  || (p.spool_max_bytes == 0 || p.spool_max_age_seconds == 0))))
    then err AppError.validation
    else ok tt

-- The bounds that a policy has to keep.
pub record IsUsable (p : ExportPolicy) : Type 0 where
  pub batch_low : 1 ≤ p.batch_size
  pub batch_high : p.batch_size ≤ 10_000
  pub queue : p.batch_size ≤ p.max_queue_messages
  pub flush : 0 < p.flush_interval_ms
  pub timeout : 0 < p.request_timeout_ms
  pub bytes : 0 < p.spool_max_bytes
  pub age : 0 < p.spool_max_age_seconds

policy_result :
    (p : ExportPolicy) → (validate_policy p ≡ ok tt) ⊎ (validate_policy p ≡ err AppError.validation)
unfolding validate_policy
policy_result p = ground arith

pub validate_policy_iff : (p : ExportPolicy) → (validate_policy p ≡ ok tt) ↔ IsUsable p
unfolding validate_policy
validate_policy_iff p = (λ h. ground arith, λ u. ground arith)

-- A policy that passes validation has a batch of 1 to 10,000 records that fits in the queue, and no
-- interval or limit that is zero; any other is refused as a validation error.
pub validate_policy_decides :
    (p : ExportPolicy)
    → ((validate_policy p ≡ ok tt) ↔ IsUsable p)
      × ((validate_policy p ≡ err AppError.validation) ↔ (¬ IsUsable p))
validate_policy_decides p = (
  validate_policy_iff p,
  (
    λ h u. ground (arith, (validate_policy_iff p).1 u),
    λ n. elim (policy_result p) [
      | inl fine ↦ absurd (n ((validate_policy_iff p).0 fine))
      | inr refused ↦ refused
    ],
  ),
)
