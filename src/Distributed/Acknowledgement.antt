-- ===== src/Distributed/Acknowledgement.antt =====
-- src/distributed.rs: the acknowledgement of a batch, and its validation against the batch.
pub mod Soundness
use system_pilot.Base.Strings.{is_blank}
use system_pilot.Base.{
  ℕ, Bool, true, false, not, ◌&&◌, ◌||◌, List, [], ◌∷◌, ◌++◌, map, Option, none, some, Text,
  text_eq, contains, leb, ltb, ◌==◌, if◌then◌else◌,
}
use system_pilot.Distributed.Envelope.{TelemetryEnvelope}
use system_pilot.Error.{AppError, AppResult, ok, err, ◌>>=◌, ◌>>◌}

pub record RejectedRecord : Type 0 where
  pub message_id : Text
  pub reason : Text

pub record IngestionAcknowledgement : Type 0 where
  pub accepted_message_ids : List Text
  pub highest_accepted_sequence : Option ℕ
  pub rejected_records : List RejectedRecord
  pub retry_after_ms : Option ℕ

abbrev pub ids_of : List TelemetryEnvelope → List Text
ids_of = map (λ r. r.message_id)

-- `Iterator::max` on the sequences.
abbrev pub max_with : ℕ → Option ℕ → ℕ
max_with n none = n
max_with n (some m) = if ltb m n then n else m

unfoldable pub max_sequence : List TelemetryEnvelope → Option ℕ
max_sequence [] = none
max_sequence (r ∷ rs) = some (max_with r.sequence (max_sequence rs))

-- The records of a batch whose message ID is in a list.
unfoldable pub accepted_records : List Text → List TelemetryEnvelope → List TelemetryEnvelope
accepted_records ids [] = []
accepted_records ids (r ∷ rs) =
    if contains r.message_id ids then r ∷ accepted_records ids rs else accepted_records ids rs

-- `IngestionAcknowledgement::whole_batch`.
unfoldable pub whole_batch : List TelemetryEnvelope → IngestionAcknowledgement
whole_batch batch = record {
  accepted_message_ids = ids_of batch;
  highest_accepted_sequence = max_sequence batch;
  rejected_records = [];
  retry_after_ms = none;
}

-- The two loops of `validate`: the IDs decided so far go round.
unfoldable pub check_accepted : List Text → List Text → List Text → AppResult (List Text)
check_accepted submitted decided [] = ok decided
check_accepted submitted decided (id ∷ ids) =
    if not (contains id submitted) || contains id decided
    then err AppError.protocol
    else check_accepted submitted (id ∷ decided) ids

unfoldable pub check_rejected : List Text → List Text → List RejectedRecord → AppResult (List Text)
check_rejected submitted decided [] = ok decided
check_rejected submitted decided (r ∷ rs) =
    if is_blank r.reason || (not (contains r.message_id submitted) || contains r.message_id decided)
    then err AppError.protocol
    else check_rejected submitted (r.message_id ∷ decided) rs

abbrev pub is_option : Option ℕ → ℕ → Bool
is_option none n = false
is_option (some m) n = m == n

unfoldable pub check_highest : Option ℕ → Option ℕ → AppResult (Unit {0})
check_highest none actual = ok tt
check_highest (some highest) actual =
    if is_option actual highest then ok tt else err AppError.protocol

unfoldable pub check_delay : Option ℕ → AppResult (Unit {0})
check_delay none = ok tt
check_delay (some delay) = if ltb 86_400_000 delay then err AppError.protocol else ok tt

unfoldable pub check_decided : List Text → AppResult (Unit {0})
check_decided [] = err AppError.protocol
check_decided (id ∷ ids) = ok tt

-- `IngestionAcknowledgement::validate`.
unfoldable pub validate_acknowledgement :
    IngestionAcknowledgement → List TelemetryEnvelope → AppResult (Unit {0})
validate_acknowledgement a batch = do
  accepted ← check_accepted (ids_of batch) [] a.accepted_message_ids
  decided ← check_rejected (ids_of batch) accepted a.rejected_records
  check_highest a.highest_accepted_sequence
      (max_sequence (accepted_records a.accepted_message_ids batch))
  check_delay a.retry_after_ms
  check_decided decided
