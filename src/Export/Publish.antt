-- ===== src/Export/Publish.antt =====
-- What `publish` of src/distributed.rs leaves in the spool.
use system_pilot.Base.{ℕ, ◌+◌, ◌≡◌, Bool, List, ◌∷◌, ◌++◌, some, Text}
use system_pilot.Distributed.Envelope.{TelemetryEnvelope, TelemetryKind}
use system_pilot.Base.Texts.{decimal}
use system_pilot.Distributed.Redaction.{redact_value}
use system_pilot.Json.{Value}
use system_pilot.Error.{AppResult, ok}
use system_pilot.Export.{PublishCalls, TelemetryPublisher}
use system_pilot.Spool.Sequence.{IsOrderly}
use system_pilot.Spool.{DiskSpool, SpoolFile, current, encode_json}

-- A spool that has one file more, that of a record.
pub record Stores (encode : TelemetryEnvelope → AppResult Text) (e : TelemetryEnvelope)
    (s s' : DiskSpool) : Type 0 where
  pub file : SpoolFile
  pub before : List SpoolFile
  pub after : List SpoolFile
  pub old : s.records ≡ before ++ after
  pub new : s'.records ≡ before ++ (file ∷ after)
  pub number : file.sequence ≡ e.sequence
  pub content : encode_json encode e ≡ ok file.bytes

-- An envelope with everything that the publisher, the call and the clock say of it.
pub record Carries (p : TelemetryPublisher) (kind : TelemetryKind) (now : ℕ) (payload : Value)
    (e : TelemetryEnvelope) : Type 0 where
  pub version : e.schema_version ≡ 1
  pub identified : e.message_id ≡ p.node_id ++ (b'-' ∷ (decimal now ++ (b'-' ∷ decimal e.sequence)))
  pub node : e.node_id ≡ p.node_id
  pub time : e.observed_at_unix_nanos ≡ now
  pub sort : e.kind ≡ kind
  pub content : e.payload ≡ payload
  pub labels : e.attributes ≡ p.attributes

module _ (encode : TelemetryEnvelope → AppResult Text) where
  module _ (is_ip : Text → Bool) (io : PublishCalls) (p : TelemetryPublisher) (kind : TelemetryKind)
      (now : ℕ) where
    -- What a publication leaves, from the spool that it found.
    abbrev pub Published : DiskSpool → AppResult Value → TelemetryPublisher → Type 0
    Published s payload p' =
        (s' : DiskSpool) × (e : TelemetryEnvelope) × (v : Value) × (p'.spool ≡ some s')
        × (payload ≡ ok v)
        × Stores encode e s s'
        × Carries p kind now (redact_value is_ip p.redaction v) e
        × ((last : ℕ) × (current s.sequence_file ≡ ok last) × (e.sequence ≡ last + 1))
        × IsOrderly s'
