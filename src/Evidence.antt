-- ===== src/Evidence.antt =====
-- src/evidence.rs: the bundle of evidence, its validation, and its capture. What the host's telemetry, clock and
-- files give, and the JSON of the telemetry, are arguments.
pub mod Directory
pub mod Store
pub mod Capture
pub mod Retention
pub mod Shrinking
pub mod Saved
pub mod Captured
use system_pilot.Base.Strings.{is_blank}
use system_pilot.Base.Texts.{text, decimal, decimal_signed}
use system_pilot.Base.{
  ℕ, Bool, true, false, ◌&&◌, ◌||◌, not, List, [], ◌∷◌, ◌++◌, map, Option, none, some, Text,
  text_beq, ◌==◌, ltb, if◌then◌else◌,
}
use system_pilot.Error.{AppError, AppResult, ok, err}
use system_pilot.Json.{Value, string, object, no_fields, field}

abbrev pub evidence_schema_version : ℕ
evidence_schema_version = 1

pub record TimeRangeV1 : Type 0 where
  pub started_at_unix_nanos : ℕ
  pub ended_at_unix_nanos : ℕ

pub record NodeMetadataV1 : Type 0 where
  pub hostname : Text
  pub kernel_release : Text
  pub architecture : Text

pub record CapabilityRecordV1 : Type 0 where
  pub name : Text
  pub state : Text

pub record FindingV1 : Type 0 where
  pub id : Text
  pub severity : Text
  pub summary : Text
  pub evidence_refs : List Text

pub record MissingEvidenceV1 : Type 0 where
  pub name : Text
  pub reason : Text

pub record RelationshipV1 : Type 0 where
  pub from : Text
  pub to : Text
  pub relationship : Text

pub record AiAnalysisV1 : Type 0 where
  pub provider : Text
  pub model : Text
  pub analysis : Text

pub record EvidenceBundleV1 : Type 0 where
  pub schema_version : ℕ
  pub bundle_version : Text
  pub case_id : Text
  pub time_range : TimeRangeV1
  pub node : NodeMetadataV1
  pub capabilities : List CapabilityRecordV1
  pub observations : List Value
  pub findings : List FindingV1
  pub missing_evidence : List MissingEvidenceV1
  pub relationships : List RelationshipV1
  pub alert_references : List Text
  pub fields_removed : List Text
  pub ai_analysis : Option AiAnalysisV1

abbrev pub bundle_version_name : Text
bundle_version_name = text "EvidenceBundleV1"

-- `EvidenceBundleV1::validate`.
unfoldable pub validate : EvidenceBundleV1 → AppResult (Unit {0})
unfolding is_blank
validate b =
    if not (b.schema_version == evidence_schema_version)
      || not (text_beq b.bundle_version bundle_version_name)
    then err AppError.validation
    else if is_blank b.case_id
        || ltb b.time_range.ended_at_unix_nanos b.time_range.started_at_unix_nanos
    then err AppError.validation
    else ok tt

-- `CapabilityState`, and its lower-case name.
pub data CapabilityState : Type 0 where
  supported degraded unsupported : CapabilityState

abbrev pub capability_state : CapabilityState → Text
capability_state supported = text "supported"
capability_state degraded = text "degraded"
capability_state unsupported = text "unsupported"

pub record KernelCapabilities : Type 0 where
  pub btf : CapabilityState
  pub process_exit : CapabilityState
  pub signal_origin : CapabilityState
  pub signal_delivery : CapabilityState
  pub oom_victim : CapabilityState

abbrev pub capability : Text → CapabilityState → CapabilityRecordV1
capability name state = record { name = name; state = capability_state state }

abbrev pub capability_records : KernelCapabilities → List CapabilityRecordV1
capability_records caps =
    capability (text "btf") caps.btf
    ∷ (capability (text "process_exit") caps.process_exit
        ∷ (capability (text "signal_origin") caps.signal_origin
            ∷ (capability (text "signal_delivery") caps.signal_delivery
                ∷ (capability (text "oom_victim") caps.oom_victim ∷ []))))

-- What the telemetry says of a process: its numbers are `i32`s by their bit patterns.
pub record ProcessTelemetry : Type 0 where
  pub name : Text
  pub ppid : ℕ
  pub state : Text
  pub majflt : ℕ
  pub json : Value

-- An observation `{"id": …, "kind": …, "value": …}`, whose kind is its id.
abbrev pub observation : Text → Value → Value
observation id v = object (
    field (text "id") (string id)
      (field (text "kind") (string id) (field (text "value") v no_fields)))

abbrev pub process_snapshot : List Text
process_snapshot = text "process_snapshot" ∷ []

abbrev pub missing_process : ProcessTelemetry → List MissingEvidenceV1
missing_process p =
    if text_beq p.name []
    then record {
      name = text "process_snapshot";
      reason = text "process exited or became inaccessible during capture";
    }
      ∷ []
    else []

abbrev pub sleep_finding : ℕ → ProcessTelemetry → List FindingV1
unfolding decimal_signed
sleep_finding pid p =
    if text_beq p.state (text "D")
    then record {
      id = text "process_uninterruptible_sleep";
      severity = text "warning";
      summary = text "process " ++ (decimal_signed pid ++ text " is in uninterruptible sleep");
      evidence_refs = process_snapshot;
    }
      ∷ []
    else []

abbrev pub fault_finding : ℕ → ProcessTelemetry → List FindingV1
unfolding decimal decimal_signed
fault_finding pid p =
    if ltb 0 p.majflt
    then record {
      id = text "major_page_faults_observed";
      severity = text "info";
      summary =
          text "process "
          ++ (decimal_signed pid
              ++ (text " has " ++ (decimal p.majflt ++ text " major page faults")));
      evidence_refs = process_snapshot;
    }
      ∷ []
    else []

-- A parent's number that is positive as an `i32`.
abbrev pub parent_relationship : ℕ → ProcessTelemetry → List RelationshipV1
unfolding decimal_signed
parent_relationship pid p =
    if ltb 0 p.ppid && ltb p.ppid 2_147_483_648
    then record {
      from = text "pid:" ++ decimal_signed pid;
      to = text "pid:" ++ decimal_signed p.ppid;
      relationship = text "spawned_by";
    }
      ∷ []
    else []

-- The capabilities that are not supported.
unfoldable pub missing_capabilities : List CapabilityRecordV1 → List MissingEvidenceV1
missing_capabilities [] = []
missing_capabilities (c ∷ cs) =
    let rest = missing_capabilities cs in
    if text_beq c.state (text "supported")
    then rest
    else record { name = c.name; reason = text "capability is " ++ c.state } ∷ rest
