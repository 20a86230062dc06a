-- ===== src/Evidence/Capture.antt =====
-- src/evidence.rs: `capture`. The telemetry, the clock and the files of the host are arguments.
use system_pilot.Base.Strings.{trim_matches, is_whitespace}
use system_pilot.Base.Texts.{text, decimal, hex}
use system_pilot.Base.{ℕ, List, [], ◌∷◌, ◌++◌, Option, none, some, Text, ◌==◌, if◌then◌else◌}
use system_pilot.Error.{AppError, AppResult, ok, err}
use system_pilot.Evidence.{
  EvidenceBundleV1, FindingV1, KernelCapabilities, ProcessTelemetry, RelationshipV1,
  MissingEvidenceV1, bundle_version_name, evidence_schema_version, capability_records,
  fault_finding, missing_capabilities, missing_process, observation, parent_relationship,
  sleep_finding,
}
use system_pilot.Json.{Value}

-- What the host gives to a capture: the process's number by a name is 0 where there is none.
pub record Host : Type 0 where
  pub started : ℕ
  pub ended : ℕ
  pub kernel : KernelCapabilities
  pub system : Value
  pub find_pid_by_name : Text → ℕ
  pub collect_process_telemetry : ℕ → ProcessTelemetry
  pub id : ℕ
  pub counter : ℕ
  pub hostname : Option Text
  pub kernel_release : Option Text
  pub architecture : Text

-- `host_value`, of what the file holds.
unfoldable pub host_value : Option Text → Text
unfolding trim_matches is_whitespace
host_value none = text "unknown"
host_value (some t) = trim_matches is_whitespace t

-- `{:x}-{}-{}` of the time, the program's number and the count of cases.
unfoldable pub case_id : Host → Text
unfolding hex decimal
case_id h = hex h.ended ++ (b'-' ∷ (decimal h.id ++ (b'-' ∷ decimal h.counter)))

-- What a capture has found of a target.
pub record Found : Type 0 where
  pub observations : List Value
  pub findings : List FindingV1
  pub missing : List MissingEvidenceV1
  pub relationships : List RelationshipV1

unfoldable pub found_process : ℕ → ProcessTelemetry → Found
unfolding sleep_finding fault_finding parent_relationship
found_process pid p = record {
  observations = observation (text "process_snapshot") p.json ∷ [];
  findings = sleep_finding pid p ++ fault_finding pid p;
  missing = missing_process p;
  relationships = parent_relationship pid p;
}

unfoldable pub find_target : Host → Option Text → AppResult Found
unfolding found_process
find_target h none =
    ok (record { observations = []; findings = []; missing = []; relationships = [] })
find_target h (some target) =
    if h.find_pid_by_name target == 0
    then err AppError.validation
    else ok (
        found_process (h.find_pid_by_name target)
          (h.collect_process_telemetry (h.find_pid_by_name target)))

unfoldable pub bundle_of : Host → Found → EvidenceBundleV1
unfolding missing_capabilities host_value case_id
bundle_of h f = record {
  schema_version = evidence_schema_version;
  bundle_version = bundle_version_name;
  case_id = case_id h;
  time_range = record { started_at_unix_nanos = h.started; ended_at_unix_nanos = h.ended };
  node = record {
    hostname = host_value h.hostname;
    kernel_release = host_value h.kernel_release;
    architecture = h.architecture;
  };
  capabilities = capability_records h.kernel;
  observations = observation (text "system_snapshot") h.system ∷ f.observations;
  findings = f.findings;
  missing_evidence = f.missing ++ missing_capabilities (capability_records h.kernel);
  relationships = f.relationships;
  alert_references = [];
  fields_removed = [];
  ai_analysis = none;
}

unfoldable pub bundled : Host → AppResult Found → AppResult EvidenceBundleV1
unfolding bundle_of
bundled h (ok f) = ok (bundle_of h f)
bundled h (err e) = err e

-- `capture`.
unfoldable pub capture : Host → Option Text → AppResult EvidenceBundleV1
unfolding find_target bundled
capture h target = bundled h (find_target h target)
