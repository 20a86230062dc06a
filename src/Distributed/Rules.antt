-- ===== src/Distributed/Rules.antt =====
-- src/distributed.rs: `ProcessAlertRule`, `ProcessAlertEngine` and `DistributedTelemetryConfig`. Which
-- texts are URLs is decided by a parser that stands outside the program, a parameter here.
pub mod Evaluation
use system_pilot.Alert.{ProcessAlert}
use system_pilot.Base.Map.{Map}
use system_pilot.Base.Strings.{is_blank, starts_with}
use system_pilot.Base.{
  ℕ, Bool, true, false, ◌||◌, ◌&&◌, not, List, [], ◌∷◌, Option, none, some, Text, text_beq, text_eq,
  contains, if◌then◌else◌,
}
use system_pilot.Credentials.{CredentialRef}
use system_pilot.Distributed.Envelope.{ExportPolicy, validate_policy}
use system_pilot.Distributed.Redaction.{RedactionPolicy}
use system_pilot.Error.{AppError, AppResult, ok, err, ◌>>=◌, ◌>>◌}

pub data ProcessNameMatch : Type 0 where
  exact prefix : ProcessNameMatch

pub record ProcessAlertRule : Type 0 where
  pub id : Text
  pub process_name : Text
  pub match_type : ProcessNameMatch
  pub enabled : Bool
  pub labels : Map Text Text

-- `ProcessAlertRule::validate`.
unfoldable pub validate_rule : ProcessAlertRule → AppResult (Unit {0})
validate_rule r =
    if is_blank r.id || is_blank r.process_name then err AppError.validation else ok tt

abbrev pub name_matches : ProcessNameMatch → Text → Text → Bool
name_matches ProcessNameMatch.exact pattern name = text_beq name pattern
name_matches ProcessNameMatch.prefix pattern name = starts_with name pattern

-- `ProcessAlertRule::matches`.
unfoldable pub rule_matches : ProcessAlertRule → Text → Bool
rule_matches r name = r.enabled && name_matches r.match_type r.process_name name

pub record ProcessAlertEngine : Type 0 where
  pub rules : List ProcessAlertRule

-- The loop of `ProcessAlertEngine::new`, with the IDs that it has met.
unfoldable pub check_rules : List Text → List ProcessAlertRule → AppResult (Unit {0})
check_rules ids [] = ok tt
check_rules ids (r ∷ rs) = do
  validate_rule r
  if contains r.id ids then err AppError.validation else check_rules (r.id ∷ ids) rs

-- `ProcessAlertEngine::new`.
unfoldable pub engine : List ProcessAlertRule → AppResult ProcessAlertEngine
engine rules = do check_rules [] rules; ok (record { rules = rules })

-- A process event as `evaluate` gets it.
pub record ProcessEvent : Type 0 where
  pub name : Text
  pub pid : ℕ
  pub ppid : ℕ
  pub event_type : Text
  pub observed_at_unix_nanos : ℕ

abbrev pub alert_of : ProcessEvent → ProcessAlertRule → ProcessAlert
alert_of e r = record {
  instance_id = [];
  state = [];
  previous_state = none;
  rule_id = r.id;
  process_name = e.name;
  pid = e.pid;
  ppid = e.ppid;
  event_type = e.event_type;
  observed_at_unix_nanos = e.observed_at_unix_nanos;
  labels = r.labels;
}

unfoldable pub alerts_of : ProcessEvent → List ProcessAlertRule → List ProcessAlert
alerts_of e [] = []
alerts_of e (r ∷ rs) =
    if rule_matches r e.name then alert_of e r ∷ alerts_of e rs else alerts_of e rs

-- `ProcessAlertEngine::evaluate`.
unfoldable pub evaluate : ProcessAlertEngine → ProcessEvent → List ProcessAlert
evaluate engine e = alerts_of e engine.rules

pub record DistributedTelemetryConfig : Type 0 where
  pub enabled : Bool
  pub endpoint : Text
  pub node_id : Text
  pub bearer_token : Text
  pub bearer_credential : CredentialRef
  pub attributes : Map Text Text
  pub export_policy : ExportPolicy
  pub process_alert_rules : List ProcessAlertRule
  pub redaction : RedactionPolicy

module _ (is_url : Text → Bool) where
  abbrev pub check_endpoint : DistributedTelemetryConfig → AppResult (Unit {0})
  check_endpoint c =
      if is_blank c.endpoint || is_blank c.node_id
      then err AppError.validation
      else if is_url c.endpoint
      then ok tt
      else err AppError.validation

  -- `DistributedTelemetryConfig::validate`.
  unfoldable pub validate_config : DistributedTelemetryConfig → AppResult (Unit {0})
  validate_config c = do
    validate_policy c.export_policy
    engine c.process_alert_rules
    if c.enabled then check_endpoint c else ok tt
