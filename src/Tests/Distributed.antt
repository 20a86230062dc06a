-- ===== src/Tests/Distributed.antt =====
-- Redaction, policies and acknowledgements at concrete values, for src/distributed.rs.
use system_pilot.Base.Strings.{
  to_ascii_lowercase, starts_with, ends_with, split_whitespace, trim_matches, rsplit_once, is_u16,
  is_blank,
}
use system_pilot.Base.Texts.{text}
use system_pilot.Base.{
  ◌≡◌, ◌↔◌, refl, Bool, true, List, [], ◌∷◌, some, Text, text_beq, text_eq, contains,
}
use system_pilot.Distributed.Acknowledgement.{
  IngestionAcknowledgement, accepted_records, check_accepted, check_rejected, check_highest,
  check_delay, check_decided, max_sequence, validate_acknowledgement,
}
use system_pilot.Distributed.Envelope.{
  TelemetryKind, TelemetryEnvelope, default_export_policy, validate_policy,
}
use system_pilot.Distributed.Redaction.Paths.{HidesPaths, redact-HidesPaths}
use system_pilot.Distributed.Redaction.{
  default_policy, redact_value, redact_fields, redact_values, redacted, is_exposed, contains_path,
  contains_ip, any_word, is_trimmed, is_one_of, sensitive_key,
}
use system_pilot.Json.{Value, null, string, object, no_fields, field}
use system_pilot.Credentials.{CredentialRef}
use system_pilot.Distributed.Distinct.{IsDistinct}
use system_pilot.Distributed.Rules.Evaluation.{evaluate_exactly, Fires, ids_of_alerts}
use system_pilot.Distributed.Rules.{
  DistributedTelemetryConfig, ProcessAlertEngine, ProcessAlertRule, ProcessEvent, ProcessNameMatch,
  check_rules, engine, evaluate, validate_rule,
}
use system_pilot.Error.{AppError, ok, err}

-- A parser that knows one address.
abbrev one_address : Text → Bool
one_address t = text_beq t (text "10.0.0.1")

abbrev login : Value
login = object (
    field (text "User") (string (text "root")) (
      field (text "note") (string (text "reached 10.0.0.1:22, fine"))
        (field (text "kind") (string (text "login")) no_fields)))

abbrev login_hidden : Value
login_hidden = object (
    field (text "User") (string redacted) (
      field (text "note") (string redacted)
        (field (text "kind") (string (text "login")) no_fields)))

redacts_login : redact_value one_address default_policy login ≡ login_hidden
unfolding redact_value redact_fields redact_values is_exposed contains_path contains_ip any_word
    is_trimmed is_one_of sensitive_key to_ascii_lowercase starts_with ends_with split_whitespace
    trim_matches rsplit_once is_u16
redacts_login = refl

redact-HidesPaths_example : HidesPaths (redact_value one_address default_policy login)
redact-HidesPaths_example = redact-HidesPaths one_address default_policy refl login

-- A batch of zero messages is refused.
refuses_empty_batches :
    validate_policy (record default_export_policy { batch_size = 0 }) ≡ err AppError.validation
unfolding validate_policy
refuses_empty_batches = refl

abbrev message : Text → TelemetryEnvelope
message id = record {
  schema_version = 1;
  message_id = id;
  node_id = text "n";
  sequence = 5;
  observed_at_unix_nanos = 9;
  kind = TelemetryKind.health;
  payload = null;
  attributes = [];
}

abbrev half : IngestionAcknowledgement
half = record {
  accepted_message_ids = text "a" ∷ [];
  highest_accepted_sequence = some 5;
  rejected_records = record { message_id = text "b"; reason = text "late" } ∷ [];
  retry_after_ms = some 10;
}

accepts_half : validate_acknowledgement half (message (text "a") ∷ message (text "b") ∷ []) ≡ ok tt
unfolding validate_acknowledgement check_accepted check_rejected check_highest check_delay
    check_decided accepted_records max_sequence contains is_blank
accepts_half = refl

abbrev rule_on : Text → Text → ProcessNameMatch → ProcessAlertRule
rule_on id name match_type = record {
  id = id;
  process_name = name;
  match_type = match_type;
  enabled = true;
  labels = [];
}

abbrev two_rules : List ProcessAlertRule
two_rules =
    rule_on (text "shell") (text "ba") ProcessNameMatch.prefix
    ∷ (rule_on (text "vim") (text "vim") ProcessNameMatch.exact ∷ [])

abbrev two_rules_engine : ProcessAlertEngine
two_rules_engine = record { rules = two_rules }

accepts_two_rules : engine two_rules ≡ ok two_rules_engine
unfolding engine check_rules validate_rule contains is_blank
accepts_two_rules = refl

abbrev bash_runs : ProcessEvent
bash_runs = record {
  name = text "bash";
  pid = 7;
  ppid = 1;
  event_type = text "EXEC";
  observed_at_unix_nanos = 9;
}

evaluate_exactly_example :
    IsDistinct (ids_of_alerts (evaluate two_rules_engine bash_runs))
    × ((id : Text)
        → (contains id (ids_of_alerts (evaluate two_rules_engine bash_runs)) ≡ true)
          ↔ Fires id (text "bash") two_rules)
evaluate_exactly_example = evaluate_exactly two_rules two_rules_engine bash_runs accepts_two_rules

abbrev config : DistributedTelemetryConfig
config = record {
  enabled = true;
  endpoint = text "http://c";
  node_id = text "n";
  bearer_token = [];
  bearer_credential = CredentialRef.none;
  attributes = [];
  export_policy = default_export_policy;
  process_alert_rules = two_rules;
  redaction = default_policy;
}

-- A parser that knows one URL.
abbrev one_url : Text → Bool
one_url t = text_beq t (text "http://c")
