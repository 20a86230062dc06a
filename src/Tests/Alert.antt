-- ===== src/Tests/Alert.antt =====
-- The life of one alert, with a write that fails, for src/alert.rs.
use system_pilot.Alert.Lifecycle.{
  Replaced, Continues, alert_key, status_at, ◌⟶◌, apply_follows_lifecycle,
}
use system_pilot.Alert.Persistence.{colliding_alert_ignored, failed_write_swallows}
use system_pilot.Alert.{
  AlertStatus, AlertRecord, AlertStore, ProcessAlert, StateFile, Write, apply, desired_status,
  find_instance, key, persist, set_status,
}
use system_pilot.Base.Map.{lookup}
use system_pilot.Base.OrderedMap.{insert_ordered}
use system_pilot.Base.Texts.{text, decimal, decimal_signed}
use system_pilot.Base.{◌≡◌, ◌≢◌, ◌⊎◌, refl, [], ◌∷◌, none, some, Text, text_eq, arith}
use system_pilot.Error.{AppError, ok, err}

abbrev fresh : AlertStore
fresh = record { file = StateFile.missing; state = record { schema_version = 1; records = [] } }

abbrev alert_on : Text → Text → Text → ProcessAlert
alert_on rule name event = record {
  instance_id = [];
  state = text "firing";
  previous_state = none;
  rule_id = rule;
  process_name = name;
  pid = 7;
  ppid = 1;
  event_type = event;
  observed_at_unix_nanos = 42;
  labels = [];
}

abbrev started : ProcessAlert
started = alert_on (text "shell") (text "bash") (text "EXEC")

-- A new alert fires.
announces_first : (apply fresh started Write.committed).1 ≢ ok none
unfolding apply persist desired_status key lookup insert_ordered decimal decimal_signed
announces_first = λ h. ground arith

apply_follows_lifecycle_example :
    (apply fresh started Write.committed ≡ (fresh, ok none))
    ⊎ ((r : AlertRecord) × Replaced
          (alert_key started)
          r
          fresh
          (apply fresh started Write.committed).0
        × (status_at (alert_key started) fresh ⟶ r.status)
        × (r.status ≡ desired_status started.event_type)
        × ((old : AlertRecord)
            → lookup (alert_key started) fresh.records ≡ some old
            → Continues old r))
apply_follows_lifecycle_example = apply_follows_lifecycle fresh started Write.committed

failed_write_swallows_example :
    let (s', result) = apply fresh started (Write.failed AppError.io) in
    (result ≡ err AppError.io)
    × (s'.file ≡ StateFile.missing)
    × (apply s' started Write.committed ≡ (s', ok none))
failed_write_swallows_example =
    failed_write_swallows fresh started AppError.io Write.committed announces_first

abbrev one_way : ProcessAlert
one_way = alert_on (text "a:b") (text "c") (text "EXEC")

abbrev other_way : ProcessAlert
other_way = alert_on (text "a") (text "b:c") (text "EXEC")

colliding_alert_ignored_example :
    apply (apply fresh one_way Write.committed).0 other_way Write.committed
    ≡ ((apply fresh one_way Write.committed).0, ok none)
colliding_alert_ignored_example =
    colliding_alert_ignored fresh one_way other_way Write.committed Write.committed (text "a")
      (text "b") (text "c") refl refl refl refl refl

abbrev known : AlertRecord
known = record {
  instance_id = text "shell-42";
  rule_id = text "shell";
  process_name = text "bash";
  status = AlertStatus.resolved;
  first_observed_at_unix_nanos = 42;
  last_observed_at_unix_nanos = 50;
  transition_count = 2;
  detail = text "EXIT";
}

abbrev kept : AlertStore
kept = record fresh {
  state = record { schema_version = 1; records = (text "shell:bash", known) ∷ [] };
}

-- A resolved alert cannot be acknowledged.
refuses_acknowledgement :
    set_status kept (text "shell-42") AlertStatus.acknowledged (text "seen") 60 Write.committed
    ≡ (kept, err AppError.validation)
unfolding set_status find_instance
refuses_acknowledgement = refl
