-- ===== src/Alert.antt =====
-- src/alert.rs: the persistent life cycle of alerts. The write of the state file may fail, which an
-- argument of each operation decides; the file keeps what was last committed to it.
pub mod Lifecycle
pub mod Persistence
pub mod Status
use system_pilot.Base.Map.{Map, lookup}
use system_pilot.Base.OrderedMap.{insert_ordered}
use system_pilot.Base.Texts.{text, decimal, decimal_signed}
use system_pilot.Base.{
  ℕ, ◌+◌, ◌-◌, ◌^◌, Bool, true, false, not, ◌&&◌, ◌||◌, List, [], ◌∷◌, ◌++◌, map, Option, none,
  some, Text, text_beq, text_eq, is_some, map_some, ltb, ◌==◌, if◌then◌else◌,
}
use system_pilot.Error.{AppError, AppResult, ok, err}

abbrev pub alert_state_schema_version : ℕ
alert_state_schema_version = 1

pub data AlertStatus : Type 0 where
  firing acknowledged resolved suppressed : AlertStatus

abbrev pub status_beq : AlertStatus → AlertStatus → Bool
status_beq AlertStatus.firing AlertStatus.firing = true
status_beq AlertStatus.acknowledged AlertStatus.acknowledged = true
status_beq AlertStatus.resolved AlertStatus.resolved = true
status_beq AlertStatus.suppressed AlertStatus.suppressed = true
status_beq _ _ = false

-- `format!("{:?}", status).to_lowercase()`.
unfoldable pub status_name : AlertStatus → Text
status_name AlertStatus.firing = text "firing"
status_name AlertStatus.acknowledged = text "acknowledged"
status_name AlertStatus.resolved = text "resolved"
status_name AlertStatus.suppressed = text "suppressed"

pub record AlertRecord : Type 0 where
  pub instance_id : Text
  pub rule_id : Text
  pub process_name : Text
  pub status : AlertStatus
  pub first_observed_at_unix_nanos : ℕ
  pub last_observed_at_unix_nanos : ℕ
  pub transition_count : ℕ
  pub detail : Text

-- `ProcessAlert` of src/distributed.rs.
pub record ProcessAlert : Type 0 where
  pub instance_id : Text
  pub state : Text
  pub previous_state : Option Text
  pub rule_id : Text
  pub process_name : Text
  pub pid : ℕ
  pub ppid : ℕ
  pub event_type : Text
  pub observed_at_unix_nanos : ℕ
  pub labels : Map Text Text

abbrev pub Records : Type 0
Records = Map Text AlertRecord

pub record AlertState : Type 0 where
  pub schema_version : ℕ
  pub records : Records

-- What stands at the path: nothing, something that cannot be read or decoded, or a state.
pub data StateFile : Type 0 where
  missing unreadable malformed : StateFile
  holds : AlertState → StateFile

pub record AlertStore : Type 0 where
  pub file : StateFile
  pub state : AlertState
  pub open state use *

abbrev pub checked_version : StateFile → AlertState → AppResult AlertStore
checked_version file state =
    if state.schema_version == alert_state_schema_version
    then ok (record { file = file; state = state })
    else err AppError.protocol

-- `AlertStore::open`.
unfoldable pub open_store : StateFile → AppResult AlertStore
open_store (StateFile.holds state) = checked_version (StateFile.holds state) state
open_store StateFile.missing =
    checked_version StateFile.missing
      (record { schema_version = alert_state_schema_version; records = [] })
open_store StateFile.malformed = err AppError.protocol
open_store StateFile.unreadable = err AppError.io

-- How the write of a state ends: it is committed by the rename, or fails before.
pub data Write : Type 0 where
  committed : Write
  failed : AppError → Write

-- `persist` and what follows it.
unfoldable pub persist {ℓ} : {A : Type ℓ} → Write → AlertStore → A → AlertStore × AppResult A
persist Write.committed s result = (record s { file = StateFile.holds s.state }, ok result)
persist (Write.failed e) s result = (s, err e)

-- `AlertStore::key`.
unfoldable pub key : Text → Text → Text
key rule_id process_name = rule_id ++ (b':' ∷ process_name)

unfoldable pub desired_status : Text → AlertStatus
desired_status event_type =
    if text_beq event_type (text "EXIT") then AlertStatus.resolved else AlertStatus.firing

-- The early returns of `apply`.
abbrev pub is_held : AlertStatus → Option AlertRecord → Bool
is_held desired none = false
is_held desired (some r) =
    status_beq r.status AlertStatus.suppressed
    || (status_beq r.status AlertStatus.acknowledged && status_beq desired AlertStatus.firing)

abbrev pub is_same : AlertStatus → Option AlertRecord → Bool
is_same desired none = false
is_same desired (some r) = status_beq r.status desired

abbrev pub is_unknown_exit : AlertStatus → Option AlertRecord → Bool
is_unknown_exit desired existing = status_beq desired AlertStatus.resolved && not (is_some existing)

abbrev pub is_ignored : AlertStatus → Option AlertRecord → Bool
is_ignored desired existing =
    is_held desired existing || (is_same desired existing || is_unknown_exit desired existing)

-- `saturating_add(1)` on a `u64`.
abbrev pub saturating_suc : ℕ → ℕ
saturating_suc n = if ltb n (2 ^ 64 - 1) then n + 1 else 2 ^ 64 - 1

abbrev pub instance_of : ProcessAlert → Option AlertRecord → Text
instance_of alert none = alert.rule_id ++ (b'-' ∷ decimal alert.observed_at_unix_nanos)
instance_of alert (some r) = r.instance_id

abbrev pub first_observed : ProcessAlert → Option AlertRecord → ℕ
first_observed alert none = alert.observed_at_unix_nanos
first_observed alert (some r) = r.first_observed_at_unix_nanos

abbrev pub transitions : Option AlertRecord → ℕ
transitions none = 1
transitions (some r) = saturating_suc r.transition_count

unfoldable pub detail_of : ProcessAlert → Text
detail_of alert =
    alert.event_type
    ++ (text " pid=" ++ (decimal_signed alert.pid ++ (text " ppid=" ++ decimal_signed alert.ppid)))

-- The record that `apply` inserts.
abbrev pub next_record : ProcessAlert → AlertStatus → Option AlertRecord → AlertRecord
next_record alert desired existing = record {
  instance_id = instance_of alert existing;
  rule_id = alert.rule_id;
  process_name = alert.process_name;
  status = desired;
  first_observed_at_unix_nanos = first_observed alert existing;
  last_observed_at_unix_nanos = alert.observed_at_unix_nanos;
  transition_count = transitions existing;
  detail = detail_of alert;
}

-- The alert that `apply` returns.
abbrev pub announced : ProcessAlert → AlertStatus → Option AlertRecord → ProcessAlert
announced alert desired existing = record alert {
  instance_id = instance_of alert existing;
  state = status_name desired;
  previous_state = map_some (λ r. status_name r.status) existing;
}

abbrev pub put : Text → AlertRecord → AlertStore → AlertStore
put k r s = record s { state = record (s.state) { records = insert_ordered k r s.records } }

abbrev pub apply_to :
    AlertStore
    → ProcessAlert
    → Write
    → AlertStatus
    → Option AlertRecord
    → AlertStore × AppResult (Option ProcessAlert)
apply_to s alert write desired existing =
    if is_ignored desired existing
    then (s, ok none)
    else persist write
        (put (key alert.rule_id alert.process_name) (next_record alert desired existing) s)
        (some (announced alert desired existing))

-- `AlertStore::apply`.
unfoldable pub apply :
    AlertStore → ProcessAlert → Write → AlertStore × AppResult (Option ProcessAlert)
apply s alert write =
    apply_to s alert write (desired_status alert.event_type)
      (lookup (key alert.rule_id alert.process_name) s.records)

-- `records.values_mut().find(…)`: the first record, in key order, with this instance.
unfoldable pub find_instance : Text → Records → Option (Text × AlertRecord)
find_instance id [] = none
find_instance id ((k, r) ∷ m) =
    if text_beq r.instance_id id then some (k, r) else find_instance id m

abbrev pub updated : AlertRecord → AlertStatus → Text → ℕ → AlertRecord
updated r status detail observed_at = record r {
  status = status;
  last_observed_at_unix_nanos = observed_at;
  transition_count = saturating_suc r.transition_count;
  detail = detail;
}

abbrev pub set_found :
    AlertStore
    → AlertStatus
    → Text
    → ℕ
    → Write
    → Option (Text × AlertRecord)
    → AlertStore × AppResult AlertRecord
set_found s status detail observed_at write none = (s, err AppError.validation)
set_found s status detail observed_at write (some (k, r)) =
    if status_beq r.status AlertStatus.resolved && status_beq status AlertStatus.acknowledged
    then (s, err AppError.validation)
    else persist write (put k (updated r status detail observed_at) s)
        (updated r status detail observed_at)

-- `AlertStore::set_status`; the record is updated where it stands, under its key.
unfoldable pub set_status :
    AlertStore → Text → AlertStatus → Text → ℕ → Write → AlertStore × AppResult AlertRecord
set_status s id status detail observed_at write =
    set_found s status detail observed_at write (find_instance id s.records)

-- `AlertStore::list`.
unfoldable pub list : AlertStore → List AlertRecord
list s = map (λ x. x.1) s.records
