-- ===== src/Configuration/Migration.antt =====
-- src/config_migration.rs: the migration of the configuration file to the current schema, and the rollback.
-- serde_json's parser and printer, the process's number and the outcomes of the calls are arguments.
pub mod Secret
pub mod Upgrade
pub mod Load
pub mod Whole
pub mod Rollback
use system_pilot.Configuration.Backup.{
  BackupCalls, pre_v1_backup, pre_v2_backup, pre_rollback_backup, secure_parent, immutable_backup,
  read, atomic_write,
}
use system_pilot.Configuration.Secrets.{replace_model, migrate_secret, migrate_within}
use system_pilot.Json
use system_pilot.Base.Map.{lookup, insert}
use system_pilot.Base.Texts.{text}
use system_pilot.Base.{
  ℕ, Bool, true, false, ◌&&◌, ◌||◌, not, List, [], ◌∷◌, ◌++◌, Option, none, some, Text, text_beq,
  text_eq, ◌==◌, contains, nat_eq, if◌then◌else◌,
}
use system_pilot.Disk.{
  Content, utf8, other, content_beq, File, Files, WriteCalls, Action, clean, create_new, join,
  owned, done, fail, check, replace_file, ◌>>=◌, ◌>>◌,
}
use system_pilot.Error.{AppError, AppResult, ok, err}
use system_pilot.Base.{leb}
use system_pilot.Base.Map.{contains_key}
use system_pilot.Json.{Value, Fields, number, object, get, as_object, as_u64}

abbrev pub current_config_schema_version : ℕ
current_config_schema_version = 2

-- The outcomes of the calls of a migration.
pub record MigrationCalls : Type 0 where
  pub is_read : Bool
  pub is_secured : Bool
  pub v1 : BackupCalls
  pub v2 : BackupCalls
  pub gemini : WriteCalls
  pub syspilot : WriteCalls
  pub telemetry : WriteCalls
  pub fleet : WriteCalls
  pub write : WriteCalls

abbrev pub object_of : Option Fields → Action Fields
object_of none = fail AppError.validation
object_of (some o) = done o

-- The version, where it is absent, and where it is something else than an unsigned integer.
abbrev pub unsigned_version : Option ℕ → Action ℕ
unsigned_version none = fail AppError.validation
unsigned_version (some n) = done n

unfoldable pub version_of : Option Value → Action ℕ
unfolding as_u64
version_of none = done 0
version_of (some v) = unsigned_version (as_u64 v)

-- `String::from_utf8`.
abbrev pub from_utf8 : Content → Action Text
from_utf8 (utf8 t) = done t
from_utf8 (other bytes) = fail AppError.validation

module _ (pid : Text) where
  -- The four secrets, and the schema's version.
  unfoldable pub migrate_object : Text → Fields → MigrationCalls → Action Fields
  unfolding migrate_secret migrate_within Json.insert get contains
  migrate_object directory o calls =
      let credentials = join directory (text "credentials") in
      do
        o₁ ←
            migrate_secret pid (text "gemini_credential") credentials (text "gemini-api-key")
              calls.gemini (text "gemini_api_key") (replace_model o)
        o₂ ←
            migrate_secret pid (text "syspilot_credential") credentials (text "syspilot-api-key")
              calls.syspilot (text "syspilot_api_key") o₁
        o₃ ←
            migrate_within pid (text "bearer_credential") credentials (text "telemetry-token")
              calls.telemetry (text "distributed_telemetry") (text "bearer_token") o₂
        o₄ ←
            migrate_within pid (text "credential_ref") credentials (text "fleet-token") calls.fleet
              (text "fleet") (text "credential") o₃
        done (Json.insert (text "schema_version") (number (text "2")) o₄)

module _ (parse : Text → Option Value) (print : Value → Option Text) where
  abbrev pub parsed : Option Value → Action Value
  parsed none = fail AppError.config_parse
  parsed (some v) = done v

  -- `from_slice`: bytes that are not UTF-8 are no JSON.
  abbrev pub from_slice : Content → Action Value
  from_slice (utf8 t) = parsed (parse t)
  from_slice (other bytes) = fail AppError.config_parse

  abbrev pub printed : Option Text → Action Text
  printed none = fail AppError.protocol
  printed (some t) = done t

  module _ (pid : Text) where
    unfoldable pub upgrade :
        Text → Option Text → Content → ℕ → Fields → MigrationCalls → Action Text
    unfolding migrate_object immutable_backup atomic_write
    upgrade path parent original version o calls = do
      directory ← secure_parent parent calls.is_secured
      (if version == 0
          then immutable_backup (join directory pre_v1_backup) original calls.v1
          else done tt)
      immutable_backup (join directory pre_v2_backup) original calls.v2
      migrated ← migrate_object pid directory o calls
      t ← printed (print (object migrated))
      atomic_write pid path parent (utf8 t) calls.write
      done t

    unfoldable pub migrate_version :
        Text → Option Text → Content → ℕ → Fields → MigrationCalls → Action Text
    unfolding upgrade
    migrate_version path parent original version o calls =
        if version == current_config_schema_version
        then from_utf8 original
        else if leb version 1
        then upgrade path parent original version o calls
        else fail AppError.validation

    -- `load_and_migrate`.
    unfoldable pub load_and_migrate : Text → Option Text → MigrationCalls → Action Text
    unfolding read upgrade
    load_and_migrate path parent calls = do
      original ← read path calls.is_read
      v ← from_slice original
      o ← object_of (as_object v)
      version ← version_of (get (text "schema_version") o)
      migrate_version path parent original version o calls

-- The outcomes of the calls of a rollback.
pub record RollbackCalls : Type 0 where
  pub is_secured : Bool
  pub is_read : Bool
  pub is_current_read : Bool
  pub current : BackupCalls
  pub write : WriteCalls

module _ (pid : Text) where
  -- The file that a rollback restores.
  unfoldable pub chosen_backup : Text → Action Text
  unfolding contains_key
  chosen_backup directory fs = (
    fs,
    ok (
        if contains_key (join directory pre_v2_backup) fs
        then join directory pre_v2_backup
        else join directory pre_v1_backup),
  )

  -- The file that is replaced is kept as a backup.
  unfoldable pub keep_current : Text → Text → RollbackCalls → Action (Unit {0})
  unfolding contains_key read immutable_backup
  keep_current path directory calls fs =
      (if contains_key path fs
          then (do
            current ← read path calls.is_current_read
            immutable_backup (join directory pre_rollback_backup) current calls.current)
          else done tt)
        fs

  -- `rollback`.
  unfoldable pub rollback : Text → Option Text → RollbackCalls → Action Text
  unfolding read atomic_write immutable_backup contains_key
  rollback path parent calls = do
    directory ← secure_parent parent calls.is_secured
    backup ← chosen_backup directory
    previous ← read backup calls.is_read
    keep_current path directory calls
    atomic_write pid path parent previous calls.write
    done backup
