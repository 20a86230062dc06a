-- ===== src/Tests/Configuration.antt =====
-- A configuration that is migrated, loaded again and rolled back.
use system_pilot.Base.Map.{lookup, insert, remove, contains_key}
use system_pilot.Base.Strings.{digits_value, contains_str, is_blank, is_whitespace, starts_with}
use system_pilot.Base.Texts.{text}
use system_pilot.Base.{◌≡◌, refl, true, [], ◌∷◌, Option, none, some, Text, text_eq, contains}
use system_pilot.Configuration.Backup.{
  BackupCalls, atomic_write, immutable_backup, read, pre_v2_backup,
}
use system_pilot.Configuration.Migration.{
  MigrationCalls, RollbackCalls, load_and_migrate, migrate_object, migrate_version, upgrade,
  version_of, rollback, chosen_backup, keep_current,
}
use system_pilot.Configuration.Backup.Immutable.{Has}
use system_pilot.Configuration.Migration.Load.{Loaded, HasVersion, load_and_migrate-Loaded}
use system_pilot.Configuration.Migration.Upgrade.{config_path}
use system_pilot.Configuration.Migration.Whole.{IsWhole, load_and_migrate-IsWhole}
use system_pilot.Configuration.Migration.Rollback.{rollback-load_and_migrate}
use system_pilot.Configuration.Secrets.{
  migrate_secret, migrate_within, move_secret, move_value, migrate_inner, replace_model,
  is_old_model,
}
use system_pilot.Credentials.{store_owner_secret, validate_name}
use system_pilot.Disk.{utf8, Files, WriteCalls, owned, join, replace_file}
use system_pilot.Error.{ok}
use system_pilot.Json
use system_pilot.Json.{
  Value, Fields, string, null, bool, array, number, object, no_fields, field, get, remove as delete,
  as_u64,
}

abbrev fine : WriteCalls
fine = record {
  is_secured = true;
  is_created = true;
  failed = none;
  is_cleaned = true;
  is_renamed = true;
  is_protected = true;
  is_synced = true;
}

abbrev kept : BackupCalls
kept = record { is_created = true; failed = none; is_read = true }

abbrev all_fine : MigrationCalls
all_fine = record {
  is_read = true;
  is_secured = true;
  v1 = kept;
  v2 = kept;
  gemini = fine;
  syspilot = fine;
  telemetry = fine;
  fleet = fine;
  write = fine;
}

-- An old configuration with two secrets, one of them in the fleet's section.
abbrev old_object : Fields
old_object =
    field (text "fleet") (object (field (text "credential") (string (text "f")) no_fields))
      (field (text "gemini_api_key") (string (text "g")) no_fields)

abbrev old_parse : Text → Option Value
old_parse t = some (object old_object)

abbrev new_print : Value → Option Text
new_print v = some (text "new")

abbrev directory : Text
directory = text "d"

abbrev old_files : Files
old_files = (config_path directory, owned (utf8 (text "old"))) ∷ []

migrated :
    (load_and_migrate old_parse new_print
      (text "7")
      (config_path directory)
      (some directory)
      all_fine
      old_files).1
    ≡ ok (text "new")
unfolding load_and_migrate read upgrade migrate_version version_of migrate_object migrate_secret
    migrate_within move_secret move_value migrate_inner replace_model is_old_model
    store_owner_secret validate_name replace_file atomic_write immutable_backup lookup insert remove
    contains_key contains contains_str is_blank is_whitespace starts_with get delete Json.insert
    as_u64 digits_value
migrated = refl

load_and_migrate-Loaded_example :
    Loaded old_parse new_print
      (text "7")
      directory
      all_fine
      old_files
      (text "new")
      (load_and_migrate old_parse new_print
        (text "7")
        (config_path directory)
        (some directory)
        all_fine
        old_files).0
load_and_migrate-Loaded_example =
    load_and_migrate-Loaded old_parse new_print (text "7") directory all_fine old_files (text "new")
      migrated

load_and_migrate-IsWhole_example :
    IsWhole new_print
      (config_path directory)
      (lookup (config_path directory) old_files)
      (load_and_migrate old_parse new_print
        (text "7")
        (config_path directory)
        (some directory)
        all_fine
        old_files).0
load_and_migrate-IsWhole_example =
    load_and_migrate-IsWhole old_parse new_print (text "7") directory all_fine old_files

abbrev back : RollbackCalls
back = record {
  is_secured = true;
  is_read = true;
  is_current_read = true;
  current = kept;
  write = fine;
}

rolled_back :
    (rollback
      (text "7")
      (config_path directory)
      (some directory)
      back
      (load_and_migrate old_parse new_print
        (text "7")
        (config_path directory)
        (some directory)
        all_fine
        old_files).0).1
    ≡ ok (join directory pre_v2_backup)
unfolding load_and_migrate read upgrade migrate_version version_of migrate_object migrate_secret
    migrate_within move_secret move_value migrate_inner replace_model is_old_model
    store_owner_secret validate_name replace_file atomic_write immutable_backup lookup insert remove
    contains_key contains contains_str is_blank is_whitespace starts_with get delete Json.insert
    as_u64 digits_value rollback chosen_backup keep_current
rolled_back = refl

old_found : Has (config_path directory) (utf8 (text "old")) old_files
unfolding lookup
old_found = (owned (utf8 (text "old")), refl, refl)

old_version : HasVersion old_parse (text "old") old_object 0
unfolding get
old_version = (refl, refl)

rollback-load_and_migrate_example :
    (join directory pre_v2_backup ≡ join directory pre_v2_backup)
    × Has
        (config_path directory)
        (utf8 (text "old"))
        (rollback
          (text "7")
          (config_path directory)
          (some directory)
          back
          (load_and_migrate old_parse new_print
            (text "7")
            (config_path directory)
            (some directory)
            all_fine
            old_files).0).0
rollback-load_and_migrate_example =
    rollback-load_and_migrate old_parse new_print (text "7") directory all_fine back old_files
      (text "new") (text "old") (join directory pre_v2_backup) old_object 0 old_found old_version
      refl migrated rolled_back
