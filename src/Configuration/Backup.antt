-- ===== src/Configuration/Backup.antt =====
-- src/config_migration.rs: the writes and the backups of the configuration file. The outcomes of the calls are
-- arguments; an immutable backup is created once and only compared from then on.
pub mod Immutable
pub mod Written
use system_pilot.Base.Map.{lookup, insert}
use system_pilot.Base.Texts.{text}
use system_pilot.Base.{
  ℕ, Bool, true, false, ◌&&◌, ◌||◌, not, List, [], ◌∷◌, ◌++◌, Option, none, some, Text, text_beq,
  text_eq, ◌==◌, contains, nat_eq, if◌then◌else◌,
}
use system_pilot.Disk.{
  Content, utf8, other, content_beq, File, Files, WriteCalls, Action, clean, create_new, join,
  owned, done, fail, check, replace_file, ◌>>=◌, ◌>>◌,
}
use system_pilot.Error.{AppError, AppResult, ok, err}

-- The names of the backups.
abbrev pub pre_v1_backup : Text
pre_v1_backup = text "config.pre-v1.json"

abbrev pub pre_v2_backup : Text
pre_v2_backup = text "config.pre-v2.json"

abbrev pub pre_rollback_backup : Text
pre_rollback_backup = text "config.pre-rollback-v2.json"

-- `secure_parent`, of what `Path::parent` gives.
abbrev pub secure_parent : Option Text → Bool → Action Text
secure_parent none is_secured = fail AppError.validation
secure_parent (some directory) is_secured = do check is_secured AppError.io; done directory

-- The outcomes of the calls of a backup: whether a file that is absent can be created, what a write that
-- fails has left, and whether a file that is there can be read.
pub record BackupCalls : Type 0 where
  pub is_created : Bool
  pub failed : Option Content
  pub is_read : Bool

abbrev pub write_backup : Text → Content → Option Content → Action (Unit {0})
write_backup path c none fs = (insert path (owned c) fs, ok tt)
write_backup path c (some left) fs = (insert path (owned left) fs, err AppError.io)

abbrev pub backup_over : Text → Content → BackupCalls → Option File → Action (Unit {0})
backup_over path c calls none = do
  check calls.is_created AppError.io
  write_backup path c calls.failed
backup_over path c calls (some existing) = do
  check calls.is_read AppError.io
  check (content_beq existing.content c) AppError.validation

-- `immutable_backup`.
unfoldable pub immutable_backup : Text → Content → BackupCalls → Action (Unit {0})
unfolding lookup insert
immutable_backup path c calls fs = backup_over path c calls (lookup path fs) fs

-- `fs::read` of a path.
abbrev pub content_of : Option File → Action Content
content_of none = fail AppError.io
content_of (some f) = done f.content

unfoldable pub read : Text → Bool → Action Content
unfolding lookup
read path is_read fs = (do check is_read AppError.io; content_of (lookup path fs)) fs

-- The calls of `atomic_write` after the file stands in its place, and before.
module _ (pid : Text) where
  -- `.config-migration-{pid}.tmp` in the directory.
  abbrev pub temporary_config : Text → Text
  temporary_config directory = join directory (text ".config-migration-" ++ (pid ++ text ".tmp"))

  -- `atomic_write`.
  unfoldable pub atomic_write : Text → Option Text → Content → WriteCalls → Action (Unit {0})
  unfolding replace_file
  atomic_write path parent bytes calls = do
    directory ← secure_parent parent calls.is_secured
    replace_file path (temporary_config directory) bytes calls
        (clean calls.is_cleaned (temporary_config directory))
    check calls.is_synced AppError.io
