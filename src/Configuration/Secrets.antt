-- ===== src/Configuration/Secrets.antt =====
-- src/config_migration.rs: the secrets and the model of an older configuration, in its JSON object.
pub mod Moved
use system_pilot.Json
use system_pilot.Base.Map.{lookup, insert}
use system_pilot.Base.Texts.{text}
use system_pilot.Base.{
  ℕ, Bool, true, false, ◌&&◌, ◌||◌, not, List, [], ◌∷◌, ◌++◌, Option, none, some, Text, text_beq,
  text_eq, ◌==◌, contains, nat_eq, if◌then◌else◌,
}
use system_pilot.Disk.{
  Content, utf8, other, content_beq, File, Files, WriteCalls, Action, clean, create_new, join,
  owned, done, fail, check, replace_file, ◌>>=◌, ◌>>◌,
}
use system_pilot.Error.{AppError, AppResult, ok, err}
use system_pilot.Credentials.{CredentialRef, store_owner_secret}
use system_pilot.Json.{
  Value, Fields, string, object, no_fields, field, get, remove, as_str, as_object,
}

-- `Value::as_str` and the test for the old models.
unfoldable pub is_old_model : Option Text → Bool
unfolding contains
is_old_model none = false
is_old_model (some m) =
    text_beq m []
    || (text_beq m (text "gemini")
        || (text_beq m (text "gemini-2.0-flash")
            || (not (contains b'/' m) && not (contains b'-' m))))

abbrev pub text_of : Option Value → Option Text
text_of none = none
text_of (some v) = as_str v

abbrev pub fields_of : Option Value → Option Fields
fields_of none = none
fields_of (some v) = as_object v

unfoldable pub replace_model : Fields → Fields
unfolding get insert contains
replace_model o =
    if is_old_model (text_of (get (text "gemini_model") o))
    then Json.insert (text "gemini_model") (string (text "gemini-3.6-flash")) o
    else o

-- `serde_json::to_value` of a reference: the tag `source` and the fields, in key order.
abbrev pub reference_value : CredentialRef → Value
reference_value CredentialRef.none = object (field (text "source") (string (text "none")) no_fields)
reference_value (CredentialRef.environment variable) = object (
    field (text "source") (string (text "environment"))
      (field (text "variable") (string variable) no_fields))
reference_value (CredentialRef.file path) =
    object
      (field (text "path") (string path) (field (text "source") (string (text "file")) no_fields))
reference_value (CredentialRef.systemd name) =
    object (
      field (text "name") (string name) (field (text "source") (string (text "systemd")) no_fields))

-- The secret in a value that stood under an old key.
module _ (pid reference_key directory filename : Text) (calls : WriteCalls) where
  unfoldable pub move_secret : Option Text → Fields → Action Fields
  unfolding Json.insert store_owner_secret
  move_secret none o = fail AppError.validation
  move_secret (some []) o = done (Json.insert reference_key (reference_value CredentialRef.none) o)
  move_secret (some (c ∷ secret)) o = do
    reference ← store_owner_secret pid directory filename (c ∷ secret) calls
    done (Json.insert reference_key (reference_value reference) o)

  unfoldable pub move_value : Text → Option Value → Fields → Action Fields
  unfolding remove
  move_value old_key none o = done o
  move_value old_key (some v) o = move_secret (as_str v) (remove old_key o)

  -- `migrate_secret`.
  unfoldable pub migrate_secret : Text → Fields → Action Fields
  unfolding get
  migrate_secret old_key o = move_value old_key (get old_key o) o

  -- `get_mut` of an object within, whose secret is migrated.
  unfoldable pub migrate_inner : Text → Text → Option Fields → Fields → Action Fields
  unfolding Json.insert migrate_secret
  migrate_inner key old_key none o = done o
  migrate_inner key old_key (some inner) o = do
    migrated ← migrate_secret old_key inner
    done (Json.insert key (object migrated) o)

  unfoldable pub migrate_within : Text → Text → Fields → Action Fields
  unfolding get
  migrate_within key old_key o = migrate_inner key old_key (fields_of (get key o)) o
