-- ===== src/Credentials.antt =====
-- src/credentials.rs: references to secrets, reading what they name, and the store of secrets in files of the
-- owner. The files are those of Disk; environment variables and the outcomes of the calls are arguments.
pub mod Storing
pub mod Leftover
use system_pilot.Base.Map.{lookup}
use system_pilot.Base.Strings.{is_blank, trim_end_matches, contains_str}
use system_pilot.Base.Texts.{text}
use system_pilot.Base.{
  ℕ, Bool, true, false, ◌||◌, not, List, [], ◌∷◌, ◌++◌, Option, Text, text_beq, ◌==◌, ◌%◌, contains,
  nat_eq, text_eq, if◌then◌else◌,
}
use system_pilot.Disk.{
  Content, utf8, other, File, Files, WriteCalls, Action, join, done, fail, check, replace_file,
  ◌>>=◌, ◌>>◌,
}
use system_pilot.Error.{AppError, AppResult, ok, err}

pub data CredentialRef : Type 0 where
  none : CredentialRef
  environment file systemd : Text → CredentialRef

-- What a program's environment gives: the variables, `CREDENTIALS_DIRECTORY`, and whether the metadata and
-- the bytes of a file that is there can be read.
pub record Host : Type 0 where
  pub variable : Text → Option Text
  pub credentials_directory : Option Text
  pub is_stat : Text → Bool
  pub is_read : Text → Bool

-- `validate_name`.
unfoldable pub validate_name : Text → Action (Unit {0})
unfolding contains contains_str
validate_name name =
    if text_beq name [] || (contains b'/' name || contains_str (text "..") name)
    then fail AppError.validation
    else done tt

-- `read_to_string` of the bytes of a file.
abbrev pub to_string : Content → Action Text
to_string (utf8 t) = done t
to_string (other bytes) = fail AppError.io

-- No bit of `0o077` is set.
unfoldable pub is_owner_only : ℕ → Bool
is_owner_only mode = mode % 64 == 0

unfoldable pub read_found : Bool → Bool → Option File → Action Text
unfolding is_owner_only
read_found is_stat is_read Option.none = fail AppError.io
read_found is_stat is_read (Option.some found) = do
  check is_stat AppError.io
  check (is_owner_only found.mode) AppError.validation
  check is_read AppError.io
  to_string found.content

module _ (host : Host) where
  -- `read_owner_file`.
  unfoldable pub read_owner_file : Text → Action Text
  unfolding lookup is_owner_only
  read_owner_file path fs = read_found (host.is_stat path) (host.is_read path) (lookup path fs) fs

-- Carriage returns and newlines.
abbrev pub is_newline : ℕ → Bool
is_newline c = c == 13 || c == 10

-- The value without its last line's end, where something is left.
abbrev pub nonempty : Text → Action (Option Text)
nonempty [] = fail AppError.validation
nonempty (c ∷ t) = done (Option.some (c ∷ t))

unfoldable pub usable : Text → Action (Option Text)
unfolding trim_end_matches
usable value = nonempty (trim_end_matches is_newline value)

abbrev pub given : Option Text → Action Text
given Option.none = fail AppError.validation
given (Option.some t) = done t

module _ (host : Host) where
  -- `CredentialResolver::resolve`.
  unfoldable pub resolve : CredentialRef → Action (Option Text)
  unfolding usable read_owner_file validate_name
  resolve CredentialRef.none = done Option.none
  resolve (environment variable) = given (host.variable variable) >>= usable
  resolve (file path) = read_owner_file host path >>= usable
  resolve (systemd name) = do
    validate_name name
    directory ← given host.credentials_directory
    value ← read_owner_file host (join directory name)
    usable value

-- `CredentialStatus`, with the source's word.
pub record CredentialStatus : Type 0 where
  pub source : Text
  pub available : Bool

abbrev pub source_word : CredentialRef → Text
source_word CredentialRef.none = text "none"
source_word (environment variable) = text "environment"
source_word (file path) = text "file"
source_word (systemd name) = text "systemd"

abbrev pub is_available : AppResult (Option Text) → Bool
is_available (ok (Option.some t)) = true
is_available (ok Option.none) = false
is_available (err e) = false

-- `CredentialResolver::status`.
unfoldable pub status : Host → CredentialRef → Files → CredentialStatus
unfolding resolve
status host r fs = record { source = source_word r; available = is_available (resolve host r fs).1 }

module _ (pid : Text) where
  -- `.{name}-{pid}.tmp` in the directory.
  abbrev pub temporary_secret : Text → Text → Text
  temporary_secret directory name = join directory (b'.' ∷ (name ++ (b'-' ∷ (pid ++ text ".tmp"))))

  -- `store_owner_secret`. A file that cannot be moved is left behind.
  unfoldable pub store_owner_secret : Text → Text → Text → WriteCalls → Action CredentialRef
  unfolding validate_name is_blank replace_file
  store_owner_secret directory name value calls = do
    validate_name name
    check (not (is_blank value)) AppError.validation
    check calls.is_secured AppError.io
    replace_file (join directory name) (temporary_secret directory name) (utf8 value) calls
        (λ fs. fs)
    done (file (join directory name))
