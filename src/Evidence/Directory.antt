-- ===== src/Evidence/Directory.antt =====
-- src/evidence.rs: the directory of the cases: its names, what clears interrupted saves away, and the reads and
-- writes of one file. The outcomes of the calls are arguments, those on a file by its name.
use system_pilot.Base.Map.{lookup, insert, remove, contains_key}
use system_pilot.Base.Strings.{rsplit_once}
use system_pilot.Base.Texts.{text, all_of}
use system_pilot.Base.{
  ℕ, Bool, false, ◌&&◌, ◌||◌, not, List, [], ◌∷◌, ◌++◌, map, Option, none, some, Text, text_beq,
  text_eq, ◌==◌, leb, if◌then◌else◌,
}
use system_pilot.Disk.{Content, utf8, other, File, Files, Action, owned, done, fail, check, ◌>>◌}
use system_pilot.Error.{AppError, AppResult, ok, err}

-- The outcomes of the calls of each operation. Those on a file are by its name.
pub record PrepareCalls : Type 0 where
  pub is_secured : Bool
  pub is_listed : Bool
  pub is_removed : Text → Bool

-- `Path::extension` of a name is what stands behind its last dot, unless that is the first character.
abbrev pub extension_of : Option (Text × Text) → Text → Bool
extension_of none e = false
extension_of (some ([], rest)) e = false
extension_of (some (c ∷ stem, rest)) e = text_beq rest e

unfoldable pub has_extension : Text → Text → Bool
unfolding rsplit_once
has_extension name e = extension_of (rsplit_once b'.' name) e

-- `fs::remove_file`.
unfoldable pub remove_file : Text → Bool → Action (Unit {0})
unfolding contains_key remove
remove_file name is_removed fs =
    if contains_key name fs && is_removed then (remove name fs, ok tt) else (fs, err AppError.io)

-- The loop over the entries that removes what interrupted saves have left.
unfoldable pub remove_interrupted : PrepareCalls → List Text → Action (Unit {0})
unfolding remove_file has_extension
remove_interrupted calls [] = done tt
remove_interrupted calls (name ∷ names) =
    (if has_extension name (text "tmp") then remove_file name (calls.is_removed name) else done tt)
    >> remove_interrupted calls names

-- The names of the directory's entries.
abbrev pub names : Files → List Text
names = map (λ (x : Text × File). x.0)

-- `CaseStore::prepare`.
unfoldable pub prepare : PrepareCalls → Action (Unit {0})
unfolding remove_interrupted
prepare calls = do
  check calls.is_secured AppError.io
  check calls.is_listed AppError.io
  (λ fs. remove_interrupted calls (names fs) fs)

-- `is_ascii_alphanumeric`, or a dash.
abbrev pub is_id_byte : ℕ → Bool
is_id_byte c =
    (leb b'0' c && leb c b'9')
    || ((leb b'A' c && leb c b'Z') || ((leb b'a' c && leb c b'z') || c == b'-'))

abbrev pub file_of : Text → Text
file_of id = id ++ text ".json"

-- `CaseStore::path`, as a name in the directory.
unfoldable pub path : Text → AppResult Text
unfolding all_of
path id =
    if text_beq id [] || not (all_of is_id_byte id)
    then err AppError.validation
    else ok (file_of id)

-- `write_all` and `sync_all`, with no clean-up where they fail.
abbrev pub write_case : Text → Content → Option Content → Action (Unit {0})
write_case name c none fs = (insert name (owned c) fs, ok tt)
write_case name c (some left) fs = (insert name (owned left) fs, err AppError.io)

abbrev pub content_at : Option File → Action Content
content_at none = fail AppError.io
content_at (some f) = done f.content

unfoldable pub read_case : Text → Bool → Action Content
unfolding lookup
read_case name is_read fs = (do check is_read AppError.io; content_at (lookup name fs)) fs

-- `read_to_string` of bytes that were read.
abbrev pub as_text : AppError → Content → Action Text
as_text e (utf8 t) = done t
as_text e (other bytes) = fail e

abbrev pub or_protocol : {A : Type 0} → Option A → Action A
or_protocol none = fail AppError.protocol
or_protocol (some a) = done a
