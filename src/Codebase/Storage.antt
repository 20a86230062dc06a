-- ===== src/Codebase/Storage.antt =====
-- The file of the vector index in src/codebase.rs: `load_outcome` and `save_to_binary`, over the files by
-- their paths. The names that hold the time, and the outcomes of the system calls, are arguments.
pub mod Replacement
use system_pilot.Base.Map.{Map, contains_key, insert, lookup, remove}
use system_pilot.Base.{
  ℕ, Bool, true, false, not, ◌&&◌, ◌||◌, List, Option, none, some, Text, text_eq, take,
  if◌then◌else◌,
}
use system_pilot.Codebase.Binary.Reading.{Outcome, DecodeError, ok, err}
use system_pilot.Codebase.Binary.{VectorDb, decode_binary, encode_binary}

abbrev pub Files : Type 0
Files = Map Text (List ℕ)

-- The error's text is left out.
pub data VectorIndexLoad : Type 0 where
  missing : VectorIndexLoad
  loaded : VectorDb → VectorIndexLoad
  corrupt : Option Text → VectorIndexLoad

-- Whether the file can be opened and read, and moved to the quarantine.
pub record LoadCalls : Type 0 where
  pub quarantine : Text
  pub is_readable : Bool
  pub is_renamed : Bool

-- `std::fs::rename` of the file that stands under the source, and whether it succeeds.
abbrev pub move_found : Text → Text → Option (List ℕ) → Files → Files × Bool
move_found source target none fs = (fs, false)
move_found source target (some bytes) fs = (insert target bytes (remove source fs), true)

abbrev pub rename : Text → Text → Bool → Files → Files × Bool
rename source target is_renamed fs =
    if is_renamed then move_found source target (lookup source fs) fs else (fs, false)

-- `save_to_binary` writes a temporary file; `failed_after` is the number of bytes after which a write fails.
pub record SaveCalls : Type 0 where
  pub temporary : Text
  pub is_created : Bool
  pub failed_after : Option ℕ
  pub is_cleaned : Bool
  pub is_renamed : Bool
  pub is_protected : Bool
  pub is_synced : Bool

abbrev pub renamed : Text → SaveCalls → Files → Files × Bool
renamed path calls fs =
    let (after, is_moved) = rename calls.temporary path calls.is_renamed fs in
    (after, is_moved && (calls.is_protected && calls.is_synced))

abbrev pub written : Text → List ℕ → SaveCalls → Option ℕ → Files → Files × Bool
written path bytes calls none fs = renamed path calls (insert calls.temporary bytes fs)
written path bytes calls (some n) fs = (
  if calls.is_cleaned
      then remove calls.temporary (insert calls.temporary (take n bytes) fs)
      else insert calls.temporary (take n bytes) fs,
  false,
)

-- `save_to_binary`, and whether it succeeds.
unfoldable pub save_to_binary : VectorDb → Text → SaveCalls → Files → Files × Bool
save_to_binary db path calls fs =
    if contains_key calls.temporary fs || not calls.is_created
    then (fs, false)
    else written path (encode_binary db) calls calls.failed_after fs

module _ (from_utf8_lossy : List ℕ → List ℕ) where
  abbrev pub quarantine_of : LoadCalls → Files × Bool → Files × VectorIndexLoad
  quarantine_of calls (fs, true) = (fs, VectorIndexLoad.corrupt (some calls.quarantine))
  quarantine_of calls (fs, false) = (fs, VectorIndexLoad.corrupt none)

  abbrev pub quarantined : Text → LoadCalls → Files → Files × VectorIndexLoad
  quarantined path calls fs = quarantine_of calls (rename path calls.quarantine calls.is_renamed fs)

  abbrev pub decoded :
      Text → LoadCalls → List ℕ → Outcome VectorDb → Files → Files × VectorIndexLoad
  decoded path calls bytes (ok db) fs = (fs, VectorIndexLoad.loaded db)
  decoded path calls bytes (err e) fs = quarantined path calls fs

  abbrev pub found : Text → LoadCalls → Option (List ℕ) → Files → Files × VectorIndexLoad
  found path calls none fs = (fs, VectorIndexLoad.missing)
  found path calls (some bytes) fs =
      if calls.is_readable
      then decoded path calls bytes (decode_binary from_utf8_lossy bytes) fs
      else quarantined path calls fs

  -- `load_outcome`.
  unfoldable pub load_outcome : Text → LoadCalls → Files → Files × VectorIndexLoad
  load_outcome path calls fs = found path calls (lookup path fs) fs
