-- ===== src/Spool.antt =====
-- src/spool.rs: the durable spool of telemetry records. Each operation takes the outcomes of its system
-- calls as an argument; the JSON encoder and decoder stand outside the program and are parameters.
-- The lock serializes the operations, none of which can panic with it, so it is never poisoned.
pub mod Files
pub mod Pending
pub mod Sequence
pub mod Capacity
use system_pilot.Base.{
  ℕ, ◌+◌, ◌-◌, ◌^◌, Bool, true, false, not, ◌&&◌, ◌||◌, List, [], ◌∷◌, Option, none, some, Text,
  length, take, ltb, ◌==◌, if◌then◌else◌,
}
use system_pilot.Distributed.Envelope.{TelemetryEnvelope, validate}
use system_pilot.Error.{AppError, AppResult, ok, err, ◌>>=◌, ◌>>◌}

-- A file of the directory `records`; its name is the sequence number in twenty digits.
pub record SpoolFile : Type 0 where
  pub sequence : ℕ
  pub bytes : Text
  pub modified : Option ℕ

-- The file that holds the last sequence number.
pub data SequenceFile : Type 0 where
  missing unreadable malformed : SequenceFile
  holds : ℕ → SequenceFile

-- What stands on the disk: the records and the quarantined files, each in the order of their names.
pub record Directory : Type 0 where
  pub sequence_file : SequenceFile
  pub records : List SpoolFile
  pub quarantine : List SpoolFile

pub record SpoolStats : Type 0 where
  pub records : ℕ
  pub bytes : ℕ
  pub quarantined : ℕ

pub record DiskSpool : Type 0 where
  pub disk : Directory
  pub open disk use *
  pub max_bytes : ℕ
  pub max_age_secs : ℕ

-- How the system calls of an operation end: the clock, which may stand before the epoch, and whether
-- directories are listed and files are written, inspected, read, renamed and removed.
pub record Calls : Type 0 where
  pub now : Option ℕ
  pub prepares : Bool
  pub lists : Bool
  pub writes : Bool
  pub inspects : ℕ → Bool
  pub reads : ℕ → Bool
  pub renames : ℕ → Bool
  pub removes : ℕ → Bool

-- `DiskSpool::open`.
unfoldable pub open_spool : Calls → Directory → ℕ → ℕ → AppResult DiskSpool
open_spool io disk max_bytes max_age_secs =
    if max_bytes == 0 || max_age_secs == 0
    then err AppError.validation
    else if io.prepares
    then ok (record { disk = disk; max_bytes = max_bytes; max_age_secs = max_age_secs })
    else err AppError.io

-- The number in the sequence file.
abbrev pub current : SequenceFile → AppResult ℕ
current SequenceFile.missing = ok 0
current SequenceFile.unreadable = err AppError.io
current SequenceFile.malformed = err AppError.protocol
current (SequenceFile.holds n) = ok n

abbrev pub write_sequence : Calls → DiskSpool → ℕ → DiskSpool × AppResult ℕ
write_sequence io s next =
    if io.writes
    then (record s { disk = record (s.disk) { sequence_file = SequenceFile.holds next } }, ok next)
    else (s, err AppError.io)

abbrev pub advance : Calls → DiskSpool → AppResult ℕ → DiskSpool × AppResult ℕ
advance io s (err e) = (s, err e)
advance io s (ok n) =
    if ltb (n + 1) (2 ^ 64) then write_sequence io s (n + 1) else (s, err AppError.protocol)

-- `next_sequence`.
unfoldable pub next_sequence : Calls → DiskSpool → DiskSpool × AppResult ℕ
next_sequence io s = advance io s (current s.sequence_file)

-- `u64::saturating_add`.
abbrev pub saturating_add : ℕ → ℕ → ℕ
saturating_add a b = if ltb (a + b) (2 ^ 64) then a + b else 2 ^ 64 - 1

-- The test on a record's age.
abbrev pub is_expired : ℕ → ℕ → Option ℕ → Bool
is_expired now max_age none = false
is_expired now max_age (some modified) = ltb max_age (now - modified)

-- The loop of `stats_unlocked`, over the records in some order; the order matters to no result.
unfoldable pub count_files : (ℕ → Bool) → ℕ → ℕ → List SpoolFile → SpoolStats → AppResult SpoolStats
count_files inspects now max_age [] stats = ok stats
count_files inspects now max_age (f ∷ fs) stats =
    if not (inspects f.sequence)
    then err AppError.io
    else if is_expired now max_age f.modified
    then err AppError.protocol
    else count_files inspects now max_age fs (record stats {
      records = stats.records + 1;
      bytes = saturating_add stats.bytes (length f.bytes);
    })

abbrev pub count_at : Calls → DiskSpool → Option ℕ → AppResult SpoolStats
count_at io s none = err AppError.validation
count_at io s (some now) =
    if io.lists
    then count_files io.inspects now s.max_age_secs s.records
        (record { records = 0; bytes = 0; quarantined = length s.quarantine })
    else err AppError.io

-- `stats_unlocked`, and `stats`.
unfoldable pub stats_unlocked : Calls → DiskSpool → AppResult SpoolStats
stats_unlocked io s = count_at io s io.now

-- The file of a sequence number.
unfoldable pub exists_file : ℕ → List SpoolFile → Bool
exists_file n [] = false
exists_file n (f ∷ fs) = f.sequence == n || exists_file n fs

unfoldable pub file_at : ℕ → List SpoolFile → Option SpoolFile
file_at n [] = none
file_at n (f ∷ fs) = if f.sequence == n then some f else file_at n fs

-- `fs::rename` into a directory: a file of that number is overwritten.
unfoldable pub insert_file : SpoolFile → List SpoolFile → List SpoolFile
insert_file new [] = new ∷ []
insert_file new (f ∷ fs) =
    let rest = insert_file new fs in
    if ltb new.sequence f.sequence
    then new ∷ (f ∷ fs)
    else if new.sequence == f.sequence
    then new ∷ fs
    else f ∷ rest

unfoldable pub remove_file : ℕ → List SpoolFile → List SpoolFile
remove_file n [] = []
remove_file n (f ∷ fs) = if f.sequence == n then fs else f ∷ remove_file n fs

module _ (encode : TelemetryEnvelope → AppResult Text) where
  -- `encode_json`.
  unfoldable pub encode_json : TelemetryEnvelope → AppResult Text
  encode_json e = do validate e; encode e

  -- `append` in front of the write.
  unfoldable pub check_append : Calls → DiskSpool → TelemetryEnvelope → AppResult Text
  check_append io s e = do
    bytes ← encode_json e
    stats ← stats_unlocked io s
    if ltb s.max_bytes (saturating_add stats.bytes (length bytes))
        then err AppError.protocol
        else if exists_file e.sequence s.records
        then err AppError.protocol
        else ok bytes

  abbrev pub write_record :
      Calls → DiskSpool → ℕ → AppResult Text → DiskSpool × AppResult (Unit {0})
  write_record io s n (err e) = (s, err e)
  write_record io s n (ok bytes) =
      if io.writes
      then (
        record s {
          disk = record (s.disk) {
            records =
                insert_file (record { sequence = n; bytes = bytes; modified = io.now }) s.records;
          };
        },
        ok tt,
      )
      else (s, err AppError.io)

  -- `append`.
  unfoldable pub append : Calls → DiskSpool → TelemetryEnvelope → DiskSpool × AppResult (Unit {0})
  append io s e = write_record io s e.sequence (check_append io s e)

abbrev pub validated : TelemetryEnvelope → AppResult (Unit {0}) → Option TelemetryEnvelope
validated r (ok _) = some r
validated r (err e) = none

abbrev pub checked : Option TelemetryEnvelope → Option TelemetryEnvelope
checked none = none
checked (some r) = validated r (validate r)

abbrev pub add_record :
    TelemetryEnvelope
    → DiskSpool × AppResult (List TelemetryEnvelope)
    → DiskSpool × AppResult (List TelemetryEnvelope)
add_record r (s, ok rs) = (s, ok (r ∷ rs))
add_record r (s, err e) = (s, err e)

-- The file of that number leaves the records, and overwrites one of its number in the quarantine.
abbrev pub quarantine_file : SpoolFile → DiskSpool → DiskSpool
quarantine_file f s = record s {
  disk = record (s.disk) {
    records = remove_file f.sequence s.records;
    quarantine = insert_file f s.quarantine;
  };
}

-- `fs::rename` of the record at a path, which fails where none is there.
abbrev pub quarantine_found :
    Option SpoolFile
    → DiskSpool
    → (DiskSpool → DiskSpool × AppResult (List TelemetryEnvelope))
    → DiskSpool × AppResult (List TelemetryEnvelope)
quarantine_found none s rest = (s, err AppError.io)
quarantine_found (some f) s rest = rest (quarantine_file f s)

-- A file of `pending` after it was read: its record, or the file moves to the quarantine.
abbrev pub decoded :
    Calls
    → ℕ
    → Option TelemetryEnvelope
    → DiskSpool
    → (DiskSpool → DiskSpool × AppResult (List TelemetryEnvelope))
    → DiskSpool × AppResult (List TelemetryEnvelope)
decoded io n (some r) s rest = add_record r (rest s)
decoded io n none s rest =
    if io.renames n then quarantine_found (file_at n s.records) s rest else (s, err AppError.io)

module _ (decode : Text → Option TelemetryEnvelope) where
  -- `from_slice` and `validate`.
  unfoldable pub read_record : SpoolFile → Option TelemetryEnvelope
  read_record f = checked (decode f.bytes)

  -- The loop of `pending`.
  unfoldable pub read_files :
      Calls → List SpoolFile → DiskSpool → DiskSpool × AppResult (List TelemetryEnvelope)
  read_files io [] s = (s, ok [])
  read_files io (f ∷ fs) s =
      if io.reads f.sequence
      then decoded io f.sequence (read_record f) s (λ s'. read_files io fs s')
      else (s, err AppError.io)

  -- `pending`.
  unfoldable pub pending : Calls → DiskSpool → ℕ → DiskSpool × AppResult (List TelemetryEnvelope)
  pending io s limit =
      if io.lists then read_files io (take limit s.records) s else (s, err AppError.io)

abbrev pub without : ℕ → DiskSpool → DiskSpool
without n s = record s { disk = record (s.disk) { records = remove_file n s.records } }

-- `acknowledge`.
unfoldable pub acknowledge :
    Calls → DiskSpool → List TelemetryEnvelope → DiskSpool × AppResult (Unit {0})
acknowledge io s [] = (s, ok tt)
acknowledge io s (r ∷ rs) =
    let rest = acknowledge io (without r.sequence s) rs in
    if not (exists_file r.sequence s.records)
    then (s, err AppError.protocol)
    else if io.removes r.sequence
    then rest
    else (s, err AppError.io)
