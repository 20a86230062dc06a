-- ===== src/Evidence/Store.antt =====
-- src/evidence.rs: the store of cases. The files are those of its directory, by their names; the coding of a
-- bundle, the size of a file, the clock and the outcomes of the calls are arguments.
use system_pilot.Base.Map.{insert, contains_key}
use system_pilot.Base.Sorting.{sort}
use system_pilot.Base.Texts.{text}
use system_pilot.Base.{
  ℕ, ◌+◌, ◌-◌, ◌*◌, Bool, ◌||◌, List, [], ◌∷◌, ◌++◌, length, Option, Text, text_eq, ltb, leb,
  if◌then◌else◌,
}
use system_pilot.Disk.{Content, utf8, Action, done, check, lift, create_new, rename, ◌>>=◌, ◌>>◌}
use system_pilot.Error.{AppError}
use system_pilot.Evidence.{EvidenceBundleV1, validate}
use system_pilot.Evidence.Directory.{
  PrepareCalls, has_extension, remove_file, names, prepare, path, write_case, read_case, as_text,
  or_protocol,
}

pub record CaseSummary : Type 0 where
  pub case_id : Text
  pub captured_at_unix_nanos : ℕ
  pub bytes : ℕ
  pub findings : ℕ

pub record CaseStore : Type 0 where
  pub retention_days : ℕ
  pub retention_bytes : ℕ

-- The outcomes of the calls of each operation.
pub record ListCalls : Type 0 where
  pub prepare : PrepareCalls
  pub is_listed : Bool
  pub is_read : Text → Bool
  pub is_stat : Text → Bool

pub record RetentionCalls : Type 0 where
  pub now : ℕ
  pub list : ListCalls
  pub is_removed : Text → Bool

pub record SaveCalls : Type 0 where
  pub prepare : PrepareCalls
  pub is_created : Bool
  pub failed : Option Content
  pub is_renamed : Bool
  pub retention : RetentionCalls

-- The order of `list` and that of `enforce_retention`.
abbrev pub is_newer : CaseSummary → CaseSummary → Bool
is_newer a b = leb b.captured_at_unix_nanos a.captured_at_unix_nanos

abbrev pub is_older : CaseSummary → CaseSummary → Bool
is_older a b = leb a.captured_at_unix_nanos b.captured_at_unix_nanos

abbrev pub total_bytes : List CaseSummary → ℕ
total_bytes [] = 0
total_bytes (c ∷ cs) = c.bytes + total_bytes cs

-- `saturating_mul`.
abbrev pub saturating_mul : ℕ → ℕ → ℕ
saturating_mul a b =
    if leb (a * b) 18_446_744_073_709_551_615 then a * b else 18_446_744_073_709_551_615

-- A case is too old, or all that are left are too large.
abbrev pub is_expired : ℕ → ℕ → ℕ → CaseSummary → Bool
is_expired cutoff limit total c = ltb c.captured_at_unix_nanos cutoff || ltb limit total

-- The loop of `enforce_retention`.
unfoldable pub remove_expired : (Text → Bool) → ℕ → ℕ → ℕ → List CaseSummary → Action (Unit {0})
unfolding path remove_file
remove_expired is_removed cutoff limit total [] = done tt
remove_expired is_removed cutoff limit total (c ∷ cs) =
    (if is_expired cutoff limit total c
      then (do name ← lift (path c.case_id); remove_file name (is_removed name))
      else done tt)
    >> remove_expired is_removed cutoff limit
        (if is_expired cutoff limit total c then total - c.bytes else total) cs

module _ (encode : EvidenceBundleV1 → Option Text) (decode : Text → Option EvidenceBundleV1)
    (len : Content → ℕ) where
  -- `CaseStore::load`.
  unfoldable pub load : Text → Bool → Action EvidenceBundleV1
  unfolding path read_case validate
  load id is_read = do
    name ← lift (path id)
    c ← read_case name is_read
    t ← as_text AppError.io c
    b ← or_protocol (decode t)
    lift (validate b)
    done b

  -- The summary of a case that was read.
  unfoldable pub summary_of : ListCalls → Text → Content → Action (List CaseSummary)
  unfolding validate
  summary_of calls name c = do
    t ← as_text AppError.protocol c
    b ← or_protocol (decode t)
    lift (validate b)
    check (calls.is_stat name) AppError.io
    done (
        record {
          case_id = b.case_id;
          captured_at_unix_nanos = b.time_range.ended_at_unix_nanos;
          bytes = len c;
          findings = length b.findings;
        }
        ∷ [])

  -- The summary of an entry; one that is no case has none.
  unfoldable pub summary : ListCalls → Text → Action (List CaseSummary)
  unfolding has_extension read_case summary_of
  summary calls name =
      if has_extension name (text "json")
      then read_case name (calls.is_read name) >>= summary_of calls name
      else done []

  unfoldable pub summaries : ListCalls → List Text → Action (List CaseSummary)
  unfolding summary
  summaries calls [] = done []
  summaries calls (name ∷ names) = do
    s ← summary calls name
    rest ← summaries calls names
    done (s ++ rest)

  -- `CaseStore::list`.
  unfoldable pub list_cases : ListCalls → Action (List CaseSummary)
  unfolding prepare summaries sort
  list_cases calls = do
    prepare calls.prepare
    check calls.is_listed AppError.io
    cases ← λ fs. summaries calls (names fs) fs
    done (sort is_newer cases)

  -- `CaseStore::enforce_retention`. A sum of sizes beyond `u64` would stop the program.
  unfoldable pub enforce_retention : CaseStore → RetentionCalls → Action (Unit {0})
  unfolding list_cases sort remove_expired
  enforce_retention store calls = do
    cases ← list_cases calls.list
    remove_expired calls.is_removed
        (calls.now - saturating_mul store.retention_days 86_400_000_000_000) store.retention_bytes
        (total_bytes (sort is_older cases)) (sort is_older cases)

  -- `CaseStore::save`.
  unfoldable pub save : CaseStore → EvidenceBundleV1 → SaveCalls → Action (Unit {0})
  unfolding validate prepare path enforce_retention insert contains_key
  save store b calls = do
    lift (validate b)
    prepare calls.prepare
    name ← lift (path b.case_id)
    t ← or_protocol (encode b)
    create_new (b.case_id ++ text ".tmp") calls.is_created
    write_case (b.case_id ++ text ".tmp") (utf8 t) calls.failed
    rename (b.case_id ++ text ".tmp") name calls.is_renamed (λ fs. fs)
    enforce_retention store calls.retention

  -- `CaseStore::export`: what is written to the destination, and whether that succeeds.
  unfoldable pub export_case : Text → Bool → Bool → Action Text
  unfolding load
  export_case id is_read is_written = do
    b ← load id is_read
    t ← or_protocol (encode b)
    check is_written AppError.io
    done t

-- `CaseStore::delete`.
unfoldable pub delete : Text → Bool → Action (Unit {0})
unfolding path remove_file
delete id is_removed = do name ← lift (path id); remove_file name is_removed
