-- ===== src/Export/Origin.antt =====
-- The files that the records of `pending` of src/spool.rs come from.
use system_pilot.Base.{
  ℕ, ◌≡◌, inl, inr, refl, sym, subst, ◌==◌, List, [], ◌∷◌, Option, none, some, Text, All, take,
  Bool-cases, Option-cases, arith,
}
use system_pilot.Distributed.Envelope.{TelemetryEnvelope}
use system_pilot.Error.{AppResult, ok, err}
use system_pilot.Spool.Files.{IsAscending, same_file}
use system_pilot.Spool.Pending.{AreFound, take-AreFound}
use system_pilot.Spool.{
  Calls, DiskSpool, SpoolFile, add_record, file_at, pending, quarantine_file, quarantine_found,
  read_files, read_record,
}

module _ (decode : Text → Option TelemetryEnvelope) where
  -- The records were read from the files.
  abbrev pub AreRead : List SpoolFile → List TelemetryEnvelope → Type 0
  AreRead files = All (λ (r : TelemetryEnvelope).
      (g : SpoolFile) × (file_at g.sequence files ≡ some g) × (read_record decode g ≡ some r))

  add_record-ok :
      (r : TelemetryEnvelope) (x : DiskSpool × AppResult (List TelemetryEnvelope))
      (rs : List TelemetryEnvelope)
      → (add_record r x).1 ≡ ok rs
      → (ts : List TelemetryEnvelope) × (x.1 ≡ ok ts) × (r ∷ ts ≡ rs)
  add_record-ok r (s, ok ts) rs h = (ts, refl, ground arith)
  add_record-ok r (s, err e) rs h = absurd (ground arith)

  quarantine_found-ok :
      (found : Option SpoolFile) (s : DiskSpool)
      (rest : DiskSpool → DiskSpool × AppResult (List TelemetryEnvelope))
      (rs : List TelemetryEnvelope)
      → (quarantine_found found s rest).1 ≡ ok rs
      → (s' : DiskSpool) × ((rest s').1 ≡ ok rs)
  quarantine_found-ok none s rest rs h = absurd (ground arith)
  quarantine_found-ok (some g) s rest rs h = (quarantine_file g s, h)

  read_files-AreRead :
      (io : Calls) (files fs : List SpoolFile) (s : DiskSpool) (rs : List TelemetryEnvelope)
      → AreFound fs files
      → (read_files decode io fs s).1 ≡ ok rs
      → AreRead files rs
  unfolding read_files
  read_files-AreRead io files [] s [] found h = tt
  read_files-AreRead io files [] s (r ∷ rs) found h = absurd (ground arith)
  read_files-AreRead io files (f ∷ fs) s rs found h = elim (Bool-cases (io.reads f.sequence)) [
    | inr fails ↦ absurd (let p = rw fails at h in ground arith)
    | inl reads ↦ elim (Option-cases (read_record decode f)) [
      | inr (r, whole) ↦
          let (ts, rest, same) =
            add_record-ok r (read_files decode io fs s) rs (rw (reads, whole) at h) in
          rw (sym same) ((f, found.0, whole), read_files-AreRead io files fs s ts found.1 rest)
      | inl corrupt ↦ elim (Bool-cases (io.renames f.sequence)) [
        | inr fails ↦ absurd (let p = rw (reads, corrupt, fails) at h in ground arith)
        | inl renames ↦
            let (s', rest) =
              quarantine_found-ok (file_at f.sequence s.records) s (read_files decode io fs) rs
                (rw (reads, corrupt, renames) at h) in
            read_files-AreRead io files fs s' rs found.1 rest
      ]
    ]
  ]

  -- What `pending` gives back was read from the spool's files.
  pub pending-AreRead :
      (io : Calls) (s : DiskSpool) (limit : ℕ) (rs : List TelemetryEnvelope)
      → IsAscending s.records
      → (pending decode io s limit).1 ≡ ok rs
      → AreRead s.records rs
  unfolding pending
  pending-AreRead io s limit rs a h = elim (Bool-cases io.lists) [
    | inr fails ↦ absurd (let p = rw fails at h in ground arith)
    | inl lists ↦
        read_files-AreRead io s.records (take limit s.records) s rs
          (take-AreFound limit s.records a) (simp lists at h)
  ]

  abbrev pub HasNumber : Option TelemetryEnvelope → ℕ → Type 0
  HasNumber none n = Unit
  HasNumber (some r) n = r.sequence ≡ n

  -- The record of each file that can be read has the file's number.
  abbrev pub AreNumbered : List SpoolFile → Type 0
  AreNumbered = All (λ (f : SpoolFile). HasNumber (read_record decode f) f.sequence)

  pub file_at-HasNumber :
      (n : ℕ) (files : List SpoolFile) (g : SpoolFile)
      → file_at n files ≡ some g
      → AreNumbered files
      → HasNumber (read_record decode g) g.sequence
  unfolding file_at
  file_at-HasNumber n [] g h all = absurd (ground arith)
  file_at-HasNumber n (f ∷ files) g h all = elim (Bool-cases (f.sequence == n)) [
    | inl same ↦
        let one : f ≡ g = same_file f g (rw same at h) in
        subst (λ (x : SpoolFile). HasNumber (read_record decode x) x.sequence) one all.0
    | inr other ↦ file_at-HasNumber n files g (rw other at h) all.1
  ]
