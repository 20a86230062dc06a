-- ===== src/Spool/Sequence.antt =====
-- Sequence numbers of the spool: the records stand in order, below the last number that was given out.
use system_pilot.Base.{
  ℕ, ◌+◌, ◌^◌, ◌≡◌, ◌⊎◌, inl, inr, refl, false, List, [], ◌∷◌, Option, none, some, Text, take,
  Bool-cases, ltb, arith,
}
use system_pilot.Distributed.Envelope.{TelemetryEnvelope}
use system_pilot.Error.{AppError, AppResult, ok, err}
use system_pilot.Spool.Files.{
  AreUpTo, IsAscending, AreUpTo-trans, exists_file-AreUpTo, remove_file-AreUpTo,
  remove_file-IsAscending,
}
use system_pilot.Spool.{
  Calls, DiskSpool, SequenceFile, SpoolFile, acknowledge, advance, decoded, without, without,
  append, check_append, current, exists_file, insert_file, next_sequence, pending, file_at,
  quarantine_file, quarantine_found, read_files, read_record, remove_file, write_record, add_record,
}

pub record IsOrderly (s : DiskSpool) : Type 0 where
  pub last : ℕ
  pub current_last : current s.sequence_file ≡ ok last
  pub below : AreUpTo last s.records
  pub ascending : IsAscending s.records

-- A number that `next_sequence` gives out is in the file, one above the last, and no record has it.
pub record IsNext (s s' : DiskSpool) (n : ℕ) : Type 0 where
  pub written : current s'.sequence_file ≡ ok n
  pub above : (m : ℕ) → current s.sequence_file ≡ ok m → n ≡ m + 1
  pub unused : exists_file n s'.records ≡ false

pub advance-cases :
    (io : Calls) (s : DiskSpool) (n : ℕ)
    → (((e : AppError) × (advance io s (ok n) ≡ (s, err e))))
      ⊎ (advance io s (ok n) ≡ (
        record s { disk = record (s.disk) { sequence_file = SequenceFile.holds (n + 1) } },
        ok (n + 1),
      ))
advance-cases io s n = elim (Bool-cases (ltb (n + 1) (2 ^ 64))) [
  | inr no_room ↦ inl (AppError.protocol, rw no_room)
  | inl room ↦ elim (Bool-cases io.writes) [
    | inr fails ↦ inl (AppError.io, rw (room, fails))
    | inl writes ↦ inr (rw (room, writes))
  ]
]

-- In an orderly spool, `next_sequence` fails and changes nothing, or it gives out the number after
-- the last, which no record has and which is in the file from then on; the spool stays orderly.
pub next_sequence-IsOrderly :
    (io : Calls) (s : DiskSpool)
    → IsOrderly s
    → let (s', result) = next_sequence io s in
      IsOrderly s'
      × (((e : AppError) × (result ≡ err e) × (s' ≡ s))
          ⊎ ((n : ℕ) × (result ≡ ok n) × IsNext s s' n))
unfolding next_sequence
next_sequence-IsOrderly io s o = elim (advance-cases io s o.last) [
  | inl (e, failed) ↦ rw (o.current_last, failed) (o, inl (e, refl, refl))
  | inr given ↦
      rw (o.current_last, given)
        (
          record {
            last = o.last + 1;
            current_last = refl;
            below = AreUpTo-trans o.last (o.last + 1) s.records (omega arith) o.below;
            ascending = o.ascending;
          },
          inr (
            o.last + 1,
            refl,
            record {
              written = refl;
              above = λ m h. ground arith;
              unused = exists_file-AreUpTo o.last (o.last + 1) s.records o.below (omega arith);
            },
          ),
        )
]

remove_file-IsOrderly :
    (k : ℕ) (s : DiskSpool) (q : List SpoolFile)
    → IsOrderly s
    → IsOrderly
        (record s { disk = record (s.disk) { records = remove_file k s.records; quarantine = q } })
remove_file-IsOrderly k s q o = record {
  last = o.last;
  current_last = o.current_last;
  below = remove_file-AreUpTo o.last k s.records o.below;
  ascending = remove_file-IsAscending k s.records o.ascending;
}

pub acknowledge-IsOrderly :
    (io : Calls) (s : DiskSpool) (rs : List TelemetryEnvelope)
    → IsOrderly s
    → IsOrderly (acknowledge io s rs).0
unfolding acknowledge
acknowledge-IsOrderly io s [] o = o
acknowledge-IsOrderly io s (r ∷ rs) o =
    let rest =
      acknowledge-IsOrderly io (without r.sequence s) rs
        (remove_file-IsOrderly r.sequence s s.quarantine o) in
    elim (Bool-cases (exists_file r.sequence s.records)) [
      | inr gone ↦ rw gone o
      | inl there ↦ elim (Bool-cases (io.removes r.sequence)) [
        | inr fails ↦ rw (there, fails) o
        | inl removes ↦ rw (there, removes) rest
      ]
    ]

pub add_record-0 :
    (r : TelemetryEnvelope) (x : DiskSpool × AppResult (List TelemetryEnvelope))
    → (add_record r x).0 ≡ x.0
add_record-0 r (s, ok rs) = refl
add_record-0 r (s, err e) = refl

module _ (decode : Text → Option TelemetryEnvelope) where
  quarantine_found-IsOrderly :
      (found : Option SpoolFile) (s : DiskSpool)
      (rest : DiskSpool → DiskSpool × AppResult (List TelemetryEnvelope))
      → ((s' : DiskSpool) → IsOrderly s' → IsOrderly (rest s').0)
      → IsOrderly s
      → IsOrderly (quarantine_found found s rest).0
  quarantine_found-IsOrderly none s rest ih o = o
  quarantine_found-IsOrderly (some f) s rest ih o =
      ih (quarantine_file f s) (remove_file-IsOrderly f.sequence s (insert_file f s.quarantine) o)

  decoded-IsOrderly :
      (io : Calls) (n : ℕ) (r : Option TelemetryEnvelope) (s : DiskSpool)
      (rest : DiskSpool → DiskSpool × AppResult (List TelemetryEnvelope))
      → ((s' : DiskSpool) → IsOrderly s' → IsOrderly (rest s').0)
      → IsOrderly s
      → IsOrderly (decoded io n r s rest).0
  decoded-IsOrderly io n (some r) s rest ih o = rw (add_record-0 r (rest s)) (ih s o)
  decoded-IsOrderly io n none s rest ih o = elim (Bool-cases (io.renames n)) [
    | inr fails ↦ rw fails o
    | inl renames ↦ rw renames (quarantine_found-IsOrderly (file_at n s.records) s rest ih o)
  ]

  read_files-IsOrderly :
      (io : Calls) (fs : List SpoolFile) (s : DiskSpool)
      → IsOrderly s
      → IsOrderly (read_files decode io fs s).0
  unfolding read_files
  read_files-IsOrderly io [] s o = o
  read_files-IsOrderly io (f ∷ fs) s o = elim (Bool-cases (io.reads f.sequence)) [
    | inr fails ↦ rw fails o
    | inl reads ↦ simp reads (
        decoded-IsOrderly io f.sequence (read_record decode f) s _
          (λ s' o'. read_files-IsOrderly io fs s' o') o)
  ]

  pub pending-IsOrderly :
      (io : Calls) (s : DiskSpool) (limit : ℕ)
      → IsOrderly s
      → IsOrderly (pending decode io s limit).0
  unfolding pending
  pending-IsOrderly io s limit o = elim (Bool-cases io.lists) [
    | inr fails ↦ simp fails o
    | inl lists ↦ simp lists (read_files-IsOrderly io (take limit s.records) s o)
  ]

module _ (encode : TelemetryEnvelope → AppResult Text) where
  -- What `append` comes to: it fails and changes nothing, or it inserts the checked bytes.
  pub append-cases :
      (io : Calls) (s : DiskSpool) (e : TelemetryEnvelope)
      → ((x : AppError) × (append encode io s e ≡ (s, err x)))
        ⊎ ((bytes : Text) × (check_append encode io s e ≡ ok bytes)
            × (append encode io s e ≡ (
              record s {
                disk = record (s.disk) {
                  records =
                      insert_file
                        (record { sequence = e.sequence; bytes = bytes; modified = io.now })
                        s.records;
                };
              },
              ok tt,
            )))
  unfolding append
  append-cases io s e = split (check_append encode io s e) refl
    where
      split :
          (c : AppResult Text)
          → check_append encode io s e ≡ c
          → ((x : AppError) × (write_record encode io s e.sequence c ≡ (s, err x)))
            ⊎ ((bytes : Text) × (c ≡ ok bytes)
                × (write_record encode io s e.sequence c ≡ (
                  record s {
                    disk = record (s.disk) {
                      records =
                          insert_file
                            (record { sequence = e.sequence; bytes = bytes; modified = io.now })
                            s.records;
                    };
                  },
                  ok tt,
                )))
      split (err x) h = inl (x, refl)
      split (ok bytes) h = elim (Bool-cases io.writes) [
        | inl writes ↦ inr (bytes, refl, rw writes)
        | inr fails ↦ inl (AppError.io, rw fails)
      ]
