-- ===== src/Export/Kept.antt =====
-- The files that a spool keeps, through `acknowledge` and `pending` of src/spool.rs, and the files that the
-- records of `pending` come from.
use system_pilot.Base.{
  ℕ, ◌≡◌, ◌⊎◌, inl, inr, refl, sym, ap, subst, ◌∙◌, false, List, [], ◌∷◌, Option, none, some, Text,
  All, text_eq, contains, take, Bool-cases, ◌==◌, arith,
}
use system_pilot.Distributed.Acknowledgement.{accepted_records}
use system_pilot.Distributed.Envelope.{TelemetryEnvelope}
use system_pilot.Error.{AppResult}
use system_pilot.Spool.Files.{
  IsAscending, file_at-insert_ne, file_at-insert_self, file_at-remove_ne, file_at-remove_self,
  file_at-sequence, remove_file-IsAscending, same_file,
}
use system_pilot.Spool.Sequence.{add_record-0}
use system_pilot.Spool.{
  Calls, DiskSpool, SpoolFile, acknowledge, decoded, exists_file, file_at, pending, quarantine_file,
  quarantine_found, read_files, read_record, without,
}

abbrev pub Any : (TelemetryEnvelope → Type 0) → List TelemetryEnvelope → Type 0
Any P [] = ⊥
Any P (r ∷ rs) = P r ⊎ Any P rs

pub Any-All :
    (P Q R : TelemetryEnvelope → Type 0) (rs : List TelemetryEnvelope)
    → ((r : TelemetryEnvelope) → P r → Q r → R r)
    → Any P rs
    → All Q rs
    → Any R rs
Any-All P Q R [] f p q = absurd p
Any-All P Q R (r ∷ rs) f (inl p) q = inl (f r p q.0)
Any-All P Q R (r ∷ rs) f (inr p) q = inr (Any-All P Q R rs f p q.1)

pub accepted_records-All :
    (Q : TelemetryEnvelope → Type 0) (ids : List Text) (rs : List TelemetryEnvelope)
    → All Q rs
    → All Q (accepted_records ids rs)
unfolding accepted_records
accepted_records-All Q ids [] q = tt
accepted_records-All Q ids (r ∷ rs) q = elim (Bool-cases (contains r.message_id ids)) [
  | inl chosen ↦ rw chosen (q.0, accepted_records-All Q ids rs q.1)
  | inr other ↦ rw other (accepted_records-All Q ids rs q.1)
]

-- The file stands under its number, with what it holds, among the records or in the quarantine.
abbrev pub IsKept : SpoolFile → DiskSpool → Type 0
IsKept f s = (file_at f.sequence s.records ≡ some f) ⊎ (file_at f.sequence s.quarantine ≡ some f)

-- It is kept, and where it is in the quarantine no file can be moved there over it.
abbrev pub IsHeld : SpoolFile → DiskSpool → Type 0
IsHeld f s =
    (IsAscending s.records × (file_at f.sequence s.records ≡ some f))
    ⊎ ((file_at f.sequence s.records ≡ none) × (file_at f.sequence s.quarantine ≡ some f))

pub IsHeld-IsKept : (f : SpoolFile) (s : DiskSpool) → IsHeld f s → IsKept f s
IsHeld-IsKept f s (inl (a, h)) = inl h
IsHeld-IsKept f s (inr (gone, h)) = inr h

module _ (f : SpoolFile) where
  IsHeld-without :
      (k : ℕ) (s : DiskSpool) → (k == f.sequence) ≡ false → IsHeld f s → IsHeld f (without k s)
  IsHeld-without k s other (inl (a, h)) =
      inl
        (remove_file-IsAscending k s.records a, file_at-remove_ne f.sequence k s.records other ∙ h)
  IsHeld-without k s other (inr (gone, h)) =
      inr (file_at-remove_ne f.sequence k s.records other ∙ gone, h)

  -- `acknowledge` removes no file but those of its records.
  pub IsHeld-acknowledge :
      (io : Calls) (s : DiskSpool) (rs : List TelemetryEnvelope)
      → IsHeld f s
      → IsHeld f (acknowledge io s rs).0 ⊎ Any (λ r. r.sequence ≡ f.sequence) rs
  unfolding acknowledge
  IsHeld-acknowledge io s [] h = inl h
  IsHeld-acknowledge io s (r ∷ rs) h = elim (Bool-cases (exists_file r.sequence s.records)) [
    | inr gone ↦ rw gone (inl h)
    | inl there ↦ elim (Bool-cases (io.removes r.sequence)) [
      | inr fails ↦ rw (there, fails) (inl h)
      | inl removes ↦ elim (Bool-cases (r.sequence == f.sequence)) [
        | inl same ↦ inr (inl (ground arith))
        | inr other ↦
            rw (there, removes)
              (elim (IsHeld-acknowledge io (without r.sequence s) rs
                (IsHeld-without r.sequence s other h)) [
                  | inl kept ↦ inl kept
                  | inr named ↦ inr (inr named)
                ])
      ]
    ]
  ]

  IsHeld-quarantine_ne :
      (g : SpoolFile) (s : DiskSpool)
      → (g.sequence == f.sequence) ≡ false
      → IsHeld f s
      → IsHeld f (quarantine_file g s)
  IsHeld-quarantine_ne g s other (inl (a, h)) = inl (
    remove_file-IsAscending g.sequence s.records a,
    file_at-remove_ne f.sequence g.sequence s.records other ∙ h,
  )
  IsHeld-quarantine_ne g s other (inr (gone, h)) = inr (
    file_at-remove_ne f.sequence g.sequence s.records other ∙ gone,
    file_at-insert_ne f.sequence g s.quarantine other ∙ h,
  )

  IsHeld-quarantine_self :
      (g : SpoolFile) (s : DiskSpool)
      → g.sequence ≡ f.sequence
      → file_at g.sequence s.records ≡ some g
      → IsHeld f s
      → IsHeld f (quarantine_file g s)
  IsHeld-quarantine_self g s same there (inl (a, h)) =
      let one : g ≡ f = same_file g f (sym there ∙ (ap (λ n. file_at n s.records) same ∙ h)) in
      subst (λ (x : SpoolFile). IsHeld f (quarantine_file x s)) (sym one)
        (inr (file_at-remove_self f.sequence s.records a, file_at-insert_self f s.quarantine))
  IsHeld-quarantine_self g s same there (inr (gone, h)) =
      absurd (ground (arith, sym there ∙ (ap (λ n. file_at n s.records) same ∙ gone)))

  IsHeld-quarantine_found :
      (k : ℕ) (found : Option SpoolFile) (s : DiskSpool)
      (rest : DiskSpool → DiskSpool × AppResult (List TelemetryEnvelope))
      → file_at k s.records ≡ found
      → ((s' : DiskSpool) → IsHeld f s' → IsHeld f (rest s').0)
      → IsHeld f s
      → IsHeld f (quarantine_found found s rest).0
  IsHeld-quarantine_found k none s rest there ih h = h
  IsHeld-quarantine_found k (some g) s rest there ih h =
      let at : g.sequence ≡ k = file_at-sequence k s.records g there in
      ih (quarantine_file g s) (elim (Bool-cases (g.sequence == f.sequence)) [
        | inr other ↦ IsHeld-quarantine_ne g s other h
        | inl same ↦
            IsHeld-quarantine_self g s (ground arith) (ap (λ n. file_at n s.records) at ∙ there) h
      ])

module _ (decode : Text → Option TelemetryEnvelope) where
  module _ (f : SpoolFile) where
    IsHeld-decoded :
        (io : Calls) (k : ℕ) (r : Option TelemetryEnvelope) (s : DiskSpool)
        (rest : DiskSpool → DiskSpool × AppResult (List TelemetryEnvelope))
        → ((s' : DiskSpool) → IsHeld f s' → IsHeld f (rest s').0)
        → IsHeld f s
        → IsHeld f (decoded io k r s rest).0
    IsHeld-decoded io k (some r) s rest ih h = rw (add_record-0 r (rest s)) (ih s h)
    IsHeld-decoded io k none s rest ih h = elim (Bool-cases (io.renames k)) [
      | inr fails ↦ rw fails h
      | inl renames ↦
          rw renames (IsHeld-quarantine_found f k (file_at k s.records) s rest refl ih h)
    ]

    IsHeld-read_files :
        (io : Calls) (fs : List SpoolFile) (s : DiskSpool)
        → IsHeld f s
        → IsHeld f (read_files decode io fs s).0
    unfolding read_files
    IsHeld-read_files io [] s h = h
    IsHeld-read_files io (g ∷ fs) s h = elim (Bool-cases (io.reads g.sequence)) [
      | inr fails ↦ rw fails h
      | inl reads ↦ simp reads (
          IsHeld-decoded io g.sequence (read_record decode g) s _
            (λ s' h'. IsHeld-read_files io fs s' h') h)
    ]

    pub IsHeld-pending :
        (io : Calls) (s : DiskSpool) (limit : ℕ)
        → IsHeld f s
        → IsHeld f (pending decode io s limit).0
    unfolding pending
    IsHeld-pending io s limit h = elim (Bool-cases io.lists) [
      | inr fails ↦ simp fails h
      | inl lists ↦ simp lists (IsHeld-read_files io (take limit s.records) s h)
    ]
