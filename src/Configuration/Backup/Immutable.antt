-- ===== src/Configuration/Backup/Immutable.antt =====
-- What the writes and backups of src/config_migration.rs leave of the files.
use system_pilot.Base.Map.{lookup, insert, lookup-insert_self, lookup-insert_other}
use system_pilot.Base.{
  ◌≡◌, ◌≢◌, inl, inr, refl, Bool, true, false, [], ◌∷◌, Option, none, some, Text, text_beq,
  text_beq_iff, text_eq, Bool-cases, arith,
}
use system_pilot.Configuration.Backup.{BackupCalls, immutable_backup, write_backup, backup_over}
use system_pilot.Disk.Atomic.{Keeps, >>-Keeps, check-Keeps}
use system_pilot.Disk.{Content, utf8, other, content_beq, File, Files, owned, check, join}
use system_pilot.Error.{AppError, ok, err-ok}

-- Files of one directory are apart where their names are.
pub join-apart : (d a b : Text) → text_beq a b ≡ false → join d a ≢ join d b
join-apart [] a b h e = ground (arith, text_beq_iff a b)
join-apart (c ∷ d) a b h e = join-apart d a b h (ground arith)

pub content_beq-eq : (a b : Content) → content_beq a b ≡ true → a ≡ b
content_beq-eq (utf8 a) (utf8 b) h = ground (arith, text_beq_iff a b)
content_beq-eq (other a) (other b) h = ground (arith, text_beq_iff a b)
content_beq-eq (utf8 a) (other b) h = ground arith
content_beq-eq (other a) (utf8 b) h = ground arith

-- The bytes under a path.
abbrev pub Has : Text → Content → Files → Type 0
Has path c fs = (f : File) × (lookup path fs ≡ some f) × (f.content ≡ c)

check-same : (b : Bool) (e : AppError) (fs : Files) → (check b e fs).0 ≡ fs
check-same true e fs = refl
check-same false e fs = refl

check-true :
    (b : Bool) (e : AppError) (fs : Files) (a : Unit {0}) → (check b e fs).1 ≡ ok a → b ≡ true
check-true true e fs a h = refl
check-true false e fs a h = absurd (err-ok e a h)

module _ (path : Text) (c : Content) (calls : BackupCalls) where
  write_backup-Keeps : (p : Text) (o : Option Content) → path ≢ p → Keeps p (write_backup path c o)
  write_backup-Keeps p none apart fs = lookup-insert_other path p (owned c) fs apart
  write_backup-Keeps p (some l) apart fs = lookup-insert_other path p (owned l) fs apart

  backup_over-Keeps : (p : Text) (o : Option File) → path ≢ p → Keeps p (backup_over path c calls o)
  backup_over-Keeps p none apart =
      >>-Keeps p (check calls.is_created AppError.io) (write_backup path c calls.failed)
        (check-Keeps p calls.is_created AppError.io) (write_backup-Keeps p calls.failed apart)
  backup_over-Keeps p (some f) apart =
      >>-Keeps p (check calls.is_read AppError.io)
        (check (content_beq f.content c) AppError.validation)
        (check-Keeps p calls.is_read AppError.io)
        (check-Keeps p (content_beq f.content c) AppError.validation)

  pub immutable_backup-Keeps : (p : Text) → path ≢ p → Keeps p (immutable_backup path c calls)
  unfolding immutable_backup
  immutable_backup-Keeps p apart fs = backup_over-Keeps p (lookup path fs) apart fs

  write_backup-Has :
      (o : Option Content) (fs : Files) (a : Unit {0})
      → (write_backup path c o fs).1 ≡ ok a
      → Has path c (write_backup path c o fs).0
  write_backup-Has none fs a h = (owned c, lookup-insert_self path (owned c) fs, refl)
  write_backup-Has (some l) fs a h = absurd (err-ok AppError.io a h)

  backup_over-Has :
      (o : Option File) (fs : Files) (a : Unit {0})
      → lookup path fs ≡ o
      → (backup_over path c calls o fs).1 ≡ ok a
      → Has path c (backup_over path c calls o fs).0
  backup_over-Has none fs a absent h = elim (Bool-cases calls.is_created) [
    | inl y ↦ simp y (write_backup-Has calls.failed fs a (simp y at h))
    | inr n ↦ absurd (err-ok AppError.io a (simp n at h))
  ]
  backup_over-Has (some f) fs a found h = elim (Bool-cases calls.is_read) [
    | inl y ↦ elim (Bool-cases (content_beq f.content c)) [
      | inl s ↦ simp (y, s) (f, found, content_beq-eq f.content c s)
      | inr d ↦ absurd (err-ok AppError.validation a (simp (y, d) at h))
    ]
    | inr n ↦ absurd (err-ok AppError.io a (simp n at h))
  ]

  -- A backup that succeeds has the bytes.
  pub immutable_backup-Has :
      (fs : Files) (a : Unit {0})
      → (immutable_backup path c calls fs).1 ≡ ok a
      → Has path c (immutable_backup path c calls fs).0
  unfolding immutable_backup
  immutable_backup-Has fs a h = backup_over-Has (lookup path fs) fs a refl h

  -- A backup whose write fails leaves what was written, and from then on every backup of those bytes fails.
  pub partial_backup_blocks :
      (next : BackupCalls) (fs : Files) (left : Content) (a : Unit {0})
      → lookup path fs ≡ none
      → calls.is_created ≡ true
      → calls.failed ≡ some left
      → left ≢ c
      → Has path left (immutable_backup path c calls fs).0
        × ((immutable_backup path c next (immutable_backup path c calls fs).0).1 ≢ ok a)
  unfolding immutable_backup
  partial_backup_blocks next fs left a absent created failed differs =
      let found = lookup-insert_self path (owned left) fs in
      simp (absent, created, failed)
        (
          (owned left, found, refl),
          rw found (λ h. elim (Bool-cases next.is_read) [
            | inl y ↦ differs (
                content_beq-eq left c (
                  check-true (content_beq left c) AppError.validation (insert path (owned left) fs)
                    a (simp y at h)))
            | inr n ↦ err-ok AppError.io a (simp n at h)
          ]),
        )
