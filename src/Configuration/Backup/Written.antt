-- ===== src/Configuration/Backup/Written.antt =====
-- What `atomic_write` of src/config_migration.rs leaves of the files.
use system_pilot.Base.Map.{lookup}
use system_pilot.Base.{
  ◌≡◌, ◌≢◌, inl, inr, refl, Option, some, none, Text, text_eq, Bool, true, false, Bool-cases,
}
use system_pilot.Configuration.Backup.Immutable.{Has}
use system_pilot.Configuration.Backup.{atomic_write, temporary_config, read, content_of}
use system_pilot.Disk.Atomic.{
  Keeps, Replaces, >>-Keeps, bound-Replaces, check-Keeps, clean-Holds, replace_file-Keeps,
  replace_file-Replaces,
}
use system_pilot.Disk.{Content, Files, File, WriteCalls, check, clean, owned, replace_file}
use system_pilot.Error.{AppError, ok, err-ok, ok-inj}

module _ (pid path directory : Text) (c : Content) (calls : WriteCalls) where
  pub atomic_write-Keeps :
      (p : Text)
      → temporary_config pid directory ≢ p
      → path ≢ p
      → Keeps p (atomic_write pid path (some directory) c calls)
  unfolding atomic_write
  atomic_write-Keeps p t a fs =
      let temporary = temporary_config pid directory in
      let undo = clean calls.is_cleaned temporary in
      elim (Bool-cases calls.is_secured) [
        | inl y ↦ simp y (
            >>-Keeps p (replace_file path temporary c calls undo)
              (check calls.is_synced AppError.io)
              (replace_file-Keeps path temporary c calls undo p t a
                (clean-Holds p temporary calls.is_cleaned t))
              (check-Keeps p calls.is_synced AppError.io) fs)
        | inr n ↦ simp n refl
      ]

  -- However the write ends, the file is the old one or the new one, and the new one where it succeeds.
  pub atomic_write-Replaces :
      temporary_config pid directory ≢ path
      → (fs : Files)
      → Replaces
          (lookup path fs)
          (lookup path (atomic_write pid path (some directory) c calls fs).0)
          (owned c)
          (atomic_write pid path (some directory) c calls fs).1
  unfolding atomic_write
  atomic_write-Replaces apart fs =
      let temporary = temporary_config pid directory in
      let undo = clean calls.is_cleaned temporary in
      elim (Bool-cases calls.is_secured) [
        | inl y ↦ simp y (
            bound-Replaces path (λ a. check calls.is_synced AppError.io)
              (replace_file path temporary c calls undo fs) (lookup path fs) (owned c)
              (λ a. check-Keeps path calls.is_synced AppError.io)
              (replace_file-Replaces path temporary c calls undo apart
                (clean-Holds path temporary calls.is_cleaned apart) fs))
        | inr n ↦
            simp n (record { whole = inl refl; success = λ a h. absurd (err-ok AppError.io a h) })
      ]

content_of-Has :
    (path : Text) (o : Option File) (fs : Files) (c : Content)
    → lookup path fs ≡ o
    → (content_of o fs).1 ≡ ok c
    → Has path c fs
content_of-Has path none fs c found h = absurd (err-ok AppError.io c h)
content_of-Has path (some f) fs c found h = (f, found, ok-inj f.content c h)

content_of-same : (o : Option File) (fs : Files) → (content_of o fs).0 ≡ fs
content_of-same none fs = refl
content_of-same (some f) fs = refl

-- Bytes that are read are those of the file.
pub read-Has :
    (path : Text) (b : Bool) (fs : Files) (c : Content) → (read path b fs).1 ≡ ok c → Has path c fs
unfolding read
read-Has path true fs c h = content_of-Has path (lookup path fs) fs c refl h
read-Has path false fs c h = absurd (err-ok AppError.io c h)

pub read-same : (path : Text) (b : Bool) (fs : Files) → (read path b fs).0 ≡ fs
unfolding read
read-same path true fs = content_of-same (lookup path fs) fs
read-same path false fs = refl

-- A file that is there and can be read.
pub Has-read :
    (path : Text) (c : Content) (fs : Files) → Has path c fs → read path true fs ≡ (fs, ok c)
unfolding read
Has-read path c fs (f, found, same) = simp (found, same) refl
