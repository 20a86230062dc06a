-- ===== src/Configuration/Migration/Whole.antt =====
-- Whatever a load of src/config_migration.rs meets, the configuration file stays whole.
use system_pilot.Base.Map.{lookup}
use system_pilot.Base.Texts.{text}
use system_pilot.Base.{
  ℕ, ◌≡◌, ◌⊎◌, inl, inr, refl, ap, subst, Option, none, some, Text, text_eq, Bool-cases, ◌==◌, leb,
}
use system_pilot.Configuration.Backup.Written.{read-same}
use system_pilot.Configuration.Backup.{read}
use system_pilot.Configuration.Migration.Load.{
  choose, version_step, root_step, slice_step, version_number,
}
use system_pilot.Configuration.Migration.Secret.{
  IsCurrent, migrate_object-IsCurrent, migrate_object-Keeps,
}
use system_pilot.Configuration.Migration.Upgrade.{
  HoldsCurrent, config_path, newer_backup, newer_backup-Keeps, object_step, older_backup,
  older_backup-Keeps, upgrade_steps, written, written-Replaces,
}
use system_pilot.Configuration.Migration.{
  MigrationCalls, from_utf8, load_and_migrate, migrate_object, migrate_version, object_of, parsed,
  printed, upgrade, version_of,
}
use system_pilot.Disk.{Content, utf8, other, File, Files, Action, bound, ◌>>=◌, ◌>>◌}
use system_pilot.Error.{AppResult, ok, err}
use system_pilot.Json.{Value, Fields, object, get, as_object}

-- The old file stands, or one of the current schema.
abbrev pub IsWhole : (Value → Option Text) → Text → Option File → Files → Type 0
IsWhole print path old fs = (lookup path fs ≡ old) ⊎ ((t : Text) × HoldsCurrent print path t fs)

module _ (print : Value → Option Text) (path : Text) where
  -- A step that keeps the file, in front of steps that leave it whole.
  bound-IsWhole :
      {A B : Type 0} (f : A → Action B) (r : Files × AppResult A) (old : Option File)
      → lookup path r.0 ≡ old
      → ((a : A) → r.1 ≡ ok a → IsWhole print path (lookup path r.0) (f a r.0).0)
      → IsWhole print path old (bound f r).0
  bound-IsWhole f (fs, ok a) old same k =
      subst (λ (o : Option File). IsWhole print path o (f a fs).0) same (k a refl)
  bound-IsWhole f (fs, err e) old same k = inl same

from_utf8-same : (c : Content) (fs : Files) → (from_utf8 c fs).0 ≡ fs
from_utf8-same (utf8 t) fs = refl
from_utf8-same (other b) fs = refl

module _ (parse : Text → Option Value) (print : Value → Option Text) (pid directory : Text)
    (calls : MigrationCalls) where
  printed-IsWhole :
      (m : Fields) (o : Option Text) (fs : Files)
      → print (object m) ≡ o
      → IsCurrent m
      → IsWhole print
          (config_path directory)
          (lookup (config_path directory) fs)
          ((printed parse print o >>= (written parse print pid directory calls)) fs).0
  printed-IsWhole m none fs p c = inl refl
  printed-IsWhole m (some t) fs p c =
      elim (written-Replaces parse print pid directory calls t fs).whole [
        | inl same ↦ inl same
        | inr new ↦ inr (t, (m, p, c, new))
      ]

  object_step-IsWhole :
      (o : Fields) (fs : Files)
      → IsWhole print
          (config_path directory)
          (lookup (config_path directory) fs)
          ((object_step parse print pid directory calls) o fs).0
  object_step-IsWhole o fs =
      bound-IsWhole print (config_path directory)
        (λ m. printed parse print (print (object m)) >>= (written parse print pid directory calls))
        (migrate_object pid directory o calls fs) (lookup (config_path directory) fs)
        (migrate_object-Keeps pid directory calls (text "config.json") (λ x. refl) o fs)
        (λ m h.
          printed-IsWhole m (print (object m)) (migrate_object pid directory o calls fs).0 refl
            (migrate_object-IsCurrent pid directory calls o m fs h))

  pub upgrade-IsWhole :
      (original : Content) (version : ℕ) (o : Fields) (fs : Files)
      → IsWhole print
          (config_path directory)
          (lookup (config_path directory) fs)
          (upgrade parse print pid
            (config_path directory)
            (some directory)
            original
            version
            o
            calls
            fs).0
  upgrade-IsWhole original version o fs =
      rw (upgrade_steps parse print pid directory calls original version o fs)
        (elim (Bool-cases calls.is_secured) [
          | inl y ↦
              let rest =
                (newer_backup parse print pid directory calls) original
                >> (object_step parse print pid directory calls) o in
              let gs = ((older_backup parse print pid directory calls) original version fs).0 in
              simp y (
                bound-IsWhole print (config_path directory) (λ a. rest)
                  ((older_backup parse print pid directory calls) original version fs)
                  (lookup (config_path directory) fs)
                  (older_backup-Keeps parse print pid directory calls original version
                    (text "config.json") refl fs)
                  (λ a h.
                    bound-IsWhole print (config_path directory)
                      (λ b. (object_step parse print pid directory calls) o)
                      ((newer_backup parse print pid directory calls) original gs)
                      (lookup (config_path directory) gs)
                      (newer_backup-Keeps parse print pid directory calls original
                        (text "config.json") refl gs)
                      (λ b k.
                        object_step-IsWhole o
                          ((newer_backup parse print pid directory calls) original gs).0)))
          | inr n ↦ simp n (inl refl)
        ])

  version_step-IsWhole :
      (c : Content) (n : ℕ) (o : Fields) (fs : Files)
      → IsWhole print
          (config_path directory)
          (lookup (config_path directory) fs)
          ((choose parse print pid directory calls) c n o fs).0
  unfolding migrate_version
  version_step-IsWhole c n o fs = elim (Bool-cases (n == 2)) [
    | inl y ↦ simp y (inl (ap (lookup (config_path directory)) (from_utf8-same c fs)))
    | inr k ↦ elim (Bool-cases (leb n 1)) [
      | inl l ↦ simp (k, l) (upgrade-IsWhole c n o fs)
      | inr m ↦ simp (k, m) (inl refl)
    ]
  ]

  version-IsWhole :
      (c : Content) (o : Fields) (v : Option Value) (w : Option ℕ) (fs : Files)
      → version_number v ≡ w
      → IsWhole print
          (config_path directory)
          (lookup (config_path directory) fs)
          ((version_of v >>= λ n. (choose parse print pid directory calls) c n o) fs).0
  unfolding version_of
  version-IsWhole c o none w fs e = version_step-IsWhole c 0 o fs
  version-IsWhole c o (some v) none fs e = simp e (inl refl)
  version-IsWhole c o (some v) (some n) fs e = simp e (version_step-IsWhole c n o fs)

  object-IsWhole :
      (c : Content) (w : Option Fields) (fs : Files)
      → IsWhole print
          (config_path directory)
          (lookup (config_path directory) fs)
          ((object_of w >>= (version_step parse print pid directory calls) c) fs).0
  object-IsWhole c none fs = inl refl
  object-IsWhole c (some o) fs =
      let v = get (text "schema_version") o in version-IsWhole c o v (version_number v) fs refl

  parsed-IsWhole :
      (c : Content) (v : Option Value) (fs : Files)
      → IsWhole print
          (config_path directory)
          (lookup (config_path directory) fs)
          ((parsed parse print v >>= (root_step parse print pid directory calls) c) fs).0
  parsed-IsWhole c none fs = inl refl
  parsed-IsWhole c (some v) fs = object-IsWhole c (as_object v) fs

  slice-IsWhole :
      (c : Content) (fs : Files)
      → IsWhole print
          (config_path directory)
          (lookup (config_path directory) fs)
          ((slice_step parse print pid directory calls) c fs).0
  slice-IsWhole (utf8 u) fs = parsed-IsWhole (utf8 u) (parse u) fs
  slice-IsWhole (other b) fs = inl refl

  -- However a load of `config.json` ends, the file is the one it was, or holds the print of an object
  -- of the current schema that has none of the four old secrets.
  pub load_and_migrate-IsWhole :
      (fs : Files)
      → IsWhole print
          (config_path directory)
          (lookup (config_path directory) fs)
          (load_and_migrate parse print pid (config_path directory) (some directory) calls fs).0
  unfolding load_and_migrate
  load_and_migrate-IsWhole fs =
      let path = config_path directory in
      bound-IsWhole print (config_path directory) (slice_step parse print pid directory calls)
        (read path calls.is_read fs) (lookup path fs)
        (ap (lookup path) (read-same path calls.is_read fs))
        (λ c h. slice-IsWhole c (read path calls.is_read fs).0)
