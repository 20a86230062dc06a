-- ===== src/Configuration/Migration/Upgrade.antt =====
-- What an upgrade of src/config_migration.rs has done where it succeeds.
use system_pilot.Base.Map.{lookup}
use system_pilot.Base.Texts.{text}
use system_pilot.Base.{
  ℕ, ◌≡◌, ◌≢◌, inl, inr, refl, subst, ◌∙◌, false, ◌++◌, Option, none, some, Text, text_beq, text_eq,
  Bool-cases, ◌==◌, if◌then◌else◌,
}
use system_pilot.Configuration.Backup.Immutable.{
  join-apart, Has, immutable_backup-Keeps, immutable_backup-Has,
}
use system_pilot.Configuration.Backup.Written.{atomic_write-Keeps, atomic_write-Replaces}
use system_pilot.Configuration.Backup.{
  pre_v1_backup, pre_v2_backup, immutable_backup, atomic_write, temporary_config,
}
use system_pilot.Configuration.Migration.Secret.{
  IsCurrent, migrate_object-IsCurrent, migrate_object-Keeps,
}
use system_pilot.Configuration.Migration.{MigrationCalls, migrate_object, upgrade, printed}
use system_pilot.Disk.Atomic.{Keeps, Replaces, >>=-Keeps, bound-Replaces}
use system_pilot.Disk.{Content, utf8, Files, Action, owned, join, done, >>=-ok, ◌>>=◌, ◌>>◌}
use system_pilot.Error.{AppError, ok, err, err-ok, ok-inj}
use system_pilot.Json.{Value, Fields, object}

-- The file of the configuration in its directory.
abbrev pub config_path : Text → Text
config_path directory = join directory (text "config.json")

-- The file holds a configuration of the current schema.
abbrev pub HoldsCurrent : (Value → Option Text) → Text → Text → Files → Type 0
HoldsCurrent print path t fs =
    (o : Fields) × (print (object o) ≡ some t)
    × IsCurrent o
    × (lookup path fs ≡ some (owned (utf8 t)))

module _ (parse : Text → Option Value) (print : Value → Option Text) (pid directory : Text)
    (calls : MigrationCalls) where
  -- What an upgrade has done where it succeeds.
  pub record Upgraded (original : Content) (t : Text) (fs : Files) : Type 0 where
    pub backup : Has (join directory pre_v2_backup) original fs
    pub current : HoldsCurrent print (config_path directory) t fs

  abbrev pub older_backup : Content → ℕ → Action (Unit {0})
  older_backup original version =
      if version == 0
      then immutable_backup (join directory pre_v1_backup) original calls.v1
      else done tt

  abbrev pub newer_backup : Content → Action (Unit {0})
  newer_backup original = immutable_backup (join directory pre_v2_backup) original calls.v2

  abbrev pub written : Text → Action Text
  written t =
      atomic_write pid (config_path directory) (some directory) (utf8 t) calls.write >> done t

  abbrev pub object_step : Fields → Action Text
  object_step o = migrate_object pid directory o calls >>= λ m.
      printed parse print (print (object m)) >>= written

  abbrev pub backups_step : Content → ℕ → Fields → Action Text
  backups_step original version o =
      older_backup original version >> (newer_backup original >> object_step o)

  pub upgrade_steps :
      (original : Content) (version : ℕ) (o : Fields) (fs : Files)
      → upgrade parse print pid (config_path directory) (some directory) original version o calls fs
        ≡ (if calls.is_secured then backups_step original version o fs else (fs, err AppError.io))
  unfolding upgrade
  upgrade_steps original version o fs = elim (Bool-cases calls.is_secured) [
    | inl y ↦ simp y refl
    | inr n ↦ simp n refl
  ]

  temporary-apart :
      (n : Text)
      → text_beq (text ".config-migration-" ++ (pid ++ text ".tmp")) n ≡ false
      → temporary_config pid directory ≢ join directory n
  temporary-apart n h = join-apart directory (text ".config-migration-" ++ (pid ++ text ".tmp")) n h

  written-Keeps : (t : Text) → Keeps (join directory pre_v2_backup) (written t)
  written-Keeps t =
      let p = join directory pre_v2_backup in
      let bytes = atomic_write pid (config_path directory) (some directory) (utf8 t) calls.write in
      >>=-Keeps p bytes (λ a. done t)
        (atomic_write-Keeps pid (config_path directory) directory (utf8 t) calls.write p
          (temporary-apart pre_v2_backup refl)
          (join-apart directory (text "config.json") pre_v2_backup refl))
        (λ a fs. refl)

  pub written-Replaces :
      (t : Text) (fs : Files)
      → Replaces
          (lookup (config_path directory) fs)
          (lookup (config_path directory) (written t fs).0)
          (owned (utf8 t))
          (written t fs).1
  written-Replaces t fs =
      let bytes = atomic_write pid (config_path directory) (some directory) (utf8 t) calls.write in
      bound-Replaces (config_path directory) (λ a. done t) (bytes fs)
        (lookup (config_path directory) fs) (owned (utf8 t)) (λ a gs. refl)
        (atomic_write-Replaces pid (config_path directory) directory (utf8 t) calls.write
          (temporary-apart (text "config.json") refl) fs)

  written-text : (u t : Text) (fs : Files) → (written u fs).1 ≡ ok t → u ≡ t
  written-text u t fs h =
      let bytes = atomic_write pid (config_path directory) (some directory) (utf8 u) calls.write in
      let (a, passed, last, same) = >>=-ok bytes (λ a. done u) fs t h in ok-inj u t last

  printed-ok :
      (m : Fields) (o : Option Text) (fs : Files) (t : Text)
      → print (object m) ≡ o
      → IsCurrent m
      → ((printed parse print o >>= written) fs).1 ≡ ok t
      → HoldsCurrent print (config_path directory) t ((printed parse print o >>= written) fs).0
  printed-ok m none fs t p c h = absurd (err-ok AppError.protocol t h)
  printed-ok m (some u) fs t p c h =
      let same = written-text u t fs h in
      subst (λ (t : Text). HoldsCurrent print (config_path directory) t (written u fs).0) same
        (m, p, c, (written-Replaces u fs).success t h)

  printed-Keeps :
      (o : Option Text) → Keeps (join directory pre_v2_backup) (printed parse print o >>= written)
  printed-Keeps none = λ fs. refl
  printed-Keeps (some t) = written-Keeps t

  object_step-Keeps : (o : Fields) → Keeps (join directory pre_v2_backup) (object_step o)
  object_step-Keeps o =
      >>=-Keeps (join directory pre_v2_backup) (migrate_object pid directory o calls)
        (λ m. printed parse print (print (object m)) >>= written)
        (migrate_object-Keeps pid directory calls pre_v2_backup (λ x. refl) o)
        (λ m. printed-Keeps (print (object m)))

  pub older_backup-Keeps :
      (original : Content) (version : ℕ) (n : Text)
      → text_beq pre_v1_backup n ≡ false
      → Keeps (join directory n) (older_backup original version)
  older_backup-Keeps original version n apart fs = elim (Bool-cases (version == 0)) [
    | inl y ↦ rw y (
        immutable_backup-Keeps (join directory pre_v1_backup) original calls.v1 (join directory n)
          (join-apart directory pre_v1_backup n apart) fs)
    | inr k ↦ rw k refl
  ]

  pub newer_backup-Keeps :
      (original : Content) (n : Text)
      → text_beq pre_v2_backup n ≡ false
      → Keeps (join directory n) (newer_backup original)
  newer_backup-Keeps original n apart =
      immutable_backup-Keeps (join directory pre_v2_backup) original calls.v2 (join directory n)
        (join-apart directory pre_v2_backup n apart)

  object_step-current :
      (o : Fields) (fs : Files) (t : Text)
      → (object_step o fs).1 ≡ ok t
      → HoldsCurrent print (config_path directory) t (object_step o fs).0
  object_step-current o fs t h =
      let next = λ (m : Fields). printed parse print (print (object m)) >>= written in
      let (m, passed, last, same) = >>=-ok (migrate_object pid directory o calls) next fs t h in
      rw same (
        printed-ok m (print (object m)) (migrate_object pid directory o calls fs).0 t refl
          (migrate_object-IsCurrent pid directory calls o m fs passed) last)

  backups_step-Upgraded :
      (original : Content) (version : ℕ) (o : Fields) (fs : Files) (t : Text)
      → (backups_step original version o fs).1 ≡ ok t
      → Upgraded original t (backups_step original version o fs).0
  backups_step-Upgraded original version o fs t h =
      let rest = newer_backup original >> object_step o in
      let (a, p₁, h₁, s₁) = >>=-ok (older_backup original version) (λ a. rest) fs t h in
      let gs = (older_backup original version fs).0 in
      let (b, p₂, h₂, s₂) = >>=-ok (newer_backup original) (λ b. object_step o) gs t h₁ in
      let ks = (newer_backup original gs).0 in
      let (f, found, bytes) =
        immutable_backup-Has (join directory pre_v2_backup) original calls.v2 gs b p₂ in
      rw (s₁, s₂)
        (record {
          backup = (f, object_step-Keeps o ks ∙ found, bytes);
          current = object_step-current o ks t h₂;
        })

  -- An upgrade that succeeds.
  pub upgrade-Upgraded :
      (original : Content) (version : ℕ) (o : Fields) (fs : Files) (t : Text)
      → (upgrade parse print pid
          (config_path directory)
          (some directory)
          original
          version
          o
          calls
          fs).1
        ≡ ok t
      → Upgraded original t
          (upgrade parse print pid
            (config_path directory)
            (some directory)
            original
            version
            o
            calls
            fs).0
  upgrade-Upgraded original version o fs t h =
      rw (upgrade_steps original version o fs) (elim (Bool-cases calls.is_secured) [
        | inl y ↦
            let p : (backups_step original version o fs).1 ≡ ok t =
              simp (upgrade_steps original version o fs, y) at h in
            simp y (backups_step-Upgraded original version o fs t p)
        | inr n ↦ absurd (err-ok AppError.io t (simp (upgrade_steps original version o fs, n) at h))
      ])
