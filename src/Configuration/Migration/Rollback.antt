-- ===== src/Configuration/Migration/Rollback.antt =====
-- What follows a load of src/config_migration.rs: another load, or a rollback.
use system_pilot.Base.Map.{contains_key, contains_key-some}
use system_pilot.Base.Strings.{digits_value}
use system_pilot.Base.Texts.{text}
use system_pilot.Base.{
  ℕ, ◌≡◌, inl, inr, refl, sym, ap, subst, ◌∙◌, true, ◌++◌, Option, none, some, Text, text_eq,
  Bool-cases, leb, if◌then◌else◌, arith,
}
use system_pilot.Configuration.Backup.Immutable.{Has, join-apart}
use system_pilot.Configuration.Backup.Written.{read-Has, atomic_write-Replaces}
use system_pilot.Configuration.Backup.{read, pre_v2_backup, atomic_write}
use system_pilot.Configuration.Migration.Load.{
  Loaded, HasVersion, version_number, load_and_migrate-Loaded,
}
use system_pilot.Configuration.Migration.Upgrade.{config_path}
use system_pilot.Configuration.Migration.{
  MigrationCalls, RollbackCalls, load_and_migrate, migrate_version, version_of, rollback,
  chosen_backup, keep_current,
}
use system_pilot.Disk.{Content, utf8, File, Files, Action, owned, join, done, >>=-ok, ◌>>=◌, ◌>>◌}
use system_pilot.Error.{AppError, ok, err, err-ok, ok-inj}
use system_pilot.Json.{Value, Fields, object, get, as_u64}

-- A file has one content.
Has-unique : (path : Text) (c d : Content) (fs : Files) → Has path c fs → Has path d fs → c ≡ d
Has-unique path c d fs (f, p, q) (g, r, s) =
    let same : f ≡ g = ground arith in sym q ∙ ap (λ (x : File). x.content) same ∙ s

version_of-done :
    (v : Option Value) (n : ℕ) (fs : Files)
    → version_number v ≡ some n
    → version_of v fs ≡ (fs, ok n)
unfolding version_of
version_of-done none n fs h = let absent : 0 ≡ n = ground arith in ap (λ (k : ℕ). (fs, ok k)) absent
version_of-done (some v) n fs h = simp h refl

module _ (parse : Text → Option Value) (print : Value → Option Text) (pid directory : Text) where
  load_current :
      (calls : MigrationCalls) (fs : Files) (t : Text) (o : Fields)
      → calls.is_read ≡ true
      → Has (config_path directory) (utf8 t) fs
      → HasVersion parse t o 2
      → load_and_migrate parse print pid (config_path directory) (some directory) calls fs
        ≡ (fs, ok t)
  unfolding load_and_migrate read migrate_version
  load_current calls fs t o r (f, p, q) (e, v) =
      let version = version_of-done (get (text "schema_version") o) 2 fs v in
      simp (r, p, q, e, version) refl

  -- The text that a printer gives is parsed back.
  abbrev pub IsInverse : Type 0
  IsInverse = (v : Value) (t : Text) → print v ≡ some t → parse t ≡ some v

  Loaded-current :
      (calls : MigrationCalls) (fs after : Files) (t : Text)
      → IsInverse
      → Loaded parse print pid directory calls fs t after
      → (o : Fields) × HasVersion parse t o 2 × Has (config_path directory) (utf8 t) after
  unfolding as_u64 digits_value
  Loaded-current calls fs after t inverse (inl (o, v, has, same)) = (o, v, rw same has)
  Loaded-current calls fs after t inverse (inr (u, o, n, v, l, has, up)) =
      let (m, p, c, found) = up.current in
      (m, (inverse (object m) t p, ap version_number c.version), (owned (utf8 t), found, refl))

  -- A load that succeeds is the last one to change anything: the next load gives the same text and leaves all files.
  pub load_and_migrate-again :
      (calls next : MigrationCalls) (fs : Files) (t : Text)
      → IsInverse
      → next.is_read ≡ true
      → (load_and_migrate parse print pid (config_path directory) (some directory) calls fs).1
        ≡ ok t
      → load_and_migrate parse print pid
          (config_path directory)
          (some directory)
          next
          (load_and_migrate parse print pid (config_path directory) (some directory) calls fs).0
        ≡ (
          (load_and_migrate parse print pid (config_path directory) (some directory) calls fs).0,
          ok t,
        )
  load_and_migrate-again calls next fs t inverse r h =
      let after =
        (load_and_migrate parse print pid (config_path directory) (some directory) calls fs).0 in
      let (o, v, has) =
        Loaded-current calls fs after t inverse
          (load_and_migrate-Loaded parse print pid directory calls fs t h) in
      load_current next after t o r has v

  abbrev final : RollbackCalls → Text → Content → Action Text
  final back backup previous =
      keep_current pid (config_path directory) directory back
      >> (atomic_write pid (config_path directory) (some directory) previous back.write
          >> done backup)

  rollback_steps :
      (back : RollbackCalls) (fs : Files)
      → contains_key (join directory pre_v2_backup) fs ≡ true
      → rollback pid (config_path directory) (some directory) back fs ≡ (
          if back.is_secured
          then (read (join directory pre_v2_backup) back.is_read
                >>= final back (join directory pre_v2_backup))
              fs
          else (fs, err AppError.io))
  unfolding rollback chosen_backup
  rollback_steps back fs there = elim (Bool-cases back.is_secured) [
    | inl y ↦ simp (y, there) refl
    | inr n ↦ simp n refl
  ]

  final-restores :
      (back : RollbackCalls) (backup : Text) (c : Content) (fs : Files) (b : Text)
      → (final back backup c fs).1 ≡ ok b
      → (b ≡ backup) × Has (config_path directory) c (final back backup c fs).0
  final-restores back backup c fs b h =
      let path = config_path directory in
      let write = atomic_write pid path (some directory) c back.write in
      let (a, kept, rest, s₁) =
        >>=-ok (keep_current pid path directory back) (λ a. write >> done backup) fs b h in
      let gs = (keep_current pid path directory back fs).0 in
      let (w, wrote, last, s₂) = >>=-ok write (λ w. done backup) gs b rest in
      let apart =
        join-apart directory (text ".config-migration-" ++ (pid ++ text ".tmp"))
          (text "config.json") refl in
      let new = (atomic_write-Replaces pid path directory c back.write apart gs).success w wrote in
      (sym (ok-inj backup b last), rw (s₁, s₂) (owned c, new, refl))

  read-restores :
      (back : RollbackCalls) (c : Content) (fs : Files) (b : Text)
      → Has (join directory pre_v2_backup) c fs
      → ((read (join directory pre_v2_backup) back.is_read
            >>= final back (join directory pre_v2_backup))
          fs).1
        ≡ ok b
      → (b ≡ join directory pre_v2_backup)
        × Has
            (config_path directory)
            c
            ((read (join directory pre_v2_backup) back.is_read
                >>= final back (join directory pre_v2_backup))
              fs).0
  read-restores back c fs b has h =
      let backup = join directory pre_v2_backup in
      let (d, p, rest, same) = >>=-ok (read backup back.is_read) (final back backup) fs b h in
      let content = Has-unique backup d c fs (read-Has backup back.is_read fs d p) has in
      rw same (
        subst
          (λ (x : Content).
            (b ≡ backup)
            × Has (config_path directory) x (final back backup d (read backup back.is_read fs).0).0)
          content (final-restores back backup d (read backup back.is_read fs).0 b rest))

  -- A rollback restores the bytes of the newer backup where there is one.
  pub rollback-restores :
      (back : RollbackCalls) (c : Content) (fs : Files) (b : Text)
      → Has (join directory pre_v2_backup) c fs
      → (rollback pid (config_path directory) (some directory) back fs).1 ≡ ok b
      → (b ≡ join directory pre_v2_backup)
        × Has
            (config_path directory)
            c
            (rollback pid (config_path directory) (some directory) back fs).0
  rollback-restores back c fs b has h =
      let (f, found, bytes) = has in
      let steps =
        rollback_steps back fs (contains_key-some (join directory pre_v2_backup) fs f found) in
      elim (Bool-cases back.is_secured) [
        | inl y ↦ simp (steps, y) (read-restores back c fs b has (simp (steps, y) at h))
        | inr n ↦ absurd (err-ok AppError.io b (simp (steps, n) at h))
      ]

  backed_up :
      (calls : MigrationCalls) (fs after : Files) (t u : Text) (o : Fields) (n : ℕ)
      → Has (config_path directory) (utf8 u) fs
      → HasVersion parse u o n
      → leb n 1 ≡ true
      → Loaded parse print pid directory calls fs t after
      → Has (join directory pre_v2_backup) (utf8 u) after
  backed_up calls fs after t u o n has v older (inl (p, w, here, same)) =
      let one : u ≡ t =
        ground (arith, Has-unique (config_path directory) (utf8 u) (utf8 t) fs has here) in
      let fields = sym v.0 ∙ ap parse one ∙ w.0 in
      let same_fields : o ≡ p = ground arith in
      absurd (ground (arith, ap (get (text "schema_version")) same_fields))
  backed_up calls fs after t u o n has v older (inr (x, p, m, w, l, here, up)) =
      subst (λ (c : Content). Has (join directory pre_v2_backup) c after)
        (Has-unique (config_path directory) (utf8 x) (utf8 u) fs here has) up.backup

  -- After a load of `config.json` that succeeds on a file of schema 0 or 1, a rollback that succeeds
  -- answers the newer backup and has put back the bytes that the load found.
  pub rollback-load_and_migrate :
      (calls : MigrationCalls) (back : RollbackCalls) (fs : Files) (t u b : Text) (o : Fields)
      (n : ℕ)
      → Has (config_path directory) (utf8 u) fs
      → HasVersion parse u o n
      → leb n 1 ≡ true
      → (load_and_migrate parse print pid (config_path directory) (some directory) calls fs).1
        ≡ ok t
      → (rollback pid
          (config_path directory)
          (some directory)
          back
          (load_and_migrate parse print pid (config_path directory) (some directory) calls fs).0).1
        ≡ ok b
      → (b ≡ join directory pre_v2_backup)
        × Has
            (config_path directory)
            (utf8 u)
            (rollback pid
              (config_path directory)
              (some directory)
              back
              (load_and_migrate parse print pid
                (config_path directory)
                (some directory)
                calls
                fs).0).0
  rollback-load_and_migrate calls back fs t u b o n has v older h r =
      rollback-restores back (utf8 u)
        (load_and_migrate parse print pid (config_path directory) (some directory) calls fs).0 b
        (backed_up calls fs
          (load_and_migrate parse print pid (config_path directory) (some directory) calls fs).0 t u
          o n has v older (load_and_migrate-Loaded parse print pid directory calls fs t h))
        r
