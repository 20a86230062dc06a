-- ===== src/Configuration/Migration/Load.antt =====
-- What `load_and_migrate` of src/config_migration.rs guarantees.
use system_pilot.Base.Texts.{text}
use system_pilot.Base.{
  ℕ, ◌≡◌, ◌⊎◌, inl, inr, refl, ap, subst, ◌∙◌, true, Option, none, some, Text, text_eq, Bool-cases,
  ◌==◌, leb, arith,
}
use system_pilot.Configuration.Backup.Immutable.{Has}
use system_pilot.Configuration.Backup.Written.{read-Has, read-same}
use system_pilot.Configuration.Backup.{read}
use system_pilot.Configuration.Migration.Upgrade.{Upgraded, config_path, upgrade-Upgraded}
use system_pilot.Configuration.Migration.{
  MigrationCalls, migrate_version, load_and_migrate, parsed, from_slice, object_of, version_of,
}
use system_pilot.Disk.{Content, utf8, other, Files, Action, >>=-ok, ◌>>=◌}
use system_pilot.Error.{AppError, AppResult, ok, err-ok, ok-inj}
use system_pilot.Json.{
  Value, Fields, null, bool, number, string, array, object, get, as_object, as_u64,
}

as_object-some : (v : Value) (o : Fields) → as_object v ≡ some o → v ≡ object o
as_object-some (object f) o h = ground arith
as_object-some null o h = ground arith
as_object-some (bool b) o h = ground arith
as_object-some (number t) o h = ground arith
as_object-some (string t) o h = ground arith
as_object-some (array vs) o h = ground arith

-- The version of an object: 0 where it is absent.
abbrev pub version_number : Option Value → Option ℕ
version_number none = some 0
version_number (some v) = as_u64 v

-- The text is that of an object with this version.
abbrev pub HasVersion : (Text → Option Value) → Text → Fields → ℕ → Type 0
HasVersion parse u o n =
    (parse u ≡ some (object o)) × (version_number (get (text "schema_version") o) ≡ some n)

module _ (parse : Text → Option Value) (print : Value → Option Text) (pid directory : Text)
    (calls : MigrationCalls) where
  abbrev pub choose : Content → ℕ → Fields → Action Text
  choose original n o =
      migrate_version parse print pid (config_path directory) (some directory) original n o calls

  abbrev pub version_step : Content → Fields → Action Text
  version_step c o = version_of (get (text "schema_version") o) >>= λ n. choose c n o

  abbrev pub root_step : Content → Value → Action Text
  root_step c v = object_of (as_object v) >>= version_step c

  abbrev pub slice_step : Content → Action Text
  slice_step c = from_slice parse print c >>= root_step c

  -- The text of a file with a version that is chosen by.
  record Chosen (c : Content) (fs : Files) (r : Files × AppResult Text) : Type 0 where
    source : Text
    fields : Fields
    number : ℕ
    is_text : c ≡ utf8 source
    has_version : HasVersion parse source fields number
    runs : r ≡ choose c number fields fs

  version_step-Chosen :
      (u : Text) (o : Fields) (fs : Files) (t : Text) (v : Option Value) (w : Option ℕ)
      → parse u ≡ some (object o)
      → get (text "schema_version") o ≡ v
      → version_number v ≡ w
      → ((version_of v >>= λ n. choose (utf8 u) n o) fs).1 ≡ ok t
      → Chosen (utf8 u) fs ((version_of v >>= λ n. choose (utf8 u) n o) fs)
  unfolding version_of
  version_step-Chosen u o fs t none w p g e h = record {
    source = u;
    fields = o;
    number = 0;
    is_text = refl;
    has_version = (p, ap version_number g);
    runs = refl;
  }
  version_step-Chosen u o fs t (some v) none p g e h =
      absurd (err-ok AppError.validation t (simp e at h))
  version_step-Chosen u o fs t (some v) (some n) p g e h = record {
    source = u;
    fields = o;
    number = n;
    is_text = refl;
    has_version = (p, ap version_number g ∙ e);
    runs = simp e refl;
  }

  root_step-Chosen :
      (u : Text) (v : Value) (w : Option Fields) (fs : Files) (t : Text)
      → parse u ≡ some v
      → as_object v ≡ w
      → ((object_of w >>= version_step (utf8 u)) fs).1 ≡ ok t
      → Chosen (utf8 u) fs ((object_of w >>= version_step (utf8 u)) fs)
  root_step-Chosen u v none fs t p e h = absurd (err-ok AppError.validation t h)
  root_step-Chosen u v (some o) fs t p e h =
      version_step-Chosen u o fs t (get (text "schema_version") o)
        (version_number (get (text "schema_version") o)) (p ∙ ap some (as_object-some v o e)) refl
        refl h

  parsed-Chosen :
      (u : Text) (v : Option Value) (fs : Files) (t : Text)
      → parse u ≡ v
      → ((parsed parse print v >>= root_step (utf8 u)) fs).1 ≡ ok t
      → Chosen (utf8 u) fs ((parsed parse print v >>= root_step (utf8 u)) fs)
  parsed-Chosen u none fs t p h = absurd (err-ok AppError.config_parse t h)
  parsed-Chosen u (some v) fs t p h = root_step-Chosen u v (as_object v) fs t p refl h

  slice_step-Chosen :
      (c : Content) (fs : Files) (t : Text)
      → (slice_step c fs).1 ≡ ok t
      → Chosen c fs (slice_step c fs)
  slice_step-Chosen (utf8 u) fs t h = parsed-Chosen u (parse u) fs t refl h
  slice_step-Chosen (other b) fs t h = absurd (err-ok AppError.config_parse t h)

  -- How a load ends that succeeds.
  abbrev pub Loaded : Files → Text → Files → Type 0
  Loaded fs t after =
      ((o : Fields) × HasVersion parse t o 2
        × Has (config_path directory) (utf8 t) fs
        × (after ≡ fs))
      ⊎ ((u : Text) × (o : Fields) × (n : ℕ) × HasVersion parse u o n
          × (leb n 1 ≡ true)
          × Has (config_path directory) (utf8 u) fs
          × Upgraded parse print pid directory calls (utf8 u) t after)

  choose-Loaded :
      (u : Text) (o : Fields) (n : ℕ) (fs : Files) (t : Text)
      → HasVersion parse u o n
      → Has (config_path directory) (utf8 u) fs
      → (choose (utf8 u) n o fs).1 ≡ ok t
      → Loaded fs t (choose (utf8 u) n o fs).0
  unfolding migrate_version
  choose-Loaded u o n fs t v has h = elim (Bool-cases (n == 2)) [
    | inl y ↦
        let two : n ≡ 2 = ground arith in
        let same : u ≡ t = ok-inj u t (simp y at h) in
        let current : Loaded fs u fs = inl (o, (v.0, v.1 ∙ ap some two), has, refl) in
        simp y (subst (λ (t : Text). Loaded fs t fs) same current)
    | inr k ↦ elim (Bool-cases (leb n 1)) [
      | inl l ↦
          let after = upgrade-Upgraded parse print pid directory calls (utf8 u) n o fs t in
          simp (k, l) (inr (u, o, n, v, l, has, after (simp (k, l) at h)))
      | inr m ↦ absurd (err-ok AppError.validation t (simp (k, m) at h))
    ]
  ]

  -- A load of `config.json` that succeeds found a file of the current schema, gives its text and
  -- changes nothing; or it found an older one and gives the new text: the file holds it, it is the
  -- print of an object of the current schema that has none of the four old secrets, and the backup
  -- holds the bytes that were found.
  pub load_and_migrate-Loaded :
      (fs : Files) (t : Text)
      → (load_and_migrate parse print pid (config_path directory) (some directory) calls fs).1
        ≡ ok t
      → Loaded fs t
          (load_and_migrate parse print pid (config_path directory) (some directory) calls fs).0
  unfolding load_and_migrate
  load_and_migrate-Loaded fs t h =
      let (c, p, rest, same) =
        >>=-ok (read (config_path directory) calls.is_read) slice_step fs t h in
      let here = ap (slice_step c) (read-same (config_path directory) calls.is_read fs) in
      let chosen =
        slice_step-Chosen c fs t (subst (λ (r : Files × AppResult Text). r.1 ≡ ok t) here rest) in
      let all =
        same
        ∙ here
        ∙ chosen.runs
        ∙ ap (λ (d : Content). choose d chosen.number chosen.fields fs) chosen.is_text in
      let has =
        subst (λ (d : Content). Has (config_path directory) d fs) chosen.is_text
          (read-Has (config_path directory) calls.is_read fs c p) in
      let loaded =
        choose-Loaded chosen.source chosen.fields chosen.number fs t chosen.has_version has
          (subst (λ (r : Files × AppResult Text). r.1 ≡ ok t) all h) in
      rw all loaded
