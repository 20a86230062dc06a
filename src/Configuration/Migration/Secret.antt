-- ===== src/Configuration/Migration/Secret.antt =====
-- What the migration of the object of src/config_migration.rs leaves in it, and of the files.
use mathlib.Core.List.{append_assoc}
use system_pilot.Base.{
  ◌≡◌, ◌≢◌, refl, sym, ◌∙◌, subst, false, ◌∷◌, ◌++◌, none, some, Text, text_beq,
}
use system_pilot.Base.Texts.{text}
use system_pilot.Configuration.Backup.Immutable.{join-apart}
use system_pilot.Configuration.Migration.{MigrationCalls, migrate_object}
use system_pilot.Configuration.Secrets.Moved.{
  Moved, MovedWithin, migrate_secret-Moved, migrate_within-MovedWithin, migrate_secret-Keeps,
  migrate_within-Keeps,
}
use system_pilot.Configuration.Secrets.{migrate_secret, migrate_within, replace_model}
use system_pilot.Disk.Atomic.{Keeps, >>=-Keeps}
use system_pilot.Disk.{Action, Files, join, done, >>=-ok, ◌>>=◌}
use system_pilot.Error.{ok, ok-inj}
use system_pilot.Json
use system_pilot.Json.{Value, Fields, number, object, get, get-insert}

-- An object of the current schema without a secret.
pub record IsCurrent (o : Fields) : Type 0 where
  pub version : get (text "schema_version") o ≡ some (number (text "2"))
  pub gemini : get (text "gemini_api_key") o ≡ none
  pub syspilot : get (text "syspilot_api_key") o ≡ none
  pub telemetry :
      (inner : Fields)
      → get (text "distributed_telemetry") o ≡ some (object inner)
      → get (text "bearer_token") inner ≡ none
  pub fleet :
      (inner : Fields)
      → get (text "fleet") o ≡ some (object inner)
      → get (text "credential") inner ≡ none

module _ (pid directory : Text) (calls : MigrationCalls) where
  abbrev gemini_step : Fields → Action Fields
  gemini_step o =
      migrate_secret pid (text "gemini_credential") (join directory (text "credentials"))
        (text "gemini-api-key") calls.gemini (text "gemini_api_key") (replace_model o)

  abbrev syspilot_step : Fields → Action Fields
  syspilot_step =
      migrate_secret pid (text "syspilot_credential") (join directory (text "credentials"))
        (text "syspilot-api-key") calls.syspilot (text "syspilot_api_key")

  abbrev telemetry_step : Fields → Action Fields
  telemetry_step =
      migrate_within pid (text "bearer_credential") (join directory (text "credentials"))
        (text "telemetry-token") calls.telemetry (text "distributed_telemetry")
        (text "bearer_token")

  abbrev fleet_step : Fields → Action Fields
  fleet_step =
      migrate_within pid (text "credential_ref") (join directory (text "credentials"))
        (text "fleet-token") calls.fleet (text "fleet") (text "credential")

  abbrev version_step : Fields → Action Fields
  version_step o = done (Json.insert (text "schema_version") (number (text "2")) o)

  version_step-IsCurrent :
      (o₀ o₁ o₂ o₃ o₄ : Fields)
      → Moved (text "gemini_api_key") (text "gemini_credential") o₀ o₁
      → Moved (text "syspilot_api_key") (text "syspilot_credential") o₁ o₂
      → MovedWithin (text "distributed_telemetry") (text "bearer_token") o₂ o₃
      → MovedWithin (text "fleet") (text "credential") o₃ o₄
      → IsCurrent (Json.insert (text "schema_version") (number (text "2")) o₄)
  version_step-IsCurrent o₀ o₁ o₂ o₃ o₄ g s t f = record {
    version = get-insert (text "schema_version") (text "schema_version") (number (text "2")) o₄;
    gemini = rw get-insert (
        f.same (text "gemini_api_key") refl
        ∙ t.same (text "gemini_api_key") refl
        ∙ s.same (text "gemini_api_key") refl refl
        ∙ g.gone);
    syspilot =
        rw get-insert
          (f.same (text "syspilot_api_key") refl ∙ t.same (text "syspilot_api_key") refl ∙ s.gone);
    telemetry = λ inner h.
        t.gone inner (sym (f.same (text "distributed_telemetry") refl) ∙ (rw get-insert at h));
    fleet = λ inner h. f.gone inner (rw get-insert at h);
  }

  pub migrate_object-IsCurrent :
      (o o' : Fields) (fs : Files)
      → (migrate_object pid directory o calls fs).1 ≡ ok o'
      → IsCurrent o'
  unfolding migrate_object
  migrate_object-IsCurrent o o' fs h =
      let after_syspilot =
        λ (o₂ : Fields). telemetry_step o₂ >>= λ o₃. fleet_step o₃ >>= version_step in
      let (o₁, g, h₁, s₁) =
        >>=-ok (gemini_step o) (λ o₁. syspilot_step o₁ >>= after_syspilot) fs o' h in
      let fs₁ = (gemini_step o fs).0 in
      let (o₂, s, h₂, s₂) = >>=-ok (syspilot_step o₁) after_syspilot fs₁ o' h₁ in
      let fs₂ = (syspilot_step o₁ fs₁).0 in
      let (o₃, t, h₃, s₃) =
        >>=-ok (telemetry_step o₂) (λ o₃. fleet_step o₃ >>= version_step) fs₂ o' h₂ in
      let fs₃ = (telemetry_step o₂ fs₂).0 in
      let (o₄, f, h₄, s₄) = >>=-ok (fleet_step o₃) version_step fs₃ o' h₃ in
      let credentials = join directory (text "credentials") in
      subst IsCurrent (ok-inj (Json.insert (text "schema_version") (number (text "2")) o₄) o' h₄) (
        version_step-IsCurrent (replace_model o) o₁ o₂ o₃ o₄
          (migrate_secret-Moved pid (text "gemini_credential") credentials (text "gemini-api-key")
            calls.gemini (text "gemini_api_key") refl (replace_model o) o₁ fs g)
          (migrate_secret-Moved pid (text "syspilot_credential") credentials
            (text "syspilot-api-key") calls.syspilot (text "syspilot_api_key") refl o₁ o₂ fs₁ s)
          (migrate_within-MovedWithin pid (text "bearer_credential") credentials
            (text "telemetry-token") calls.telemetry (text "bearer_token") refl
            (text "distributed_telemetry") o₂ o₃ fs₂ t)
          (migrate_within-MovedWithin pid (text "credential_ref") credentials (text "fleet-token")
            calls.fleet (text "credential") refl (text "fleet") o₃ o₄ fs₃ f))

  -- A file beside the directory of the secrets stays as it is.
  module _ (name : Text)
      (beside : (x : Text) → text_beq (text "credentials" ++ (b'/' ∷ x)) name ≡ false) where
    secret-apart : (x : Text) → join (join directory (text "credentials")) x ≢ join directory name
    secret-apart x =
        rw (append_assoc directory (b'/' ∷ text "credentials") (b'/' ∷ x))
          (join-apart directory (text "credentials" ++ (b'/' ∷ x)) name (beside x))

    pub migrate_object-Keeps :
        (o : Fields) → Keeps (join directory name) (migrate_object pid directory o calls)
    unfolding migrate_object
    migrate_object-Keeps o =
        let credentials = join directory (text "credentials") in
        let p = join directory name in
        let temporary = λ (n : Text). secret-apart (b'.' ∷ (n ++ (b'-' ∷ (pid ++ text ".tmp")))) in
        >>=-Keeps p (gemini_step o)
          (λ o₁.
            syspilot_step o₁ >>= λ o₂. telemetry_step o₂ >>= λ o₃. fleet_step o₃ >>= version_step)
          (migrate_secret-Keeps pid (text "gemini_credential") credentials (text "gemini-api-key")
            calls.gemini p (temporary (text "gemini-api-key"))
            (secret-apart (text "gemini-api-key")) (text "gemini_api_key") (replace_model o))
          (λ o₁.
            >>=-Keeps p (syspilot_step o₁)
              (λ o₂. telemetry_step o₂ >>= λ o₃. fleet_step o₃ >>= version_step)
              (migrate_secret-Keeps pid (text "syspilot_credential") credentials
                (text "syspilot-api-key") calls.syspilot p (temporary (text "syspilot-api-key"))
                (secret-apart (text "syspilot-api-key")) (text "syspilot_api_key") o₁)
              (λ o₂.
                >>=-Keeps p (telemetry_step o₂) (λ o₃. fleet_step o₃ >>= version_step)
                  (migrate_within-Keeps pid (text "bearer_credential") credentials
                    (text "telemetry-token") calls.telemetry p (temporary (text "telemetry-token"))
                    (secret-apart (text "telemetry-token")) (text "distributed_telemetry")
                    (text "bearer_token") o₂)
                  (λ o₃.
                    >>=-Keeps p (fleet_step o₃) version_step
                      (migrate_within-Keeps pid (text "credential_ref") credentials
                        (text "fleet-token") calls.fleet p (temporary (text "fleet-token"))
                        (secret-apart (text "fleet-token")) (text "fleet") (text "credential") o₃)
                      (λ o₄ gs. refl))))
