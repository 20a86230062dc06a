-- ===== src/Credentials/Storing.antt =====
-- What src/credentials.rs stores and reads back.
use system_pilot.Base.Map.{lookup}
use system_pilot.Base.Strings.{is_blank, is_whitespace, trim_end_matches, contains_str}
use system_pilot.Base.Texts.{text}
use system_pilot.Base.{
  ◌≡◌, ◌≢◌, ◌⊎◌, inl, inr, refl, sym, ap, true, false, ◌||◌, [], ◌∷◌, ◌++◌, some, Text, text_beq,
  text_eq, contains, nat_eq, length, length-append, Bool-cases, arith,
}
use system_pilot.Credentials.{
  CredentialRef, file, Host, resolve, usable, nonempty, is_newline, validate_name, read_owner_file,
  read_found, is_owner_only, store_owner_secret, temporary_secret,
}
use system_pilot.Disk.Atomic.{
  >>-Keeps, bound-Replaces, Replaces, Keeps, replace_file-Replaces, replace_file-Keeps,
}
use system_pilot.Disk.{
  utf8, Files, bound, WriteCalls, Action, owned, join, done, replace_file, ◌>>=◌, ◌>>◌,
}
use system_pilot.Error.{AppError, AppResult, ok, err}

trim_end_matches-blank : (t : Text) → trim_end_matches is_newline t ≡ [] → is_blank t ≡ true
unfolding trim_end_matches is_blank is_whitespace
trim_end_matches-blank [] h = refl
trim_end_matches-blank (c ∷ t) h = ground (arith, trim_end_matches-blank t)

module _ (pid directory name value : Text) (calls : WriteCalls) where
  unfoldable pub written : Action (Unit {0})
  written =
      replace_file (join directory name) (temporary_secret pid directory name) (utf8 value) calls
        (λ fs. fs)

  -- A store that is refused changes nothing; any other is the write.
  pub store_cases :
      (fs : Files)
      → ((e : AppError) × (store_owner_secret pid directory name value calls fs ≡ (fs, err e)))
        ⊎ ((is_blank value ≡ false)
            × (store_owner_secret pid directory name value calls fs
                ≡ (written >> done (file (join directory name))) fs))
  unfolding written store_owner_secret validate_name
  store_cases fs =
      elim (Bool-cases
        (text_beq name [] || (contains b'/' name || contains_str (text "..") name))) [
          | inl h ↦ rw h (inl (AppError.validation, refl))
          | inr h ↦ elim (Bool-cases (is_blank value)) [
            | inl b ↦ rw (h, b) (inl (AppError.validation, refl))
            | inr b ↦ elim (Bool-cases calls.is_secured) [
              | inl s ↦ simp (h, b, s) (inr (refl, refl))
              | inr s ↦ simp (h, b, s) (inl (AppError.io, refl))
            ]
          ]
        ]

  temporary-apart : temporary_secret pid directory name ≢ join directory name
  temporary-apart h = omega (
    arith,
    ap length h,
    length-append directory (b'/' ∷ name),
    length-append directory (b'/' ∷ (b'.' ∷ (name ++ (b'-' ∷ (pid ++ text ".tmp"))))),
    length-append name (b'-' ∷ (pid ++ text ".tmp")),
  )

  written-Replaces :
      (fs : Files)
      → Replaces
          (lookup (join directory name) fs)
          (lookup (join directory name) (written fs).0)
          (owned (utf8 value))
          (written fs).1
  unfolding written
  written-Replaces fs =
      replace_file-Replaces (join directory name) (temporary_secret pid directory name) (utf8 value)
        calls (λ fs. fs) temporary-apart (λ fs. refl) fs

  nonempty-some : (fs : Files) (t : Text) → t ≢ [] → (nonempty t fs).1 ≡ ok (some t)
  nonempty-some fs [] h = absurd (h refl)
  nonempty-some fs (c ∷ t) h = refl

  -- However a store ends, the file has its old value and mode or the new value and the owner's mode, and the
  -- latter where the store succeeds.
  pub store_owner_secret-Replaces :
      (fs : Files)
      → Replaces
          (lookup (join directory name) fs)
          (lookup (join directory name) (store_owner_secret pid directory name value calls fs).0)
          (owned (utf8 value))
          (store_owner_secret pid directory name value calls fs).1
  store_owner_secret-Replaces fs = elim (store_cases fs) [
    | inl (e, h) ↦ rw h (record { whole = inl refl; success = λ a p. ground arith })
    | inr (filled, h) ↦ rw h (
        bound-Replaces (join directory name) (λ _. done (file (join directory name))) (written fs)
          (lookup (join directory name) fs) (owned (utf8 value)) (λ a gs. refl)
          (written-Replaces fs))
  ]

  pub store_owner_secret-Keeps :
      (p : Text)
      → temporary_secret pid directory name ≢ p
      → join directory name ≢ p
      → Keeps p (store_owner_secret pid directory name value calls)
  unfolding written
  store_owner_secret-Keeps p t d fs = elim (store_cases fs) [
    | inl (e, h) ↦ rw h refl
    | inr (filled, h) ↦ rw h (
        >>-Keeps p written (done (file (join directory name)))
          (replace_file-Keeps (join directory name) (temporary_secret pid directory name)
            (utf8 value) calls (λ fs. fs) p t d (λ fs. refl))
          (λ fs. refl) fs)
  ]

  returned :
      (x : Files × AppResult (Unit {0})) (r : CredentialRef)
      → (bound (λ _. done (file (join directory name))) x).1 ≡ ok r
      → r ≡ file (join directory name)
  returned (fs, ok a) r h = ground arith
  returned (fs, err e) r h = ground arith

  stored-ok :
      (fs : Files) (r : CredentialRef)
      → (store_owner_secret pid directory name value calls fs).1 ≡ ok r
      → (r ≡ file (join directory name)) × (is_blank value ≡ false)
  stored-ok fs r h = elim (store_cases fs) [
    | inl (e, q) ↦ absurd (ground arith)
    | inr (filled, q) ↦ (returned (written fs) r (rw (sym q) h), filled)
  ]

  read_owned :
      (host : Host) (fs : Files)
      → host.is_stat (join directory name) ≡ true
      → host.is_read (join directory name) ≡ true
      → is_blank value ≡ false
      → lookup (join directory name) fs ≡ some (owned (utf8 value))
      → (resolve host (file (join directory name)) fs).1
        ≡ ok (some (trim_end_matches is_newline value))
  unfolding resolve read_owner_file read_found is_owner_only usable
  read_owned host fs s r filled found =
      simp (found, s, r, ◌>>=◌, bound)
        (nonempty-some fs (trim_end_matches is_newline value)
          (λ h. ground (arith, trim_end_matches-blank value)))

  -- A value that is stored is what its reference resolves to afterwards, where the file can be read, less the
  -- newlines at its end.
  pub resolve-store_owner_secret :
      (host : Host) (fs : Files) (r : CredentialRef)
      → host.is_stat (join directory name) ≡ true
      → host.is_read (join directory name) ≡ true
      → (store_owner_secret pid directory name value calls fs).1 ≡ ok r
      → (resolve host r (store_owner_secret pid directory name value calls fs).0).1
        ≡ ok (some (trim_end_matches is_newline value))
  resolve-store_owner_secret host fs r s d h =
      let (same, filled) = stored-ok fs r h in
      rw same (
        read_owned host (store_owner_secret pid directory name value calls fs).0 s d filled
          ((store_owner_secret-Replaces fs).success r h))
