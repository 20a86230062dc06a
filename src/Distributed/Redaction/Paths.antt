-- ===== src/Distributed/Redaction/Paths.antt =====
-- The paths that do not pass the privacy boundary of src/distributed.rs.
use mathlib.Core.List.{reverse, reverse-append}
use system_pilot.Base.Strings.{
  is_whitespace, split_from, split_whitespace, starts_with, trim_matches, trim_start, word_onto,
}
use system_pilot.Base.{
  ℕ, Bool, true, false, List, [], ◌∷◌, ◌++◌, Text, ◌≡◌, refl, ap, ◌∙◌, ◌⊎◌, inl, inr, Bool-cases,
  arith,
}
use system_pilot.Distributed.Redaction.{
  RedactionPolicy, any_word, contains_path, is_exposed, is_trimmed, redact_fields, redact_value,
  redact_values, redacted, sensitive_key,
}
use system_pilot.Json.{
  Value, Values, Fields, null, bool, number, string, array, object, no_values, value, no_fields,
  field,
}

abbrev slash : Text
slash = b'/' ∷ []

-- The text in front is empty, or ends in white space.
abbrev pub IsBoundary : Text → Type 0
IsBoundary before =
    (before ≡ []) ⊎ ((t : Text) × (c : ℕ) × (before ≡ t ++ (c ∷ [])) × (is_whitespace c ≡ true))

-- A slash stands at the start of the text, or right behind white space.
abbrev pub ShowsPath : Text → Type 0
ShowsPath t = (before : Text) × (after : Text) × (t ≡ before ++ (b'/' ∷ after)) × IsBoundary before

abbrev is_path : Text → Bool
is_path part = starts_with (trim_matches is_trimmed part) slash

trim_start-kept : (c : ℕ) (t : Text) → is_trimmed c ≡ false → trim_start is_trimmed (c ∷ t) ≡ c ∷ t
unfolding trim_start
trim_start-kept c t n = ap (λ b. elim b [ true ↦ trim_start is_trimmed t | false ↦ c ∷ t ]) n

trim_start-trimmed :
    (c : ℕ) (t : Text)
    → is_trimmed c ≡ true
    → trim_start is_trimmed (c ∷ t) ≡ trim_start is_trimmed t
unfolding trim_start
trim_start-trimmed c t y = ap (λ b. elim b [ true ↦ trim_start is_trimmed t | false ↦ c ∷ t ]) y

trim_start-slash : (t : Text) → (s : Text) × (trim_start is_trimmed (t ++ slash) ≡ s ++ slash)
trim_start-slash [] = ([], trim_start-kept b'/' [] (unfold is_trimmed in refl))
trim_start-slash (c ∷ t) = elim (Bool-cases (is_trimmed c)) [
  | inl y ↦ let (s, same) = trim_start-slash t in (s, trim_start-trimmed c (t ++ slash) y ∙ same)
  | inr n ↦ (c ∷ t, trim_start-kept c (t ++ slash) n)
]

starts_with-slash : (t : Text) → starts_with (b'/' ∷ t) slash ≡ true
unfolding starts_with
starts_with-slash [] = refl
starts_with-slash (c ∷ t) = refl

slash_is_path : (t : Text) → is_path (b'/' ∷ t) ≡ true
unfolding trim_matches trim_start is_trimmed
slash_is_path t =
    let (s, same) = trim_start-slash (reverse t) in
    let whole : trim_matches is_trimmed (b'/' ∷ t) ≡ b'/' ∷ reverse s =
      ap (λ x. reverse (trim_start is_trimmed x)) (reverse-append slash t)
      ∙ (ap reverse same ∙ reverse-append s slash) in
    ap (λ x. starts_with x slash) whole ∙ starts_with-slash (reverse s)

word_is_path : (w : Text) → is_path (reverse (w ++ slash)) ≡ true
word_is_path w = ap is_path (reverse-append w slash) ∙ slash_is_path (reverse w)

onto_path : (w : Text) (words : List Text) → any_word is_path (word_onto (w ++ slash) words) ≡ true
unfolding any_word
onto_path [] words = rw (slash_is_path []) refl
onto_path (c ∷ w) words = rw (word_is_path (c ∷ w)) refl

any_word-onto :
    (w : Text) (words : List Text)
    → any_word is_path words ≡ true
    → any_word is_path (word_onto w words) ≡ true
unfolding any_word
any_word-onto [] words h = h
any_word-onto (c ∷ w) words h = ground arith

split_from-space :
    (w : Text) (c : ℕ) (t : Text)
    → is_whitespace c ≡ true
    → split_from w (c ∷ t) ≡ word_onto w (split_from [] t)
unfolding split_from
split_from-space w c t y =
    ap (λ b. elim b [ true ↦ word_onto w (split_from [] t) | false ↦ split_from (c ∷ w) t ]) y

split_from-letter :
    (w : Text) (c : ℕ) (t : Text)
    → is_whitespace c ≡ false
    → split_from w (c ∷ t) ≡ split_from (c ∷ w) t
unfolding split_from
split_from-letter w c t n =
    ap (λ b. elim b [ true ↦ word_onto w (split_from [] t) | false ↦ split_from (c ∷ w) t ]) n

split_from-slash : (w t : Text) → any_word is_path (split_from (w ++ slash) t) ≡ true
split_from-slash w [] = unfold split_from in onto_path w []
split_from-slash w (c ∷ t) = elim (Bool-cases (is_whitespace c)) [
  | inl y ↦
      ap (any_word is_path) (split_from-space (w ++ slash) c t y) ∙ onto_path w (split_from [] t)
  | inr n ↦
      ap (any_word is_path) (split_from-letter (w ++ slash) c t n) ∙ split_from-slash (c ∷ w) t
]

split_from-word : (t : Text) → any_word is_path (split_from [] (b'/' ∷ t)) ≡ true
split_from-word t =
    ap (any_word is_path) (split_from-letter [] b'/' t (unfold is_whitespace in refl))
    ∙ split_from-slash [] t

split_from-later :
    (w b : Text) (c : ℕ) (t : Text)
    → is_whitespace c ≡ true
    → any_word is_path (split_from w ((b ++ (c ∷ [])) ++ (b'/' ∷ t))) ≡ true
split_from-later w [] c t y =
    ap (any_word is_path) (split_from-space w c (b'/' ∷ t) y)
    ∙ any_word-onto w (split_from [] (b'/' ∷ t)) (split_from-word t)
split_from-later w (d ∷ b) c t y =
    let rest = (b ++ (c ∷ [])) ++ (b'/' ∷ t) in
    elim (Bool-cases (is_whitespace d)) [
      | inl e ↦
          ap (any_word is_path) (split_from-space w d rest e)
          ∙ any_word-onto w (split_from [] rest) (split_from-later [] b c t y)
      | inr n ↦
          ap (any_word is_path) (split_from-letter w d rest n) ∙ split_from-later (d ∷ w) b c t y
    ]

contains_path-ShowsPath : (t : Text) → ShowsPath t → contains_path t ≡ true
unfolding contains_path split_whitespace
contains_path-ShowsPath t (before, after, same, inl empty) =
    ap contains_path (same ∙ ap (λ x. x ++ (b'/' ∷ after)) empty) ∙ split_from-word after
contains_path-ShowsPath t (before, after, same, inr (b, c, ends, y)) =
    ap contains_path (same ∙ ap (λ x. x ++ (b'/' ∷ after)) ends) ∙ split_from-later [] b c after y

redacted-ShowsPath : ¬ ShowsPath redacted
unfolding contains_path any_word split_whitespace split_from is_whitespace starts_with trim_matches
    trim_start is_trimmed
redacted-ShowsPath shows = absurd (ground (arith, contains_path-ShowsPath redacted shows))

-- No text that is a value, an element or a field's value shows a path.
mutual
  pub HidesPaths : Value → Type 0
  HidesPaths null = Unit
  HidesPaths (bool b) = Unit
  HidesPaths (number n) = Unit
  HidesPaths (string t) = ¬ ShowsPath t
  HidesPaths (array vs) = HidePaths vs
  HidesPaths (object fs) = FieldsHidePaths fs

  pub HidePaths : Values → Type 0
  HidePaths no_values = Unit
  HidePaths (value v vs) = HidesPaths v × HidePaths vs

  pub FieldsHidePaths : Fields → Type 0
  FieldsHidePaths no_fields = Unit
  FieldsHidePaths (field key child fs) = HidesPaths child × FieldsHidePaths fs

module _ (is_ip : Text → Bool) (policy : RedactionPolicy) (hidden : policy.paths ≡ true) where
  unexposed : (t : Text) → is_exposed is_ip policy t ≡ false → ¬ ShowsPath t
  unfolding is_exposed
  unexposed t n shows = absurd (ground (arith, contains_path-ShowsPath t shows))

  mutual
    unfolding redact_value redact_values redact_fields HidesPaths HidePaths FieldsHidePaths

    redact_value-Hides : (v : Value) → HidesPaths (redact_value is_ip policy v)
    redact_value-Hides null = tt
    redact_value-Hides (bool b) = tt
    redact_value-Hides (number n) = tt
    redact_value-Hides (string t) = elim (Bool-cases (is_exposed is_ip policy t)) [
      | inl exposed ↦ rw exposed redacted-ShowsPath
      | inr harmless ↦ rw harmless (unexposed t harmless)
    ]
    redact_value-Hides (array vs) = redact_values-Hide vs
    redact_value-Hides (object fs) = redact_fields-Hide fs

    redact_values-Hide : (vs : Values) → HidePaths (redact_values is_ip policy vs)
    redact_values-Hide no_values = tt
    redact_values-Hide (value v vs) = (redact_value-Hides v, redact_values-Hide vs)

    redact_fields-Hide : (fs : Fields) → FieldsHidePaths (redact_fields is_ip policy fs)
    redact_fields-Hide no_fields = tt
    redact_fields-Hide (field key child fs) = elim (Bool-cases (sensitive_key key policy)) [
      | inl mark ↦ rw mark (redacted-ShowsPath, redact_fields-Hide fs)
      | inr open_key ↦ rw open_key (redact_value-Hides child, redact_fields-Hide fs)
    ]

  -- Under a policy that hides paths, no text in a redacted value, however deep it stands in arrays and in the
  -- values of fields, has a slash at its start or right behind white space.
  pub redact-HidesPaths : (v : Value) → HidesPaths (redact_value is_ip policy v)
  redact-HidesPaths v = redact_value-Hides v
