-- ===== src/Evidence/Retention.antt =====
-- What `enforce_retention` of src/evidence.rs keeps.
use system_pilot.Base.Map.{lookup, lookup-remove, remove, contains_key}
use system_pilot.Base.Sorting.{sort, IsSorted, sort-IsSorted}
use system_pilot.Base.Texts.{all_of}
use system_pilot.Base.{
  ℕ, ◌-◌, ◌≤◌, ◌≡◌, inl, inr, refl, sym, ap, ◌∙◌, Bool, true, false, ◌&&◌, ◌||◌, List, [], ◌∷◌,
  ◌++◌, Option, Text, text_eq, text_beq, text_beq_iff, ◌⊎◌, not, All, leb, Bool-cases,
  if◌then◌else◌, arith,
}
use system_pilot.Disk.{Content, Files, Action, lift, >>=-ok, ◌>>=◌, ◌>>◌}
use system_pilot.Error.{AppError, AppResult, ok, err-ok}
use system_pilot.Evidence.Store.{
  CaseStore, CaseSummary, RetentionCalls, enforce_retention, is_expired, is_older, list_cases,
  remove_expired, saturating_mul, total_bytes,
}
use system_pilot.Evidence.Directory.{file_of, path, is_id_byte, remove_file}
use system_pilot.Evidence.{EvidenceBundleV1}

unfoldable pub are_recent : ℕ → List CaseSummary → Bool
are_recent cutoff [] = true
are_recent cutoff (c ∷ cs) = leb cutoff c.captured_at_unix_nanos && are_recent cutoff cs

-- The longest end of the list with recent cases only and within the limit of bytes.
unfoldable pub fitting : ℕ → ℕ → List CaseSummary → List CaseSummary
unfolding are_recent
fitting cutoff limit [] = []
fitting cutoff limit (c ∷ cs) =
    let shorter = fitting cutoff limit cs in
    if are_recent cutoff (c ∷ cs) && leb (total_bytes (c ∷ cs)) limit then c ∷ cs else shorter

-- The files without those of some cases.
unfoldable pub without : List CaseSummary → Files → Files
unfolding remove
without [] fs = fs
without (c ∷ cs) fs = without cs (remove (file_of c.case_id) fs)

-- One of the cases has this file.
abbrev pub HasFile : Text → List CaseSummary → Type 0
HasFile p [] = ⊥
HasFile p (c ∷ cs) = (file_of c.case_id ≡ p) ⊎ HasFile p cs

pub without-cases :
    (p : Text) (cs : List CaseSummary) (fs : Files)
    → (lookup p (without cs fs) ≡ lookup p fs) ⊎ HasFile p cs
unfolding without
without-cases p [] fs = inl refl
without-cases p (c ∷ cs) fs = elim (Bool-cases (text_beq (file_of c.case_id) p)) [
  | inl same ↦ inr (inl ((text_beq_iff (file_of c.case_id) p).0 same))
  | inr apart ↦ elim (without-cases p cs (remove (file_of c.case_id) fs)) [
    | inl kept ↦ inl (kept ∙ ground (arith, lookup-remove (file_of c.case_id) p fs))
    | inr one ↦ inr (inr one)
  ]
]

sorted-are_recent :
    (cutoff : ℕ) (c : CaseSummary) (cs : List CaseSummary)
    → cutoff ≤ c.captured_at_unix_nanos
    → All (λ y. is_older c y ≡ true) cs
    → are_recent cutoff cs ≡ true
unfolding are_recent
sorted-are_recent cutoff c [] h s = refl
sorted-are_recent cutoff c (d ∷ cs) h s = ground (arith, sorted-are_recent cutoff c cs h s.1, s.0)

module _ (is_removed : Text → Bool) (cutoff limit : ℕ) where
  remove_expired-none :
      (total : ℕ) (cs : List CaseSummary) (fs : Files)
      → total ≤ limit
      → are_recent cutoff cs ≡ true
      → remove_expired is_removed cutoff limit total cs fs ≡ (fs, ok tt)
  unfolding remove_expired are_recent
  remove_expired-none total [] fs h r = refl
  remove_expired-none total (c ∷ cs) fs h r =
      let live : is_expired cutoff limit total c ≡ false = ground arith in
      rw live (remove_expired-none total cs fs h (ground arith))

  abbrev removal : CaseSummary → Action (Unit {0})
  removal c = lift (path c.case_id) >>= λ name. remove_file name (is_removed name)

  removal-ok :
      (c : CaseSummary) (fs : Files) (a : Unit {0})
      → (removal c fs).1 ≡ ok a
      → (removal c fs).0 ≡ remove (file_of c.case_id) fs
  unfolding path remove_file
  removal-ok c fs a h =
      elim (Bool-cases (text_beq c.case_id [] || not (all_of is_id_byte c.case_id))) [
        | inl bad ↦ absurd (err-ok AppError.validation a (simp bad at h))
        | inr good ↦
            elim (Bool-cases
              (contains_key (file_of c.case_id) fs && is_removed (file_of c.case_id))) [
                | inl y ↦ simp (good, y) refl
                | inr n ↦ absurd (err-ok AppError.io a (simp (good, n) at h))
              ]
      ]

  -- The cases that the loop removes, in front of those that fit.
  pub remove_expired-fitting :
      (cs : List CaseSummary) (fs : Files)
      → IsSorted is_older cs
      → (remove_expired is_removed cutoff limit (total_bytes cs) cs fs).1 ≡ ok tt
      → (old : List CaseSummary) × (cs ≡ old ++ fitting cutoff limit cs)
        × ((remove_expired is_removed cutoff limit (total_bytes cs) cs fs).0 ≡ without old fs)
  unfolding remove_expired fitting without
  remove_expired-fitting [] fs s h = ([], refl, refl)
  remove_expired-fitting (c ∷ cs) fs s h =
      let rest = remove_expired is_removed cutoff limit (total_bytes cs) cs in
      elim (Bool-cases (is_expired cutoff limit (total_bytes (c ∷ cs)) c)) [
        | inl e ↦
            let misfit : (are_recent cutoff (c ∷ cs) && leb (total_bytes (c ∷ cs)) limit) ≡ false =
              unfold are_recent in ground arith in
            let less : total_bytes (c ∷ cs) - c.bytes ≡ total_bytes cs = omega arith in
            let (a, gone, next, same) =
              >>=-ok (removal c) (λ a. rest) fs tt (simp (e, less) at h) in
            let (old, split, left) = remove_expired-fitting cs (removal c fs).0 s.1 next in
            let step : remove_expired is_removed cutoff limit (total_bytes (c ∷ cs)) (c ∷ cs) fs
                ≡ (removal c >> rest) fs =
              simp (e, less) refl in
            let shorter : fitting cutoff limit (c ∷ cs) ≡ fitting cutoff limit cs =
              rw misfit refl in
            (
              c ∷ old,
              ap (◌∷◌ c) (split ∙ ap (◌++◌ old) (sym shorter)),
              ap (λ (r : Files × AppResult (Unit {0})). r.0) (step ∙ same)
                  ∙ left
                  ∙ ap (without old) (removal-ok c fs a gone),
            )
        | inr k ↦
            let recent = sorted-are_recent cutoff c cs (ground arith) s.0 in
            let fits : (are_recent cutoff (c ∷ cs) && leb (total_bytes (c ∷ cs)) limit) ≡ true =
              unfold are_recent in ground (arith, recent) in
            let step : remove_expired is_removed cutoff limit (total_bytes (c ∷ cs)) (c ∷ cs) fs
                ≡ (fs, ok tt) =
              simp k (remove_expired-none (total_bytes (c ∷ cs)) cs fs (ground arith) recent) in
            let whole : fitting cutoff limit (c ∷ cs) ≡ c ∷ cs = rw fits refl in
            ([], sym whole, ap (λ (r : Files × AppResult (Unit {0})). r.0) step)
      ]

unfoldable pub cutoff_of : CaseStore → RetentionCalls → ℕ
cutoff_of store calls = calls.now - saturating_mul store.retention_days 86_400_000_000_000

is_older_total : (x y : CaseSummary) → is_older x y ≡ false → is_older y x ≡ true
is_older_total x y h = ground arith

is_older_trans :
    (x y z : CaseSummary) → is_older x y ≡ true → is_older y z ≡ true → is_older x z ≡ true
is_older_trans x y z h k = ground arith

module _ (encode : EvidenceBundleV1 → Option Text) (decode : Text → Option EvidenceBundleV1)
    (len : Content → ℕ) where
  -- Where the retention succeeds, of the cases that `list` finds, from the oldest on, it has removed the files of some first
  -- ones and nothing else; those behind are the longest end of the list that is recent and within the limit of bytes.
  pub enforce_retention-fitting :
      (store : CaseStore) (calls : RetentionCalls) (fs : Files)
      → (enforce_retention encode decode len store calls fs).1 ≡ ok tt
      → (cases : List CaseSummary) × (old : List CaseSummary) × ((list_cases encode decode len
            calls.list fs).1
          ≡ ok cases)
        × (sort is_older cases
            ≡ old ++ fitting (cutoff_of store calls) store.retention_bytes (sort is_older cases))
        × ((enforce_retention encode decode len store calls fs).0
            ≡ without old (list_cases encode decode len calls.list fs).0)
  unfolding enforce_retention cutoff_of
  enforce_retention-fitting store calls fs h =
      let next = λ (cases : List CaseSummary).
        remove_expired calls.is_removed (cutoff_of store calls) store.retention_bytes
          (total_bytes (sort is_older cases)) (sort is_older cases) in
      let (cases, listed, removed, same) =
        >>=-ok (list_cases encode decode len calls.list) next fs tt h in
      let sorted = sort-IsSorted is_older is_older_total is_older_trans cases in
      let (old, split, left) =
        remove_expired-fitting calls.is_removed (cutoff_of store calls) store.retention_bytes
          (sort is_older cases) (list_cases encode decode len calls.list fs).0 sorted removed in
      (cases, old, listed, split, ap (λ (r : Files × AppResult (Unit {0})). r.0) same ∙ left)
