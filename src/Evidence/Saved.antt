-- ===== src/Evidence/Saved.antt =====
-- What `save` of src/evidence.rs stores and `load` gives back.
use system_pilot.Base.Map.{lookup, remove, lookup-insert_self}
use system_pilot.Base.Sorting.{sort}
use system_pilot.Base.Texts.{text}
use system_pilot.Base.Texts.{all_of}
use system_pilot.Base.{
  ℕ, ◌≡◌, ◌⊎◌, inl, inr, refl, sym, ap, subst, ◌∙◌, Bool, true, false, ◌||◌, not, List, [], ◌∷◌,
  ◌++◌, Option, none, some, Text, text_beq, text_eq, length, Bool-cases,
}
use system_pilot.Disk.Atomic.{Keeps, >>=-Keeps, check-Keeps}
use system_pilot.Disk.{
  Content, utf8, File, Files, Action, owned, check, create_new, done, lift, rename, >>=-ok, ◌>>=◌,
  ◌>>◌,
}
use system_pilot.Error.{AppError, AppResult, ok, err-ok, ok-inj}
use system_pilot.Evidence.Shrinking.{
  prepare-Keeps, read_case-Keeps, as_text-Keeps, or_protocol-Keeps,
}
use system_pilot.Evidence.Retention.{
  HasFile, without-cases, without, fitting, cutoff_of, enforce_retention-fitting,
}
use system_pilot.Base.Strings.{rsplit_once, split_at}
use mathlib.Core.List.{reverse, reverse-append}
use system_pilot.Evidence.Store.{
  CaseStore, CaseSummary, ListCalls, RetentionCalls, SaveCalls, enforce_retention, is_newer,
  is_older, list_cases, load, save, summaries, summary, summary_of,
}
use system_pilot.Evidence.Directory.{
  as_text, extension_of, or_protocol, is_id_byte, file_of, has_extension, names, path, prepare,
  read_case, write_case,
}
use system_pilot.Evidence.{EvidenceBundleV1, validate}

path-ok : (id name : Text) → path id ≡ ok name → name ≡ file_of id
unfolding path
path-ok id name h = elim (Bool-cases (text_beq id [] || not (all_of is_id_byte id))) [
  | inl bad ↦ absurd (err-ok AppError.validation name (simp bad at h))
  | inr good ↦ sym (ok-inj (file_of id) name (simp good at h))
]

-- A file that was moved stands in its place.
rename-lookup :
    (source target : Text) (f : File) (b : Bool) (fs : Files) (a : Unit {0})
    → lookup source fs ≡ some f
    → (rename source target b (λ gs. gs) fs).1 ≡ ok a
    → lookup target (rename source target b (λ gs. gs) fs).0 ≡ some f
rename-lookup source target f true fs a there h =
    simp there (lookup-insert_self target f (remove source fs))
rename-lookup source target f false fs a there h = absurd (err-ok AppError.io a h)

write_case-lookup :
    (name : Text) (c : Content) (o : Option Content) (fs : Files) (a : Unit {0})
    → (write_case name c o fs).1 ≡ ok a
    → lookup name (write_case name c o fs).0 ≡ some (owned c)
write_case-lookup name c none fs a h = lookup-insert_self name (owned c) fs
write_case-lookup name c (some left) fs a h = absurd (err-ok AppError.io a h)

stem_live : (stem : Text) → extension_of (some (stem, text "json")) (text "tmp") ≡ false
stem_live [] = refl
stem_live (c ∷ t) = refl

file_of-live : (id : Text) → has_extension (file_of id) (text "tmp") ≡ false
unfolding has_extension rsplit_once split_at
file_of-live id =
    subst
      (λ (t : Text).
        extension_of
          (elim (split_at b'.' t) [ none ↦ none | some (x, y) ↦ some (reverse y, reverse x) ])
          (text "tmp")
        ≡ false)
      (sym (reverse-append id (text ".json"))) (stem_live (reverse (reverse id)))

or_protocol-ok :
    {A : Type 0} (o : Option A) (fs : Files) (a : A) → (or_protocol o fs).1 ≡ ok a → o ≡ some a
or_protocol-ok none fs a h = absurd (err-ok AppError.protocol a h)
or_protocol-ok (some b) fs a h = ap some (ok-inj b a h)

module _ (encode : EvidenceBundleV1 → Option Text) (decode : Text → Option EvidenceBundleV1)
    (len : Content → ℕ) where
  summary_of-Keeps :
      (p : Text) (calls : ListCalls) (name : Text) (c : Content)
      → Keeps p (summary_of encode decode len calls name c)
  unfolding summary_of
  summary_of-Keeps p calls name c =
      let stat = check (calls.is_stat name) AppError.io in
      let last = λ (b : EvidenceBundleV1). done (
        record {
          case_id = b.case_id;
          captured_at_unix_nanos = b.time_range.ended_at_unix_nanos;
          bytes = len c;
          findings = length b.findings;
        }
        ∷ []) in
      >>=-Keeps p (as_text AppError.protocol c)
        (λ t. or_protocol (decode t) >>= λ b. lift (validate b) >> (stat >> last b))
        (as_text-Keeps p AppError.protocol c)
        (λ t.
          >>=-Keeps p (or_protocol (decode t)) (λ b. lift (validate b) >> (stat >> last b))
            (or_protocol-Keeps p (decode t))
            (λ b.
              >>=-Keeps p (lift (validate b)) (λ u. stat >> last b) (λ fs. refl)
                (λ u.
                  >>=-Keeps p stat (λ v. last b) (check-Keeps p (calls.is_stat name) AppError.io)
                    (λ v fs. refl))))

  summary-Keeps :
      (p : Text) (calls : ListCalls) (name : Text) → Keeps p (summary encode decode len calls name)
  unfolding summary
  summary-Keeps p calls name fs = elim (Bool-cases (has_extension name (text "json"))) [
    | inl y ↦ rw y (
        >>=-Keeps p (read_case name (calls.is_read name)) (summary_of encode decode len calls name)
          (read_case-Keeps p name (calls.is_read name)) (summary_of-Keeps p calls name) fs)
    | inr n ↦ rw n refl
  ]

  summaries-Keeps :
      (p : Text) (calls : ListCalls) (ns : List Text)
      → Keeps p (summaries encode decode len calls ns)
  unfolding summaries
  summaries-Keeps p calls [] = λ fs. refl
  summaries-Keeps p calls (n ∷ ns) =
      >>=-Keeps p (summary encode decode len calls n)
        (λ s. summaries encode decode len calls ns >>= λ rest. done (s ++ rest))
        (summary-Keeps p calls n)
        (λ s.
          >>=-Keeps p (summaries encode decode len calls ns) (λ rest. done (s ++ rest))
            (summaries-Keeps p calls ns) (λ rest fs. refl))

  list_cases-Keeps :
      (p : Text) (calls : ListCalls)
      → has_extension p (text "tmp") ≡ false
      → Keeps p (list_cases encode decode len calls)
  unfolding list_cases
  list_cases-Keeps p calls live =
      let all : Action (List CaseSummary) = λ fs. summaries encode decode len calls (names fs) fs in
      let rest : Action (List CaseSummary) = all >>= λ cases. done (sort is_newer cases) in
      let listed = check calls.is_listed AppError.io in
      >>=-Keeps p (prepare calls.prepare) (λ a. listed >> rest) (prepare-Keeps p calls.prepare live)
        (λ a.
          >>=-Keeps p listed (λ b. rest) (check-Keeps p calls.is_listed AppError.io)
            (λ b.
              >>=-Keeps p all (λ cases. done (sort is_newer cases))
                (λ fs. summaries-Keeps p calls (names fs) fs) (λ cases fs. refl)))

  -- The retention of a save has found the case's file, and the cases that it removes have one of that file: they stand,
  -- from the oldest on, in front of the longest end of the list that is recent and within the limit.
  pub record Displaced (store : CaseStore) (b : EvidenceBundleV1) (calls : RetentionCalls)
      (gs after : Files) : Type 0 where
    pub bytes : Text
    pub encoded : encode b ≡ some bytes
    pub stored : lookup (file_of b.case_id) gs ≡ some (owned (utf8 bytes))
    pub cases : List CaseSummary
    pub old : List CaseSummary
    pub listed : (list_cases encode decode len calls.list gs).1 ≡ ok cases
    pub split :
        sort is_older cases
        ≡ old ++ fitting (cutoff_of store calls) store.retention_bytes (sort is_older cases)
    pub owner : HasFile (file_of b.case_id) old
    pub left : after ≡ without old (list_cases encode decode len calls.list gs).0

  load-found :
      (b : EvidenceBundleV1) (t : Text) (fs : Files)
      → path b.case_id ≡ ok (file_of b.case_id)
      → validate b ≡ ok tt
      → decode t ≡ some b
      → lookup (file_of b.case_id) fs ≡ some (owned (utf8 t))
      → (load encode decode len b.case_id true fs).1 ≡ ok b
  unfolding load read_case
  load-found b t fs p v d f = simp (p, f, d, v) refl

  -- Where bundles are decoded as they were encoded, after a save that succeeds `load` gives the bundle
  -- back, unless the retention of this very save counted its file among those that it had to remove.
  pub load-save :
      (store : CaseStore) (b : EvidenceBundleV1) (calls : SaveCalls) (fs : Files)
      → ((t : Text) → encode b ≡ some t → decode t ≡ some b)
      → (save encode decode len store b calls fs).1 ≡ ok tt
      → ((load encode decode len b.case_id true (save encode decode len store b calls fs).0).1
          ≡ ok b)
        ⊎ ((gs : Files) × Displaced store b calls.retention gs
              (save encode decode len store b calls fs).0)
  unfolding save
  load-save store b calls fs inverse h =
      let temporary = b.case_id ++ text ".tmp" in
      let after = enforce_retention encode decode len store calls.retention in
      let moved = λ (name : Text) (t : Text). rename temporary name calls.is_renamed (λ gs. gs) in
      let write = λ (t : Text). write_case temporary (utf8 t) calls.failed in
      let create = create_new temporary calls.is_created in
      let (a₁, valid, h₁, s₁) =
        >>=-ok (lift (validate b))
          (λ a.
            prepare calls.prepare
            >> (lift (path b.case_id) >>= λ name.
                or_protocol (encode b) >>= λ t. create >> (write t >> (moved name t >> after))))
          fs tt h in
      let (a₂, prepared, h₂, s₂) =
        >>=-ok (prepare calls.prepare)
          (λ a. lift (path b.case_id) >>= λ name.
            or_protocol (encode b) >>= λ t. create >> (write t >> (moved name t >> after)))
          fs tt h₁ in
      let fs₂ = (prepare calls.prepare fs).0 in
      let (name, named, h₃, s₃) =
        >>=-ok (lift (path b.case_id))
          (λ name. or_protocol (encode b) >>= λ t. create >> (write t >> (moved name t >> after)))
          fs₂ tt h₂ in
      let (t, encoded, h₄, s₄) =
        >>=-ok (or_protocol (encode b)) (λ t. create >> (write t >> (moved name t >> after))) fs₂ tt
          h₃ in
      let fs₃ = (or_protocol (encode b) fs₂).0 in
      let (a₄, created, h₅, s₅) =
        >>=-ok create (λ a. write t >> (moved name t >> after)) fs₃ tt h₄ in
      let fs₄ = (create fs₃).0 in
      let (a₅, wrote, h₆, s₆) = >>=-ok (write t) (λ a. moved name t >> after) fs₄ tt h₅ in
      let fs₅ = (write t fs₄).0 in
      let (a₆, done₆, h₇, s₇) = >>=-ok (moved name t) (λ a. after) fs₅ tt h₆ in
      let gs = (moved name t fs₅).0 in
      let same = s₁ ∙ s₂ ∙ s₃ ∙ s₄ ∙ s₅ ∙ s₆ ∙ s₇ in
      let at = path-ok b.case_id name named in
      let found =
        subst (λ (n : Text). lookup n gs ≡ some (owned (utf8 t))) at
          (rename-lookup temporary name (owned (utf8 t)) calls.is_renamed fs₅ a₆
            (write_case-lookup temporary (utf8 t) calls.failed fs₄ a₅ wrote) done₆) in
      let (cases, old, listed, split, left) =
        enforce_retention-fitting encode decode len store calls.retention gs h₇ in
      let kept =
        list_cases-Keeps (file_of b.case_id) calls.retention.list (file_of-live b.case_id) gs in
      elim (without-cases (file_of b.case_id) old
        (list_cases encode decode len calls.retention.list gs).0) [
          | inl still ↦ inl (
              rw same (
                load-found b t (after gs).0 (named ∙ ap ok at) valid
                  (inverse t (or_protocol-ok (encode b) fs₂ t encoded))
                  (ap (lookup (file_of b.case_id)) left ∙ still ∙ kept ∙ found)))
          | inr owner ↦ inr (
            gs,
            record {
              bytes = t;
              encoded = or_protocol-ok (encode b) fs₂ t encoded;
              stored = found;
              cases = cases;
              old = old;
              listed = listed;
              split = split;
              owner = owner;
              left = ap (λ (r : Files × AppResult (Unit {0})). r.0) same ∙ left;
            },
          )
        ]
