-- ===== src/Disk/Atomic.antt =====
-- What a write beside the target leaves of the files.
use system_pilot.Base.Map.{
  contains_key, insert, lookup, remove, lookup-insert_self, lookup-insert_other,
  lookup-remove_other,
}
use system_pilot.Base.{
  Bool, true, false, ◌||◌, not, Option, none, some, Text, text_eq, ◌≡◌, ◌≢◌, ◌⊎◌, inl, inr, refl,
  ◌∙◌, Bool-cases, Option-cases, arith,
}
use system_pilot.Disk.{
  Content, File, Files, WriteCalls, Action, owned, check, create_new, clean, write_all, rename,
  move_found, replace_file, bound, ◌>>=◌, ◌>>◌,
}
use system_pilot.Error.{AppResult, AppError, ok, err, err-ok}

-- A change of the files that leaves the file under a path as it is.
abbrev pub Holds : Text → (Files → Files) → Type 0
Holds p f = (fs : Files) → lookup p (f fs) ≡ lookup p fs

-- An action that does.
abbrev pub Keeps : {A : Type 0} → Text → Action A → Type 0
Keeps p m = (fs : Files) → lookup p (m fs).0 ≡ lookup p fs

pub bound-Keeps :
    {A B : Type 0} (p : Text) (f : A → Action B) (r : Files × AppResult A)
    → ((a : A) → Keeps p (f a))
    → lookup p (bound f r).0 ≡ lookup p r.0
bound-Keeps p f (fs, ok a) k = k a fs
bound-Keeps p f (fs, err e) k = refl

pub >>=-Keeps :
    {A B : Type 0} (p : Text) (m : Action A) (f : A → Action B)
    → Keeps p m
    → ((a : A) → Keeps p (f a))
    → Keeps p (m >>= f)
>>=-Keeps p m f h k fs = bound-Keeps p f (m fs) k ∙ h fs

pub >>-Keeps :
    {A B : Type 0} (p : Text) (m : Action A) (k : Action B)
    → Keeps p m
    → Keeps p k
    → Keeps p (m >> k)
>>-Keeps p m k h i = >>=-Keeps p m (λ _. k) h (λ a. i)

pub check-Keeps : (p : Text) (b : Bool) (e : AppError) → Keeps p (check b e)
check-Keeps p true e fs = refl
check-Keeps p false e fs = refl

pub clean-Holds : (p path : Text) (b : Bool) → path ≢ p → Holds p (clean b path)
clean-Holds p path true apart fs = lookup-remove_other path p fs apart
clean-Holds p path false apart fs = refl

pub create_new-Keeps : (p path : Text) (b : Bool) → Keeps p (create_new path b)
create_new-Keeps p path b fs = elim (Bool-cases (contains_key path fs || not b)) [
  | inl h ↦ rw h refl
  | inr h ↦ rw h refl
]

pub write_all-Keeps :
    (p path : Text) (c : Content) (b : Bool) (o : Option Content)
    → path ≢ p
    → Keeps p (write_all path c b o)
write_all-Keeps p path c b none apart fs = lookup-insert_other path p (owned c) fs apart
write_all-Keeps p path c b (some l) apart fs =
    clean-Holds p path b apart (insert path (owned l) fs)
    ∙ lookup-insert_other path p (owned l) fs apart

move_found-Holds :
    (p source target : Text) (undo : Files → Files) (o : Option File) (fs : Files)
    → source ≢ p
    → target ≢ p
    → Holds p undo
    → lookup p (move_found source target undo o fs).0 ≡ lookup p fs
move_found-Holds p source target undo none fs s t u = u fs
move_found-Holds p source target undo (some f) fs s t u =
    lookup-insert_other target p f (remove source fs) t ∙ lookup-remove_other source p fs s

pub rename-Keeps :
    (p source target : Text) (b : Bool) (undo : Files → Files)
    → source ≢ p
    → target ≢ p
    → Holds p undo
    → Keeps p (rename source target b undo)
rename-Keeps p source target true undo s t u fs =
    move_found-Holds p source target undo (lookup source fs) fs s t u
rename-Keeps p source target false undo s t u fs = u fs

-- What an action leaves under a path: the old file or the new one, and the new one where it succeeds.
pub record Replaces {A : Type 0} (old new : Option File) (file : File) (r : AppResult A)
    : Type 0 where
  pub whole : (new ≡ old) ⊎ (new ≡ some file)
  pub success : (a : A) → r ≡ ok a → new ≡ some file

-- What follows and keeps the file changes neither.
pub bound-Replaces :
    {A B : Type 0} (p : Text) (k : A → Action B) (r : Files × AppResult A) (old : Option File)
    (f : File)
    → ((a : A) → Keeps p (k a))
    → Replaces old (lookup p r.0) f r.1
    → Replaces old (lookup p (bound k r).0) f (bound k r).1
bound-Replaces p k (fs, ok a) old f same w =
    rw (same a fs) (record { whole = w.whole; success = λ b h. w.success a refl })
bound-Replaces p k (fs, err e) old f same w = record {
  whole = w.whole;
  success = λ b h. absurd (err-ok e b h);
}

module _ (target temporary : Text) (c : Content) (calls : WriteCalls) (undo : Files → Files) where
  pub replace_file-Keeps :
      (p : Text)
      → temporary ≢ p
      → target ≢ p
      → Holds p undo
      → Keeps p (replace_file target temporary c calls undo)
  unfolding replace_file
  replace_file-Keeps p t₁ t₂ u =
      let created = create_new temporary calls.is_created in
      let all = write_all temporary c calls.is_cleaned calls.failed in
      let moved = rename temporary target calls.is_renamed undo in
      let protected = check calls.is_protected AppError.io in
      >>-Keeps p (created >> all >> moved) protected
        (>>-Keeps p (created >> all) moved
          (>>-Keeps p created all (create_new-Keeps p temporary calls.is_created)
            (write_all-Keeps p temporary c calls.is_cleaned calls.failed t₁))
          (rename-Keeps p temporary target calls.is_renamed undo t₁ t₂ u))
        (check-Keeps p calls.is_protected AppError.io)

  check-Replaces :
      (old : Option File) (fs : Files) (b : Bool)
      → lookup target fs ≡ some (owned c)
      → Replaces old (lookup target (check b AppError.io fs).0) (owned c) (check b AppError.io fs).1
  check-Replaces old fs true h = record { whole = inr h; success = λ a e. h }
  check-Replaces old fs false h = record { whole = inr h; success = λ a e. h }

  pub replace_file-Replaces :
      temporary ≢ target
      → Holds target undo
      → (fs : Files)
      → Replaces
          (lookup target fs)
          (lookup target (replace_file target temporary c calls undo fs).0)
          (owned c)
          (replace_file target temporary c calls undo fs).1
  unfolding replace_file
  replace_file-Replaces apart u fs =
      let old = lookup target fs in
      elim (Bool-cases (contains_key temporary fs || not calls.is_created)) [
        | inl h ↦ simp h (record { whole = inl refl; success = λ a e. ground arith })
        | inr h ↦ elim (Option-cases calls.failed) [
          | inr (l, f) ↦
              simp (h, f)
                (record {
                  whole =
                      inl (write_all-Keeps target temporary c calls.is_cleaned (some l) apart fs);
                  success = λ a e. ground arith;
                })
          | inl f ↦
              let written = insert temporary (owned c) fs in
              elim (Bool-cases calls.is_renamed) [
                | inl m ↦
                    let after = insert target (owned c) (remove temporary written) in
                    simp (h, f, m, lookup-insert_self temporary (owned c) fs)
                      (check-Replaces old after calls.is_protected
                        (lookup-insert_self target (owned c) (remove temporary written)))
                | inr m ↦
                    simp (h, f, m)
                      (record {
                        whole =
                            inl
                              (u written ∙ lookup-insert_other temporary target (owned c) fs apart);
                        success = λ a e. ground arith;
                      })
              ]
        ]
      ]
