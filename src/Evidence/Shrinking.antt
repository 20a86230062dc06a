-- ===== src/Evidence/Shrinking.antt =====
-- What the operations of src/evidence.rs do to a file that they do not write: they keep it.
use system_pilot.Base.Map.{lookup, contains_key, lookup-remove}
use system_pilot.Base.Texts.{text}
use system_pilot.Base.{
  ◌≡◌, inl, inr, refl, Bool, true, false, ◌&&◌, List, [], ◌∷◌, Option, none, some, Text, text_beq,
  text_beq_iff, ap, text_eq, Bool-cases, if◌then◌else◌, arith,
}
use system_pilot.Disk.Atomic.{Keeps, >>=-Keeps, check-Keeps}
use system_pilot.Disk.{Content, utf8, other, File, Action, check, done, ◌>>◌}
use system_pilot.Error.{AppError}
use system_pilot.Evidence.Directory.{
  PrepareCalls, content_at, as_text, or_protocol, has_extension, names, prepare, read_case,
  remove_file, remove_interrupted,
}

remove_file-Keeps :
    (p name : Text) (b : Bool) → text_beq name p ≡ false → Keeps p (remove_file name b)
unfolding remove_file
remove_file-Keeps p name b apart fs = elim (Bool-cases (contains_key name fs && b)) [
  | inl y ↦ rw y (ground (arith, lookup-remove name p fs))
  | inr n ↦ rw n refl
]

interrupted-Keeps :
    (p n : Text) (b : Bool)
    → has_extension p (text "tmp") ≡ false
    → Keeps p (if has_extension n (text "tmp") then remove_file n b else done tt)
interrupted-Keeps p n b live fs = elim (Bool-cases (has_extension n (text "tmp"))) [
  | inr k ↦ rw k refl
  | inl y ↦ elim (Bool-cases (text_beq n p)) [
    | inl same ↦
        let one : n ≡ p = (text_beq_iff n p).0 same in
        absurd (ground (arith, ap (λ (t : Text). has_extension t (text "tmp")) one))
    | inr apart ↦ rw y (remove_file-Keeps p n b apart fs)
  ]
]

remove_interrupted-Keeps :
    (p : Text) (calls : PrepareCalls) (ns : List Text)
    → has_extension p (text "tmp") ≡ false
    → Keeps p (remove_interrupted calls ns)
unfolding remove_interrupted
remove_interrupted-Keeps p calls [] live = λ fs. refl
remove_interrupted-Keeps p calls (n ∷ ns) live =
    >>=-Keeps p
      (if has_extension n (text "tmp") then remove_file n (calls.is_removed n) else done tt)
      (λ a. remove_interrupted calls ns) (interrupted-Keeps p n (calls.is_removed n) live)
      (λ a. remove_interrupted-Keeps p calls ns live)

-- Only what interrupted saves have left is cleared away.
pub prepare-Keeps :
    (p : Text) (calls : PrepareCalls)
    → has_extension p (text "tmp") ≡ false
    → Keeps p (prepare calls)
unfolding prepare
prepare-Keeps p calls live =
    let clear : Action (Unit {0}) = λ fs. remove_interrupted calls (names fs) fs in
    >>=-Keeps p (check calls.is_secured AppError.io)
      (λ a. check calls.is_listed AppError.io >> clear) (check-Keeps p calls.is_secured AppError.io)
      (λ a.
        >>=-Keeps p (check calls.is_listed AppError.io) (λ b. clear)
          (check-Keeps p calls.is_listed AppError.io)
          (λ b fs. remove_interrupted-Keeps p calls (names fs) live fs))

content_at-Keeps : (p : Text) (o : Option File) → Keeps p (content_at o)
content_at-Keeps p none fs = refl
content_at-Keeps p (some f) fs = refl

pub read_case-Keeps : (p name : Text) (b : Bool) → Keeps p (read_case name b)
unfolding read_case
read_case-Keeps p name true fs = content_at-Keeps p (lookup name fs) fs
read_case-Keeps p name false fs = refl

pub as_text-Keeps : (p : Text) (e : AppError) (c : Content) → Keeps p (as_text e c)
as_text-Keeps p e (utf8 t) fs = refl
as_text-Keeps p e (other b) fs = refl

pub or_protocol-Keeps : {A : Type 0} (p : Text) (o : Option A) → Keeps p (or_protocol o)
or_protocol-Keeps p none fs = refl
or_protocol-Keeps p (some a) fs = refl
