-- ===== src/Disk.antt =====
-- The files that the programs of src/ write: the calls of `std::fs` on a map of files by their paths. The
-- outcome of each call is an argument.
pub mod Atomic
use system_pilot.Base.Map.{Map, contains_key, insert, lookup, remove}
use system_pilot.Base.{
  ℕ, Bool, true, false, not, ◌&&◌, ◌||◌, List, ◌∷◌, ◌++◌, Option, none, some, Text, text_beq,
  text_eq, ◌≡◌, refl, arith, if◌then◌else◌,
}
use system_pilot.Error.{AppError, AppResult, ok, err}

-- The bytes of a file: those of a text, or bytes that are not UTF-8.
pub data Content : Type 0 where
  utf8 : Text → Content
  other : List ℕ → Content

abbrev pub content_beq : Content → Content → Bool
content_beq (utf8 a) (utf8 b) = text_beq a b
content_beq (other a) (other b) = text_beq a b
content_beq _ _ = false

pub record File : Type 0 where
  pub content : Content
  pub mode : ℕ

abbrev pub Files : Type 0
Files = Map Text File

-- `Path::join` of a name.
abbrev pub join : Text → Text → Text
join directory name = directory ++ (b'/' ∷ name)

-- A file that the program creates: the owner reads and writes it (0o600).
abbrev pub owned : Content → File
owned c = record { content = c; mode = 384 }

-- Code that changes files and may fail.
abbrev pub Action : Type 0 → Type 0
Action A = Files → Files × AppResult A

abbrev pub bound : {A B : Type 0} → (A → Action B) → Files × AppResult A → Files × AppResult B
bound f (fs, ok a) = f a fs
bound f (fs, err e) = (fs, err e)

bound-ok :
    {A B : Type 0} (f : A → Action B) (r : Files × AppResult A) (b : B)
    → (bound f r).1 ≡ ok b
    → (a : A) × (r.1 ≡ ok a) × ((f a r.0).1 ≡ ok b) × (bound f r ≡ f a r.0)
bound-ok f (fs, ok a) b h = (a, refl, h, refl)
bound-ok f (fs, err e) b h = ground arith

infixl 5 ◌>>=◌ ◌>>◌
abbrev pub ◌>>=◌ : {A B : Type 0} → Action A → (A → Action B) → Action B
◌>>=◌ m f fs = bound f (m fs)

abbrev pub ◌>>◌ : {A B : Type 0} → Action A → Action B → Action B
m >> k = m >>= λ _. k

abbrev pub done : {A : Type 0} → A → Action A
done a fs = (fs, ok a)

abbrev pub fail : {A : Type 0} → AppError → Action A
fail e fs = (fs, err e)

-- A call that succeeds or not, and changes no file's bytes.
abbrev pub check : Bool → AppError → Action (Unit {0})
check true e = done tt
check false e = fail e

-- What an action that succeeds went through.
pub >>=-ok :
    {A B : Type 0} (m : Action A) (f : A → Action B) (fs : Files) (b : B)
    → ((m >>= f) fs).1 ≡ ok b
    → (a : A) × ((m fs).1 ≡ ok a) × ((f a (m fs).0).1 ≡ ok b) × ((m >>= f) fs ≡ f a (m fs).0)
>>=-ok m f fs b h = bound-ok f (m fs) b h

-- The result of pure code.
abbrev pub lift : {A : Type 0} → AppResult A → Action A
lift r fs = (fs, r)

-- The outcomes of the calls that write a file beside its place and move it there: whether the directory can
-- be made and secured, whether the file beside can be created, what a write that fails has left of the bytes,
-- whether that can be removed, whether the file can be moved and its mode set, and whether the directory can
-- be opened and synced.
pub record WriteCalls : Type 0 where
  pub is_secured : Bool
  pub is_created : Bool
  pub failed : Option Content
  pub is_cleaned : Bool
  pub is_renamed : Bool
  pub is_protected : Bool
  pub is_synced : Bool

-- `create_new(true)`: there must be no such file.
abbrev pub create_new : Text → Bool → Action (Unit {0})
create_new path is_created fs =
    if contains_key path fs || not is_created then (fs, err AppError.io) else (fs, ok tt)

-- `fs::remove_file` of a temporary file, whose failure is only printed.
abbrev pub clean : Bool → Text → Files → Files
clean true path fs = remove path fs
clean false path fs = fs

-- `write_all` and `sync_all`, with the clean-up where they fail.
abbrev pub write_all : Text → Content → Bool → Option Content → Action (Unit {0})
write_all path c is_cleaned none fs = (insert path (owned c) fs, ok tt)
write_all path c is_cleaned (some left) fs =
    (clean is_cleaned path (insert path (owned left) fs), err AppError.io)

-- `fs::rename` over the target of the file that stands under the source, with what follows where it fails.
abbrev pub move_found :
    Text → Text → (Files → Files) → Option File → Files → Files × AppResult (Unit {0})
move_found source target undo none fs = (undo fs, err AppError.io)
move_found source target undo (some f) fs = (insert target f (remove source fs), ok tt)

abbrev pub rename : Text → Text → Bool → (Files → Files) → Action (Unit {0})
rename source target true undo fs = move_found source target undo (lookup source fs) fs
rename source target false undo fs = (undo fs, err AppError.io)

-- The new bytes are written beside the target and moved over it.
unfoldable pub replace_file :
    Text → Text → Content → WriteCalls → (Files → Files) → Action (Unit {0})
replace_file target temporary c calls undo =
    create_new temporary calls.is_created
    >> write_all temporary c calls.is_cleaned calls.failed
    >> rename temporary target calls.is_renamed undo
    >> check calls.is_protected AppError.io
