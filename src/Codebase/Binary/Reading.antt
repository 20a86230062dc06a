-- ===== src/Codebase/Binary/Reading.antt =====
-- Reading from the front of a list of bytes, as `decode_binary` of src/codebase.rs reads from a file.
use system_pilot.Base.{
  ℕ, zero, suc, ◌≡◌, refl, Bool, true, false, List, [], ◌∷◌, ◌++◌, length, take, drop, leb,
  take_exact, drop_exact, length-append, if◌then◌else◌, arith,
}
use mathlib.Core.List.{append_assoc}

-- `ErrorKind::UnexpectedEof` and `ErrorKind::InvalidData`.
pub data DecodeError : Type 0 where
  unexpected_eof invalid_data : DecodeError

pub data Outcome {ℓ} (A : Type ℓ) : Type ℓ where
  ok : A → Outcome A
  err : DecodeError → Outcome A

abbrev pub Reader : Type 0 → Type 0
Reader A = List ℕ → Outcome (A × List ℕ)

infixl 5 ◌>>=◌ ◌>>◌
abbrev pub ◌>>=◌ : {A B : Type 0} → Reader A → (A → Reader B) → Reader B
◌>>=◌ m f bytes = elim (m bytes) [ ok (a, rest) ↦ f a rest | err e ↦ err e ]

abbrev pub ◌>>◌ : {A B : Type 0} → Reader A → Reader B → Reader B
m >> k = m >>= λ _. k

abbrev pub done : {A : Type 0} → A → Reader A
done a bytes = ok (a, bytes)

-- A test that returns an error where it fails.
abbrev pub check : Bool → Reader (Unit {0})
check true bytes = ok (tt, bytes)
check false bytes = err DecodeError.invalid_data

-- `read_exact`.
unfoldable pub read_exact : ℕ → Reader (List ℕ)
read_exact n bytes =
    if leb n (length bytes) then ok (take n bytes, drop n bytes) else err DecodeError.unexpected_eof

-- A loop that reads so many records.
unfoldable pub read_many : {A : Type 0} → ℕ → Reader A → Reader (List A)
read_many zero r = done []
read_many (suc n) r = do a ← r; as' ← read_many n r; done (a ∷ as')

-- The reader takes these bytes, whatever follows them, for this value.
pub Reads : {A : Type 0} → Reader A → List ℕ → A → Type 0
Reads r bytes a = (rest : List ℕ) → r (bytes ++ rest) ≡ ok (a, rest)

module _ {A B : Type 0} where
  pub Reads->>= :
      (r : Reader A) (f : A → Reader B) (bs cs : List ℕ) (a : A) (b : B)
      → Reads r bs a
      → Reads (f a) cs b
      → Reads (r >>= f) (bs ++ cs) b
  unfolding Reads
  Reads->>= r f bs cs a b first second rest =
      rw (append_assoc bs cs rest, ◌>>=◌, first (cs ++ rest)) (second rest)

  -- The last step of a block.
  pub Reads-done :
      (r : Reader A) (f : A → B) (bs : List ℕ) (a : A)
      → Reads r bs a
      → Reads (r >>= λ x. done (f x)) bs (f a)
  unfolding Reads
  Reads-done r f bs a first rest = rw (◌>>=◌, first rest) refl

pub Reads-check : {b : Bool} → b ≡ true → Reads (check b) [] tt
unfolding Reads
Reads-check h rest = rw h refl

pub read_exact-Reads : (bs : List ℕ) (n : ℕ) → length bs ≡ n → Reads (read_exact n) bs bs
unfolding Reads read_exact
read_exact-Reads bs n h rest =
    let fits : leb n (length (bs ++ rest)) ≡ true = ground (arith, length-append bs rest) in
    rw (fits, take_exact bs rest n h, drop_exact bs rest n h) refl

pub done-Reads : {A : Type 0} (a : A) → Reads (done a) [] a
unfolding Reads
done-Reads a rest = refl

-- What is read is what a reader of the bytes and of nothing more is.
pub Reads-exactly :
    {A : Type 0} (r : Reader A) (bytes : List ℕ) (a : A) (rest : List ℕ)
    → Reads r bytes a
    → r (bytes ++ rest) ≡ ok (a, rest)
unfolding Reads
Reads-exactly r bytes a rest h = h rest
