-- ===== src/Abi/Words.antt =====
-- Reading and writing fixed-width words of a byte slice, as crates/syspilot-abi/src/lib.rs reads
-- them by `from_ne_bytes` of a sub-slice. The byte order of the host is a parameter.
use mathlib.Core.List.{reverse, reverse-cons, reverse-reverse}
use native.Mathlib.Numerals.{unary_clauses}
use system_pilot.Base.{
  ℕ, zero, suc, ◌+◌, ◌*◌, ◌/◌, ◌%◌, ◌^◌, ◌<◌, ◌≡◌, refl, ap, ◌∙◌, List, [], ◌∷◌, ◌++◌, length, take,
  drop, arith, length-append, take_exact, drop_exact, drop_add,
}

pub data Endian : Type 0 where
  little big : Endian

-- The value of bytes, least significant first.
pub le_value : List ℕ → ℕ
le_value [] = 0
le_value (b ∷ bs) = b + 256 * le_value bs

unfoldable pub from_bytes : Endian → List ℕ → ℕ
unfolding le_value
from_bytes Endian.little bs = le_value bs
from_bytes Endian.big bs = le_value (reverse bs)

-- `uN::from_ne_bytes(bytes[start..start + size])`.
unfoldable pub word : Endian → ℕ → ℕ → List ℕ → ℕ
unfolding from_bytes
word e start size bs = from_bytes e (take size (drop start bs))

-- `to_ne_bytes`, the producer's side.
unfoldable pub le_bytes : ℕ → ℕ → List ℕ
le_bytes zero n = []
le_bytes (suc k) n = (n % 256) ∷ le_bytes k (n / 256)

unfoldable pub to_bytes : Endian → ℕ → ℕ → List ℕ
unfolding le_bytes
to_bytes Endian.little k n = le_bytes k n
to_bytes Endian.big k n = reverse (le_bytes k n)

length-le_bytes : (k n : ℕ) → length (le_bytes k n) ≡ k
unfolding le_bytes
length-le_bytes zero n = refl
length-le_bytes (suc k) n = ap suc (length-le_bytes k (n / 256))

quotient_bound : (n k : ℕ) → n < 256 ^ suc k → n / 256 < 256 ^ k
quotient_bound n k h = let h' : n < 256 ^ k * 256 = simp unary_clauses at h in omega arith

le_value-le_bytes : (k n : ℕ) → n < 256 ^ k → le_value (le_bytes k n) ≡ n
unfolding le_bytes le_value
le_value-le_bytes zero n h = omega arith
le_value-le_bytes (suc k) n h = omega (arith, le_value-le_bytes k (n / 256) (quotient_bound n k h))

-- A word reads back what its bytes were written from.
pub from_bytes-to_bytes : (e : Endian) (k n : ℕ) → n < 256 ^ k → from_bytes e (to_bytes e k n) ≡ n
unfolding from_bytes to_bytes
from_bytes-to_bytes Endian.little k n h = le_value-le_bytes k n h
from_bytes-to_bytes Endian.big k n h = rw (reverse-reverse (le_bytes k n)) (le_value-le_bytes k n h)

length-reverse {ℓ} : {A : Type ℓ} (xs : List A) → length (reverse xs) ≡ length xs
length-reverse [] = refl
length-reverse (x ∷ xs) =
    omega
      (arith, ap length (reverse-cons x xs), length-append (reverse xs) (x ∷ []), length-reverse xs)

pub length-to_bytes : (e : Endian) (k n : ℕ) → length (to_bytes e k n) ≡ k
unfolding to_bytes
length-to_bytes Endian.little k n = length-le_bytes k n
length-to_bytes Endian.big k n = length-reverse (le_bytes k n) ∙ length-le_bytes k n

-- A field of a record: its size in bytes and its value.
pub record Field : Type 0 where
  pub size : ℕ
  pub value : ℕ

abbrev pub Fits : Field → Type 0
Fits f = f.value < 256 ^ f.size

-- The bytes of fields that follow one another without padding.
unfoldable pub layout : Endian → List Field → List ℕ → List ℕ
layout e [] rest = rest
layout e (f ∷ fs) rest = to_bytes e f.size f.value ++ layout e fs rest

abbrev pub width : List Field → ℕ
width [] = 0
width (f ∷ fs) = f.size + width fs

pub length-layout :
    (e : Endian) (fs : List Field) (rest : List ℕ)
    → length (layout e fs rest) ≡ width fs + length rest
unfolding layout
length-layout e [] rest = omega arith
length-layout e (f ∷ fs) rest = omega (
  arith,
  length-append (to_bytes e f.size f.value) (layout e fs rest),
  length-to_bytes e f.size f.value,
  length-layout e fs rest,
)

drop-layout :
    (e : Endian) (before after : List Field) (rest : List ℕ)
    → drop (width before) (layout e (before ++ after) rest) ≡ layout e after rest
unfolding layout
drop-layout e [] after rest = refl
drop-layout e (f ∷ fs) after rest =
    rw (drop_add f.size (width fs) (layout e ((f ∷ fs) ++ after) rest), layout)
      (rw (drop_exact _ (layout e (fs ++ after) rest) _ (length-to_bytes e f.size f.value))
        (drop-layout e fs after rest))

-- Each field of a layout is read back, wherever it stands.
pub word-layout :
    (e : Endian) (before : List Field) (f : Field) (after : List Field) (rest : List ℕ)
    → Fits f
    → word e (width before) f.size (layout e (before ++ (f ∷ after)) rest) ≡ f.value
unfolding word
word-layout e before f after rest h = rw (drop-layout e before (f ∷ after) rest) (
    unfold layout in
    (rw (take_exact _ (layout e after rest) _ (length-to_bytes e f.size f.value))
      (from_bytes-to_bytes e f.size f.value h)))
