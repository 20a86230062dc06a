-- ===== src/Base/Texts.antt =====
-- Texts as lists of code points: literals, decimal numbers, order.
use Prim.Native.Char.{code}
use Prim.Native.Nat.{ℕ, zero, suc, ◌+◌, ◌-◌, ◌/◌, ◌%◌, ◌≤◌, ◌<◌}
use Prim.Native.String.{String}
use mathlib.Core.Bool.{Bool, true, false, ◌&&◌, ◌||◌}
use mathlib.Core.List.{[], ◌∷◌, ◌++◌}
use mathlib.Core.Logic.{inl, inr}
use mathlib.Core.Path.{◌≡◌, refl}
use native.Mathlib.Omega.{arith}
use system_pilot.Base.Equality.{Text, text_beq}
use system_pilot.Base.Tests.{ltb, ◌==◌, if◌then◌else◌, Bool-cases}

-- The code points of a literal.
abbrev pub text : String → Text
text String.[] = []
text (String.◌∷◌ c s) = code c ∷ text s

-- Decimal digits in front of a text; a `u64` has at most twenty.
decimal_onto : ℕ → ℕ → Text → Text
decimal_onto zero n rest = rest
decimal_onto (suc fuel) n rest =
    let more = decimal_onto fuel (n / 10) ((48 + n % 10) ∷ rest) in
    if ltb n 10 then (48 + n) ∷ rest else more

-- `{}` of an unsigned number.
unfoldable pub decimal : ℕ → Text
unfolding decimal_onto
decimal n = decimal_onto 20 n []

-- A hexadecimal digit, and such digits in front of a text; a `u64` has at most sixteen.
abbrev pub hex_digit : ℕ → ℕ
hex_digit d = if ltb d 10 then b'0' + d else 87 + d

unfoldable pub hex_onto : ℕ → ℕ → Text → Text
hex_onto zero n rest = rest
hex_onto (suc k) n rest =
    let more = hex_onto k (n / 16) (hex_digit (n % 16) ∷ rest) in
    if n / 16 == 0 then hex_digit (n % 16) ∷ rest else more

-- `{:x}` of an unsigned integer.
unfoldable pub hex : ℕ → Text
hex n = hex_onto 16 n []

-- `all` over the characters.
unfoldable pub all_of : (ℕ → Bool) → Text → Bool
all_of p [] = true
all_of p (c ∷ t) = p c && all_of p t

pub all_of-append :
    (p : ℕ → Bool) (s t : Text) → all_of p s ≡ true → all_of p t ≡ true → all_of p (s ++ t) ≡ true
unfolding all_of
all_of-append p [] t h k = k
all_of-append p (c ∷ s) t h k = ground (arith, all_of-append p s t)

module _ (p : ℕ → Bool) (digit : (d : ℕ) → d < 10 → p (48 + d) ≡ true) where
  decimal_onto-all_of :
      (fuel n : ℕ) (rest : Text) → all_of p rest ≡ true → all_of p (decimal_onto fuel n rest) ≡ true
  unfolding decimal_onto all_of
  decimal_onto-all_of zero n rest h = h
  decimal_onto-all_of (suc fuel) n rest h =
      ground
        (arith, digit n, digit (n % 10), decimal_onto-all_of fuel (n / 10) ((48 + n % 10) ∷ rest))

  pub decimal-all_of : (n : ℕ) → all_of p (decimal n) ≡ true
  unfolding decimal all_of
  decimal-all_of n = decimal_onto-all_of 20 n [] refl

  module _ (letter : (d : ℕ) → 10 ≤ d → d < 16 → p (87 + d) ≡ true) where
    hex_digit-p : (d : ℕ) → d < 16 → p (hex_digit d) ≡ true
    hex_digit-p d h = ground (arith, digit d, letter d)

    hex_onto-all_of :
        (fuel n : ℕ) (rest : Text) → all_of p rest ≡ true → all_of p (hex_onto fuel n rest) ≡ true
    unfolding hex_onto all_of
    hex_onto-all_of zero n rest h = h
    hex_onto-all_of (suc fuel) n rest h =
        let first = hex_digit-p (n % 16) (omega arith) in
        let rec = hex_onto-all_of fuel (n / 16) (hex_digit (n % 16) ∷ rest) (rw first h) in
        elim (Bool-cases (n / 16 == 0)) [ inl y ↦ rw (y, first) h | inr k ↦ rw k rec ]

    pub hex-all_of : (n : ℕ) → all_of p (hex n) ≡ true
    unfolding hex all_of
    hex-all_of n = hex_onto-all_of 16 n [] refl

-- `{}` of an `i32` that is given by its bit pattern.
unfoldable pub decimal_signed : ℕ → Text
unfolding decimal
decimal_signed n = if ltb n 2_147_483_648 then decimal n else b'-' ∷ decimal (4_294_967_296 - n)

-- The order of texts, which for UTF-8 is that of their bytes.
abbrev pub text_lt : Text → Text → Bool
text_lt [] [] = false
text_lt [] (b ∷ t) = true
text_lt (a ∷ s) [] = false
text_lt (a ∷ s) (b ∷ t) = ltb a b || (a == b && text_lt s t)

pub text_lt_irrefl : (s : Text) → text_lt s s ≡ false
text_lt_irrefl [] = refl
text_lt_irrefl (a ∷ s) = ground (arith, text_lt_irrefl s)

pub text_lt_trans : (s t u : Text) → text_lt s t ≡ true → text_lt t u ≡ true → text_lt s u ≡ true
text_lt_trans [] [] u h k = ground arith
text_lt_trans [] (b ∷ t) [] h k = ground arith
text_lt_trans [] (b ∷ t) (c ∷ u) h k = refl
text_lt_trans (a ∷ s) [] u h k = ground arith
text_lt_trans (a ∷ s) (b ∷ t) [] h k = ground arith
text_lt_trans (a ∷ s) (b ∷ t) (c ∷ u) h k = ground (arith, text_lt_trans s t u)

-- Of two texts that differ, one comes before the other.
pub text_lt_total : (s t : Text) → text_beq s t ≡ false → text_lt s t ≡ false → text_lt t s ≡ true
text_lt_total [] [] e h = ground arith
text_lt_total [] (b ∷ t) e h = ground arith
text_lt_total (a ∷ s) [] e h = refl
text_lt_total (a ∷ s) (b ∷ t) e h = ground (arith, text_lt_total s t)
