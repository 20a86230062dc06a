-- ===== src/Base/Strings.antt =====
-- The string operations of Rust's standard library that the program uses, on code points.
use Prim.Native.Nat.{ℕ, ◌+◌, ◌-◌, ◌*◌}
use mathlib.Core.Bool.{Bool, true, false, ◌&&◌, ◌||◌}
use mathlib.Core.List.{List, [], ◌∷◌, map, reverse}
use mathlib.Core.Option.{Option, none, some}
use system_pilot.Base.Equality.{Text, text_beq}
use system_pilot.Base.Tests.{leb, ◌==◌, if◌then◌else◌}

-- `char::is_whitespace`: the Unicode property White_Space.
unfoldable pub is_whitespace : ℕ → Bool
is_whitespace c =
    (leb 9 c && leb c 13)
    || (c == 32
        || (c == 0x85
            || (c == 0xa0
                || (c == 0x1680
                    || ((leb 0x2000 c && leb c 0x200a)
                        || (c == 0x2028
                            || (c == 0x2029 || (c == 0x202f || (c == 0x205f || c == 0x3000)))))))))

-- `trim().is_empty()`.
unfoldable pub is_blank : Text → Bool
unfolding is_whitespace
is_blank [] = true
is_blank (c ∷ t) = is_whitespace c && is_blank t

-- `to_ascii_lowercase`.
unfoldable pub to_ascii_lowercase : Text → Text
to_ascii_lowercase = map (λ c. if leb b'A' c && leb c b'Z' then c + 32 else c)

unfoldable pub starts_with : Text → Text → Bool
starts_with t [] = true
starts_with [] (p ∷ ps) = false
starts_with (c ∷ t) (p ∷ ps) = c == p && starts_with t ps

unfoldable pub ends_with : Text → Text → Bool
ends_with [] s = text_beq [] s
ends_with (c ∷ t) s = text_beq (c ∷ t) s || ends_with t s

-- One word more, unless it is empty.
abbrev pub word_onto : Text → List Text → List Text
word_onto [] words = words
word_onto (c ∷ w) words = reverse (c ∷ w) ∷ words

-- `trim_end_matches`.
unfoldable pub trim_end_matches : (ℕ → Bool) → Text → Text
trim_end_matches p [] = []
trim_end_matches p (c ∷ t) = elim (trim_end_matches p t) [
  | [] ↦ if p c then [] else c ∷ []
  | d ∷ r ↦ c ∷ (d ∷ r)
]

-- `str::contains` of a text.
unfoldable pub contains_str : Text → Text → Bool
contains_str s [] = starts_with [] s
contains_str s (c ∷ t) = starts_with (c ∷ t) s || contains_str s t

-- The words of a text, behind a word whose letters so far are given in reverse.
unfoldable pub split_from : Text → Text → List Text
unfolding is_whitespace
split_from w [] = word_onto w []
split_from w (c ∷ t) = elim (is_whitespace c) [
  | true ↦ word_onto w (split_from [] t)
  | false ↦ split_from (c ∷ w) t
]

-- `split_whitespace`.
unfoldable pub split_whitespace : Text → List Text
unfolding split_from
split_whitespace t = split_from [] t

-- `trim_start_matches`.
unfoldable pub trim_start : (ℕ → Bool) → Text → Text
trim_start p [] = []
trim_start p (c ∷ t) = elim (p c) [ true ↦ trim_start p t | false ↦ c ∷ t ]

-- `trim_matches`.
unfoldable pub trim_matches : (ℕ → Bool) → Text → Text
unfolding trim_start
trim_matches p t = reverse (trim_start p (reverse (trim_start p t)))

-- The text in front of the first occurrence of a character, and behind it.
unfoldable pub split_at : ℕ → Text → Option (Text × Text)
split_at sep [] = none
split_at sep (c ∷ t) =
    let rest : Option (Text × Text) = elim (split_at sep t) [
      | none ↦ none
      | some (a, b) ↦ some (c ∷ a, b)
    ] in
    if c == sep then some ([], t) else rest

-- `rsplit_once` at a character.
unfoldable pub rsplit_once : ℕ → Text → Option (Text × Text)
unfolding split_at
rsplit_once sep t = elim (split_at sep (reverse t)) [
  | none ↦ none
  | some (b, a) ↦ some (reverse a, reverse b)
]

unfoldable pub digits_value : ℕ → Text → Option ℕ
digits_value acc [] = some acc
digits_value acc (c ∷ t) = elim (leb b'0' c && leb c b'9') [
  | true ↦ digits_value (acc * 10 + (c - b'0')) t
  | false ↦ none
]

abbrev pub unsigned : Text → Option ℕ
unsigned [] = none
unsigned (c ∷ t) = digits_value 0 (c ∷ t)

abbrev without_plus : Text → Text
without_plus [] = []
without_plus (c ∷ t) = if c == b'+' then t else c ∷ t

-- `parse::<u16>().is_ok()`.
unfoldable pub is_u16 : Text → Bool
unfolding digits_value
is_u16 t = elim (unsigned (without_plus t)) [ none ↦ false | some n ↦ leb n 65_535 ]
