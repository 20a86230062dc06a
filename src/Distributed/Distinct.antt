-- ===== src/Distributed/Distinct.antt =====
-- IDs without duplicates, and the growing set by which the loops of src/distributed.rs find them.
use system_pilot.Base.{
  ◌≡◌, refl, ◌↔◌, false, List, [], ◌∷◌, ◌++◌, Text, text_eq, contains, text_beq_iff, All, arith,
}

-- No ID occurs twice.
abbrev pub IsDistinct : List Text → Type 0
IsDistinct [] = Unit
IsDistinct (id ∷ ids) = (contains id ids ≡ false) × IsDistinct ids

-- The decided IDs after further ones.
abbrev pub decide_all : List Text → List Text → List Text
decide_all [] decided = decided
decide_all (id ∷ ids) decided = decide_all ids (id ∷ decided)

-- Each ID is new when it is decided.
abbrev pub IsFresh : List Text → List Text → Type 0
IsFresh decided [] = Unit
IsFresh decided (id ∷ ids) = (contains id decided ≡ false) × IsFresh (id ∷ decided) ids

abbrev pub IsApart : List Text → List Text → Type 0
IsApart decided = All (λ id. contains id decided ≡ false)

IsApart-more :
    (id : Text) (decided ids : List Text)
    → IsApart (id ∷ decided) ids ↔ ((contains id ids ≡ false) × IsApart decided ids)
unfolding contains
IsApart-more id decided [] = (λ _. (refl, tt), λ _. tt)
IsApart-more id decided (j ∷ ids) =
    ground (arith, IsApart-more id decided ids, text_beq_iff id j, text_beq_iff j id)

pub IsFresh-iff :
    (decided ids : List Text) → IsFresh decided ids ↔ (IsApart decided ids × IsDistinct ids)
IsFresh-iff decided [] = (λ _. (tt, tt), λ _. tt)
IsFresh-iff decided (id ∷ ids) =
    ground (arith, IsFresh-iff (id ∷ decided) ids, IsApart-more id decided ids)

IsApart-nothing : (ids : List Text) → IsApart [] ids
unfolding contains
IsApart-nothing [] = tt
IsApart-nothing (id ∷ ids) = (refl, IsApart-nothing ids)

-- In an empty set, new IDs are those without duplicates.
pub IsFresh-nothing : (ids : List Text) → IsFresh [] ids ↔ IsDistinct ids
IsFresh-nothing ids =
    (λ f. ((IsFresh-iff [] ids).0 f).1, λ d. (IsFresh-iff [] ids).1 (IsApart-nothing ids, d))

pub IsFresh-append :
    (decided xs ys : List Text)
    → IsFresh decided (xs ++ ys) ↔ (IsFresh decided xs × IsFresh (decide_all xs decided) ys)
IsFresh-append decided [] ys = (λ f. (tt, f), λ f. f.1)
IsFresh-append decided (x ∷ xs) ys = ground (arith, IsFresh-append (x ∷ decided) xs ys)
