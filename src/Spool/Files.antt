-- ===== src/Spool/Files.antt =====
-- The files of the spool by their sequence numbers: order, presence, size.
use system_pilot.Base.{
  ℕ, ◌+◌, ◌≤◌, ◌<◌, ◌≡◌, inl, inr, refl, ap, false, List, [], ◌∷◌, Option, none, some, length, ◌==◌,
  Bool-cases, arith,
}
use system_pilot.Spool.{SpoolFile, exists_file, file_at, insert_file, remove_file}

-- Every file has a number up to the bound.
abbrev pub AreUpTo : ℕ → List SpoolFile → Type 0
AreUpTo n [] = Unit
AreUpTo n (f ∷ fs) = (f.sequence ≤ n) × AreUpTo n fs

-- Every file has a number above the bound.
abbrev pub AreAbove : ℕ → List SpoolFile → Type 0
AreAbove n [] = Unit
AreAbove n (f ∷ fs) = (n < f.sequence) × AreAbove n fs

-- The numbers ascend, so none occurs twice.
abbrev pub IsAscending : List SpoolFile → Type 0
IsAscending [] = Unit
IsAscending (f ∷ fs) = AreAbove f.sequence fs × IsAscending fs

abbrev pub total_bytes : List SpoolFile → ℕ
total_bytes [] = 0
total_bytes (f ∷ fs) = length f.bytes + total_bytes fs

pub AreUpTo-trans : (m n : ℕ) (fs : List SpoolFile) → m ≤ n → AreUpTo m fs → AreUpTo n fs
AreUpTo-trans m n [] h u = tt
AreUpTo-trans m n (f ∷ fs) h u = (omega (arith, h, u.0), AreUpTo-trans m n fs h u.1)

pub AreAbove-trans : (m n : ℕ) (fs : List SpoolFile) → n ≤ m → AreAbove m fs → AreAbove n fs
AreAbove-trans m n [] h u = tt
AreAbove-trans m n (f ∷ fs) h u = (omega (arith, h, u.0), AreAbove-trans m n fs h u.1)

pub exists_file-AreUpTo :
    (m n : ℕ) (fs : List SpoolFile) → AreUpTo m fs → m < n → exists_file n fs ≡ false
unfolding exists_file
exists_file-AreUpTo m n [] u h = refl
exists_file-AreUpTo m n (f ∷ fs) u h = ground (arith, exists_file-AreUpTo m n fs u.1 h)

pub insert_file-AreUpTo :
    (n : ℕ) (new : SpoolFile) (fs : List SpoolFile)
    → new.sequence ≤ n
    → AreUpTo n fs
    → AreUpTo n (insert_file new fs)
unfolding insert_file
insert_file-AreUpTo n new [] h u = (h, tt)
insert_file-AreUpTo n new (f ∷ fs) h u = ground (arith, insert_file-AreUpTo n new fs h u.1)

pub remove_file-AreUpTo :
    (n k : ℕ) (fs : List SpoolFile) → AreUpTo n fs → AreUpTo n (remove_file k fs)
unfolding remove_file
remove_file-AreUpTo n k [] u = tt
remove_file-AreUpTo n k (f ∷ fs) u = ground (arith, remove_file-AreUpTo n k fs u.1)

insert_file-AreAbove :
    (n : ℕ) (new : SpoolFile) (fs : List SpoolFile)
    → n < new.sequence
    → AreAbove n fs
    → AreAbove n (insert_file new fs)
unfolding insert_file
insert_file-AreAbove n new [] h u = (h, tt)
insert_file-AreAbove n new (f ∷ fs) h u = ground (arith, insert_file-AreAbove n new fs h u.1)

remove_file-AreAbove :
    (n k : ℕ) (fs : List SpoolFile) → AreAbove n fs → AreAbove n (remove_file k fs)
unfolding remove_file
remove_file-AreAbove n k [] u = tt
remove_file-AreAbove n k (f ∷ fs) u = ground (arith, remove_file-AreAbove n k fs u.1)

pub insert_file-IsAscending :
    (new : SpoolFile) (fs : List SpoolFile)
    → exists_file new.sequence fs ≡ false
    → IsAscending fs
    → IsAscending (insert_file new fs)
unfolding insert_file exists_file
insert_file-IsAscending new [] e a = (tt, tt)
insert_file-IsAscending new (f ∷ fs) e a = ground (
  arith,
  AreAbove-trans f.sequence new.sequence fs,
  insert_file-AreAbove f.sequence new fs,
  insert_file-IsAscending new fs,
)

pub remove_file-IsAscending :
    (k : ℕ) (fs : List SpoolFile) → IsAscending fs → IsAscending (remove_file k fs)
unfolding remove_file
remove_file-IsAscending k [] a = tt
remove_file-IsAscending k (f ∷ fs) a =
    ground (arith, remove_file-AreAbove f.sequence k fs a.0, remove_file-IsAscending k fs a.1)

pub total_bytes-insert_file :
    (new : SpoolFile) (fs : List SpoolFile)
    → total_bytes (insert_file new fs) ≤ length new.bytes + total_bytes fs
unfolding insert_file
total_bytes-insert_file new [] = omega arith
total_bytes-insert_file new (f ∷ fs) = ground (arith, total_bytes-insert_file new fs)

pub total_bytes-remove_file :
    (k : ℕ) (fs : List SpoolFile) → total_bytes (remove_file k fs) ≤ total_bytes fs
unfolding remove_file
total_bytes-remove_file k [] = omega arith
total_bytes-remove_file k (f ∷ fs) = ground (arith, total_bytes-remove_file k fs)

pub file_at-remove_ne :
    (n k : ℕ) (fs : List SpoolFile) → (k == n) ≡ false → file_at n (remove_file k fs) ≡ file_at n fs
unfolding file_at remove_file
file_at-remove_ne n k [] h = refl
file_at-remove_ne n k (f ∷ fs) h = ground (arith, file_at-remove_ne n k fs h)

file_at-AreAbove : (n : ℕ) (fs : List SpoolFile) → AreAbove n fs → file_at n fs ≡ none
unfolding file_at
file_at-AreAbove n [] u = refl
file_at-AreAbove n (f ∷ fs) u = ground (arith, file_at-AreAbove n fs u.1)

pub file_at-remove_self :
    (n : ℕ) (fs : List SpoolFile) → IsAscending fs → file_at n (remove_file n fs) ≡ none
unfolding file_at remove_file
file_at-remove_self n [] a = refl
file_at-remove_self n (f ∷ fs) a =
    ground (arith, file_at-remove_self n fs a.1, file_at-AreAbove f.sequence fs a.0)

pub file_at-insert_ne :
    (n : ℕ) (new : SpoolFile) (fs : List SpoolFile)
    → (new.sequence == n) ≡ false
    → file_at n (insert_file new fs) ≡ file_at n fs
unfolding file_at insert_file
file_at-insert_ne n new [] h = ground arith
file_at-insert_ne n new (f ∷ fs) h = ground (arith, file_at-insert_ne n new fs h)

-- What was moved into a directory stands there.
pub file_at-insert_self :
    (new : SpoolFile) (fs : List SpoolFile) → file_at new.sequence (insert_file new fs) ≡ some new
unfolding file_at insert_file
file_at-insert_self new [] = ground arith
file_at-insert_self new (f ∷ fs) = ground (arith, file_at-insert_self new fs)

pub file_at-sequence :
    (n : ℕ) (fs : List SpoolFile) (f : SpoolFile) → file_at n fs ≡ some f → f.sequence ≡ n
unfolding file_at
file_at-sequence n [] f h = absurd (ground arith)
file_at-sequence n (g ∷ fs) f h = elim (Bool-cases (g.sequence == n)) [
  | inl same ↦ ground arith
  | inr other ↦ file_at-sequence n fs f (rw other at h)
]

pub same_file : (f g : SpoolFile) → some f ≡ some g → f ≡ g
same_file f g h = ap (λ (o : Option SpoolFile). elim o [ none ↦ f | some x ↦ x ]) h
