-- ===== src/Base/Map.antt =====
-- Maps as association lists: `HashMap::get`, `insert` and `remove`, over keys with a test.
use mathlib.Core.Bool.{Bool, true, false, ◌||◌}
use mathlib.Core.List.{List, [], ◌∷◌}
use mathlib.Core.Logic.{inl, inr, ◌≢◌}
use mathlib.Core.Option.{Option, none, some}
use mathlib.Core.Path.{◌≡◌, refl, subst}
use Prim.Native.Nat.{suc, ◌+◌, ◌≤◌}
use native.Mathlib.Omega.{arith}
use system_pilot.Base.Equality.{Eq}
use system_pilot.Base.Lists.{length, All}
use system_pilot.Base.Tests.{if◌then◌else◌, Bool-cases}

abbrev pub Map {ℓ κ} : Type ℓ → Type κ → Type (ℓ ⊔ κ)
Map K V = List (K × V)

module _ {ℓ κ} {K : Type ℓ} {V : Type κ} ⦃e : Eq K⦄ where
  unfoldable pub lookup : K → Map K V → Option V
  lookup k [] = none
  lookup k ((j, v) ∷ m) = if e.beq j k then some v else lookup k m

  -- The entry keeps its place; a new key goes to the end.
  unfoldable pub insert : K → V → Map K V → Map K V
  insert k v [] = (k, v) ∷ []
  insert k v ((j, w) ∷ m) = if e.beq j k then (k, v) ∷ m else (j, w) ∷ insert k v m

  unfoldable pub remove : K → Map K V → Map K V
  remove k [] = []
  remove k ((j, w) ∷ m) = if e.beq j k then remove k m else (j, w) ∷ remove k m

  unfoldable pub contains_key : K → Map K V → Bool
  contains_key k [] = false
  contains_key k ((j, w) ∷ m) = if e.beq j k then true else contains_key k m

module _ {ℓ κ} {K : Type ℓ} {V : Type κ} ⦃e : Eq K⦄ where
  pub lookup-insert :
      (k j : K) (v : V) (m : Map K V)
      → lookup j (insert k v m) ≡ (if e.beq k j then some v else lookup j m)
  unfolding lookup insert
  lookup-insert k j v [] = refl
  lookup-insert k j v ((i, w) ∷ m) =
      ground (arith, e.beq_iff k j, e.beq_iff i k, e.beq_iff i j, lookup-insert k j v m)

  pub lookup-remove :
      (k j : K) (m : Map K V) → lookup j (remove k m) ≡ (if e.beq k j then none else lookup j m)
  unfolding lookup remove
  lookup-remove k j [] = ground arith
  lookup-remove k j ((i, w) ∷ m) =
      ground (arith, e.beq_iff k j, e.beq_iff i k, e.beq_iff i j, lookup-remove k j m)

  pub lookup-remove_self : (k : K) (m : Map K V) → lookup k (remove k m) ≡ none
  lookup-remove_self k m = ground (arith, lookup-remove k k m, e.beq_iff k k)

  pub lookup-contains_key :
      (k : K) (m : Map K V) → contains_key k m ≡ true → (v : V) × (lookup k m ≡ some v)
  unfolding lookup contains_key
  lookup-contains_key k [] h = ground arith
  lookup-contains_key k ((i, w) ∷ m) h = elim (Bool-cases (e.beq i k)) [
    | inl here ↦ (w, rw here)
    | inr there ↦ rw there (lookup-contains_key k m (ground arith))
  ]

  pub contains_key-none : (k : K) (m : Map K V) → contains_key k m ≡ false → lookup k m ≡ none
  unfolding lookup contains_key
  contains_key-none k [] h = refl
  contains_key-none k ((i, w) ∷ m) h = ground (arith, contains_key-none k m)

  pub contains_key-some :
      (k : K) (m : Map K V) (v : V) → lookup k m ≡ some v → contains_key k m ≡ true
  unfolding lookup contains_key
  contains_key-some k [] v h = ground arith
  contains_key-some k ((i, w) ∷ m) v h = ground (arith, contains_key-some k m v)

  pub length-insert :
      (k : K) (v : V) (m : Map K V)
      → length (insert k v m) ≡ (if contains_key k m then length m else suc (length m))
  unfolding insert contains_key
  length-insert k v [] = refl
  length-insert k v ((i, w) ∷ m) = ground (arith, length-insert k v m)

  pub length-remove-le : (k : K) (m : Map K V) → length (remove k m) ≤ length m
  unfolding remove
  length-remove-le k [] = omega arith
  length-remove-le k ((i, w) ∷ m) = ground (arith, length-remove-le k m)

  pub length-remove_present :
      (k : K) (m : Map K V) → contains_key k m ≡ true → length (remove k m) + 1 ≤ length m
  unfolding remove contains_key
  length-remove_present k [] h = ground arith
  length-remove_present k ((i, w) ∷ m) h =
      ground (arith, length-remove-le k m, length-remove_present k m)

  pub insert-All {μ} :
      (P : K × V → Type μ) (k : K) (v : V) (m : Map K V) → P (k, v) → All P m → All P (insert k v m)
  unfolding insert
  insert-All P k v [] p a = (p, a)
  insert-All P k v ((i, w) ∷ m) p a = elim (Bool-cases (e.beq i k)) [
    | inl here ↦ rw here (p, a.1)
    | inr there ↦ rw there (a.0, insert-All P k v m p a.1)
  ]

  pub remove-All {μ} : (P : K × V → Type μ) (k : K) (m : Map K V) → All P m → All P (remove k m)
  unfolding remove
  remove-All P k [] a = a
  remove-All P k ((i, w) ∷ m) a = elim (Bool-cases (e.beq i k)) [
    | inl here ↦ rw here (remove-All P k m a.1)
    | inr there ↦ rw there (a.0, remove-All P k m a.1)
  ]

  -- A property of every entry holds of what is looked up.
  pub lookup-All {μ} :
      (P : V → Type μ) (k : K) (m : Map K V) (v : V)
      → All (λ (x : K × V). P x.1) m
      → lookup k m ≡ some v
      → P v
  unfolding lookup
  lookup-All P k [] v a h = absurd (ground arith)
  lookup-All P k ((i, w) ∷ m) v a h = elim (Bool-cases (e.beq i k)) [
    | inl here ↦ subst P (ground arith) a.0
    | inr there ↦ lookup-All P k m v a.1 (ground arith)
  ]

module _ {ℓ κ} {K : Type ℓ} {V : Type κ} ⦃e : Eq K⦄ where
  pub contains_key-insert :
      (k j : K) (v : V) (m : Map K V)
      → contains_key j (insert k v m) ≡ (e.beq k j || contains_key j m)
  unfolding contains_key insert
  contains_key-insert k j v [] = ground arith
  contains_key-insert k j v ((i, w) ∷ m) =
      ground (arith, e.beq_iff k j, e.beq_iff i k, e.beq_iff i j, contains_key-insert k j v m)

  pub contains_key-remove :
      (k j : K) (m : Map K V)
      → contains_key j (remove k m) ≡ (if e.beq k j then false else contains_key j m)
  unfolding contains_key remove
  contains_key-remove k j [] = ground arith
  contains_key-remove k j ((i, w) ∷ m) =
      ground (arith, e.beq_iff k j, e.beq_iff i k, e.beq_iff i j, contains_key-remove k j m)

  pub contains_key_first : (k : K) (v : V) (m : Map K V) → contains_key k ((k, v) ∷ m) ≡ true
  unfolding contains_key
  contains_key_first k v m = ground (arith, e.beq_iff k k)

module _ {ℓ κ} {K : Type ℓ} {V : Type κ} ⦃e : Eq K⦄ where
  pub lookup-insert_self : (k : K) (v : V) (m : Map K V) → lookup k (insert k v m) ≡ some v
  lookup-insert_self k v m = ground (arith, lookup-insert k k v m, e.beq_iff k k)

  pub lookup-insert_other :
      (k j : K) (v : V) (m : Map K V) → k ≢ j → lookup j (insert k v m) ≡ lookup j m
  lookup-insert_other k j v m apart = ground (arith, lookup-insert k j v m, e.beq_iff k j)

  pub lookup-remove_other : (k j : K) (m : Map K V) → k ≢ j → lookup j (remove k m) ≡ lookup j m
  lookup-remove_other k j m apart = ground (arith, lookup-remove k j m, e.beq_iff k j)
