-- ===== src/Cloud/Admission/Permits.antt =====
-- The permits of `Admission` in crates/syspilot-cloud/src/lib.rs that requests hold, and the map of the identities.
use system_pilot.Base.Map.{
  Map, lookup, insert, contains_key, contains_key-none, contains_key-insert,
}
use system_pilot.Base.{
  ℕ, ◌+◌, ◌≤◌, ◌≡◌, ◌≢◌, refl, Bool, false, List, [], ◌∷◌, Option, none, some, Eq, length, ◌==◌,
  if◌then◌else◌, arith,
}
use system_pilot.Cloud.Admission.{Admission, drop_permit, retain, try_acquire}

-- The free permits of an identity; one that is not in the map has all of its own.
abbrev pub or_all : ℕ → Option ℕ → ℕ
or_all per none = per
or_all per (some free) = free

-- The admission and the permits that are held, each with its identity.
pub record Gate (Key : Type 0) : Type 0 where
  pub admission : Admission Key
  pub open admission use *
  pub permits : List Key

-- What happens at the gate: a request asks for a permit, or one that holds a permit ends.
pub data Step (Key : Type 0) : Type 0 where
  ask : Key → Step Key
  end : Key → Step Key

-- No identity has more free permits than it started with.
abbrev pub IsWithin : {Key : Type 0} → ℕ → Map Key ℕ → Type 0
IsWithin per [] = Unit
IsWithin per ((k, free) ∷ m) = (free ≤ per) × IsWithin per m

module _ {Key : Type 0} ⦃e : Eq Key⦄ where
  abbrev pub count : Key → List Key → ℕ
  count k [] = 0
  count k (j ∷ js) = (if e.beq j k then 1 else 0) + count k js

  abbrev pub without_one : Key → List Key → List Key
  without_one k [] = []
  without_one k (j ∷ js) = if e.beq j k then js else j ∷ without_one k js

  -- The free permits of an identity in an admission.
  abbrev pub free_at : Admission Key → Key → ℕ
  free_at a k = or_all a.per_identity (lookup k a.identities)

  -- No key occurs twice.
  abbrev pub IsKeyed : Map Key ℕ → Type 0
  IsKeyed [] = Unit
  IsKeyed ((k, free) ∷ m) = (contains_key k m ≡ false) × IsKeyed m

  abbrev pub asked : Gate Key → Key → Admission Key × Bool → Gate Key
  asked g k (a, granted) = record {
    admission = a;
    permits = if granted then k ∷ g.permits else g.permits;
  }

  unfoldable pub step : Step Key → Gate Key → Gate Key
  step (Step.ask k) g = asked g k (try_acquire g.admission k)
  step (Step.end k) g =
      if count k g.permits == 0
      then g
      else record { admission = drop_permit g.admission k; permits = without_one k g.permits }

  unfoldable pub run : List (Step Key) → Gate Key → Gate Key
  run [] g = g
  run (s ∷ ss) g = run ss (step s g)

  pub contains_key-retain :
      (k : Key) (per : ℕ) (m : Map Key ℕ)
      → contains_key k m ≡ false
      → contains_key k (retain per m) ≡ false
  unfolding contains_key retain
  contains_key-retain k per [] h = refl
  contains_key-retain k per ((j, free) ∷ m) h = ground (arith, contains_key-retain k per m)

  pub retain-IsKeyed : (per : ℕ) (m : Map Key ℕ) → IsKeyed m → IsKeyed (retain per m)
  unfolding retain
  retain-IsKeyed per [] u = tt
  retain-IsKeyed per ((k, free) ∷ m) u =
      ground (arith, contains_key-retain k per m u.0, retain-IsKeyed per m u.1)

  pub length-retain-le : (per : ℕ) (m : Map Key ℕ) → length (retain per m) ≤ length m
  unfolding retain
  length-retain-le per [] = omega arith
  length-retain-le per ((k, free) ∷ m) = ground (arith, length-retain-le per m)

  pub insert-IsKeyed : (k : Key) (v : ℕ) (m : Map Key ℕ) → IsKeyed m → IsKeyed (insert k v m)
  unfolding insert contains_key
  insert-IsKeyed k v [] u = (refl, tt)
  insert-IsKeyed k v ((j, free) ∷ m) u =
      ground
        (arith, contains_key-insert k j v m, insert-IsKeyed k v m u.1, e.beq_iff k j, e.beq_iff j k)

  pub retain-IsWithin : (per : ℕ) (m : Map Key ℕ) → IsWithin per m → IsWithin per (retain per m)
  unfolding retain
  retain-IsWithin per [] w = tt
  retain-IsWithin per ((k, free) ∷ m) w = ground (arith, retain-IsWithin per m w.1)

  pub insert-IsWithin :
      (k : Key) (v per : ℕ) (m : Map Key ℕ) → v ≤ per → IsWithin per m → IsWithin per (insert k v m)
  unfolding insert
  insert-IsWithin k v per [] h w = (h, tt)
  insert-IsWithin k v per ((j, free) ∷ m) h w = ground (arith, insert-IsWithin k v per m h w.1)

  -- A swept identity had all of its permits, so nothing is lost.
  pub lookup-retain :
      (k : Key) (per : ℕ) (m : Map Key ℕ)
      → IsKeyed m
      → IsWithin per m
      → or_all per (lookup k (retain per m)) ≡ or_all per (lookup k m)
  unfolding lookup retain
  lookup-retain k per [] u w = refl
  lookup-retain k per ((j, free) ∷ m) u w =
      ground (arith, lookup-retain k per m u.1 w.1, contains_key-none j m u.0, e.beq_iff j k)

  pub count-without_one :
      (j k : Key) (ps : List Key)
      → count k ps ≢ 0
      → count j ps ≡ (if e.beq k j then 1 else 0) + count j (without_one k ps)
  count-without_one j k [] h = absurd (h refl)
  count-without_one j k (p ∷ ps) h =
      ground (arith, count-without_one j k ps, e.beq_iff p k, e.beq_iff k j, e.beq_iff p j)

  pub length-without_one :
      (k : Key) (ps : List Key) → count k ps ≢ 0 → length (without_one k ps) + 1 ≡ length ps
  length-without_one k [] h = absurd (h refl)
  length-without_one k (p ∷ ps) h = ground (arith, length-without_one k ps)
