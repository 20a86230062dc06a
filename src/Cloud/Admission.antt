-- ===== src/Cloud/Admission.antt =====
-- crates/syspilot-cloud/src/lib.rs: `Admission`, over the semaphores of tokio: a semaphore is the number
-- of its free permits, and its `Arc` is shared exactly while a permit is held. An acquisition is one
-- step, and so is the drop of a permit.
pub mod Permits
pub mod Balance
use system_pilot.Base.Map.{Map, lookup, insert, contains_key}
use system_pilot.Base.{
  ℕ, ◌+◌, ◌-◌, ◌*◌, ◌/◌, ◌^◌, Bool, true, false, not, ◌&&◌, ◌||◌, List, [], ◌∷◌, Option, none, some,
  Eq, length, leb, ltb, ◌==◌, if◌then◌else◌,
}

pub record Admission (Key : Type 0) : Type 0 where
  pub global : ℕ
  pub identities : Map Key ℕ
  pub per_identity : ℕ
  pub max_identities : ℕ

abbrev pub max : ℕ → ℕ → ℕ
max a b = if ltb a b then b else a

-- `usize::saturating_mul`.
abbrev pub saturating_mul : ℕ → ℕ → ℕ
saturating_mul a b = if ltb (a * b) (2 ^ 64) then a * b else 2 ^ 64 - 1

module _ {Key : Type 0} where
  -- `Admission::new`.
  unfoldable pub new : ℕ → Admission Key
  new capacity = record {
    global = capacity;
    identities = [];
    per_identity = max (capacity / 4) 1;
    max_identities = saturating_mul capacity 4;
  }

  -- `retain(|_, permits| Arc::strong_count(permits) > 1)`.
  unfoldable pub retain : ℕ → Map Key ℕ → Map Key ℕ
  retain per [] = []
  retain per ((k, free) ∷ m) = if ltb free per then (k, free) ∷ retain per m else retain per m

module _ {Key : Type 0} ⦃e : Eq Key⦄ where
  -- No room for a new identity.
  abbrev pub is_full : Admission Key → Key → Map Key ℕ → Bool
  is_full a key m = not (contains_key key m) && leb a.max_identities (length m)

  abbrev pub swept : Admission Key → Key → Map Key ℕ
  swept a key =
      if is_full a key a.identities then retain a.per_identity a.identities else a.identities

  -- `entry(key).or_insert_with(…)`.
  abbrev pub with_entry : Admission Key → Key → Map Key ℕ → Map Key ℕ
  with_entry a key m = if contains_key key m then m else insert key a.per_identity m

  -- The permits of the identity and of the whole; the first is dropped where there is no second.
  abbrev pub acquire_both : Admission Key → Key → Map Key ℕ → Option ℕ → Admission Key × Bool
  acquire_both a key m none = (record a { identities = m }, false)
  acquire_both a key m (some free) =
      if free == 0 || a.global == 0
      then (record a { identities = m }, false)
      else (record a { global = a.global - 1; identities = insert key (free - 1) m }, true)

  abbrev pub acquire_in : Admission Key → Key → Map Key ℕ → Admission Key × Bool
  acquire_in a key m =
      if is_full a key m
      then (record a { identities = m }, false)
      else acquire_both a key (with_entry a key m) (lookup key (with_entry a key m))

  -- `try_acquire`.
  unfoldable pub try_acquire : Admission Key → Key → Admission Key × Bool
  try_acquire a key = acquire_in a key (swept a key)

  abbrev pub given_back : Admission Key → Key → Option ℕ → Admission Key
  given_back a key none = a
  given_back a key (some free) = record a {
    global = a.global + 1;
    identities = insert key (free + 1) a.identities;
  }

  -- The drop of an `AdmissionPermit`.
  unfoldable pub drop_permit : Admission Key → Key → Admission Key
  drop_permit a key = given_back a key (lookup key a.identities)
