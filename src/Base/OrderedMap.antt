-- ===== src/Base/OrderedMap.antt =====
-- `BTreeMap` with texts for keys: an association list in key order. `get` is `lookup` of `Base.Map`.
use mathlib.Core.Bool.{true}
use mathlib.Core.List.{[], ◌∷◌}
use mathlib.Core.Logic.{inl, inr}
use mathlib.Core.Option.{some}
use mathlib.Core.Path.{◌≡◌, refl, subst}
use native.Mathlib.Omega.{arith}
use system_pilot.Base.Equality.{Text, text_beq, text_beq_iff, text_eq}
use system_pilot.Base.Map.{Map, lookup}
use system_pilot.Base.Tests.{if◌then◌else◌, Bool-cases}
use system_pilot.Base.Texts.{text_lt, text_lt_trans, text_lt_total}

module _ {κ} {V : Type κ} where
  -- `BTreeMap::insert`.
  unfoldable pub insert_ordered : Text → V → Map Text V → Map Text V
  insert_ordered k v [] = (k, v) ∷ []
  insert_ordered k v ((j, w) ∷ m) =
      let rest = insert_ordered k v m in
      if text_beq j k
      then (k, v) ∷ m
      else if text_lt k j
      then (k, v) ∷ ((j, w) ∷ m)
      else (j, w) ∷ rest

  -- Every key comes before those behind it.
  abbrev pub Above : Text → Map Text V → Type 0
  Above k [] = Unit
  Above k ((j, w) ∷ m) = (text_lt k j ≡ true) × Above k m

  abbrev pub IsOrdered : Map Text V → Type 0
  IsOrdered [] = Unit
  IsOrdered ((k, v) ∷ m) = Above k m × IsOrdered m

module _ {κ} {V : Type κ} where
  pub lookup-insert_ordered :
      (k j : Text) (v : V) (m : Map Text V)
      → lookup j (insert_ordered k v m) ≡ (if text_beq k j then some v else lookup j m)
  unfolding lookup insert_ordered
  lookup-insert_ordered k j v [] = refl
  lookup-insert_ordered k j v ((i, w) ∷ m) =
      ground
        (arith, text_beq_iff k j, text_beq_iff i k, text_beq_iff i j, lookup-insert_ordered k j v m)

  Above-trans : (j k : Text) (m : Map Text V) → text_lt j k ≡ true → Above k m → Above j m
  Above-trans j k [] h a = tt
  Above-trans j k ((i, w) ∷ m) h a = (text_lt_trans j k i h a.0, Above-trans j k m h a.1)

  insert_ordered-Above :
      (j k : Text) (v : V) (m : Map Text V)
      → text_lt j k ≡ true
      → Above j m
      → Above j (insert_ordered k v m)
  unfolding insert_ordered
  insert_ordered-Above j k v [] h a = (h, tt)
  insert_ordered-Above j k v ((i, w) ∷ m) h a = elim (Bool-cases (text_beq i k)) [
    | inl same ↦ rw same (h, a.1)
    | inr other ↦ elim (Bool-cases (text_lt k i)) [
      | inl before ↦ rw (other, before) (h, a)
      | inr after ↦ rw (other, after) (a.0, insert_ordered-Above j k v m h a.1)
    ]
  ]

  pub insert_ordered-IsOrdered :
      (k : Text) (v : V) (m : Map Text V) → IsOrdered m → IsOrdered (insert_ordered k v m)
  unfolding insert_ordered
  insert_ordered-IsOrdered k v [] o = (tt, tt)
  insert_ordered-IsOrdered k v ((i, w) ∷ m) o = elim (Bool-cases (text_beq i k)) [
    | inl same ↦ rw same (subst (λ x. Above x m) ((text_beq_iff i k).0 same) o.0, o.1)
    | inr other ↦ elim (Bool-cases (text_lt k i)) [
      | inl before ↦ rw (other, before) ((before, Above-trans k i m before o.0), o)
      | inr after ↦
          rw (other, after)
            (
              insert_ordered-Above i k v m
                  (text_lt_total k i (ground (arith, text_beq_iff i k, text_beq_iff k i)) after)
                  o.0,
              insert_ordered-IsOrdered k v m o.1,
            )
    ]
  ]
