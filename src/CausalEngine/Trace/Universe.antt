-- ===== src/CausalEngine/Trace/Universe.antt =====
-- The nodes that `trace_root_cause` of src/causal_engine.rs can come to, and how many they are.
use system_pilot.Base.Map.{lookup}
use system_pilot.Base.{
  ℕ, zero, suc, ◌+◌, ◌*◌, ◌≤◌, ◌≡◌, refl, true, false, ◌||◌, List, [], ◌∷◌, Option, none, some,
  Text, text_beq, text_beq_iff, text_eq, contains, length, take, Bool-cases, inl, inr,
  if◌then◌else◌, arith,
}
use system_pilot.CausalEngine.Trace.{
  insert_sorted, is_process, names, process_targets, sort_by_rate, targets, targets_of, with_rate,
  writers,
}
use system_pilot.CausalEngine.{CausalGraph, Floats, GraphEdge, GraphNode}
use system_pilot.Distributed.Distinct.{IsDistinct}

-- The list without its first occurrence of an ID.
abbrev without : Text → List Text → List Text
without id [] = []
without id (x ∷ xs) = if text_beq x id then xs else x ∷ without id xs

length-without :
    (id : Text) (xs : List Text) → contains id xs ≡ true → length (without id xs) + 1 ≡ length xs
unfolding contains
length-without id [] h = ground arith
length-without id (x ∷ xs) h = ground (arith, length-without id xs)

contains-without :
    (id j : Text) (xs : List Text)
    → text_beq id j ≡ false
    → contains j xs ≡ true
    → contains j (without id xs) ≡ true
unfolding contains
contains-without id j [] apart h = h
contains-without id j (x ∷ xs) apart h =
    ground (arith, contains-without id j xs, text_beq_iff x id, text_beq_iff x j, text_beq_iff id j)

-- The second list holds what the first one does.
abbrev pub Within : List Text → List Text → Type 0
Within xs ys = (id : Text) → contains id xs ≡ true → contains id ys ≡ true

-- Different IDs from a list are no more than it has.
pub length-le-of_distinct :
    (xs ys : List Text) → IsDistinct xs → Within xs ys → length xs ≤ length ys
unfolding contains
length-le-of_distinct [] ys d w = omega arith
length-le-of_distinct (x ∷ xs) ys d w =
    let here = w x (ground (arith, text_beq_iff x x)) in
    let fewer = length-le-of_distinct xs (without x ys) d.1 (λ j h.
      contains-without x j ys (ground (arith, text_beq_iff x j, d.0)) (w j (ground arith))) in
    omega (arith, fewer, length-without x ys here)

-- The ends of the edges.
abbrev pub ends : List GraphEdge → List Text
ends [] = []
ends (x ∷ es) = x.from_id ∷ (x.to_id ∷ ends es)

pub length-ends : (es : List GraphEdge) → length (ends es) ≡ 2 * length es
length-ends [] = omega arith
length-ends (x ∷ es) = omega (arith, length-ends es)

module _ {Float : Type 0} (floats : Floats Float) (g : CausalGraph Float) where
  process_targets-Within :
      (current : Text) (es : List GraphEdge)
      → Within (process_targets floats g current es) (ends es)
  unfolding contains process_targets
  process_targets-Within current [] id h = ground arith
  process_targets-Within current (x ∷ es) id h =
      ground (arith, process_targets-Within current es id)

  with_rate-names :
      (id source : Text) (n : Option (GraphNode Float)) (rest : List (Text × Float))
      → contains id (names floats g (with_rate floats g source n rest)) ≡ true
      → (text_beq source id || contains id (names floats g rest)) ≡ true
  unfolding contains
  with_rate-names id source none rest h = ground arith
  with_rate-names id source (some n) rest h = h

  writers-Within :
      (current : Text) (es : List GraphEdge)
      → Within (names floats g (writers floats g current es)) (ends es)
  unfolding contains writers
  writers-Within current [] id h = ground arith
  writers-Within current (x ∷ es) id h = ground (
    arith,
    writers-Within current es id,
    with_rate-names id x.from_id (lookup x.from_id g.nodes) (writers floats g current es),
  )

  insert_sorted-names :
      (id : Text) (w : Text × Float) (vs : List (Text × Float))
      → contains id (names floats g (insert_sorted floats g w vs))
        ≡ (text_beq w.0 id || contains id (names floats g vs))
  unfolding contains insert_sorted
  insert_sorted-names id w [] = refl
  insert_sorted-names id w (v ∷ vs) = ground (arith, insert_sorted-names id w vs)

  sort_by_rate-names :
      (id : Text) (ws : List (Text × Float))
      → contains id (names floats g (sort_by_rate floats g ws)) ≡ contains id (names floats g ws)
  unfolding contains sort_by_rate
  sort_by_rate-names id [] = refl
  sort_by_rate-names id (w ∷ ws) =
      ground (arith, insert_sorted-names id w (sort_by_rate floats g ws), sort_by_rate-names id ws)

  take-names :
      (id : Text) (n : ℕ) (ws : List (Text × Float))
      → contains id (names floats g (take n ws)) ≡ true
      → contains id (names floats g ws) ≡ true
  unfolding contains
  take-names id zero ws h = ground arith
  take-names id (suc n) [] h = h
  take-names id (suc n) (w ∷ ws) h = ground (arith, take-names id n ws)

  targets_of-Within :
      (current : Text) (n : Option (GraphNode Float))
      → Within (targets_of floats g current n) (ends g.edges)
  unfolding contains
  targets_of-Within current none id h = ground arith
  targets_of-Within current (some n) id h = elim (Bool-cases (is_process n.node_type)) [
    | inl active ↦ process_targets-Within current g.edges id (rw active at h)
    | inr passive ↦
        let ws = writers floats g current g.edges in
        let h' : contains id (names floats g (take 3 (sort_by_rate floats g ws))) ≡ true =
          rw passive at h in
        let sorted = take-names id 3 (sort_by_rate floats g ws) h' in
        writers-Within current g.edges id (rw (sort_by_rate-names id ws) at sorted)
  ]

  -- A visit inserts ends of edges only.
  pub targets-Within : (current : Text) → Within (targets floats g current) (ends g.edges)
  unfolding targets
  targets-Within current = targets_of-Within current (lookup current g.nodes)
