-- ===== src/CausalEngine/Trace/Pushing.antt =====
-- What the insertions of `trace_root_cause` in src/causal_engine.rs do to the queue and the visited nodes.
use mathlib.Core.List.{append_assoc}
use system_pilot.Base.{
  ◌≡◌, refl, ap, ◌∙◌, false, ◌||◌, List, [], ◌∷◌, ◌++◌, Text, text_beq_iff, text_eq, contains,
  contains-append_one, Bool-cases, inl, inr, arith,
}
use system_pilot.CausalEngine.Trace.{Search, push, push_all}
use system_pilot.Distributed.Distinct.{IsDistinct}

pub IsDistinct-append_one :
    (xs : List Text) (id : Text)
    → IsDistinct xs
    → contains id xs ≡ false
    → IsDistinct (xs ++ (id ∷ []))
unfolding contains
IsDistinct-append_one [] id d h = (refl, tt)
IsDistinct-append_one (x ∷ xs) id d h = ground (
  arith,
  IsDistinct-append_one xs id,
  contains-append_one x id xs,
  text_beq_iff x id,
  text_beq_iff id x,
)

pub push_all-path : (ids : List Text) (s : Search) → (push_all ids s).path ≡ s.path
unfolding push_all push
push_all-path [] s = refl
push_all-path (id ∷ ids) s = ground (arith, push_all-path ids (push id s))

-- Pushing keeps the visited nodes those of the path and of the queue.
push-order :
    (id : Text) (s : Search)
    → s.visited ≡ s.path ++ s.queue
    → (push id s).visited ≡ (push id s).path ++ (push id s).queue
unfolding push
push-order id s h = elim (Bool-cases (contains id s.visited)) [
  | inl old ↦ simp old h
  | inr new ↦ simp new (ap (λ vs. vs ++ (id ∷ [])) h ∙ append_assoc s.path s.queue (id ∷ []))
]

pub push_all-order :
    (ids : List Text) (s : Search)
    → s.visited ≡ s.path ++ s.queue
    → (push_all ids s).visited ≡ (push_all ids s).path ++ (push_all ids s).queue
unfolding push_all
push_all-order [] s h = h
push_all-order (id ∷ ids) s h = push_all-order ids (push id s) (push-order id s h)

pub push_all-IsDistinct :
    (ids : List Text) (s : Search) → IsDistinct s.visited → IsDistinct (push_all ids s).visited
unfolding push_all push
push_all-IsDistinct [] s d = d
push_all-IsDistinct (id ∷ ids) s d =
    push_all-IsDistinct ids (push id s) (ground (arith, IsDistinct-append_one s.visited id d))

pub push_all-visited :
    (v : Text) (ids : List Text) (s : Search)
    → contains v (push_all ids s).visited ≡ (contains v ids || contains v s.visited)
unfolding push_all push contains
push_all-visited v [] s = refl
push_all-visited v (id ∷ ids) s = ground (
  arith,
  push_all-visited v ids (push id s),
  contains-append_one v id s.visited,
  text_beq_iff id v,
)

-- The first visited node stays the first.
abbrev pub StartsWith : Text → List Text → Type 0
StartsWith id xs = (rest : List Text) × (xs ≡ id ∷ rest)

pub push_all-StartsWith :
    (id : Text) (ids : List Text) (s : Search)
    → StartsWith id s.visited
    → StartsWith id (push_all ids s).visited
unfolding push_all push
push_all-StartsWith id [] s f = f
push_all-StartsWith id (j ∷ ids) s (rest, f) =
    push_all-StartsWith id ids (push j s) (elim (Bool-cases (contains j s.visited)) [
      | inl old ↦ (rest, simp old f)
      | inr new ↦ (rest ++ (j ∷ []), simp new (ap (λ vs. vs ++ (j ∷ [])) f))
    ])
