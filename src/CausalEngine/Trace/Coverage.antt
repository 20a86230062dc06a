-- ===== src/CausalEngine/Trace/Coverage.antt =====
-- What `trace_root_cause` of src/causal_engine.rs finds.
use mathlib.Core.List.{append_assoc, append-nil}
use system_pilot.Base.Map.{contains_key}
use system_pilot.Base.{
  ℕ, zero, suc, ◌+◌, ◌*◌, ◌≤◌, ◌≡◌, ◌↔◌, refl, sym, ap, subst, ◌∙◌, true, false, List, [], ◌∷◌,
  ◌++◌, some, Text, text_beq_iff, text_eq, contains, contains-append, contains-append_one, length,
  length-append, Bool-cases, inl, inr, arith,
}
use system_pilot.CausalEngine.Trace.Universe.{
  ends, length-ends, length-le-of_distinct, targets-Within,
}
use system_pilot.CausalEngine.Trace.{Search, search_from, started, targets, trace_root_cause, visit}
use system_pilot.CausalEngine.{CausalGraph, Floats}
use system_pilot.Distributed.Distinct.{IsDistinct}
use system_pilot.CausalEngine.Trace.Pushing.{
  push_all-path, push_all-order, push_all-IsDistinct, push_all-visited, StartsWith,
  push_all-StartsWith,
}

-- A node that a chain of visits leads to.
pub data Reach {Float : Type 0} (floats : Floats Float) (g : CausalGraph Float) (start : Text)
    : Text → Type 0 where
  here : Reach floats g start start
  next :
      {u v : Text}
      → Reach floats g start u
      → contains v (targets floats g u) ≡ true
      → Reach floats g start v

module _ {Float : Type 0} (floats : Floats Float) (g : CausalGraph Float) (start : Text) where
  -- Every node found can be reached, and all that the nodes of the path lead to has been found.
  record Inv (s : Search) : Type 0 where
    pub order : s.visited ≡ s.path ++ s.queue
    pub distinct : IsDistinct s.visited
    pub begins : StartsWith start s.visited
    pub reached : (id : Text) → contains id s.visited ≡ true → Reach floats g start id
    pub closed :
        (u v : Text)
        → contains u s.path ≡ true
        → contains v (targets floats g u) ≡ true
        → contains v s.visited ≡ true

  -- The path is the whole of what can be reached, each node once, the start before the others.
  pub record IsTrace (path : List Text) : Type 0 where
    pub begins : StartsWith start path
    pub distinct : IsDistinct path
    pub whole : (id : Text) → (contains id path ≡ true) ↔ Reach floats g start id

  in_order :
      (s : Search) (current : Text) (rest : List Text)
      → s.queue ≡ current ∷ rest
      → s.visited ≡ s.path ++ s.queue
      → s.visited ≡ (s.path ++ (current ∷ [])) ++ rest
  in_order s current rest q h =
      h ∙ (ap (λ (xs : List Text). s.path ++ xs) q ∙ sym (append_assoc s.path (current ∷ []) rest))

  is_visited :
      (s : Search) (current : Text) (rest : List Text)
      → s.queue ≡ current ∷ rest
      → s.visited ≡ s.path ++ s.queue
      → contains current s.visited ≡ true
  unfolding contains
  is_visited s current rest q h = ground (
    arith,
    h,
    q,
    contains-append current s.path s.queue,
    ap (contains current) h,
    ap (contains current) q,
    text_beq_iff current current,
  )

  visit-Inv :
      (s : Search) (current : Text) (rest : List Text)
      → s.queue ≡ current ∷ rest
      → Inv s
      → Inv (visit floats g current rest s)
  unfolding visit
  visit-Inv s current rest q i =
      let t : Search = record s { path = s.path ++ (current ∷ []); queue = rest } in
      let ids = targets floats g current in
      record {
        order = push_all-order ids t (in_order s current rest q i.order);
        distinct = push_all-IsDistinct ids t i.distinct;
        begins = push_all-StartsWith start ids t i.begins;
        reached = λ id h. elim (Bool-cases (contains id ids)) [
          | inl new ↦ Reach.next (i.reached current (is_visited s current rest q i.order)) new
          | inr old ↦ i.reached id (ground (arith, push_all-visited id ids t))
        ];
        closed = λ u v hu hv. ground (
          arith,
          push_all-visited v ids t,
          ap (contains u) (push_all-path ids t),
          contains-append_one u current s.path,
          text_beq_iff current u,
          i.closed u v,
        );
      }

  Reach-Within : (id : Text) → Reach floats g start id → contains id (start ∷ ends g.edges) ≡ true
  unfolding contains
  Reach-Within id here = ground (arith, text_beq_iff start start)
  Reach-Within id (next {u = u} r h) = ground (arith, targets-Within floats g u id h)

  visited-few : (s : Search) → Inv s → length s.path + length s.queue ≤ 2 * length g.edges + 1
  visited-few s i = omega (
    arith,
    length-le-of_distinct s.visited (start ∷ ends g.edges) i.distinct
        (λ id h. Reach-Within id (i.reached id h)),
    ap length i.order,
    length-append s.path s.queue,
    length-ends g.edges,
  )

  whole_path : (s : Search) → Inv s → s.queue ≡ [] → s.visited ≡ s.path
  whole_path s i q = i.order ∙ (ap (λ (xs : List Text). s.path ++ xs) q ∙ append-nil s.path)

  length-visit :
      (s : Search) (current : Text) (rest : List Text)
      → length (visit floats g current rest s).path ≡ length s.path + 1
  unfolding visit
  length-visit s current rest =
      let t : Search = record s { path = s.path ++ (current ∷ []); queue = rest } in
      ap length (push_all-path (targets floats g current) t) ∙ length-append s.path (current ∷ [])

  closed-whole :
      (s : Search)
      → Inv s
      → s.queue ≡ []
      → (id : Text) → Reach floats g start id
      → contains id s.path ≡ true
  unfolding contains
  closed-whole s i q id here =
      let (rest, f) = i.begins in
      let all = whole_path s i q in
      ground (arith, ap (contains start) all, ap (contains start) f, text_beq_iff start start)
  closed-whole s i q id (next {u = u} r h) =
      ground (arith, ap (contains id) (whole_path s i q), i.closed u id (closed-whole s i q u r) h)

  finished-IsTrace : (s : Search) → Inv s → s.queue ≡ [] → IsTrace s.path
  finished-IsTrace s i q =
      let all = whole_path s i q in
      record {
        begins = subst (StartsWith start) all i.begins;
        distinct = subst IsDistinct all i.distinct;
        whole = λ id. (λ h. i.reached id (ap (contains id) all ∙ h), closed-whole s i q id);
      }

  search_from-IsTrace :
      (fuel : ℕ) (s : Search) (queue : List Text)
      → s.queue ≡ queue
      → Inv s
      → 2 * length g.edges + 1 ≤ fuel + length s.path
      → (path : List Text) × (search_from floats g fuel s ≡ some path) × IsTrace path
  unfolding search_from
  search_from-IsTrace zero s [] q i enough =
      (s.path, rw (search_from, q) refl, finished-IsTrace s i q)
  search_from-IsTrace (suc fuel) s [] q i enough =
      (s.path, rw (search_from, q) refl, finished-IsTrace s i q)
  search_from-IsTrace zero s (current ∷ rest) q i enough =
      absurd (omega (arith, visited-few s i, ap length q))
  search_from-IsTrace (suc fuel) s (current ∷ rest) q i enough =
      let s' = visit floats g current rest s in
      let (path, found, trace) =
        search_from-IsTrace fuel s' s'.queue refl (visit-Inv s current rest q i)
          (omega (arith, length-visit s current rest)) in
      (path, rw (search_from, q) found, trace)

  started-Inv : Inv (started floats g start)
  unfolding contains
  started-Inv = record {
    order = refl;
    distinct = (refl, tt);
    begins = ([], refl);
    reached =
        λ id h. subst (Reach floats g start) (ground (arith, text_beq_iff start id)) Reach.here;
    closed = λ u v hu hv. ground arith;
  }

  -- A trace of a node of the graph ends, and gives exactly the nodes that a chain of visits leads to from
  -- it, each of them once, the node itself first; that of another node is empty.
  pub trace_root_cause-IsTrace :
      (contains_key start g.nodes ≡ true
        → (path : List Text) × (trace_root_cause floats g start ≡ some path) × IsTrace path)
      × (contains_key start g.nodes ≡ false → trace_root_cause floats g start ≡ some [])
  unfolding trace_root_cause
  trace_root_cause-IsTrace = (
    λ known. rw known (
        search_from-IsTrace (2 * length g.edges + 1) (started floats g start) (start ∷ []) refl
          started-Inv (omega arith)),
    λ unknown. rw unknown refl,
  )
