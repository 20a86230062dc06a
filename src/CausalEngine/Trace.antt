-- ===== src/CausalEngine/Trace.antt =====
-- `trace_root_cause` of src/causal_engine.rs. The set of the visited nodes is a list in the order of the
-- insertions. The sort is stable, over an order of the rates that is total.
pub mod Universe
pub mod Pushing
pub mod Coverage
use system_pilot.Base.Map.{contains_key, lookup}
use system_pilot.Base.{
  ℕ, zero, suc, ◌+◌, ◌*◌, Bool, true, false, not, ◌&&◌, ◌||◌, List, [], ◌∷◌, ◌++◌, Option, none,
  some, Text, text_beq, text_eq, contains, length, take, if◌then◌else◌,
}
use system_pilot.CausalEngine.{CausalGraph, EdgeType, Floats, GraphEdge, GraphNode, NodeType}

-- The edges whose target is part of the chain in any case.
abbrev pub is_dependency : EdgeType → Bool
is_dependency EdgeType.blocked_on = true
is_dependency EdgeType.spawned_by = true
is_dependency EdgeType.contends_with = true
is_dependency EdgeType.reads_from = false
is_dependency EdgeType.writes_to = false

abbrev pub is_process : NodeType → Bool
is_process NodeType.process = true
is_process NodeType.resource = false

module _ {Float : Type 0} (floats : Floats Float) (g : CausalGraph Float) where
  abbrev pub is_anomalous_node : Option (GraphNode Float) → Bool
  is_anomalous_node none = false
  is_anomalous_node (some n) = n.is_anomalous

  -- `edges.iter().any(…)`: another, anomalous node has an edge to the resource.
  unfoldable pub has_anomalous_user : Text → Text → List GraphEdge → Bool
  has_anomalous_user current target [] = false
  has_anomalous_user current target (x ∷ es) =
      (text_beq x.to_id target
        && (not (text_beq x.from_id current) && is_anomalous_node (lookup x.from_id g.nodes)))
      || has_anomalous_user current target es

  abbrev pub is_traversed : Text → Text → Option (GraphNode Float) → Bool
  is_traversed current target none = false
  is_traversed current target (some n) = n.is_anomalous || has_anomalous_user current target g.edges

  -- The `match` on the type of an edge of the process.
  abbrev pub is_followed : Text → GraphEdge → Bool
  is_followed current x =
      if is_dependency x.edge_type
      then true
      else is_traversed current x.to_id (lookup x.to_id g.nodes)

  -- The loop over the edges for a process: the nodes that it inserts, some of them seen before.
  unfoldable pub process_targets : Text → List GraphEdge → List Text
  process_targets current [] = []
  process_targets current (x ∷ es) =
      let rest = process_targets current es in
      if text_beq x.from_id current && is_followed current x then x.to_id ∷ rest else rest

  -- What `filter_map` adds of an edge whose source is a node.
  abbrev pub with_rate : Text → Option (GraphNode Float) → List (Text × Float) → List (Text × Float)
  with_rate source none rest = rest
  with_rate source (some n) rest = (source, floats.add n.write_rate_kb n.read_rate_kb) ∷ rest

  -- The `writers` of a resource, one for each edge, before the sort.
  unfoldable pub writers : Text → List GraphEdge → List (Text × Float)
  writers current [] = []
  writers current (x ∷ es) =
      let rest = writers current es in
      if text_beq x.to_id current && not (is_dependency x.edge_type)
      then with_rate x.from_id (lookup x.from_id g.nodes) rest
      else rest

  -- `sort_by`, the largest rate first.
  unfoldable pub insert_sorted : Text × Float → List (Text × Float) → List (Text × Float)
  insert_sorted w [] = w ∷ []
  insert_sorted w (v ∷ vs) = if floats.lt w.1 v.1 then v ∷ insert_sorted w vs else w ∷ (v ∷ vs)

  unfoldable pub sort_by_rate : List (Text × Float) → List (Text × Float)
  sort_by_rate [] = []
  sort_by_rate (w ∷ ws) = insert_sorted w (sort_by_rate ws)

  abbrev pub names : List (Text × Float) → List Text
  names [] = []
  names ((name, rate) ∷ ws) = name ∷ names ws

  -- The nodes that a visit of a node inserts.
  abbrev pub targets_of : Text → Option (GraphNode Float) → List Text
  targets_of current none = []
  targets_of current (some n) =
      if is_process n.node_type
      then process_targets current g.edges
      else names (take 3 (sort_by_rate (writers current g.edges)))

  unfoldable pub targets : Text → List Text
  targets current = targets_of current (lookup current g.nodes)

pub record Search : Type 0 where
  pub path : List Text
  pub queue : List Text
  pub visited : List Text

-- `if visited.insert(id) { queue.push_back(id) }`.
unfoldable pub push : Text → Search → Search
push id s =
    if contains id s.visited
    then s
    else record s { queue = s.queue ++ (id ∷ []); visited = s.visited ++ (id ∷ []) }

unfoldable pub push_all : List Text → Search → Search
push_all [] s = s
push_all (id ∷ ids) s = push_all ids (push id s)

module _ {Float : Type 0} (floats : Floats Float) (g : CausalGraph Float) where
  -- The body of the loop.
  unfoldable pub visit : Text → List Text → Search → Search
  visit current rest s =
      push_all (targets floats g current)
        (record s { path = s.path ++ (current ∷ []); queue = rest })

  -- The loop, on fuel; `none` means that it ran out.
  unfoldable pub search_from : ℕ → Search → Option (List Text)
  search_from zero s = elim s.queue [ [] ↦ some s.path | current ∷ rest ↦ none ]
  search_from (suc fuel) s = elim s.queue [
    | [] ↦ some s.path
    | current ∷ rest ↦ search_from fuel (visit current rest s)
  ]

  abbrev pub started : Text → Search
  started id = record { path = []; queue = id ∷ []; visited = id ∷ [] }

  -- `trace_root_cause`.
  unfoldable pub trace_root_cause : Text → Option (List Text)
  trace_root_cause id =
      if contains_key id g.nodes then search_from (2 * length g.edges + 1) (started id) else some []
