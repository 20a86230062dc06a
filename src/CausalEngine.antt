-- ===== src/CausalEngine.antt =====
-- src/causal_engine.rs: the graph of processes and resources. An `f64` is a parameter with the operations
-- that the code uses of it.
pub mod Trace
use system_pilot.Base.Map.{Map, insert}
use system_pilot.Base.{ℕ, Bool, List, [], ◌∷◌, ◌++◌, Text, text_eq}

pub data NodeType : Type 0 where
  process resource : NodeType

pub data EdgeType : Type 0 where
  spawned_by reads_from writes_to blocked_on contends_with : EdgeType

-- The order is that of `partial_cmp`.
pub record Floats (Float : Type 0) : Type 0 where
  pub add : Float → Float → Float
  pub lt : Float → Float → Bool

pub record GraphNode (Float : Type 0) : Type 0 where
  pub id : Text
  pub node_type : NodeType
  pub name : Text
  pub pid : ℕ
  pub state : Text
  pub read_bytes : ℕ
  pub write_bytes : ℕ
  pub read_rate_kb : Float
  pub write_rate_kb : Float
  pub cpu_usage_pct : Float
  pub is_anomalous : Bool
  pub anomaly_reason : Text

pub record GraphEdge : Type 0 where
  pub from_id : Text
  pub to_id : Text
  pub edge_type : EdgeType
  pub details : Text

pub record CausalGraph (Float : Type 0) : Type 0 where
  pub nodes : Map Text (GraphNode Float)
  pub edges : List GraphEdge

module _ {Float : Type 0} where
  -- `CausalGraph::new`.
  abbrev pub empty_graph : CausalGraph Float
  empty_graph = record { nodes = []; edges = [] }

  unfoldable pub add_node : GraphNode Float → CausalGraph Float → CausalGraph Float
  add_node n g = record g { nodes = insert n.id n g.nodes }

  unfoldable pub add_edge : Text → Text → EdgeType → Text → CausalGraph Float → CausalGraph Float
  add_edge from to kind details g = record g {
    edges =
        g.edges
        ++ (record { from_id = from; to_id = to; edge_type = kind; details = details } ∷ []);
  }
