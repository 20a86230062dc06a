-- ===== src/Tests/CausalEngine.antt =====
-- A chain of src/causal_engine.rs: a process blocked on a disk that another process writes to.
use system_pilot.Base.Map.{contains_key, lookup}
use system_pilot.Base.Texts.{text}
use system_pilot.Base.{
  ℕ, ◌+◌, ◌≡◌, refl, true, false, List, [], ◌∷◌, some, Text, text_eq, contains, ltb,
}
use system_pilot.CausalEngine.Trace.Coverage.{IsTrace, trace_root_cause-IsTrace}
use system_pilot.CausalEngine.Trace.{
  has_anomalous_user, insert_sorted, process_targets, push, push_all, search_from, sort_by_rate,
  targets, trace_root_cause, visit, writers,
}
use system_pilot.CausalEngine.{CausalGraph, EdgeType, Floats, GraphNode, NodeType}

-- Whole rates.
abbrev whole : Floats ℕ
whole = record { add = λ a b. a + b; lt = ltb }

abbrev node : Text → NodeType → ℕ → GraphNode ℕ
node id kind rate = record {
  id = id;
  node_type = kind;
  name = id;
  pid = 0;
  state = [];
  read_bytes = 0;
  write_bytes = 0;
  read_rate_kb = 0;
  write_rate_kb = rate;
  cpu_usage_pct = 0;
  is_anomalous = false;
  anomaly_reason = [];
}

abbrev blocked : CausalGraph ℕ
blocked = record {
  nodes =
      (text "pid:1", node (text "pid:1") NodeType.process 0)
      ∷ ((text "pid:2", node (text "pid:2") NodeType.process 9000)
          ∷ ((text "resource:/dev/sda", node (text "resource:/dev/sda") NodeType.resource 0) ∷ []));
  edges =
      record {
        from_id = text "pid:1";
        to_id = text "resource:/dev/sda";
        edge_type = EdgeType.blocked_on;
        details = [];
      }
      ∷ (record {
        from_id = text "pid:2";
        to_id = text "resource:/dev/sda";
        edge_type = EdgeType.writes_to;
        details = [];
      }
          ∷ []);
}

traces_the_writer :
    trace_root_cause whole blocked (text "pid:1")
    ≡ some (text "pid:1" ∷ (text "resource:/dev/sda" ∷ (text "pid:2" ∷ [])))
unfolding trace_root_cause search_from visit push_all push targets writers sort_by_rate
    insert_sorted process_targets has_anomalous_user contains contains_key lookup
traces_the_writer = refl

-- A process alone traces to itself: the disk of `pid:2` has no anomalous user.
ignores_a_healthy_disk : trace_root_cause whole blocked (text "pid:2") ≡ some (text "pid:2" ∷ [])
unfolding trace_root_cause search_from visit push_all push targets writers sort_by_rate
    insert_sorted process_targets has_anomalous_user contains contains_key lookup
ignores_a_healthy_disk = refl

trace_root_cause-IsTrace_example :
    (contains_key (text "pid:1") blocked.nodes ≡ true
      → (path : List Text) × (trace_root_cause whole blocked (text "pid:1") ≡ some path)
        × IsTrace whole blocked (text "pid:1") path)
    × (contains_key (text "pid:1") blocked.nodes ≡ false
        → trace_root_cause whole blocked (text "pid:1") ≡ some [])
trace_root_cause-IsTrace_example = trace_root_cause-IsTrace whole blocked (text "pid:1")
