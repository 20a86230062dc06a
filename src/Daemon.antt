-- ===== src/Daemon.antt =====
-- src/daemon.rs: the listener's process tree, its queue of events, and `record_event` over the publisher,
-- the alert rules and the alert store. What the code reads while it handles an event (procfs, the clock,
-- the outcomes of writes) is an argument for each event; no lock is poisoned. An `i32` is its bit pattern.
pub mod Listener
pub mod Tree
pub mod Queue
pub mod Recording
use system_pilot.Alert.{AlertStore, ProcessAlert, Write, apply}
use system_pilot.Base.Atomic.{fetch_add}
use system_pilot.Base.Map.{Map, insert, lookup, remove}
use system_pilot.Base.Texts.{decimal, text}
use system_pilot.Base.{
  ℕ, ◌+◌, ◌*◌, ◌/◌, ◌%◌, Bool, true, false, List, [], ◌∷◌, ◌++◌, Option, none, some, Text, nat_eq,
  length, ltb, ◌==◌, if◌then◌else◌,
}
use system_pilot.Distributed.Envelope.{TelemetryEnvelope, TelemetryKind}
use system_pilot.Json.{Value}
use system_pilot.Distributed.Rules.{ProcessAlertEngine, evaluate}
use system_pilot.Distributed.Rules
use system_pilot.Error.{AppResult, ok, err}
use system_pilot.Export.{PublishCalls, TelemetryPublisher, publish}
use system_pilot.Netlink.{Frame}

pub record ProcessNode : Type 0 where
  pub pid : ℕ
  pub ppid : ℕ
  pub name : Text
  pub state : ℕ

-- `ProcessEvent`.
pub record LifecycleEvent : Type 0 where
  pub timestamp_ns : ℕ
  pub event_type : Text
  pub pid : ℕ
  pub ppid : ℕ
  pub name : Text
  pub exit_status : Option ℕ
  pub parent_exit_signal : Option ℕ
  pub exit_reason : Option Text

-- The channel's capacity in `run_daemon`.
abbrev pub queue_capacity : ℕ
queue_capacity = 4096

-- `describe_exit_status`.
unfoldable pub describe_exit_status : ℕ → Text
describe_exit_status status =
    let signal = status % 128 in
    let code = status / 256 % 256 in
    if signal == 0
    then if code == 0
      then text "exited normally (code 0)"
      else text "exited with code " ++ decimal code
    else text "terminated by signal "
      ++ (decimal signal ++ (if status / 128 % 2 == 0 then [] else text " (core dumped)"))

-- The calls for an alert: the write of the store, and the publication.
pub record AlertCalls : Type 0 where
  pub write : Write
  pub publishing : PublishCalls
  pub published_at : ℕ

-- The calls for an event: `read_comm`, `read_ppid`, `now_ns`, the publication, and those for its alerts.
pub record EventCalls : Type 0 where
  pub comm : ℕ → Text
  pub parent : ℕ → ℕ
  pub now : ℕ
  pub publishing : PublishCalls
  pub published_at : ℕ
  pub on_alert : ProcessAlert → AlertCalls

-- What the listener reads and changes; `handled` counts the events, each of which has its calls.
pub record Daemon : Type 0 where
  pub tree : Map ℕ ProcessNode
  pub events : List LifecycleEvent
  pub publisher : TelemetryPublisher
  pub alerts : ProcessAlertEngine
  pub alert_state : AlertStore
  pub netlink_state : ℕ
  pub dropped_events : ℕ
  pub connector_confirmed : Bool
  pub handled : ℕ

-- The serialisation by serde, the encoder of envelopes, and the test for addresses.
pub record Formats : Type 0 where
  pub event_value : LifecycleEvent → AppResult Value
  pub alert_value : ProcessAlert → AppResult Value
  pub encode : TelemetryEnvelope → AppResult Text
  pub is_ip : Text → Bool

-- The arguments of `evaluate`.
abbrev pub evaluated : LifecycleEvent → Rules.ProcessEvent
evaluated e = record {
  name = e.name;
  pid = e.pid;
  ppid = e.ppid;
  event_type = e.event_type;
  observed_at_unix_nanos = e.timestamp_ns;
}

-- `try_send` on the bounded channel.
unfoldable pub send_event : LifecycleEvent → Daemon → Daemon
send_event e d =
    if ltb (length d.events) queue_capacity
    then record d { events = d.events ++ (e ∷ []) }
    else record d { dropped_events = fetch_add d.dropped_events 1 }

module _ (formats : Formats) (calls : ℕ → EventCalls) where
  abbrev pub publish_event : LifecycleEvent → TelemetryPublisher → EventCalls → TelemetryPublisher
  publish_event e p c =
      (publish formats.encode formats.is_ip c.publishing p TelemetryKind.process_lifecycle
        c.published_at (formats.event_value e)).0

  abbrev pub publish_alert : ProcessAlert → TelemetryPublisher → AlertCalls → TelemetryPublisher
  publish_alert a p c =
      (publish formats.encode formats.is_ip c.publishing p TelemetryKind.process_alert
        c.published_at (formats.alert_value a)).0

  -- The `match` on the transition.
  abbrev pub transitioned :
      AlertCalls → Daemon → AlertStore × AppResult (Option ProcessAlert) → Daemon
  transitioned c d (store, ok (some a)) = record d {
    alert_state = store;
    publisher = publish_alert a d.publisher c;
  }
  transitioned c d (store, ok none) = record d { alert_state = store }
  transitioned c d (store, err x) = record d { alert_state = store }

  -- The loop over the alerts of an event.
  unfoldable pub raise_alerts : (ProcessAlert → AlertCalls) → List ProcessAlert → Daemon → Daemon
  raise_alerts on_alert [] d = d
  raise_alerts on_alert (a ∷ as') d =
      raise_alerts on_alert as'
        (transitioned (on_alert a) d (apply d.alert_state a (on_alert a).write))

  -- `record_event`.
  unfoldable pub record_event : EventCalls → LifecycleEvent → Daemon → Daemon
  record_event c e d =
      let published = record d { publisher = publish_event e d.publisher c } in
      send_event e (raise_alerts c.on_alert (evaluate d.alerts (evaluated e)) published)

  abbrev pub sleeping : ℕ → ℕ → Text → ProcessNode
  sleeping pid ppid name = record { pid = pid; ppid = ppid; name = name; state = b'S' }

  abbrev pub on_fork : EventCalls → ℕ → ℕ → Daemon → Daemon
  on_fork c parent child d =
      record_event c
        (record {
          timestamp_ns = c.now;
          event_type = text "FORK";
          pid = child;
          ppid = parent;
          name = c.comm child;
          exit_status = none;
          parent_exit_signal = none;
          exit_reason = none;
        })
        (record d { tree = insert child (sleeping child parent (c.comm child)) d.tree })

  -- `entry(pid).and_modify(…).or_insert(…)`.
  abbrev pub renamed_node : EventCalls → ℕ → Option ProcessNode → ProcessNode
  renamed_node c pid none = sleeping pid (c.parent pid) (c.comm pid)
  renamed_node c pid (some n) = record n { name = c.comm pid }

  abbrev pub on_exec : EventCalls → ℕ → Daemon → Daemon
  on_exec c pid d =
      record_event c
        (record {
          timestamp_ns = c.now;
          event_type = text "EXEC";
          pid = pid;
          ppid = 0;
          name = c.comm pid;
          exit_status = none;
          parent_exit_signal = none;
          exit_reason = none;
        })
        (record d { tree = insert pid (renamed_node c pid (lookup pid d.tree)) d.tree })

  abbrev pub name_of : Option ProcessNode → Text
  name_of none = []
  name_of (some n) = n.name

  abbrev pub on_exit : EventCalls → ℕ → ℕ → ℕ → Daemon → Daemon
  on_exit c pid status signal d =
      record_event c
        (record {
          timestamp_ns = c.now;
          event_type = text "EXIT";
          pid = pid;
          ppid = 0;
          name = name_of (lookup pid d.tree);
          exit_status = some status;
          parent_exit_signal = some signal;
          exit_reason = some (describe_exit_status status);
        })
        (record d { tree = remove pid d.tree })

  -- The arms of the listener's `match`.
  abbrev pub on_frame_with : EventCalls → Frame → Daemon → Daemon
  on_frame_with c (Frame.fork parent child) d = on_fork c parent child d
  on_frame_with c (Frame.exec pid) d = on_exec c pid d
  on_frame_with c (Frame.exit pid status signal) d = on_exit c pid status signal d
  on_frame_with c (Frame.kernel_error code) d = d

  unfoldable pub on_frame : Frame → Daemon → Daemon
  on_frame f d = on_frame_with (calls d.handled) f (record d { handled = d.handled + 1 })
