-- ===== src/Daemon/Tree.antt =====
-- The process tree of src/daemon.rs against the frames of the kernel.
use system_pilot.Alert.{AlertStore, ProcessAlert, apply}
use system_pilot.Base.Map.{contains_key, contains_key-insert, contains_key-remove}
use system_pilot.Base.{
  ℕ, ◌+◌, ◌≡◌, refl, ap, ◌∙◌, Bool, not, ◌&&◌, ◌||◌, List, [], ◌∷◌, ◌++◌, Option, none, some,
  nat_eq, length, ltb, ◌==◌, arith, Bool-cases, inl, inr,
}
use system_pilot.Daemon.{
  AlertCalls, Daemon, EventCalls, Formats, LifecycleEvent, evaluated, on_frame, on_frame_with,
  publish_event, raise_alerts, record_event, send_event, transitioned, queue_capacity,
}
use system_pilot.Distributed.Rules.{evaluate}
use system_pilot.Error.{AppResult, ok, err}
use system_pilot.Netlink.{Frame}

-- What the alerts of an event leave alone.
pub record Keeps (d d' : Daemon) : Type 0 where
  pub tree : d'.tree ≡ d.tree
  pub events : d'.events ≡ d.events
  pub dropped : d'.dropped_events ≡ d.dropped_events
  pub handled : d'.handled ≡ d.handled
  pub confirmed : d'.connector_confirmed ≡ d.connector_confirmed

Keeps-trans : (a b c : Daemon) → Keeps a b → Keeps b c → Keeps a c
Keeps-trans a b c p q = record {
  tree = q.tree ∙ p.tree;
  events = q.events ∙ p.events;
  dropped = q.dropped ∙ p.dropped;
  handled = q.handled ∙ p.handled;
  confirmed = q.confirmed ∙ p.confirmed;
}

module _ (formats : Formats) (calls : ℕ → EventCalls) where
  transitioned-Keeps :
      (c : AlertCalls) (d : Daemon) (r : AlertStore × AppResult (Option ProcessAlert))
      → Keeps d (transitioned formats calls c d r)
  transitioned-Keeps c d (store, ok (some a)) = record {
    tree = refl;
    events = refl;
    dropped = refl;
    handled = refl;
    confirmed = refl;
  }
  transitioned-Keeps c d (store, ok none) = record {
    tree = refl;
    events = refl;
    dropped = refl;
    handled = refl;
    confirmed = refl;
  }
  transitioned-Keeps c d (store, err x) = record {
    tree = refl;
    events = refl;
    dropped = refl;
    handled = refl;
    confirmed = refl;
  }

  raise_alerts-Keeps :
      (on_alert : ProcessAlert → AlertCalls) (as' : List ProcessAlert) (d : Daemon)
      → Keeps d (raise_alerts formats calls on_alert as' d)
  unfolding raise_alerts
  raise_alerts-Keeps on_alert [] d = record {
    tree = refl;
    events = refl;
    dropped = refl;
    handled = refl;
    confirmed = refl;
  }
  raise_alerts-Keeps on_alert (a ∷ as') d =
      let c = on_alert a in
      let r = apply d.alert_state a c.write in
      Keeps-trans d (transitioned formats calls c d r) _ (transitioned-Keeps c d r)
        (raise_alerts-Keeps on_alert as' (transitioned formats calls c d r))

  -- The state in which the event goes to the queue.
  abbrev pub before_sending : EventCalls → LifecycleEvent → Daemon → Daemon
  before_sending c e d =
      raise_alerts formats calls c.on_alert (evaluate d.alerts (evaluated e))
        (record d { publisher = publish_event formats calls e d.publisher c })

  pub before_sending-Keeps :
      (c : EventCalls) (e : LifecycleEvent) (d : Daemon) → Keeps d (before_sending c e d)
  before_sending-Keeps c e d =
      let k =
        raise_alerts-Keeps c.on_alert (evaluate d.alerts (evaluated e))
          (record d { publisher = publish_event formats calls e d.publisher c }) in
      record {
        tree = k.tree;
        events = k.events;
        dropped = k.dropped;
        handled = k.handled;
        confirmed = k.confirmed;
      }

  record_event-tree :
      (c : EventCalls) (e : LifecycleEvent) (d : Daemon)
      → (record_event formats calls c e d).tree ≡ d.tree
  unfolding record_event send_event
  record_event-tree c e d =
      let b = before_sending c e d in
      elim (Bool-cases (ltb (length b.events) queue_capacity)) [
        | inl room ↦ rw room ((before_sending-Keeps c e d).tree)
        | inr full ↦ rw full ((before_sending-Keeps c e d).tree)
      ]

  record_event-confirmed :
      (c : EventCalls) (e : LifecycleEvent) (d : Daemon)
      → (record_event formats calls c e d).connector_confirmed ≡ d.connector_confirmed
  unfolding record_event send_event
  record_event-confirmed c e d =
      let b = before_sending c e d in
      elim (Bool-cases (ltb (length b.events) queue_capacity)) [
        | inl room ↦ rw room ((before_sending-Keeps c e d).confirmed)
        | inr full ↦ rw full ((before_sending-Keeps c e d).confirmed)
      ]

  frame-confirmed :
      (c : EventCalls) (f : Frame) (d : Daemon)
      → (on_frame_with formats calls c f d).connector_confirmed ≡ d.connector_confirmed
  frame-confirmed c (Frame.fork parent child) d = record_event-confirmed c _ _
  frame-confirmed c (Frame.exec p) d = record_event-confirmed c _ _
  frame-confirmed c (Frame.exit p status signal) d = record_event-confirmed c _ _
  frame-confirmed c (Frame.kernel_error code) d = refl

  -- Whether a process is alive after a frame.
  abbrev pub is_alive : ℕ → Frame → Bool → Bool
  is_alive pid (Frame.fork parent child) before = (child == pid) || before
  is_alive pid (Frame.exec p) before = (p == pid) || before
  is_alive pid (Frame.exit p status signal) before = not (p == pid) && before
  is_alive pid (Frame.kernel_error code) before = before

  abbrev pub alive_after : ℕ → List Frame → Bool → Bool
  alive_after pid [] before = before
  alive_after pid (f ∷ fs) before = alive_after pid fs (is_alive pid f before)

  unfoldable pub run_frames : List Frame → Daemon → Daemon
  run_frames [] d = d
  run_frames (f ∷ fs) d = run_frames fs (on_frame formats calls f d)

  frame-tree :
      (pid : ℕ) (c : EventCalls) (f : Frame) (d : Daemon)
      → contains_key pid (on_frame_with formats calls c f d).tree
        ≡ is_alive pid f (contains_key pid d.tree)
  frame-tree pid c (Frame.fork parent child) d =
      ap (contains_key pid) (record_event-tree c _ _) ∙ contains_key-insert child pid _ d.tree
  frame-tree pid c (Frame.exec p) d =
      ap (contains_key pid) (record_event-tree c _ _) ∙ contains_key-insert p pid _ d.tree
  frame-tree pid c (Frame.exit p status signal) d =
      ap (contains_key pid) (record_event-tree c _ _)
      ∙ (contains_key-remove p pid d.tree ∙ ground arith)
  frame-tree pid c (Frame.kernel_error code) d = refl

  -- After any frames of the kernel, a process is in the tree exactly if the last frame that is about it
  -- is no exit, or if there is none and it was there before.
  pub run_frames-tree :
      (pid : ℕ) (fs : List Frame) (d : Daemon)
      → contains_key pid (run_frames fs d).tree ≡ alive_after pid fs (contains_key pid d.tree)
  unfolding run_frames on_frame
  run_frames-tree pid [] d = refl
  run_frames-tree pid (f ∷ fs) d =
      run_frames-tree pid fs (on_frame formats calls f d)
      ∙ ap (alive_after pid fs)
          (frame-tree pid (calls d.handled) f (record d { handled = d.handled + 1 }))

  pub run_frames-append :
      (fs hs : List Frame) (d : Daemon) → run_frames (fs ++ hs) d ≡ run_frames hs (run_frames fs d)
  unfolding run_frames
  run_frames-append [] hs d = refl
  run_frames-append (f ∷ fs) hs d = run_frames-append fs hs (on_frame formats calls f d)

  pub run_frames-confirmed :
      (fs : List Frame) (d : Daemon) → (run_frames fs d).connector_confirmed ≡ d.connector_confirmed
  unfolding run_frames on_frame
  run_frames-confirmed [] d = refl
  run_frames-confirmed (f ∷ fs) d =
      run_frames-confirmed fs (on_frame formats calls f d)
      ∙ frame-confirmed (calls d.handled) f (record d { handled = d.handled + 1 })
