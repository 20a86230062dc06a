-- ===== src/Daemon/Recording.antt =====
-- The queue of lifecycle events of src/daemon.rs.
use mathlib.Core.List.{append-nil}
use system_pilot.Base.{
  ℕ, ◌+◌, ◌≡◌, refl, sym, ap, ◌∙◌, List, [], ◌∷◌, ◌++◌, length, length-append, ltb, arith,
  Bool-cases, inl, inr,
}
use system_pilot.Daemon.Tree.{before_sending, before_sending-Keeps, run_frames}
use system_pilot.Daemon.{
  Daemon, EventCalls, Formats, LifecycleEvent, on_frame, on_frame_with, queue_capacity,
  record_event, send_event,
}
use system_pilot.Netlink.{Frame}
use system_pilot.Daemon.Queue.{
  Describes, IsBounded, Records, Records-IsBounded, Records-trans, event_frame, event_frames,
  nothing-Records,
}

module _ (formats : Formats) (calls : ℕ → EventCalls) where
  send_event-Records :
      (f : Frame) (e : LifecycleEvent) (d : Daemon)
      → Describes f e
      → IsBounded d
      → Records (f ∷ []) d (send_event e d)
  unfolding send_event
  send_event-Records f e d says b = elim (Bool-cases (ltb (length d.events) queue_capacity)) [
    | inl room ↦ simp room (record {
      queued = f ∷ [];
      lost = [];
      all = refl;
      kept = e ∷ [];
      described = (says, tt);
      queue = refl;
      dropped = omega (arith, b.counter);
      full = λ h. absurd (h refl);
      bounded = ground (arith, length-append d.events (e ∷ []));
    })
    | inr full ↦ simp full (record {
      queued = [];
      lost = f ∷ [];
      all = refl;
      kept = [];
      described = tt;
      queue = sym (append-nil d.events);
      dropped = refl;
      full = λ h. ground (arith, b.queue);
      bounded = b.queue;
    })
  ]

  -- What is before the queue leaves queue and counter alone.
  Records-Keeps :
      (fs : List Frame) (a a' d' : Daemon)
      → a'.events ≡ a.events
      → a'.dropped_events ≡ a.dropped_events
      → Records fs a' d'
      → Records fs a d'
  Records-Keeps fs a a' d' same_events same_count r = record {
    queued = r.queued;
    lost = r.lost;
    all = r.all;
    kept = r.kept;
    described = r.described;
    queue = r.queue ∙ ap (λ xs. xs ++ r.kept) same_events;
    dropped = omega (arith, r.dropped, same_count);
    full = r.full;
    bounded = r.bounded;
  }

  record_event-Records :
      (f : Frame) (c : EventCalls) (e : LifecycleEvent) (d : Daemon)
      → Describes f e
      → IsBounded d
      → Records (f ∷ []) d (record_event formats calls c e d)
  unfolding record_event
  record_event-Records f c e d says b =
      let k = before_sending-Keeps formats calls c e d in
      let d' = before_sending formats calls c e d in
      Records-Keeps (f ∷ []) d d' _ k.events k.dropped (
        send_event-Records f e d' says (record {
          queue = omega (arith, ap length k.events, b.queue);
          counter = omega (arith, k.dropped, b.counter);
        }))

  frame-Records :
      (c : EventCalls) (f : Frame) (d : Daemon)
      → IsBounded d
      → Records (event_frame f) d (on_frame_with formats calls c f d)
  frame-Records c (Frame.fork parent child) d b =
      Records-Keeps (Frame.fork parent child ∷ []) d _ _ refl refl (
        record_event-Records (Frame.fork parent child) c _ _ (refl, refl, refl, refl, refl)
          (record { queue = b.queue; counter = b.counter }))
  frame-Records c (Frame.exec pid) d b = Records-Keeps (Frame.exec pid ∷ []) d _ _ refl refl (
      record_event-Records (Frame.exec pid) c _ _ (refl, refl, refl, refl)
        (record { queue = b.queue; counter = b.counter }))
  frame-Records c (Frame.exit pid status signal) d b =
      Records-Keeps (Frame.exit pid status signal ∷ []) d _ _ refl refl (
        record_event-Records (Frame.exit pid status signal) c _ _ (refl, refl, refl, refl, refl)
          (record { queue = b.queue; counter = b.counter }))
  frame-Records c (Frame.kernel_error code) d b = nothing-Records d b

  -- While no client takes events, those of the first frames are queued behind those before, in the order of
  -- the frames, each with the type and the process of its frame, a fork's parent and an exit's status,
  -- signal and reason; those of all later frames are counted as dropped. Events are dropped only when the
  -- queue is full, and it never holds more than its capacity.
  pub run_frames-Records :
      (fs : List Frame) (d : Daemon)
      → IsBounded d
      → Records (event_frames fs) d (run_frames formats calls fs d)
  unfolding run_frames on_frame
  run_frames-Records [] d b = nothing-Records d b
  run_frames-Records (f ∷ fs) d b =
      let d' = record d { handled = d.handled + 1 } in
      let r =
        frame-Records (calls d.handled) f d' (record { queue = b.queue; counter = b.counter }) in
      Records-trans (event_frame f) (event_frames fs) d (on_frame formats calls f d) _
        (Records-Keeps (event_frame f) d d' _ refl refl r)
        (run_frames-Records fs (on_frame formats calls f d)
          (Records-IsBounded (event_frame f) d' _ r))
