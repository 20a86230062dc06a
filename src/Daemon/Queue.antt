-- ===== src/Daemon/Queue.antt =====
-- The queue of src/daemon.rs: the events that it takes of a list of frames, and those that are lost.
use mathlib.Core.List.{append_assoc, append-nil}
use system_pilot.Base.{
  ◌+◌, ◌%◌, ◌^◌, ◌≤◌, ◌<◌, ◌≡◌, ◌≢◌, ◌⊎◌, refl, sym, ap, subst, ◌∙◌, none, some, List, [], ◌∷◌,
  ◌++◌, length, length-append, arith, inl, inr,
}
use system_pilot.Base.Texts.{text}
use system_pilot.Daemon.{Daemon, describe_exit_status, LifecycleEvent, queue_capacity}
use system_pilot.Netlink.{Frame}

-- What one frame adds to the events.
abbrev pub event_frame : Frame → List Frame
event_frame (Frame.fork parent child) = Frame.fork parent child ∷ []
event_frame (Frame.exec pid) = Frame.exec pid ∷ []
event_frame (Frame.exit pid status signal) = Frame.exit pid status signal ∷ []
event_frame (Frame.kernel_error code) = []

-- The frames that are events.
abbrev pub event_frames : List Frame → List Frame
event_frames [] = []
event_frames (f ∷ fs) = event_frame f ++ event_frames fs

-- The event says what the frame carries.
abbrev pub Describes : Frame → LifecycleEvent → Type 0
Describes (Frame.fork parent child) e =
    (e.event_type ≡ text "FORK")
    × (e.pid ≡ child)
    × (e.ppid ≡ parent)
    × (e.exit_status ≡ none)
    × (e.parent_exit_signal ≡ none)
Describes (Frame.exec pid) e =
    (e.event_type ≡ text "EXEC")
    × (e.pid ≡ pid)
    × (e.exit_status ≡ none)
    × (e.parent_exit_signal ≡ none)
Describes (Frame.exit pid status signal) e =
    (e.event_type ≡ text "EXIT")
    × (e.pid ≡ pid)
    × (e.exit_status ≡ some status)
    × (e.parent_exit_signal ≡ some signal)
    × (e.exit_reason ≡ some (describe_exit_status status))
Describes (Frame.kernel_error code) e = ⊥

-- One event for each frame, in the order of the frames.
abbrev pub AreDescribed : List Frame → List LifecycleEvent → Type 0
AreDescribed [] [] = Unit
AreDescribed (f ∷ fs) (e ∷ es) = Describes f e × AreDescribed fs es
AreDescribed _ _ = ⊥

AreDescribed-append :
    (fs gs : List Frame) (es ds : List LifecycleEvent)
    → AreDescribed fs es
    → AreDescribed gs ds
    → AreDescribed (fs ++ gs) (es ++ ds)
AreDescribed-append [] gs [] ds h k = k
AreDescribed-append [] gs (e ∷ es) ds h k = absurd h
AreDescribed-append (f ∷ fs) gs [] ds h k = absurd h
AreDescribed-append (f ∷ fs) gs (e ∷ es) ds h k = (h.0, AreDescribed-append fs gs es ds h.1 k)

AreDescribed-none :
    (fs : List Frame) (es : List LifecycleEvent) → length es ≡ 0 → AreDescribed fs es → fs ≡ []
AreDescribed-none [] es h d = refl
AreDescribed-none (f ∷ fs) [] h d = absurd d
AreDescribed-none (f ∷ fs) (e ∷ es) h d = absurd (omega (arith, h))

-- Of the events of the frames, the first were added to the queue, behind those that were there, and the rest
-- were counted as dropped; the latter only where the queue is full.
pub record Records (fs : List Frame) (d d' : Daemon) : Type 0 where
  pub queued : List Frame
  pub lost : List Frame
  pub all : fs ≡ queued ++ lost
  pub kept : List LifecycleEvent
  pub described : AreDescribed queued kept
  pub queue : d'.events ≡ d.events ++ kept
  pub dropped : d'.dropped_events ≡ (d.dropped_events + length lost) % 2 ^ 64
  pub full : length lost ≢ 0 → length d'.events ≡ queue_capacity
  pub bounded : length d'.events ≤ queue_capacity

-- The queue and the counter are in their ranges.
pub record IsBounded (d : Daemon) : Type 0 where
  pub queue : length d.events ≤ queue_capacity
  pub counter : d.dropped_events < 2 ^ 64

pub nothing-Records : (d : Daemon) → IsBounded d → Records [] d d
nothing-Records d b = record {
  queued = [];
  lost = [];
  all = refl;
  kept = [];
  described = tt;
  queue = sym (append-nil d.events);
  dropped = omega (arith, b.counter);
  full = λ h. absurd (h refl);
  bounded = b.queue;
}

pub Records-IsBounded : (fs : List Frame) (d d' : Daemon) → Records fs d d' → IsBounded d'
Records-IsBounded fs d d' r = record { queue = r.bounded; counter = omega (arith, r.dropped) }

-- What was lost at first, and then queued, does not go together: a full queue stays full.
split_frames :
    (qs ls qs' ls' : List Frame)
    → ((ls ≡ []) ⊎ (qs' ≡ []))
    → (queued : List Frame) × (lost : List Frame) × ((qs ++ ls) ++ (qs' ++ ls') ≡ queued ++ lost)
      × (queued ≡ qs ++ qs')
      × (lost ≡ ls ++ ls')
split_frames qs ls qs' ls' (inl none_lost) = (
  qs ++ qs',
  ls ++ ls',
  rw (none_lost, append-nil qs) (sym (append_assoc qs qs' ls')),
  refl,
  refl,
)
split_frames qs ls qs' ls' (inr none_queued) =
    (qs ++ qs', ls ++ ls', rw (none_queued, append-nil qs) (append_assoc qs ls ls'), refl, refl)

full_stays :
    (fs gs : List Frame) (a b c : Daemon) (p : Records fs a b) (q : Records gs b c)
    → (p.lost ≡ []) ⊎ (q.queued ≡ [])
full_stays fs gs a b c p q = none_of p.lost refl
  where
    none_of : (ls : List Frame) → p.lost ≡ ls → (ls ≡ []) ⊎ (q.queued ≡ [])
    none_of [] h = inl refl
    none_of (l ∷ ls) h =
        let full : length b.events ≡ queue_capacity = p.full (λ z. omega (arith, z, ap length h)) in
        inr (
          AreDescribed-none q.queued q.kept
            (omega (arith, full, q.bounded, ap length q.queue, length-append b.events q.kept))
            q.described)

pub Records-trans :
    (fs gs : List Frame) (a b c : Daemon) → Records fs a b → Records gs b c → Records (fs ++ gs) a c
Records-trans fs gs a b c p q =
    let (queued, lost, all, same_queued, same_lost) =
      split_frames p.queued p.lost q.queued q.lost (full_stays fs gs a b c p q) in
    record {
      queued = queued;
      lost = lost;
      all = ap (λ xs. xs ++ gs) p.all ∙ (ap (λ xs. (p.queued ++ p.lost) ++ xs) q.all ∙ all);
      kept = p.kept ++ q.kept;
      described =
          subst (λ (xs : List Frame). AreDescribed xs (p.kept ++ q.kept)) (sym same_queued)
            (AreDescribed-append p.queued q.queued p.kept q.kept p.described q.described);
      queue = q.queue ∙ (ap (λ xs. xs ++ q.kept) p.queue ∙ append_assoc a.events p.kept q.kept);
      dropped =
          omega (arith, p.dropped, q.dropped, ap length same_lost, length-append p.lost q.lost);
      full = λ h. ground (
        arith,
        p.full,
        q.full,
        ap length same_lost,
        length-append p.lost q.lost,
        ap length q.queue,
        length-append b.events q.kept,
        q.bounded,
      );
      bounded = q.bounded;
    }
