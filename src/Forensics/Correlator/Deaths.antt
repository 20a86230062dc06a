-- ===== src/Forensics/Correlator/Deaths.antt =====
-- What src/forensics/correlator.rs answers to the exit of a group leader.
use system_pilot.Abi.{ProcessIdentity}
use system_pilot.Base.Map.{lookup, lookup-remove_self, remove, contains_key-some}
use system_pilot.Base.{
  ℕ, ◌≡◌, ◌≤◌, refl, Bool, true, false, not, List, none, some, ◌==◌, find_last,
  find_last-append_one, drop, length, if◌then◌else◌, arith,
}
use system_pilot.Forensics.Classifier.{Classified, Exit, classify, leader_exit}
use system_pilot.Forensics.Classifier.Verdicts.{Describes, classify-Describes, incomplete_capped}
use system_pilot.Forensics.Correlator.{
  Correlator, IngestOutcome, Timeline, ensure_capacity, push_event, settle, store, record_event,
  ingest,
}
use system_pilot.Forensics.Events.{
  KernelEvent, DeathReport, from_exit_code, rank, identity_eq, identity_beq_iff,
}

abbrev pub kept : ℕ → Timeline → List KernelEvent
kept n t = if length t.events == n then drop 1 t.events else t.events

-- The last event of a timeline is the one that was pushed.
leader_exit-push_event :
    (p : ProcessIdentity) (n t pid ppid g code : ℕ) (timeline : Timeline)
    → find_last
        (leader_exit p)
        (push_event n (KernelEvent.process_exit t p pid ppid g code true) timeline).events
      ≡ some (record { timestamp_ns = t; cgroup_id = g; exit_code = code })
unfolding push_event leader_exit
leader_exit-push_event p n t pid ppid g code timeline =
    rw (find_last-append_one (leader_exit p) (kept n timeline) _)
      (ground (arith, identity_beq_iff p p))

abbrev pub Death : ProcessIdentity → Exit → Bool → Correlator → Correlator × IngestOutcome → Type 0
Death p at incomplete c (c', outcome) =
    (r : DeathReport) × (outcome ≡ IngestOutcome.death r)
    × Describes p at incomplete r
    × (incomplete ≡ true → rank r.confidence ≤ 2)
    × (c' ≡ record c { timelines = remove p c.timelines })

classify_capped :
    (p : ProcessIdentity) (events : List KernelEvent) (incomplete : Bool) (r : DeathReport)
    → classify p events incomplete ≡ Classified.report r
    → incomplete ≡ true
    → rank r.confidence ≤ 2
classify_capped p events true r h e = incomplete_capped p events r h
classify_capped p events false r h e = absurd (ground arith)

settle-Death :
    (p : ProcessIdentity) (c : Correlator) (events : List KernelEvent) (incomplete : Bool)
    (at : Exit)
    → find_last (leader_exit p) events ≡ some at
    → Death p at incomplete c (settle p c (classify p events incomplete))
settle-Death p c events incomplete at h =
    let (r, e, describes) = classify-Describes p events incomplete at h in
    rw e (r, refl, describes, classify_capped p events incomplete r e, refl)

abbrev pub exit_at : ℕ → ℕ → ℕ → Exit
exit_at t g code = record { timestamp_ns = t; cgroup_id = g; exit_code = code }

abbrev pub leader_exit_event : ProcessIdentity → ℕ → ℕ → ℕ → ℕ → ℕ → KernelEvent
leader_exit_event p t pid ppid g code = KernelEvent.process_exit t p pid ppid g code true

pub ingest-Death :
    (c : Correlator) (p : ProcessIdentity) (t pid ppid g code : ℕ)
    → let (c', timeline) = store p (leader_exit_event p t pid ppid g code) (ensure_capacity p c) in
      Death p
        (exit_at t g code)
        (not (timeline.loss_epoch_at_creation == c'.telemetry_loss_epoch))
        c'
        (ingest c (leader_exit_event p t pid ppid g code))
unfolding ingest record_event store
ingest-Death c p t pid ppid g code =
    settle-Death p _ _ _ (exit_at t g code) (leader_exit-push_event p _ t pid ppid g code _)

-- The exit of a group leader is always answered by a report of that very exit, and the process's
-- timeline is gone afterwards.
pub leader_exit_reported :
    (c : Correlator) (p : ProcessIdentity) (t pid ppid g code : ℕ)
    → let (c', outcome) = ingest c (KernelEvent.process_exit t p pid ppid g code true) in
      (r : DeathReport) × (outcome ≡ IngestOutcome.death r)
      × (r.process ≡ p)
      × (r.timestamp_ns ≡ t)
      × (r.cgroup_id ≡ g)
      × (r.disposition ≡ from_exit_code code)
      × (lookup p c'.timelines ≡ none)
leader_exit_reported c p t pid ppid g code =
    let (r, e, (process, time, cgroup, disposition, loss), capped, state) =
      ingest-Death c p t pid ppid g code in
    (r, e, process, time, cgroup, disposition, rw state (lookup-remove_self p _))

pub ensure_capacity_known :
    (p : ProcessIdentity) (c : Correlator) (t : Timeline)
    → lookup p c.timelines ≡ some t
    → ensure_capacity p c ≡ c
unfolding ensure_capacity
ensure_capacity_known p c t h = rw (contains_key-some p c.timelines t h)
