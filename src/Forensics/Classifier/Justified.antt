-- ===== src/Forensics/Classifier/Justified.antt =====
-- That the causes which src/forensics/classifier.rs names rest on events that were received.
use system_pilot.Abi.{ProcessIdentity}
use system_pilot.Base.{
  ℕ, ◌-◌, ◌≤◌, ◌≡◌, Bool, false, List, ◌∷◌, ◌++◌, Option, some, none, find_last, ◌>>=◌,
  Option-cases, refl, subst, inl, inr, find_last-FoundAt, arith,
}
use system_pilot.Forensics.Classifier.{
  Classified, Exit, Generated, max_causal_distance_ns, classify, conclude, report_of, classify_exit,
  leader_exit, generated_signal, oom_record, verdict, terminal_signal, from_parts,
}
use system_pilot.Forensics.Events.{
  KernelEvent, Evidence, OomKind, ExitDisposition, Cause, Confidence, DeathReport, SignalOrigin,
  from_exit_code, identity_beq_iff,
}

-- Among the events stands `event t`, at a time `t` not after `at` and at most five seconds before.
abbrev pub Precedes : List KernelEvent → ℕ → (ℕ → KernelEvent) → Type 0
Precedes events at event =
    (t : ℕ) × (before : List KernelEvent) × (after : List KernelEvent) × (events
      ≡ before ++ (event t ∷ after))
    × (t ≤ at)
    × (at - t ≤ max_causal_distance_ns)

oom_record_event :
    (process : ProcessIdentity) (at : ℕ) (x : KernelEvent) (kind : OomKind) (cgroup_id : ℕ)
    → oom_record process at x ≡ some (kind, cgroup_id)
    → (t : ℕ) × (x ≡ KernelEvent.oom_victim t process cgroup_id kind)
      × (t ≤ at)
      × (at - t ≤ max_causal_distance_ns)
unfolding oom_record
oom_record_event process at (KernelEvent.oom_victim t p g k) kind cgroup_id h =
    (t, ground (arith, identity_beq_iff p process), ground arith, ground arith)
oom_record_event process at x kind cgroup_id h = ground arith

oom-Precedes :
    (process : ProcessIdentity) (at : ℕ) (events : List KernelEvent) (kind : OomKind)
    (cgroup_id : ℕ)
    → find_last (oom_record process at) events ≡ some (kind, cgroup_id)
    → Precedes events at (λ t. KernelEvent.oom_victim t process cgroup_id kind)
oom-Precedes process at events kind cgroup_id h =
    let (before, x, after, split, hit, miss) =
      find_last-FoundAt (oom_record process at) events (kind, cgroup_id) h in
    let (t, e, early, near) = oom_record_event process at x kind cgroup_id hit in
    (t, before, after, rw e at split, early, near)

generated_signal_event :
    (process : ProcessIdentity) (s at : ℕ) (x : KernelEvent) (g : Generated) (pid uid : ℕ)
    → generated_signal process s at x ≡ some g
    → g.origin ≡ SignalOrigin.process pid uid
    → (t : ℕ) × (si cgroup_id : ℕ) × (x
        ≡ KernelEvent.signal_generated t process s si pid uid false cgroup_id)
      × (t ≤ at)
      × (at - t ≤ max_causal_distance_ns)
unfolding generated_signal from_parts
generated_signal_event process s at (KernelEvent.signal_generated t p s' si pid' uid' k c) g pid uid
      h o =
    (t, si, c, ground (arith, identity_beq_iff p process), ground arith, ground arith)
generated_signal_event process s at x g pid uid h o = ground arith

signal-Precedes :
    (process : ProcessIdentity) (s at : ℕ) (events : List KernelEvent) (g : Generated) (pid uid : ℕ)
    → find_last (generated_signal process s at) events ≡ some g
    → g.origin ≡ SignalOrigin.process pid uid
    → (si : ℕ) × (cgroup_id : ℕ) × Precedes events at
        (λ t. KernelEvent.signal_generated t process s si pid uid false cgroup_id)
signal-Precedes process s at events g pid uid h o =
    let (before, x, after, split, hit, miss) =
      find_last-FoundAt (generated_signal process s at) events g h in
    let (t, si, cgroup_id, e, early, near) =
      generated_signal_event process s at x g pid uid hit o in
    (si, cgroup_id, (t, before, after, rw e at split, early, near))

-- The exit that a report is about.
abbrev pub ExitOf : ProcessIdentity → List KernelEvent → DeathReport → Exit → Type 0
ExitOf process events r at =
    (find_last (leader_exit process) events ≡ some at)
    × (r.timestamp_ns ≡ at.timestamp_ns)
    × (r.cgroup_id ≡ at.cgroup_id)
    × (r.disposition ≡ from_exit_code at.exit_code)
    × (r.process ≡ process)

-- A report is about the last exit of the process's group leader: it carries its time, its cgroup
-- and its decoded exit code.
pub report_exit :
    (process : ProcessIdentity) (events : List KernelEvent) (incomplete : Bool) (r : DeathReport)
    → classify process events incomplete ≡ Classified.report r
    → (at : Exit) × ExitOf process events r at
unfolding classify classify_exit
report_exit process events incomplete r h =
    elim (Option-cases (find_last (leader_exit process) events)) [
      | inl e ↦ absurd (ground arith)
      | inr (at, e) ↦ (at, (e, ground arith, ground arith, ground arith, ground arith))
    ]

-- The signal event that a report at this exit would cite.
abbrev cited : ProcessIdentity → List KernelEvent → DeathReport → Option Generated
cited process events r = terminal_signal r.disposition >>= λ s.
    find_last (generated_signal process s r.timestamp_ns) events

-- The verdict that the fields of a report come from.
abbrev VerdictOf : ProcessIdentity → List KernelEvent → DeathReport → Type 0
VerdictOf process events r =
    (confidence : Confidence) × (verdict r.cgroup_id r.disposition (terminal_signal r.disposition)
        (cited process events r) (find_last (oom_record process r.timestamp_ns) events)
      ≡ some (r.cause, confidence))

conclude-VerdictOf :
    (process : ProcessIdentity) (events : List KernelEvent) (incomplete : Bool) (at : Exit)
    (ev : List Evidence) (d : ExitDisposition) (v : Option (Cause × Confidence)) (r : DeathReport)
    → verdict at.cgroup_id d
        (terminal_signal d)
        (terminal_signal d >>= λ s. find_last (generated_signal process s at.timestamp_ns) events)
        (find_last (oom_record process at.timestamp_ns) events)
      ≡ v
    → conclude process at d ev incomplete v ≡ Classified.report r
    → VerdictOf process events r
conclude-VerdictOf process events incomplete at ev d none r p h = absurd (ground arith)
conclude-VerdictOf process events incomplete at ev d (some (c, q)) r p h =
    subst (VerdictOf process events) {x = report_of process at d ev incomplete c q} {y = r}
      (ground arith) (q, p)

report-VerdictOf :
    (process : ProcessIdentity) (events : List KernelEvent) (incomplete : Bool) (r : DeathReport)
    → classify process events incomplete ≡ Classified.report r
    → VerdictOf process events r
unfolding classify classify_exit
report-VerdictOf process events incomplete r h =
    elim (Option-cases (find_last (leader_exit process) events)) [
      | inl e ↦ absurd (ground arith)
      | inr (at, e) ↦
          conclude-VerdictOf process events incomplete at _ (from_exit_code at.exit_code) _ r refl
            (rw (e, classify) at h)
    ]

module _ (cgroup_id : ℕ) (d : ExitDisposition) (oom : Option (OomKind × ℕ)) (cause : Cause)
    (confidence : Confidence) where
  abbrev Concluded : Option Generated → Type 0
  Concluded g = verdict cgroup_id d (terminal_signal d) g oom ≡ some (cause, confidence)

  verdict-cgroup_oom :
      (cited : Option Generated) (g : ℕ)
      → Concluded cited
      → cause ≡ Cause.cgroup_oom g
      → (g ≡ cgroup_id) × (terminal_signal d ≡ some 9) × (oom ≡ some (OomKind.memcg, g))
  unfolding verdict terminal_signal
  verdict-cgroup_oom cited g h c = ground arith

  verdict-fatal_signal :
      (cited : Option Generated) (s pid uid : ℕ)
      → Concluded cited
      → cause ≡ Cause.fatal_signal s (SignalOrigin.process pid uid)
      → (terminal_signal d ≡ some s)
        × ((g : Generated) × (cited ≡ some g) × (g.origin ≡ SignalOrigin.process pid uid))
  unfolding verdict terminal_signal
  verdict-fatal_signal none s pid uid h c = absurd (ground arith)
  verdict-fatal_signal (some g) s pid uid h c = (ground arith, (g, refl, ground arith))

verdict-global_oom :
    (cgroup_id : ℕ) (d : ExitDisposition) (oom : Option (OomKind × ℕ)) (cause : Cause)
    (confidence : Confidence) (cited : Option Generated)
    → verdict cgroup_id d (terminal_signal d) cited oom ≡ some (cause, confidence)
    → cause ≡ Cause.global_oom
    → (terminal_signal d ≡ some 9) × ((g : ℕ) × (oom ≡ some (OomKind.global, g)))
unfolding verdict terminal_signal
verdict-global_oom cgroup_id d none cause confidence cited h c = absurd (ground arith)
verdict-global_oom cgroup_id d (some (kind, g)) cause confidence cited h c =
    (ground arith, (g, ground arith))

module _ (process : ProcessIdentity) (events : List KernelEvent) (incomplete : Bool)
    (r : DeathReport) (h : classify process events incomplete ≡ Classified.report r) where
  -- A report names the memory cgroup's OOM killer only for a process that died of signal 9, and
  -- with an OOM record of that very process and cgroup, of memcg kind, in the five seconds before.
  pub cgroup_oom_justified :
      (g : ℕ)
      → r.cause ≡ Cause.cgroup_oom g
      → (g ≡ r.cgroup_id)
        × (terminal_signal r.disposition ≡ some 9)
        × Precedes events r.timestamp_ns (λ t. KernelEvent.oom_victim t process g OomKind.memcg)
  cgroup_oom_justified g c =
      let (confidence, v) = report-VerdictOf process events incomplete r h in
      let (same, nine, oom) =
        verdict-cgroup_oom r.cgroup_id r.disposition _ r.cause confidence (cited process events r) g
          v c in
      (same, nine, oom-Precedes process r.timestamp_ns events OomKind.memcg g oom)

  -- A report blames a process for a fatal signal only if that process sent that very signal to the
  -- dead one in the five seconds before, and the exit code carries the signal.
  pub fatal_signal_justified :
      (s pid uid : ℕ)
      → r.cause ≡ Cause.fatal_signal s (SignalOrigin.process pid uid)
      → (terminal_signal r.disposition ≡ some s)
        × ((si : ℕ) × (cgroup_id : ℕ) × Precedes events r.timestamp_ns
              (λ t. KernelEvent.signal_generated t process s si pid uid false cgroup_id))
  fatal_signal_justified s pid uid c =
      let (confidence, v) = report-VerdictOf process events incomplete r h in
      let (same, (g, cites, origin)) =
        verdict-fatal_signal r.cgroup_id r.disposition _ r.cause confidence (cited process events r)
          s pid uid v c in
      (same, signal-Precedes process s r.timestamp_ns events g pid uid (rw same at cites) origin)

  -- A report names the global OOM killer only for a process that died of signal 9, and with a
  -- global OOM record of that very process in the five seconds before.
  pub global_oom_justified :
      r.cause ≡ Cause.global_oom
      → (terminal_signal r.disposition ≡ some 9)
        × ((g : ℕ) × Precedes events r.timestamp_ns
              (λ t. KernelEvent.oom_victim t process g OomKind.global))
  global_oom_justified c =
      let (confidence, v) = report-VerdictOf process events incomplete r h in
      let (nine, (g, oom)) =
        verdict-global_oom r.cgroup_id r.disposition _ r.cause confidence (cited process events r) v
          c in
      (nine, (g, oom-Precedes process r.timestamp_ns events OomKind.global g oom))
