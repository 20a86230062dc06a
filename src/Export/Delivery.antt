-- ===== src/Export/Delivery.antt =====
-- A round of the export worker of src/distributed.rs: what may leave the spool.
use system_pilot.Base.{
  ℕ, zero, suc, ◌+◌, ◌≡◌, ◌⊎◌, inl, inr, refl, sym, subst, ap, ◌∙◌, Bool, true, false, List, [],
  ◌∷◌, Option, some, Text, length, Bool-cases, Option-cases, ◌==◌, arith,
}
use system_pilot.Distributed.Acknowledgement.Soundness.{Decides, validate_acknowledgement_iff}
use system_pilot.Distributed.Acknowledgement.{
  IngestionAcknowledgement, accepted_records, validate_acknowledgement,
}
use system_pilot.Distributed.Envelope.{ExportPolicy, TelemetryEnvelope}
use system_pilot.Error.{AppResult, ok, err}
use system_pilot.Export.{
  ExportMetrics, RoundCalls, Worker, answer, attempts, carry_out, commit, committed, count_rejected,
  count_retry, counted_spool, give_up, round, send, valid_only,
}
use system_pilot.Export.Kept.{
  Any, Any-All, IsHeld, IsHeld-IsKept, IsHeld-acknowledge, IsHeld-pending, IsKept,
  accepted_records-All,
}
use system_pilot.Export.Origin.{AreNumbered, AreRead, HasNumber, file_at-HasNumber, pending-AreRead}
use system_pilot.Spool.Files.{IsAscending, same_file}
use system_pilot.Spool.{
  Calls, DiskSpool, SpoolFile, SpoolStats, acknowledge, file_at, pending, read_record,
  stats_unlocked,
}

count_rejected-spool : (n : ℕ) (x : Worker × Bool) → (count_rejected n x).0.spool ≡ x.0.spool
count_rejected-spool n (w, false) = refl
count_rejected-spool n (w, true) = refl

committed-spool :
    (now n : ℕ) (m : ExportMetrics) (x : DiskSpool × AppResult (Unit {0}))
    → (committed now n m x).0.spool ≡ x.0
committed-spool now n m (s, ok _) = refl
committed-spool now n m (s, err e) = refl

commit-spool :
    (io : Calls) (now : ℕ) (w : Worker) (rs : List TelemetryEnvelope)
    → (commit io now w rs).0.spool ≡ (acknowledge io w.spool rs).0
unfolding acknowledge
commit-spool io now w [] = refl
commit-spool io now w (r ∷ rs) =
    committed-spool now (length (r ∷ rs)) w.metrics (acknowledge io w.spool (r ∷ rs))

-- A valid acknowledgement does to the spool what `acknowledge` does.
carry_out-spool :
    (io : Calls) (now : ℕ) (w : Worker) (batch : List TelemetryEnvelope)
    (a : IngestionAcknowledgement)
    → (carry_out io now w batch a).0.spool
      ≡ (acknowledge io w.spool (accepted_records a.accepted_message_ids batch)).0
unfolding carry_out
carry_out-spool io now w batch a =
    count_rejected-spool (length a.rejected_records)
      (commit io now w (accepted_records a.accepted_message_ids batch))
    ∙ commit-spool io now w (accepted_records a.accepted_message_ids batch)

valid_only_sound :
    (b a : IngestionAcknowledgement) (r : AppResult (Unit {0}))
    → valid_only b r ≡ some a
    → (b ≡ a) × (r ≡ ok tt)
valid_only_sound b a (ok _) h = (ground arith, refl)
valid_only_sound b a (err e) h = absurd (ground arith)

answer_sound :
    (batch : List TelemetryEnvelope) (r : AppResult IngestionAcknowledgement)
    (a : IngestionAcknowledgement)
    → answer batch r ≡ some a
    → (r ≡ ok a) × Decides a batch
unfolding answer
answer_sound batch (err e) a h = absurd (ground arith)
answer_sound batch (ok b) a h =
    let (same, valid) = valid_only_sound b a (validate_acknowledgement b batch) h in
    (ap ok same, subst (λ c. Decides c batch) same ((validate_acknowledgement_iff b batch).0 valid))

count_retry-spool : (attempt n : ℕ) (w : Worker) → (count_retry attempt n w).spool ≡ w.spool
count_retry-spool attempt n w = elim (Bool-cases (attempt == 0)) [
  | inl first ↦ rw first refl
  | inr later ↦ rw later refl
]

give_up-spool : (n : ℕ) (x : Worker × Bool) → (give_up n x).spool ≡ x.0.spool
give_up-spool n (w, true) = refl
give_up-spool n (w, false) = refl

counted_spool-spool : (r : AppResult SpoolStats) (w : Worker) → (counted_spool r w).spool ≡ w.spool
counted_spool-spool (ok stats) w = refl
counted_spool-spool (err e) w = refl

module _ (sink : ℕ → AppResult IngestionAcknowledgement) (io : Calls) (now : ℕ)
    (batch : List TelemetryEnvelope) where
  -- The attempts leave the spool as it is, or do what one valid acknowledgement says.
  attempts-spool :
      (left attempt : ℕ) (w : Worker)
      → ((attempts left attempt sink io now batch w).0.spool ≡ w.spool)
        ⊎ ((k : ℕ) × (a : IngestionAcknowledgement) × (answer batch (sink k) ≡ some a)
            × ((attempts left attempt sink io now batch w).0.spool
                ≡ (acknowledge io w.spool (accepted_records a.accepted_message_ids batch)).0))
  unfolding attempts
  attempts-spool zero attempt w = inl refl
  attempts-spool (suc left) attempt w =
      let w' = count_retry attempt (length batch) w in
      let same = count_retry-spool attempt (length batch) w in
      elim (Option-cases (answer batch (sink attempt))) [
        | inr (a, valid) ↦ inr (
          attempt,
          a,
          valid,
          rw valid (
              carry_out-spool io now w' batch a
              ∙ ap (λ s. (acknowledge io s (accepted_records a.accepted_message_ids batch)).0)
                  same),
        )
        | inl invalid ↦ rw invalid (elim (attempts-spool left (attempt + 1) w') [
          | inl kept ↦ inl (kept ∙ same)
          | inr (k, a, valid, done) ↦ inr (
            k,
            a,
            valid,
            done
                ∙ ap (λ s. (acknowledge io s (accepted_records a.accepted_message_ids batch)).0)
                    same,
          )
        ])
      ]

-- The collector accepted the record that the file holds, by an acknowledgement that keeps the rules.
abbrev pub WasAccepted :
    (Text → Option TelemetryEnvelope)
    → (ℕ → List TelemetryEnvelope → AppResult IngestionAcknowledgement)
    → SpoolFile
    → Type 0
WasAccepted decode sink f =
    (batch : List TelemetryEnvelope) × (k : ℕ) × (a : IngestionAcknowledgement) × (sink k batch
      ≡ ok a)
    × Decides a batch
    × Any (λ r. read_record decode f ≡ some r) (accepted_records a.accepted_message_ids batch)

module _ (decode : Text → Option TelemetryEnvelope) (files : List SpoolFile) (f : SpoolFile)
    (there : file_at f.sequence files ≡ some f) (numbered : AreNumbered decode files) where
  -- A record that was read from one of the files, and has the number of the file, is its record.
  own_record :
      (r : TelemetryEnvelope)
      → r.sequence ≡ f.sequence
      → (g : SpoolFile) × (file_at g.sequence files ≡ some g) × (read_record decode g ≡ some r)
      → read_record decode f ≡ some r
  own_record r same (g, found, whole) =
      let number : r.sequence ≡ g.sequence =
        subst (λ (o : Option TelemetryEnvelope). HasNumber decode o g.sequence) whole
          (file_at-HasNumber decode g.sequence files g found numbered) in
      let one : g ≡ f =
        same_file g f (sym found ∙ (ap (λ n. file_at n files) (sym number ∙ same) ∙ there)) in
      subst (λ (x : SpoolFile). read_record decode x ≡ some r) one whole

  module _ (policy : ExportPolicy)
      (sink : ℕ → List TelemetryEnvelope → AppResult IngestionAcknowledgement) (io : RoundCalls)
      (now : ℕ) where
    IsKept-send :
        (m : ExportMetrics) (x : DiskSpool × AppResult (List TelemetryEnvelope))
        → ((rs : List TelemetryEnvelope) → x.1 ≡ ok rs → AreRead decode files rs)
        → IsHeld f x.0
        → IsKept f (send policy sink io now m x).spool ⊎ WasAccepted decode sink f
    IsKept-send m (s, err e) read h = inl (IsHeld-IsKept f s h)
    IsKept-send m (s, ok []) read h = inl (IsHeld-IsKept f s h)
    IsKept-send m (s, ok (r ∷ rs)) read h =
        let start : Worker = record { spool = s; metrics = m } in
        let tried =
          attempts (policy.max_retries + 1) 0 (λ attempt. sink attempt (r ∷ rs)) io.removing now
            (r ∷ rs) start in
        let w' = give_up (length (r ∷ rs)) tried in
        let end : (counted_spool (stats_unlocked io.counting w'.spool) w').spool ≡ tried.0.spool =
          counted_spool-spool (stats_unlocked io.counting w'.spool) w'
          ∙ give_up-spool (length (r ∷ rs)) tried in
        elim (attempts-spool (λ attempt. sink attempt (r ∷ rs)) io.removing now (r ∷ rs)
          (policy.max_retries + 1) 0 start) [
            | inl same ↦ inl (subst (IsKept f) (sym (end ∙ same)) (IsHeld-IsKept f s h))
            | inr (k, a, valid, done) ↦
                let (given, fair) = answer_sound (r ∷ rs) (sink k (r ∷ rs)) a valid in
                let accepted = accepted_records a.accepted_message_ids (r ∷ rs) in
                elim (IsHeld-acknowledge f io.removing s accepted h) [
                  | inl kept ↦ inl (
                      subst (IsKept f) (sym (end ∙ done))
                        (IsHeld-IsKept f (acknowledge io.removing s accepted).0 kept))
                  | inr gone ↦ inr (
                    r ∷ rs,
                    k,
                    a,
                    given,
                    fair,
                    Any-All (λ t. t.sequence ≡ f.sequence)
                        (λ t.
                          (g : SpoolFile) × (file_at g.sequence files ≡ some g)
                          × (read_record decode g ≡ some t))
                        (λ t. read_record decode f ≡ some t) accepted own_record gone
                        (accepted_records-All _ a.accepted_message_ids (r ∷ rs)
                          (read (r ∷ rs) refl)),
                  )
                ]
          ]

-- A round of the worker never loses a record. Where the records stand in order and each file that can be
-- read holds the record of its number, whatever the collector answers and whichever calls fail, a file of the
-- records is afterwards among the records or in the quarantine, with what it held, unless the
-- collector accepted the record that it holds in an acknowledgement that keeps the protocol's rules.
pub round_loses_nothing :
    (decode : Text → Option TelemetryEnvelope) (policy : ExportPolicy)
    (sink : ℕ → List TelemetryEnvelope → AppResult IngestionAcknowledgement) (io : RoundCalls)
    (now : ℕ) (w : Worker) (f : SpoolFile)
    → IsAscending w.spool.records
    → AreNumbered decode w.spool.records
    → file_at f.sequence w.spool.records ≡ some f
    → IsKept f (round decode policy sink io now w).spool ⊎ WasAccepted decode sink f
unfolding round
round_loses_nothing decode policy sink io now w f ascending numbered there =
    IsKept-send decode w.spool.records f there numbered policy sink io now w.metrics
      (pending decode io.reading w.spool policy.batch_size)
      (λ rs. pending-AreRead decode io.reading w.spool policy.batch_size rs ascending)
      (IsHeld-pending decode f io.reading w.spool policy.batch_size (inl (ascending, there)))
