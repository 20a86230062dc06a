-- ===== src/Distributed/Acknowledgement/Soundness.antt =====
-- `IngestionAcknowledgement::validate` against the protocol's rules.
use system_pilot.Base.Strings.{is_blank}
use system_pilot.Base.{
  ℕ, ◌≤◌, ◌≡◌, ◌≢◌, refl, sym, subst, ◌↔◌, true, false, List, [], ◌∷◌, ◌++◌, map, Option, none,
  some, Text, text_eq, contains, All, arith,
}
use system_pilot.Distributed.Distinct.{
  IsDistinct, decide_all, IsFresh, IsFresh-nothing, IsFresh-append,
}
use system_pilot.Distributed.Acknowledgement.{
  RejectedRecord, IngestionAcknowledgement, ids_of, max_sequence, accepted_records, check_accepted,
  check_rejected, check_highest, check_delay, check_decided, validate_acknowledgement,
}
use system_pilot.Distributed.Envelope.{TelemetryEnvelope}
use system_pilot.Error.{ok, >>=-ok}

abbrev pub rejected_ids : List RejectedRecord → List Text
rejected_ids = map (λ r. r.message_id)

abbrev pub AreKnown : List Text → List Text → Type 0
AreKnown submitted = All (λ id. contains id submitted ≡ true)

abbrev pub AreReasoned : List RejectedRecord → Type 0
AreReasoned = All (λ r. is_blank r.reason ≡ false)

-- The rules that an acknowledgement of a batch has to keep.
pub record Decides (a : IngestionAcknowledgement) (batch : List TelemetryEnvelope) : Type 0 where
  pub accepted_known : AreKnown (ids_of batch) a.accepted_message_ids
  pub rejected_known : AreKnown (ids_of batch) (rejected_ids a.rejected_records)
  pub reasoned : AreReasoned a.rejected_records
  pub once : IsDistinct (a.accepted_message_ids ++ rejected_ids a.rejected_records)
  pub highest :
      (n : ℕ)
      → a.highest_accepted_sequence ≡ some n
      → max_sequence (accepted_records a.accepted_message_ids batch) ≡ some n
  pub delay : (n : ℕ) → a.retry_after_ms ≡ some n → n ≤ 86_400_000
  pub some_decision : a.accepted_message_ids ++ rejected_ids a.rejected_records ≢ []

module _ (submitted : List Text) where
  check_accepted_sound :
      (decided ids out : List Text)
      → check_accepted submitted decided ids ≡ ok out
      → AreKnown submitted ids × IsFresh decided ids × (decide_all ids decided ≡ out)
  unfolding check_accepted
  check_accepted_sound decided [] out h = (tt, tt, ground arith)
  check_accepted_sound decided (id ∷ ids) out h =
      ground (arith, check_accepted_sound (id ∷ decided) ids out)

  check_accepted_complete :
      (decided ids : List Text)
      → AreKnown submitted ids
      → IsFresh decided ids
      → check_accepted submitted decided ids ≡ ok (decide_all ids decided)
  unfolding check_accepted
  check_accepted_complete decided [] k f = refl
  check_accepted_complete decided (id ∷ ids) k f =
      rw (k.0, f.0) (check_accepted_complete (id ∷ decided) ids k.1 f.1)

  check_rejected_sound :
      (decided : List Text) (rs : List RejectedRecord) (out : List Text)
      → check_rejected submitted decided rs ≡ ok out
      → AreKnown submitted (rejected_ids rs)
        × AreReasoned rs
        × IsFresh decided (rejected_ids rs)
        × (decide_all (rejected_ids rs) decided ≡ out)
  unfolding check_rejected
  check_rejected_sound decided [] out h = (tt, tt, tt, ground arith)
  check_rejected_sound decided (r ∷ rs) out h =
      ground (arith, check_rejected_sound (r.message_id ∷ decided) rs out)

  check_rejected_complete :
      (decided : List Text) (rs : List RejectedRecord)
      → AreKnown submitted (rejected_ids rs)
      → AreReasoned rs
      → IsFresh decided (rejected_ids rs)
      → check_rejected submitted decided rs ≡ ok (decide_all (rejected_ids rs) decided)
  unfolding check_rejected
  check_rejected_complete decided [] k b f = refl
  check_rejected_complete decided (r ∷ rs) k b f =
      rw (b.0, k.0, f.0) (check_rejected_complete (r.message_id ∷ decided) rs k.1 b.1 f.1)

check_highest_iff :
    (claimed actual : Option ℕ)
    → (check_highest claimed actual ≡ ok tt) ↔ ((n : ℕ) → claimed ≡ some n → actual ≡ some n)
unfolding check_highest
check_highest_iff none actual = (λ _ n h. ground arith, λ _. refl)
check_highest_iff (some n) none = (λ h. ground arith, λ f. ground (arith, f n refl))
check_highest_iff (some n) (some m) = (λ h k e. ground arith, λ f. ground (arith, f n refl))

check_delay_iff :
    (delay : Option ℕ) → (check_delay delay ≡ ok tt) ↔ ((n : ℕ) → delay ≡ some n → n ≤ 86_400_000)
unfolding check_delay
check_delay_iff none = (λ _ n h. ground arith, λ _. refl)
check_delay_iff (some n) = (λ h k e. ground arith, λ f. ground (arith, f n refl))

check_decided-decide_all :
    (ids decided : List Text)
    → check_decided decided ≡ ok tt
    → check_decided (decide_all ids decided) ≡ ok tt
unfolding check_decided
check_decided-decide_all [] decided h = h
check_decided-decide_all (id ∷ ids) decided h = check_decided-decide_all ids (id ∷ decided) refl

-- Something is decided as soon as one list is not empty.
check_decided_iff :
    (xs ys : List Text)
    → (check_decided (decide_all ys (decide_all xs [])) ≡ ok tt) ↔ (xs ++ ys ≢ [])
unfolding check_decided
check_decided_iff [] [] = (λ h. ground arith, λ n. absurd (n refl))
check_decided_iff [] (y ∷ ys) =
    (λ h e. ground arith, λ _. check_decided-decide_all ys (y ∷ []) refl)
check_decided_iff (x ∷ xs) ys = (
  λ h e. ground arith,
  λ _.
      check_decided-decide_all ys (decide_all xs (x ∷ []))
        (check_decided-decide_all xs (x ∷ []) refl),
)

-- What the five checks of `validate` say together.
checks_pass :
    (a : IngestionAcknowledgement) (batch : List TelemetryEnvelope)
    → validate_acknowledgement a batch ≡ ok tt
    → (accepted : List Text) × (decided : List Text) × (check_accepted
          (ids_of batch)
          []
          a.accepted_message_ids
        ≡ ok accepted)
      × (check_rejected (ids_of batch) accepted a.rejected_records ≡ ok decided)
      × (check_highest a.highest_accepted_sequence
            (max_sequence (accepted_records a.accepted_message_ids batch))
          ≡ ok tt)
      × (check_delay a.retry_after_ms ≡ ok tt)
      × (check_decided decided ≡ ok tt)
unfolding validate_acknowledgement
checks_pass a batch h =
    let (accepted, first, rest) =
      >>=-ok (check_accepted (ids_of batch) [] a.accepted_message_ids) _ tt h in
    let (decided, second, rest) =
      >>=-ok (check_rejected (ids_of batch) accepted a.rejected_records) _ tt rest in
    let (_, highest, rest) =
      >>=-ok
        (check_highest a.highest_accepted_sequence
          (max_sequence (accepted_records a.accepted_message_ids batch)))
        _ tt rest in
    let (_, delay, last) = >>=-ok (check_delay a.retry_after_ms) _ tt rest in
    (accepted, decided, first, second, highest, delay, last)

validate_sound :
    (a : IngestionAcknowledgement) (batch : List TelemetryEnvelope)
    → validate_acknowledgement a batch ≡ ok tt
    → Decides a batch
validate_sound a batch h =
    let (accepted, decided, first, second, highest, delay, some_one) = checks_pass a batch h in
    let (known, fresh, out) =
      check_accepted_sound (ids_of batch) [] a.accepted_message_ids accepted first in
    let (known_too, reasoned, fresh_too, out_too) =
      check_rejected_sound (ids_of batch) accepted a.rejected_records decided second in
    record {
      accepted_known = known;
      rejected_known = known_too;
      reasoned = reasoned;
      once = (IsFresh-nothing (a.accepted_message_ids ++ rejected_ids a.rejected_records)).0 (
          (IsFresh-append [] a.accepted_message_ids (rejected_ids a.rejected_records)).1
            (fresh, subst (λ d. IsFresh d (rejected_ids a.rejected_records)) (sym out) fresh_too));
      highest =
          (check_highest_iff a.highest_accepted_sequence
              (max_sequence (accepted_records a.accepted_message_ids batch))).0
            highest;
      delay = (check_delay_iff a.retry_after_ms).0 delay;
      some_decision =
          (check_decided_iff a.accepted_message_ids (rejected_ids a.rejected_records)).0
            (rw (out, out_too) some_one);
    }

validate_complete :
    (a : IngestionAcknowledgement) (batch : List TelemetryEnvelope)
    → Decides a batch
    → validate_acknowledgement a batch ≡ ok tt
unfolding validate_acknowledgement
validate_complete a batch d =
    let fresh =
      (IsFresh-append [] a.accepted_message_ids (rejected_ids a.rejected_records)).0
        ((IsFresh-nothing (a.accepted_message_ids ++ rejected_ids a.rejected_records)).1 d.once) in
    rw
      (
        check_accepted_complete (ids_of batch) [] a.accepted_message_ids d.accepted_known fresh.0,
        check_rejected_complete (ids_of batch) (decide_all a.accepted_message_ids [])
            a.rejected_records d.rejected_known d.reasoned fresh.1,
        (check_highest_iff a.highest_accepted_sequence
              (max_sequence (accepted_records a.accepted_message_ids batch))).1
            d.highest,
        (check_delay_iff a.retry_after_ms).1 d.delay,
      )
      ((check_decided_iff a.accepted_message_ids (rejected_ids a.rejected_records)).1
        d.some_decision)

pub validate_acknowledgement_iff :
    (a : IngestionAcknowledgement) (batch : List TelemetryEnvelope)
    → (validate_acknowledgement a batch ≡ ok tt) ↔ Decides a batch
validate_acknowledgement_iff a batch = (validate_sound a batch, validate_complete a batch)
