-- ===== src/Cloud/Server/Acknowledged.antt =====
-- The acknowledgement that the collector of crates/syspilot-cloud/src/lib.rs gives, and the agent of
-- src/distributed.rs that receives it.
use system_pilot.Base.{
  ◌≡◌, ◌≢◌, refl, sym, ap, ◌∙◌, Bool, true, false, List, [], ◌∷◌, Option, none, some, Text, Eq,
  arith, Bool-cases, inl, inr,
}
use system_pilot.Cloud.Admission.{Admission, try_acquire}
use system_pilot.Cloud.Api.{ApiResult, ok, err, >>=-ok, ok_injective}
use system_pilot.Cloud.Database.{Database}
use system_pilot.Cloud.Ingest.{
  Codec, bearer_token, insert_envelope, validate_batch, sent, record_batch_state,
}
use system_pilot.Cloud.Server.Agreement.{tally_all-Decides}
use system_pilot.Cloud.Server.Tallies.{Outcomes, messages, tally_all}
use system_pilot.Cloud.Server.{
  Server, Tally, acknowledgement, admitted, begun, committed, count_request, empty_tally,
  has_other_node, identified, ingest, insert_all, recorded, tally, validated, with_permit,
  with_token, write_batch,
}
use system_pilot.Distributed.Acknowledgement.Soundness.{validate_acknowledgement_iff}
use system_pilot.Distributed.Acknowledgement.{
  IngestionAcknowledgement, ids_of, validate_acknowledgement,
}
use system_pilot.Distributed.Distinct.{IsDistinct}
use system_pilot.Distributed.Envelope.{TelemetryEnvelope}
use system_pilot.Error.{AppResult}

module _ {Store Transaction Tenant : Type 0} ⦃e : Eq (Tenant × Text)⦄
    (db : Database Store Transaction Tenant) (codec : Codec) where
  abbrev State : Type 0
  State = Server Store (Tenant × Text)

  -- The acknowledgement is the tally of a batch.
  Tallies : List TelemetryEnvelope → IngestionAcknowledgement → Type 0
  Tallies batch a =
      (ps : Outcomes) × (messages ps ≡ batch) × (a ≡ acknowledgement (tally_all ps empty_tally))

  insert_all-outcomes :
      (tenant : Tenant) (t : Tally) (rs : List TelemetryEnvelope) (tx : Transaction)
      (x : Transaction × Tally)
      → insert_all db codec tenant t rs tx ≡ ok x
      → (ps : Outcomes) × (messages ps ≡ rs) × (x.1 ≡ tally_all ps t)
  unfolding insert_all
  insert_all-outcomes tenant t [] tx (tx', t') h = ([], refl, ground arith)
  insert_all-outcomes tenant t (r ∷ rs) tx x h =
      let ((tx', o), sent_one, rest) = >>=-ok (insert_envelope db codec tx tenant r) _ x h in
      let (ps, whole, same) = insert_all-outcomes tenant (tally r o t) rs tx' x rest in
      ((r, o) ∷ ps, ap (◌∷◌ r) whole, same)

  write_batch-outcomes :
      (tx : Transaction) (tenant : Tenant) (node : Text) (batch : List TelemetryEnvelope)
      (x : Transaction × Tally)
      → write_batch db codec tx tenant node batch ≡ ok x
      → (ps : Outcomes) × (messages ps ≡ batch) × (x.1 ≡ tally_all ps empty_tally)
  unfolding write_batch
  write_batch-outcomes tx tenant node batch x h =
      let (tx', first, rest) = >>=-ok (sent db codec (db.set_tenant tx tenant)) _ x h in
      let (y, second, rest) = >>=-ok (insert_all db codec tenant empty_tally batch tx') _ x rest in
      let (tx'', third, last) =
        >>=-ok (record_batch_state db codec y.0 tenant node y.1.highest_accepted_sequence) _ x
          rest in
      let (ps, whole, same) = insert_all-outcomes tenant empty_tally batch tx' y second in
      (ps, whole, sym (ap (λ z. z.1) (ok_injective (tx'', y.1) x last)) ∙ same)

  committed-ok :
      (s : State) (t : Tally) (o : Store × Bool) (a : IngestionAcknowledgement)
      → (committed db codec s t o).1 ≡ ok a
      → a ≡ acknowledgement t
  committed-ok s t (store, false) a h = absurd (ground arith)
  committed-ok s t (store, true) a h = ground arith

  recorded-ok :
      (s : State) (r : ApiResult (Transaction × Tally)) (a : IngestionAcknowledgement)
      → (recorded db codec s r).1 ≡ ok a
      → (x : Transaction × Tally) × (r ≡ ok x) × (a ≡ acknowledgement x.1)
  recorded-ok s (err x) a h = absurd (ground arith)
  recorded-ok s (ok (tx, t)) a h = ((tx, t), refl, committed-ok s t (db.commit s.store tx) a h)

  with_permit-1 :
      (key : Tenant × Text) (x : State × ApiResult IngestionAcknowledgement)
      → (with_permit db codec key x).1 ≡ x.1
  with_permit-1 key (s, result) = refl

  admitted-ok :
      (s : State) (tx : Transaction) (key : Tenant × Text) (batch : List TelemetryEnvelope)
      (x : Admission (Tenant × Text) × Bool) (a : IngestionAcknowledgement)
      → (admitted db codec s tx key batch x).1 ≡ ok a
      → Tallies batch a
  unfolding Tallies
  admitted-ok s tx key batch (adm, false) a h = absurd (ground arith)
  admitted-ok s tx key batch (adm, true) a h =
      let s' = record s { admission = adm } in
      let (x, written, same) = recorded-ok s' (write_batch db codec tx key.0 key.1 batch) a (
        sym (with_permit-1 key (recorded db codec s' (write_batch db codec tx key.0 key.1 batch)))
        ∙ h) in
      let (ps, whole, tallied) = write_batch-outcomes tx key.0 key.1 batch x written in
      (ps, whole, same ∙ ap acknowledgement tallied)

  identified-ok :
      (s : State) (tx : Transaction) (batch : List TelemetryEnvelope)
      (o : Option (Option (Tenant × Text))) (a : IngestionAcknowledgement)
      → (identified db codec s tx batch o).1 ≡ ok a
      → Tallies batch a
  identified-ok s tx batch none a h = absurd (ground arith)
  identified-ok s tx batch (some none) a h = absurd (ground arith)
  identified-ok s tx batch (some (some key)) a h = elim (Bool-cases (has_other_node key.1 batch)) [
    | inl other ↦ absurd (ground arith)
    | inr own ↦ admitted-ok s tx key batch (try_acquire s.admission key) a (rw own at h)
  ]

  begun-ok :
      (s : State) (digest : Text) (batch : List TelemetryEnvelope) (o : Option Transaction)
      (a : IngestionAcknowledgement)
      → (begun db codec s digest batch o).1 ≡ ok a
      → Tallies batch a
  begun-ok s digest batch none a h = absurd (ground arith)
  begun-ok s digest batch (some tx) a h = identified-ok s tx batch (db.authenticate tx digest) a h

  with_token-ok :
      (s : State) (batch : List TelemetryEnvelope) (o : Option Text) (a : IngestionAcknowledgement)
      → (with_token db codec s batch o).1 ≡ ok a
      → Tallies batch a
  with_token-ok s batch none a h = absurd (ground arith)
  with_token-ok s batch (some token) a h =
      begun-ok s (codec.token_digest token) batch (db.begin s.store) a h

  validated-ok :
      (s : State) (header : Option Text) (batch : List TelemetryEnvelope) (r : ApiResult (Unit {0}))
      (a : IngestionAcknowledgement)
      → (validated db codec s header batch r).1 ≡ ok a
      → (r ≡ ok tt) × Tallies batch a
  validated-ok s header batch (err x) a h = absurd (ground arith)
  validated-ok s header batch (ok _) a h = (refl, with_token-ok s batch (bearer_token header) a h)

  valid-ne-nil : (batch : List TelemetryEnvelope) → validate_batch batch ≡ ok tt → batch ≢ []
  unfolding validate_batch
  valid-ne-nil [] h = ground arith
  valid-ne-nil (r ∷ rs) h = λ empty. ground arith

  -- Whatever the database holds, and whichever messages conflict: when the collector acknowledges a
  -- batch of distinct messages, the agent that sent it accepts that acknowledgement.
  pub ingest_acknowledges :
      (s : State) (header : Option Text) (batch : List TelemetryEnvelope)
      (a : IngestionAcknowledgement)
      → (ingest db codec s header batch).1 ≡ ok a
      → IsDistinct (ids_of batch)
      → validate_acknowledgement a batch ≡ AppResult.ok tt
  unfolding ingest Tallies
  ingest_acknowledges s header batch a h d =
      let (valid, (ps, whole, same)) =
        validated-ok (count_request s) header batch (validate_batch batch) a h in
      let fair =
        tally_all-Decides ps (rw whole d) (λ empty. valid-ne-nil batch valid (sym whole ∙ empty)) in
      (validate_acknowledgement_iff a batch).1 (rw (same, ← whole) fair)
