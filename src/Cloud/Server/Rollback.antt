-- ===== src/Cloud/Server/Rollback.antt =====
-- What a failed request of crates/syspilot-cloud/src/lib.rs leaves behind.
use system_pilot.Base.{
  ◌≡◌, ◌⊎◌, refl, Bool, true, false, List, Option, none, some, Text, Eq, Bool-cases, inl, inr,
}
use system_pilot.Cloud.Admission.{Admission, try_acquire}
use system_pilot.Cloud.Api.{ApiError, ApiResult, ok, err}
use system_pilot.Cloud.Database.{Database}
use system_pilot.Cloud.Ingest.{Codec, bearer_token, validate_batch}
use system_pilot.Cloud.Server.{
  Server, Tally, admitted, begun, committed, count_request, has_other_node, identified, ingest,
  recorded, validated, with_permit, with_token, write_batch,
}
use system_pilot.Distributed.Acknowledgement.{IngestionAcknowledgement}
use system_pilot.Distributed.Envelope.{TelemetryEnvelope}

module _ {Store Transaction Tenant : Type 0} ⦃e : Eq (Tenant × Text)⦄
    (db : Database Store Transaction Tenant) (codec : Codec) where
  abbrev State : Type 0
  State = Server Store (Tenant × Text)

  -- The database is as before, or the answer is its error, a commit was not confirmed and the store is what it left.
  abbrev pub IsUncommitted : ApiError → Store → Store → Type 0
  IsUncommitted x store store' =
      (store' ≡ store)
      ⊎ ((x ≡ ApiError.database) × ((tx : Transaction) × (db.commit store tx ≡ (store', false))))

  -- An answer that is an error counts no records, and comes with nothing that is known to be committed.
  abbrev pub Unchanged : State → State × ApiResult IngestionAcknowledgement → Type 0
  Unchanged s (s', ok a) = Unit
  Unchanged s (s', err x) =
      IsUncommitted x s.store s'.store
      × (s'.metrics.accepted ≡ s.metrics.accepted)
      × (s'.metrics.rejected ≡ s.metrics.rejected)

  committed-Unchanged :
      (s : State) (t : Tally) (tx : Transaction) (o : Store × Bool)
      → db.commit s.store tx ≡ o
      → Unchanged s (committed db codec s t o)
  committed-Unchanged s t tx (store, false) h = (inr (refl, (tx, h)), refl, refl)
  committed-Unchanged s t tx (store, true) h = tt

  recorded-Unchanged :
      (s : State) (r : ApiResult (Transaction × Tally)) → Unchanged s (recorded db codec s r)
  recorded-Unchanged s (err x) = (inl refl, refl, refl)
  recorded-Unchanged s (ok (tx, t)) = committed-Unchanged s t tx (db.commit s.store tx) refl

  with_permit-Unchanged :
      (key : Tenant × Text) (s : State) (x : State × ApiResult IngestionAcknowledgement)
      → Unchanged s x
      → Unchanged s (with_permit db codec key x)
  with_permit-Unchanged key s (s', ok a) u = tt
  with_permit-Unchanged key s (s', err x) u = u

  admitted-Unchanged :
      (s : State) (tx : Transaction) (key : Tenant × Text) (batch : List TelemetryEnvelope)
      (x : Admission (Tenant × Text) × Bool)
      → Unchanged s (admitted db codec s tx key batch x)
  admitted-Unchanged s tx key batch (adm, false) = (inl refl, refl, refl)
  admitted-Unchanged s tx key batch (adm, true) =
      let s' = record s { admission = adm } in
      with_permit-Unchanged key s (recorded db codec s' (write_batch db codec tx key.0 key.1 batch))
        (recorded-Unchanged s' (write_batch db codec tx key.0 key.1 batch))

  identified-Unchanged :
      (s : State) (tx : Transaction) (batch : List TelemetryEnvelope)
      (o : Option (Option (Tenant × Text)))
      → Unchanged s (identified db codec s tx batch o)
  identified-Unchanged s tx batch none = (inl refl, refl, refl)
  identified-Unchanged s tx batch (some none) = (inl refl, refl, refl)
  identified-Unchanged s tx batch (some (some key)) =
      elim (Bool-cases (has_other_node key.1 batch)) [
        | inl other ↦ rw other (inl refl, refl, refl)
        | inr own ↦ rw own (admitted-Unchanged s tx key batch (try_acquire s.admission key))
      ]

  begun-Unchanged :
      (s : State) (digest : Text) (batch : List TelemetryEnvelope) (o : Option Transaction)
      → Unchanged s (begun db codec s digest batch o)
  begun-Unchanged s digest batch none = (inl refl, refl, refl)
  begun-Unchanged s digest batch (some tx) =
      identified-Unchanged s tx batch (db.authenticate tx digest)

  with_token-Unchanged :
      (s : State) (batch : List TelemetryEnvelope) (o : Option Text)
      → Unchanged s (with_token db codec s batch o)
  with_token-Unchanged s batch none = (inl refl, refl, refl)
  with_token-Unchanged s batch (some token) =
      begun-Unchanged s (codec.token_digest token) batch (db.begin s.store)

  validated-Unchanged :
      (s : State) (header : Option Text) (batch : List TelemetryEnvelope) (r : ApiResult (Unit {0}))
      → Unchanged s (validated db codec s header batch r)
  validated-Unchanged s header batch (err x) = (inl refl, refl, refl)
  validated-Unchanged s header batch (ok _) = with_token-Unchanged s batch (bearer_token header)

  -- A request that is answered by an error counts neither accepted nor rejected records, and the database
  -- holds what it held before: unless the answer is the database's error and the store is what an
  -- unconfirmed commit has left of it.
  pub ingest-Unchanged :
      (s : State) (header : Option Text) (batch : List TelemetryEnvelope)
      → Unchanged s (ingest db codec s header batch)
  unfolding ingest
  ingest-Unchanged s header batch =
      validated-Unchanged (count_request s) header batch (validate_batch batch)
