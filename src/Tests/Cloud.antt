-- ===== src/Tests/Cloud.antt =====
-- The collector of crates/syspilot-cloud/src/lib.rs over a database that keeps message identifiers.
use system_pilot.Base.Map.{insert, lookup, contains_key}
use system_pilot.Base.Strings.{is_blank, starts_with}
use system_pilot.Base.Texts.{text}
use system_pilot.Base.{
  ℕ, ◌≡◌, ◌↔◌, refl, Bool, true, false, ◌&&◌, List, [], ◌∷◌, ◌++◌, Option, none, some, Text, Eq,
  text_beq, text_beq_iff, text_eq, nat_eq, contains, arith, ◌==◌, if◌then◌else◌,
}
use system_pilot.Cloud.Admission.Balance.{Balanced, opened, run-opened-Balanced}
use system_pilot.Cloud.Admission.Permits.{Step, run, step}
use system_pilot.Cloud.Admission.{drop_permit, new, retain, try_acquire}
use system_pilot.Cloud.Api.{ApiError, ok, err}
use system_pilot.Cloud.Circuit as Circuit
use system_pilot.Cloud.Database.{Database}
use system_pilot.Cloud.Ingest.{
  Codec, bearer_token, envelope_digest, insert_envelope, materialize_alert, record_batch_state,
  validate_batch, validate_record, validate_records,
}
use system_pilot.Cloud.Server.Acknowledged.{ingest_acknowledges}
use system_pilot.Cloud.Server.Rollback.{Unchanged, ingest-Unchanged}
use system_pilot.Cloud.Server.{Server, has_other_node, ingest, insert_all, write_batch}
use system_pilot.Cloud.Timestamp.{UnixTimestamp, from_nanos}
use system_pilot.Distributed.Acknowledgement.{IngestionAcknowledgement, validate_acknowledgement}
use system_pilot.Distributed.Envelope.{TelemetryEnvelope, TelemetryKind, validate}
use system_pilot.Json.{Value}
use system_pilot.Error.{AppResult}

-- A node of a tenant.
abbrev node_beq : ℕ × Text → ℕ × Text → Bool
node_beq (a, s) (b, t) = (a == b) && text_beq s t

node_beq_iff : (k j : ℕ × Text) → (node_beq k j ≡ true) ↔ (k ≡ j)
node_beq_iff (a, s) (b, t) = ground (arith, text_beq_iff s t)

instance abbrev node_eq : Eq (ℕ × Text)
node_eq = record { beq = node_beq; beq_iff = node_beq_iff }

-- The database knows one token, and keeps the identifiers of the messages.
abbrev insert_id : List Text → Text → List Text × Bool
insert_id tx id = if contains id tx then (tx, false) else (id ∷ tx, true)

abbrev ids : Database (List Text) (List Text) ℕ
ids = record {
  begin = λ s. some s;
  authenticate = λ tx digest. some (
      if text_beq digest (text "secret-secret-secret-secret-secret")
      then some (1, text "n")
      else none);
  set_tenant = λ tx tenant. some tx;
  insert_message = λ tx tenant r observed envelope digest. some (insert_id tx r.message_id);
  stored_message = λ tx tenant r. some none;
  set_digest = λ tx tenant r digest. some tx;
  queue_job = λ tx tenant r. some tx;
  upsert_alert = λ tx tenant r alert observed. some tx;
  queue_notifications = λ tx tenant alert. some tx;
  touch_node = λ tx tenant node. some tx;
  count_day = λ tx tenant node. some tx;
  raise_sequence = λ tx tenant node n. some tx;
  commit = λ s tx. (tx, true);
}

abbrev plain : Codec
plain = record {
  to_value = λ r. some r.payload;
  to_vec = λ r. some r.message_id;
  sha256 = λ t. t;
  token_digest = λ t. t;
  value_beq = λ v w. true;
  alert_from_value = λ v. none;
}

abbrev server : Server (List Text) (ℕ × Text)
unfolding new
server = record {
  store = [];
  admission = new 4;
  metrics = record {
    requests = 0;
    accepted = 0;
    rejected = 0;
    unauthorized = 0;
    saturated = 0;
    database_errors = 0;
  };
}

abbrev message : Text → ℕ → TelemetryEnvelope
message id sequence = record {
  schema_version = 1;
  message_id = id;
  node_id = text "n";
  sequence = sequence;
  observed_at_unix_nanos = 1_000_000_000_000_000_007;
  kind = TelemetryKind.health;
  payload = Value.bool true;
  attributes = [];
}

abbrev batch : List TelemetryEnvelope
batch = message (text "a") 5 ∷ (message (text "b") 9 ∷ [])

abbrev header : Option Text
header = some (text "Bearer secret-secret-secret-secret-secret")

abbrev both : IngestionAcknowledgement
both = record {
  accepted_message_ids = text "a" ∷ (text "b" ∷ []);
  highest_accepted_sequence = some 9;
  rejected_records = [];
  retry_after_ms = none;
}

answers_both : (ingest ids plain server header batch).1 ≡ ok both
unfolding ingest validate_batch validate_records validate_record validate from_nanos bearer_token
    starts_with try_acquire retain new insert lookup contains_key drop_permit has_other_node
    insert_all insert_envelope envelope_digest materialize_alert record_batch_state write_batch
    is_blank contains
answers_both = refl

ingest_acknowledges_example : validate_acknowledgement both batch ≡ AppResult.ok tt
unfolding contains
ingest_acknowledges_example =
    ingest_acknowledges ids plain server header batch both answers_both (refl, (refl, tt))

-- A database whose commits are carried out and never confirmed.
abbrev unconfirmed : Database (List Text) (List Text) ℕ
unconfirmed = record ids { commit = λ s tx. (tx, false) }

ingest-Unchanged_example :
    Unchanged unconfirmed plain server (ingest unconfirmed plain server header batch)
ingest-Unchanged_example = ingest-Unchanged unconfirmed plain server header batch

refuses_no_token : (ingest ids plain server none batch).1 ≡ err ApiError.unauthorized
unfolding ingest validate_batch validate_records validate_record validate from_nanos bearer_token
    is_blank
refuses_no_token = refl

-- Three requests of one node, of which the last finds no permit, and an end.
abbrev rush : List (Step Text)
rush =
    Step.ask (text "a") ∷ (Step.ask (text "b") ∷ (Step.ask (text "a") ∷ (Step.end (text "a") ∷ [])))

run-opened-Balanced_example : Balanced 4 (run rush (opened 4))
run-opened-Balanced_example = run-opened-Balanced 4 rush

keeps_one_permit : (run rush (opened 4)).permits ≡ text "b" ∷ []
unfolding run step try_acquire new retain insert lookup contains_key drop_permit
keeps_one_permit = refl

-- Two failures, a success, and five failures in a row.
abbrev five_failures : Circuit.DeliveryCircuit
five_failures =
    Circuit.run
      ((Circuit.Use.failed_at 1 ∷ (Circuit.Use.succeeded 2 ∷ []))
        ++ (Circuit.failures_at (3 ∷ (4 ∷ (5 ∷ (6 ∷ [])))) ++ (Circuit.Use.failed_at 7 ∷ [])))
      Circuit.closed

is_open_at_once : (Circuit.is_open 40 five_failures).1 ≡ true
unfolding Circuit.is_open Circuit.run Circuit.use_circuit Circuit.record_outcome
is_open_at_once = refl

abbrev in_2001 : UnixTimestamp
in_2001 = record { seconds = 1_000_000_000; nanoseconds = 7 }
