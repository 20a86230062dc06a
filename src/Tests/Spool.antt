-- ===== src/Tests/Spool.antt =====
-- A small spool, for src/spool.rs.
use system_pilot.Base.Strings.{is_blank}
use system_pilot.Base.Texts.{text}
use system_pilot.Base.{
  ℕ, ◌≤◌, ◌≡◌, ◌⊎◌, refl, true, [], ◌∷◌, ◌++◌, List, Option, none, some, Text, text_beq,
  if◌then◌else◌, arith,
}
use system_pilot.Distributed.Envelope.{TelemetryKind, TelemetryEnvelope, validate}
use system_pilot.Json.{bool}
use system_pilot.Error.{AppError, AppResult, ok, err}
use system_pilot.Spool.Capacity.{append_within_limit}
use system_pilot.Spool.Files.{total_bytes}
use system_pilot.Spool.Pending.{append_deliverable, readable}
use system_pilot.Spool.Sequence.{IsOrderly, IsNext, next_sequence-IsOrderly}
use system_pilot.Spool.{
  Calls, DiskSpool, SequenceFile, append, check_append, count_files, encode_json, exists_file,
  insert_file, next_sequence, pending, read_files, read_record, remove_file, stats_unlocked,
  file_at, insert_file,
}

abbrev fine : Calls
fine = record {
  now = some 100;
  prepares = true;
  lists = true;
  writes = true;
  inspects = λ _. true;
  reads = λ _. true;
  renames = λ _. true;
  removes = λ _. true;
}

abbrev hello : TelemetryEnvelope
hello = record {
  schema_version = 1;
  message_id = text "m";
  node_id = text "n";
  sequence = 6;
  observed_at_unix_nanos = 9;
  kind = TelemetryKind.health;
  payload = bool true;
  attributes = [];
}

-- An encoder and a decoder of one message.
abbrev one_message : TelemetryEnvelope → AppResult Text
one_message e = ok (text "hi")

abbrev one_decoder : Text → Option TelemetryEnvelope
one_decoder t = if text_beq t (text "hi") then some hello else none

abbrev small : DiskSpool
small = record {
  disk = record {
    sequence_file = SequenceFile.holds 5;
    records =
        record { sequence = 3; bytes = text "??"; modified = some 90 }
        ∷ (record { sequence = 4; bytes = text "hi"; modified = some 95 } ∷ []);
    quarantine = [];
  };
  max_bytes = 10;
  max_age_secs = 50;
}

small-IsOrderly : IsOrderly small
small-IsOrderly = record {
  last = 5;
  current_last = refl;
  below = (omega arith, (omega arith, tt));
  ascending = ((omega arith, tt), (tt, tt));
}

-- The corrupt record goes to the quarantine, and the other comes back.
quarantines :
    let (s', result) = pending one_decoder fine small 10 in
    (result ≡ ok (hello ∷ []))
    × (s'.quarantine ≡ record { sequence = 3; bytes = text "??"; modified = some 90 } ∷ [])
unfolding pending read_files read_record remove_file file_at insert_file validate is_blank
quarantines = (refl, refl)

next_sequence-IsOrderly_example :
    let (s', result) = next_sequence fine small in
    IsOrderly s'
    × (((e : AppError) × (result ≡ err e) × (s' ≡ small))
        ⊎ ((n : ℕ) × (result ≡ ok n) × IsNext small s' n))
next_sequence-IsOrderly_example = next_sequence-IsOrderly fine small small-IsOrderly

counted : stats_unlocked fine small ≡ ok (record { records = 2; bytes = 4; quarantined = 0 })
unfolding stats_unlocked count_files
counted = refl

append_within_limit_example : total_bytes (append one_message fine small hello).0.records ≤ 10
append_within_limit_example =
    append_within_limit one_message fine small hello (omega arith) (omega arith)

appends_hello : (append one_message fine small hello).1 ≡ ok tt
unfolding append check_append encode_json stats_unlocked count_files exists_file insert_file
    validate is_blank
appends_hello = refl

append_deliverable_example :
    (before : List TelemetryEnvelope) × (after : List TelemetryEnvelope) × (readable one_decoder
        small.records
      ≡ before ++ after)
    × (readable one_decoder (append one_message fine small hello).0.records
        ≡ before ++ (hello ∷ after))
append_deliverable_example =
    append_deliverable one_message one_decoder hello (λ t h. ground arith) fine small appends_hello
