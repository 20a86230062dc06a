-- ===== src/Tests/Evidence.antt =====
-- A capture, and a case that is saved, kept and loaded.
use system_pilot.Base.Map.{lookup, insert, remove, contains_key}
use system_pilot.Base.Sorting.{sort, insert_before}
use system_pilot.Base.Strings.{is_blank, is_whitespace, rsplit_once, split_at}
use system_pilot.Base.Texts.{text, all_of}
use system_pilot.Base.{
  ℕ, ◌≡◌, ◌⊎◌, refl, true, List, [], ◌∷◌, ◌++◌, Option, none, some, Text, text_eq, text_beq, subst,
  if◌then◌else◌, arith,
}
use system_pilot.Disk.{Content, utf8, Files, owned}
use system_pilot.Error.{ok}
use system_pilot.Evidence.Capture.{Host, bundle_of, bundled, capture, find_target, found_process}
use system_pilot.Evidence.Retention.{cutoff_of, enforce_retention-fitting, fitting, without}
use system_pilot.Evidence.Saved.{Displaced, load-save}
use system_pilot.Evidence.Store.{
  CaseStore, CaseSummary, ListCalls, RetentionCalls, SaveCalls, enforce_retention, is_older,
  list_cases, load, remove_expired, save, summaries, summary, summary_of,
}
use system_pilot.Evidence.Directory.{
  PrepareCalls, has_extension, path, prepare, read_case, remove_file, remove_interrupted,
}
use system_pilot.Evidence.{EvidenceBundleV1, supported, degraded, validate}
use system_pilot.Json.{null}

abbrev host : Host
host = record {
  started = 10;
  ended = 17;
  kernel = record {
    btf = supported;
    process_exit = supported;
    signal_origin = supported;
    signal_delivery = degraded;
    oom_victim = supported;
  };
  system = null;
  find_pid_by_name = λ name. 42;
  collect_process_telemetry =
      λ pid. record { name = text "db"; ppid = 1; state = text "D"; majflt = 3; json = null };
  id = 7;
  counter = 0;
  hostname = some (text "n");
  kernel_release = none;
  architecture = text "x86_64";
}

-- What the capture finds.
abbrev bundle : EvidenceBundleV1
unfolding bundle_of found_process
bundle = bundle_of host (found_process 42 (host.collect_process_telemetry 42))

captured : capture host (some (text "db")) ≡ ok bundle
unfolding bundle bundle_of found_process capture bundled find_target
captured = refl

abbrev case_of : Text → ℕ → EvidenceBundleV1
case_of id time = record {
  schema_version = 1;
  bundle_version = text "EvidenceBundleV1";
  case_id = id;
  time_range = record { started_at_unix_nanos = time; ended_at_unix_nanos = time };
  node = record { hostname = []; kernel_release = []; architecture = [] };
  capabilities = [];
  observations = [];
  findings = [];
  missing_evidence = [];
  relationships = [];
  alert_references = [];
  fields_removed = [];
  ai_analysis = none;
}

-- Two cases are coded by their names.
abbrev encode : EvidenceBundleV1 → Option Text
encode b = some b.case_id

abbrev decode : Text → Option EvidenceBundleV1
decode t =
    if text_beq t (text "a")
    then some (case_of (text "a") 11)
    else if text_beq t (text "b")
    then some (case_of (text "b") 17)
    else none

abbrev size : Content → ℕ
size c = 5

abbrev prepared : PrepareCalls
prepared = record { is_secured = true; is_listed = true; is_removed = λ name. true }

abbrev listed : ListCalls
listed = record {
  prepare = prepared;
  is_listed = true;
  is_read = λ name. true;
  is_stat = λ name. true;
}

abbrev retained : RetentionCalls
retained = record { now = 20; list = listed; is_removed = λ name. true }

abbrev saved : SaveCalls
saved = record {
  prepare = prepared;
  is_created = true;
  failed = none;
  is_renamed = true;
  retention = retained;
}

abbrev store : CaseStore
store = record { retention_days = 30; retention_bytes = 5 }

save_b : (save encode decode size store (case_of (text "b") 17) saved []).1 ≡ ok tt
unfolding save enforce_retention list_cases prepare remove_interrupted remove_file summaries summary
    summary_of read_case path validate has_extension remove_expired rsplit_once split_at all_of
    is_blank is_whitespace sort insert_before lookup insert remove contains_key
save_b = refl

decode-encode_b :
    (t : Text) → encode (case_of (text "b") 17) ≡ some t → decode t ≡ some (case_of (text "b") 17)
decode-encode_b t h =
    let same : text "b" ≡ t = ground arith in
    subst (λ (t : Text). decode t ≡ some (case_of (text "b") 17)) same refl

load-save_example :
    ((load encode decode size
        (text "b")
        true
        (save encode decode size store (case_of (text "b") 17) saved []).0).1
      ≡ ok (case_of (text "b") 17))
    ⊎ ((gs : Files) × Displaced encode decode size store
          (case_of (text "b") 17)
          saved.retention
          gs
          (save encode decode size store (case_of (text "b") 17) saved []).0)
load-save_example =
    load-save encode decode size store (case_of (text "b") 17) saved [] decode-encode_b save_b

-- Two cases in a store that has room for one.
abbrev two_files : Files
two_files =
    (text "b.json", owned (utf8 (text "b")))
    ∷ ((text "a.json", owned (utf8 (text "a"))) ∷ ((text "c.tmp", owned (utf8 (text "c"))) ∷ []))

retain_two : (enforce_retention encode decode size store retained two_files).1 ≡ ok tt
unfolding enforce_retention list_cases prepare remove_interrupted remove_file summaries summary
    summary_of read_case path validate has_extension remove_expired rsplit_once split_at all_of
    is_blank is_whitespace sort insert_before lookup insert remove contains_key
retain_two = refl

enforce_retention-fitting_example :
    (cases : List CaseSummary) × (old : List CaseSummary) × ((list_cases encode decode size
        retained.list two_files).1
      ≡ ok cases)
    × (sort is_older cases ≡ old ++ fitting (cutoff_of store retained) 5 (sort is_older cases))
    × ((enforce_retention encode decode size store retained two_files).0
        ≡ without old (list_cases encode decode size retained.list two_files).0)
enforce_retention-fitting_example =
    enforce_retention-fitting encode decode size store retained two_files retain_two

-- The older one has gone.
retained_files :
    (enforce_retention encode decode size store retained two_files).0
    ≡ (text "b.json", owned (utf8 (text "b"))) ∷ []
unfolding enforce_retention list_cases prepare remove_interrupted remove_file summaries summary
    summary_of read_case path validate has_extension remove_expired rsplit_once split_at all_of
    is_blank is_whitespace sort insert_before lookup insert remove contains_key
retained_files = refl
