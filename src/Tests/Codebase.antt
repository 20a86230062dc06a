-- ===== src/Tests/Codebase.antt =====
-- A vector index of src/codebase.rs that is saved and loaded.
use system_pilot.Base.Map.{contains_key, insert, lookup, remove}
use system_pilot.Base.Texts.{text}
use system_pilot.Base.{
  ℕ, ◌≡◌, ◌≢◌, refl, true, List, [], ◌∷◌, ◌++◌, none, some, text_eq, text_beq_iff, arith,
}
use system_pilot.Codebase.Binary.Reading.{DecodeError, ok, err, read_exact}
use system_pilot.Codebase.Binary.RoundTrip.{IsStorable, decode_binary-encode_binary}
use system_pilot.Codebase.Binary.{VectorDb, decode_binary, encode_binary, read_index}
use system_pilot.Codebase.Storage.Replacement.{Replaces, save_to_binary-Replaces}
use system_pilot.Codebase.Storage.{
  Files, LoadCalls, SaveCalls, VectorIndexLoad, load_outcome, save_to_binary,
}

-- A reader of ASCII strings.
abbrev ascii : List ℕ → List ℕ
ascii s = s

abbrev index : VectorDb
index = record {
  workspace_path = text "/w";
  embedding_source = text "local";
  files = record { file_path = text "a.rs"; last_modified = 1_700_000_000; size = 12 } ∷ [];
  chunks =
      record {
        file_path = text "a.rs";
        content = text "fn a() {}";
        start_line = 1;
        end_line = 9;
        embedding = 0x3f80_0000 ∷ (0 ∷ []);
      }
      ∷ [];
}

index-IsStorable : IsStorable ascii index
index-IsStorable = record {
  workspace = record { short = omega arith; utf8 = refl };
  source = record { short = omega arith; utf8 = refl };
  few_files = omega arith;
  few_chunks = omega arith;
  files = (
    record {
      path = record { short = omega arith; utf8 = refl };
      modified = omega arith;
      size = omega arith;
    },
    tt,
  );
  chunks = (
    record {
      path = record { short = omega arith; utf8 = refl };
      content = record { short = omega arith; utf8 = refl };
      start = omega arith;
      end = omega arith;
      dimension = omega arith;
      floats = omega arith;
    },
    tt,
  );
}

decode_binary-encode_binary_example :
    decode_binary ascii (encode_binary index ++ (7 ∷ [])) ≡ ok index
decode_binary-encode_binary_example =
    decode_binary-encode_binary ascii index (7 ∷ []) index-IsStorable

refuses_another_format :
    decode_binary ascii (text "SYSPILOT_VDB_2 and more") ≡ err DecodeError.invalid_data
unfolding decode_binary read_index read_exact
refuses_another_format = refl

refuses_an_empty_file : decode_binary ascii [] ≡ err DecodeError.unexpected_eof
unfolding decode_binary read_index read_exact
refuses_an_empty_file = refl

abbrev saving : SaveCalls
saving = record {
  temporary = text ".tmp";
  is_created = true;
  failed_after = none;
  is_cleaned = true;
  is_renamed = true;
  is_protected = true;
  is_synced = true;
}

abbrev loading : LoadCalls
loading = record { quarantine = text "db.corrupt"; is_readable = true; is_renamed = true }

abbrev old_files : Files
old_files = (text "db", text "old") ∷ []

apart : text ".tmp" ≢ text "db"
apart e = absurd (ground (arith, text_beq_iff (text ".tmp") (text "db")))

saves : (save_to_binary index (text "db") saving old_files).1 ≡ true
unfolding save_to_binary contains_key lookup insert
saves = refl

save_to_binary-Replaces_example :
    Replaces
      (lookup (text "db") old_files)
      (lookup (text "db") (save_to_binary index (text "db") saving old_files).0)
      (encode_binary index)
      (save_to_binary index (text "db") saving old_files).1
save_to_binary-Replaces_example = save_to_binary-Replaces index (text "db") saving old_files apart

-- The old file is no index: it goes to the quarantine.
quarantines :
    load_outcome ascii (text "db") loading old_files
    ≡ ((text "db.corrupt", text "old") ∷ [], VectorIndexLoad.corrupt (some (text "db.corrupt")))
unfolding load_outcome lookup insert remove decode_binary read_index read_exact
quarantines = refl
