-- ===== src/Tests/Credentials.antt =====
-- A secret that is stored and read back, and one whose file cannot be moved.
use system_pilot.Base.Map.{lookup, insert, remove, contains_key}
use system_pilot.Base.Strings.{contains_str, is_blank, is_whitespace, starts_with, trim_end_matches}
use system_pilot.Base.Texts.{text}
use system_pilot.Base.{◌≡◌, refl, true, false, [], ◌∷◌, ◌++◌, none, some, Text, text_eq, contains}
use system_pilot.Credentials.Leftover.{AreRefused, failed_move_blocks}
use system_pilot.Credentials.Storing.{resolve-store_owner_secret}
use system_pilot.Credentials.{
  file, Host, resolve, store_owner_secret, temporary_secret, validate_name,
}
use system_pilot.Disk.{utf8, WriteCalls, owned, join, replace_file}
use system_pilot.Error.{AppError, ok, err}

abbrev fine : WriteCalls
fine = record {
  is_secured = true;
  is_created = true;
  failed = none;
  is_cleaned = true;
  is_renamed = true;
  is_protected = true;
  is_synced = true;
}

abbrev host : Host
host = record {
  variable = λ name. none;
  credentials_directory = none;
  is_stat = λ path. true;
  is_read = λ path. true;
}

-- A value with a newline at its end.
abbrev token : Text
token = text "tok" ++ (10 ∷ [])

stored :
    (store_owner_secret (text "7") (text "d") (text "n") token fine []).1
    ≡ ok (file (join (text "d") (text "n")))
unfolding store_owner_secret validate_name contains contains_str starts_with is_blank is_whitespace
    replace_file contains_key insert remove lookup
stored = refl

resolve-store_owner_secret_example :
    (resolve host
      (file (join (text "d") (text "n")))
      (store_owner_secret (text "7") (text "d") (text "n") token fine []).0).1
    ≡ ok (some (text "tok"))
unfolding trim_end_matches
resolve-store_owner_secret_example =
    resolve-store_owner_secret (text "7") (text "d") (text "n") token fine host []
      (file (join (text "d") (text "n"))) refl refl stored

abbrev unmoved : WriteCalls
unmoved = record {
  is_secured = true;
  is_created = true;
  failed = none;
  is_cleaned = true;
  is_renamed = false;
  is_protected = true;
  is_synced = true;
}

failed_move_blocks_example :
    (store_owner_secret (text "7") (text "d") (text "n") token unmoved [] ≡ (
      insert (temporary_secret (text "7") (text "d") (text "n")) (owned (utf8 token)) [],
      err AppError.io,
    ))
    × AreRefused
        (text "7")
        (text "d")
        (text "n")
        ((token, fine) ∷ (text "u", fine) ∷ [])
        (store_owner_secret (text "7") (text "d") (text "n") token unmoved []).0
unfolding validate_name contains contains_str starts_with is_blank is_whitespace contains_key
failed_move_blocks_example =
    failed_move_blocks (text "7") (text "d") (text "n") token unmoved []
      ((token, fine) ∷ (text "u", fine) ∷ []) refl refl refl refl refl refl refl
