-- ===== src/Codebase/Storage/Replacement.antt =====
-- What a save and a load of src/codebase.rs leave of the files.
use system_pilot.Base.Map.{
  contains_key, insert, lookup, remove, lookup-insert_self, lookup-insert_other,
  lookup-remove_other,
}
use mathlib.Core.List.{append-nil}
use system_pilot.Base.{
  ℕ, ◌≡◌, ◌≢◌, ◌⊎◌, inl, inr, refl, sym, ap, ◌∙◌, Bool, true, List, [], Option, none, some, Text,
  text_eq, Bool-cases, not, ◌||◌, arith, take,
}
use system_pilot.Codebase.Binary.RoundTrip.{IsStorable, decode_binary-encode_binary}
use system_pilot.Codebase.Binary.{VectorDb, decode_binary, encode_binary}
use system_pilot.Codebase.Binary.Reading.{ok}
use system_pilot.Codebase.Storage.{
  Files, LoadCalls, SaveCalls, VectorIndexLoad, found, load_outcome, renamed, save_to_binary,
  written,
}

-- What stands under a path after a save: the old bytes or the whole index, and the index if it succeeds.
pub record Replaces (old new : Option (List ℕ)) (bytes : List ℕ) (succeeds : Bool) : Type 0 where
  pub whole : (new ≡ old) ⊎ (new ≡ some bytes)
  pub success : succeeds ≡ true → new ≡ some bytes

module _ (path : Text) (bytes : List ℕ) (calls : SaveCalls) (apart : calls.temporary ≢ path) where
  open calls use {temporary}

  renamed-Replaces :
      (old : Option (List ℕ)) (fs : Files)
      → lookup path fs ≡ old
      → lookup temporary fs ≡ some bytes
      → Replaces old (lookup path (renamed path calls fs).0) bytes (renamed path calls fs).1
  renamed-Replaces old fs same there = elim (Bool-cases calls.is_renamed) [
    | inl done ↦
        let new = lookup-insert_self path bytes (remove temporary fs) in
        simp (done, there) (record { whole = inr new; success = λ h. new })
    | inr kept ↦ simp kept (record { whole = inl same; success = λ h. ground arith })
  ]

  written-Replaces :
      (o : Option ℕ) (fs : Files)
      → Replaces
          (lookup path fs)
          (lookup path (written path bytes calls o fs).0)
          bytes
          (written path bytes calls o fs).1
  written-Replaces none fs =
      renamed-Replaces (lookup path fs) (insert temporary bytes fs)
        (lookup-insert_other temporary path bytes fs apart) (lookup-insert_self temporary bytes fs)
  written-Replaces (some n) fs =
      let left = lookup-insert_other temporary path (take n bytes) fs apart in
      elim (Bool-cases calls.is_cleaned) [
        | inl cleaned ↦ simp cleaned (record {
          whole = inl (
              lookup-remove_other temporary path (insert temporary (take n bytes) fs) apart ∙ left);
          success = λ h. ground arith;
        })
        | inr kept ↦ simp kept (record { whole = inl left; success = λ h. ground arith })
      ]

-- However a save ends, and wherever its writes stop: under the path stands what stood there before, or the
-- whole new index, and the latter if the save succeeds. The temporary file has another path.
pub save_to_binary-Replaces :
    (db : VectorDb) (path : Text) (calls : SaveCalls) (fs : Files)
    → calls.temporary ≢ path
    → Replaces
        (lookup path fs)
        (lookup path (save_to_binary db path calls fs).0)
        (encode_binary db)
        (save_to_binary db path calls fs).1
unfolding save_to_binary
save_to_binary-Replaces db path calls fs apart =
    elim (Bool-cases (contains_key calls.temporary fs || not calls.is_created)) [
      | inl refused ↦ simp refused (record { whole = inl refl; success = λ h. ground arith })
      | inr created ↦
          simp created (written-Replaces path (encode_binary db) calls apart calls.failed_after fs)
    ]

module _ (from_utf8_lossy : List ℕ → List ℕ) where
  found_index :
      (path : Text) (calls : LoadCalls) (db : VectorDb) (fs : Files)
      → calls.is_readable ≡ true
      → IsStorable from_utf8_lossy db
      → found from_utf8_lossy path calls (some (encode_binary db)) fs
        ≡ (fs, VectorIndexLoad.loaded db)
  found_index path calls db fs readable h =
      let back : decode_binary from_utf8_lossy (encode_binary db) ≡ ok db =
        ap (decode_binary from_utf8_lossy) (sym (append-nil (encode_binary db)))
        ∙ decode_binary-encode_binary from_utf8_lossy db [] h in
      simp (readable, back) refl

  -- After a save that succeeds of an index within the reader's limits, a load of a readable file gives
  -- that index, and moves nothing.
  pub load_outcome-save_to_binary :
      (db : VectorDb) (path : Text) (calls : SaveCalls) (loading : LoadCalls) (fs : Files)
      → calls.temporary ≢ path
      → IsStorable from_utf8_lossy db
      → loading.is_readable ≡ true
      → (save_to_binary db path calls fs).1 ≡ true
      → load_outcome from_utf8_lossy path loading (save_to_binary db path calls fs).0
        ≡ ((save_to_binary db path calls fs).0, VectorIndexLoad.loaded db)
  unfolding load_outcome
  load_outcome-save_to_binary db path calls loading fs apart h readable saved =
      let after = (save_to_binary db path calls fs).0 in
      ap (λ o. found from_utf8_lossy path loading o after)
        ((save_to_binary-Replaces db path calls fs apart).success saved)
      ∙ found_index path loading db after readable h
