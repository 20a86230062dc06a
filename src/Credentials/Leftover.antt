-- ===== src/Credentials/Leftover.antt =====
-- What src/credentials.rs leaves behind where a written secret cannot be moved into place.
use system_pilot.Base.Map.{lookup-insert_self, contains_key, contains_key-some, insert}
use system_pilot.Base.{
  ◌≡◌, inl, inr, refl, true, false, ◌||◌, none, Text, text_eq, text_beq, contains, nat_eq, List, [],
  ◌∷◌, Bool-cases, arith,
}
use system_pilot.Base.Strings.{is_blank, contains_str}
use system_pilot.Base.Texts.{text}
use system_pilot.Credentials.Storing.{store_cases, written}
use system_pilot.Credentials.{store_owner_secret, temporary_secret, validate_name}
use system_pilot.Disk.{utf8, Files, WriteCalls, owned, replace_file, ◌>>◌, ◌>>=◌}
use system_pilot.Error.{AppError, ok, err}

module _ (pid directory name : Text) where
  -- Each of the stores, one after the other, fails and changes no file.
  abbrev pub AreRefused : List (Text × WriteCalls) → Files → Type 0
  AreRefused [] fs = Unit
  AreRefused ((value, calls) ∷ later) fs =
      ((e : AppError) × (store_owner_secret pid directory name value calls fs ≡ (fs, err e)))
      × AreRefused later (store_owner_secret pid directory name value calls fs).0

  store-leftover :
      (value : Text) (calls : WriteCalls) (fs : Files)
      → contains_key (temporary_secret pid directory name) fs ≡ true
      → (e : AppError) × (store_owner_secret pid directory name value calls fs ≡ (fs, err e))
  unfolding written replace_file
  store-leftover value calls fs there = elim (store_cases pid directory name value calls fs) [
    | inl refused ↦ refused
    | inr (filled, h) ↦ (AppError.io, rw (h, ◌>>◌, ◌>>=◌, there) refl)
  ]

  -- A temporary file that is there lets no store pass.
  leftover-AreRefused :
      (later : List (Text × WriteCalls)) (fs : Files)
      → contains_key (temporary_secret pid directory name) fs ≡ true
      → AreRefused later fs
  leftover-AreRefused [] fs there = tt
  leftover-AreRefused ((value, calls) ∷ later) fs there =
      let refused = store-leftover value calls fs there in
      (refused, rw refused.1 (leftover-AreRefused later fs there))

  left_behind :
      (value : Text) (calls : WriteCalls) (fs : Files)
      → contains_key (temporary_secret pid directory name) fs ≡ false
      → (validate_name name fs).1 ≡ ok tt
      → is_blank value ≡ false
      → calls.is_secured ≡ true
      → calls.is_created ≡ true
      → calls.failed ≡ none
      → calls.is_renamed ≡ false
      → store_owner_secret pid directory name value calls fs
        ≡ (insert (temporary_secret pid directory name) (owned (utf8 value)) fs, err AppError.io)
  unfolding store_owner_secret validate_name replace_file
  left_behind value calls fs absent valid filled s c f m =
      elim (Bool-cases
        (text_beq name [] || (contains b'/' name || contains_str (text "..") name))) [
          | inl h ↦ absurd (let p = rw h at valid in ground arith)
          | inr h ↦ simp (h, absent, filled, s, c, f, m) refl
        ]

  -- Where a store's file is written and cannot be moved, the store fails and its temporary file stays, and
  -- every store of that name by the same process that follows fails and changes no file, however many
  -- there are and whatever their values and calls.
  pub failed_move_blocks :
      (value : Text) (calls : WriteCalls) (fs : Files) (later : List (Text × WriteCalls))
      → contains_key (temporary_secret pid directory name) fs ≡ false
      → (validate_name name fs).1 ≡ ok tt
      → is_blank value ≡ false
      → calls.is_secured ≡ true
      → calls.is_created ≡ true
      → calls.failed ≡ none
      → calls.is_renamed ≡ false
      → (store_owner_secret pid directory name value calls fs
          ≡ (insert (temporary_secret pid directory name) (owned (utf8 value)) fs, err AppError.io))
        × AreRefused later (store_owner_secret pid directory name value calls fs).0
  failed_move_blocks value calls fs later absent valid filled s c f m =
      let temporary = temporary_secret pid directory name in
      let left = left_behind value calls fs absent valid filled s c f m in
      (
        left,
        rw left (
            leftover-AreRefused later (insert temporary (owned (utf8 value)) fs) (
              contains_key-some temporary (insert temporary (owned (utf8 value)) fs)
                (owned (utf8 value)) (lookup-insert_self temporary (owned (utf8 value)) fs))),
      )
