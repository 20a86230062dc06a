-- ===== src/Spool/Pending.antt =====
-- What the spool gives back: `append` and `pending` of src/spool.rs together.
use system_pilot.Base.{
  ℕ, zero, suc, ◌≡◌, inl, inr, refl, ap, ◌∙◌, true, false, List, [], ◌∷◌, ◌++◌, Option, none, some,
  Text, take, All, Bool-cases, ltb, ◌==◌, arith,
}
use system_pilot.Distributed.Envelope.{TelemetryEnvelope, validate}
use system_pilot.Error.{AppResult, ok, >>=-ok}
use system_pilot.Spool.Capacity.{check_append-ok}
use system_pilot.Spool.Files.{AreAbove, IsAscending}
use system_pilot.Spool.Sequence.{append-cases}
use system_pilot.Spool.{
  Calls, DiskSpool, SpoolFile, append, encode_json, exists_file, file_at, insert_file, read_record,
}

-- Each of the files stands under its number.
abbrev pub AreFound : List SpoolFile → List SpoolFile → Type 0
AreFound fs records = All (λ (f : SpoolFile). file_at f.sequence records ≡ some f) fs

AreFound-cons :
    (f : SpoolFile) (fs records : List SpoolFile)
    → AreAbove f.sequence fs
    → AreFound fs records
    → AreFound fs (f ∷ records)
unfolding file_at
AreFound-cons f [] records above found = tt
AreFound-cons f (g ∷ fs) records above found =
    (ground arith, AreFound-cons f fs records above.1 found.1)

take-AreAbove : (n k : ℕ) (fs : List SpoolFile) → AreAbove k fs → AreAbove k (take n fs)
take-AreAbove zero k fs above = tt
take-AreAbove (suc n) k [] above = tt
take-AreAbove (suc n) k (f ∷ fs) above = (above.0, take-AreAbove n k fs above.1)

pub take-AreFound : (n : ℕ) (fs : List SpoolFile) → IsAscending fs → AreFound (take n fs) fs
unfolding file_at
take-AreFound zero fs a = tt
take-AreFound (suc n) [] a = tt
take-AreFound (suc n) (f ∷ fs) a = (
  ground arith,
  AreFound-cons f (take n fs) fs (take-AreAbove n f.sequence fs a.0) (take-AreFound n fs a.1),
)

module _ (decode : Text → Option TelemetryEnvelope) where
  abbrev with_record : Option TelemetryEnvelope → List TelemetryEnvelope → List TelemetryEnvelope
  with_record none rs = rs
  with_record (some r) rs = r ∷ rs

  -- The records of the files that decode to a valid one, in the order of the files.
  abbrev pub readable : List SpoolFile → List TelemetryEnvelope
  readable [] = []
  readable (f ∷ fs) = with_record (read_record decode f) (readable fs)

  reading : Option SpoolFile → Option TelemetryEnvelope
  reading none = none
  reading (some f) = read_record decode f

  -- The records that are read come back, and none that can be read leaves the directory.
  abbrev pub Delivers :
      DiskSpool → List SpoolFile → DiskSpool × AppResult (List TelemetryEnvelope) → Type 0
  Delivers s fs (s', result) =
      (result ≡ ok (readable fs)) × (readable s'.records ≡ readable s.records)

-- Every file can be read, and renamed into the quarantine.
pub record AreAvailable (io : Calls) : Type 0 where
  pub lists : io.lists ≡ true
  pub reads : (n : ℕ) → io.reads n ≡ true
  pub renames : (n : ℕ) → io.renames n ≡ true

pub insert_file-split :
    (new : SpoolFile) (fs : List SpoolFile)
    → exists_file new.sequence fs ≡ false
    → (before : List SpoolFile) × (after : List SpoolFile) × (fs ≡ before ++ after)
      × (insert_file new fs ≡ before ++ (new ∷ after))
unfolding insert_file exists_file
insert_file-split new [] unused = ([], [], refl, refl)
insert_file-split new (f ∷ fs) unused = elim (Bool-cases (ltb new.sequence f.sequence)) [
  | inl first ↦ ([], f ∷ fs, refl, rw first refl)
  | inr later ↦
      let other : (new.sequence == f.sequence) ≡ false = ground arith in
      let (before, after, whole, inserted) = insert_file-split new fs (ground arith) in
      (f ∷ before, after, ap (◌∷◌ f) whole, rw (later, other) (ap (◌∷◌ f) inserted))
]

module _ (encode : TelemetryEnvelope → AppResult Text) (decode : Text → Option TelemetryEnvelope)
    (e : TelemetryEnvelope) (decode-encode : (t : Text) → encode e ≡ ok t → decode t ≡ some e) where
  written-read :
      (t : Text) (f : SpoolFile)
      → f.bytes ≡ t
      → encode_json encode e ≡ ok t
      → read_record decode f ≡ some e
  unfolding encode_json read_record
  written-read t f same h =
      let (_, valid, encoded) = >>=-ok (validate e) _ t h in
      rw (same, decode-encode t encoded, valid) refl

  with_record-append :
      (o : Option TelemetryEnvelope) (rs after : List TelemetryEnvelope)
      → with_record decode o (rs ++ after) ≡ with_record decode o rs ++ after
  with_record-append none rs after = refl
  with_record-append (some r) rs after = refl

  readable-append :
      (before after : List SpoolFile)
      → readable decode (before ++ after) ≡ readable decode before ++ readable decode after
  readable-append [] after = refl
  readable-append (f ∷ before) after =
      ap (with_record decode (read_record decode f)) (readable-append before after)
      ∙ with_record-append (read_record decode f) (readable decode before) (readable decode after)

  -- If the decoder reads back what the encoder writes of a record, and the `append` of it succeeds, it
  -- can be delivered from then on: the deliverable records are those from before and this one.
  pub append_deliverable :
      (io : Calls) (s : DiskSpool)
      → (append encode io s e).1 ≡ ok tt
      → (before : List TelemetryEnvelope) × (after : List TelemetryEnvelope) × (readable decode
            s.records
          ≡ before ++ after)
        × (readable decode (append encode io s e).0.records ≡ before ++ (e ∷ after))
  append_deliverable io s h = elim (append-cases encode io s e) [
    | inl (x, failed) ↦ absurd (ground (arith, ap (λ y. y.1) failed))
    | inr (bytes, passed, stored) ↦
        let new : SpoolFile = record { sequence = e.sequence; bytes = bytes; modified = io.now } in
        let (encoded, unused, room) = check_append-ok encode io s e bytes passed in
        let (before, after, whole, inserted) = insert_file-split new s.records unused in
        (
          readable decode before,
          readable decode after,
          ap (readable decode) whole ∙ readable-append before after,
          ap (λ y. readable decode y.0.records) stored
              ∙ (ap (readable decode) inserted
                  ∙ (readable-append before (new ∷ after)
                      ∙ ap
                          (λ o.
                            readable decode before ++ with_record decode o (readable decode after))
                          (written-read bytes new refl encoded))),
        )
  ]
