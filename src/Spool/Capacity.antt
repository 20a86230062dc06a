-- ===== src/Spool/Capacity.antt =====
-- The byte limit of the spool.
use system_pilot.Base.{
  ℕ, ◌+◌, ◌-◌, ◌^◌, ◌≤◌, ◌<◌, ◌≡◌, inl, inr, ap, subst, ◌∙◌, Bool, false, List, [], ◌∷◌, Option,
  none, some, Text, length, ltb, if◌then◌else◌, arith,
}
use system_pilot.Distributed.Envelope.{TelemetryEnvelope}
use system_pilot.Error.{AppError, AppResult, ok, err, >>=-ok}
use system_pilot.Spool.Files.{total_bytes, total_bytes-insert_file}
use system_pilot.Spool.Sequence.{append-cases}
use system_pilot.Spool.{
  Calls, DiskSpool, SpoolFile, SpoolStats, append, check_append, count_at, count_files, encode_json,
  saturating_add, stats_unlocked, exists_file, insert_file,
}

-- What `stats_unlocked` counts is the number of the files and, up to `u64::MAX`, their size.
pub count_files-totals :
    (inspects : ℕ → Bool) (now max_age : ℕ) (fs : List SpoolFile) (start stats : SpoolStats)
    → count_files inspects now max_age fs start ≡ ok stats
    → start.bytes < 2 ^ 64
    → (stats.records ≡ start.records + length fs)
      × (stats.bytes ≡ saturating_add start.bytes (total_bytes fs))
      × (stats.quarantined ≡ start.quarantined)
unfolding count_files
count_files-totals inspects now max_age [] start stats h b = ground arith
count_files-totals inspects now max_age (f ∷ fs) start stats h b = ground (
  arith,
  count_files-totals inspects now max_age fs
      (record start {
        records = start.records + 1;
        bytes = saturating_add start.bytes (length f.bytes);
      })
      stats,
)

count_at-totals :
    (io : Calls) (s : DiskSpool) (now : Option ℕ) (stats : SpoolStats)
    → count_at io s now ≡ ok stats
    → (stats.records ≡ length s.records)
      × (stats.bytes ≡ saturating_add 0 (total_bytes s.records))
      × (stats.quarantined ≡ length s.quarantine)
count_at-totals io s none stats h = ground arith
count_at-totals io s (some now) stats h = ground (
  arith,
  count_files-totals io.inspects now s.max_age_secs s.records
      (record { records = 0; bytes = 0; quarantined = length s.quarantine }) stats,
)

-- Whenever the statistics are available, they give the number of the records, that of the quarantined
-- files and, up to `u64::MAX`, the size of the records.
pub stats_totals :
    (io : Calls) (s : DiskSpool) (stats : SpoolStats)
    → stats_unlocked io s ≡ ok stats
    → (stats.records ≡ length s.records)
      × (stats.bytes ≡ saturating_add 0 (total_bytes s.records))
      × (stats.quarantined ≡ length s.quarantine)
unfolding stats_unlocked
stats_totals io s stats h = count_at-totals io s io.now stats h

-- The last tests of `append` pass only with room left and the name unused.
passed_tests :
    (max size : ℕ) (exists : Bool) (coded bytes : Text)
    → (if ltb max size
        then err AppError.protocol
        else if exists
        then err AppError.protocol
        else ok coded)
      ≡ ok bytes
    → (coded ≡ bytes) × (exists ≡ false) × (size ≤ max)
passed_tests max size exists coded bytes h = ground arith

module _ (encode : TelemetryEnvelope → AppResult Text) where
  pub check_append-ok :
      (io : Calls) (s : DiskSpool) (e : TelemetryEnvelope) (bytes : Text)
      → check_append encode io s e ≡ ok bytes
      → (encode_json encode e ≡ ok bytes)
        × (exists_file e.sequence s.records ≡ false)
        × ((stats : SpoolStats) × (stats_unlocked io s ≡ ok stats)
            × (saturating_add stats.bytes (length bytes) ≤ s.max_bytes))
  unfolding check_append
  check_append-ok io s e bytes h =
      let (coded, encoded, rest) = >>=-ok (encode_json encode e) _ bytes h in
      let (stats, counted, last) = >>=-ok (stats_unlocked io s) _ bytes rest in
      let (same, unused, room) =
        passed_tests s.max_bytes (saturating_add stats.bytes (length coded))
          (exists_file e.sequence s.records) coded bytes last in
      (
        encoded ∙ ap ok same,
        unused,
        (
          stats,
          counted,
          subst (λ t. saturating_add stats.bytes (length t) ≤ s.max_bytes) same room,
        ),
      )

  within_limit :
      (io : Calls) (s : DiskSpool) (e : TelemetryEnvelope) (bytes : Text)
      → s.max_bytes < 2 ^ 64 - 1
      → (encode_json encode e ≡ ok bytes)
        × (exists_file e.sequence s.records ≡ false)
        × ((stats : SpoolStats) × (stats_unlocked io s ≡ ok stats)
            × (saturating_add stats.bytes (length bytes) ≤ s.max_bytes))
      → total_bytes (
          insert_file
            (record { sequence = e.sequence; bytes = bytes; modified = io.now })
            s.records)
        ≤ s.max_bytes
  within_limit io s e bytes max (encoded, unused, (stats, counted, room)) =
      let (_, size, _) = stats_totals io s stats counted in
      ground (
        arith,
        total_bytes-insert_file (record { sequence = e.sequence; bytes = bytes; modified = io.now })
            s.records,
      )

  -- Where the limit is below `u64::MAX`, no `append`, whether it succeeds or fails, takes the records
  -- over it, if they were within it before.
  pub append_within_limit :
      (io : Calls) (s : DiskSpool) (e : TelemetryEnvelope)
      → s.max_bytes < 2 ^ 64 - 1
      → total_bytes s.records ≤ s.max_bytes
      → total_bytes (append encode io s e).0.records ≤ s.max_bytes
  append_within_limit io s e max within = elim (append-cases encode io s e) [
    | inl (x, failed) ↦ rw failed within
    | inr (bytes, passed, stored) ↦
        rw stored (within_limit io s e bytes max (check_append-ok io s e bytes passed))
  ]
