-- ===== src/Abi/Decoding.antt =====
-- What the decoders of crates/syspilot-abi/src/lib.rs accept.
use system_pilot.Abi.Layout.{event_size, IsTagged}
use system_pilot.Abi.Words.{Endian}
use system_pilot.Abi.{
  RawEventHeader, RawProcessExit, RawSignalGenerated, RawOomVictim, RawTelemetryLoss, RawEvent,
  from_raw, header_fields, decode_header, decode_process_exit, decode_signal_generated,
  decode_oom_victim, decode_telemetry_loss, decode,
}
use system_pilot.Base.{ℕ, ◌≤◌, ◌≡◌, List, length, some, arith}

module _ (e : Endian) (bytes : List ℕ) where
  decode_header_sound :
      (h : RawEventHeader)
      → decode_header e bytes ≡ some h
      → (h.abi_version ≡ 1) × (h ≡ header_fields e bytes)
  unfolding decode_header
  decode_header_sound h p = ground arith

  process_exit_sound :
      (r : RawProcessExit)
      → decode_process_exit e bytes ≡ some r
      → IsTagged (RawEvent.process_exit r) × (56 ≤ length bytes)
  unfolding decode_process_exit
  process_exit_sound r p = grind (arith, decode_header_sound)

  signal_generated_sound :
      (r : RawSignalGenerated)
      → decode_signal_generated e bytes ≡ some r
      → IsTagged (RawEvent.signal_generated r) × (64 ≤ length bytes)
  unfolding decode_signal_generated
  signal_generated_sound r p = grind (arith, decode_header_sound)

  oom_victim_sound :
      (r : RawOomVictim)
      → decode_oom_victim e bytes ≡ some r
      → IsTagged (RawEvent.oom_victim r) × (48 ≤ length bytes)
  unfolding decode_oom_victim
  oom_victim_sound r p = grind (arith, decode_header_sound)

  telemetry_loss_sound :
      (r : RawTelemetryLoss)
      → decode_telemetry_loss e bytes ≡ some r
      → IsTagged (RawEvent.telemetry_loss r) × (48 ≤ length bytes)
  unfolding decode_telemetry_loss
  telemetry_loss_sound r p = grind (arith, decode_header_sound)

  -- A decoded record carries this ABI version, the tag of its own kind and exactly its own size,
  -- and the buffer holds that many bytes.
  pub decode_sound :
      (ev : RawEvent) → decode e bytes ≡ some ev → IsTagged ev × (event_size ev ≤ length bytes)
  unfolding decode from_raw
  decode_sound (RawEvent.process_exit r) h = process_exit_sound r (ground arith)
  decode_sound (RawEvent.signal_generated r) h = signal_generated_sound r (ground arith)
  decode_sound (RawEvent.oom_victim r) h = oom_victim_sound r (ground arith)
  decode_sound (RawEvent.telemetry_loss r) h = telemetry_loss_sound r (ground arith)
