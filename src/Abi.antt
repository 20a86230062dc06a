-- ===== src/Abi.antt =====
-- crates/syspilot-abi/src/lib.rs: the versioned records that eBPF programs and collectors share.
-- A byte is a number below 256; an `i32` is kept as its bit pattern, a number below 2 ^ 32.
pub mod Words
pub mod Layout
pub mod Decoding
pub mod RoundTrip
use system_pilot.Base.{
  ℕ, ◌+◌, ◌%◌, ◌≡◌, Bool, true, false, not, ◌&&◌, ◌||◌, List, Option, none, some, length, ltb, leb,
  ◌==◌, if◌then◌else◌, is_some, map_some, ◌>>=◌,
}
use Words.{Endian, word}

abbrev pub abi_version : ℕ
abi_version = 1

abbrev pub raw_event_header_size : ℕ
raw_event_header_size = 40

abbrev pub raw_process_exit_size : ℕ
raw_process_exit_size = 56

abbrev pub raw_signal_generated_size : ℕ
raw_signal_generated_size = 64

abbrev pub raw_oom_victim_size : ℕ
raw_oom_victim_size = 48

abbrev pub raw_telemetry_loss_size : ℕ
raw_telemetry_loss_size = 48

pub record ProcessIdentity : Type 0 where
  pub tgid : ℕ
  pub start_boottime_ns : ℕ

pub data EventKind : Type 0 where
  process_exit signal_generated oom_victim telemetry_loss : EventKind

-- `EventKind::from_raw`.
unfoldable pub from_raw : ℕ → Option EventKind
from_raw value =
    if value == 1
    then some EventKind.process_exit
    else if value == 2
    then some EventKind.signal_generated
    else if value == 3
    then some EventKind.oom_victim
    else if value == 4
    then some EventKind.telemetry_loss
    else none

-- `kind as u16`.
abbrev pub to_raw : EventKind → ℕ
to_raw EventKind.process_exit = 1
to_raw EventKind.signal_generated = 2
to_raw EventKind.oom_victim = 3
to_raw EventKind.telemetry_loss = 4

pub record RawEventHeader : Type 0 where
  pub abi_version : ℕ
  pub kind : ℕ
  pub size : ℕ
  pub timestamp_ns : ℕ
  pub tgid : ℕ
  pub pid : ℕ
  pub start_boottime_ns : ℕ
  pub cgroup_id : ℕ

pub record RawProcessExit : Type 0 where
  pub header : RawEventHeader
  pub ppid : ℕ
  pub exit_code : ℕ
  pub flags : ℕ
  pub reserved : ℕ

pub record RawSignalGenerated : Type 0 where
  pub header : RawEventHeader
  pub signal : ℕ
  pub si_code : ℕ
  pub sender_pid : ℕ
  pub sender_uid : ℕ
  pub flags : ℕ
  pub reserved : ℕ

pub record RawOomVictim : Type 0 where
  pub header : RawEventHeader
  pub oom_kind : ℕ
  pub reserved : ℕ

pub record RawTelemetryLoss : Type 0 where
  pub header : RawEventHeader
  pub dropped_records : ℕ

pub data RawEvent : Type 0 where
  process_exit : RawProcessExit → RawEvent
  signal_generated : RawSignalGenerated → RawEvent
  oom_victim : RawOomVictim → RawEvent
  telemetry_loss : RawTelemetryLoss → RawEvent

-- `RawEventHeader::identity`.
unfoldable pub identity : RawEventHeader → ProcessIdentity
identity h = record { tgid = h.tgid; start_boottime_ns = h.start_boottime_ns }

-- `flags & 1 != 0`.
abbrev pub bit0 : ℕ → Bool
bit0 flags = flags % 2 == 1

unfoldable pub is_group_leader : RawProcessExit → Bool
is_group_leader r = bit0 r.flags

unfoldable pub sender_is_kernel : RawSignalGenerated → Bool
sender_is_kernel r = bit0 r.flags

module _ (e : Endian) where
  unfoldable pub header_fields : List ℕ → RawEventHeader
  header_fields bytes = record {
    abi_version = word e 0 2 bytes;
    kind = word e 2 2 bytes;
    size = word e 4 4 bytes;
    timestamp_ns = word e 8 8 bytes;
    tgid = word e 16 4 bytes;
    pid = word e 20 4 bytes;
    start_boottime_ns = word e 24 8 bytes;
    cgroup_id = word e 32 8 bytes;
  }

-- The test that `RawEventHeader::decode` ends with.
abbrev pub header_accepted : RawEventHeader → ℕ → Bool
header_accepted header len =
    header.abi_version == abi_version
    && (is_some (from_raw header.kind)
        && (leb raw_event_header_size header.size && leb header.size len))

-- The refusals that each payload decoder starts with.
abbrev pub payload_refused : EventKind → ℕ → RawEventHeader → ℕ → Bool
payload_refused kind size header len =
    not (header.kind == to_raw kind) || (not (header.size == size) || ltb len size)

module _ (e : Endian) where
  unfoldable pub decode_header : List ℕ → Option RawEventHeader
  decode_header bytes =
      let header = header_fields e bytes in
      if ltb (length bytes) raw_event_header_size
      then none
      else if header_accepted header (length bytes)
      then some header
      else none

  unfoldable pub decode_process_exit : List ℕ → Option RawProcessExit
  decode_process_exit bytes = do
    header ← decode_header bytes
    if payload_refused EventKind.process_exit raw_process_exit_size header (length bytes)
        then none
        else some (record {
          header = header;
          ppid = word e 40 4 bytes;
          exit_code = word e 44 4 bytes;
          flags = word e 48 4 bytes;
          reserved = word e 52 4 bytes;
        })

  unfoldable pub decode_signal_generated : List ℕ → Option RawSignalGenerated
  decode_signal_generated bytes = do
    header ← decode_header bytes
    if payload_refused EventKind.signal_generated raw_signal_generated_size header (length bytes)
        then none
        else some (record {
          header = header;
          signal = word e 40 4 bytes;
          si_code = word e 44 4 bytes;
          sender_pid = word e 48 4 bytes;
          sender_uid = word e 52 4 bytes;
          flags = word e 56 4 bytes;
          reserved = word e 60 4 bytes;
        })

  unfoldable pub decode_oom_victim : List ℕ → Option RawOomVictim
  decode_oom_victim bytes = do
    header ← decode_header bytes
    if payload_refused EventKind.oom_victim raw_oom_victim_size header (length bytes)
        then none
        else some
            (record { header = header; oom_kind = word e 40 4 bytes; reserved = word e 44 4 bytes })

  unfoldable pub decode_telemetry_loss : List ℕ → Option RawTelemetryLoss
  decode_telemetry_loss bytes = do
    header ← decode_header bytes
    if payload_refused EventKind.telemetry_loss raw_telemetry_loss_size header (length bytes)
        then none
        else some (record { header = header; dropped_records = word e 40 8 bytes })

  -- The `match` of `RawEvent::decode`.
  abbrev pub decode_payload : EventKind → List ℕ → Option RawEvent
  decode_payload EventKind.process_exit bytes =
      map_some RawEvent.process_exit (decode_process_exit bytes)
  decode_payload EventKind.signal_generated bytes =
      map_some RawEvent.signal_generated (decode_signal_generated bytes)
  decode_payload EventKind.oom_victim bytes = map_some RawEvent.oom_victim (decode_oom_victim bytes)
  decode_payload EventKind.telemetry_loss bytes =
      map_some RawEvent.telemetry_loss (decode_telemetry_loss bytes)

  -- `RawEvent::decode`.
  unfoldable pub decode : List ℕ → Option RawEvent
  decode bytes = do
    header ← decode_header bytes
    kind ← from_raw header.kind
    decode_payload kind bytes
