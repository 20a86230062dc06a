-- ===== src/Abi/Layout.antt =====
-- The producer's side of the ABI: the C layout of each record as a sequence of fields, and when a
-- record is one that a producer may write.
use system_pilot.Abi.Words.{Endian, Field, Fits, layout}
use system_pilot.Abi.{
  RawEventHeader, RawEvent, EventKind, to_raw, abi_version, raw_process_exit_size,
  raw_signal_generated_size, raw_oom_victim_size, raw_telemetry_loss_size,
}
use system_pilot.Base.{ℕ, ◌≡◌, List, [], ◌∷◌, ◌++◌, All}

abbrev pub field : ℕ → ℕ → Field
field size value = record { size = size; value = value }

abbrev pub header_layout : RawEventHeader → List Field
header_layout h =
    field 2 h.abi_version
    ∷ field 2 h.kind
    ∷ field 4 h.size
    ∷ field 8 h.timestamp_ns
    ∷ field 4 h.tgid
    ∷ field 4 h.pid
    ∷ field 8 h.start_boottime_ns
    ∷ field 8 h.cgroup_id
    ∷ []

abbrev pub header_of : RawEvent → RawEventHeader
header_of (RawEvent.process_exit r) = r.header
header_of (RawEvent.signal_generated r) = r.header
header_of (RawEvent.oom_victim r) = r.header
header_of (RawEvent.telemetry_loss r) = r.header

abbrev pub payload_layout : RawEvent → List Field
payload_layout (RawEvent.process_exit r) =
    field 4 r.ppid ∷ field 4 r.exit_code ∷ field 4 r.flags ∷ field 4 r.reserved ∷ []
payload_layout (RawEvent.signal_generated r) =
    field 4 r.signal
    ∷ field 4 r.si_code
    ∷ field 4 r.sender_pid
    ∷ field 4 r.sender_uid
    ∷ field 4 r.flags
    ∷ field 4 r.reserved
    ∷ []
payload_layout (RawEvent.oom_victim r) = field 4 r.oom_kind ∷ field 4 r.reserved ∷ []
payload_layout (RawEvent.telemetry_loss r) = field 8 r.dropped_records ∷ []

abbrev pub event_layout : RawEvent → List Field
event_layout ev = header_layout (header_of ev) ++ payload_layout ev

abbrev pub event_kind : RawEvent → EventKind
event_kind (RawEvent.process_exit r) = EventKind.process_exit
event_kind (RawEvent.signal_generated r) = EventKind.signal_generated
event_kind (RawEvent.oom_victim r) = EventKind.oom_victim
event_kind (RawEvent.telemetry_loss r) = EventKind.telemetry_loss

abbrev pub event_size : RawEvent → ℕ
event_size (RawEvent.process_exit r) = raw_process_exit_size
event_size (RawEvent.signal_generated r) = raw_signal_generated_size
event_size (RawEvent.oom_victim r) = raw_oom_victim_size
event_size (RawEvent.telemetry_loss r) = raw_telemetry_loss_size

-- The header names this version, the record's own kind and its own size.
pub record IsTagged (ev : RawEvent) : Type 0 where
  pub version : (header_of ev).abi_version ≡ abi_version
  pub kind : (header_of ev).kind ≡ to_raw (event_kind ev)
  pub size : (header_of ev).size ≡ event_size ev

-- And every field is in the range of its type.
pub record IsWritable (ev : RawEvent) : Type 0 where
  pub tagged : IsTagged ev
  pub in_range : All Fits (event_layout ev)

-- The bytes of a record, with whatever follows it in the buffer.
unfoldable pub encode : Endian → RawEvent → List ℕ → List ℕ
encode e ev rest = layout e (event_layout ev) rest
