-- ===== src/Abi/RoundTrip.antt =====
-- A record that is written and then read back is the same record (crates/syspilot-abi/src/lib.rs).
use system_pilot.Abi.Layout.{
  field, header_layout, payload_layout, header_of, event_layout, IsWritable, encode,
}
use system_pilot.Abi.Words.{Endian, Field, Fits, layout, width, length-layout, word-layout}
use system_pilot.Abi.{
  RawEventHeader, RawEvent, from_raw, header_fields, decode_header, decode_process_exit,
  decode_signal_generated, decode_oom_victim, decode_telemetry_loss, decode, RawProcessExit,
  RawSignalGenerated, RawOomVictim, RawTelemetryLoss,
}
use system_pilot.Base.{ℕ, ◌≤◌, ◌≡◌, List, [], ◌∷◌, ◌++◌, All, some, is_some, true, arith}

-- What follows the header does not matter to its fields.
header_fields-layout :
    (e : Endian) (h : RawEventHeader) (ps : List Field) (rest : List ℕ)
    → All Fits (header_layout h ++ ps)
    → header_fields e (layout e (header_layout h ++ ps) rest) ≡ h
unfolding header_fields
header_fields-layout e h ps rest w = λ i. record {
  abi_version =
      word-layout e ([]) (field 2 h.abi_version)
        (field 2 h.kind
          ∷ field 4 h.size
          ∷ field 8 h.timestamp_ns
          ∷ field 4 h.tgid
          ∷ field 4 h.pid
          ∷ field 8 h.start_boottime_ns
          ∷ field 8 h.cgroup_id
          ∷ ps)
        rest w.0 i;
  kind =
      word-layout e (field 2 h.abi_version ∷ []) (field 2 h.kind)
        (field 4 h.size
          ∷ field 8 h.timestamp_ns
          ∷ field 4 h.tgid
          ∷ field 4 h.pid
          ∷ field 8 h.start_boottime_ns
          ∷ field 8 h.cgroup_id
          ∷ ps)
        rest w.1.0 i;
  size =
      word-layout e (field 2 h.abi_version ∷ field 2 h.kind ∷ []) (field 4 h.size)
        (field 8 h.timestamp_ns
          ∷ field 4 h.tgid
          ∷ field 4 h.pid
          ∷ field 8 h.start_boottime_ns
          ∷ field 8 h.cgroup_id
          ∷ ps)
        rest w.1.1.0 i;
  timestamp_ns =
      word-layout e (field 2 h.abi_version ∷ field 2 h.kind ∷ field 4 h.size ∷ [])
        (field 8 h.timestamp_ns)
        (field 4 h.tgid ∷ field 4 h.pid ∷ field 8 h.start_boottime_ns ∷ field 8 h.cgroup_id ∷ ps)
        rest w.1.1.1.0 i;
  tgid =
      word-layout e
        (field 2 h.abi_version ∷ field 2 h.kind ∷ field 4 h.size ∷ field 8 h.timestamp_ns ∷ [])
        (field 4 h.tgid) (field 4 h.pid ∷ field 8 h.start_boottime_ns ∷ field 8 h.cgroup_id ∷ ps)
        rest w.1.1.1.1.0 i;
  pid =
      word-layout e
        (field 2 h.abi_version
          ∷ field 2 h.kind
          ∷ field 4 h.size
          ∷ field 8 h.timestamp_ns
          ∷ field 4 h.tgid
          ∷ [])
        (field 4 h.pid) (field 8 h.start_boottime_ns ∷ field 8 h.cgroup_id ∷ ps) rest w.1.1.1.1.1.0
        i;
  start_boottime_ns =
      word-layout e
        (field 2 h.abi_version
          ∷ field 2 h.kind
          ∷ field 4 h.size
          ∷ field 8 h.timestamp_ns
          ∷ field 4 h.tgid
          ∷ field 4 h.pid
          ∷ [])
        (field 8 h.start_boottime_ns) (field 8 h.cgroup_id ∷ ps) rest w.1.1.1.1.1.1.0 i;
  cgroup_id =
      word-layout e
        (field 2 h.abi_version
          ∷ field 2 h.kind
          ∷ field 4 h.size
          ∷ field 8 h.timestamp_ns
          ∷ field 4 h.tgid
          ∷ field 4 h.pid
          ∷ field 8 h.start_boottime_ns
          ∷ [])
        (field 8 h.cgroup_id) (ps) rest w.1.1.1.1.1.1.1.0 i;
}

decode_header-layout :
    (e : Endian) (h : RawEventHeader) (ps : List Field) (rest : List ℕ)
    → All Fits (header_layout h ++ ps)
    → h.abi_version ≡ 1
    → is_some (from_raw h.kind) ≡ true
    → 40 ≤ h.size
    → h.size ≤ width (header_layout h ++ ps)
    → decode_header e (layout e (header_layout h ++ ps) rest) ≡ some h
unfolding decode_header
decode_header-layout e h ps rest w v k low high =
    rw (header_fields-layout e h ps rest w)
      (ground (arith, length-layout e (header_layout h ++ ps) rest))

decode_process_exit-encode :
    (e : Endian) (r : RawProcessExit) (rest : List ℕ)
    → IsWritable (RawEvent.process_exit r)
    → decode_process_exit e (encode e (RawEvent.process_exit r) rest) ≡ some r
unfolding decode_process_exit encode from_raw
decode_process_exit-encode e r rest w = ground (
  arith,
  decode_header-layout e r.header (payload_layout (RawEvent.process_exit r)) rest w.in_range,
  length-layout e (event_layout (RawEvent.process_exit r)) rest,
  word-layout e (header_layout r.header ++ ([])) (field 4 r.ppid)
      (field 4 r.exit_code ∷ field 4 r.flags ∷ field 4 r.reserved ∷ []) rest
      w.in_range.1.1.1.1.1.1.1.1.0,
  word-layout e (header_layout r.header ++ (field 4 r.ppid ∷ [])) (field 4 r.exit_code)
      (field 4 r.flags ∷ field 4 r.reserved ∷ []) rest w.in_range.1.1.1.1.1.1.1.1.1.0,
  word-layout e (header_layout r.header ++ (field 4 r.ppid ∷ field 4 r.exit_code ∷ []))
      (field 4 r.flags) (field 4 r.reserved ∷ []) rest w.in_range.1.1.1.1.1.1.1.1.1.1.0,
  word-layout e
      (header_layout r.header ++ (field 4 r.ppid ∷ field 4 r.exit_code ∷ field 4 r.flags ∷ []))
      (field 4 r.reserved) ([]) rest w.in_range.1.1.1.1.1.1.1.1.1.1.1.0,
)

decode_signal_generated-encode :
    (e : Endian) (r : RawSignalGenerated) (rest : List ℕ)
    → IsWritable (RawEvent.signal_generated r)
    → decode_signal_generated e (encode e (RawEvent.signal_generated r) rest) ≡ some r
unfolding decode_signal_generated encode from_raw
decode_signal_generated-encode e r rest w = ground (
  arith,
  decode_header-layout e r.header (payload_layout (RawEvent.signal_generated r)) rest w.in_range,
  length-layout e (event_layout (RawEvent.signal_generated r)) rest,
  word-layout e (header_layout r.header ++ ([])) (field 4 r.signal)
      (field 4 r.si_code
        ∷ field 4 r.sender_pid
        ∷ field 4 r.sender_uid
        ∷ field 4 r.flags
        ∷ field 4 r.reserved
        ∷ [])
      rest w.in_range.1.1.1.1.1.1.1.1.0,
  word-layout e (header_layout r.header ++ (field 4 r.signal ∷ [])) (field 4 r.si_code)
      (field 4 r.sender_pid ∷ field 4 r.sender_uid ∷ field 4 r.flags ∷ field 4 r.reserved ∷ []) rest
      w.in_range.1.1.1.1.1.1.1.1.1.0,
  word-layout e (header_layout r.header ++ (field 4 r.signal ∷ field 4 r.si_code ∷ []))
      (field 4 r.sender_pid) (field 4 r.sender_uid ∷ field 4 r.flags ∷ field 4 r.reserved ∷ []) rest
      w.in_range.1.1.1.1.1.1.1.1.1.1.0,
  word-layout e
      (header_layout r.header ++ (field 4 r.signal ∷ field 4 r.si_code ∷ field 4 r.sender_pid ∷ []))
      (field 4 r.sender_uid) (field 4 r.flags ∷ field 4 r.reserved ∷ []) rest
      w.in_range.1.1.1.1.1.1.1.1.1.1.1.0,
  word-layout e
      (header_layout r.header
        ++ (field 4 r.signal
            ∷ field 4 r.si_code
            ∷ field 4 r.sender_pid
            ∷ field 4 r.sender_uid
            ∷ []))
      (field 4 r.flags) (field 4 r.reserved ∷ []) rest w.in_range.1.1.1.1.1.1.1.1.1.1.1.1.0,
  word-layout e
      (header_layout r.header
        ++ (field 4 r.signal
            ∷ field 4 r.si_code
            ∷ field 4 r.sender_pid
            ∷ field 4 r.sender_uid
            ∷ field 4 r.flags
            ∷ []))
      (field 4 r.reserved) ([]) rest w.in_range.1.1.1.1.1.1.1.1.1.1.1.1.1.0,
)

decode_oom_victim-encode :
    (e : Endian) (r : RawOomVictim) (rest : List ℕ)
    → IsWritable (RawEvent.oom_victim r)
    → decode_oom_victim e (encode e (RawEvent.oom_victim r) rest) ≡ some r
unfolding decode_oom_victim encode from_raw
decode_oom_victim-encode e r rest w = ground (
  arith,
  decode_header-layout e r.header (payload_layout (RawEvent.oom_victim r)) rest w.in_range,
  length-layout e (event_layout (RawEvent.oom_victim r)) rest,
  word-layout e (header_layout r.header ++ ([])) (field 4 r.oom_kind) (field 4 r.reserved ∷ []) rest
      w.in_range.1.1.1.1.1.1.1.1.0,
  word-layout e (header_layout r.header ++ (field 4 r.oom_kind ∷ [])) (field 4 r.reserved) ([]) rest
      w.in_range.1.1.1.1.1.1.1.1.1.0,
)

decode_telemetry_loss-encode :
    (e : Endian) (r : RawTelemetryLoss) (rest : List ℕ)
    → IsWritable (RawEvent.telemetry_loss r)
    → decode_telemetry_loss e (encode e (RawEvent.telemetry_loss r) rest) ≡ some r
unfolding decode_telemetry_loss encode from_raw
decode_telemetry_loss-encode e r rest w = ground (
  arith,
  decode_header-layout e r.header (payload_layout (RawEvent.telemetry_loss r)) rest w.in_range,
  length-layout e (event_layout (RawEvent.telemetry_loss r)) rest,
  word-layout e (header_layout r.header ++ ([])) (field 8 r.dropped_records) ([]) rest
      w.in_range.1.1.1.1.1.1.1.1.0,
)

encode_header :
    (e : Endian) (ev : RawEvent) (rest : List ℕ)
    → IsWritable ev
    → decode_header e (encode e ev rest) ≡ some (header_of ev)
unfolding encode from_raw
encode_header e (RawEvent.process_exit r) rest w =
    decode_header-layout e r.header _ rest w.in_range w.tagged.version (ground arith) (ground arith)
      (ground arith)
encode_header e ev rest w =
    decode_header-layout e (header_of ev) (payload_layout ev) rest w.in_range w.tagged.version
      (ground arith) (ground arith) (ground arith)

-- Decoding the bytes of a record that a producer may write, with anything behind them and in either
-- byte order, gives back that record.
pub decode-encode :
    (e : Endian) (ev : RawEvent) (rest : List ℕ)
    → IsWritable ev
    → decode e (encode e ev rest) ≡ some ev
unfolding decode from_raw
decode-encode e (RawEvent.process_exit r) rest w =
    ground (
      arith,
      encode_header e (RawEvent.process_exit r) rest w,
      decode_process_exit-encode e r rest w,
    )
decode-encode e (RawEvent.signal_generated r) rest w = ground (
  arith,
  encode_header e (RawEvent.signal_generated r) rest w,
  decode_signal_generated-encode e r rest w,
)
decode-encode e (RawEvent.oom_victim r) rest w =
    ground
      (arith, encode_header e (RawEvent.oom_victim r) rest w, decode_oom_victim-encode e r rest w)
decode-encode e (RawEvent.telemetry_loss r) rest w = ground (
  arith,
  encode_header e (RawEvent.telemetry_loss r) rest w,
  decode_telemetry_loss-encode e r rest w,
)
