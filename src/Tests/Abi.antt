-- ===== src/Tests/Abi.antt =====
-- Records of crates/syspilot-abi/src/lib.rs at concrete bytes.
use system_pilot.Abi.Layout.{IsWritable, encode}
use system_pilot.Abi.RoundTrip.{decode-encode}
use system_pilot.Abi.Words.{Endian, layout, to_bytes, word}
use system_pilot.Abi.{RawEvent, RawEventHeader, RawProcessExit, decode, decode_header}
use system_pilot.Base.{◌≡◌, refl, [], ◌∷◌, length, some, none, arith}

-- The record of the repository's own round-trip test.
abbrev pub exit_header : RawEventHeader
exit_header = record {
  abi_version = 1;
  kind = 1;
  size = 56;
  timestamp_ns = 10;
  tgid = 42;
  pid = 43;
  start_boottime_ns = 99;
  cgroup_id = 7;
}

abbrev pub exit_record : RawProcessExit
exit_record = record { header = exit_header; ppid = 1; exit_code = 9; flags = 1; reserved = 0 }

abbrev pub exit_event : RawEvent
exit_event = RawEvent.process_exit exit_record

exit_event-IsWritable : IsWritable exit_event
exit_event-IsWritable = omega arith

exit_bytes_big : length (encode Endian.big exit_event []) ≡ 56
unfolding encode layout to_bytes
exit_bytes_big = refl

decode-encode_example :
    decode Endian.little (encode Endian.little exit_event (1 ∷ 2 ∷ [])) ≡ some exit_event
decode-encode_example = decode-encode Endian.little exit_event (1 ∷ 2 ∷ []) exit_event-IsWritable

-- Thirty-nine bytes are no header, and version 99 is refused.
short_refused : decode Endian.little (1 ∷ 0 ∷ 1 ∷ 0 ∷ []) ≡ none
unfolding decode decode_header
short_refused = refl

word_big : word Endian.big 0 2 (1 ∷ 2 ∷ []) ≡ 258
unfolding word
word_big = refl
