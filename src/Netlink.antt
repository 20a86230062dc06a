-- ===== src/Netlink.antt =====
-- src/netlink.rs: the parser of the kernel's process-connector messages, over lists of bytes. The byte
-- order of the host is a parameter, and an `i32` is its bit pattern. No offset comes near `usize::MAX`.
pub mod Termination
use system_pilot.Abi.Words.{Endian, word}
use system_pilot.Base.{
  ℕ, zero, suc, ◌+◌, ◌-◌, ◌*◌, ◌/◌, ◌^◌, Bool, true, false, not, ◌&&◌, ◌||◌, List, [], ◌∷◌, ◌++◌,
  Option, none, some, length, take, drop, map_some, leb, ltb, ◌==◌, if◌then◌else◌,
}

pub data Frame : Type 0 where
  fork : ℕ → ℕ → Frame
  exec : ℕ → Frame
  exit : ℕ → ℕ → ℕ → Frame
  kernel_error : ℕ → Frame

-- `-libc::EPROTO`.
abbrev pub missing_code : ℕ
missing_code = 2 ^ 32 - 71

module _ (e : Endian) where
  -- `read_u32` and `read_i32`.
  unfoldable pub read_u32 : List ℕ → ℕ → Option ℕ
  read_u32 bytes offset =
      if leb (offset + 4) (length bytes) then some (word e offset 4 bytes) else none

  abbrev pub is_read : Option ℕ → ℕ → Bool
  is_read none n = false
  is_read (some m) n = m == n

  -- The `match` of `parse_connector`; what a guard has checked is read at once.
  abbrev pub parse_event : List ℕ → Option ℕ → List Frame
  parse_event event what =
      if is_read what 1 && leb 32 (length event)
      then fork (word e 16 4 event) (word e 24 4 event) ∷ []
      else if is_read what 2 && leb 24 (length event)
      then exec (word e 16 4 event) ∷ []
      else if is_read what 0x8000_0000 && leb 32 (length event)
      then exit (word e 16 4 event) (word e 24 4 event) (word e 28 4 event) ∷ []
      else []

  -- `parse_connector`: the frames that it pushes.
  unfoldable pub parse_connector : List ℕ → List Frame
  parse_connector bytes =
      if ltb (length bytes) 24
        || (not (is_read (read_u32 bytes 0) 1) || not (is_read (read_u32 bytes 4) 1))
      then []
      else parse_event (drop 20 bytes) (read_u32 (drop 20 bytes) 0)

  -- The code of an error message, which stands behind its header.
  abbrev pub error_code : List ℕ → ℕ → ℕ
  error_code bytes offset =
      if leb (offset + 20) (length bytes) then word e (offset + 16) 4 bytes else missing_code

  -- The frames of the message at an offset.
  unfoldable pub parse_message : List ℕ → ℕ → ℕ → List Frame
  parse_message bytes offset size =
      if word e (offset + 4) 2 bytes == 2
      then (if error_code bytes offset == 0
          then []
          else kernel_error (error_code bytes offset) ∷ [])
      else parse_connector (take (size - 16) (drop (offset + 16) bytes))

  -- There is a whole message at the offset.
  abbrev pub has_header : List ℕ → ℕ → Bool
  has_header bytes offset = leb (offset + 16) (length bytes)

  abbrev pub is_whole : List ℕ → ℕ → ℕ → Bool
  is_whole bytes offset size = leb 16 size && leb (offset + size) (length bytes)

  -- `length.checked_add(3)` and the mask.
  abbrev pub aligned : ℕ → ℕ
  aligned size = (size + 3) / 4 * 4

  -- The loop of `parse_frames` on fuel; `none` means that the fuel ran out.
  unfoldable pub parse_from : ℕ → List ℕ → ℕ → Option (List Frame)
  parse_from zero bytes offset = if has_header bytes offset then none else some []
  parse_from (suc fuel) bytes offset =
      let size = word e offset 4 bytes in
      let rest = parse_from fuel bytes (offset + aligned size) in
      if not (has_header bytes offset)
      then some []
      else if not (is_whole bytes offset size)
      then some []
      else map_some (λ fs. parse_message bytes offset size ++ fs) rest

  -- `parse_frames`.
  unfoldable pub parse_frames : List ℕ → Option (List Frame)
  parse_frames bytes = parse_from (length bytes) bytes 0
