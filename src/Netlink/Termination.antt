-- ===== src/Netlink/Termination.antt =====
-- The loop of `parse_frames` in src/netlink.rs ends.
use system_pilot.Abi.Words.{Endian, word}
use system_pilot.Base.{
  ℕ, zero, suc, ◌+◌, ◌≤◌, ◌≡◌, ◌++◌, refl, List, [], some, length, Bool-cases, inl, inr, arith,
}
use system_pilot.Netlink.{
  Frame, aligned, has_header, is_whole, parse_frames, parse_from, parse_message,
}

module _ (e : Endian) where
  -- With fuel for every byte from the offset on, the loop returns.
  pub parse_from_returns :
      (fuel : ℕ) (bytes : List ℕ) (offset : ℕ)
      → length bytes ≤ offset + fuel
      → (fs : List Frame) × (parse_from e fuel bytes offset ≡ some fs)
  unfolding parse_from
  parse_from_returns zero bytes offset enough = ([], ground arith)
  parse_from_returns (suc fuel) bytes offset enough =
      elim (Bool-cases (has_header e bytes offset)) [
        | inr short ↦ ([], rw short refl)
        | inl header ↦ elim (Bool-cases (is_whole e bytes offset (word e offset 4 bytes))) [
          | inr broken ↦ ([], rw (header, broken) refl)
          | inl whole ↦
              let (fs, rest) =
                parse_from_returns fuel bytes (offset + aligned e (word e offset 4 bytes))
                  (ground arith) in
              (
                parse_message e bytes offset (word e offset 4 bytes) ++ fs,
                rw (header, whole, rest) refl,
              )
        ]
      ]

  -- `parse_frames` ends on every input: a round moves on by at least sixteen bytes, so as many
  -- rounds as there are bytes are enough.
  pub parse_frames_returns : (bytes : List ℕ) → (fs : List Frame) × (parse_frames e bytes ≡ some fs)
  unfolding parse_frames
  parse_frames_returns bytes = parse_from_returns (length bytes) bytes 0 (omega arith)
