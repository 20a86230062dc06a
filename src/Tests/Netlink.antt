-- ===== src/Tests/Netlink.antt =====
-- The messages of src/netlink.rs at concrete bytes.
use system_pilot.Abi.Words.{Endian, from_bytes, word}
use system_pilot.Base.{ℕ, ◌≡◌, refl, List, [], ◌∷◌, ◌++◌, some, replicate}
use system_pilot.Netlink.{
  Frame, missing_code, parse_connector, parse_frames, parse_from, parse_message, read_u32,
}

-- An execution of process 7, and an error message without a code.
abbrev exec_of_7 : List ℕ
exec_of_7 =
    (60 ∷ 0 ∷ 0 ∷ 0 ∷ 3 ∷ replicate 11 0)
    ++ ((1 ∷ 0 ∷ 0 ∷ 0 ∷ 1 ∷ replicate 15 0)
        ++ ((2 ∷ 0 ∷ 0 ∷ 0 ∷ replicate 12 0) ++ (7 ∷ 0 ∷ 0 ∷ 0 ∷ replicate 4 0)))

abbrev cut_error : List ℕ
cut_error = 16 ∷ 0 ∷ 0 ∷ 0 ∷ 2 ∷ replicate 11 0

parses_both :
    parse_frames Endian.little (exec_of_7 ++ cut_error)
    ≡ some (Frame.exec 7 ∷ (Frame.kernel_error missing_code ∷ []))
unfolding parse_frames parse_from parse_message parse_connector read_u32 word from_bytes
parses_both = refl

-- A message longer than the buffer ends the loop.
stops_at_a_cut : parse_frames Endian.little (40 ∷ replicate 15 0) ≡ some []
unfolding parse_frames parse_from word from_bytes
stops_at_a_cut = refl
