-- ===== src/Daemon/Listener/Termination.antt =====
-- The loop of `netlink_listener` in src/daemon.rs over received bytes ends.
use system_pilot.Abi.Words.{Endian, word}
use system_pilot.Base.{
  ℕ, zero, suc, ◌+◌, ◌≤◌, ◌≡◌, refl, Bool, true, false, List, some, length, leb, ◌==◌, Bool-cases,
  inl, inr, arith,
}
use system_pilot.Daemon.Listener.{listen, listen_from, max, on_message, rejection}
use system_pilot.Daemon.{Daemon, EventCalls, Formats}
use system_pilot.Netlink.{aligned, has_header, is_whole}

module _ (e : Endian) (formats : Formats) (calls : ℕ → EventCalls) where
  listen_from_returns :
      (fuel : ℕ) (bytes : List ℕ) (o : ℕ) (d : Daemon)
      → length bytes ≤ o + fuel
      → (r : Daemon × Bool) × (listen_from e formats calls fuel bytes o d ≡ some r)
  unfolding listen_from
  listen_from_returns zero bytes o d enough = ((d, true), ground arith)
  listen_from_returns (suc fuel) bytes o d enough =
      let size = word e o 4 bytes in
      let more = λ (d' : Daemon).
        listen_from_returns fuel bytes (o + max (aligned e size) 16) d' (ground arith) in
      elim (Bool-cases (has_header e bytes o)) [
        | inr short ↦ ((d, true), rw short refl)
        | inl header ↦ elim (Bool-cases (is_whole e bytes o size)) [
          | inr broken ↦ ((d, true), rw (header, broken) refl)
          | inl whole ↦ elim (Bool-cases (word e (o + 4) 2 bytes == 2)) [
            | inl error ↦ elim (Bool-cases (rejection e formats calls bytes o size == 0)) [
              | inl accepted ↦
                  let (r, returned) = more d in (r, rw (header, whole, error, accepted) returned)
              | inr rejected ↦ (
                (record d { netlink_state = 2 }, false),
                rw (header, whole, error, rejected) refl,
              )
            ]
            | inr plain ↦ elim (Bool-cases (leb (o + 36) (length bytes))) [
              | inl room ↦
                  let (r, returned) = more (on_message e formats calls bytes (o + 16) d) in
                  (r, rw (header, whole, plain, room) returned)
              | inr cut ↦ ((d, true), rw (header, whole, plain, cut) refl)
            ]
          ]
        ]
      ]

  -- Whatever was received, the loop ends: a round moves on by at least sixteen bytes.
  pub listen_returns :
      (bytes : List ℕ) (d : Daemon)
      → (r : Daemon × Bool) × (listen e formats calls bytes d ≡ some r)
  unfolding listen
  listen_returns bytes d = listen_from_returns (length bytes) bytes 0 d (omega arith)
