-- ===== src/Base/Atomic.antt =====
-- The wrapping counters of the programs: `fetch_add` and `fetch_sub` of an `AtomicU64`.
use Prim.Native.Nat.{ℕ, ◌+◌, ◌-◌, ◌%◌, ◌^◌}

abbrev pub fetch_add : ℕ → ℕ → ℕ
fetch_add n m = (n + m) % 2 ^ 64

abbrev pub fetch_sub : ℕ → ℕ → ℕ
fetch_sub n m = (n + (2 ^ 64 - m % 2 ^ 64)) % 2 ^ 64
