-- ===== src/Cloud/Timestamp.antt =====
-- crates/syspilot-cloud/src/lib.rs: `UnixTimestamp`.
use system_pilot.Base.{ℕ, ◌+◌, ◌*◌, ◌/◌, ◌%◌, ◌≤◌, ◌<◌, ◌≡◌, ◌↔◌, ◌&&◌, leb, if◌then◌else◌, arith}
use system_pilot.Cloud.Api.{ApiError, ApiResult, ok, err}

abbrev pub nanos_per_second : ℕ
nanos_per_second = 1_000_000_000

abbrev pub min_reasonable_unix_seconds : ℕ
min_reasonable_unix_seconds = 946_684_800

abbrev pub max_reasonable_unix_seconds : ℕ
max_reasonable_unix_seconds = 4_102_444_799

pub record UnixTimestamp : Type 0 where
  pub seconds : ℕ
  pub nanoseconds : ℕ

-- `from_nanos`; both parts fit in an `i64`, so the conversions do not fail.
unfoldable pub from_nanos : ℕ → ApiResult UnixTimestamp
from_nanos value =
    let seconds = value / nanos_per_second in
    if leb min_reasonable_unix_seconds seconds && leb seconds max_reasonable_unix_seconds
    then ok (record { seconds = seconds; nanoseconds = value % nanos_per_second })
    else err ApiError.invalid

-- `as_nanos`.
unfoldable pub as_nanos : UnixTimestamp → ℕ
as_nanos t = t.seconds * nanos_per_second + t.nanoseconds

-- A timestamp from 2000 to 2099 whose nanoseconds are less than a second.
pub record IsReasonable (t : UnixTimestamp) : Type 0 where
  pub low : min_reasonable_unix_seconds ≤ t.seconds
  pub high : t.seconds ≤ max_reasonable_unix_seconds
  pub subsecond : t.nanoseconds < nanos_per_second

from_nanos-as_nanos : (t : UnixTimestamp) → IsReasonable t → from_nanos (as_nanos t) ≡ ok t
unfolding from_nanos as_nanos
from_nanos-as_nanos t r =
    let whole : (t.seconds * 1_000_000_000 + t.nanoseconds) / 1_000_000_000 ≡ t.seconds =
      omega arith in
    let rest : (t.seconds * 1_000_000_000 + t.nanoseconds) % 1_000_000_000 ≡ t.nanoseconds =
      omega arith in
    ground arith

from_nanos_sound :
    (value : ℕ) (t : UnixTimestamp)
    → from_nanos value ≡ ok t
    → IsReasonable t × (as_nanos t ≡ value)
unfolding from_nanos as_nanos
from_nanos_sound value t h = ground arith

-- The timestamps that `from_nanos` gives are those from 2000 to 2099 with less than a second of
-- nanoseconds, and each comes of exactly one number, that which `as_nanos` gives for it.
pub from_nanos_iff :
    (value : ℕ) (t : UnixTimestamp)
    → (from_nanos value ≡ ok t) ↔ (IsReasonable t × (as_nanos t ≡ value))
from_nanos_iff value t = (from_nanos_sound value t, λ (r, e). rw (← e) (from_nanos-as_nanos t r))
