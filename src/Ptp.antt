-- ===== src/Ptp.antt =====
-- net/ptp.rs: the messages of the timing protocol, the clock state, and the smoothing of offsets.
pub mod Messages
pub mod Smoothing
mod Tests
use mathlib.Core.Option
use shairplay_rust.Base.{
  ℕ, zero, suc, ◌+◌, ◌-◌, ◌*◌, ◌/◌, ◌%◌, ◌^◌, min, Bool, true, false, not, ◌&&◌, ◌||◌, Option, none,
  some, List, [], ◌∷◌, length, take, drop, get_or, ltb, leb, ◌==◌, if◌then◌else◌,
}
use shairplay_rust.Base.Words.{ℤ, pos, negsuc, i64, from_be_bytes}

pub data PtpMessageType : Type 0 where
  sync follow_up announce other : PtpMessageType

-- `PtpMessageType::from`: the low four bits.
pub message_type : ℕ → PtpMessageType
message_type v =
    let kind = v % 16 in
    if kind == 0
    then sync
    else if kind == 8
    then follow_up
    else if kind == 11
    then announce
    else other

abbrev pub is_follow_up : PtpMessageType → Bool
is_follow_up sync = false
is_follow_up follow_up = true
is_follow_up announce = false
is_follow_up other = false

abbrev pub is_announce : PtpMessageType → Bool
is_announce sync = false
is_announce follow_up = false
is_announce announce = true
is_announce other = false

-- `buf[from..to]`, in a buffer that is long enough.
abbrev pub slice : ℕ → ℕ → List ℕ → List ℕ
slice from to buf = take (to - from) (drop from buf)

-- -n
abbrev pub neg : ℕ → ℤ
neg zero = pos 0
neg (suc n) = negsuc n

-- `/ 65536` on an `i64`, which rounds towards zero.
abbrev pub div_65536 : ℤ → ℤ
div_65536 (pos n) = pos (n / 65536)
div_65536 (negsuc n) = neg ((n + 1) / 65536)

-- The checked operations of `u64`.
abbrev pub checked : ℕ → Option ℕ
checked n = if ltb n (2 ^ 64) then some n else none

abbrev pub checked_add_signed : ℕ → ℤ → Option ℕ
checked_add_signed a (pos n) = if ltb (a + n) (2 ^ 64) then some (a + n) else none
checked_add_signed a (negsuc n) = if leb (n + 1) a then some (a - (n + 1)) else none

-- Seconds of 48 bits and nanoseconds, as nanoseconds.
pub timestamp_of : ℕ → ℕ → Option ℕ
timestamp_of seconds nanoseconds =
    let product = seconds * 1000000000 in
    if ltb product (2 ^ 64) then checked (product + nanoseconds) else none

pub correction_of : List ℕ → ℤ
correction_of buf = div_65536 (i64 (from_be_bytes (slice 8 16 buf)))

-- What follows the checks of the length, the type and the nanoseconds.
pub follow_up_body : List ℕ → Option (ℕ × ℕ × ℤ)
unfolding timestamp_of correction_of
follow_up_body buf =
    let clock_id = from_be_bytes (slice 20 28 buf) in
    let correction_ns = correction_of buf in
    let seconds = from_be_bytes (slice 34 36 buf) * 2 ^ 32 + from_be_bytes (slice 36 40 buf) in
    let nanoseconds = from_be_bytes (slice 40 44 buf) in
    elim (timestamp_of seconds nanoseconds) [
      | none ↦ none
      | some timestamp_ns ↦ elim (checked_add_signed timestamp_ns correction_ns) [
        | none ↦ none
        | some adjusted ↦ some (clock_id, adjusted, correction_ns)
      ]
    ]

-- The clock's identity, the corrected time in nanoseconds, and the correction.
pub parse_follow_up : List ℕ → Option (ℕ × ℕ × ℤ)
unfolding message_type follow_up_body
parse_follow_up buf =
    if ltb (length buf) 54
    then none
    else if not (is_follow_up (message_type (get_or buf 0 0)))
    then none
    else if leb 1000000000 (from_be_bytes (slice 40 44 buf))
    then none
    else follow_up_body buf

pub parse_announce : List ℕ → Option ℕ
unfolding message_type
parse_announce buf =
    if ltb (length buf) 64
    then none
    else if not (is_announce (message_type (get_or buf 0 0)))
    then none
    else some (from_be_bytes (slice 20 28 buf))

pub record PtpClockInfo : Type 0 where
  pub master_clock_id : ℕ
  pub local_time : ℕ
  pub offset : ℕ
  pub mastership_start_time : ℕ

-- `PtpClock::new`, `update` and `master_time_now`, the latter at the local time `now`.
pub new_clock : PtpClockInfo
new_clock = record { master_clock_id = 0; local_time = 0; offset = 0; mastership_start_time = 0 }

pub update_clock : ℕ → ℕ → ℕ → ℕ → PtpClockInfo → PtpClockInfo
update_clock clock_id local_time offset mastership_start info = record {
  master_clock_id = clock_id;
  local_time = local_time;
  offset = offset;
  mastership_start_time = mastership_start;
}

pub master_time_now : ℕ → PtpClockInfo → Option ℕ
master_time_now now info =
    if info.master_clock_id == 0 then none else some ((now + info.offset) % 2 ^ 64)

pub record OffsetSmoother : Type 0 where
  pub previous_offset : ℕ
  pub previous_time : ℕ
  pub mastership_start : ℕ
  pub initialized : Bool

pub new_smoother : OffsetSmoother
new_smoother = record {
  previous_offset = 0;
  previous_time = 0;
  mastership_start = 0;
  initialized = false;
}

-- The new offset, from the previous one, the new sample and the time since the mastership began. The
-- words are 64-bit patterns whose arithmetic wraps; as an `i64`, a pattern from 2^63 on is negative.
pub smoothed : ℕ → ℕ → ℕ → ℕ
smoothed previous raw_offset mastership_time =
    let jitter = (raw_offset + 2 ^ 64 - previous) % 2 ^ 64 in
    let late = ltb 1000000000 mastership_time && ltb mastership_time (2 ^ 63) in
    let early = ltb mastership_time 1000000000 || leb (2 ^ 63) mastership_time in
    let clamped = min (2 ^ 64 - jitter) 2500000 in
    if leb (2 ^ 63) jitter
    then (if late then (previous + 2 ^ 64 - clamped / 256) % 2 ^ 64 else previous)
    else if early
    then (previous + jitter) % 2 ^ 64
    else (previous + jitter / 16) % 2 ^ 64

pub update : ℕ → ℕ → OffsetSmoother → ℕ × OffsetSmoother
unfolding smoothed
update raw_offset reception_time s =
    let offset = smoothed s.previous_offset raw_offset (reception_time - s.mastership_start) in
    if not s.initialized
    then (
      raw_offset,
      record {
        previous_offset = raw_offset;
        previous_time = reception_time;
        mastership_start = reception_time;
        initialized = true;
      },
    )
    else (offset, record s { previous_offset = offset; previous_time = reception_time })

pub reset : OffsetSmoother → OffsetSmoother
reset s = record s { initialized = false }
