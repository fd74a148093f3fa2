-- ===== src/Ptp/Messages.antt =====
-- net/ptp.rs: `parse_follow_up` against the layout of a Follow_Up message.
use shairplay_rust.Base.{
  ℕ, ◌+◌, ◌*◌, ◌%◌, ◌^◌, ◌≤◌, ◌<◌, false, some, List, ◌∷◌, ◌++◌, length, get_or, leb, ◌≡◌, refl, ap,
  ◌∙◌, arith, ge→ltb,
}
use shairplay_rust.Base.Words.{
  ℤ, i64, IsU16, IsU32, IsU64, from_be_bytes, u16_to_be_bytes, u32_to_be_bytes, u64_to_be_bytes,
  from_be-u16_to_be, from_be-u32_to_be, from_be-u64_to_be,
}
use shairplay_rust.Ptp.{
  message_type, follow_up, slice, div_65536, checked_add_signed, timestamp_of, correction_of,
  follow_up_body, parse_follow_up,
}

-- The fields of a Follow_Up message, in their order; `correction` is the 64-bit pattern.
pub record FollowUp : Type 0 where
  pub kind : ℕ
  pub version : ℕ
  pub message_length : ℕ
  pub domain : ℕ
  pub minor : ℕ
  pub flags : ℕ
  pub correction : ℕ
  pub specific : ℕ
  pub clock : ℕ
  pub port : ℕ
  pub sequence : ℕ
  pub control : ℕ
  pub interval : ℕ
  pub seconds_hi : ℕ
  pub seconds_lo : ℕ
  pub nanoseconds : ℕ

abbrev pub encode_follow_up : FollowUp → List ℕ → List ℕ
encode_follow_up f tail =
    f.kind
    ∷ f.version
    ∷ (u16_to_be_bytes f.message_length
        ++ (f.domain
            ∷ f.minor
            ∷ (u16_to_be_bytes f.flags
                ++ (u64_to_be_bytes f.correction
                    ++ (u32_to_be_bytes f.specific
                        ++ (u64_to_be_bytes f.clock
                            ++ (u16_to_be_bytes f.port
                                ++ (u16_to_be_bytes f.sequence
                                    ++ (f.control
                                        ∷ f.interval
                                        ∷ (u16_to_be_bytes f.seconds_hi
                                            ++ (u32_to_be_bytes f.seconds_lo
                                                ++ (u32_to_be_bytes f.nanoseconds
                                                    ++ tail))))))))))))

pub record IsFollowUp (f : FollowUp) : Type 0 where
  pub typed : f.kind % 16 ≡ 8
  pub correction_u64 : IsU64 f.correction
  pub clock_u64 : IsU64 f.clock
  pub hi_u16 : IsU16 f.seconds_hi
  pub lo_u32 : IsU32 f.seconds_lo
  pub below_second : f.nanoseconds < 1000000000

time_slice :
    (f : FollowUp) (tail : List ℕ)
    → from_be_bytes (slice 40 44 (encode_follow_up f tail))
      ≡ from_be_bytes (u32_to_be_bytes f.nanoseconds)
unfolding u16_to_be_bytes u32_to_be_bytes u64_to_be_bytes
time_slice f tail = refl

follow_up_body_with :
    (buf : List ℕ) (seconds nanoseconds t adjusted : ℕ) (correction : ℤ)
    → correction_of buf ≡ correction
    → from_be_bytes (slice 34 36 buf) * 2 ^ 32 + from_be_bytes (slice 36 40 buf) ≡ seconds
    → from_be_bytes (slice 40 44 buf) ≡ nanoseconds
    → timestamp_of seconds nanoseconds ≡ some t
    → checked_add_signed t correction ≡ some adjusted
    → follow_up_body buf ≡ some (from_be_bytes (slice 20 28 buf), adjusted, correction)
unfolding follow_up_body
follow_up_body_with buf seconds nanoseconds t adjusted correction e2 e3 e4 e5 e6 =
    rw (follow_up_body, e3, e4, e5, e2, e6)
      (ap (λ c. some (from_be_bytes (slice 20 28 buf), adjusted, c)) e2)

message_type-follow_up : (v : ℕ) → v % 16 ≡ 8 → message_type v ≡ follow_up
unfolding message_type
message_type-follow_up v h = rw h refl

parse_follow_up_with :
    (buf : List ℕ) (clock seconds nanoseconds t adjusted : ℕ) (correction : ℤ)
    → 54 ≤ length buf
    → get_or buf 0 0 % 16 ≡ 8
    → from_be_bytes (slice 20 28 buf) ≡ clock
    → correction_of buf ≡ correction
    → from_be_bytes (slice 34 36 buf) * 2 ^ 32 + from_be_bytes (slice 36 40 buf) ≡ seconds
    → from_be_bytes (slice 40 44 buf) ≡ nanoseconds
    → nanoseconds < 1000000000
    → timestamp_of seconds nanoseconds ≡ some t
    → checked_add_signed t correction ≡ some adjusted
    → parse_follow_up buf ≡ some (clock, adjusted, correction)
unfolding parse_follow_up
parse_follow_up_with buf clock seconds nanoseconds t adjusted correction long typed e1 e2 e3 e4
      below e5 e6 =
    rw
      (
        ge→ltb (length buf) 54 long,
        message_type-follow_up (get_or buf 0 0) typed,
        e4,
        gt→leb nanoseconds below,
      )
      (follow_up_body_with buf seconds nanoseconds t adjusted correction e2 e3 e4 e5 e6
        ∙ ap (λ c. some (c, adjusted, correction)) e1)
  where
    gt→leb : (n : ℕ) → n < 1000000000 → leb 1000000000 n ≡ false
    gt→leb n h = ground arith

timestamp_of_lem :
    (seconds nanoseconds : ℕ)
    → seconds * 1000000000 + nanoseconds < 2 ^ 64
    → timestamp_of seconds nanoseconds ≡ some (seconds * 1000000000 + nanoseconds)
unfolding timestamp_of
timestamp_of_lem seconds nanoseconds h = ground arith

-- A Follow_Up message of at least 54 bytes is read as its clock, its time in nanoseconds with the
-- correction added, and the correction, as long as the time and the corrected time fit in 64 bits.
pub parse-encode_follow_up :
    (f : FollowUp) (tail : List ℕ) (adjusted : ℕ)
    → IsFollowUp f
    → 10 ≤ length tail
    → let time = (f.seconds_hi * 2 ^ 32 + f.seconds_lo) * 1000000000 + f.nanoseconds in
      let correction = div_65536 (i64 f.correction) in
      time < 2 ^ 64
      → checked_add_signed time correction ≡ some adjusted
      → parse_follow_up (encode_follow_up f tail) ≡ some (f.clock, adjusted, correction)
unfolding u16_to_be_bytes u32_to_be_bytes u64_to_be_bytes correction_of
parse-encode_follow_up f tail adjusted v long fits e =
    parse_follow_up_with (encode_follow_up f tail) f.clock (f.seconds_hi * 2 ^ 32 + f.seconds_lo)
      f.nanoseconds ((f.seconds_hi * 2 ^ 32 + f.seconds_lo) * 1000000000 + f.nanoseconds) adjusted
      (div_65536 (i64 f.correction)) (omega arith) v.typed (from_be-u64_to_be f.clock v.clock_u64)
      (ap (λ w. div_65536 (i64 w)) (from_be-u64_to_be f.correction v.correction_u64))
      (rw (from_be-u16_to_be f.seconds_hi v.hi_u16, from_be-u32_to_be f.seconds_lo v.lo_u32) refl)
      (from_be-u32_to_be f.nanoseconds (omega (arith, v.below_second))) v.below_second
      (timestamp_of_lem (f.seconds_hi * 2 ^ 32 + f.seconds_lo) f.nanoseconds fits) e
