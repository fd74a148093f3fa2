-- ===== src/Ptp/Tests.antt =====
-- net/ptp.rs, examples: two samples of an offset, and a Follow_Up message of the second 1 and 5 nanoseconds.
use shairplay_rust.Base.{ℕ, true, some, List, [], ◌∷◌, ◌≡◌, refl, arith, replicate}
use shairplay_rust.Base.Words.{pos}
use shairplay_rust.Ptp.{OffsetSmoother, parse_follow_up}
use shairplay_rust.Ptp.Messages.{FollowUp, IsFollowUp, encode_follow_up, parse-encode_follow_up}

abbrev samples : List (ℕ × ℕ)
samples = (100, 0) ∷ (180, 5) ∷ []

abbrev started : OffsetSmoother
started = record {
  previous_offset = 120;
  previous_time = 0;
  mastership_start = 0;
  initialized = true;
}

abbrev message : FollowUp
message = record {
  kind = 24;
  version = 2;
  message_length = 54;
  domain = 0;
  minor = 0;
  flags = 0;
  correction = 131072;
  specific = 0;
  clock = 77;
  port = 1;
  sequence = 9;
  control = 0;
  interval = 0;
  seconds_hi = 0;
  seconds_lo = 1;
  nanoseconds = 5;
}

message-IsFollowUp : IsFollowUp message
message-IsFollowUp = record {
  typed = refl;
  correction_u64 = omega arith;
  clock_u64 = omega arith;
  hi_u16 = omega arith;
  lo_u32 = omega arith;
  below_second = omega arith;
}

parse-encode_follow_up_example :
    parse_follow_up (encode_follow_up message (replicate 10 0)) ≡ some (77, 1000000007, pos 2)
parse-encode_follow_up_example =
    parse-encode_follow_up message (replicate 10 0) 1000000007 message-IsFollowUp (omega arith)
      (omega arith) refl
