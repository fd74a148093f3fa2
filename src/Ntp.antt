-- ===== src/Ntp.antt =====
-- raop/ntp.rs: the timing responder. The clock and the sockets are the runtime's: an event is what the
-- loop waits for, with the time that the clock shows then.
pub mod Peers
mod Tests
use shairplay_rust.Base.{
  ℕ, ◌+◌, ◌*◌, ◌/◌, ◌%◌, ◌^◌, Bool, true, false, not, ◌&&◌, ◌||◌, Option, none, some, List, [], ◌∷◌,
  ◌++◌, length, take, drop, set, get_or, replicate, ltb, leb, ◌==◌, if◌then◌else◌, bytes_eq,
}
use shairplay_rust.Base.Words.{u32_to_be_bytes}

abbrev pub ntp_unix_epoch_offset_secs : ℕ
ntp_unix_epoch_offset_secs = 0x83AA7E80

-- A socket address: the octets of the IP address, and the port.
pub record SocketAddr : Type 0 where
  pub ip : List ℕ
  pub port : ℕ

-- A time as NTP has it, in words of 32 bits.
pub record NtpTime : Type 0 where
  pub secs : ℕ
  pub frac : ℕ

-- The time of so many seconds and nanoseconds since 1970.
unfoldable pub ntp_now : ℕ → ℕ → NtpTime
ntp_now unix_secs nanos = record {
  secs = (unix_secs + ntp_unix_epoch_offset_secs) % 2 ^ 32;
  frac = nanos * 2 ^ 32 / 1000000000 % 2 ^ 32;
}

unfoldable pub put_ntp : List ℕ → ℕ → NtpTime → List ℕ
unfolding u32_to_be_bytes
put_ntp buf off now =
    take off buf ++ (u32_to_be_bytes now.secs ++ u32_to_be_bytes now.frac) ++ drop (off + 8) buf

unfoldable pub is_timing_request : List ℕ → Bool
is_timing_request buf = leb 32 (length buf) && (get_or buf 1 0 % 2 ^ 7 == 0x52)

unfoldable pub build_timing_request : NtpTime → List ℕ
unfolding put_ntp
build_timing_request now = put_ntp (0x80 ∷ 0xd2 ∷ 0x00 ∷ 0x07 ∷ replicate 28 0) 24 now

unfoldable pub build_timing_response : List ℕ → NtpTime → Option (List ℕ)
unfolding is_timing_request put_ntp
build_timing_response request now =
    let resp = set (take 32 request) 1 0xd3 in
    let echoed = take 8 resp ++ take 8 (drop 24 request) ++ drop 16 resp in
    if not (is_timing_request request) then none else some (put_ntp (put_ntp echoed 16 now) 24 now)

unfoldable pub sender_allowed : SocketAddr → SocketAddr → Bool
sender_allowed remote_timing sender = remote_timing.port == 0 || bytes_eq sender.ip remote_timing.ip

-- What ends a wait: the bytes of a datagram that fit the buffer, an error, or three seconds.
pub data Event : Type 0 where
  received : List ℕ → SocketAddr → Event
  receive_failed : Event
  timed_out : Event

-- A packet, and where it is sent.
abbrev pub Sent : Type 0
Sent = List ℕ × SocketAddr

abbrev to_sender : SocketAddr → Option (List ℕ) → List Sent
to_sender addr none = []
to_sender addr (some resp) = (resp, addr) ∷ []

-- The requests that keep the association alive.
unfoldable pub keepalive : SocketAddr → NtpTime → List Sent
unfolding build_timing_request
keepalive remote_timing now =
    if ltb 0 remote_timing.port then (build_timing_request now, remote_timing) ∷ [] else []

unfoldable pub answer : SocketAddr → NtpTime → List ℕ → SocketAddr → List Sent
unfolding build_timing_response sender_allowed is_timing_request
answer remote_timing now bytes addr =
    if is_timing_request bytes && sender_allowed remote_timing addr
    then to_sender addr (build_timing_response bytes now)
    else []

-- The loop over the events, which a failed receive ends.
unfoldable pub responder_loop : SocketAddr → List (Event × NtpTime) → List Sent
unfolding answer keepalive
responder_loop remote_timing [] = []
responder_loop remote_timing ((received bytes addr, now) ∷ events) =
    answer remote_timing now bytes addr ++ responder_loop remote_timing events
responder_loop remote_timing ((receive_failed, now) ∷ events) = []
responder_loop remote_timing ((timed_out, now) ∷ events) =
    keepalive remote_timing now ++ responder_loop remote_timing events

-- The task: three requests, at three times, and the loop.
unfoldable pub spawn_ntp_responder :
    SocketAddr → NtpTime × NtpTime × NtpTime → List (Event × NtpTime) → List Sent
unfolding responder_loop keepalive
spawn_ntp_responder remote_timing (t1, t2, t3) events =
    keepalive remote_timing t1
    ++ (keepalive remote_timing t2
        ++ (keepalive remote_timing t3 ++ responder_loop remote_timing events))
