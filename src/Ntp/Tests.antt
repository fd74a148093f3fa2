-- ===== src/Ntp/Tests.antt =====
-- raop/ntp.rs, examples: a request of the peer, and one of a stranger.
use shairplay_rust.Base.{ℕ, List, [], ◌∷◌, replicate, All, ◌≡◌, refl, length}
use shairplay_rust.Ntp.{SocketAddr, NtpTime, Event, received, timed_out, spawn_ntp_responder}
use shairplay_rust.Ntp.Peers.{IsAllowed, spawn_ntp_responder-IsAllowed}

abbrev peer : SocketAddr
peer = record { ip = 10 ∷ 0 ∷ 0 ∷ 7 ∷ []; port = 6002 }

abbrev stranger : SocketAddr
stranger = record { ip = 10 ∷ 0 ∷ 0 ∷ 8 ∷ []; port = 6002 }

abbrev now : NtpTime
now = record { secs = 1; frac = 2 }

abbrev request : List ℕ
request = 0x80 ∷ 0xd2 ∷ replicate 30 0

abbrev events : List (Event × NtpTime)
events = (received request stranger, now) ∷ (received request peer, now) ∷ (timed_out, now) ∷ []

spawn_ntp_responder-IsAllowed_example :
    All (IsAllowed peer) (spawn_ntp_responder peer (now, now, now) events)
spawn_ntp_responder-IsAllowed_example = spawn_ntp_responder-IsAllowed peer now now now events

-- Three requests, the answer to the peer, and one more request.
sent_packets : length (spawn_ntp_responder peer (now, now, now) events) ≡ 5
unfolding spawn_ntp_responder
sent_packets = refl
