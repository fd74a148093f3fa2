-- ===== src/Rtp/Rounds.antt =====
-- raop/rtp.rs: the rounds of the UDP loop.
use shairplay_rust.Base.{
  ℕ, zero, suc, Bool, true, false, ◌&&◌, List, [], ◌∷◌, length, ◌==◌, ◌≡◌, refl, Bool-cases, inl,
  inr, All, drop, leb, get_or, ◌%◌,
}
use shairplay_rust.Base.Words.{IsByte}
use shairplay_rust.RaopBuffer.Decode.{Backend}
use shairplay_rust.RaopBuffer.Invariant.{IsWellFormed}
use shairplay_rust.RaopBuffer.Queue.{queue-IsWellFormed}
use shairplay_rust.RaopBuffer.Flush.{flush-IsWellFormed}
use shairplay_rust.Rtp.Drain.{play_due-IsWellFormed}
use shairplay_rust.Rtp.{
  RtpLoop, drain_flush, is_no_flush, UdpEvent, data_packet, ctrl_packet, on_packet, queue_packet,
  udp_round, peer_ip_matches, ctrl_payload_type,
}

All-drop : (n : ℕ) (xs : List ℕ) → All IsByte xs → All IsByte (drop n xs)
All-drop zero xs h = h
All-drop (suc n) [] h = tt
All-drop (suc n) (x ∷ xs) h = All-drop n xs h.1

-- The bytes and the sender of an event.
abbrev pub packet_of : UdpEvent → List ℕ
packet_of (data_packet packet sender) = packet
packet_of (ctrl_packet packet sender) = packet

abbrev pub sender_of : UdpEvent → List ℕ
sender_of (data_packet packet sender) = sender
sender_of (ctrl_packet packet sender) = sender

module _ {D : Type 0} where
  pub drain_flush-IsWellFormed :
      (s : RtpLoop D) → IsWellFormed s.buffer → IsWellFormed (drain_flush s).buffer
  unfolding drain_flush
  drain_flush-IsWellFormed s v = elim (Bool-cases (is_no_flush s.flush_to)) [
    | inl e ↦ rw (e, drain_flush) v
    | inr e ↦ rw (e, drain_flush) (flush-IsWellFormed s.flush_to s.buffer v)
  ]

  module _ (k : Backend D) where
    on_packet-IsWellFormed :
        (no_resend : Bool) (remote : List ℕ) (event : UdpEvent) (s : RtpLoop D)
        → All IsByte (packet_of event)
        → IsWellFormed s.buffer
        → IsWellFormed (on_packet k no_resend remote event s).buffer
    unfolding on_packet
    on_packet-IsWellFormed no_resend remote (data_packet packet sender) s h v =
        elim (Bool-cases (peer_ip_matches remote sender && leb 12 (length packet))) [
          | inl e ↦
              rw (e, on_packet)
                (play_due-IsWellFormed no_resend (queue_packet k true packet s)
                  (queue-IsWellFormed k packet true s.buffer h v))
          | inr e ↦ rw (e, on_packet) v
        ]
    on_packet-IsWellFormed no_resend remote (ctrl_packet packet sender) s h v =
        elim (Bool-cases (
          peer_ip_matches remote sender
          && leb 12 (length packet)
          && get_or packet 1 0 % 128 == ctrl_payload_type)) [
            | inl e ↦
                rw (e, on_packet)
                  (queue-IsWellFormed k (drop 4 packet) true s.buffer (All-drop 4 packet h) v)
            | inr e ↦ rw (e, on_packet) v
          ]

    -- A round of the UDP loop keeps the packet buffer well formed, whatever arrives and whatever flush
    -- was asked for.
    pub udp_round-IsWellFormed :
        (no_resend : Bool) (remote : List ℕ) (event : UdpEvent) (s : RtpLoop D)
        → All IsByte (packet_of event)
        → IsWellFormed s.buffer
        → IsWellFormed (udp_round k no_resend remote event s).buffer
    unfolding udp_round
    udp_round-IsWellFormed no_resend remote event s h v =
        on_packet-IsWellFormed no_resend remote event (drain_flush s) h
          (drain_flush-IsWellFormed s v)

    -- A packet from another address than the peer's changes nothing, on either socket: the round only
    -- does the flush that was asked for.
    pub udp_round-drain_flush :
        (no_resend : Bool) (remote : List ℕ) (event : UdpEvent) (s : RtpLoop D)
        → peer_ip_matches remote (sender_of event) ≡ false
        → udp_round k no_resend remote event s ≡ drain_flush s
    unfolding udp_round on_packet
    udp_round-drain_flush no_resend remote (data_packet packet sender) s h = rw (h, on_packet) refl
    udp_round-drain_flush no_resend remote (ctrl_packet packet sender) s h = rw (h, on_packet) refl
