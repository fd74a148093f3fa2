-- ===== src/Rtp.antt =====
-- raop/rtp.rs: the receive loops of an AirPlay 1 session, over UDP and over TCP, around the packet
-- buffer. An event is what the loop waits for; the sockets, the lock and the resampler are left out.
pub mod Framing
pub mod Drain
pub mod Rounds
pub mod View
mod Tests
use shairplay_rust.Base.{
  ℕ, zero, suc, ◌+◌, ◌-◌, ◌*◌, ◌%◌, Bool, true, false, not, ◌&&◌, ◌||◌, Option, none, some, List,
  [], ◌∷◌, ◌++◌, length, take, drop, map, ltb, leb, ◌==◌, if◌then◌else◌, bytes_eq, get_or,
}
use shairplay_rust.Base.Words.{ℤ, pos, negsuc}
use shairplay_rust.RaopBuffer.Decode.{Backend}
use shairplay_rust.RaopBuffer.{RaopBuffer, queue, dequeue, flush, raop_packet_len}

-- `NO_FLUSH`, and the test for it.
abbrev pub no_flush : ℤ
no_flush = negsuc 41

abbrev pub is_no_flush : ℤ → Bool
is_no_flush (pos n) = false
is_no_flush (negsuc n) = n == 41

abbrev pub ctrl_payload_type : ℕ
ctrl_payload_type = 0x56

abbrev pub retransmit_header_len : ℕ
retransmit_header_len = 4

-- The octets of two addresses; the ports do not matter.
abbrev pub peer_ip_matches : List ℕ → List ℕ → Bool
peer_ip_matches expected sender = bytes_eq sender expected

-- What the session of the application is told.
pub data Played : Type 0 where
  audio_process : List ℤ → Played
  audio_flush : Played

-- The state that the loop and the handlers share, and what was played, in order.
pub record RtpLoop (D : Type 0) : Type 0 where
  pub buffer : RaopBuffer D
  pub flush_to : ℤ
  pub played : List Played

-- A packet with its sender's address, cut off by the socket at the length of a packet.
pub data UdpEvent : Type 0 where
  data_packet : List ℕ → List ℕ → UdpEvent
  ctrl_packet : List ℕ → List ℕ → UdpEvent

module _ {D : Type 0} where
  -- `while let Some(samples) = buf.dequeue(no_resend)`. The buffer holds 32 frames at most.
  unfoldable pub drain : ℕ → Bool → RaopBuffer D → List (List ℤ) × RaopBuffer D
  drain zero no_resend b = ([], b)
  drain (suc fuel) no_resend b =
      let (out, b') = dequeue no_resend b in
      elim out [
        | none ↦ ([], b')
        | some samples ↦ let (rest, last) = drain fuel no_resend b' in (samples ∷ rest, last)
      ]

  unfoldable pub play_due : Bool → RtpLoop D → RtpLoop D
  play_due no_resend s =
      let (frames, b) = drain 33 no_resend s.buffer in
      record s { buffer = b; played = s.played ++ map audio_process frames }

  -- The flush that a round of either loop begins with.
  unfoldable pub drain_flush : RtpLoop D → RtpLoop D
  drain_flush s = if is_no_flush s.flush_to then s else record s {
    buffer = flush s.flush_to s.buffer;
    flush_to = no_flush;
    played = s.played ++ (audio_flush ∷ []);
  }

  -- `RaopRtp::flush`
  abbrev pub request_flush : ℤ → RtpLoop D → RtpLoop D
  request_flush next_seq s = record s { flush_to = next_seq }

  module _ (k : Backend D) where
    abbrev pub queue_packet : Bool → List ℕ → RtpLoop D → RtpLoop D
    queue_packet use_seqnum packet s = record s { buffer = (queue k packet use_seqnum s.buffer).1 }

    -- A packet that the data socket or the control socket received.
    unfoldable pub on_packet : Bool → List ℕ → UdpEvent → RtpLoop D → RtpLoop D
    on_packet no_resend remote (data_packet packet sender) s =
        if peer_ip_matches remote sender && leb 12 (length packet)
        then play_due no_resend (queue_packet true packet s)
        else s
    on_packet no_resend remote (ctrl_packet packet sender) s =
        if peer_ip_matches remote sender
          && leb 12 (length packet)
          && get_or packet 1 0 % 128 == ctrl_payload_type
        then queue_packet true (drop retransmit_header_len packet) s
        else s

    unfoldable pub udp_round : Bool → List ℕ → UdpEvent → RtpLoop D → RtpLoop D
    udp_round no_resend remote event s = on_packet no_resend remote event (drain_flush s)

    -- A whole frame of the TCP connection.
    unfoldable pub serve_frame : List ℕ → RtpLoop D → RtpLoop D
    serve_frame packet s = play_due true (queue_packet false packet s)

-- What the loop over the frames leaves: bytes to be completed, or a connection to be closed.
pub data TcpRead (S : Type 0) : Type 0 where
  more : List ℕ → S → TcpRead S
  closed : S → TcpRead S
  -- no value of the code: the fuel ran out
  stuck : TcpRead S

module _ {S : Type 0} (serve : List ℕ → S → S) where
  -- `while packet_buf.len() >= 4`, with what is done with a frame as a parameter. A round takes a byte
  -- at least.
  unfoldable pub tcp_loop : ℕ → List ℕ → S → TcpRead S
  tcp_loop fuel [] s = more [] s
  tcp_loop fuel (a ∷ []) s = more (a ∷ []) s
  tcp_loop fuel (a ∷ b ∷ []) s = more (a ∷ b ∷ []) s
  tcp_loop fuel (a ∷ b ∷ hi ∷ []) s = more (a ∷ b ∷ hi ∷ []) s
  tcp_loop zero (a ∷ b ∷ hi ∷ lo ∷ rest) s = stuck
  tcp_loop (suc fuel) (a ∷ b ∷ hi ∷ lo ∷ rest) s =
      let rtp_len = hi * 256 + lo in
      let resync = tcp_loop fuel (b ∷ hi ∷ lo ∷ rest) s in
      let next = tcp_loop fuel (drop rtp_len rest) (serve (take rtp_len rest) s) in
      if not (a == 36) || not (b == 0)
      then resync
      else if ltb raop_packet_len rtp_len
      then closed s
      else if ltb (length rest) rtp_len
      then more (a ∷ b ∷ hi ∷ lo ∷ rest) s
      else next

  unfoldable pub read_frames : List ℕ → S → TcpRead S
  read_frames packet_buf s = tcp_loop (length packet_buf) packet_buf s

  -- A successful read of the connection: the bytes that were left, and the new ones.
  unfoldable pub read_chunk : List ℕ → List ℕ → S → TcpRead S
  read_chunk packet_buf chunk s =
      if ltb (raop_packet_len * 4) (length (packet_buf ++ chunk))
      then closed s
      else read_frames (packet_buf ++ chunk) s

-- A round of the TCP loop in which bytes were read.
unfoldable pub tcp_round :
    {D : Type 0} → Backend D → List ℕ → List ℕ → RtpLoop D → TcpRead (RtpLoop D)
tcp_round k packet_buf chunk s = read_chunk (serve_frame k) packet_buf chunk (drain_flush s)
