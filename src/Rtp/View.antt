-- ===== src/Rtp/View.antt =====
-- raop/rtp.rs: the rounds of the UDP loop, against the abstract view of the packet buffer.
use shairplay_rust.Base.{
  ℕ, suc, ◌%◌, ◌≤◌, ◌^◌, Bool, true, false, ◌&&◌, Option, none, some, List, [], ◌∷◌, ◌++◌, length,
  map, ltb, leb, ◌==◌, if◌then◌else◌, bytes_eq, ◌≡◌, refl, ap, ◌∙◌, arith, All, Bool-cases, inl,
  inr, get_or,
}
use shairplay_rust.Base.Words.{ℤ, pos, negsuc, IsByte}
use shairplay_rust.RaopBuffer.{RaopBuffer, flush, queue, packet_seqnum}
use shairplay_rust.RaopBuffer.Decode.{Backend}
use shairplay_rust.RaopBuffer.Invariant.{IsWellFormed, offset}
use shairplay_rust.RaopBuffer.Widen.{bad_length}
use shairplay_rust.RaopBuffer.Contents.{Frames, contents, offer}
use shairplay_rust.RaopBuffer.Stored.{contents_empty}
use shairplay_rust.RaopBuffer.Restart.{restarted-contents, flush-restarted}
use shairplay_rust.RaopBuffer.Answer.{answer}
use shairplay_rust.RaopBuffer.Queue.{outcome_of, queue-IsWellFormed}
use shairplay_rust.RaopBuffer.Offer.{queue_refines}
use shairplay_rust.RaopBuffer.Pop.{silence_of}
use shairplay_rust.Rtp.Drain.{pop_all, drain_refines}
use shairplay_rust.Rtp.{
  RtpLoop, Played, audio_process, audio_flush, is_no_flush, drain_flush, play_due, UdpEvent,
  data_packet, ctrl_packet, on_packet, queue_packet, udp_round, peer_ip_matches, ctrl_payload_type,
}
use shairplay_rust.Rtp.Rounds.{packet_of, drain_flush-IsWellFormed, udp_round-IsWellFormed}

-- The RTP packet that an event brings, and whether the frames that are due are played then. It has 12
-- bytes at least and comes from the peer; one that was sent again is of the type 0x56 and stands behind
-- four bytes.
unfoldable pub brings : List ℕ → UdpEvent → Option (Bool × List ℕ)
brings remote (data_packet packet sender) =
    if bytes_eq sender remote && leb 12 (length packet) then some (true, packet) else none
brings remote (ctrl_packet [] sender) = none
brings remote (ctrl_packet (a ∷ []) sender) = none
brings remote (ctrl_packet (a ∷ b ∷ []) sender) = none
brings remote (ctrl_packet (a ∷ b ∷ c ∷ []) sender) = none
brings remote (ctrl_packet (a ∷ b ∷ c ∷ d ∷ packet) sender) =
    if bytes_eq sender remote && leb 8 (length packet) && b % 128 == 0x56
    then some (false, packet)
    else none

leb-add_4 : (n : ℕ) → leb 12 (suc (suc (suc (suc n)))) ≡ leb 8 n
leb-add_4 n = ground arith

module _ {D : Type 0} where
  -- What the loop means: the frames of the buffer, and what was played.
  abbrev pub view : RtpLoop D → Frames × List Played
  view s = (contents s.buffer, s.played)

  -- A flush that was asked for empties the view.
  unfoldable pub flushed_view : RtpLoop D → Frames × List Played
  flushed_view s = if is_no_flush s.flush_to then view s else ([], s.played ++ (audio_flush ∷ []))

  contents-flush : (n : ℤ) (b : RaopBuffer D) → contents (flush n b) ≡ []
  unfolding flush
  contents-flush (negsuc n) b = contents_empty (flush (negsuc n) b) refl
  contents-flush (pos n) b = elim (Bool-cases (ltb n (2 ^ 16))) [
    | inl e ↦
        ap contents (flush-restarted b n (ground arith)) ∙ restarted-contents b n (ground arith)
    | inr e ↦ rw (e, flush) (contents_empty (flush (negsuc n) b) refl)
  ]

  drain_flush-flushed_view : (s : RtpLoop D) → view (drain_flush s) ≡ flushed_view s
  unfolding drain_flush flushed_view
  drain_flush-flushed_view s = elim (Bool-cases (is_no_flush s.flush_to)) [
    | inl e ↦ rw (e, drain_flush) refl
    | inr e ↦
        rw (e, drain_flush)
          (ap (λ f. (f, s.played ++ (audio_flush ∷ []))) (contents-flush s.flush_to s.buffer))
  ]

  drain_flush-flush_to : (s : RtpLoop D) → is_no_flush (drain_flush s).flush_to ≡ true
  unfolding drain_flush
  drain_flush-flush_to s = elim (Bool-cases (is_no_flush s.flush_to)) [
    | inl e ↦ rw (e, drain_flush) e
    | inr e ↦ rw (e, drain_flush) refl
  ]

  -- The frames that are due are played.
  unfoldable pub played_view : Bool → RaopBuffer D → Frames × List Played → Frames × List Played
  played_view no_resend b (frames, played) =
      let (out, left) = pop_all no_resend (silence_of b) frames in
      (left, played ++ map audio_process out)

  play_due-played_view :
      (no_resend : Bool) (s : RtpLoop D)
      → IsWellFormed s.buffer
      → view (play_due no_resend s) ≡ played_view no_resend s.buffer (view s)
  unfolding play_due played_view
  play_due-played_view no_resend s v =
      ap (λ p. (p.1, s.played ++ map audio_process p.0)) (drain_refines no_resend s.buffer v)

  module _ (k : Backend D) where
    -- A packet of a good length is offered to the frames, at its distance and with what it decodes to.
    unfoldable pub offered : List ℕ → RaopBuffer D → Frames → Frames
    offered packet b frames =
        let seqnum = packet_seqnum b packet true in
        if bad_length packet
        then frames
        else (offer b.is_empty (offset b seqnum) (answer (outcome_of k b packet seqnum)) frames).1

    queue-bad_length :
        (packet : List ℕ) (b : RaopBuffer D)
        → bad_length packet ≡ true
        → queue k packet true b ≡ (negsuc 0, b)
    unfolding queue
    queue-bad_length packet b e = rw (e, queue) refl

    queue-offered :
        (packet : List ℕ) (b : RaopBuffer D)
        → All IsByte packet
        → IsWellFormed b
        → contents (queue k packet true b).1 ≡ offered packet b (contents b)
    unfolding offered
    queue-offered packet b h v = elim (Bool-cases (bad_length packet)) [
      | inl e ↦ rw e (ap (λ r. contents r.1) (queue-bad_length packet b e))
      | inr e ↦ rw e (ap (λ p. p.1) (queue_refines k packet true b h v e))
    ]

    -- What a packet does, on a buffer with the given frames.
    unfoldable pub packet_view :
        Bool → Option (Bool × List ℕ) → RaopBuffer D → Frames × List Played → Frames × List Played
    packet_view no_resend none b (frames, played) = (frames, played)
    packet_view no_resend (some (false, packet)) b (frames, played) =
        (offered packet b frames, played)
    packet_view no_resend (some (true, packet)) b (frames, played) =
        played_view no_resend (queue k packet true b).1 (offered packet b frames, played)

    ctrl_short :
        (no_resend : Bool) (remote packet sender : List ℕ) (s : RtpLoop D)
        → length packet ≤ 3
        → on_packet k no_resend remote (ctrl_packet packet sender) s ≡ s
    unfolding on_packet
    ctrl_short no_resend remote packet sender s h =
        elim (Bool-cases (
          peer_ip_matches remote sender
          && leb 12 (length packet)
          && get_or packet 1 0 % 128 == ctrl_payload_type)) [
            | inl e ↦ absurd (ground arith)
            | inr e ↦ rw (e, on_packet) refl
          ]

    on_packet-packet_view :
        (no_resend : Bool) (remote : List ℕ) (event : UdpEvent) (s : RtpLoop D)
        → All IsByte (packet_of event)
        → IsWellFormed s.buffer
        → view (on_packet k no_resend remote event s)
          ≡ packet_view no_resend (brings remote event) s.buffer (view s)
    unfolding on_packet packet_view brings
    on_packet-packet_view no_resend remote (data_packet packet sender) s h v =
        elim (Bool-cases (peer_ip_matches remote sender && leb 12 (length packet))) [
          | inl e ↦
              rw (e, on_packet)
                (play_due-played_view no_resend (queue_packet k true packet s)
                    (queue-IsWellFormed k packet true s.buffer h v)
                  ∙ ap
                      (λ frames.
                        played_view no_resend (queue k packet true s.buffer).1 (frames, s.played))
                      (queue-offered packet s.buffer h v))
          | inr e ↦ rw (e, on_packet) refl
        ]
    on_packet-packet_view no_resend remote (ctrl_packet [] sender) s h v =
        ap view (ctrl_short no_resend remote [] sender s (omega arith))
    on_packet-packet_view no_resend remote (ctrl_packet (a ∷ []) sender) s h v =
        ap view (ctrl_short no_resend remote (a ∷ []) sender s (omega arith))
    on_packet-packet_view no_resend remote (ctrl_packet (a ∷ b ∷ []) sender) s h v =
        ap view (ctrl_short no_resend remote (a ∷ b ∷ []) sender s (omega arith))
    on_packet-packet_view no_resend remote (ctrl_packet (a ∷ b ∷ c ∷ []) sender) s h v =
        ap view (ctrl_short no_resend remote (a ∷ b ∷ c ∷ []) sender s (omega arith))
    on_packet-packet_view no_resend remote (ctrl_packet (a ∷ b ∷ c ∷ d ∷ packet) sender) s h v =
        elim (Bool-cases
          (peer_ip_matches remote sender && leb 8 (length packet) && b % 128 == 0x56)) [
            | inl e ↦
                rw (leb-add_4 (length packet), e, on_packet)
                  (ap (λ frames. (frames, s.played)) (queue-offered packet s.buffer h.1.1.1.1 v))
            | inr e ↦ rw (leb-add_4 (length packet), e, on_packet) refl
          ]

    on_packet-flush_to :
        (no_resend : Bool) (remote : List ℕ) (event : UdpEvent) (s : RtpLoop D)
        → (on_packet k no_resend remote event s).flush_to ≡ s.flush_to
    unfolding on_packet play_due
    on_packet-flush_to no_resend remote (data_packet packet sender) s =
        elim (Bool-cases (peer_ip_matches remote sender && leb 12 (length packet))) [
          | inl e ↦ rw (e, on_packet) refl
          | inr e ↦ rw (e, on_packet) refl
        ]
    on_packet-flush_to no_resend remote (ctrl_packet packet sender) s =
        elim (Bool-cases (
          peer_ip_matches remote sender
          && leb 12 (length packet)
          && get_or packet 1 0 % 128 == ctrl_payload_type)) [
            | inl e ↦ rw (e, on_packet) refl
            | inr e ↦ rw (e, on_packet) refl
          ]

    -- A round of the UDP loop on a well-formed buffer first does the flush that was asked for, which
    -- leaves no frames and is then asked for no more. Then it offers the packet of the event, if it
    -- brings one, to the frames; a packet of the data socket also has the frames played that are due.
    -- An event that brings no packet does nothing. The buffer is well formed behind it.
    pub udp_round_refines :
        (no_resend : Bool) (remote : List ℕ) (event : UdpEvent) (s : RtpLoop D)
        → All IsByte (packet_of event)
        → IsWellFormed s.buffer
        → let s' = udp_round k no_resend remote event s in
          (view s'
            ≡ packet_view no_resend (brings remote event) (drain_flush s).buffer (flushed_view s))
          × (is_no_flush s'.flush_to ≡ true)
          × IsWellFormed s'.buffer
    unfolding udp_round
    udp_round_refines no_resend remote event s h v =
        let v1 = drain_flush-IsWellFormed s v in
        (
          on_packet-packet_view no_resend remote event (drain_flush s) h v1
              ∙ ap (packet_view no_resend (brings remote event) (drain_flush s).buffer)
                  (drain_flush-flushed_view s),
          ap is_no_flush (on_packet-flush_to no_resend remote event (drain_flush s))
              ∙ drain_flush-flush_to s,
          udp_round-IsWellFormed k no_resend remote event s h v,
        )
