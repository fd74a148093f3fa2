-- ===== src/Rtp/Tests.antt =====
-- raop/rtp.rs, examples: one PCM channel, a packet from the peer, and two frames of a TCP connection.
use shairplay_rust.Base.{ℕ, true, false, none, some, List, [], ◌∷◌, ◌++◌, All, ◌≡◌, refl, arith}
use shairplay_rust.Base.Words.{IsByte, pos}
use shairplay_rust.RaopBuffer.{RaopBuffer, queue, dequeue}
use shairplay_rust.RaopBuffer.Decode.{pcm, Backend}
use shairplay_rust.RaopBuffer.Build.{fresh}
use shairplay_rust.RaopBuffer.Invariant.{IsWellFormed}
use shairplay_rust.RaopBuffer.Fresh.{fresh-IsWellFormed}
use shairplay_rust.RaopBuffer.Queue.{queue-IsWellFormed}
use shairplay_rust.RaopBuffer.Contents.{contents}
use shairplay_rust.RaopBuffer.Pop.{silence_of}
use shairplay_rust.Rtp.{
  RtpLoop, drain, udp_round, data_packet, ctrl_packet, drain_flush, is_no_flush, read_frames,
  tcp_loop, more,
}
use shairplay_rust.Rtp.Framing.{continue, frames, serve_all, read_frames-append, read_frames-frames}
use shairplay_rust.Rtp.Drain.{pop_all, drain_refines, dequeue-drain}
use shairplay_rust.Rtp.View.{view, brings, flushed_view, packet_view, udp_round_refines}

abbrev toy : Backend (Unit {0})
toy = record {
  aes_cbc_decrypt = λ key iv blocks. blocks;
  new_decoder = λ depth channels. tt;
  set_info = λ decoder info. tt;
  decode_frame = λ decoder packet n. (0, [], tt);
}

abbrev empty_buffer : RaopBuffer (Unit {0})
empty_buffer = fresh none (pcm (record { num_channels = 1; sample_rate = 8000 })) 4 4

empty_buffer-IsWellFormed : IsWellFormed empty_buffer
empty_buffer-IsWellFormed =
    fresh-IsWellFormed none (pcm (record { num_channels = 1; sample_rate = 8000 })) 4 4

abbrev packet : List ℕ
packet = 128 ∷ 96 ∷ 0 ∷ 7 ∷ 0 ∷ 0 ∷ 0 ∷ 1 ∷ 0 ∷ 0 ∷ 0 ∷ 2 ∷ 1 ∷ 2 ∷ []

packet-IsByte : All IsByte packet
packet-IsByte = ground arith

abbrev one_packet : RaopBuffer (Unit {0})
one_packet = (queue toy packet true empty_buffer).1

one_packet-IsWellFormed : IsWellFormed one_packet
one_packet-IsWellFormed =
    queue-IsWellFormed toy packet true empty_buffer packet-IsByte empty_buffer-IsWellFormed

drain_refines_example :
    ((drain 33 false one_packet).0, contents (drain 33 false one_packet).1)
    ≡ pop_all false (silence_of one_packet) (contents one_packet)
drain_refines_example = drain_refines false one_packet one_packet-IsWellFormed

dequeue-drain_example : (dequeue false (drain 33 false one_packet).1).0 ≡ none
dequeue-drain_example = dequeue-drain false one_packet one_packet-IsWellFormed

abbrev start : RtpLoop (Unit {0})
start = record { buffer = empty_buffer; flush_to = pos 7; played = [] }

abbrev peer : List ℕ
peer = 10 ∷ 0 ∷ 0 ∷ 7 ∷ []

abbrev after_round : RtpLoop (Unit {0})
after_round = udp_round toy false peer (data_packet packet peer) start

udp_round_refines_example :
    (view after_round
      ≡ packet_view toy false
          (brings peer (data_packet packet peer))
          (drain_flush start).buffer
          (flushed_view start))
    × (is_no_flush after_round.flush_to ≡ true)
    × IsWellFormed after_round.buffer
udp_round_refines_example =
    udp_round_refines toy false peer (data_packet packet peer) start packet-IsByte
      empty_buffer-IsWellFormed

-- What is sent again stands behind four bytes.
again_brings : brings peer (ctrl_packet (128 ∷ 0xd6 ∷ 0 ∷ 1 ∷ packet) peer) ≡ some (false, packet)
unfolding brings
again_brings = refl

-- The frames are collected, the newest first.
abbrev collect : List ℕ → List (List ℕ) → List (List ℕ)
collect packet packets = packet ∷ packets

abbrev packets : List (List ℕ)
packets = (1 ∷ 2 ∷ []) ∷ (3 ∷ []) ∷ []

read_frames-append_example :
    read_frames collect ((36 ∷ 0 ∷ 0 ∷ []) ++ (1 ∷ 9 ∷ 36 ∷ [])) []
    ≡ continue collect (read_frames collect (36 ∷ 0 ∷ 0 ∷ []) []) (1 ∷ 9 ∷ 36 ∷ [])
read_frames-append_example = read_frames-append collect (36 ∷ 0 ∷ 0 ∷ []) (1 ∷ 9 ∷ 36 ∷ []) []

read_frames-frames_example :
    read_frames collect (frames packets ++ (36 ∷ 0 ∷ [])) []
    ≡ read_frames collect (36 ∷ 0 ∷ []) (serve_all collect packets [])
read_frames-frames_example = read_frames-frames collect packets (36 ∷ 0 ∷ []) [] (omega arith)

-- A byte that starts no frame is skipped.
resynchronized : read_frames collect (7 ∷ 36 ∷ 0 ∷ 0 ∷ 1 ∷ 9 ∷ []) [] ≡ more [] ((9 ∷ []) ∷ [])
unfolding read_frames tcp_loop
resynchronized = refl
