-- ===== src/RaopBuffer/Tests.antt =====
-- raop/buffer.rs: examples on a buffer of one PCM channel whose slots hold four samples, and a packet of one sample.
use shairplay_rust.Base.{ℕ, true, none, some, List, [], ◌∷◌, All, ◌≡◌, refl, arith}
use shairplay_rust.Base.Words.{IsByte}
use shairplay_rust.RaopBuffer.{RaopBuffer, queue, dequeue, packet_seqnum}
use shairplay_rust.RaopBuffer.Format.{parse_codec}
use shairplay_rust.RaopBuffer.Decode.{Codec, pcm, Backend}
use shairplay_rust.RaopBuffer.Build.{fresh, build}
use shairplay_rust.RaopBuffer.Invariant.{IsWellFormed, offset}
use shairplay_rust.RaopBuffer.Fresh.{fresh-IsWellFormed}
use shairplay_rust.RaopBuffer.Dequeue.{dequeue-IsWellFormed}
use shairplay_rust.RaopBuffer.Queue.{queue-IsWellFormed, outcome_of}
use shairplay_rust.RaopBuffer.Contents.{contents, pop, offer}
use shairplay_rust.RaopBuffer.Pop.{dequeue_refines, silence_of}
use shairplay_rust.RaopBuffer.Offer.{queue_refines}
use shairplay_rust.RaopBuffer.Answer.{answer, seen}
use shairplay_rust.Base.Text.{codes, split, split_whitespace, parse_unsigned, eq_ignore_ascii_case}

abbrev toy : Backend (Unit {0})
toy = record {
  aes_cbc_decrypt = λ key iv blocks. blocks;
  new_decoder = λ depth channels. tt;
  set_info = λ decoder info. tt;
  decode_frame = λ decoder packet n. (0, [], tt);
}

abbrev mono : Codec (Unit {0})
mono = pcm (record { num_channels = 1; sample_rate = 8000 })

abbrev empty_buffer : RaopBuffer (Unit {0})
empty_buffer = fresh none mono 4 4

abbrev packet : List ℕ
packet = 128 ∷ 96 ∷ 0 ∷ 7 ∷ 0 ∷ 0 ∷ 0 ∷ 1 ∷ 0 ∷ 0 ∷ 0 ∷ 2 ∷ 1 ∷ 2 ∷ []

packet-IsByte : All IsByte packet
packet-IsByte = ground arith

empty_buffer-IsWellFormed : IsWellFormed empty_buffer
empty_buffer-IsWellFormed = fresh-IsWellFormed none mono 4 4

abbrev built : RaopBuffer (Unit {0})
built = fresh none mono 16378 352

built_lem : build toy (codes "96 L16/8000/1") [] none ≡ some built
unfolding build parse_codec split_whitespace parse_unsigned eq_ignore_ascii_case split
built_lem = refl

abbrev one_packet : RaopBuffer (Unit {0})
one_packet = (queue toy packet true empty_buffer).1

one_packet-IsWellFormed : IsWellFormed one_packet
one_packet-IsWellFormed =
    queue-IsWellFormed toy packet true empty_buffer packet-IsByte empty_buffer-IsWellFormed

queue-IsWellFormed_example : IsWellFormed (queue toy packet true one_packet).1
queue-IsWellFormed_example =
    queue-IsWellFormed toy packet true one_packet packet-IsByte one_packet-IsWellFormed

dequeue-IsWellFormed_example : IsWellFormed (dequeue true one_packet).1
dequeue-IsWellFormed_example = dequeue-IsWellFormed true one_packet one_packet-IsWellFormed

dequeue_refines_example :
    ((dequeue true one_packet).0, contents (dequeue true one_packet).1)
    ≡ pop true (silence_of one_packet) (contents one_packet)
dequeue_refines_example = dequeue_refines true one_packet one_packet-IsWellFormed

queue_refines_example :
    seen (queue toy packet true empty_buffer)
    ≡ offer empty_buffer.is_empty
        (offset empty_buffer (packet_seqnum empty_buffer packet true))
        (answer (outcome_of toy empty_buffer packet (packet_seqnum empty_buffer packet true)))
        (contents empty_buffer)
queue_refines_example =
    queue_refines toy packet true empty_buffer packet-IsByte empty_buffer-IsWellFormed refl
