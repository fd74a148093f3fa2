-- ===== src/Alac/Frame.antt =====
-- codec/alac.rs: the decoding of a frame.
pub mod Bounds
use shairplay_rust.Base.{
  ℕ, zero, suc, ◌+◌, ◌-◌, ◌*◌, ◌/◌, ◌%◌, ◌^◌, Bool, true, false, not, ◌&&◌, ◌||◌, Option, none,
  some, List, [], ◌∷◌, ◌++◌, length, take, drop, replicate, ◌>>=◌, ltb, leb, ◌==◌, if◌then◌else◌,
}
use shairplay_rust.Base.Words.{ℤ, i16, i32}
use shairplay_rust.Alac.{AlacDecoder}
use shairplay_rust.Alac.Reader.{BitReader, new_reader, readbits, sign_extend_24}
use shairplay_rust.Alac.Subframe.{
  SubframeHeader, parse_subframe_header, read_predictor_header, read_values, decode_channel,
  read_mono, read_stereo,
}
use shairplay_rust.Alac.Rice.{write_at}
use shairplay_rust.Alac.Output.{Read, emit, mono_bytes, stereo_bytes}

-- `buffer[..n]` set to the values.
abbrev store_values : List ℕ → List ℕ → Option (List ℕ)
store_values values buffer =
    if leb (length values) (length buffer)
    then some (values ++ drop (length values) buffer)
    else none

-- The low bytes of the samples, one channel.
low_mono : SubframeHeader → AlacDecoder → BitReader → Option (AlacDecoder × BitReader)
unfolding read_values
low_mono h d r =
    let (values, r1) = read_values h.output_samples r (h.uncompressed_bytes * 8) in
    if ltb 0 h.uncompressed_bytes
    then (store_values values d.uncompressed_bytes_buffer_a >>= λ a.
        some (record d { uncompressed_bytes_buffer_a = a }, r1))
    else some (d, r)

-- The low bytes of `count` pairs from the one at `i` on.
low_pairs : ℕ → ℕ → ℕ → BitReader → List ℕ → List ℕ → Option (List ℕ × List ℕ × BitReader)
unfolding readbits
low_pairs zero i bits r a b = some (a, b, r)
low_pairs (suc count) i bits r a b =
    let (v, r1) = readbits r bits in
    let (w, r2) = readbits r1 bits in
    write_at a i v >>= λ a1. write_at b i w >>= λ b1. low_pairs count (suc i) bits r2 a1 b1

low_stereo : SubframeHeader → AlacDecoder → BitReader → Option (AlacDecoder × BitReader)
unfolding low_pairs
low_stereo h d r =
    if ltb 0 h.uncompressed_bytes
    then (low_pairs h.output_samples 0 (h.uncompressed_bytes * 8) r d.uncompressed_bytes_buffer_a
          d.uncompressed_bytes_buffer_b
        >>= λ low. some (
          record d { uncompressed_bytes_buffer_a = low.0; uncompressed_bytes_buffer_b = low.1 },
          low.2,
        ))
    else some (d, r)

compressed_mono : SubframeHeader → AlacDecoder → BitReader → Option Read
unfolding readbits read_predictor_header low_mono decode_channel
compressed_mono h d r =
    let (hdr, r1) = read_predictor_header (readbits (readbits r 8).1 8).1 in
    let readsamplesize = d.sample_size_config - h.uncompressed_bytes * 8 in
    low_mono h d r1 >>= λ low.
    decode_channel low.0 low.1 low.0.predicterror_buffer_a low.0.outputsamples_buffer_a
      h.output_samples readsamplesize hdr
    >>= λ channel. some (record {
      decoder = record (low.0) {
        predicterror_buffer_a = channel.0;
        outputsamples_buffer_a = channel.1;
      };
      shift = 0;
      leftweight = 0;
    })

compressed_stereo : SubframeHeader → AlacDecoder → BitReader → Option Read
unfolding readbits read_predictor_header low_stereo decode_channel
compressed_stereo h d r =
    let (shift, r1) = readbits r 8 in
    let (leftweight, r2) = readbits r1 8 in
    let (hdr_a, r3) = read_predictor_header r2 in
    let (hdr_b, r4) = read_predictor_header r3 in
    let readsamplesize = d.sample_size_config - h.uncompressed_bytes * 8 + 1 in
    low_stereo h d r4 >>= λ low.
    decode_channel low.0 low.1 low.0.predicterror_buffer_a low.0.outputsamples_buffer_a
      h.output_samples readsamplesize hdr_a
    >>= λ a.
        decode_channel low.0 a.2 low.0.predicterror_buffer_b low.0.outputsamples_buffer_b
          h.output_samples readsamplesize hdr_b
        >>= λ b. some (record {
          decoder = record (low.0) {
            predicterror_buffer_a = a.0;
            outputsamples_buffer_a = a.1;
            predicterror_buffer_b = b.0;
            outputsamples_buffer_b = b.1;
          };
          shift = shift;
          leftweight = leftweight;
        })

-- The samples of a frame into the decoder's buffers.
mono_samples : SubframeHeader → AlacDecoder → BitReader → Option Read
unfolding compressed_mono read_mono
mono_samples h d r =
    if h.is_not_compressed == 0
    then compressed_mono h d r
    else (read_mono h.output_samples 0 d.sample_size_config r d.outputsamples_buffer_a >>= λ c.
        some (record {
          decoder = record d { outputsamples_buffer_a = c.0 };
          shift = 0;
          leftweight = 0;
        }))

stereo_samples : SubframeHeader → AlacDecoder → BitReader → Option Read
unfolding compressed_stereo read_stereo
stereo_samples h d r =
    if h.is_not_compressed == 0
    then compressed_stereo h d r
    else (read_stereo h.output_samples 0 d.sample_size_config r d.outputsamples_buffer_a
          d.outputsamples_buffer_b
        >>= λ c. some (record {
          decoder = record d { outputsamples_buffer_a = c.0; outputsamples_buffer_b = c.1 };
          shift = 0;
          leftweight = 0;
        }))

-- What a frame gives: the size to report, the output, and the decoder.
pub record DecodedFrame : Type 0 where
  pub size : ℕ
  pub output : List ℕ
  pub decoder : AlacDecoder

-- A frame whose header was read, from its samples and their bytes; a size that is refused is zero.
decode_element :
    (SubframeHeader → AlacDecoder → BitReader → Option Read)
    → (Read → SubframeHeader → ℕ → Option (List ℕ))
    → SubframeHeader
    → AlacDecoder
    → BitReader
    → List ℕ
    → Option DecodedFrame
unfolding emit
decode_element samples bytes_of h d r output =
    if ltb d.max_samples_per_frame h.output_samples || ltb (length output) h.output_size
    then some (record { size = 0; output = output; decoder = d })
    else if h.output_samples == 0
    then some (record { size = 0; output = output; decoder = d })
    else if ltb d.sample_size_config (h.uncompressed_bytes * 8)
    then some (record { size = 0; output = output; decoder = d })
    else (samples h d r >>= λ c.
        if d.sample_size_config == 16 || d.sample_size_config == 24
        then (emit h.output_samples 0 (d.num_channels * (d.sample_size_config / 8)) (bytes_of c h)
              output
            >>= λ output1.
                some (record { size = h.output_size; output = output1; decoder = c.decoder }))
        else some (record { size = 0; output = output; decoder = c.decoder }))

unfoldable pub decode_frame : AlacDecoder → List ℕ → List ℕ → Option DecodedFrame
unfolding new_reader readbits parse_subframe_header decode_element mono_samples stereo_samples
    mono_bytes stereo_bytes
decode_frame d input output =
    let refused : DecodedFrame = record { size = 0; output = output; decoder = d } in
    let output_samples = d.max_samples_per_frame in
    let output_size = output_samples * d.bytes_per_sample in
    let (channels, r) = readbits (new_reader input) 3 in
    let (h, r1) = parse_subframe_header r output_samples output_size d.bytes_per_sample in
    if d.max_samples_per_frame == 0 || d.bytes_per_sample == 0
    then some refused
    else if ltb (length output) output_size
    then some refused
    else if channels == 0
    then (if not (d.num_channels == 1)
        then some refused
        else decode_element mono_samples mono_bytes h d r1 output)
    else if channels == 1
    then (if not (d.num_channels == 2)
        then some refused
        else decode_element stereo_samples stereo_bytes h d r1 output)
    else some refused

-- The whole pairs of bytes as 16-bit samples, and the whole triples as 24-bit samples. A sample is the
-- numerator over 32768 or 8388608, which an f32 holds exactly.
samples_16 : List ℕ → List ℤ
samples_16 [] = []
samples_16 (a ∷ []) = []
samples_16 (a ∷ b ∷ rest) = i16 (a + 2 ^ 8 * b) ∷ samples_16 rest

samples_24 : List ℕ → List ℤ
unfolding sign_extend_24
samples_24 [] = []
samples_24 (a ∷ []) = []
samples_24 (a ∷ b ∷ []) = []
samples_24 (a ∷ b ∷ c ∷ rest) = i32 (sign_extend_24 (a + 2 ^ 8 * b + 2 ^ 16 * c)) ∷ samples_24 rest

abbrev samples_of : ℕ → List ℕ → Option (List ℤ)
samples_of size bytes =
    if size == 16
    then some (samples_16 bytes)
    else if size == 24
    then some (samples_24 bytes)
    else none

-- The samples of a frame, and the decoder behind them; a panic is caught and gives none.
unfoldable pub decode_frame_f32 : AlacDecoder → List ℕ → Option (List ℤ × AlacDecoder)
unfolding decode_frame samples_16 samples_24
decode_frame_f32 d input =
    if d.max_samples_per_frame == 0 || d.bytes_per_sample == 0
    then none
    else (decode_frame d input (replicate (d.max_samples_per_frame * d.bytes_per_sample) 0)
        >>= λ frame.
            if frame.size == 0
            then none
            else (samples_of d.sample_size_config (take frame.size frame.output) >>= λ samples.
                some (samples, frame.decoder)))
