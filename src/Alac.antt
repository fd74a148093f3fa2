-- ===== src/Alac.antt =====
-- codec/alac.rs: the decoder's state and its configuration. The words of the source are bit patterns,
-- and `none` is a panic, which the callers catch.
pub mod Reader
pub mod Rice
pub mod Predictor
pub mod Subframe
pub mod Output
pub mod Frame
pub mod Config
mod Tests
use shairplay_rust.Base.{
  ℕ, ◌+◌, ◌*◌, ◌/◌, Bool, true, false, not, ◌&&◌, ◌||◌, Option, none, some, List, [], length, take,
  drop, get_or, replicate, ltb, leb, ◌==◌, if◌then◌else◌,
}
use shairplay_rust.Base.Words.{from_be_bytes, is_neg32}

pub record AlacFormat : Type 0 where
  pub sample_rate : ℕ
  pub bit_depth : ℕ
  pub channels : ℕ

pub from_audio_format : ℕ → Option AlacFormat
from_audio_format v =
    if v == 0x00040000
    then some (record { sample_rate = 44100; bit_depth = 16; channels = 2 })
    else if v == 0x00080000
    then some (record { sample_rate = 44100; bit_depth = 24; channels = 2 })
    else if v == 0x00100000
    then some (record { sample_rate = 48000; bit_depth = 16; channels = 2 })
    else if v == 0x00200000
    then some (record { sample_rate = 48000; bit_depth = 24; channels = 2 })
    else none

pub record AlacDecoder : Type 0 where
  pub num_channels : ℕ
  pub bytes_per_sample : ℕ
  pub max_samples_per_frame : ℕ
  pub sample_size_config : ℕ
  pub rice_history_mult : ℕ
  pub rice_initial_history : ℕ
  pub rice_k_modifier : ℕ
  pub max_run : ℕ
  pub max_frame_bytes : ℕ
  pub avg_bit_rate : ℕ
  pub sample_rate : ℕ
  pub predicterror_buffer_a : List ℕ
  pub predicterror_buffer_b : List ℕ
  pub outputsamples_buffer_a : List ℕ
  pub outputsamples_buffer_b : List ℕ
  pub uncompressed_bytes_buffer_a : List ℕ
  pub uncompressed_bytes_buffer_b : List ℕ

-- A decoder for samples of so many bits and so many channels, neither negative.
unfoldable pub new_decoder : ℕ → ℕ → AlacDecoder
new_decoder sample_size num_channels = record {
  num_channels = num_channels;
  bytes_per_sample = sample_size / 8 * num_channels;
  max_samples_per_frame = 0;
  sample_size_config = 0;
  rice_history_mult = 0;
  rice_initial_history = 0;
  rice_k_modifier = 0;
  max_run = 0;
  max_frame_bytes = 0;
  avg_bit_rate = 0;
  sample_rate = 0;
  predicterror_buffer_a = [];
  predicterror_buffer_b = [];
  outputsamples_buffer_a = [];
  outputsamples_buffer_b = [];
  uncompressed_bytes_buffer_a = [];
  uncompressed_bytes_buffer_b = [];
}

unfoldable pub allocate_buffers : AlacDecoder → AlacDecoder
allocate_buffers d =
    let zeros = replicate d.max_samples_per_frame 0 in
    record d {
      predicterror_buffer_a = zeros;
      predicterror_buffer_b = zeros;
      outputsamples_buffer_a = zeros;
      outputsamples_buffer_b = zeros;
      uncompressed_bytes_buffer_a = zeros;
      uncompressed_bytes_buffer_b = zeros;
    }

-- The fields of the block at 24, with the rice parameters and the sizes.
unfoldable pub read_info : AlacDecoder → List ℕ → AlacDecoder
unfolding from_be_bytes
read_info d config = record d {
  max_samples_per_frame = from_be_bytes (take 4 (drop 24 config));
  sample_size_config = get_or config 29 0;
  rice_history_mult = get_or config 30 0;
  rice_initial_history = get_or config 31 0;
  rice_k_modifier = get_or config 32 0;
  max_run = from_be_bytes (take 2 (drop 34 config));
  max_frame_bytes = from_be_bytes (take 4 (drop 36 config));
  avg_bit_rate = from_be_bytes (take 4 (drop 40 config));
  sample_rate = from_be_bytes (take 4 (drop 44 config));
}

-- A stream of 16 or 24 bits, mono or stereo.
abbrev pub in_profile : ℕ → ℕ → Bool
in_profile size channels = (size == 16 || size == 24) && (channels == 1 || channels == 2)

-- A configuration in or out of the profile.
unfoldable pub configure : AlacDecoder → ℕ → AlacDecoder
unfolding allocate_buffers
configure d channels =
    if not (in_profile d.sample_size_config channels)
    then record d { max_samples_per_frame = 0; bytes_per_sample = 0 }
    else let sized = record d {
      num_channels = channels;
      bytes_per_sample = d.sample_size_config / 8 * channels;
    } in
      if d.max_samples_per_frame == 0 || d.sample_size_config / 8 * channels == 0
      then sized
      else allocate_buffers sized

unfoldable pub set_info : AlacDecoder → List ℕ → AlacDecoder
unfolding read_info configure
set_info d config =
    if ltb (length config) 48 then d else configure (read_info d config) (get_or config 33 0)
