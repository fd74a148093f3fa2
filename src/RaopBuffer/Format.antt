-- ===== src/RaopBuffer/Format.antt =====
-- raop/buffer.rs, what the SDP attributes become: the stream formats, the parsers of `rtpmap` and
-- `fmtp`, and the decoder's info block. `AlacConfig` is that of codec/alac.rs.
use shairplay_rust.Base.{
  ℕ, zero, suc, ◌%◌, ◌^◌, Bool, true, false, ◌||◌, Option, none, some, List, [], ◌∷◌, ◌++◌, length,
  replicate, ◌>>=◌, ◌>>◌, ltb, ◌==◌, if◌then◌else◌,
}
use shairplay_rust.Base.Text.{codes, split, split_whitespace, parse_unsigned, eq_ignore_ascii_case}
use shairplay_rust.Base.Words.{u16_to_be_bytes, u32_to_be_bytes}

pub record AlacConfig : Type 0 where
  pub frame_length : ℕ
  pub compatible_version : ℕ
  pub bit_depth : ℕ
  pub pb : ℕ
  pub mb : ℕ
  pub kb : ℕ
  pub num_channels : ℕ
  pub max_run : ℕ
  pub max_frame_bytes : ℕ
  pub avg_bit_rate : ℕ
  pub sample_rate : ℕ

pub record PcmConfig : Type 0 where
  pub num_channels : ℕ
  pub sample_rate : ℕ

pub record StreamFormat : Type 0 where
  pub num_channels : ℕ
  pub sample_rate : ℕ

pub data CodecConfig : Type 0 where
  alac : CodecConfig
  pcm : PcmConfig → CodecConfig

-- The `?` of Rust, and its early `return None`.
abbrev refuse_if : Bool → Option (Unit {0})
refuse_if true = none
refuse_if false = some tt

abbrev nth : List (List ℕ) → ℕ → Option (List ℕ)
nth [] i = none
nth (v ∷ vs) zero = some v
nth (v ∷ vs) (suc i) = nth vs i

-- `p(i)?`, and the cast `as u8` or `as u16` that follows it.
u32_field : List (List ℕ) → ℕ → Option ℕ
u32_field vals i = do v ← nth vals i; parse_unsigned (2 ^ 32) v

is_degenerate : AlacConfig → Bool
is_degenerate c =
    c.frame_length == 0 || c.num_channels == 0 || c.bit_depth == 0 || c.sample_rate == 0

unfoldable pub parse_fmtp : List ℕ → Option AlacConfig
unfolding u32_field is_degenerate
parse_fmtp fmtp = do
  let vals = split b' ' fmtp
  refuse_if (ltb (length vals) 12)
  frame_length ← u32_field vals 1
  compatible_version ← u32_field vals 2
  bit_depth ← u32_field vals 3
  pb ← u32_field vals 4
  mb ← u32_field vals 5
  kb ← u32_field vals 6
  num_channels ← u32_field vals 7
  max_run ← u32_field vals 8
  max_frame_bytes ← u32_field vals 9
  avg_bit_rate ← u32_field vals 10
  sample_rate ← u32_field vals 11
  let config : AlacConfig = record {
    frame_length = frame_length;
    compatible_version = compatible_version % 2 ^ 8;
    bit_depth = bit_depth % 2 ^ 8;
    pb = pb % 2 ^ 8;
    mb = mb % 2 ^ 8;
    kb = kb % 2 ^ 8;
    num_channels = num_channels % 2 ^ 8;
    max_run = max_run % 2 ^ 16;
    max_frame_bytes = max_frame_bytes;
    avg_bit_rate = avg_bit_rate;
    sample_rate = sample_rate;
  }
  refuse_if (is_degenerate config)
  some config

-- The channel count of an `L16` encoding: one if it is left out.
channel_count : List (List ℕ) → Option ℕ
channel_count [] = some 1
channel_count (ch ∷ []) = parse_unsigned (2 ^ 8) ch
channel_count (ch ∷ more ∷ rest) = none

-- What follows the name: the rate, the channels if any, and nothing else.
l16_parts : List (List ℕ) → Option PcmConfig
unfolding channel_count
l16_parts [] = none
l16_parts (rate ∷ channels) = do
  sample_rate ← parse_unsigned (2 ^ 32) rate
  num_channels ← channel_count channels
  refuse_if (sample_rate == 0 || num_channels == 0)
  some (record { num_channels = num_channels; sample_rate = sample_rate })

l16_named : List (List ℕ) → Option PcmConfig
unfolding l16_parts
l16_named [] = none
l16_named (name ∷ parts) = if eq_ignore_ascii_case name (codes "L16") then l16_parts parts else none

unfoldable pub parse_l16 : List ℕ → Option PcmConfig
unfolding l16_named
parse_l16 encoding = l16_named (split b'/' encoding)

encoding_name : List (List ℕ) → List ℕ
encoding_name [] = []
encoding_name (name ∷ parts) = name

codec_fields : List (List ℕ) → Option CodecConfig
unfolding encoding_name parse_l16
codec_fields [] = none
codec_fields (payload_type ∷ []) = none
codec_fields (payload_type ∷ encoding ∷ more ∷ rest) = none
codec_fields (payload_type ∷ encoding ∷ []) = do
  _ ← parse_unsigned (2 ^ 8) payload_type
  if eq_ignore_ascii_case (encoding_name (split b'/' encoding)) (codes "AppleLossless")
      then some alac
      else (parse_l16 encoding >>= λ config. some (pcm config))

unfoldable pub parse_codec : List ℕ → Option CodecConfig
unfolding codec_fields
parse_codec rtpmap = codec_fields (split_whitespace rtpmap)

-- The 48 bytes of `set_info`, in order: 24 zeros, the configuration, and the rate at 44.
unfoldable pub build_decoder_info : AlacConfig → List ℕ
unfolding u16_to_be_bytes u32_to_be_bytes
build_decoder_info c =
    replicate 24 0
    ++ (u32_to_be_bytes c.frame_length
        ++ (c.compatible_version
            ∷ c.bit_depth
            ∷ c.pb
            ∷ c.mb
            ∷ c.kb
            ∷ c.num_channels
            ∷ (u16_to_be_bytes c.max_run
                ++ (u32_to_be_bytes c.max_frame_bytes
                    ++ (u32_to_be_bytes c.avg_bit_rate ++ u32_to_be_bytes c.sample_rate)))))
