-- ===== src/Alac/Tests.antt =====
-- codec/alac.rs, examples: a stereo decoder of two samples of 16 bits.
use shairplay_rust.Base.{
  ◌-◌, ◌^◌, ◌++◌, inl, arith, ℕ, none, some, Option, List, [], ◌∷◌, replicate, ◌≡◌, refl,
}
use shairplay_rust.RaopBuffer.Format.{AlacConfig, build_decoder_info}
use shairplay_rust.Base.Words.{ℤ}
use shairplay_rust.Alac.{AlacDecoder, new_decoder, set_info}
use shairplay_rust.Alac.{allocate_buffers}
use shairplay_rust.Alac.Reader.{BitReader, readbits, sign_extend_32}
use shairplay_rust.Alac.Reader.Bits.{bits_value}
use shairplay_rust.Alac.Reader.Values.{readbits-bits_value}
use shairplay_rust.Alac.Predictor.{predictor_decompress_fir_adapt}
use shairplay_rust.Alac.Predictor.Delta.{
  IsSample, differences, predictor_decompress_fir_adapt-differences,
}
use shairplay_rust.Alac.Config.{
  IsAllocated, Fits, IsReady, sized, with_config, set_info-build_decoder_info,
}
use shairplay_rust.Alac.Frame.Bounds.{IsBounded, decode_frame-IsBounded}
use shairplay_rust.Alac.Frame.{decode_frame, decode_frame_f32, DecodedFrame}

abbrev config : AlacConfig
config = record {
  frame_length = 2;
  compatible_version = 0;
  bit_depth = 16;
  pb = 40;
  mb = 10;
  kb = 14;
  num_channels = 2;
  max_run = 255;
  max_frame_bytes = 0;
  avg_bit_rate = 0;
  sample_rate = 44100;
}

stereo : AlacDecoder
unfolding set_info new_decoder build_decoder_info
stereo = set_info (new_decoder 16 2) (build_decoder_info config)

-- A frame that is not compressed, with the pairs (1, -2) and (0x1234, -0x8000).
abbrev verbatim : List ℕ
verbatim = 32 ∷ 0 ∷ 2 ∷ 0 ∷ 3 ∷ 255 ∷ 252 ∷ 36 ∷ 105 ∷ 0 ∷ 0 ∷ []

abbrev output_of : Option DecodedFrame → List ℕ
output_of none = []
output_of (some x) = x.output

verbatim-decoded :
    output_of (decode_frame stereo verbatim (replicate 8 7))
    ≡ 1 ∷ 0 ∷ 254 ∷ 255 ∷ 0x34 ∷ 0x12 ∷ 0 ∷ 128 ∷ []
unfolding decode_frame stereo
verbatim-decoded = refl

-- A reader at the fourth bit of two bytes.
abbrev reader : BitReader
reader = record { buf = 0xa5 ∷ 0x3c ∷ []; pos = 0; bit = 3 }

readbits-bits_value_example :
    readbits reader 7 ≡ (bits_value (0xa5 ∷ 0x3c ∷ []) 3 7, record reader { pos = 1; bit = 2 })
readbits-bits_value_example =
    readbits-bits_value reader (omega arith, (omega arith, tt)) (omega arith) 7 (omega arith)

-- The seven bits are 0010100.
seven_bits : bits_value (0xa5 ∷ 0x3c ∷ []) 3 7 ≡ 0b0010100
unfolding bits_value
seven_bits = refl

new_decoder-IsReady : IsReady (new_decoder 16 2)
unfolding new_decoder
new_decoder-IsReady = inl refl

config-Fits : Fits config
config-Fits = record {
  frame_length = omega arith;
  max_run = omega arith;
  max_frame_bytes = omega arith;
  avg_bit_rate = omega arith;
  sample_rate = omega arith;
}

set_info-build_decoder_info_example :
    (set_info (new_decoder 16 2) (build_decoder_info config)
      ≡ allocate_buffers (sized (with_config (new_decoder 16 2) config) 2))
    × IsAllocated (set_info (new_decoder 16 2) (build_decoder_info config))
set_info-build_decoder_info_example =
    set_info-build_decoder_info (new_decoder 16 2) config config-Fits refl refl

decode_frame-IsBounded_example :
    IsBounded (replicate 8 7) (decode_frame stereo verbatim (replicate 8 7))
decode_frame-IsBounded_example = decode_frame-IsBounded stereo verbatim (replicate 8 7)

-- The samples 5, -2 and 7 of 16 bits.
abbrev minus_two : ℕ
minus_two = 2 ^ 32 - 2

five-IsSample : IsSample 16 5
unfolding sign_extend_32
five-IsSample = (omega arith, refl)

minus_two-IsSample : IsSample 16 minus_two
unfolding sign_extend_32
minus_two-IsSample = (omega arith, refl)

seven-IsSample : IsSample 16 7
unfolding sign_extend_32
seven-IsSample = (omega arith, refl)

predictor_decompress_fir_adapt-differences_example :
    predictor_decompress_fir_adapt
      (5 ∷ (differences 5 (minus_two ∷ 7 ∷ []) ++ []))
      (0 ∷ 0 ∷ 0 ∷ 9 ∷ [])
      3
      16
      []
      31
      0
    ≡ some (5 ∷ minus_two ∷ 7 ∷ 9 ∷ [], [])
predictor_decompress_fir_adapt-differences_example =
    predictor_decompress_fir_adapt-differences 16 5 (minus_two ∷ 7 ∷ []) 0 (0 ∷ 0 ∷ 9 ∷ []) [] [] 0
      five-IsSample (minus_two-IsSample, (seven-IsSample, tt)) (omega arith)

abbrev samples_of_frame : Option (List ℤ × AlacDecoder) → List ℤ
samples_of_frame none = []
samples_of_frame (some (samples, d)) = samples

verbatim-samples :
    samples_of_frame (decode_frame_f32 stereo verbatim)
    ≡ ℤ.pos 1 ∷ ℤ.negsuc 1 ∷ ℤ.pos 0x1234 ∷ ℤ.negsuc 0x7fff ∷ []
unfolding decode_frame_f32 stereo
verbatim-samples = refl

-- A compressed frame of six pairs, with predictors that adapt their coefficients.
abbrev compressed : List ℕ
compressed =
    32 ∷ 0 ∷ 0 ∷ 0 ∷ 0 ∷ 9 ∷ 68 ∷ 194 ∷ 125 ∷ 129 ∷ 46 ∷ 18 ∷ 7 ∷ 202 ∷ 204 ∷ 146 ∷ 99 ∷ 78 ∷ 228
    ∷ 32 ∷ 52 ∷ 166 ∷ 192 ∷ 14 ∷ 21 ∷ 128 ∷ 129 ∷ 221 ∷ 80 ∷ 194 ∷ 2 ∷ 229 ∷ 44 ∷ 56 ∷ 196 ∷ 180
    ∷ 32 ∷ 20 ∷ 84 ∷ 96 ∷ 48 ∷ 98 ∷ 52 ∷ 12 ∷ 8 ∷ 89 ∷ 129 ∷ 193 ∷ 28 ∷ 16 ∷ 3 ∷ 99 ∷ 148 ∷ 65 ∷ 66
    ∷ 34 ∷ 162 ∷ 2 ∷ 138 ∷ 4 ∷ 52 ∷ 44 ∷ 71 ∷ 36 ∷ 205 ∷ 131 ∷ 146 ∷ 132 ∷ 200 ∷ []

stereo_of_six : AlacDecoder
unfolding set_info new_decoder build_decoder_info
stereo_of_six =
    set_info (new_decoder 16 2) (build_decoder_info (record config { frame_length = 6 }))

compressed-decoded :
    output_of (decode_frame stereo_of_six compressed (replicate 24 7))
    ≡ 0 ∷ 0 ∷ 1 ∷ 0 ∷ 0 ∷ 0 ∷ 1 ∷ 0 ∷ 0 ∷ 0 ∷ 1 ∷ 0 ∷ 0 ∷ 0 ∷ 1 ∷ 0 ∷ 255 ∷ 255 ∷ 1 ∷ 0 ∷ 235 ∷ 249
      ∷ 1 ∷ 0 ∷ []
unfolding decode_frame stereo_of_six
compressed-decoded = refl
