-- ===== src/RaopBuffer/Build.antt =====
-- raop/buffer.rs: `new`, `new_unencrypted`, `build` and `format`.
use mathlib.Core.Option
use shairplay_rust.Base.{ℕ, ◌-◌, ◌*◌, ◌/◌, true, Option, none, some, List, replicate}
use shairplay_rust.RaopBuffer.{
  RaopBuffer, raop_packet_len, raop_buffer_length, pcm_default_frame_samples, blank,
}
use shairplay_rust.RaopBuffer.Format.{AlacConfig, PcmConfig, StreamFormat, CodecConfig, parse_codec}
use shairplay_rust.RaopBuffer.Format.{parse_fmtp, build_decoder_info}
use shairplay_rust.RaopBuffer.Decode.{AesSession, Codec, alac, pcm, Backend}

module _ {D : Type 0} where
  unfoldable pub fresh : Option AesSession → Codec D → ℕ → ℕ → RaopBuffer D
  fresh aes codec frame_capacity silence_samples = record {
    aes = aes;
    codec = codec;
    is_empty = true;
    first_seqnum = 0;
    last_seqnum = 0;
    entries = replicate raop_buffer_length (blank frame_capacity);
    frame_capacity = frame_capacity;
    silence_samples = silence_samples;
  }

  module _ (k : Backend D) where
    unfoldable pub build_alac : Option AesSession → AlacConfig → RaopBuffer D
    unfolding fresh
    build_alac aes config =
        let frame_samples = config.frame_length * config.num_channels in
        let decoder =
          k.set_info (k.new_decoder config.bit_depth config.num_channels)
            (build_decoder_info config) in
        fresh aes (alac config decoder) frame_samples frame_samples

    unfoldable pub build_pcm : Option AesSession → PcmConfig → RaopBuffer D
    unfolding fresh
    build_pcm aes config =
        fresh aes (pcm config) ((raop_packet_len - 12) / 2)
          (pcm_default_frame_samples * config.num_channels)

    -- `new` is `build` with a session key, `new_unencrypted` is `build` with `none`.
    unfoldable pub build : List ℕ → List ℕ → Option AesSession → Option (RaopBuffer D)
    unfolding build_alac build_pcm
    build rtpmap fmtp aes = elim (parse_codec rtpmap) [
      | none ↦ none
      | some CodecConfig.alac ↦ Option.map (build_alac aes) (parse_fmtp fmtp)
      | some (CodecConfig.pcm config) ↦ some (build_pcm aes config)
    ]

  unfoldable pub format : RaopBuffer D → StreamFormat
  format b = elim b.codec [
    | alac config decoder ↦ record {
      num_channels = config.num_channels;
      sample_rate = config.sample_rate;
    }
    | pcm config ↦ record { num_channels = config.num_channels; sample_rate = config.sample_rate }
  ]
