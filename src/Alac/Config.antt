-- ===== src/Alac/Config.antt =====
-- codec/alac.rs with raop/buffer.rs: the decoder that a stream's configuration makes.
use shairplay_rust.Base.{
  ℕ, ◌*◌, ◌/◌, true, false, List, length, ◌≡◌, refl, sym, ap, ◌∙◌, arith, ◌⊎◌, inl, inr, Bool-cases,
  ◌==◌, ==_iff, ltb, length-replicate, get_or,
}
use mathlib.Core.Path.{subst}
use shairplay_rust.Base.Words.{
  IsU16, IsU32, from_be-u32_to_be, from_be-u16_to_be, u32_to_be_bytes, u16_to_be_bytes,
}
use shairplay_rust.RaopBuffer.Format.{AlacConfig, build_decoder_info}
use shairplay_rust.Alac.{AlacDecoder, read_info, configure, set_info, allocate_buffers, in_profile}

-- The fields of a configuration fit the words that hold them.
pub record Fits (c : AlacConfig) : Type 0 where
  pub frame_length : IsU32 c.frame_length
  pub max_run : IsU16 c.max_run
  pub max_frame_bytes : IsU32 c.max_frame_bytes
  pub avg_bit_rate : IsU32 c.avg_bit_rate
  pub sample_rate : IsU32 c.sample_rate

-- The decoder with the fields of a configuration.
abbrev pub with_config : AlacDecoder → AlacConfig → AlacDecoder
with_config d c = record d {
  max_samples_per_frame = c.frame_length;
  sample_size_config = c.bit_depth;
  rice_history_mult = c.pb;
  rice_initial_history = c.mb;
  rice_k_modifier = c.kb;
  max_run = c.max_run;
  max_frame_bytes = c.max_frame_bytes;
  avg_bit_rate = c.avg_bit_rate;
  sample_rate = c.sample_rate;
}

read_info-build_decoder_info :
    (d : AlacDecoder) (c : AlacConfig)
    → Fits c
    → read_info d (build_decoder_info c) ≡ with_config d c
unfolding read_info build_decoder_info u32_to_be_bytes u16_to_be_bytes
read_info-build_decoder_info d c h =
    rw
      (
        from_be-u32_to_be c.frame_length h.frame_length,
        from_be-u16_to_be c.max_run h.max_run,
        from_be-u32_to_be c.max_frame_bytes h.max_frame_bytes,
        from_be-u32_to_be c.avg_bit_rate h.avg_bit_rate,
        from_be-u32_to_be c.sample_rate h.sample_rate,
      )
      refl

-- A decoder whose six buffers hold a frame, of 16 or 24 bits, mono or stereo; or one that is disabled.
pub record IsAllocated (d : AlacDecoder) : Type 0 where
  pub predicterror_a : length d.predicterror_buffer_a ≡ d.max_samples_per_frame
  pub predicterror_b : length d.predicterror_buffer_b ≡ d.max_samples_per_frame
  pub outputsamples_a : length d.outputsamples_buffer_a ≡ d.max_samples_per_frame
  pub outputsamples_b : length d.outputsamples_buffer_b ≡ d.max_samples_per_frame
  pub uncompressed_bytes_a : length d.uncompressed_bytes_buffer_a ≡ d.max_samples_per_frame
  pub uncompressed_bytes_b : length d.uncompressed_bytes_buffer_b ≡ d.max_samples_per_frame
  pub profile : in_profile d.sample_size_config d.num_channels ≡ true
  pub bytes_per_sample : d.bytes_per_sample ≡ d.sample_size_config / 8 * d.num_channels

abbrev pub IsReady : AlacDecoder → Type 0
IsReady d = (d.max_samples_per_frame ≡ 0) ⊎ IsAllocated d

abbrev pub sized : AlacDecoder → ℕ → AlacDecoder
sized d channels = record d {
  num_channels = channels;
  bytes_per_sample = d.sample_size_config / 8 * channels;
}

configure-outside :
    (d : AlacDecoder) (channels : ℕ)
    → in_profile d.sample_size_config channels ≡ false
    → configure d channels ≡ record d { max_samples_per_frame = 0; bytes_per_sample = 0 }
unfolding configure
configure-outside d channels h = rw (h, in_profile) refl

configure-empty :
    (d : AlacDecoder) (channels : ℕ)
    → in_profile d.sample_size_config channels ≡ true
    → d.max_samples_per_frame ≡ 0
    → configure d channels ≡ sized d channels
unfolding configure
configure-empty d channels h e = rw (h, e, in_profile) refl

in_profile-bytes :
    (size channels : ℕ) → in_profile size channels ≡ true → (size / 8 * channels == 0) ≡ false
in_profile-bytes size channels h = ground arith

configure-inside :
    (d : AlacDecoder) (channels : ℕ)
    → in_profile d.sample_size_config channels ≡ true
    → (d.max_samples_per_frame == 0) ≡ false
    → configure d channels ≡ allocate_buffers (sized d channels)
unfolding configure
configure-inside d channels h e =
    rw (h, e, in_profile-bytes d.sample_size_config channels h, in_profile) refl

allocate_buffers-IsAllocated :
    (d : AlacDecoder) (channels : ℕ)
    → in_profile d.sample_size_config channels ≡ true
    → IsAllocated (allocate_buffers (sized d channels))
unfolding allocate_buffers
allocate_buffers-IsAllocated d channels h = record {
  predicterror_a = length-replicate d.max_samples_per_frame 0;
  predicterror_b = length-replicate d.max_samples_per_frame 0;
  outputsamples_a = length-replicate d.max_samples_per_frame 0;
  outputsamples_b = length-replicate d.max_samples_per_frame 0;
  uncompressed_bytes_a = length-replicate d.max_samples_per_frame 0;
  uncompressed_bytes_b = length-replicate d.max_samples_per_frame 0;
  profile = h;
  bytes_per_sample = refl;
}

configure-IsReady : (d : AlacDecoder) (channels : ℕ) → IsReady (configure d channels)
configure-IsReady d channels = elim (Bool-cases (in_profile d.sample_size_config channels)) [
  | inr e ↦ subst IsReady (sym (configure-outside d channels e)) (inl refl)
  | inl e ↦ elim (Bool-cases (d.max_samples_per_frame == 0)) [
    | inl z ↦
        let zero_samples = (==_iff d.max_samples_per_frame 0).0 z in
        subst IsReady (sym (configure-empty d channels e zero_samples)) (inl zero_samples)
    | inr z ↦
        subst IsReady (sym (configure-inside d channels e z))
          (inr (allocate_buffers-IsAllocated d channels e))
  ]
]

set_info-short :
    (d : AlacDecoder) (config : List ℕ) → ltb (length config) 48 ≡ true → set_info d config ≡ d
unfolding set_info
set_info-short d config e = rw (e, set_info) refl

set_info-long :
    (d : AlacDecoder) (config : List ℕ)
    → ltb (length config) 48 ≡ false
    → set_info d config ≡ configure (read_info d config) (get_or config 33 0)
unfolding set_info
set_info-long d config e = rw (e, set_info) refl

-- set_info leaves a decoder that is ready, whatever block it is given: it is disabled, or its buffers hold
-- a frame and its sizes are in the profile.
pub set_info-IsReady : (d : AlacDecoder) (config : List ℕ) → IsReady d → IsReady (set_info d config)
set_info-IsReady d config h = elim (Bool-cases (ltb (length config) 48)) [
  | inl e ↦ subst IsReady (sym (set_info-short d config e)) h
  | inr e ↦
      subst IsReady (sym (set_info-long d config e))
        (configure-IsReady (read_info d config) (get_or config 33 0))
]

-- The block that the packet buffer builds from a configuration is read back: in the profile and with a
-- frame length, the decoder then has the configuration's fields and the sizes that follow, and all of its
-- buffers hold a frame.
pub set_info-build_decoder_info :
    (d : AlacDecoder) (c : AlacConfig)
    → Fits c
    → in_profile c.bit_depth c.num_channels ≡ true
    → (c.frame_length == 0) ≡ false
    → (set_info d (build_decoder_info c)
        ≡ allocate_buffers (sized (with_config d c) c.num_channels))
      × IsAllocated (set_info d (build_decoder_info c))
unfolding set_info build_decoder_info u32_to_be_bytes u16_to_be_bytes
set_info-build_decoder_info d c h profile frame =
    let set =
      ap (λ e. configure e c.num_channels) (read_info-build_decoder_info d c h)
      ∙ configure-inside (with_config d c) c.num_channels profile frame in
    (
      set,
      subst IsAllocated (sym set)
          (allocate_buffers-IsAllocated (with_config d c) c.num_channels profile),
    )
