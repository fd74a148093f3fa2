-- ===== src/Aac/Header.antt =====
-- codec/aac.rs: the ADTS frames against the bit layout of an ADTS header, and the SSRC values.
use mathlib.Core.Path.{subst}
use shairplay_rust.Base.{
  ℕ, suc, ◌+◌, ◌*◌, ◌/◌, ◌%◌, ◌^◌, ◌≤◌, some, List, [], ◌∷◌, ◌++◌, length, take, drop, ◌≡◌, refl,
  ap, ◌∙◌, arith, Option-cases, inl, inr, ◌⊎◌, get_elem?,
}
use shairplay_rust.Base.Words.{IsByte}
use shairplay_rust.Base.{All}
use shairplay_rust.Aac.{
  AudioSsrc, none_ssrc, alac_44100_s16_stereo, alac_48000_s24_stereo, aac_44100_f24_stereo,
  aac_48000_f24_stereo, aac_48000_f24_surround_51, aac_48000_f24_surround_71, ssrc_of, from_u32,
  rates, freq_idx, header_bytes, adts_header, with_frame, wrap_adts, AdtsResult, ok, err,
}

-- `from_u32` reads every format back from its discriminant.
pub from_u32-ssrc_of : (f : AudioSsrc) → from_u32 (ssrc_of f) ≡ f
unfolding from_u32 ssrc_of
from_u32-ssrc_of none_ssrc = refl
from_u32-ssrc_of alac_44100_s16_stereo = refl
from_u32-ssrc_of alac_48000_s24_stereo = refl
from_u32-ssrc_of aac_44100_f24_stereo = refl
from_u32-ssrc_of aac_48000_f24_stereo = refl
from_u32-ssrc_of aac_48000_f24_surround_51 = refl
from_u32-ssrc_of aac_48000_f24_surround_71 = refl

-- `from_u32` gives a format other than `None` only for the format's own discriminant.
pub ssrc_of-from_u32 : (v : ℕ) → (from_u32 v ≡ none_ssrc) ⊎ (ssrc_of (from_u32 v) ≡ v)
unfolding from_u32 ssrc_of
ssrc_of-from_u32 v = ground arith

-- The fields of an ADTS header, by their places in its 56 bits: a syncword of 12 bits, the version,
-- two bits of layer, the absence of a checksum, two bits of profile, four of frequency, one private,
-- three of channels, four flags, and thirteen of frame length.
pub record AdtsFields : Type 0 where
  pub syncword : ℕ
  pub layer : ℕ
  pub no_checksum : ℕ
  pub profile : ℕ
  pub frequency : ℕ
  pub private_bit : ℕ
  pub channel_config : ℕ
  pub frame_length : ℕ

-- `count` bits of a header, `above` bits from its end.
abbrev pub bits : ℕ → ℕ → ℕ → ℕ
bits header above count = header / 2 ^ above % 2 ^ count

abbrev pub word_of : List ℕ → ℕ
word_of [] = 0
word_of (b ∷ bs) = b * 2 ^ (8 * length bs) + word_of bs

abbrev pub read_adts : List ℕ → AdtsFields
read_adts header = record {
  syncword = bits (word_of header) 44 12;
  layer = bits (word_of header) 41 2;
  no_checksum = bits (word_of header) 40 1;
  profile = bits (word_of header) 38 2;
  frequency = bits (word_of header) 34 4;
  private_bit = bits (word_of header) 33 1;
  channel_config = bits (word_of header) 30 3;
  frame_length = bits (word_of header) 13 13;
}

abbrev pub fields_of : ℕ → ℕ → ℕ → AdtsFields
fields_of packet_len freq chan_cfg = record {
  syncword = 4095;
  layer = 0;
  no_checksum = 1;
  profile = 1;
  frequency = freq;
  private_bit = 0;
  channel_config = chan_cfg;
  frame_length = packet_len;
}

module _ (packet_len freq chan_cfg : ℕ) where
  abbrev InRange : Type 0
  InRange = (packet_len ≤ 8191) × (freq ≤ 12) × (chan_cfg ≤ 7)

  abbrev field_at : ℕ → ℕ → ℕ
  field_at above count = bits (word_of (header_bytes packet_len freq chan_cfg)) above count

  syncword_lem : InRange → field_at 44 12 ≡ 4095
  unfolding header_bytes
  syncword_lem (h1, h2, h3) = omega arith

  layer_lem : InRange → field_at 41 2 ≡ 0
  unfolding header_bytes
  layer_lem (h1, h2, h3) = omega arith

  no_checksum_lem : InRange → field_at 40 1 ≡ 1
  unfolding header_bytes
  no_checksum_lem (h1, h2, h3) = omega arith

  profile_lem : InRange → field_at 38 2 ≡ 1
  unfolding header_bytes
  profile_lem (h1, h2, h3) = omega arith

  frequency_lem : InRange → field_at 34 4 ≡ freq
  unfolding header_bytes
  frequency_lem (h1, h2, h3) = omega arith

  private_bit_lem : InRange → field_at 33 1 ≡ 0
  unfolding header_bytes
  private_bit_lem (h1, h2, h3) = omega arith

  channel_config_lem : InRange → field_at 30 3 ≡ chan_cfg
  unfolding header_bytes
  channel_config_lem (h1, h2, h3) = omega arith

  frame_length_lem : InRange → field_at 13 13 ≡ packet_len
  unfolding header_bytes
  frame_length_lem (h1, h2, h3) = omega arith

  pub read_adts-header_bytes :
      packet_len ≤ 8191
      → freq ≤ 12
      → chan_cfg ≤ 7
      → read_adts (header_bytes packet_len freq chan_cfg) ≡ fields_of packet_len freq chan_cfg
  read_adts-header_bytes h1 h2 h3 = λ i. record {
    syncword = syncword_lem (h1, h2, h3) i;
    layer = layer_lem (h1, h2, h3) i;
    no_checksum = no_checksum_lem (h1, h2, h3) i;
    profile = profile_lem (h1, h2, h3) i;
    frequency = frequency_lem (h1, h2, h3) i;
    private_bit = private_bit_lem (h1, h2, h3) i;
    channel_config = channel_config_lem (h1, h2, h3) i;
    frame_length = frame_length_lem (h1, h2, h3) i;
  }

header_bytes-IsByte :
    (packet_len freq chan_cfg : ℕ)
    → packet_len ≤ 8191
    → freq ≤ 12
    → chan_cfg ≤ 7
    → All IsByte (header_bytes packet_len freq chan_cfg)
unfolding header_bytes
header_bytes-IsByte packet_len freq chan_cfg h1 h2 h3 = (
  omega arith,
  (omega arith, (omega arith, (omega arith, (omega arith, (omega arith, (omega arith, tt)))))),
)

freq_idx_lem :
    (rate freq : ℕ) → freq_idx rate ≡ some freq → (freq ≤ 12) × (get_elem? rates freq ≡ some rate)
unfolding freq_idx
freq_idx_lem rate freq h = (ground arith, ground arith)

adts_header_lem :
    (packet_len rate chan_cfg : ℕ) (header : List ℕ)
    → adts_header packet_len rate chan_cfg ≡ ok header
    → (freq : ℕ) × (packet_len ≤ 8191)
      × (chan_cfg ≤ 7)
      × (freq_idx rate ≡ some freq)
      × (header_bytes packet_len freq chan_cfg ≡ header)
unfolding adts_header
adts_header_lem packet_len rate chan_cfg header h = elim (Option-cases (freq_idx rate)) [
  | inl e ↦ absurd (ground arith)
  | inr (freq, e) ↦ (freq, ground arith, ground arith, e, ground arith)
]

with_frame_lem :
    (raw_aac frame : List ℕ) (r : AdtsResult)
    → with_frame raw_aac r ≡ ok frame
    → (header : List ℕ) × (r ≡ ok header) × (header ++ raw_aac ≡ frame)
with_frame_lem raw_aac frame (ok header) h = (header, refl, inside h)
  where
    inside : ok (header ++ raw_aac) ≡ ok frame → header ++ raw_aac ≡ frame
    inside e = cc
with_frame_lem raw_aac frame (err e) h = absurd (cc)

-- What a frame is, by the layout of its header.
abbrev pub IsFrameOf : List ℕ → ℕ → ℕ → List ℕ → Type 0
IsFrameOf raw_aac rate chan_cfg frame =
    (freq : ℕ) × (get_elem? rates freq ≡ some rate)
    × (read_adts (take 7 frame) ≡ fields_of (length frame) freq chan_cfg)
    × All IsByte (take 7 frame)
    × (drop 7 frame ≡ raw_aac)

IsFrameOf-header_bytes :
    (raw_aac : List ℕ) (rate freq chan_cfg : ℕ)
    → length raw_aac + 7 ≤ 8191
    → chan_cfg ≤ 7
    → freq_idx rate ≡ some freq
    → IsFrameOf raw_aac rate chan_cfg (header_bytes (length raw_aac + 7) freq chan_cfg ++ raw_aac)
unfolding header_bytes
IsFrameOf-header_bytes raw_aac rate freq chan_cfg h1 h3 e =
    let (h2, same) = freq_idx_lem rate freq e in
    (
      freq,
      same,
      read_adts-header_bytes (length raw_aac + 7) freq chan_cfg h1 h2 h3
          ∙ ap (λ n. fields_of n freq chan_cfg) long,
      header_bytes-IsByte (length raw_aac + 7) freq chan_cfg h1 h2 h3,
      refl,
    )
  where
    long : length raw_aac + 7 ≡ suc (suc (suc (suc (suc (suc (suc (length raw_aac)))))))
    long = omega arith

-- A frame that `wrap_adts` makes starts with seven bytes that read, by the layout of an ADTS header,
-- as the rate, the channel configuration and the length of the whole frame; the packet follows them.
pub wrap_adts-IsFrameOf :
    (raw_aac : List ℕ) (rate chan_cfg : ℕ) (frame : List ℕ)
    → wrap_adts raw_aac rate chan_cfg ≡ ok frame
    → IsFrameOf raw_aac rate chan_cfg frame
unfolding wrap_adts
wrap_adts-IsFrameOf raw_aac rate chan_cfg frame h =
    let (header, made, whole) =
      with_frame_lem raw_aac frame (adts_header (length raw_aac + 7) rate chan_cfg) h in
    let (freq, short, few, index, same) =
      adts_header_lem (length raw_aac + 7) rate chan_cfg header made in
    subst (IsFrameOf raw_aac rate chan_cfg) (ap (λ bytes. bytes ++ raw_aac) same ∙ whole)
      (IsFrameOf-header_bytes raw_aac rate freq chan_cfg short few index)

-- `wrap_adts` makes a frame of every packet of at most 8184 bytes, for a channel configuration of three
-- bits and a rate of the table.
pub wrap_adts-ok :
    (raw_aac : List ℕ) (freq rate chan_cfg : ℕ)
    → length raw_aac ≤ 8184
    → chan_cfg ≤ 7
    → freq_idx rate ≡ some freq
    → wrap_adts raw_aac rate chan_cfg
      ≡ ok (header_bytes (length raw_aac + 7) freq chan_cfg ++ raw_aac)
unfolding wrap_adts adts_header
wrap_adts-ok raw_aac freq rate chan_cfg h1 h2 e = ground arith
