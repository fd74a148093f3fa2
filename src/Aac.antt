-- ===== src/Aac.antt =====
-- codec/aac.rs: the formats that an SSRC names, and the framing of an AAC packet.
pub mod Header
mod Tests
use shairplay_rust.Base.{
  ℕ, zero, suc, ◌+◌, ◌-◌, ◌*◌, ◌/◌, ◌%◌, ◌^◌, Bool, true, false, Option, none, some, List, [], ◌∷◌,
  ◌++◌, length, ltb, ◌==◌, if◌then◌else◌,
}

pub data AudioSsrc : Type 0 where
  none_ssrc alac_44100_s16_stereo alac_48000_s24_stereo : AudioSsrc
  aac_44100_f24_stereo aac_48000_f24_stereo : AudioSsrc
  aac_48000_f24_surround_51 aac_48000_f24_surround_71 : AudioSsrc

-- The discriminants of the enum.
pub ssrc_of : AudioSsrc → ℕ
ssrc_of none_ssrc = 0
ssrc_of alac_44100_s16_stereo = 64206
ssrc_of alac_48000_s24_stereo = 352321536
ssrc_of aac_44100_f24_stereo = 369098752
ssrc_of aac_48000_f24_stereo = 385875968
ssrc_of aac_48000_f24_surround_51 = 654311424
ssrc_of aac_48000_f24_surround_71 = 671088640

pub from_u32 : ℕ → AudioSsrc
from_u32 v =
    if v == 64206
    then alac_44100_s16_stereo
    else if v == 352321536
    then alac_48000_s24_stereo
    else if v == 369098752
    then aac_44100_f24_stereo
    else if v == 385875968
    then aac_48000_f24_stereo
    else if v == 654311424
    then aac_48000_f24_surround_51
    else if v == 671088640
    then aac_48000_f24_surround_71
    else none_ssrc

pub is_aac : AudioSsrc → Bool
is_aac none_ssrc = false
is_aac alac_44100_s16_stereo = false
is_aac alac_48000_s24_stereo = false
is_aac aac_44100_f24_stereo = true
is_aac aac_48000_f24_stereo = true
is_aac aac_48000_f24_surround_51 = true
is_aac aac_48000_f24_surround_71 = true

pub is_alac : AudioSsrc → Bool
is_alac none_ssrc = false
is_alac alac_44100_s16_stereo = true
is_alac alac_48000_s24_stereo = true
is_alac aac_44100_f24_stereo = false
is_alac aac_48000_f24_stereo = false
is_alac aac_48000_f24_surround_51 = false
is_alac aac_48000_f24_surround_71 = false

pub sample_rate : AudioSsrc → ℕ
sample_rate none_ssrc = 48000
sample_rate alac_44100_s16_stereo = 44100
sample_rate alac_48000_s24_stereo = 48000
sample_rate aac_44100_f24_stereo = 44100
sample_rate aac_48000_f24_stereo = 48000
sample_rate aac_48000_f24_surround_51 = 48000
sample_rate aac_48000_f24_surround_71 = 48000

pub channels : AudioSsrc → ℕ
channels none_ssrc = 2
channels alac_44100_s16_stereo = 2
channels alac_48000_s24_stereo = 2
channels aac_44100_f24_stereo = 2
channels aac_48000_f24_stereo = 2
channels aac_48000_f24_surround_51 = 6
channels aac_48000_f24_surround_71 = 8

pub bit_depth : AudioSsrc → Option ℕ
bit_depth none_ssrc = none
bit_depth alac_44100_s16_stereo = some 16
bit_depth alac_48000_s24_stereo = some 24
bit_depth aac_44100_f24_stereo = none
bit_depth aac_48000_f24_stereo = none
bit_depth aac_48000_f24_surround_51 = none
bit_depth aac_48000_f24_surround_71 = none

pub adts_channel_config : AudioSsrc → ℕ
adts_channel_config none_ssrc = 2
adts_channel_config alac_44100_s16_stereo = 2
adts_channel_config alac_48000_s24_stereo = 2
adts_channel_config aac_44100_f24_stereo = 2
adts_channel_config aac_48000_f24_stereo = 2
adts_channel_config aac_48000_f24_surround_51 = 6
adts_channel_config aac_48000_f24_surround_71 = 7

-- The messages of the `String` errors.
pub data AdtsError : Type 0 where
  too_short too_long bad_channels unsupported_rate : AdtsError

pub data AdtsResult : Type 0 where
  ok : List ℕ → AdtsResult
  err : AdtsError → AdtsResult

-- The rates of the frequency indices, from index 0.
abbrev pub rates : List ℕ
rates =
    96000 ∷ 88200 ∷ 64000 ∷ 48000 ∷ 44100 ∷ 32000 ∷ 24000 ∷ 22050 ∷ 16000 ∷ 12000 ∷ 11025 ∷ 8000
    ∷ 7350 ∷ []

pub freq_idx : ℕ → Option ℕ
freq_idx rate =
    if rate == 96000
    then some 0
    else if rate == 88200
    then some 1
    else if rate == 64000
    then some 2
    else if rate == 48000
    then some 3
    else if rate == 44100
    then some 4
    else if rate == 32000
    then some 5
    else if rate == 24000
    then some 6
    else if rate == 22050
    then some 7
    else if rate == 16000
    then some 8
    else if rate == 12000
    then some 9
    else if rate == 11025
    then some 10
    else if rate == 8000
    then some 11
    else if rate == 7350
    then some 12
    else none

-- The seven bytes. The operands of each `|` have no bit in common, so that it is a sum; a shift is a
-- product or a quotient by a power of two, cut off at eight bits; the profile is 2.
pub header_bytes : ℕ → ℕ → ℕ → List ℕ
header_bytes packet_len freq chan_cfg =
    let len = packet_len % 2 ^ 16 in
    255
    ∷ 249
    ∷ ((2 - 1) * 64 + freq * 4 % 2 ^ 8 + chan_cfg / 4)
    ∷ (chan_cfg % 4 * 64 + len / 2 ^ 11)
    ∷ (len % 2 ^ 11 / 8)
    ∷ (len % 8 * 32 + 31)
    ∷ 252
    ∷ []

pub adts_header : ℕ → ℕ → ℕ → AdtsResult
unfolding header_bytes freq_idx
adts_header packet_len rate chan_cfg =
    if ltb packet_len 7
    then err too_short
    else if ltb 8191 packet_len
    then err too_long
    else if ltb 7 chan_cfg
    then err bad_channels
    else elim (freq_idx rate) [
      | none ↦ err unsupported_rate
      | some freq ↦ ok (header_bytes packet_len freq chan_cfg)
    ]

abbrev pub with_frame : List ℕ → AdtsResult → AdtsResult
with_frame raw_aac (ok header) = ok (header ++ raw_aac)
with_frame raw_aac (err e) = err e

pub wrap_adts : List ℕ → ℕ → ℕ → AdtsResult
unfolding adts_header
wrap_adts raw_aac rate chan_cfg =
    with_frame raw_aac (adts_header (length raw_aac + 7) rate chan_cfg)
