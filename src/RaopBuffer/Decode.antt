-- ===== src/RaopBuffer/Decode.antt =====
-- raop/buffer.rs, from a packet's payload to the samples of a slot: decryption and the two codecs.
-- A sample is an `f32` that is a whole multiple of 1/32768, exactly: it is kept as that multiple.
use shairplay_rust.Base.{
  ℕ, suc, ◌+◌, ◌*◌, ◌/◌, ◌%◌, min, not, ◌||◌, Option, none, some, List, [], ◌∷◌, ◌++◌, length, take,
  drop, ltb, ◌==◌, if◌then◌else◌,
}
use shairplay_rust.Base.Words.{ℤ, pos, negsuc, i16}
use shairplay_rust.RaopBuffer.Format.{AlacConfig, PcmConfig}

pub record AesSession : Type 0 where
  pub key : List ℕ
  pub iv : List ℕ

pub data Codec (D : Type 0) : Type 0 where
  alac : AlacConfig → D → Codec D
  pcm : PcmConfig → Codec D

-- What the buffer calls. `aes_cbc_decrypt key iv blocks` is the `aes` and `cbc` crates' decryption
-- of whole blocks. The rest is the interface of codec/alac.rs: `decode_frame d packet n` decodes
-- into an output of `n` zero bytes, and gives the size that it returns (0 if it panics), the output
-- and the decoder's new state.
pub record Backend (D : Type 0) : Type 0 where
  pub aes_cbc_decrypt : List ℕ → List ℕ → List ℕ → List ℕ
  pub new_decoder : ℕ → ℕ → D
  pub set_info : D → List ℕ → D
  pub decode_frame : D → List ℕ → ℕ → ℕ × List ℕ × D

-- `i16::from_le_bytes` and `i16::from_be_bytes` of two bytes.
abbrev pub sample_le : ℕ → ℕ → ℤ
sample_le a b = i16 (a + b * 256)

abbrev pub sample_be : ℕ → ℕ → ℤ
sample_be a b = i16 (a * 256 + b)

-- Whole pairs of bytes over the slots of the output, for as long as there are both: the output, and
-- how many samples were written.
unfoldable pub write_samples : (ℕ → ℕ → ℤ) → List ℕ → List ℤ → List ℤ × ℕ
write_samples sample [] out = (out, 0)
write_samples sample (a ∷ []) out = (out, 0)
write_samples sample (a ∷ b ∷ bytes) [] = ([], 0)
write_samples sample (a ∷ b ∷ bytes) (o ∷ out) =
    let (written, n) = write_samples sample bytes out in (sample a b ∷ written, suc n)

module _ {D : Type 0} (k : Backend D) where
  -- Whole 16-byte blocks are decrypted, and what is left over stays in the clear.
  unfoldable pub decrypt_payload : Option AesSession → List ℕ → List ℕ
  decrypt_payload none payload = payload
  decrypt_payload (some s) payload =
      let encrypted_len = length payload / 16 * 16 in
      if ltb 0 encrypted_len
      then k.aes_cbc_decrypt s.key s.iv (take encrypted_len payload) ++ drop encrypted_len payload
      else payload

-- `failed` is an early return with its code; `silence` is the new `silence_samples`, if it changes.
pub data Outcome (D : Type 0) : Type 0 where
  failed : ℤ → Codec D → Outcome D
  decoded : (samples : List ℤ) → (n : ℕ) → (codec : Codec D) → (silence : Option ℕ) → Outcome D

module _ {D : Type 0} (k : Backend D) where
  unfoldable pub alac_outcome : AlacConfig → ℕ × List ℕ × D → ℕ → List ℤ → Outcome D
  unfolding write_samples
  alac_outcome config (output_size, s16_buf, decoder) capacity out =
      if output_size == 0
      then failed (pos 0) (alac config decoder)
      else (let limit = min output_size (capacity * 2) in
          let (samples, n) = write_samples sample_le (take limit s16_buf) out in
          decoded samples n (alac config decoder) none)

  unfoldable pub pcm_outcome : PcmConfig → List ℕ → List ℤ → Outcome D
  unfolding write_samples
  pcm_outcome config packet out =
      let frame_width = config.num_channels * 2 in
      if length packet == 0 || not (length packet % frame_width == 0)
      then failed (negsuc 0) (pcm config)
      else (let (samples, n) = write_samples sample_be packet out in
          if n == 0 then failed (pos 0) (pcm config) else decoded samples n (pcm config) (some n))

  -- Decodes a payload into the samples `out` of a slot that holds `capacity` of them.
  unfoldable pub decode_payload : Codec D → List ℕ → ℕ → List ℤ → Outcome D
  unfolding alac_outcome pcm_outcome
  decode_payload (alac config decoder) packet capacity out =
      alac_outcome config (k.decode_frame decoder packet (capacity * 2)) capacity out
  decode_payload (pcm config) packet capacity out = pcm_outcome config packet out
