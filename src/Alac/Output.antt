-- ===== src/Alac/Output.antt =====
-- codec/alac.rs: the samples of a decoded frame as bytes.
use Prim.Native.Nat.{bit_and, bit_or}
use shairplay_rust.Base.{
  ℕ, zero, suc, ◌+◌, ◌-◌, ◌*◌, ◌/◌, ◌%◌, ◌^◌, not, Option, none, some, List, [], ◌∷◌, ◌++◌, length,
  take, drop, get_or, ◌>>=◌, ltb, leb, ◌==◌, if◌then◌else◌,
}
use shairplay_rust.Base.Words.{add32, sub32, mul32, shl32, sar32, u16_to_le_bytes}
use shairplay_rust.Alac.{AlacDecoder}
use shairplay_rust.Alac.Subframe.{SubframeHeader}

-- A write of some bytes, which panics out of bounds.
unfoldable pub write_bytes : List ℕ → ℕ → List ℕ → Option (List ℕ)
write_bytes out off bytes =
    if leb (off + length bytes) (length out)
    then some (take off out ++ bytes ++ drop (off + length bytes) out)
    else none

-- `count` samples from the one at `i` on, each of `stride` bytes.
unfoldable pub emit : ℕ → ℕ → ℕ → (ℕ → Option (List ℕ)) → List ℕ → Option (List ℕ)
unfolding write_bytes
emit zero i stride bytes_of out = some out
emit (suc count) i stride bytes_of out = bytes_of i >>= λ bytes.
    write_bytes out (i * stride) bytes >>= λ out1. emit count (suc i) stride bytes_of out1

-- The element at an index, which panics out of bounds.
abbrev pub at : List ℕ → ℕ → Option ℕ
at xs i = if ltb i (length xs) then some (get_or xs i 0) else none

unfoldable pub three_bytes : ℕ → List ℕ
three_bytes sample = sample % 256 ∷ sample / 2 ^ 8 % 256 ∷ sample / 2 ^ 16 % 256 ∷ []

-- The low bytes that were stored apart, below the sample.
unfoldable pub with_low : ℕ → ℕ → ℕ → ℕ
unfolding shl32
with_low uncompressed_bytes sample low =
    let mask = 2 ^ 32 - 1 - shl32 (2 ^ 32 - 1) (uncompressed_bytes * 8) in
    if ltb 0 uncompressed_bytes
    then bit_or (shl32 sample (uncompressed_bytes * 8)) (bit_and low mask)
    else sample

-- The left and the right sample of a pair.
unfoldable pub unmix : ℕ → ℕ → ℕ → ℕ → ℕ × ℕ
unfolding add32 sub32 mul32 sar32
unmix shift leftweight a b =
    let r = sub32 a (sar32 (mul32 b leftweight) shift) in
    if not (leftweight == 0) then (add32 r b, r) else (a, b)

-- The low bytes of a sample, if they are stored.
abbrev low_at : ℕ → List ℕ → ℕ → Option ℕ
low_at uncompressed_bytes buffer i = if ltb 0 uncompressed_bytes then at buffer i else some 0

-- What a frame's reading leaves: the decoder's buffers, and how the pairs are mixed.
pub record Read : Type 0 where
  pub decoder : AlacDecoder
  pub shift : ℕ
  pub leftweight : ℕ

unfoldable pub deinterlace_16 : Read → ℕ → Option (List ℕ)
unfolding unmix u16_to_le_bytes
deinterlace_16 c i = at c.decoder.outputsamples_buffer_a i >>= λ a.
    at c.decoder.outputsamples_buffer_b i >>= λ b.
    let (left, right) = unmix c.shift c.leftweight a b in
    some (u16_to_le_bytes (left % 2 ^ 16) ++ u16_to_le_bytes (right % 2 ^ 16))

unfoldable pub deinterlace_24 : Read → ℕ → ℕ → Option (List ℕ)
unfolding unmix with_low three_bytes
deinterlace_24 c uncompressed_bytes i = at c.decoder.outputsamples_buffer_a i >>= λ a.
    at c.decoder.outputsamples_buffer_b i >>= λ b.
    low_at uncompressed_bytes c.decoder.uncompressed_bytes_buffer_a i >>= λ low_a.
    low_at uncompressed_bytes c.decoder.uncompressed_bytes_buffer_b i >>= λ low_b.
    let (left, right) = unmix c.shift c.leftweight a b in
    some (
      three_bytes (with_low uncompressed_bytes left low_a)
      ++ three_bytes (with_low uncompressed_bytes right low_b))

-- The samples of one channel.
unfoldable pub mono_bytes : Read → SubframeHeader → ℕ → Option (List ℕ)
unfolding with_low three_bytes u16_to_le_bytes
mono_bytes c h i =
    let bytes = if h.is_not_compressed == 0 then h.uncompressed_bytes else 0 in
    at c.decoder.outputsamples_buffer_a i >>= λ a.
    if c.decoder.sample_size_config == 16
    then some (u16_to_le_bytes (a % 2 ^ 16))
    else (low_at bytes c.decoder.uncompressed_bytes_buffer_a i >>= λ low.
        some (three_bytes (with_low bytes a low)))

unfoldable pub stereo_bytes : Read → SubframeHeader → ℕ → Option (List ℕ)
unfolding deinterlace_16 deinterlace_24
stereo_bytes c h i =
    if c.decoder.sample_size_config == 16
    then deinterlace_16 c i
    else deinterlace_24 c h.uncompressed_bytes i
