-- ===== src/Alac/Subframe.antt =====
-- codec/alac.rs: the headers of a frame, and the reading of its channels.
use Prim.Native.Nat.{bit_or}
use shairplay_rust.Base.{
  ℕ, zero, suc, ◌-◌, ◌*◌, ◌/◌, not, Option, some, List, [], ◌∷◌, ◌++◌, replicate, ◌>>=◌, leb, ◌==◌,
  if◌then◌else◌,
}
use shairplay_rust.Base.Words.{sub32, mul32, shl32}
use shairplay_rust.Alac.{AlacDecoder}
use shairplay_rust.Alac.Reader.{BitReader, readbits, sign_extend_32, sign_extend_24}
use shairplay_rust.Alac.Rice.{RiceParams, entropy_rice_decode, write_at}
use shairplay_rust.Alac.Predictor.{predictor_decompress_fir_adapt}

pub record PredictorHeader : Type 0 where
  pub pred_quant : ℕ
  pub ricemod : ℕ
  pub pred_num : ℕ
  pub pred_table : List ℕ

-- The numbers of samples and bytes of the frame, which the header may replace, and its two answers.
pub record SubframeHeader : Type 0 where
  pub output_samples : ℕ
  pub output_size : ℕ
  pub uncompressed_bytes : ℕ
  pub is_not_compressed : ℕ

unfoldable pub parse_subframe_header : BitReader → ℕ → ℕ → ℕ → SubframeHeader × BitReader
unfolding readbits
parse_subframe_header r output_samples output_size bytes_per_sample =
    let r1 = (readbits (readbits r 4).1 12).1 in
    let (has_size, r2) = readbits r1 1 in
    let (uncompressed_bytes, r3) = readbits r2 2 in
    let (is_not_compressed, r4) = readbits r3 1 in
    let (explicit, r5) = readbits r4 32 in
    if not (has_size == 0)
    then (
      record {
        output_samples = explicit;
        output_size = explicit * bytes_per_sample;
        uncompressed_bytes = uncompressed_bytes;
        is_not_compressed = is_not_compressed;
      },
      r5,
    )
    else (
      record {
        output_samples = output_samples;
        output_size = output_size;
        uncompressed_bytes = uncompressed_bytes;
        is_not_compressed = is_not_compressed;
      },
      r4,
    )

-- Values of so many bits, in order.
unfoldable pub read_values : ℕ → BitReader → ℕ → List ℕ × BitReader
unfolding readbits
read_values zero r bits = ([], r)
read_values (suc count) r bits =
    let (v, r1) = readbits r bits in let (vs, r2) = read_values count r1 bits in (v ∷ vs, r2)

unfoldable pub read_predictor_header : BitReader → PredictorHeader × BitReader
unfolding readbits read_values
read_predictor_header r =
    let (pred_quant, r1) = readbits (readbits r 4).1 4 in
    let (ricemod, r2) = readbits r1 3 in
    let (pred_num, r3) = readbits r2 5 in
    let (coefficients, r4) = read_values pred_num r3 16 in
    (
      record {
        pred_quant = pred_quant;
        ricemod = ricemod;
        pred_num = pred_num;
        pred_table = coefficients ++ replicate (32 - pred_num) 0;
      },
      r4,
    )

-- One channel: the errors, and the samples that they make; each with the buffer's old contents.
unfoldable pub decode_channel :
    AlacDecoder
    → BitReader
    → List ℕ
    → List ℕ
    → ℕ
    → ℕ
    → PredictorHeader
    → Option (List ℕ × List ℕ × BitReader)
unfolding mul32 sub32 shl32 entropy_rice_decode predictor_decompress_fir_adapt
decode_channel d r prederr out output_samples readsamplesize hdr =
    let rice : RiceParams = record {
      initial_history = d.rice_initial_history;
      k_modifier = d.rice_k_modifier;
      history_mult = mul32 hdr.ricemod d.rice_history_mult / 4;
      k_modifier_mask = sub32 (shl32 1 d.rice_k_modifier) 1;
    } in
    entropy_rice_decode r prederr output_samples readsamplesize rice >>= λ decoded.
    predictor_decompress_fir_adapt decoded.1 out output_samples readsamplesize hdr.pred_table
      hdr.pred_num hdr.pred_quant
    >>= λ predicted. some (decoded.1, predicted.0, decoded.0)

-- A sample of a frame that is not compressed.
unfoldable pub read_sample : ℕ → BitReader → ℕ × BitReader
unfolding readbits shl32 sign_extend_32 sign_extend_24
read_sample size r =
    let (v, r1) = readbits r size in
    let (high, r2) = readbits r 16 in
    let (low, r3) = readbits r2 (size - 16) in
    if leb size 16
    then (sign_extend_32 v size, r1)
    else (sign_extend_24 (bit_or (shl32 high (size - 16)) low), r3)

-- `count` samples into the buffer from `i` on.
unfoldable pub read_mono : ℕ → ℕ → ℕ → BitReader → List ℕ → Option (List ℕ × BitReader)
unfolding read_sample
read_mono zero i size r a = some (a, r)
read_mono (suc count) i size r a =
    let (v, r1) = read_sample size r in write_at a i v >>= λ a1. read_mono count (suc i) size r1 a1

unfoldable pub read_stereo :
    ℕ → ℕ → ℕ → BitReader → List ℕ → List ℕ → Option (List ℕ × List ℕ × BitReader)
unfolding read_sample
read_stereo zero i size r a b = some (a, b, r)
read_stereo (suc count) i size r a b =
    let (v, r1) = read_sample size r in
    let (w, r2) = read_sample size r1 in
    write_at a i v >>= λ a1. write_at b i w >>= λ b1. read_stereo count (suc i) size r2 a1 b1
