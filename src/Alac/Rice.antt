-- ===== src/Alac/Rice.antt =====
-- codec/alac.rs: the adaptive Rice decoder.
use Prim.Native.Nat.{bit_and}
use shairplay_rust.Base.{
  ℕ, zero, suc, ◌+◌, ◌-◌, ◌/◌, ◌%◌, ◌^◌, min, true, false, not, ◌&&◌, Option, none, some, List,
  ◌++◌, length, take, drop, replicate, set, ◌||◌, ◌>>=◌, ltb, leb, ◌==◌, if◌then◌else◌,
}
use shairplay_rust.Base.Words.{add32, sub32, mul32, shl32, shr32, sar32, is_neg32, is_pos32}
use shairplay_rust.Alac.Reader.{BitReader, readbits, readbit, unreadbits}

-- The number of binary digits, at most as many as the fuel.
bit_length : ℕ → ℕ → ℕ
bit_length zero v = 0
bit_length (suc fuel) v = let rest = suc (bit_length fuel (v / 2)) in if v == 0 then 0 else rest

unfoldable pub count_leading_zeros : ℕ → ℕ
unfolding bit_length
count_leading_zeros input = 32 - bit_length 32 input

abbrev pub rice_threshold : ℕ
rice_threshold = 8

-- Ones up to a zero, which is read too; at most `fuel` of them.
unfoldable pub read_ones : ℕ → ℕ → BitReader → ℕ × BitReader
unfolding readbit
read_ones zero x r = (x, r)
read_ones (suc fuel) x r =
    let (b, r1) = readbit r in
    let rest = read_ones fuel (x + 1) r1 in if b == 0 then (x, r1) else rest

-- What follows the ones.
unfoldable pub decode_rest : ℕ × BitReader → ℕ → ℕ → ℕ → ℕ × BitReader
unfolding readbits unreadbits
decode_rest (x, r) read_sample_size k rice_kmodifier_mask =
    if ltb rice_threshold x
    then (let (value, r1) = readbits r read_sample_size in
        (bit_and value (shr32 (2 ^ 32 - 1) (sub32 32 read_sample_size)), r1))
    else if not (k == 1)
    then (let (extra_bits, r1) = readbits r k in
        let scaled = mul32 x (bit_and (sub32 (shl32 1 k) 1) rice_kmodifier_mask) in
        if ltb 1 extra_bits
        then (add32 scaled (sub32 extra_bits 1), r1)
        else (scaled, unreadbits r1 1))
    else (x, r)

unfoldable pub entropy_decode_value : BitReader → ℕ → ℕ → ℕ → ℕ × BitReader
unfolding read_ones decode_rest
entropy_decode_value r read_sample_size k rice_kmodifier_mask =
    decode_rest (read_ones (suc rice_threshold) 0 r) read_sample_size k rice_kmodifier_mask

pub record RiceParams : Type 0 where
  pub initial_history : ℕ
  pub k_modifier : ℕ
  pub history_mult : ℕ
  pub k_modifier_mask : ℕ

-- The number of bits behind the ones, by the history.
unfoldable pub rice_k : RiceParams → ℕ → ℕ
unfolding count_leading_zeros sub32 add32 sar32
rice_k rice history =
    let v = sub32 (sub32 31 rice.k_modifier) (count_leading_zeros (add32 (sar32 history 9) 3)) in
    if is_neg32 v then add32 v rice.k_modifier else rice.k_modifier

-- `(decoded_value + 1) / 2`, negated for an odd value; the division is towards zero.
unfoldable pub unfold_sign : ℕ → ℕ
unfolding add32 sub32
unfold_sign decoded_value =
    let w = add32 decoded_value 1 in
    let v = if is_neg32 w then sub32 0 (sub32 0 w / 2) else w / 2 in
    if decoded_value % 2 == 1 then sub32 0 v else v

-- The history behind a value.
unfoldable pub next_history : RiceParams → ℕ → ℕ → ℕ
unfolding add32 sub32 mul32 sar32
next_history rice history decoded_value =
    let moved =
      add32 history (
        sub32 (mul32 decoded_value rice.history_mult)
          (sar32 (mul32 history rice.history_mult) 9)) in
    if not (is_neg32 decoded_value) && ltb 0xFFFF decoded_value then 0xFFFF else moved

-- A write that panics out of bounds, and a fill of the elements from `start` to before `end`.
abbrev pub write_at : List ℕ → ℕ → ℕ → Option (List ℕ)
write_at out i v = if ltb i (length out) then some (set out i v) else none

abbrev pub zero_range : List ℕ → ℕ → ℕ → Option (List ℕ)
zero_range out start end =
    if leb start end && leb end (length out)
    then some (take start out ++ replicate (end - start) 0 ++ drop end out)
    else none

-- The variables of the loop: the reader, the output, the history, the sign modifier and the index.
pub record RiceState : Type 0 where
  pub reader : BitReader
  pub output : List ℕ
  pub history : ℕ
  pub sign_modifier : ℕ
  pub index : ℕ

-- A run of zeros behind a value, when the history is short.
unfoldable pub zero_run : RiceParams → ℕ → RiceState → Option RiceState
unfolding count_leading_zeros entropy_decode_value add32 sub32
zero_run rice output_size s =
    let k = sub32 (add32 (count_leading_zeros s.history) (add32 s.history 16 / 64)) 24 in
    let (block_size, r) = entropy_decode_value s.reader 16 k rice.k_modifier_mask in
    let sign = if is_pos32 block_size && ltb 0xFFFF block_size then 0 else 1 in
    if is_pos32 block_size
    then (let end = min (s.index + 1 + block_size) output_size in
        zero_range s.output (s.index + 1) end >>= λ output. some (record {
          reader = r;
          output = output;
          history = 0;
          sign_modifier = sign;
          index = end - 1;
        }))
    else some (record s { reader = r; history = 0; sign_modifier = sign })

-- One round of the loop, up to the increment of the index.
unfoldable pub rice_round : RiceParams → ℕ → ℕ → RiceState → Option RiceState
unfolding rice_k entropy_decode_value unfold_sign next_history zero_run add32
rice_round rice output_size read_sample_size s =
    let (value, r) =
      entropy_decode_value s.reader read_sample_size (rice_k rice s.history) (2 ^ 32 - 1) in
    let decoded_value = add32 value s.sign_modifier in
    let history = next_history rice s.history decoded_value in
    write_at s.output s.index (unfold_sign decoded_value) >>= λ output.
    let s1 = record s { reader = r; output = output; history = history; sign_modifier = 0 } in
    if (is_neg32 history || ltb history 128) && ltb (s.index + 1) output_size
    then zero_run rice output_size s1
    else some s1

-- The loop; each round moves the index on, so that `output_size` rounds are enough.
unfoldable pub rice_loop : ℕ → RiceParams → ℕ → ℕ → RiceState → Option RiceState
unfolding rice_round
rice_loop zero rice output_size read_sample_size s = some s
rice_loop (suc fuel) rice output_size read_sample_size s = elim (ltb s.index output_size) [
  | false ↦ some s
  | true ↦ (rice_round rice output_size read_sample_size s) >>= λ s1.
      rice_loop fuel rice output_size read_sample_size (record s1 { index = s1.index + 1 })
]

unfoldable pub entropy_rice_decode :
    BitReader → List ℕ → ℕ → ℕ → RiceParams → Option (BitReader × List ℕ)
unfolding rice_loop
entropy_rice_decode r output output_size read_sample_size rice =
    rice_loop output_size rice output_size read_sample_size (record {
      reader = r;
      output = output;
      history = rice.initial_history;
      sign_modifier = 0;
      index = 0;
    })
    >>= λ s. some (s.reader, s.output)
