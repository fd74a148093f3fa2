-- ===== src/Alac/Reader.antt =====
-- codec/alac.rs: the reader of bits, and the conversions of samples.
pub mod Bits
pub mod Values
use shairplay_rust.Base.{
  ℕ, ◌+◌, ◌-◌, ◌*◌, ◌/◌, ◌%◌, ◌^◌, ◌<◌, List, Bool, true, false, get_or, length, ltb, leb, ◌==◌,
  if◌then◌else◌,
}
use Prim.Native.Nat.{bit_or}
use shairplay_rust.Base.Words.{add32, sub32, shl32, shr32, sar32}

-- The position is `pos` bytes and `bit` bits.
pub record BitReader : Type 0 where
  pub buf : List ℕ
  pub pos : ℕ
  pub bit : ℕ

unfoldable pub new_reader : List ℕ → BitReader
new_reader buf = record { buf = buf; pos = 0; bit = 0 }

unfoldable pub readbits_16 : BitReader → ℕ → ℕ × BitReader
unfolding add32 sub32 shl32 shr32
readbits_16 r bits =
    let window =
      get_or r.buf r.pos 0 * 2 ^ 16
      + get_or r.buf (r.pos + 1) 0 * 2 ^ 8
      + get_or r.buf (r.pos + 2) 0 in
    let result = shr32 (shl32 window r.bit % 2 ^ 24) (sub32 24 bits) in
    let new_acc = add32 r.bit bits in
    (result, record r { pos = r.pos + new_acc / 8; bit = new_acc % 8 })

-- More than sixteen bits are two reads.
unfoldable pub readbits : BitReader → ℕ → ℕ × BitReader
unfolding readbits_16 shl32
readbits r bits =
    if ltb 16 bits
    then (let (high, r1) = readbits_16 r 16 in
        let (low, r2) = readbits_16 r1 (bits - 16) in (bit_or (shl32 high (bits - 16)) low, r2))
    else readbits_16 r bits

unfoldable pub readbit : BitReader → ℕ × BitReader
readbit r =
    let result = get_or r.buf r.pos 0 * 2 ^ r.bit / 2 ^ 7 % 2 in
    (result, record r { pos = r.pos + (r.bit + 1) / 8; bit = (r.bit + 1) % 8 })

-- A release build goes on below zero: the byte position wraps, and the bit is in range.
unfoldable pub unreadbits : BitReader → ℕ → BitReader
unreadbits r bits =
    let total = r.pos * 8 + r.bit in
    let below = bits - total in
    if leb bits total
    then record r { pos = (total - bits) / 8; bit = (total - bits) % 8 }
    else record r { pos = (2 ^ 64 - below / 8) % 2 ^ 64; bit = (8 - below % 8) % 8 }

unfoldable pub sign_extend_32 : ℕ → ℕ → ℕ
unfolding shl32 sar32 sub32
sign_extend_32 val bits = sar32 (shl32 val (sub32 32 bits)) (sub32 32 bits)

unfoldable pub sign_extend_24 : ℕ → ℕ
unfolding shl32 sar32
sign_extend_24 val = sar32 (shl32 val 8) 8
