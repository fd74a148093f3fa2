-- ===== src/Alac/Reader/Values.antt =====
-- codec/alac.rs: what the reader's operations read.
use native.Mathlib.Nat.{mul-div-mul_right}
use shairplay_rust.Base.{
  ℕ, zero, ◌+◌, ◌-◌, ◌*◌, ◌/◌, ◌%◌, ◌^◌, ◌<◌, ◌≤◌, get_or, ◌≡◌, refl, sym, ap, ◌∙◌, arith, All,
  ge→ltb, leb, true,
}
use shairplay_rust.Base.Words.{add32, sub32, shl32, shr32, IsByte}
use shairplay_rust.Alac.Reader.{BitReader, readbits_16, readbits, readbit, unreadbits}
use shairplay_rust.Alac.Reader.Bits.{
  bit_at, bits_value, position, first_digits-bits_value, pow_pos, pow_sum,
}

-- A reader whose input is bytes and whose bit is one of eight.
abbrev pub IsReader : BitReader → Type 0
IsReader r = All IsByte r.buf × (r.bit < 8)

module _ (r : BitReader) (bytes : All IsByte r.buf) (hb : r.bit < 8) where
  readbits_16-bits_value : (n : ℕ) → n ≤ 16 → (readbits_16 r n).0 ≡ bits_value r.buf (position r) n
  unfolding readbits_16 shr32 shl32 sub32
  readbits_16-bits_value n h =
      rw (shift, back) (first_digits-bits_value r.buf r.pos r.bit bytes hb n h)
    where
      shift : r.bit % 32 ≡ r.bit
      shift = omega arith

      back : (24 + (2 ^ 32 - n % 2 ^ 32)) % 2 ^ 32 % 32 ≡ 24 - n
      back = omega arith

  readbits_16-moved :
      (n : ℕ)
      → n ≤ 16
      → (readbits_16 r n).1 ≡ record r { pos = (position r + n) / 8; bit = (position r + n) % 8 }
  unfolding readbits_16 add32
  readbits_16-moved n h = rw (byte, bit) refl
    where
      byte : r.pos + (r.bit + n) % 2 ^ 32 / 8 ≡ (position r + n) / 8
      byte = omega arith

      bit : (r.bit + n) % 2 ^ 32 % 8 ≡ (position r + n) % 8
      bit = omega arith

  readbits-readbits_16 : (n : ℕ) → n ≤ 16 → readbits r n ≡ readbits_16 r n
  unfolding readbits
  readbits-readbits_16 n h = rw (ge→ltb 16 n h) refl

  -- Up to sixteen bits are read as the number whose binary digits are the next bits of the input, zeros
  -- behind its end, and the reader is then as many bits further.
  pub readbits-bits_value :
      (n : ℕ)
      → n ≤ 16
      → readbits r n ≡ (
        bits_value r.buf (position r) n,
        record r { pos = (position r + n) / 8; bit = (position r + n) % 8 },
      )
  readbits-bits_value n h =
      readbits-readbits_16 n h
      ∙ ap (λ v. (v, (readbits_16 r n).1)) (readbits_16-bits_value n h)
      ∙ ap (λ r1. (bits_value r.buf (position r) n, r1)) (readbits_16-moved n h)

  readbit-bit_at : readbit r ≡ (
    bit_at r.buf (position r),
    record r { pos = (position r + 1) / 8; bit = (position r + 1) % 8 },
  )
  unfolding readbit bit_at
  readbit-bit_at = rw (value, byte, bit, here, within) refl
    where
      value : get_or r.buf r.pos 0 * 2 ^ r.bit / 2 ^ 7 ≡ get_or r.buf r.pos 0 / 2 ^ (7 - r.bit)
      value =
          ap (λ p. get_or r.buf r.pos 0 * 2 ^ r.bit / p)
            (ap (λ k. 2 ^ k) whole ∙ pow_sum (7 - r.bit) r.bit)
          ∙ mul-div-mul_right (get_or r.buf r.pos 0) (2 ^ (7 - r.bit)) (pow_pos r.bit)
        where
          whole : 7 ≡ 7 - r.bit + r.bit
          whole = omega arith

      byte : r.pos + (r.bit + 1) / 8 ≡ (position r + 1) / 8
      byte = omega arith

      bit : (r.bit + 1) % 8 ≡ (position r + 1) % 8
      bit = omega arith

      here : position r / 8 ≡ r.pos
      here = omega arith

      within : position r % 8 ≡ r.bit
      within = omega arith

  -- Reading one bit is reading a number of one bit.
  pub readbit-readbits : readbit r ≡ readbits r 1
  unfolding bits_value
  readbit-readbits =
      readbit-bit_at ∙ ap (λ v. (v, moved)) one ∙ sym (readbits-bits_value 1 (omega arith))
    where
      moved : BitReader
      moved = record r { pos = (position r + 1) / 8; bit = (position r + 1) % 8 }

      plus : position r + zero ≡ position r
      plus = omega arith

      none_before : (x : ℕ) → x ≡ 2 * zero + x
      none_before x = omega arith

      one : bit_at r.buf (position r) ≡ bits_value r.buf (position r) 1
      one = none_before (bit_at r.buf (position r)) ∙ ap (λ p. 2 * zero + bit_at r.buf p) (sym plus)

  -- Giving back the bits that were read, up to sixteen, restores the reader.
  pub unreadbits-readbits : (n : ℕ) → n ≤ 16 → unreadbits (readbits r n).1 n ≡ r
  unfolding unreadbits
  unreadbits-readbits n h =
      ap (λ p. unreadbits (p.1) n) (readbits-bits_value n h) ∙ rw (whole, fits, byte, bit) refl
    where
      whole : (position r + n) / 8 * 8 + (position r + n) % 8 ≡ position r + n
      whole = omega arith

      fits : leb n (position r + n) ≡ true
      fits = ground arith

      byte : (position r + n - n) / 8 ≡ r.pos
      byte = omega arith

      bit : (position r + n - n) % 8 ≡ r.bit
      bit = omega arith
