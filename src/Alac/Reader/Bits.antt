-- ===== src/Alac/Reader/Bits.antt =====
-- codec/alac.rs: the reader of bits against the bits of the input.
use native.Mathlib.Nat.{
  add-mul-div_left, div-div-eq-div-mul, div-add-mod, one-le-pow, mul_comm, mul_assoc,
  mul-div-mul_right, pow-suc,
}
use shairplay_rust.Base.{
  ℕ, zero, suc, ◌+◌, ◌-◌, ◌*◌, ◌/◌, ◌%◌, ◌^◌, ◌<◌, ◌≤◌, List, [], ◌∷◌, get_or, ◌≡◌, refl, sym, ap,
  ◌∙◌, arith, All,
}
use shairplay_rust.Base.Words.{IsByte}
use shairplay_rust.Alac.Reader.{BitReader}

pub pow_pos : (n : ℕ) → 0 < 2 ^ n
pow_pos n = one-le-pow n 2 (omega arith)

pub pow_sum : (m n : ℕ) → 2 ^ (m + n) ≡ 2 ^ m * 2 ^ n
pow_sum m zero = ap (λ k. 2 ^ k) plus ∙ times (2 ^ m)
  where
    plus : m + zero ≡ m
    plus = omega arith

    times : (x : ℕ) → x ≡ x * 2 ^ zero
    times x = omega arith
pow_sum m (suc n) =
    ap (λ k. 2 ^ k) plus
    ∙ pow-suc 2 (m + n)
    ∙ ap (λ x. x * 2) (pow_sum m n)
    ∙ mul_assoc (2 ^ m) (2 ^ n) 2
    ∙ ap (λ x. 2 ^ m * x) (sym (pow-suc 2 n))
  where
    plus : m + suc n ≡ suc (m + n)
    plus = omega arith

-- The digit at a place is that of the remainder by a higher power.
digit_of_mod : (w e c : ℕ) → 0 < e → w % (e * (2 * c)) / e % 2 ≡ w / e % 2
digit_of_mod w e c h =
    let m = e * (2 * c) in
    let q = w / m in
    let r = w % m in
    let split : w ≡ r + e * (2 * (c * q)) = sym (div-add-mod w m) ∙ moved q r in
    let shifted = ap (λ x. x / e) split ∙ add-mul-div_left r (2 * (c * q)) h in
    even (r / e) (c * q) ∙ sym (ap (λ x. x % 2) shifted)
  where
    even : (x y : ℕ) → x % 2 ≡ (x + 2 * y) % 2
    even x y = omega arith

    moved : (q r : ℕ) → e * (2 * c) * q + r ≡ r + e * (2 * (c * q))
    moved q r =
        ap (λ x. x + r) (mul_assoc e (2 * c) q ∙ ap (λ x. e * x) (mul_assoc 2 c q)) ∙ omega arith

pow_split : (t c whole : ℕ) → t + suc c ≡ whole → 2 ^ t * (2 * 2 ^ c) ≡ 2 ^ whole
pow_split t c whole h =
    ap (λ x. 2 ^ t * x) (mul_comm 2 (2 ^ c) ∙ sym (pow-suc 2 c))
    ∙ sym (pow_sum t (suc c))
    ∙ ap (λ k. 2 ^ k) h

-- A digit of a number below a power, when the number is shifted and cut off.
digit_of_cut :
    (w place above whole : ℕ)
    → place + suc above ≡ whole
    → w % 2 ^ whole / 2 ^ place % 2 ≡ w / 2 ^ place % 2
digit_of_cut w place above whole h =
    ap (λ m. w % m / 2 ^ place % 2) (sym (pow_split place above whole h))
    ∙ digit_of_mod w (2 ^ place) (2 ^ above) (pow_pos place)

digit_of_shifted :
    (w b n : ℕ)
    → b + n < 24
    → w * 2 ^ b % 2 ^ 32 % 2 ^ 24 / 2 ^ (23 - n) % 2 ≡ w / 2 ^ (23 - (b + n)) % 2
digit_of_shifted w b n h =
    digit_of_cut (w * 2 ^ b % 2 ^ 32) (23 - n) n 24 (omega arith)
    ∙ digit_of_cut (w * 2 ^ b) (23 - n) (8 + n) 32 (omega arith)
    ∙ ap (λ p. w * 2 ^ b / p % 2) (ap (λ k. 2 ^ k) place ∙ pow_sum (23 - (b + n)) b)
    ∙ ap (λ x. x % 2) (mul-div-mul_right w (2 ^ (23 - (b + n))) (pow_pos b))
  where
    place : 23 - n ≡ 23 - (b + n) + b
    place = omega arith

abbrev pub window : ℕ → ℕ → ℕ → ℕ
window b0 b1 b2 = b0 * 2 ^ 16 + b1 * 2 ^ 8 + b2

-- The byte at 0, 1 or 2.
abbrev byte_at : ℕ → ℕ → ℕ → ℕ → ℕ
byte_at b0 b1 b2 zero = b0
byte_at b0 b1 b2 (suc zero) = b1
byte_at b0 b1 b2 (suc (suc n)) = b2

-- A window of three bytes has the digits of the bytes.
module _ (b0 b1 b2 : ℕ) (h1 : b1 < 256) (h2 : b2 < 256) where
  digit_of_first : (t : ℕ) → window b0 b1 b2 / (2 ^ 16 * 2 ^ t) ≡ b0 / 2 ^ t
  digit_of_first t =
      sym (div-div-eq-div-mul (window b0 b1 b2) (2 ^ 16) (2 ^ t)) ∙ ap (λ x. x / 2 ^ t) top
    where
      top : window b0 b1 b2 / 2 ^ 16 ≡ b0
      top = omega arith

  -- Below the first byte, where `c` is the power above the digit within its byte.
  digit_of_second :
      (t c : ℕ) → 2 ^ t * (2 * c) ≡ 2 ^ 8 → window b0 b1 b2 / (2 ^ 8 * 2 ^ t) % 2 ≡ b1 / 2 ^ t % 2
  digit_of_second t c e =
      ap (λ x. x % 2) (sym (div-div-eq-div-mul (window b0 b1 b2) (2 ^ 8) (2 ^ t)))
      ∙ ap (λ x. x / 2 ^ t % 2) top
      ∙ sym (digit_of_mod (b0 * 2 ^ 8 + b1) (2 ^ t) c (pow_pos t))
      ∙ ap (λ m. (b0 * 2 ^ 8 + b1) % m / 2 ^ t % 2) e
      ∙ ap (λ x. x / 2 ^ t % 2) low
    where
      top : window b0 b1 b2 / 2 ^ 8 ≡ b0 * 2 ^ 8 + b1
      top = omega arith

      low : (b0 * 2 ^ 8 + b1) % 2 ^ 8 ≡ b1
      low = omega arith

  digit_of_third :
      (t c : ℕ) → 2 ^ t * (2 * c) ≡ 2 ^ 8 → window b0 b1 b2 / 2 ^ t % 2 ≡ b2 / 2 ^ t % 2
  digit_of_third t c e =
      sym (digit_of_mod (window b0 b1 b2) (2 ^ t) c (pow_pos t))
      ∙ ap (λ m. window b0 b1 b2 % m / 2 ^ t % 2) e
      ∙ ap (λ x. x / 2 ^ t % 2) low
    where
      low : window b0 b1 b2 % 2 ^ 8 ≡ b2
      low = omega arith

  digit_of_byte :
      (q t : ℕ)
      → q < 3
      → t < 8
      → window b0 b1 b2 / 2 ^ (8 * (2 - q) + t) % 2 ≡ byte_at b0 b1 b2 q / 2 ^ t % 2
  digit_of_byte zero t hq h =
      ap (λ p. window b0 b1 b2 / p % 2) (pow_sum 16 t) ∙ ap (λ x. x % 2) (digit_of_first t)
  digit_of_byte (suc zero) t hq h =
      ap (λ p. window b0 b1 b2 / p % 2) (pow_sum 8 t)
      ∙ digit_of_second t (2 ^ (7 - t)) (pow_split t (7 - t) 8 (omega arith))
  digit_of_byte (suc (suc zero)) t hq h =
      ap (λ k. window b0 b1 b2 / 2 ^ k % 2) none_above
      ∙ digit_of_third t (2 ^ (7 - t)) (pow_split t (7 - t) 8 (omega arith))
    where
      none_above : 8 * (2 - suc (suc zero)) + t ≡ t
      none_above = omega arith
  digit_of_byte (suc (suc (suc q))) t hq h = absurd (omega arith)

  digit_of_window :
      (j : ℕ)
      → j < 24
      → window b0 b1 b2 / 2 ^ (23 - j) % 2 ≡ byte_at b0 b1 b2 (j / 8) / 2 ^ (7 - j % 8) % 2
  digit_of_window j hj =
      ap (λ k. window b0 b1 b2 / 2 ^ k % 2) place
      ∙ digit_of_byte (j / 8) (7 - j % 8) (omega arith) (omega arith)
    where
      place : 23 - j ≡ 8 * (2 - j / 8) + (7 - j % 8)
      place = omega arith

-- The bit at a place of the input, from the top bit of the first byte; zero behind the end.
unfoldable pub bit_at : List ℕ → ℕ → ℕ
bit_at buf p = get_or buf (p / 8) 0 / 2 ^ (7 - p % 8) % 2

-- The number whose binary digits are the `n` bits from the place `p` on.
unfoldable pub bits_value : List ℕ → ℕ → ℕ → ℕ
unfolding bit_at
bits_value buf p zero = 0
bits_value buf p (suc n) = 2 * bits_value buf p n + bit_at buf (p + n)

abbrev pub position : BitReader → ℕ
position r = 8 * r.pos + r.bit

pub get_or-IsByte : (buf : List ℕ) (i : ℕ) → All IsByte buf → get_or buf i 0 < 256
get_or-IsByte [] i h = omega arith
get_or-IsByte (b ∷ bs) zero (hb, h) = hb
get_or-IsByte (b ∷ bs) (suc i) (hb, h) = get_or-IsByte bs i h

module _ (buf : List ℕ) (pos : ℕ) (bytes : All IsByte buf) where
  abbrev pub window_at : ℕ
  window_at = window (get_or buf pos 0) (get_or buf (pos + 1) 0) (get_or buf (pos + 2) 0)

  byte_at-get_or :
      (q : ℕ)
      → q < 3
      → byte_at (get_or buf pos 0) (get_or buf (pos + 1) 0) (get_or buf (pos + 2) 0) q
        ≡ get_or buf (pos + q) 0
  byte_at-get_or zero h = ap (λ i. get_or buf i 0) (omega arith)
  byte_at-get_or (suc zero) h = refl
  byte_at-get_or (suc (suc zero)) h = refl
  byte_at-get_or (suc (suc (suc q))) h = absurd (omega arith)

  -- The digits of the window are the bits from its first byte on.
  window-bit_at : (j : ℕ) → j < 24 → window_at / 2 ^ (23 - j) % 2 ≡ bit_at buf (8 * pos + j)
  unfolding bit_at
  window-bit_at j h =
      digit_of_window (get_or buf pos 0) (get_or buf (pos + 1) 0) (get_or buf (pos + 2) 0)
        (get_or-IsByte buf (pos + 1) bytes) (get_or-IsByte buf (pos + 2) bytes) j h
      ∙ ap (λ x. x / 2 ^ (7 - j % 8) % 2) (byte_at-get_or (j / 8) (omega arith))
      ∙ rw (byte, bit) refl
    where
      byte : (8 * pos + j) / 8 ≡ pos + j / 8
      byte = omega arith

      bit : (8 * pos + j) % 8 ≡ j % 8
      bit = omega arith

-- The first `n` digits of the 24 behind the first `b`.
abbrev pub first_digits : ℕ → ℕ → ℕ → ℕ
first_digits w b n = w * 2 ^ b % 2 ^ 32 % 2 ^ 24 / 2 ^ (24 - n)

first_digits-suc :
    (w b n : ℕ)
    → b + n < 24
    → first_digits w b (suc n) ≡ 2 * first_digits w b n + w / 2 ^ (23 - (b + n)) % 2
first_digits-suc w b n h =
    let x = w * 2 ^ b % 2 ^ 32 % 2 ^ 24 in
    halved (x / 2 ^ (24 - suc n))
    ∙ ap (λ y. 2 * y + x / 2 ^ (24 - suc n) % 2)
        (div-div-eq-div-mul x (2 ^ (24 - suc n)) 2
          ∙ ap (λ p. x / p) (sym (pow-suc 2 (24 - suc n)) ∙ ap (λ k. 2 ^ k) one_more))
    ∙ ap (λ k. 2 * first_digits w b n + x / 2 ^ k % 2) same
    ∙ ap (λ y. 2 * first_digits w b n + y) (digit_of_shifted w b n h)
  where
    halved : (y : ℕ) → y ≡ 2 * (y / 2) + y % 2
    halved y = omega arith

    one_more : suc (24 - suc n) ≡ 24 - n
    one_more = omega arith

    same : 24 - suc n ≡ 23 - n
    same = omega arith

module _ (buf : List ℕ) (pos b : ℕ) (bytes : All IsByte buf) (hb : b < 8) where
  pub first_digits-bits_value :
      (n : ℕ) → n ≤ 16 → first_digits (window_at buf pos bytes) b n ≡ bits_value buf (8 * pos + b) n
  unfolding bits_value
  first_digits-bits_value zero h = omega arith
  first_digits-bits_value (suc n) h =
      first_digits-suc (window_at buf pos bytes) b n (omega arith)
      ∙ ap (λ y. 2 * y + window_at buf pos bytes / 2 ^ (23 - (b + n)) % 2)
          (first_digits-bits_value n (omega arith))
      ∙ ap (λ y. 2 * bits_value buf (8 * pos + b) n + y)
          (window-bit_at buf pos bytes (b + n) (omega arith) ∙ ap (λ p. bit_at buf p) place)
    where
      place : 8 * pos + (b + n) ≡ 8 * pos + b + n
      place = omega arith
