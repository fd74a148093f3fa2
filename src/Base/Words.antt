-- ===== src/Base/Words.antt =====
-- Machine words: the byte orders, and signed readings of bit patterns.
use Prim.Native.Nat.{ℕ, zero, suc, ◌+◌, ◌-◌, ◌*◌, ◌/◌, ◌%◌, ◌^◌, ◌<◌}
use mathlib.Core.Path.{◌≡◌, ap, ◌∙◌}
use native.Mathlib.Nat.{pow-suc}
use mathlib.Core.Bool.{Bool, ◌&&◌}
use mathlib.Core.List.{List, [], ◌∷◌}
use native.Mathlib.Omega.{arith}
use shairplay_rust.Base.Tests.{ltb, leb, if◌then◌else◌}

abbrev pub IsByte : ℕ → Type 0
IsByte b = b < 256

abbrev pub IsU16 : ℕ → Type 0
IsU16 w = w < 2 ^ 16

abbrev pub IsU32 : ℕ → Type 0
IsU32 w = w < 2 ^ 32

abbrev pub IsU64 : ℕ → Type 0
IsU64 w = w < 2 ^ 64

-- `from_be_bytes` over however many bytes there are.
unfoldable pub be_acc : ℕ → List ℕ → ℕ
be_acc acc [] = acc
be_acc acc (b ∷ bs) = be_acc (acc * 256 + b) bs

unfoldable pub from_be_bytes : List ℕ → ℕ
unfolding be_acc
from_be_bytes bs = be_acc 0 bs

unfoldable pub from_le_bytes : List ℕ → ℕ
from_le_bytes [] = 0
from_le_bytes (b ∷ bs) = b + 256 * from_le_bytes bs

unfoldable pub u16_to_be_bytes : ℕ → List ℕ
u16_to_be_bytes w = w / 256 % 256 ∷ w % 256 ∷ []

unfoldable pub u32_to_be_bytes : ℕ → List ℕ
u32_to_be_bytes w = w / 2 ^ 24 % 256 ∷ w / 2 ^ 16 % 256 ∷ w / 256 % 256 ∷ w % 256 ∷ []

unfoldable pub u64_to_be_bytes : ℕ → List ℕ
u64_to_be_bytes w =
    w / 2 ^ 56 % 256
    ∷ w / 2 ^ 48 % 256
    ∷ w / 2 ^ 40 % 256
    ∷ w / 2 ^ 32 % 256
    ∷ w / 2 ^ 24 % 256
    ∷ w / 2 ^ 16 % 256
    ∷ w / 2 ^ 8 % 256
    ∷ w % 256
    ∷ []

unfoldable pub u16_to_le_bytes : ℕ → List ℕ
u16_to_le_bytes w = w % 256 ∷ w / 256 % 256 ∷ []

unfoldable pub u64_to_le_bytes : ℕ → List ℕ
u64_to_le_bytes w =
    w % 256
    ∷ w / 2 ^ 8 % 256
    ∷ w / 2 ^ 16 % 256
    ∷ w / 2 ^ 24 % 256
    ∷ w / 2 ^ 32 % 256
    ∷ w / 2 ^ 40 % 256
    ∷ w / 2 ^ 48 % 256
    ∷ w / 2 ^ 56 % 256
    ∷ []

pub from_le-u16_to_le : (w : ℕ) → IsU16 w → from_le_bytes (u16_to_le_bytes w) ≡ w
unfolding from_le_bytes u16_to_le_bytes
from_le-u16_to_le w h = omega arith

pub from_be-u32_to_be : (w : ℕ) → IsU32 w → from_be_bytes (u32_to_be_bytes w) ≡ w
unfolding from_be_bytes u32_to_be_bytes
from_be-u32_to_be w h = omega arith

pub from_be-u16_to_be : (w : ℕ) → IsU16 w → from_be_bytes (u16_to_be_bytes w) ≡ w
unfolding from_be_bytes u16_to_be_bytes
from_be-u16_to_be w h = omega arith

pub from_be-u64_to_be : (w : ℕ) → IsU64 w → from_be_bytes (u64_to_be_bytes w) ≡ w
unfolding from_be_bytes u64_to_be_bytes
from_be-u64_to_be w h = omega arith

pub from_le-u64_to_le : (w : ℕ) → IsU64 w → from_le_bytes (u64_to_le_bytes w) ≡ w
unfolding from_le_bytes u64_to_le_bytes
from_le-u64_to_le w h = omega arith

-- `negsuc n` is -(n + 1).
pub data ℤ : Type 0 where
  pos : ℕ → ℤ
  negsuc : ℕ → ℤ

-- The signed reading of a 16-bit, a 32-bit and a 64-bit pattern.
abbrev pub i16 : ℕ → ℤ
i16 w = if ltb w (2 ^ 15) then pos w else negsuc (2 ^ 16 - 1 - w)

abbrev pub i32 : ℕ → ℤ
i32 w = if ltb w (2 ^ 31) then pos w else negsuc (2 ^ 32 - 1 - w)

abbrev pub i64 : ℕ → ℤ
i64 w = if ltb w (2 ^ 63) then pos w else negsuc (2 ^ 64 - 1 - w)

-- 32-bit words, of either signedness, as bit patterns: the arithmetic wraps, and the amount of a shift
-- is taken modulo 32.
unfoldable pub add32 : ℕ → ℕ → ℕ
add32 a b = (a + b) % 2 ^ 32

unfoldable pub sub32 : ℕ → ℕ → ℕ
sub32 a b = (a + (2 ^ 32 - b % 2 ^ 32)) % 2 ^ 32

unfoldable pub mul32 : ℕ → ℕ → ℕ
mul32 a b = a * b % 2 ^ 32

unfoldable pub shl32 : ℕ → ℕ → ℕ
shl32 a k = a * 2 ^ (k % 32) % 2 ^ 32

unfoldable pub shr32 : ℕ → ℕ → ℕ
shr32 a k = a / 2 ^ (k % 32)

-- The sign of an i32.
abbrev pub is_neg32 : ℕ → Bool
is_neg32 a = leb (2 ^ 31) a

abbrev pub is_pos32 : ℕ → Bool
is_pos32 a = ltb 0 a && ltb a (2 ^ 31)

-- `>>` of an i32.
unfoldable pub sar32 : ℕ → ℕ → ℕ
sar32 a k =
    if ltb a (2 ^ 31) then a / 2 ^ (k % 32) else 2 ^ 32 - 1 - (2 ^ 32 - 1 - a) / 2 ^ (k % 32)

-- An i32 or an i16 as an i64, and the arithmetic of i64.
unfoldable pub i32_as_i64 : ℕ → ℕ
i32_as_i64 a = if ltb a (2 ^ 31) then a else a + (2 ^ 64 - 2 ^ 32)

unfoldable pub i16_as_i64 : ℕ → ℕ
i16_as_i64 a = if ltb a (2 ^ 15) then a else a + (2 ^ 64 - 2 ^ 16)

unfoldable pub add64 : ℕ → ℕ → ℕ
add64 a b = (a + b) % 2 ^ 64

unfoldable pub mul64 : ℕ → ℕ → ℕ
mul64 a b = a * b % 2 ^ 64

unfoldable pub sar64 : ℕ → ℕ → ℕ
sar64 a k =
    if ltb a (2 ^ 63) then a / 2 ^ (k % 64) else 2 ^ 64 - 1 - (2 ^ 64 - 1 - a) / 2 ^ (k % 64)

-- The digits of `a ^ b` in base two, the lowest of them first.
unfoldable pub xor_bits : ℕ → ℕ → ℕ → ℕ
xor_bits zero a b = 0
xor_bits (suc n) a b = (a + b) % 2 + 2 * xor_bits n (a / 2) (b / 2)

-- `a ^ b` on bytes.
unfoldable pub xor8 : ℕ → ℕ → ℕ
unfolding xor_bits
xor8 a b = xor_bits 8 a b

xor_bits_twice : (n a b : ℕ) → a < 2 ^ n → xor_bits n (xor_bits n a b) b ≡ a
unfolding xor_bits
xor_bits_twice zero a b h = omega arith
xor_bits_twice (suc n) a b h =
    ap (λ x. ((a + b) % 2 + 2 * xor_bits n (a / 2) (b / 2) + b) % 2 + 2 * x)
      (ap (λ y. xor_bits n y (b / 2)) (omega arith)
        ∙ xor_bits_twice n (a / 2) (b / 2) (omega (arith, pow-suc 2 n)))
    ∙ omega arith

pub xor8_twice : (a b : ℕ) → IsByte a → xor8 (xor8 a b) b ≡ a
unfolding xor8
xor8_twice a b h = xor_bits_twice 8 a b h
