-- ===== src/Aes.antt =====
-- crypto/aes.rs: AES-128 in counter mode, as the senders of AirPlay 1 expect it.
pub mod Stream
pub mod Counter
mod Tests
use shairplay_rust.Base.{
  ℕ, zero, suc, ◌+◌, ◌-◌, ◌/◌, ◌%◌, List, [], ◌∷◌, ◌++◌, length, take, drop, replicate, min, ◌==◌,
  if◌then◌else◌,
}
use shairplay_rust.Base.Words.{xor8}
use mathlib.Core.List.{reverse}

-- `Aes128::encrypt_block` of the `aes` crate, by key and block.
abbrev pub BlockCipher : Type 0
BlockCipher = List ℕ → List ℕ → List ℕ

abbrev pub block_size : ℕ
block_size = 16

-- `state` is the block of the key stream in use, of which the last `available` bytes are not used.
pub record AesCtr : Type 0 where
  pub key : List ℕ
  pub counter : List ℕ
  pub state : List ℕ
  pub available : ℕ

unfoldable pub new_ctr : List ℕ → List ℕ → AesCtr
new_ctr key nonce = record {
  key = key;
  counter = nonce;
  state = replicate block_size 0;
  available = 0;
}

-- The carry through the bytes, the last byte first.
unfoldable pub add_carry : ℕ → List ℕ → List ℕ
add_carry carry [] = []
add_carry carry (b ∷ bs) = (carry + b) % 256 ∷ add_carry ((carry + b) / 256) bs

unfoldable pub inc_counter : List ℕ → List ℕ
unfolding add_carry
inc_counter counter = reverse (add_carry 1 (reverse counter))

abbrev pub xor_bytes : List ℕ → List ℕ → List ℕ
xor_bytes [] ys = []
xor_bytes (x ∷ xs) [] = []
xor_bytes (x ∷ xs) (y ∷ ys) = xor8 x y ∷ xor_bytes xs ys

module _ (encrypt_block : BlockCipher) where
  -- A new block of the key stream when the last one is used up.
  unfoldable pub refill : AesCtr → AesCtr
  unfolding inc_counter
  refill c =
      if c.available == 0
      then record c {
        state = encrypt_block c.key c.counter;
        available = block_size;
        counter = inc_counter c.counter;
      }
      else c

  -- The loop: the list is the data from `idx` on. Each round takes a byte at least.
  unfoldable pub encrypt_loop : ℕ → AesCtr → List ℕ → List ℕ × AesCtr
  unfolding refill xor8
  encrypt_loop fuel c [] = ([], c)
  encrypt_loop zero c (b ∷ bs) = (b ∷ bs, c)
  encrypt_loop (suc fuel) c (b ∷ bs) =
      let r = refill c in
      let n = min r.available (length (b ∷ bs)) in
      let (rest, last) =
        encrypt_loop fuel (record r { available = r.available - n }) (drop n (b ∷ bs)) in
      (xor_bytes (take n (b ∷ bs)) (drop (block_size - r.available) r.state) ++ rest, last)

  unfoldable pub encrypt : AesCtr → List ℕ → List ℕ × AesCtr
  unfolding encrypt_loop
  encrypt c bytes = encrypt_loop (length bytes) c bytes
