-- ===== src/Aes/Tests.antt =====
-- crypto/aes.rs, examples: a cipher that is not AES, on 20 bytes in two calls.
use shairplay_rust.Base.{
  ℕ, ◌+◌, ◌%◌, List, [], ◌∷◌, ◌++◌, replicate, map, ◌≡◌, refl, arith, get_or, ◌*◌,
}
use shairplay_rust.Aes.{BlockCipher, AesCtr, new_ctr, encrypt, inc_counter}
use shairplay_rust.Aes.Stream.{
  IsBlockCipher, new_ctr-IsSound, by_bytes, after_bytes, encrypt-by_bytes, encrypt_twice,
}

abbrev places : List ℕ
places = 0 ∷ 1 ∷ 2 ∷ 3 ∷ 4 ∷ 5 ∷ 6 ∷ 7 ∷ 8 ∷ 9 ∷ 10 ∷ 11 ∷ 12 ∷ 13 ∷ 14 ∷ 15 ∷ []

-- Each byte of the block, changed by its place and by the key's first byte.
abbrev toy : BlockCipher
toy key block = map (λ i. (get_or block i 0 * 7 + (get_or key 0 0 + i)) % 256) places

toy-IsBlockCipher : IsBlockCipher toy
toy-IsBlockCipher key block = refl

abbrev start : AesCtr
start = new_ctr (replicate 16 9) (replicate 15 0 ++ (255 ∷ []))

abbrev message : List ℕ
message = 1 ∷ 2 ∷ replicate 18 77

encrypt-by_bytes_example :
    encrypt toy start message ≡ (by_bytes toy start message, after_bytes toy start message)
encrypt-by_bytes_example =
    encrypt-by_bytes toy toy-IsBlockCipher start message
      (new_ctr-IsSound (replicate 16 9) (replicate 15 0 ++ (255 ∷ [])))

encrypt_twice_example :
    encrypt toy start (encrypt toy start message).0 ≡ (message, (encrypt toy start message).1)
encrypt_twice_example =
    encrypt_twice toy toy-IsBlockCipher start message
      (new_ctr-IsSound (replicate 16 9) (replicate 15 0 ++ (255 ∷ []))) (omega arith)

carried : inc_counter (3 ∷ 255 ∷ 255 ∷ []) ≡ 4 ∷ 0 ∷ 0 ∷ []
unfolding inc_counter
carried = refl
