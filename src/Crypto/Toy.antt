-- ===== src/Crypto/Toy.antt =====
-- crypto/pairing.rs and crypto/pairing_homekit.rs, test data: primitives for the examples.
use shairplay_rust.Base.{◌%◌, ◌^◌, true, some, [], ◌∷◌, ◌++◌, take, replicate, get_or, bytes_eq}
use shairplay_rust.Crypto.{Crypto}

-- A number is one digit, a digest repeats the first byte, a cipher leaves the message as it is, and a
-- signature is good that begins with the key's first byte.
abbrev pub toy : Crypto
toy = record {
  hash = λ bytes. replicate 64 (get_or bytes 0 0 % 256);
  big_from_bytes_be = λ bytes. get_or bytes 0 0;
  big_to_bytes_be = λ n. n ∷ [];
  modpow = λ a e n. a ^ e % n;
  parse_hex = λ text. some 23;
  hkdf = λ salt ikm info. some (take 1 ikm ++ replicate 31 5);
  aead = record { encrypt = λ key n ad m. some m; decrypt = λ key n ad ct. some ct };
  verifying_key = λ seed. seed;
  sign = λ seed message. replicate 64 (get_or seed 0 0);
  is_key = λ key. true;
  verify = λ key message signature. bytes_eq (take 1 key) (take 1 signature);
  x25519_public = λ secret. secret;
  diffie_hellman = λ secret public. take 32 (public ++ secret);
  is_utf8 = λ bytes. true;
  encrypt_block = λ key block. replicate 16 (get_or block 15 0);
}
