-- ===== src/Crypto.antt =====
-- error.rs and the crates that crypto/pairing.rs and crypto/pairing_homekit.rs call: the primitives are
-- a record, the errors a data type, and a fallible function has a `Result`.
pub mod Toy
use shairplay_rust.Base.{
  ℕ, Bool, true, false, Option, none, some, List, length, ◌==◌, ◌≡◌, refl, arith,
}
use shairplay_rust.ChachaTransport.{Aead, Hkdf}
use shairplay_rust.Aes.{BlockCipher}

-- SHA-512 (sha2), numbers as big-endian bytes and powers modulo a number (num-bigint), the ciphers
-- (hkdf, chacha20poly1305), Ed25519 by seed or key, message and signature (ed25519-dalek), and X25519
-- by secret and public key (x25519-dalek). The last is one block of AES-128 (aes).
pub record Crypto : Type 0 where
  pub hash : List ℕ → List ℕ
  pub big_from_bytes_be : List ℕ → ℕ
  pub big_to_bytes_be : ℕ → List ℕ
  pub modpow : ℕ → ℕ → ℕ → ℕ
  pub parse_hex : List ℕ → Option ℕ
  pub hkdf : Hkdf
  pub aead : Aead
  pub verifying_key : List ℕ → List ℕ
  pub sign : List ℕ → List ℕ → List ℕ
  pub is_key : List ℕ → Bool
  pub verify : List ℕ → List ℕ → List ℕ → Bool
  pub x25519_public : List ℕ → List ℕ
  pub diffie_hellman : List ℕ → List ℕ → List ℕ
  pub is_utf8 : List ℕ → Bool
  pub encrypt_block : BlockCipher

-- `CryptoError`: the messages of `PairingHandshake`, and `PairingVerify`.
pub data PairingError : Type 0 where
  malformed_tlv key_len_too_long handshake_already_started not_in_handshake_state : PairingError
  no_group missing_method unexpected_method transient_disabled : PairingError
  missing_public_key missing_proof invalid_proof_length a_mod_n_zero : PairingError
  hkdf_expand_failed chacha_encrypt_failed chacha_decrypt_failed : PairingError
  m5_not_verified m5_transient m5_missing_encrypted_data m5_missing_identifier : PairingError
  m5_missing_signature m5_missing_public_key m5_invalid_identifier : PairingError
  m5_invalid_key_length m5_invalid_key m5_invalid_signature_length : PairingError
  verify_m1_missing_state verify_m1_unexpected_state verify_m1_missing_key : PairingError
  verify_m1_invalid_key_length verify_m3_before_m1 verify_m3_missing_state : PairingError
  verify_m3_unexpected_state verify_m3_missing_encrypted_data : PairingError
  verify_m3_missing_identifier verify_m3_missing_signature : PairingError
  verify_m3_invalid_identifier verify_m3_invalid_key : PairingError
  verify_m3_invalid_signature_length pairing_verify : PairingError

infixl 5 ◌>>=◌ ◌>>◌
pub data Result {ℓ} (Value : Type ℓ) : Type ℓ where
  err : PairingError → Result Value
  ok : Value → Result Value

-- A test that returns early with an error when it fails, and `ok_or`.
abbrev pub guard : (test : Bool) → PairingError → Result (Unit {0})
guard false failure = err failure
guard true failure = ok tt

abbrev pub ok_or {ℓ} : {A : Type ℓ} → Option A → PairingError → Result A
ok_or none failure = err failure
ok_or (some a) failure = ok a

-- The operator `?`: what follows is done with the value, and not at all after an error.
abbrev pub ◌>>=◌ {ℓ ℓ'} : {V : Type ℓ} {W : Type ℓ'} → Result V → (V → Result W) → Result W
err failure >>= next = err failure
ok value >>= next = next value

abbrev pub ◌>>◌ {ℓ} : {W : Type ℓ} → Result (Unit {0}) → Result W → Result W
first >> next = first >>= (λ done. next)

-- `VerifyingKey::from_bytes`, then `Signature::from_bytes` of exactly 64 bytes, then `verify`.
abbrev pub check_signature :
    Crypto → List ℕ → List ℕ → List ℕ → PairingError → PairingError → Result (Unit {0})
check_signature k key message signature bad_key bad_length = do
  guard (k.is_key key) bad_key
  guard (length signature == 64) bad_length
  guard (k.verify key message signature) pairing_verify

-- The parts of a chain that succeeds.
pub bind_ok {ℓ κ} :
    {A : Type ℓ} {B : Type κ} (first : Result A) (next : A → Result B) (b : B)
    → (first >>= next) ≡ ok b
    → (a : A) × (first ≡ ok a) × (next a ≡ ok b)
bind_ok (ok a) next b h = (a, refl, h)
bind_ok (err e) next b h = cc

pub then_ok {ℓ} :
    {B : Type ℓ} (test : Bool) (e : PairingError) (rest : Result B) (b : B)
    → (guard test e >> rest) ≡ ok b
    → (test ≡ true) × (rest ≡ ok b)
then_ok true e rest b h = (refl, h)
then_ok false e rest b h = cc

pub guard_ok : (test : Bool) (e : PairingError) (u : Unit {0}) → guard test e ≡ ok u → test ≡ true
guard_ok true e u h = refl
guard_ok false e u h = cc

pub ok_or-ok {ℓ} :
    {A : Type ℓ} (o : Option A) (e : PairingError) (a : A) → ok_or o e ≡ ok a → o ≡ some a
ok_or-ok none e a h = cc
ok_or-ok (some x) e a h = cc

-- A signature that passes, by a key that is one.
pub check_signature-ok :
    (k : Crypto) (key message signature : List ℕ) (bad_key bad_length : PairingError) (u : Unit {0})
    → check_signature k key message signature bad_key bad_length ≡ ok u
    → (k.is_key key ≡ true) × (length signature ≡ 64) × (k.verify key message signature ≡ true)
check_signature-ok k key message signature bad_key bad_length u h =
    let (is_key, h) = then_ok (k.is_key key) bad_key _ u h in
    let (len, h) = then_ok (length signature == 64) bad_length _ u h in
    (is_key, ground arith, guard_ok (k.verify key message signature) pairing_verify u h)
