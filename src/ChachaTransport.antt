-- ===== src/ChachaTransport.antt =====
-- crypto/chacha_transport.rs: the framed, encrypted channel of an AirPlay 2 connection. A frame is a
-- 16-bit little-endian length, the ciphertext and a 16-byte tag.
pub mod Frames
pub mod RoundTrip
mod Tests
pub mod Stream
pub mod Nonces
use shairplay_rust.Base.{
  ℕ, zero, suc, ◌+◌, ◌-◌, ◌*◌, ◌/◌, ◌%◌, ◌^◌, Bool, true, false, Option, none, some, List, [], ◌∷◌,
  ◌++◌, length, take, drop, replicate, ltb, ◌==◌, if◌then◌else◌,
}
use shairplay_rust.Base.Text.{codes}
use shairplay_rust.Base.Words.{u16_to_le_bytes, u64_to_le_bytes, from_le_bytes}

abbrev pub max_block_len : ℕ
max_block_len = 1024

abbrev pub tag_len : ℕ
tag_len = 16

abbrev pub u64_max : ℕ
u64_max = 2 ^ 64 - 1

-- The ChaCha20-Poly1305 of the `chacha20poly1305` crate, by key, nonce, associated data and message.
pub record Aead : Type 0 where
  pub encrypt : List ℕ → List ℕ → List ℕ → List ℕ → Option (List ℕ)
  pub decrypt : List ℕ → List ℕ → List ℕ → List ℕ → Option (List ℕ)

-- `HKDF-SHA512` by salt, shared secret and info: 32 bytes, or a failure.
abbrev pub Hkdf : Type 0
Hkdf = List ℕ → List ℕ → List ℕ → Option (List ℕ)

-- The messages of `CryptoError::Transport`.
pub data TransportError : Type 0 where
  exhausted_before_encryption encrypt_failed : TransportError
  exhausted_before_decryption invalid_block_length decrypt_failed : TransportError
  hkdf_write_failed hkdf_read_failed : TransportError

pub data Result (A : Type 0) : Type 0 where
  ok : A → Result A
  err : TransportError → Result A
  -- no value of the code: a loop of the model ran out of fuel
  stuck : Result A

-- What a round of `decrypt` meets: no whole frame, a failure, or a frame that opens.
pub data Step : Type 0 where
  incomplete : Step
  refused : TransportError → Step
  opened : List ℕ → Step

-- What a round of `encrypt` makes: a failure, or a frame.
pub data Sealed : Type 0 where
  unsealed : TransportError → Sealed
  sealed : List ℕ → Sealed

pub record CipherContext : Type 0 where
  pub key : List ℕ
  pub counter : ℕ

pub new_context : List ℕ → CipherContext
new_context key = record { key = key; counter = 0 }

pub nonce : CipherContext → List ℕ
nonce c = replicate 4 0 ++ u64_to_le_bytes c.counter

abbrev pub advance : CipherContext → CipherContext
advance c = record c { counter = c.counter + 1 }

module _ (a : Aead) where
  -- One round of the loop of `encrypt`, on one chunk.
  pub seal_chunk : CipherContext → List ℕ → Sealed
  seal_chunk c chunk =
      let block_len = u16_to_le_bytes (length chunk % 2 ^ 16) in
      if c.counter == u64_max
      then unsealed exhausted_before_encryption
      else elim (a.encrypt c.key (nonce c) block_len chunk) [
        | none ↦ unsealed encrypt_failed
        | some ct ↦ sealed (block_len ++ ct)
      ]

  -- The loop over `plaintext.chunks(1024)`: what is still to be sent, and the output so far. A failed
  -- call leaves the counter where it was when it failed. Each round takes a byte at least, so the
  -- plaintext's length is fuel enough.
  pub encrypt_loop : ℕ → CipherContext → List ℕ → List ℕ → Result (List ℕ) × CipherContext
  encrypt_loop fuel c [] out = (ok out, c)
  encrypt_loop zero c (b ∷ bs) out = (stuck, c)
  encrypt_loop (suc fuel) c (b ∷ bs) out = elim (seal_chunk c (take max_block_len (b ∷ bs))) [
    | unsealed e ↦ (err e, c)
    | sealed frame ↦ encrypt_loop fuel (advance c) (drop max_block_len (b ∷ bs)) (out ++ frame)
  ]

  pub encrypt : CipherContext → List ℕ → Result (List ℕ) × CipherContext
  encrypt c plaintext = encrypt_loop (length plaintext) c plaintext []

  -- One round of the loop of `decrypt`, at a frame with the length bytes `lo` and `hi`.
  pub open_frame : CipherContext → ℕ → ℕ → List ℕ → Step
  open_frame c lo hi body =
      let block_len = from_le_bytes (lo ∷ hi ∷ []) in
      if ltb (length body) (block_len + tag_len)
      then incomplete
      else if c.counter == u64_max
      then refused exhausted_before_decryption
      else if block_len == 0
      then refused invalid_block_length
      else elim (a.decrypt c.key (nonce c) (lo ∷ hi ∷ []) (take (block_len + tag_len) body)) [
        | none ↦ refused decrypt_failed
        | some pt ↦ opened pt
      ]

  -- The loop of `decrypt`: the list is the input from `pos` on. Each round takes 18 bytes at least.
  pub decrypt_loop : ℕ → CipherContext → List ℕ → List ℕ → ℕ → Result (List ℕ × ℕ) × CipherContext
  decrypt_loop fuel c [] plain pos = (ok (plain, pos), c)
  decrypt_loop fuel c (lo ∷ []) plain pos = (ok (plain, pos), c)
  decrypt_loop zero c (lo ∷ hi ∷ body) plain pos = (stuck, c)
  decrypt_loop (suc fuel) c (lo ∷ hi ∷ body) plain pos =
      let block_len = from_le_bytes (lo ∷ hi ∷ []) in
      elim (open_frame c lo hi body) [
        | incomplete ↦ (ok (plain, pos), c)
        | refused e ↦ (err e, c)
        | opened pt ↦
            decrypt_loop fuel (advance c) (drop (block_len + tag_len) body) (plain ++ pt)
              (pos + (2 + block_len + tag_len))
      ]

  pub decrypt : CipherContext → List ℕ → Result (List ℕ × ℕ) × CipherContext
  decrypt c ciphertext = decrypt_loop (length ciphertext) c ciphertext [] 0

-- `StreamSharedKey::from_slice`
pub stream_key : List ℕ → Option (List ℕ)
stream_key bytes = if length bytes == 32 then some bytes else none

pub record EncryptedChannel : Type 0 where
  pub encrypt_ctx : CipherContext
  pub decrypt_ctx : CipherContext

module _ (hkdf : Hkdf) where
  pub new_channel : List ℕ → List ℕ → List ℕ → List ℕ → List ℕ → Result EncryptedChannel
  unfolding new_context
  new_channel shared_secret write_salt write_info read_salt read_info =
      elim (hkdf write_salt shared_secret write_info) [
        | none ↦ err hkdf_write_failed
        | some write_key ↦ elim (hkdf read_salt shared_secret read_info) [
          | none ↦ err hkdf_read_failed
          | some read_key ↦
              ok
                (record { encrypt_ctx = new_context write_key; decrypt_ctx = new_context read_key })
        ]
      ]

  -- The server writes with the key that the client reads with, and the other way round.
  pub control : List ℕ → Result EncryptedChannel
  unfolding new_channel
  control shared_secret =
      new_channel shared_secret (codes "Control-Salt") (codes "Control-Read-Encryption-Key")
        (codes "Control-Salt") (codes "Control-Write-Encryption-Key")

  pub events : List ℕ → Result EncryptedChannel
  unfolding new_channel
  events shared_secret =
      new_channel shared_secret (codes "Events-Salt") (codes "Events-Write-Encryption-Key")
        (codes "Events-Salt") (codes "Events-Read-Encryption-Key")
