-- ===== src/Homekit.antt =====
-- crypto/pairing_homekit.rs: pair-setup and pair-verify of AirPlay 2. What is third-party (the hash, the
-- big numbers, the ciphers, the curves, the reading of UTF-8) is the record `Crypto`; what is random is
-- an argument. An array of bytes and a string are lists of bytes.
pub mod Srp
pub mod Identity
pub mod Verify
pub mod Store
pub mod Agreement
pub mod Accepts
pub mod Gates
pub mod Signatures
mod Tests
use shairplay_rust.Base.{
  ℕ, zero, suc, ◌+◌, ◌-◌, ◌*◌, ◌%◌, Bool, true, false, Option, none, some, List, [], ◌∷◌, ◌++◌,
  length, take, replicate, leb, ◌==◌, if◌then◌else◌,
}
use shairplay_rust.Base.Text.{codes}
use shairplay_rust.Tlv.{TlvType, TlvValues, Decoded, decode, get_type, add, encode, tag_of}
use shairplay_rust.Crypto.{
  Crypto, Result, ok, err, ok_or, malformed_tlv, hkdf_expand_failed, chacha_encrypt_failed,
  chacha_decrypt_failed,
}

-- `TlvValues::decode`, with its error as one of these. `stuck` is no result of the decoder.
unfoldable pub decode_tlv : List ℕ → Result TlvValues
decode_tlv data_bytes = elim (decode data_bytes) [
  | Decoded.ok tlv ↦ ok tlv
  | Decoded.truncated ↦ err malformed_tlv
  | Decoded.stuck ↦ err malformed_tlv
]

abbrev pub username : List ℕ
username = codes "Pair-Setup"

abbrev pub transient_pin : List ℕ
transient_pin = codes "3939"

abbrev pub pairing_method_pair_setup : ℕ
pairing_method_pair_setup = 0

abbrev pub pairing_flags_transient : ℕ
pairing_flags_transient = 0x10

abbrev pub tlv_error_authentication : ℕ
tlv_error_authentication = 2

abbrev pub n_3072_len : ℕ
n_3072_len = 384

abbrev pub g_3072 : ℕ
g_3072 = 5

unfoldable pub n_3072_hex : List ℕ
n_3072_hex =
    codes "FFFFFFFFFFFFFFFFC90FDAA22168C234C4C6628B80DC1CD129024E088A67CC74"
    ++ codes "020BBEA63B139B22514A08798E3404DDEF9519B3CD3A431B302B0A6DF25F1437"
    ++ codes "4FE1356D6D51C245E485B576625E7EC6F44C42E9A637ED6B0BFF5CB6F406B7ED"
    ++ codes "EE386BFB5A899FA5AE9F24117C4B1FE649286651ECE45B3DC2007CB8A163BF05"
    ++ codes "98DA48361C55D39A69163FA8FD24CF5F83655D23DCA3AD961C62F356208552BB"
    ++ codes "9ED529077096966D670C354E4ABC9804F1746C08CA18217C32905E462E36CE3B"
    ++ codes "E39E772C180E86039B2783A2EC07A28FB5C55DF06F4C52C9DE2BCBF695581718"
    ++ codes "3995497CEA956AE515D2261898FA051015728E5A8AAAC42DAD33170D04507A33"
    ++ codes "A85521ABDF1CBA64ECFB850458DBEF0A8AEA71575D060C7DB3970F85A6E1E4C7"
    ++ codes "ABF5AE8CDB0933D71E8C94E04A25619DCEE3D2261AD2EE6BF12FFA06D98A0864"
    ++ codes "D87602733EC86A64521F2B18177B200CBBE117577A615D6C770988C0BAD946E2"
    ++ codes "08E24FA074E5AB3143DB5BFCE0FD108E4B82D120A93AD2CAFFFFFFFFFFFFFFFF"

unfoldable pub pairing_error_response : ℕ → List ℕ
pairing_error_response state_byte = encode (
    add (tag_of TlvType.error) (tlv_error_authentication ∷ [])
      (add (tag_of TlvType.state) (state_byte ∷ []) []))

unfoldable pub make_nonce : List ℕ → List ℕ
make_nonce tag = let kept = take 8 tag in replicate 4 0 ++ (kept ++ replicate (8 - length kept) 0)

module _ (k : Crypto) where
  unfoldable pub sha512 : List ℕ → List ℕ
  sha512 bytes = k.hash bytes

  unfoldable pub to_bytes_be : ℕ → List ℕ
  to_bytes_be n = elim (k.big_to_bytes_be n) [ [] ↦ 0 ∷ [] | b ∷ bs ↦ b ∷ bs ]

  unfoldable pub to_bytes_be_padded : ℕ → ℕ → List ℕ
  to_bytes_be_padded n len =
      let b = k.big_to_bytes_be n in
      if leb len (length b) then b else replicate (len - length b) 0 ++ b

  -- H(pad(n1) || pad(n2))
  unfoldable pub h_nn_pad : ℕ → ℕ → ℕ → ℕ
  unfolding sha512 to_bytes_be_padded
  h_nn_pad n1 n2 padded_len =
      k.big_from_bytes_be
        (sha512 (to_bytes_be_padded n1 padded_len ++ to_bytes_be_padded n2 padded_len))

  unfoldable pub hkdf_derive : List ℕ → List ℕ → List ℕ → Result (List ℕ)
  hkdf_derive ikm salt info = ok_or (k.hkdf salt ikm info) hkdf_expand_failed

  unfoldable pub encrypt_chacha : List ℕ → List ℕ → List ℕ → Result (List ℕ)
  encrypt_chacha key nonce plaintext =
      ok_or (k.aead.encrypt key nonce [] plaintext) chacha_encrypt_failed

  unfoldable pub decrypt_chacha : List ℕ → List ℕ → List ℕ → Result (List ℕ)
  decrypt_chacha key nonce ciphertext_with_tag =
      ok_or (k.aead.decrypt key nonce [] ciphertext_with_tag) chacha_decrypt_failed
