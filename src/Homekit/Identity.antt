-- ===== src/Homekit/Identity.antt =====
-- crypto/pairing_homekit.rs: the exchange of identities in pair-setup, M5 and M6.
use shairplay_rust.Base.{ℕ, not, ◌-◌, List, [], ◌∷◌, ◌++◌, length, take, replicate, ◌==◌, min}
use shairplay_rust.Base.Text.{codes}
use shairplay_rust.Tlv.{TlvType, TlvValues, get_type, add, encode, tag_of}
use shairplay_rust.Crypto.{
  Crypto, Result, ok, ◌>>=◌, ◌>>◌, ok_or, guard, m5_not_verified, m5_transient,
  m5_missing_encrypted_data, m5_missing_identifier, m5_missing_signature, m5_missing_public_key,
  m5_invalid_identifier, m5_invalid_key_length, m5_invalid_key, m5_invalid_signature_length,
  check_signature,
}
use shairplay_rust.Homekit.{decode_tlv, make_nonce, hkdf_derive, encrypt_chacha, decrypt_chacha}
use shairplay_rust.Homekit.Srp.{SrpServer}

abbrev pub ps_encrypt_salt : List ℕ
ps_encrypt_salt = codes "Pair-Setup-Encrypt-Salt"

abbrev pub ps_encrypt_info : List ℕ
ps_encrypt_info = codes "Pair-Setup-Encrypt-Info"

-- The seed that `server_keypair` makes of a device id: its bytes, cut off or padded with zeros.
unfoldable pub server_keypair_seed : List ℕ → List ℕ
server_keypair_seed device_id =
    let len = min (length device_id) 32 in take len device_id ++ replicate (32 - len) 0

module _ (k : Crypto) where
  unfoldable pub decrypt_setup_m5 : List ℕ → List ℕ → Result TlvValues
  unfolding decode_tlv get_type hkdf_derive make_nonce decrypt_chacha
  decrypt_setup_m5 session_key data_bytes = do
    tlv ← decode_tlv data_bytes
    enc ← ok_or (get_type TlvType.encrypted_data tlv) m5_missing_encrypted_data
    derived_key ← hkdf_derive k session_key ps_encrypt_salt ps_encrypt_info
    decrypted ← decrypt_chacha k derived_key (make_nonce (codes "PS-Msg05")) enc
    decode_tlv decrypted

  -- Of the checks of the key's length and of the message only the first can fail.
  unfoldable pub verify_controller_identity : List ℕ → List ℕ → List ℕ → List ℕ → Result (List ℕ)
  unfolding hkdf_derive
  verify_controller_identity session_key identifier signature client_pk = do
    device_x ←
        hkdf_derive k session_key (codes "Pair-Setup-Controller-Sign-Salt")
          (codes "Pair-Setup-Controller-Sign-Info")
    guard (length client_pk == 32) m5_invalid_key_length
    check_signature k client_pk (device_x ++ (identifier ++ client_pk)) signature m5_invalid_key
        m5_invalid_signature_length
    ok client_pk

  unfoldable pub setup_verify_client_identity : List ℕ → List ℕ → Result (List ℕ × List ℕ)
  unfolding decrypt_setup_m5 get_type verify_controller_identity
  setup_verify_client_identity session_key data_bytes = do
    inner ← decrypt_setup_m5 session_key data_bytes
    identifier ← ok_or (get_type TlvType.identifier inner) m5_missing_identifier
    signature ← ok_or (get_type TlvType.signature inner) m5_missing_signature
    client_pk ← ok_or (get_type TlvType.public_key inner) m5_missing_public_key
    key ← verify_controller_identity session_key identifier signature client_pk
    guard (k.is_utf8 identifier) m5_invalid_identifier
    ok (identifier, key)

  unfoldable pub process_m5 : List ℕ → SrpServer → Result (List ℕ × List ℕ)
  unfolding setup_verify_client_identity
  process_m5 data_bytes s = do
    guard s.verified m5_not_verified
    guard (not s.is_transient) m5_transient
    setup_verify_client_identity s.session_key data_bytes

  -- The entries that M6 encrypts: who the accessory is, signed with its long-term key.
  unfoldable pub accessory_identity : List ℕ → List ℕ → List ℕ → TlvValues
  unfolding add tag_of
  accessory_identity device_x device_id identity_seed =
      let vk = k.verifying_key identity_seed in
      let signature = k.sign identity_seed (device_x ++ (device_id ++ vk)) in
      add (tag_of TlvType.public_key) vk
        (add (tag_of TlvType.signature) signature (add (tag_of TlvType.identifier) device_id []))

  unfoldable pub setup_build_accessory_identity : List ℕ → List ℕ → List ℕ → Result (List ℕ)
  unfolding hkdf_derive encrypt_chacha make_nonce accessory_identity encode add tag_of
  setup_build_accessory_identity session_key device_id identity_seed = do
    device_x ←
        hkdf_derive k session_key (codes "Pair-Setup-Accessory-Sign-Salt")
          (codes "Pair-Setup-Accessory-Sign-Info")
    derived_key ← hkdf_derive k session_key ps_encrypt_salt ps_encrypt_info
    encrypted ←
        encrypt_chacha k derived_key (make_nonce (codes "PS-Msg06"))
          (encode (accessory_identity device_x device_id identity_seed))
    ok (
        encode
          (add (tag_of TlvType.encrypted_data) encrypted (add (tag_of TlvType.state) (6 ∷ []) [])))

  unfoldable pub build_m6 : SrpServer → List ℕ → List ℕ → Result (List ℕ)
  unfolding setup_build_accessory_identity
  build_m6 s device_id identity_seed =
      setup_build_accessory_identity s.session_key device_id identity_seed
