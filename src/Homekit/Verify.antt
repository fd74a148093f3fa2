-- ===== src/Homekit/Verify.antt =====
-- crypto/pairing_homekit.rs: `PairVerifyServer`, the accessory's side of pair-verify.
use shairplay_rust.Base.{
  ℕ, Bool, true, false, Option, none, some, List, [], ◌∷◌, ◌++◌, length, replicate, ◌==◌,
  if◌then◌else◌, bytes_eq,
}
use shairplay_rust.Base.Text.{codes}
use shairplay_rust.Tlv.{TlvType, TlvValues, get_type, add, encode, tag_of}
use shairplay_rust.Crypto.{
  Crypto, Result, ok, err, ◌>>=◌, ◌>>◌, ok_or, guard, verify_m1_missing_state,
  verify_m1_unexpected_state, verify_m1_missing_key, verify_m1_invalid_key_length,
  verify_m3_before_m1, verify_m3_missing_state, verify_m3_unexpected_state,
  verify_m3_missing_encrypted_data, verify_m3_missing_identifier, verify_m3_missing_signature,
  verify_m3_invalid_identifier, verify_m3_invalid_key, verify_m3_invalid_signature_length,
  pairing_verify, check_signature,
}
use shairplay_rust.Homekit.{decode_tlv, make_nonce, hkdf_derive, encrypt_chacha, decrypt_chacha}

abbrev pub pv_encrypt_salt : List ℕ
pv_encrypt_salt = codes "Pair-Verify-Encrypt-Salt"

abbrev pub pv_encrypt_info : List ℕ
pv_encrypt_info = codes "Pair-Verify-Encrypt-Info"

-- A client's identifier to its stored key, where the caller has such a lookup.
abbrev pub PairingKeyLookup : Type 0
PairingKeyLookup = Option (List ℕ → Option (List ℕ))

-- `server_sk` is the seed of the signing key.
pub record PairVerifyServer : Type 0 where
  pub device_id : List ℕ
  pub server_sk : List ℕ
  pub server_eph_sk : List ℕ
  pub server_eph_pk : List ℕ
  pub client_eph_pk : List ℕ
  pub shared_secret : List ℕ
  pub m1_processed : Bool
  pub completed : Bool

-- What `process_m1_build_m2` reads before it writes anything: the client's ephemeral key.
unfoldable pub read_verify_m1 : List ℕ → Result (List ℕ)
unfolding decode_tlv get_type
read_verify_m1 data_bytes = do
  tlv ← decode_tlv data_bytes
  state ← ok_or (get_type TlvType.state tlv) verify_m1_missing_state
  guard (bytes_eq state (1 ∷ [])) verify_m1_unexpected_state
  client_pk ← ok_or (get_type TlvType.public_key tlv) verify_m1_missing_key
  guard (length client_pk == 32) verify_m1_invalid_key_length
  ok client_pk

module _ (k : Crypto) where
  -- The ephemeral secret key is the random bytes of the last argument.
  unfoldable pub new_verify : List ℕ → List ℕ → List ℕ → PairVerifyServer
  new_verify device_id identity_seed eph_sk_bytes = record {
    device_id = device_id;
    server_sk = identity_seed;
    server_eph_sk = eph_sk_bytes;
    server_eph_pk = k.x25519_public eph_sk_bytes;
    client_eph_pk = replicate 32 0;
    shared_secret = replicate 32 0;
    m1_processed = false;
    completed = false;
  }

  -- The key agreement of M1.
  unfoldable pub agree : List ℕ → PairVerifyServer → PairVerifyServer
  agree client_pk s = record s {
    client_eph_pk = client_pk;
    shared_secret = k.diffie_hellman s.server_eph_sk client_pk;
    m1_processed = true;
  }

  -- The entries that M2 encrypts: the device, and its signature over both ephemeral keys.
  unfoldable pub server_proof : PairVerifyServer → TlvValues
  unfolding add tag_of
  server_proof s =
      let signature = k.sign s.server_sk (s.server_eph_pk ++ (s.device_id ++ s.client_eph_pk)) in
      add (tag_of TlvType.signature) signature (add (tag_of TlvType.identifier) s.device_id [])

  unfoldable pub build_verify_m2 : PairVerifyServer → Result (List ℕ)
  unfolding server_proof encode add tag_of hkdf_derive make_nonce encrypt_chacha
  build_verify_m2 s = do
    derived_key ← hkdf_derive k s.shared_secret pv_encrypt_salt pv_encrypt_info
    encrypted ←
        encrypt_chacha k derived_key (make_nonce (codes "PV-Msg02")) (encode (server_proof s))
    ok (
        encode (
          add (tag_of TlvType.encrypted_data) encrypted (
            add (tag_of TlvType.public_key) s.server_eph_pk
              (add (tag_of TlvType.state) (2 ∷ []) []))))

  -- The keys stay agreed when M2 cannot be sealed.
  unfoldable pub process_m1_build_m2 :
      List ℕ → PairVerifyServer → Result (List ℕ) × PairVerifyServer
  unfolding read_verify_m1 agree build_verify_m2
  process_m1_build_m2 data_bytes s = elim (read_verify_m1 data_bytes) [
    | err e ↦ (err e, s)
    | ok client_pk ↦ (build_verify_m2 (agree client_pk s), agree client_pk s)
  ]

  unfoldable pub decrypt_verify_m3 : List ℕ → PairVerifyServer → Result TlvValues
  unfolding decode_tlv get_type hkdf_derive make_nonce decrypt_chacha
  decrypt_verify_m3 data_bytes s = do
    guard s.m1_processed verify_m3_before_m1
    tlv ← decode_tlv data_bytes
    state ← ok_or (get_type TlvType.state tlv) verify_m3_missing_state
    guard (bytes_eq state (3 ∷ [])) verify_m3_unexpected_state
    enc ← ok_or (get_type TlvType.encrypted_data tlv) verify_m3_missing_encrypted_data
    derived_key ← hkdf_derive k s.shared_secret pv_encrypt_salt pv_encrypt_info
    decrypted ← decrypt_chacha k derived_key (make_nonce (codes "PV-Msg03")) enc
    decode_tlv decrypted

  -- The signature of the client over both ephemeral keys, where the caller can look its key up.
  unfoldable pub verify_client :
      PairingKeyLookup → PairVerifyServer → List ℕ → List ℕ → Result (Unit {0})
  verify_client none s identifier signature = ok tt
  verify_client (some lookup) s identifier signature = do
    guard (k.is_utf8 identifier) verify_m3_invalid_identifier
    ltpk ← ok_or (lookup identifier) pairing_verify
    check_signature k ltpk (s.client_eph_pk ++ (identifier ++ s.server_eph_pk)) signature
        verify_m3_invalid_key verify_m3_invalid_signature_length

  unfoldable pub read_verify_m3 : List ℕ → PairingKeyLookup → PairVerifyServer → Result (Unit {0})
  unfolding decrypt_verify_m3 get_type verify_client
  read_verify_m3 data_bytes lookup s = do
    inner ← decrypt_verify_m3 data_bytes s
    identifier ← ok_or (get_type TlvType.identifier inner) verify_m3_missing_identifier
    signature ← ok_or (get_type TlvType.signature inner) verify_m3_missing_signature
    verify_client lookup s identifier signature

  unfoldable pub process_m3_build_m4 :
      List ℕ → PairingKeyLookup → PairVerifyServer → Result (List ℕ) × PairVerifyServer
  unfolding read_verify_m3 encode add tag_of
  process_m3_build_m4 data_bytes lookup s = elim (read_verify_m3 data_bytes lookup s) [
    | err e ↦ (err e, s)
    | ok _ ↦ (ok (encode (add (tag_of TlvType.state) (4 ∷ []) [])), record s { completed = true })
  ]

-- `shared_secret`: only once M3 was accepted.
unfoldable pub verified_secret : PairVerifyServer → Option (List ℕ)
verified_secret s = if s.completed then some s.shared_secret else none

-- `ecdh_shared_secret`
abbrev pub ecdh_shared_secret : PairVerifyServer → List ℕ
ecdh_shared_secret s = s.shared_secret
