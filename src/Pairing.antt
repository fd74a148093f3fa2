-- ===== src/Pairing.antt =====
-- crypto/pairing.rs: pair-setup and pair-verify of AirPlay 1. The random bytes of a handshake are an
-- argument, and a signing key is its seed.
pub mod Handshake
pub mod Session
mod Tests
use shairplay_rust.Base.{
  ℕ, ◌+◌, ◌-◌, Bool, true, false, List, [], ◌∷◌, ◌++◌, length, take, replicate, leb, if◌then◌else◌,
}
use shairplay_rust.Base.Text.{codes}
use shairplay_rust.Aes.{AesCtr, new_ctr, encrypt}
use shairplay_rust.Crypto.{
  Crypto, Result, ok, err, ◌>>=◌, ◌>>◌, guard, key_len_too_long, handshake_already_started,
  not_in_handshake_state, pairing_verify,
}

abbrev pub salt_key : List ℕ
salt_key = codes "Pair-Verify-AES-Key"

abbrev pub salt_iv : List ℕ
salt_iv = codes "Pair-Verify-AES-IV"

pub data Status : Type 0 where
  initial handshake finished : Status

abbrev pub is_initial : Status → Bool
is_initial initial = true
is_initial handshake = false
is_initial finished = false

abbrev pub is_handshake : Status → Bool
is_handshake initial = false
is_handshake handshake = true
is_handshake finished = false

pub record PairingSession : Type 0 where
  pub status : Status
  pub ed_signing_key : List ℕ
  pub ed_theirs : List ℕ
  pub ecdh_ours : List ℕ
  pub ecdh_theirs : List ℕ
  pub ecdh_secret : List ℕ

-- `Pairing::create_session`, of the identity with that seed.
unfoldable pub create_session : List ℕ → PairingSession
create_session seed = record {
  status = initial;
  ed_signing_key = seed;
  ed_theirs = replicate 32 0;
  ecdh_ours = replicate 32 0;
  ecdh_theirs = replicate 32 0;
  ecdh_secret = replicate 32 0;
}

module _ (k : Crypto) where
  -- `Pairing::public_key`
  unfoldable pub public_key : List ℕ → List ℕ
  public_key seed = k.verifying_key seed

  unfoldable pub derive_key_internal : PairingSession → List ℕ → ℕ → Result (List ℕ)
  derive_key_internal s salt key_len = do
    guard (leb key_len 64) key_len_too_long
    ok (take key_len (k.hash (salt ++ s.ecdh_secret)))

  unfoldable pub derive_aes : PairingSession → Result AesCtr
  unfolding derive_key_internal new_ctr
  derive_aes s = do
    key ← derive_key_internal s salt_key 16
    iv ← derive_key_internal s salt_iv 16
    ok (new_ctr key iv)

  -- The keys that a handshake sets: theirs, and ours of the random secret.
  unfoldable pub agree : List ℕ → List ℕ → List ℕ → PairingSession → PairingSession
  agree our_secret ecdh_key ed_key s = record s {
    status = handshake;
    ed_theirs = ed_key;
    ecdh_ours = k.x25519_public our_secret;
    ecdh_theirs = ecdh_key;
    ecdh_secret = k.diffie_hellman our_secret ecdh_key;
  }

  unfoldable pub start_handshake :
      List ℕ → List ℕ → List ℕ → PairingSession → Result (Unit {0}) × PairingSession
  unfolding agree
  start_handshake our_secret ecdh_key ed_key s =
      if is_initial s.status
      then (ok tt, agree our_secret ecdh_key ed_key s)
      else (err handshake_already_started, s)

  unfoldable pub get_public_key : PairingSession → Result (List ℕ)
  get_public_key s = do guard (is_handshake s.status) not_in_handshake_state; ok s.ecdh_ours

  -- Our signature of both keys, before it is encrypted.
  unfoldable pub own_signature : PairingSession → List ℕ
  own_signature s = k.sign s.ed_signing_key (s.ecdh_ours ++ s.ecdh_theirs)

  unfoldable pub get_signature : PairingSession → Result (List ℕ)
  unfolding derive_aes encrypt own_signature
  get_signature s = do
    guard (is_handshake s.status) not_in_handshake_state
    aes ← derive_aes s
    ok (encrypt k.encrypt_block aes (own_signature s)).0

  -- The signature that `finish` reads out of 64 encrypted bytes: one dummy round, then the bytes.
  unfoldable pub open_signature : AesCtr → List ℕ → List ℕ
  unfolding encrypt
  open_signature aes signature =
      let advanced = (encrypt k.encrypt_block aes (replicate 64 0)).1 in
      (encrypt k.encrypt_block advanced signature).0

  unfoldable pub check_finish : PairingSession → List ℕ → Result (Unit {0})
  unfolding derive_aes open_signature
  check_finish s signature = do
    guard (is_handshake s.status) not_in_handshake_state
    aes ← derive_aes s
    guard (k.is_key s.ed_theirs) pairing_verify
    guard (k.verify s.ed_theirs (s.ecdh_theirs ++ s.ecdh_ours) (open_signature aes signature))
        pairing_verify

  unfoldable pub finish : List ℕ → PairingSession → Result (Unit {0}) × PairingSession
  unfolding check_finish
  finish signature s = elim (check_finish s signature) [
    | err e ↦ (err e, s)
    | ok _ ↦ (ok tt, record s { status = finished })
  ]

  unfoldable pub derive_key : PairingSession → List ℕ → ℕ → Result (List ℕ)
  unfolding derive_key_internal
  derive_key s salt key_len =
      if is_initial s.status then err not_in_handshake_state else derive_key_internal s salt key_len
