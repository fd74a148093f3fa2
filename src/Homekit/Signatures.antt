-- ===== src/Homekit/Signatures.antt =====
-- crypto/pairing_homekit.rs: the signatures that stand behind an accepted M5 and an accepted M3 of
-- pair-verify.
use mathlib.Core.Path.{subst}
use shairplay_rust.Base.{
  ℕ, ◌==◌, ◌++◌, List, [], ◌∷◌, true, false, not, Option, some, length, ◌≡◌, refl, arith, inl, inr,
  ◌⊎◌,
}
use shairplay_rust.Base.Text.{codes}
use shairplay_rust.Tlv.{TlvType, get_type, add, encode, tag_of}
use shairplay_rust.Crypto.{
  Crypto, ok, err, ok_or, PairingError, bind_ok, then_ok, ok_or-ok, check_signature,
  check_signature-ok, hkdf_expand_failed, m5_not_verified, m5_transient, m5_missing_identifier,
  m5_missing_signature, m5_missing_public_key, m5_invalid_identifier, m5_invalid_key_length,
  m5_invalid_key, m5_invalid_signature_length, verify_m3_invalid_identifier,
  verify_m3_missing_identifier, verify_m3_missing_signature, pairing_verify, verify_m3_invalid_key,
  verify_m3_invalid_signature_length, verify_m3_before_m1,
}
use shairplay_rust.Homekit.{hkdf_derive}
use shairplay_rust.Homekit.Srp.{SrpServer}
use shairplay_rust.Homekit.Identity.{
  process_m5, setup_verify_client_identity, verify_controller_identity, decrypt_setup_m5,
}
use shairplay_rust.Homekit.Verify.{
  PairVerifyServer, PairingKeyLookup, verify_client, read_verify_m3, process_m3_build_m4,
  decrypt_verify_m3,
}
use shairplay_rust.Homekit.Gates.{Result-cases}

-- M4 of pair-verify: the state alone.
abbrev pub m4 : List ℕ
m4 = encode (add (tag_of TlvType.state) (4 ∷ []) [])

module _ (k : Crypto) where
  -- A controller's signature of itself, under a key derived of the session key.
  pub IsController : List ℕ → List ℕ → List ℕ → Type 0
  IsController session_key identifier client_pk =
      (device_x : List ℕ) × (signature : List ℕ) × (k.hkdf (codes "Pair-Setup-Controller-Sign-Salt")
          session_key (codes "Pair-Setup-Controller-Sign-Info")
        ≡ some device_x)
      × (length client_pk ≡ 32)
      × (length signature ≡ 64)
      × (k.verify client_pk (device_x ++ (identifier ++ client_pk)) signature ≡ true)

  verify_controller_identity-IsController :
      (session_key identifier signature client_pk key : List ℕ)
      → verify_controller_identity k session_key identifier signature client_pk ≡ ok key
      → (key ≡ client_pk) × IsController session_key identifier client_pk
  unfolding verify_controller_identity hkdf_derive IsController
  verify_controller_identity-IsController session_key identifier signature client_pk key h =
      let derived =
        k.hkdf (codes "Pair-Setup-Controller-Sign-Salt") session_key
          (codes "Pair-Setup-Controller-Sign-Info") in
      let (device_x, found, h) = bind_ok (ok_or derived hkdf_expand_failed) _ key h in
      let (len, h) = then_ok (length client_pk == 32) m5_invalid_key_length _ key h in
      let message = device_x ++ (identifier ++ client_pk) in
      let (u, signed, h) =
        bind_ok
          (check_signature k client_pk message signature m5_invalid_key m5_invalid_signature_length)
          _ key h in
      let parts =
        check_signature-ok k client_pk message signature m5_invalid_key m5_invalid_signature_length
          u signed in
      (
        cc,
        (
          device_x,
          signature,
          ok_or-ok derived hkdf_expand_failed device_x found,
          ground arith,
          parts.1,
          parts.2,
        ),
      )

  setup_verify_client_identity-IsController :
      (session_key bytes identifier client_pk : List ℕ)
      → setup_verify_client_identity k session_key bytes ≡ ok (identifier, client_pk)
      → (k.is_utf8 identifier ≡ true) × IsController session_key identifier client_pk
  unfolding setup_verify_client_identity
  setup_verify_client_identity-IsController session_key bytes identifier client_pk h =
      let r : List ℕ × List ℕ = (identifier, client_pk) in
      let (inner, _, h) = bind_ok (decrypt_setup_m5 k session_key bytes) _ r h in
      let (id, _, h) =
        bind_ok (ok_or (get_type TlvType.identifier inner) m5_missing_identifier) _ r h in
      let (signature, _, h) =
        bind_ok (ok_or (get_type TlvType.signature inner) m5_missing_signature) _ r h in
      let (pk, _, h) =
        bind_ok (ok_or (get_type TlvType.public_key inner) m5_missing_public_key) _ r h in
      let (key, controller, h) =
        bind_ok (verify_controller_identity k session_key id signature pk) _ r h in
      let (utf8, h) = then_ok (k.is_utf8 id) m5_invalid_identifier _ r h in
      let (same_key, shown) =
        verify_controller_identity-IsController session_key id signature pk key controller in
      let same_id : id ≡ identifier = cc in
      let same_pk : pk ≡ client_pk = cc in
      (
        subst (λ i. k.is_utf8 i ≡ true) same_id utf8,
        subst (λ i. IsController session_key i client_pk) same_id
            (subst (λ p. IsController session_key id p) same_pk shown),
      )

  -- An M5 is accepted only from a client that M3 verified in a pairing that is not transient, and only
  -- with a readable identifier and a signature, under the public key that comes with it, of that
  -- identifier and key with bytes derived of the session key in front.
  pub process_m5-IsController :
      (bytes : List ℕ) (s : SrpServer) (identifier client_pk : List ℕ)
      → process_m5 k bytes s ≡ ok (identifier, client_pk)
      → (s.verified ≡ true)
        × (s.is_transient ≡ false)
        × (k.is_utf8 identifier ≡ true)
        × IsController s.session_key identifier client_pk
  unfolding process_m5
  process_m5-IsController bytes s identifier client_pk h =
      let r : List ℕ × List ℕ = (identifier, client_pk) in
      let (verified, h) = then_ok s.verified m5_not_verified _ r h in
      let (lasting, h) = then_ok (not s.is_transient) m5_transient _ r h in
      let (utf8, shown) =
        setup_verify_client_identity-IsController s.session_key bytes identifier client_pk h in
      (verified, ground arith, utf8, shown)

  -- The signature of a paired client over both ephemeral keys, under the key stored for it.
  pub IsPairedClient : (List ℕ → Option (List ℕ)) → PairVerifyServer → Type 0
  IsPairedClient lookup s =
      (identifier : List ℕ) × (ltpk : List ℕ) × (signature : List ℕ) × (lookup identifier
        ≡ some ltpk)
      × (length signature ≡ 64)
      × (k.verify ltpk (s.client_eph_pk ++ (identifier ++ s.server_eph_pk)) signature ≡ true)

  verify_client-IsPairedClient :
      (lookup : List ℕ → Option (List ℕ)) (s : PairVerifyServer) (identifier signature : List ℕ)
      (u : Unit {0})
      → verify_client k (some lookup) s identifier signature ≡ ok u
      → IsPairedClient lookup s
  unfolding verify_client IsPairedClient
  verify_client-IsPairedClient lookup s identifier signature u h =
      let (_, h) = then_ok (k.is_utf8 identifier) verify_m3_invalid_identifier _ u h in
      let (ltpk, found, h) = bind_ok (ok_or (lookup identifier) pairing_verify) _ u h in
      let parts =
        check_signature-ok k ltpk (s.client_eph_pk ++ (identifier ++ s.server_eph_pk)) signature
          verify_m3_invalid_key verify_m3_invalid_signature_length u h in
      (
        identifier,
        ltpk,
        signature,
        ok_or-ok (lookup identifier) pairing_verify ltpk found,
        parts.1,
        parts.2,
      )

  read_verify_m3-IsPairedClient :
      (bytes : List ℕ) (lookup : List ℕ → Option (List ℕ)) (s : PairVerifyServer) (u : Unit {0})
      → read_verify_m3 k bytes (some lookup) s ≡ ok u
      → (s.m1_processed ≡ true) × IsPairedClient lookup s
  unfolding read_verify_m3 decrypt_verify_m3
  read_verify_m3-IsPairedClient bytes lookup s u h =
      let (inner, opened, h) = bind_ok (decrypt_verify_m3 k bytes s) _ u h in
      let (id, _, h) =
        bind_ok (ok_or (get_type TlvType.identifier inner) verify_m3_missing_identifier) _ u h in
      let (signature, _, h) =
        bind_ok (ok_or (get_type TlvType.signature inner) verify_m3_missing_signature) _ u h in
      let (started, _) = then_ok s.m1_processed verify_m3_before_m1 _ inner opened in
      (started, verify_client-IsPairedClient lookup s id signature u h)

  process_m3_refused :
      (bytes : List ℕ) (lookup : PairingKeyLookup) (s : PairVerifyServer) (e : PairingError)
      → read_verify_m3 k bytes lookup s ≡ err e
      → process_m3_build_m4 k bytes lookup s ≡ (err e, s)
  unfolding process_m3_build_m4
  process_m3_refused bytes lookup s e h = rw (h, process_m3_build_m4) refl

  process_m3_passed :
      (bytes : List ℕ) (lookup : PairingKeyLookup) (s : PairVerifyServer) (u : Unit {0})
      → read_verify_m3 k bytes lookup s ≡ ok u
      → process_m3_build_m4 k bytes lookup s ≡ (ok m4, record s { completed = true })
  unfolding process_m3_build_m4
  process_m3_passed bytes lookup s u h = rw (h, process_m3_build_m4) refl

  -- Where the caller looks keys up, M3 of pair-verify either fails and leaves the server as it was, or
  -- comes after an M1, is signed over both ephemeral keys by a client whose key is stored, and changes
  -- nothing but that the server has completed.
  pub process_m3_build_m4-IsPairedClient :
      (bytes : List ℕ) (lookup : List ℕ → Option (List ℕ)) (s : PairVerifyServer)
      → ((e : PairingError) × (process_m3_build_m4 k bytes (some lookup) s ≡ (err e, s)))
        ⊎ ((s.m1_processed ≡ true)
            × IsPairedClient lookup s
            × (process_m3_build_m4 k bytes (some lookup) s
                ≡ (ok m4, record s { completed = true })))
  process_m3_build_m4-IsPairedClient bytes lookup s =
      elim (Result-cases (read_verify_m3 k bytes (some lookup) s)) [
        | inl (e, h) ↦ inl (e, process_m3_refused bytes (some lookup) s e h)
        | inr (u, h) ↦
            let (started, paired) = read_verify_m3-IsPairedClient bytes lookup s u h in
            inr (started, paired, process_m3_passed bytes (some lookup) s u h)
      ]
