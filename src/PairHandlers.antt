-- ===== src/PairHandlers.antt =====
-- raop/handlers_ap2.rs and raop/handlers_ap1.rs: the handlers of POST /pair-setup and POST /pair-verify.
-- A TLV with a state goes to AirPlay 2, all else to AirPlay 1. What is random is part of the request.
pub mod Guarded
pub mod Steps
pub mod Reachable
mod Tests
use shairplay_rust.Base.{
  ℕ, ◌+◌, Bool, true, false, ◌&&◌, Option, none, some, List, [], ◌∷◌, ◌++◌, length, take, drop, ltb,
  ◌==◌, if◌then◌else◌,
}
use shairplay_rust.Tlv.{TlvValues, Decoded, get, add, encode, decode}
use shairplay_rust.Crypto.{Crypto, Result, ok, err, PairingError}
use shairplay_rust.Pairing.{
  PairingSession, public_key, start_handshake, get_public_key, get_signature, finish,
}
use shairplay_rust.Homekit.{pairing_error_response}
use shairplay_rust.Homekit.Srp.{
  SrpServer, new_server, process_m1, build_m2, process_m3, build_m4, shared_secret,
}
use shairplay_rust.Homekit.Identity.{process_m5, build_m6}
use shairplay_rust.Homekit.Verify.{
  PairVerifyServer, new_verify, process_m1_build_m2, process_m3_build_m4, verified_secret,
  ecdh_shared_secret,
}
use shairplay_rust.Homekit.Store.{PairingStore, store_get, store_put}

-- The part of `RaopShared` that the handlers read. `pairing_seed` is the identity of AirPlay 1.
pub record Shared : Type 0 where
  pub pin : Option (List ℕ)
  pub device_id : List ℕ
  pub identity_seed : List ℕ
  pub pairing_seed : List ℕ

-- The part of `RaopConnection` that the handlers change, with the store that it shares and the errors
-- that the application was told of, the newest first.
pub record RaopConnection : Type 0 where
  pub pairing : PairingSession
  pub srp_server : Option SrpServer
  pub pair_verify : Option PairVerifyServer
  pub ap2_shared_secret : Option (List ℕ)
  pub pair_verify_secret : Option (List ℕ)
  pub is_ap2 : Bool
  pub store : PairingStore
  pub reported : List PairingError

-- The body, and whether the content type was set and the connection is to be closed.
pub record Reply : Type 0 where
  pub body : Option (List ℕ)
  pub octet_stream : Bool
  pub disconnect : Bool

abbrev nothing : Reply
nothing = record { body = none; octet_stream = false; disconnect = false }

abbrev pub with_body : Option (List ℕ) → Reply
with_body body = record { body = body; octet_stream = true; disconnect = false }

abbrev pub report : PairingError → RaopConnection → RaopConnection
report e c = record c { reported = e ∷ c.reported }

-- What the first handler makes of the data: the state byte of a TLV that has one (none when it is
-- empty), or nothing.
pub data Kind : Type 0 where
  legacy : Kind
  stateless : Kind
  in_state : ℕ → Kind

unfoldable pub kind_of_state : Option (List ℕ) → Kind
kind_of_state none = legacy
kind_of_state (some []) = stateless
kind_of_state (some (b ∷ bs)) = in_state b

unfoldable pub kind_of : List ℕ → Kind
kind_of bytes = elim (decode bytes) [
  | Decoded.ok tlv ↦ kind_of_state (get 6 tlv)
  | Decoded.truncated ↦ legacy
  | Decoded.stuck ↦ legacy
]

-- What is random in a request: the salt and the secret of SRP, and a secret of X25519.
pub record Random : Type 0 where
  pub salt_bytes : List ℕ
  pub b_bytes : List ℕ
  pub secret_bytes : List ℕ

abbrev to_option {ℓ} : {A : Type ℓ} → Result A → Option A
to_option (ok a) = some a
to_option (err e) = none

module _ (k : Crypto) (shared : Shared) where
  -- handlers_ap1.rs: `handle_pair_setup`. Here and below the caller has set the content type.
  unfoldable pub legacy_pair_setup : List ℕ → RaopConnection → Reply × RaopConnection
  legacy_pair_setup bytes c =
      if length bytes == 32
      then (with_body (some (public_key k shared.pairing_seed)), c)
      else (with_body none, c)

  -- The answer to a handshake of AirPlay 1: our key and our signature, where we have both.
  unfoldable pub handshake_body : PairingSession → Option (List ℕ)
  handshake_body s = elim (get_public_key k s) [
    | err e ↦ none
    | ok key ↦ elim (get_signature k s) [ err e ↦ none | ok signature ↦ some (key ++ signature) ]
  ]

  -- handlers_ap1.rs: `handle_pair_verify`; the list without its first byte is `data[1..]`.
  unfoldable pub legacy_pair_verify : Random → List ℕ → RaopConnection → Reply × RaopConnection
  legacy_pair_verify r [] c = (with_body none, c)
  legacy_pair_verify r (b ∷ bs) c =
      if b == 1 && length bs == 67
      then (let (_, started) =
            start_handshake k r.secret_bytes (take 32 (drop 3 bs)) (drop 35 bs) c.pairing in
          (with_body (handshake_body started), record c { pairing = started }))
      else if b == 0 && length bs == 67
      then (let (outcome, s) = finish k (drop 3 bs) c.pairing in
          elim outcome [
            | ok _ ↦ (with_body none, record c { pairing = s })
            | err e ↦
                (record (with_body none) { disconnect = true }, report e (record c { pairing = s }))
          ])
      else (with_body none, c)

  -- M1: a new server for each, kept only when it accepts M1.
  unfoldable pub setup_m1 : Random → List ℕ → RaopConnection → Reply × RaopConnection
  setup_m1 r bytes c = elim (new_server k shared.pin r.salt_bytes r.b_bytes) [
    | err e ↦ (with_body (some (pairing_error_response 2)), report e c)
    | ok srp ↦
        let (outcome, started) = process_m1 bytes srp in
        elim outcome [
          | err e ↦ (with_body (some (pairing_error_response 2)), report e c)
          | ok _ ↦ (with_body (some (build_m2 k started)), record c { srp_server = some started })
        ]
  ]

  -- M3: the secret is the connection's only after a transient pairing.
  unfoldable pub setup_m3 : List ℕ → SrpServer → RaopConnection → Reply × RaopConnection
  setup_m3 bytes srp c =
      let (outcome, s) = process_m3 k bytes srp in
      elim outcome [
        | err e ↦ (with_body none, record c { srp_server = some s })
        | ok accepted ↦
            if accepted && s.is_transient
            then (
              with_body (some (build_m4 s)),
              record c { srp_server = some s; ap2_shared_secret = shared_secret s; is_ap2 = true },
            )
            else (with_body (some (build_m4 s)), record c { srp_server = some s })
      ]

  -- M5: the controller's key is stored only once M6 could be built.
  unfoldable pub setup_m5 : List ℕ → SrpServer → RaopConnection → Reply × RaopConnection
  setup_m5 bytes srp c = elim (process_m5 k bytes srp) [
    | err e ↦ (with_body (some (pairing_error_response 6)), report e c)
    | ok (client_id, client_pk) ↦ elim (build_m6 k srp shared.device_id shared.identity_seed) [
      | err e ↦ (with_body none, c)
      | ok m6 ↦ (with_body (some m6), record c { store = store_put client_id client_pk c.store })
    ]
  ]

  unfoldable pub setup_in_state : ℕ → Random → List ℕ → RaopConnection → Reply × RaopConnection
  setup_in_state state r bytes c =
      if state == 1
      then setup_m1 r bytes c
      else if state == 3
      then elim c.srp_server [ none ↦ (with_body none, c) | some srp ↦ setup_m3 bytes srp c ]
      else if state == 5
      then elim c.srp_server [ none ↦ (with_body none, c) | some srp ↦ setup_m5 bytes srp c ]
      else (with_body none, c)

  -- handlers_ap2.rs: `handle_pair_setup`, of the request's data.
  unfoldable pub handle_pair_setup :
      Random → Option (List ℕ) → RaopConnection → Reply × RaopConnection
  handle_pair_setup r none c = (nothing, c)
  handle_pair_setup r (some bytes) c = elim (kind_of bytes) [
    | legacy ↦ legacy_pair_setup bytes c
    | stateless ↦ (with_body none, c)
    | in_state state ↦ setup_in_state state r bytes c
  ]

  unfoldable pub verify_m1 : Random → List ℕ → RaopConnection → Reply × RaopConnection
  verify_m1 r bytes c =
      let (outcome, pv) =
        process_m1_build_m2 k bytes
          (new_verify k shared.device_id shared.identity_seed r.secret_bytes) in
      elim outcome [
        | err e ↦ (with_body none, report e c)
        | ok m2 ↦ (
          with_body (some m2),
          record c { pair_verify = some pv; pair_verify_secret = some (ecdh_shared_secret pv) },
        )
      ]

  unfoldable pub verify_m3 : List ℕ → PairVerifyServer → RaopConnection → Reply × RaopConnection
  verify_m3 bytes pv c =
      let (outcome, s) = process_m3_build_m4 k bytes (some (store_get c.store)) pv in
      elim outcome [
        | err e ↦ (with_body none, report e (record c { pair_verify = some s }))
        | ok m4 ↦ (
          with_body (some m4),
          record c {
            pair_verify = some s;
            pair_verify_secret = verified_secret s;
            ap2_shared_secret = verified_secret s;
            is_ap2 = true;
          },
        )
      ]

  unfoldable pub verify_in_state : ℕ → Random → List ℕ → RaopConnection → Reply × RaopConnection
  verify_in_state state r bytes c =
      if state == 1
      then verify_m1 r bytes c
      else if state == 3
      then elim c.pair_verify [ none ↦ (with_body none, c) | some pv ↦ verify_m3 bytes pv c ]
      else (with_body none, c)

  -- handlers_ap2.rs: `handle_pair_verify`, of the request's data.
  unfoldable pub handle_pair_verify :
      Random → Option (List ℕ) → RaopConnection → Reply × RaopConnection
  handle_pair_verify r none c = (nothing, c)
  handle_pair_verify r (some bytes) c = elim (kind_of bytes) [
    | legacy ↦ legacy_pair_verify r bytes c
    | stateless ↦ (with_body none, c)
    | in_state state ↦ verify_in_state state r bytes c
  ]
