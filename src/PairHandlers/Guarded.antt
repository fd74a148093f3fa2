-- ===== src/PairHandlers/Guarded.antt =====
-- raop/handlers_ap2.rs and raop/handlers_ap1.rs: the pair-verify requests of a connection, each by itself.
use mathlib.Core.Path.{subst}
use shairplay_rust.Base.{
  ℕ, ◌==◌, ◌&&◌, List, true, false, Option, none, some, ◌≡◌, refl, inl, inr, Bool-cases,
  Option-cases, length, drop, [], ◌∷◌, bytes_eq, arith,
}
use shairplay_rust.Tlv.{TlvType, get_type}
use shairplay_rust.Crypto.{
  Crypto, bind_ok, then_ok, ok_or, ok, err, verify_m1_missing_state, verify_m1_unexpected_state,
  verify_m1_missing_key, verify_m1_invalid_key_length,
}
use shairplay_rust.Homekit.{decode_tlv}
use shairplay_rust.Pairing.{finish}
use shairplay_rust.Homekit.Srp.{SrpServer}
use shairplay_rust.Homekit.Verify.{
  PairVerifyServer, verified_secret, read_verify_m1, agree, process_m1_build_m2,
  process_m3_build_m4, new_verify,
}
use shairplay_rust.Homekit.Store.{store_get}
use shairplay_rust.Homekit.Gates.{Result-cases}
use shairplay_rust.Homekit.Signatures.{IsPairedClient, m4, process_m3_build_m4-IsPairedClient}
use shairplay_rust.PairHandlers.{
  Shared, RaopConnection, Random, verify_m1, verify_m3, verify_in_state, legacy_pair_verify,
}

-- A predicate on what there is.
abbrev pub Holds {ℓ κ} : {A : Type ℓ} → (A → Type κ) → Option A → Type κ
Holds P none = Unit
Holds P (some a) = P a

pub Holds-map {ℓ κ} :
    {A : Type ℓ} {P Q : A → Type κ} (o : Option A)
    → ((a : A) → o ≡ some a → P a → Q a)
    → Holds P o
    → Holds Q o
Holds-map none f h = tt
Holds-map (some a) f h = f a refl h

-- The key of an accepted M1 has 32 bytes.
read_verify_m1-length :
    (bytes client_pk : List ℕ) → read_verify_m1 bytes ≡ ok client_pk → length client_pk ≡ 32
unfolding read_verify_m1
read_verify_m1-length bytes client_pk h =
    let (tlv, _, h) = bind_ok (decode_tlv bytes) _ client_pk h in
    let (state, _, h) =
      bind_ok (ok_or (get_type TlvType.state tlv) verify_m1_missing_state) _ client_pk h in
    let (_, h) = then_ok (bytes_eq state (1 ∷ [])) verify_m1_unexpected_state _ client_pk h in
    let (pk, _, h) =
      bind_ok (ok_or (get_type TlvType.public_key tlv) verify_m1_missing_key) _ client_pk h in
    let (len, h) = then_ok (length pk == 32) verify_m1_invalid_key_length _ client_pk h in
    let same : pk ≡ client_pk = cc in subst (λ q. length q ≡ 32) same (ground arith)

module _ (k : Crypto) where
  -- The secret of a server that waits for M3 is the agreement of its ephemeral keys with the client's.
  unfoldable pub IsAgreed : PairVerifyServer → Type 0
  IsAgreed pv =
      (pv.server_eph_pk ≡ k.x25519_public pv.server_eph_sk)
      × (pv.shared_secret ≡ k.diffie_hellman pv.server_eph_sk pv.client_eph_pk)
      × (length pv.client_eph_pk ≡ 32)

  -- The bytes are an M3 that the connection's own server accepts with the connection's store: the
  -- server's secret is the agreement of both ephemeral keys, and a client whose key is in the store has
  -- signed both.
  unfoldable pub IsVerifiedBy : List ℕ → RaopConnection → List ℕ → Type 0
  unfolding IsAgreed
  IsVerifiedBy bytes c secret =
      (pv : PairVerifyServer) × (c.pair_verify ≡ some pv)
      × IsAgreed pv
      × (process_m3_build_m4 k bytes (some (store_get c.store)) pv
          ≡ (ok m4, record pv { completed = true }))
      × IsPairedClient k (store_get c.store) pv
      × (secret ≡ pv.shared_secret)

  process_m1_build_m2-IsAgreed :
      (bytes device_id seed eph_sk_bytes m2 : List ℕ)
      → let (outcome, pv) =
          process_m1_build_m2 k bytes (new_verify k device_id seed eph_sk_bytes) in
        outcome ≡ ok m2 → IsAgreed pv
  unfolding process_m1_build_m2 IsAgreed new_verify agree
  process_m1_build_m2-IsAgreed bytes device_id seed eph_sk_bytes m2 h =
      let pv = new_verify k device_id seed eph_sk_bytes in
      elim (Result-cases (read_verify_m1 bytes)) [
        | inl (e, r) ↦
            let failed : (process_m1_build_m2 k bytes pv).0 ≡ err e =
              rw (r, process_m1_build_m2) refl in
            absurd cc
        | inr (pk, r) ↦ rw (r, process_m1_build_m2) ((refl, refl, read_verify_m1-length bytes pk r))
      ]

  module _ (P : List ℕ → Type 0) where
    -- Of a connection: its SRP server is not transient, the secret of its pair-verify server is an
    -- agreement, and its own secret has the property.
    unfoldable pub IsGuarded : RaopConnection → Type 0
    IsGuarded c =
        Holds (λ srp. srp.is_transient ≡ false) c.srp_server
        × Holds IsAgreed c.pair_verify
        × Holds P c.ap2_shared_secret

    pub lasting_of :
        (c : RaopConnection) (srp : SrpServer)
        → c.srp_server ≡ some srp
        → IsGuarded c
        → srp.is_transient ≡ false
    unfolding IsGuarded
    lasting_of c srp s g = subst (Holds (λ q. q.is_transient ≡ false)) s g.0

    module _ (shared : Shared) where
      verify_m1-IsGuarded :
          (r : Random) (bytes : List ℕ) (c : RaopConnection)
          → IsGuarded c
          → IsGuarded (verify_m1 k shared r bytes c).1
      unfolding verify_m1 IsGuarded
      verify_m1-IsGuarded r bytes c g =
          let pv = new_verify k shared.device_id shared.identity_seed r.secret_bytes in
          elim (Result-cases (process_m1_build_m2 k bytes pv).0) [
            | inl (e, h) ↦ rw (h, verify_m1) g
            | inr (m2, h) ↦
                rw (h, verify_m1)
                  ((
                    g.0,
                    process_m1_build_m2-IsAgreed bytes shared.device_id shared.identity_seed
                        r.secret_bytes m2 h,
                    g.2,
                  ))
          ]

      verify_m3-IsGuarded :
          (bytes : List ℕ) (pv : PairVerifyServer) (c : RaopConnection)
          → c.pair_verify ≡ some pv
          → ((secret : List ℕ) → IsVerifiedBy bytes c secret → P secret)
          → IsGuarded c
          → IsGuarded (verify_m3 k shared bytes pv c).1
      unfolding verify_m3 verified_secret IsGuarded IsVerifiedBy IsAgreed
      verify_m3-IsGuarded bytes pv c here found g =
          let agreed = subst (Holds IsAgreed) here g.1 in
          elim (process_m3_build_m4-IsPairedClient k bytes (store_get c.store) pv) [
            | inl (e, h) ↦ rw (h, verify_m3) (rw h ((g.0, agreed, g.2)))
            | inr (started, paired, h) ↦
                rw (h, verify_m3)
                  (rw (h, verified_secret)
                    ((g.0, agreed, found pv.shared_secret (pv, here, agreed, h, paired, refl))))
          ]

      pub legacy_verify-IsGuarded :
          (r : Random) (bytes : List ℕ) (c : RaopConnection)
          → IsGuarded c
          → IsGuarded (legacy_pair_verify k shared r bytes c).1
      unfolding legacy_pair_verify IsGuarded
      legacy_verify-IsGuarded r [] c g = g
      legacy_verify-IsGuarded r (b ∷ bs) c g = elim (Bool-cases (b == 1 && length bs == 67)) [
        | inl e ↦ rw (e, legacy_pair_verify) g
        | inr e ↦ elim (Bool-cases (b == 0 && length bs == 67)) [
          | inl f ↦ elim (Result-cases (finish k (drop 3 bs) c.pairing).0) [
            | inl (e', h) ↦ rw (e, f, h, legacy_pair_verify) g
            | inr (u, h) ↦ rw (e, f, h, legacy_pair_verify) g
          ]
          | inr f ↦ rw (e, f, legacy_pair_verify) g
        ]
      ]

      pub verify_in_state-IsGuarded :
          (state : ℕ) (r : Random) (bytes : List ℕ) (c : RaopConnection)
          → ((secret : List ℕ) → IsVerifiedBy bytes c secret → P secret)
          → IsGuarded c
          → IsGuarded (verify_in_state k shared state r bytes c).1
      unfolding verify_in_state
      verify_in_state-IsGuarded state r bytes c found g = elim (Bool-cases (state == 1)) [
        | inl e ↦ rw (e, verify_in_state) (verify_m1-IsGuarded r bytes c g)
        | inr e ↦ elim (Bool-cases (state == 3)) [
          | inl f ↦ elim (Option-cases c.pair_verify) [
            | inl s ↦ rw (e, f, s, verify_in_state) g
            | inr (pv, s) ↦ rw (e, f, s, verify_in_state) (verify_m3-IsGuarded bytes pv c s found g)
          ]
          | inr f ↦ rw (e, f, verify_in_state) g
        ]
      ]
