-- ===== src/PairHandlers/Reachable.antt =====
-- raop/handlers_ap2.rs: the pairing requests of a connection, one after the other.
use shairplay_rust.Base.{ℕ, List, false, Option, none, some, ◌≡◌, refl, inl, inr, [], ◌⊎◌}
use shairplay_rust.Crypto.{Crypto}
use shairplay_rust.Pairing.{create_session}
use shairplay_rust.Homekit.Store.{PairingStore}
use shairplay_rust.PairHandlers.{
  Shared, RaopConnection, Random, handle_pair_setup, handle_pair_verify, kind_of, Kind, legacy,
  stateless, in_state,
}
use shairplay_rust.PairHandlers.Guarded.{
  Holds, Holds-map, IsVerifiedBy, IsGuarded, legacy_verify-IsGuarded, verify_in_state-IsGuarded,
}
use shairplay_rust.PairHandlers.Steps.{legacy_setup-IsGuarded, setup_in_state-IsGuarded}

Kind-cases :
    (kind : Kind) → (kind ≡ legacy) ⊎ ((kind ≡ stateless) ⊎ ((state : ℕ) × (kind ≡ in_state state)))
Kind-cases legacy = inl refl
Kind-cases stateless = inr (inl refl)
Kind-cases (in_state state) = inr (inr (state, refl))

-- A connection that has served nothing yet.
unfoldable pub new_connection : Shared → PairingStore → RaopConnection
new_connection shared store = record {
  pairing = create_session shared.pairing_seed;
  srp_server = none;
  pair_verify = none;
  ap2_shared_secret = none;
  pair_verify_secret = none;
  is_ap2 = false;
  store = store;
  reported = [];
}

module _ (k : Crypto) (shared : Shared) where
  -- The connections that a sequence of pairing requests leads to from a given one, while other
  -- connections and the application may put anything in the store that they share.
  pub data Leads (start : RaopConnection) : RaopConnection → Type 0 where
    done : Leads start start
    setup :
        {c : RaopConnection} (r : Random) (body : Option (List ℕ))
        → Leads start c
        → Leads start (handle_pair_setup k shared r body c).1
    verify :
        {c : RaopConnection} (r : Random) (body : Option (List ℕ))
        → Leads start c
        → Leads start (handle_pair_verify k shared r body c).1
    stored_elsewhere :
        {c : RaopConnection} (store : PairingStore)
        → Leads start c
        → Leads start (record c { store = store })

  unfoldable pub Reach : RaopConnection → Type 0
  Reach c = (store : PairingStore) × Leads (new_connection shared store) c

  -- The secret that a connection got at an earlier pair-verify: the connection was then in a state that
  -- it could reach, its own server accepted the request as an M3 with the store of that time, the secret
  -- is that server's, and the connection had it right after.
  unfoldable pub IsSigned : RaopConnection → List ℕ → Type 0
  IsSigned c secret =
      (before : RaopConnection) × (r : Random) × (bytes : List ℕ) × Reach before
      × IsVerifiedBy k bytes before secret
      × ((handle_pair_verify k shared r (some bytes) before).1.ap2_shared_secret ≡ some secret)
      × Leads (handle_pair_verify k shared r (some bytes) before).1 c

module _ (k : Crypto) (shared : Shared) (pin : List ℕ) (configured : shared.pin ≡ some pin) where
  module _ (P : List ℕ → Type 0) where
    handle_pair_setup-IsGuarded :
        (r : Random) (body : Option (List ℕ)) (c : RaopConnection)
        → IsGuarded k P c
        → IsGuarded k P (handle_pair_setup k shared r body c).1
    unfolding handle_pair_setup
    handle_pair_setup-IsGuarded r none c g = g
    handle_pair_setup-IsGuarded r (some bytes) c g = elim (Kind-cases (kind_of bytes)) [
      | inl e ↦
          rw (e, handle_pair_setup) (legacy_setup-IsGuarded k P shared pin configured bytes c g)
      | inr (inl e) ↦ rw (e, handle_pair_setup) g
      | inr (inr (state, e)) ↦
          rw (e, handle_pair_setup)
            (setup_in_state-IsGuarded k P shared pin configured state r bytes c g)
    ]

    handle_pair_verify-IsGuarded :
        (r : Random) (bytes : List ℕ) (c : RaopConnection)
        → ((secret : List ℕ) → IsVerifiedBy k bytes c secret → P secret)
        → IsGuarded k P c
        → IsGuarded k P (handle_pair_verify k shared r (some bytes) c).1
    unfolding handle_pair_verify
    handle_pair_verify-IsGuarded r bytes c found g = elim (Kind-cases (kind_of bytes)) [
      | inl e ↦ rw (e, handle_pair_verify) (legacy_verify-IsGuarded k P shared r bytes c g)
      | inr (inl e) ↦ rw (e, handle_pair_verify) g
      | inr (inr (state, e)) ↦
          rw (e, handle_pair_verify) (verify_in_state-IsGuarded k P shared state r bytes c found g)
    ]

  IsGuarded-map :
      (P Q : List ℕ → Type 0) (c : RaopConnection)
      → ((secret : List ℕ) → c.ap2_shared_secret ≡ some secret → P secret → Q secret)
      → IsGuarded k P c
      → IsGuarded k Q c
  unfolding IsGuarded
  IsGuarded-map P Q c f g = (g.0, g.1, Holds-map c.ap2_shared_secret f g.2)

  -- A secret stays the signed one with each step.
  after_step :
      (P : List ℕ → Type 0) (c d : RaopConnection)
      → ((start : RaopConnection) → Leads k shared start c → Leads k shared start d)
      → ((secret : List ℕ) → IsSigned k shared d secret → P secret)
      → IsGuarded k (IsSigned k shared c) c
      → IsGuarded k P c
  unfolding IsSigned
  after_step P c d step keep g =
      IsGuarded-map (IsSigned k shared c) P c
        (λ secret _ (before, r, bytes, reach, verified, had, trail).
          keep secret (before, r, bytes, reach, verified, had, step _ trail))
        g

  -- What may be said of a secret behind a pair-verify request: it is of the history, or of the request.
  unfoldable OldOrNew : Random → List ℕ → RaopConnection → List ℕ → Type 0
  OldOrNew r bytes c secret =
      IsSigned k shared (handle_pair_verify k shared r (some bytes) c).1 secret
      ⊎ IsVerifiedBy k bytes c secret

  verify_step :
      (r : Random) (bytes : List ℕ) (c : RaopConnection)
      → Reach k shared c
      → IsGuarded k (IsSigned k shared c) c
      → let d = (handle_pair_verify k shared r (some bytes) c).1 in
        IsGuarded k (IsSigned k shared d) d
  unfolding OldOrNew IsSigned
  verify_step r bytes c reach g =
      let d = (handle_pair_verify k shared r (some bytes) c).1 in
      IsGuarded-map (OldOrNew r bytes c) (IsSigned k shared d) d
        (λ secret had old_or_new. elim old_or_new [
          | inl old ↦ old
          | inr verified ↦ (c, r, bytes, reach, verified, had, done)
        ])
        (handle_pair_verify-IsGuarded (OldOrNew r bytes c) r bytes c
          (λ secret verified. inr verified)
          (after_step (OldOrNew r bytes c) c d (λ start trail. verify r (some bytes) trail)
            (λ secret old. inl old) g))

  Leads-IsGuarded :
      (store : PairingStore) (c : RaopConnection)
      → Leads k shared (new_connection shared store) c
      → IsGuarded k (IsSigned k shared c) c
  unfolding new_connection IsGuarded Reach handle_pair_verify
  Leads-IsGuarded store _ done = (tt, tt, tt)
  Leads-IsGuarded store _ (setup {c} r body trail) =
      handle_pair_setup-IsGuarded (IsSigned k shared (handle_pair_setup k shared r body c).1) r body
        c
        (after_step (IsSigned k shared (handle_pair_setup k shared r body c).1) c
          (handle_pair_setup k shared r body c).1 (λ start t. setup r body t) (λ secret old. old)
          (Leads-IsGuarded store c trail))
  Leads-IsGuarded store _ (verify {c} r none trail) = Leads-IsGuarded store c trail
  Leads-IsGuarded store _ (verify {c} r (some bytes) trail) =
      verify_step r bytes c (store, trail) (Leads-IsGuarded store c trail)
  Leads-IsGuarded store _ (stored_elsewhere {c} other trail) =
      after_step (IsSigned k shared (record c { store = other })) c (record c { store = other })
        (λ start t. stored_elsewhere other t) (λ secret old. old) (Leads-IsGuarded store c trail)

  -- When a PIN is configured, whatever sequence of pairing requests a new connection gets, its server of
  -- pair-setup is not transient; and if it has a secret, then it got it at one of its pair-verify
  -- requests, as the secret of the server that it then had: that server accepted the request as an M3, the
  -- secret is the agreement of its ephemeral keys with the client's, and both ephemeral keys were signed
  -- under a key that then stood in the store.
  pub reach-IsSigned :
      (c : RaopConnection)
      → Reach k shared c
      → Holds (λ srp. srp.is_transient ≡ false) c.srp_server
        × Holds (IsSigned k shared c) c.ap2_shared_secret
  unfolding Reach IsGuarded
  reach-IsSigned c (store, trail) = let g = Leads-IsGuarded store c trail in (g.0, g.2)
