-- ===== src/PairHandlers/Steps.antt =====
-- raop/handlers_ap2.rs: the pair-setup requests of a connection, each by itself, when a PIN is configured.
use shairplay_rust.Base.{
  ℕ, ◌==◌, List, Bool, true, false, Option, some, ◌≡◌, refl, sym, ap, ◌∙◌, inl, inr, Bool-cases,
  Option-cases, length, bytes_eq,
}
use shairplay_rust.Homekit.{n_3072_hex}
use shairplay_rust.Crypto.{Crypto, bind_ok, ok_or, no_group, ok, err, transient_disabled}
use shairplay_rust.Homekit.Srp.{
  is_none, SrpServer, new_server, new_in_group, read_m1, process_m1, read_m3, process_m3,
  expected_m,
}
use shairplay_rust.Homekit.Identity.{process_m5, build_m6}
use shairplay_rust.Homekit.Gates.{Result-cases}
use shairplay_rust.PairHandlers.Guarded.{IsGuarded, lasting_of}
use shairplay_rust.PairHandlers.{
  Shared, RaopConnection, Random, setup_m1, setup_m3, setup_m5, setup_in_state, legacy_pair_setup,
}

-- With a PIN no M1 that is accepted leaves a transient server.
process_m1_lasting :
    (bytes : List ℕ) (s : SrpServer) (transient : Bool) (u : Unit {0})
    → read_m1 bytes ≡ ok transient
    → s.allow_transient ≡ false
    → (process_m1 bytes s).0 ≡ ok u
    → ((process_m1 bytes s).1).is_transient ≡ false
unfolding process_m1
process_m1_lasting bytes s true u read disabled h =
    let refused : (process_m1 bytes s).0 ≡ err transient_disabled =
      rw (read, process_m1) (rw disabled refl) in
    absurd cc
process_m1_lasting bytes s false u read disabled h = rw (read, process_m1) refl

process_m1_accepted :
    (bytes : List ℕ) (s : SrpServer) (u : Unit {0})
    → s.allow_transient ≡ false
    → (process_m1 bytes s).0 ≡ ok u
    → ((process_m1 bytes s).1).is_transient ≡ false
unfolding process_m1
process_m1_accepted bytes s u disabled h = elim (Result-cases (read_m1 bytes)) [
  | inl (e, r) ↦ let failed : (process_m1 bytes s).0 ≡ err e = rw (r, process_m1) refl in absurd cc
  | inr (t, r) ↦ process_m1_lasting bytes s t u r disabled h
]

module _ (k : Crypto) where
  new_server_disabled :
      (pin : Option (List ℕ)) (salt_bytes b_bytes : List ℕ) (s : SrpServer)
      → new_server k pin salt_bytes b_bytes ≡ ok s
      → s.allow_transient ≡ is_none pin
  unfolding new_server new_in_group
  new_server_disabled pin salt_bytes b_bytes s h =
      let (n, _, made) = bind_ok (ok_or (k.parse_hex n_3072_hex) no_group) _ s h in
      let same : new_in_group k n pin salt_bytes b_bytes ≡ s = cc in
      sym (ap (λ q. q.allow_transient) same)

  process_m3_transient :
      (bytes : List ℕ) (s : SrpServer) → ((process_m3 k bytes s).1).is_transient ≡ s.is_transient
  unfolding process_m3
  process_m3_transient bytes s = elim (Result-cases (read_m3 k s bytes)) [
    | inl (e, r) ↦ rw (r, process_m3) refl
    | inr ((big_a, proof), r) ↦ elim (Bool-cases (bytes_eq proof (expected_m k s big_a))) [
      | inl e ↦ rw (r, process_m3) (rw e refl)
      | inr e ↦ rw (r, process_m3) (rw e refl)
    ]
  ]

  module _ (P : List ℕ → Type 0) (shared : Shared) (pin : List ℕ)
      (configured : shared.pin ≡ some pin) where
    setup_m1-IsGuarded :
        (r : Random) (bytes : List ℕ) (c : RaopConnection)
        → IsGuarded k P c
        → IsGuarded k P (setup_m1 k shared r bytes c).1
    unfolding setup_m1 IsGuarded
    setup_m1-IsGuarded r bytes c g =
        elim (Result-cases (new_server k shared.pin r.salt_bytes r.b_bytes)) [
          | inl (e, made) ↦ rw (made, setup_m1) g
          | inr (srp, made) ↦
              let disabled =
                new_server_disabled shared.pin r.salt_bytes r.b_bytes srp made
                ∙ ap is_none configured in
              elim (Result-cases (process_m1 bytes srp).0) [
                | inl (e, read) ↦ rw (made, setup_m1) (rw read g)
                | inr (u, read) ↦
                    rw (made, setup_m1)
                      (rw read ((process_m1_accepted bytes srp u disabled read, g.1, g.2)))
              ]
        ]

    setup_m3-IsGuarded :
        (bytes : List ℕ) (srp : SrpServer) (c : RaopConnection)
        → srp.is_transient ≡ false
        → IsGuarded k P c
        → IsGuarded k P (setup_m3 k shared bytes srp c).1
    unfolding setup_m3 IsGuarded
    setup_m3-IsGuarded bytes srp c lasting g =
        let still = process_m3_transient bytes srp ∙ lasting in
        elim (Result-cases (process_m3 k bytes srp).0) [
          | inl (e, h) ↦ rw (h, setup_m3) ((still, g.1, g.2))
          | inr (false, h) ↦ rw (h, setup_m3) ((still, g.1, g.2))
          | inr (true, h) ↦ rw (h, setup_m3) (rw still ((still, g.1, g.2)))
        ]

    setup_m5-IsGuarded :
        (bytes : List ℕ) (srp : SrpServer) (c : RaopConnection)
        → IsGuarded k P c
        → IsGuarded k P (setup_m5 k shared bytes srp c).1
    unfolding setup_m5 IsGuarded
    setup_m5-IsGuarded bytes srp c g = elim (Result-cases (process_m5 k bytes srp)) [
      | inl (e, h) ↦ rw (h, setup_m5) g
      | inr ((id, pk), h) ↦
          elim (Result-cases (build_m6 k srp shared.device_id shared.identity_seed)) [
            | inl (e, b) ↦ rw (h, setup_m5) (rw b g)
            | inr (m6, b) ↦ rw (h, setup_m5) (rw b g)
          ]
    ]

    pub legacy_setup-IsGuarded :
        (bytes : List ℕ) (c : RaopConnection)
        → IsGuarded k P c
        → IsGuarded k P (legacy_pair_setup k shared bytes c).1
    unfolding legacy_pair_setup IsGuarded
    legacy_setup-IsGuarded bytes c g = elim (Bool-cases (length bytes == 32)) [
      | inl e ↦ rw (e, legacy_pair_setup) g
      | inr e ↦ rw (e, legacy_pair_setup) g
    ]

    pub setup_in_state-IsGuarded :
        (state : ℕ) (r : Random) (bytes : List ℕ) (c : RaopConnection)
        → IsGuarded k P c
        → IsGuarded k P (setup_in_state k shared state r bytes c).1
    unfolding setup_in_state
    setup_in_state-IsGuarded state r bytes c g = elim (Bool-cases (state == 1)) [
      | inl e ↦ rw (e, setup_in_state) (setup_m1-IsGuarded r bytes c g)
      | inr e ↦ elim (Bool-cases (state == 3)) [
        | inl f ↦ elim (Option-cases c.srp_server) [
          | inl s ↦ rw (e, f, s, setup_in_state) g
          | inr (srp, s) ↦
              rw (e, f, s, setup_in_state)
                (setup_m3-IsGuarded bytes srp c (lasting_of k P c srp s g) g)
        ]
        | inr f ↦ elim (Bool-cases (state == 5)) [
          | inl h ↦ elim (Option-cases c.srp_server) [
            | inl s ↦ rw (e, f, h, s, setup_in_state) g
            | inr (srp, s) ↦ rw (e, f, h, s, setup_in_state) (setup_m5-IsGuarded bytes srp c g)
          ]
          | inr h ↦ rw (e, f, h, setup_in_state) g
        ]
      ]
    ]
