-- ===== src/Pairing/Session.antt =====
-- crypto/pairing.rs: the calls of a pairing session, one after the other.
use mathlib.Core.Path.{subst}
use shairplay_rust.Base.{ℕ, List, ◌++◌, true, ◌≡◌, refl, sym, ap, ◌∙◌, inl, inr, Bool-cases}
use shairplay_rust.Crypto.{Crypto, ok, pairing_verify, then_ok, guard_ok, not_in_handshake_state}
use shairplay_rust.Homekit.Gates.{Result-cases}
use shairplay_rust.Pairing.{
  PairingSession, Status, handshake, finished, is_initial, is_handshake, create_session,
  start_handshake, agree, check_finish, finish,
}

module _ (k : Crypto) where
  -- A signature of both keys, under the key that the client gave.
  unfoldable pub IsConfirmed : PairingSession → Type 0
  IsConfirmed s =
      (signature : List ℕ) × (k.verify s.ed_theirs (s.ecdh_theirs ++ s.ecdh_ours) signature ≡ true)

  still-IsConfirmed :
      (s : PairingSession) (status : Status)
      → IsConfirmed s
      → IsConfirmed (record s { status = status })
  unfolding IsConfirmed
  still-IsConfirmed s status c = c

  check_finish-IsConfirmed :
      (s : PairingSession) (bytes : List ℕ) (u : Unit {0})
      → check_finish k s bytes ≡ ok u
      → (is_handshake s.status ≡ true) × IsConfirmed s
  unfolding check_finish IsConfirmed
  check_finish-IsConfirmed s bytes u h =
      let (in_handshake, h) = then_ok (is_handshake s.status) not_in_handshake_state _ u h in
      let (_, h) = then_ok (k.is_key s.ed_theirs) pairing_verify _ u h in
      (in_handshake, (_, guard_ok _ pairing_verify u h))

  -- The sessions that any calls lead to.
  pub data Reach (seed : List ℕ) : PairingSession → Type 0 where
    fresh : Reach seed (create_session seed)
    shaken :
        {s : PairingSession} (our_secret ecdh_key ed_key : List ℕ)
        → Reach seed s
        → Reach seed (start_handshake k our_secret ecdh_key ed_key s).1
    closed :
        {s : PairingSession} (signature : List ℕ)
        → Reach seed s
        → Reach seed (finish k signature s).1

  -- A call that leaves the session as it was.
  kept :
      {s t : PairingSession}
      → t ≡ s
      → (s.status ≡ finished → IsConfirmed s)
      → t.status ≡ finished
      → IsConfirmed t
  kept {s} same before h = subst IsConfirmed (sym same) (before (sym (ap (λ q. q.status) same) ∙ h))

  shaken-IsConfirmed :
      (our_secret ecdh_key ed_key : List ℕ) (s : PairingSession)
      → (s.status ≡ finished → IsConfirmed s)
      → ((start_handshake k our_secret ecdh_key ed_key s).1).status ≡ finished
      → IsConfirmed (start_handshake k our_secret ecdh_key ed_key s).1
  unfolding start_handshake agree
  shaken-IsConfirmed our_secret ecdh_key ed_key s before h =
      elim (Bool-cases (is_initial s.status)) [
        | inl e ↦
            let now : ((start_handshake k our_secret ecdh_key ed_key s).1).status ≡ handshake =
              rw (e, start_handshake) refl in
            absurd cc
        | inr e ↦ kept (rw (e, start_handshake) refl) before h
      ]

  closed-IsConfirmed :
      (signature : List ℕ) (s : PairingSession)
      → (s.status ≡ finished → IsConfirmed s)
      → ((finish k signature s).1).status ≡ finished
      → IsConfirmed (finish k signature s).1
  unfolding finish
  closed-IsConfirmed signature s before h = elim (Result-cases (check_finish k s signature)) [
    | inl (e, r) ↦ kept (rw (r, finish) refl) before h
    | inr (u, r) ↦
        rw (r, finish) (still-IsConfirmed s finished (check_finish-IsConfirmed s signature u r).1)
  ]

  -- A session is finished only once a signature of both keys was verified under the key that the client
  -- gave in its handshake, whatever calls were made of it and in whatever order.
  pub reach-IsConfirmed :
      (seed : List ℕ) (s : PairingSession) → Reach seed s → s.status ≡ finished → IsConfirmed s
  unfolding create_session
  reach-IsConfirmed seed _ fresh h = absurd cc
  reach-IsConfirmed seed _ (shaken {s} our_secret ecdh_key ed_key reach) h =
      shaken-IsConfirmed our_secret ecdh_key ed_key s (reach-IsConfirmed seed s reach) h
  reach-IsConfirmed seed _ (closed {s} signature reach) h =
      closed-IsConfirmed signature s (reach-IsConfirmed seed s reach) h
