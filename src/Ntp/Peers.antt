-- ===== src/Ntp/Peers.antt =====
-- raop/ntp.rs: to whom the responder sends.
use shairplay_rust.Base.{
  ℕ, Bool, true, false, ◌&&◌, List, [], ◌∷◌, ◌++◌, ltb, ◌≡◌, refl, ◌⊎◌, inl, inr, All, Bool-cases,
  &&-cases,
}
use shairplay_rust.Ntp.{
  SocketAddr, NtpTime, Event, Sent, received, receive_failed, timed_out, is_timing_request,
  build_timing_response, sender_allowed, keepalive, answer, to_sender, responder_loop,
  spawn_ntp_responder,
}

-- A packet goes to the peer's timing address, whose port is known, or to a sender that is allowed; and
-- then it is no request, so that two responders do not answer each other.
abbrev pub IsAllowed : SocketAddr → Sent → Type 0
IsAllowed remote_timing (packet, addr) =
    ((ltb 0 remote_timing.port ≡ true) × (addr ≡ remote_timing))
    ⊎ ((sender_allowed remote_timing addr ≡ true) × (is_timing_request packet ≡ false))

and-false : (b : Bool) → (b && false) ≡ false
and-false true = refl
and-false false = refl

to_sender-IsAllowed :
    (remote_timing addr : SocketAddr) (request : List ℕ) (now : NtpTime)
    → sender_allowed remote_timing addr ≡ true
    → All (IsAllowed remote_timing) (to_sender addr (build_timing_response request now))
unfolding build_timing_response
to_sender-IsAllowed remote_timing addr [] now h = tt
to_sender-IsAllowed remote_timing addr (a ∷ []) now h = tt
to_sender-IsAllowed remote_timing addr (a ∷ b ∷ rest) now h =
    elim (Bool-cases (is_timing_request (a ∷ b ∷ rest))) [
      | inl e ↦ rw (e, build_timing_response) (inr (h, and-false _), tt)
      | inr e ↦ rw (e, build_timing_response) tt
    ]

All-append :
    (remote_timing : SocketAddr) (xs ys : List Sent)
    → All (IsAllowed remote_timing) xs
    → All (IsAllowed remote_timing) ys
    → All (IsAllowed remote_timing) (xs ++ ys)
All-append remote_timing [] ys h k = k
All-append remote_timing (x ∷ xs) ys (hx, hxs) k = (hx, All-append remote_timing xs ys hxs k)

keepalive-IsAllowed :
    (remote_timing : SocketAddr) (now : NtpTime)
    → All (IsAllowed remote_timing) (keepalive remote_timing now)
unfolding keepalive
keepalive-IsAllowed remote_timing now = elim (Bool-cases (ltb 0 remote_timing.port)) [
  | inl e ↦ rw (e, keepalive) (inl (e, refl), tt)
  | inr e ↦ rw (e, keepalive) tt
]

answer-IsAllowed :
    (remote_timing : SocketAddr) (now : NtpTime) (bytes : List ℕ) (addr : SocketAddr)
    → All (IsAllowed remote_timing) (answer remote_timing now bytes addr)
unfolding answer
answer-IsAllowed remote_timing now bytes addr =
    elim (Bool-cases (is_timing_request bytes && sender_allowed remote_timing addr)) [
      | inl e ↦
          rw (e, answer)
            (to_sender-IsAllowed remote_timing addr bytes now
              ((&&-cases (is_timing_request bytes) (sender_allowed remote_timing addr) e).1))
      | inr e ↦ rw (e, answer) tt
    ]

responder_loop-IsAllowed :
    (remote_timing : SocketAddr) (events : List (Event × NtpTime))
    → All (IsAllowed remote_timing) (responder_loop remote_timing events)
unfolding responder_loop
responder_loop-IsAllowed remote_timing [] = tt
responder_loop-IsAllowed remote_timing ((received bytes addr, now) ∷ events) =
    All-append remote_timing (answer remote_timing now bytes addr)
      (responder_loop remote_timing events) (answer-IsAllowed remote_timing now bytes addr)
      (responder_loop-IsAllowed remote_timing events)
responder_loop-IsAllowed remote_timing ((receive_failed, now) ∷ events) = tt
responder_loop-IsAllowed remote_timing ((timed_out, now) ∷ events) =
    All-append remote_timing (keepalive remote_timing now) (responder_loop remote_timing events)
      (keepalive-IsAllowed remote_timing now) (responder_loop-IsAllowed remote_timing events)

-- Whatever arrives, each packet that the task sends goes to the peer's timing address, when its port is
-- known, or it is no timing request and goes to a sender that is allowed.
pub spawn_ntp_responder-IsAllowed :
    (remote_timing : SocketAddr) (t1 t2 t3 : NtpTime) (events : List (Event × NtpTime))
    → All (IsAllowed remote_timing) (spawn_ntp_responder remote_timing (t1, t2, t3) events)
unfolding spawn_ntp_responder
spawn_ntp_responder-IsAllowed remote_timing t1 t2 t3 events =
    let append = All-append remote_timing in
    append (keepalive remote_timing t1) _ (keepalive-IsAllowed remote_timing t1) (
      append (keepalive remote_timing t2) _ (keepalive-IsAllowed remote_timing t2) (
        append (keepalive remote_timing t3) (responder_loop remote_timing events)
          (keepalive-IsAllowed remote_timing t3) (responder_loop-IsAllowed remote_timing events)))
