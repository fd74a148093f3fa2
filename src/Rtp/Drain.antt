-- ===== src/Rtp/Drain.antt =====
-- raop/rtp.rs: what the loops play, against the abstract view of the packet buffer.
use shairplay_rust.Base.{
  ℕ, zero, suc, ◌≤◌, ◌<◌, Bool, not, ◌&&◌, Option, none, some, List, [], ◌∷◌, length, ltb,
  if◌then◌else◌, ◌≡◌, refl, sym, ap, ◌∙◌, arith, Bool-cases, Option-cases, inl, inr,
}
use shairplay_rust.RaopBuffer.{RaopBuffer, dequeue}
use shairplay_rust.RaopBuffer.Invariant.{IsWellFormed, held}
use shairplay_rust.RaopBuffer.Contents.{Samples, Frames, contents, pop, length-tabulate, frame_at}
use shairplay_rust.RaopBuffer.Pop.{dequeue_refines, silence_of}
use shairplay_rust.RaopBuffer.Dequeue.{dequeue-IsWellFormed, dequeue_tests, is_due, must_wait}
use shairplay_rust.Rtp.{drain, RtpLoop, play_due}

-- All frames that are due, silence for the gaps that are not waited for, and what stays.
unfoldable pub pop_all : Bool → Samples → Frames → List Samples × Frames
pop_all no_resend silence [] = ([], [])
pop_all no_resend silence (some f ∷ rest) =
    let (out, left) = pop_all no_resend silence rest in (f ∷ out, left)
pop_all no_resend silence (none ∷ rest) =
    let (out, left) = pop_all no_resend silence rest in
    if not no_resend && ltb (length rest) 31 then ([], none ∷ rest) else (silence ∷ out, left)

-- The loop over `pop`.
unfoldable pop_loop : ℕ → Bool → Samples → Frames → List Samples × Frames
pop_loop zero no_resend silence frames = ([], frames)
pop_loop (suc fuel) no_resend silence frames =
    let (out, left) = pop no_resend silence frames in
    elim out [
      | none ↦ ([], left)
      | some f ↦ let (rest, last) = pop_loop fuel no_resend silence left in (f ∷ rest, last)
    ]

-- A round of `pop_loop` behind `pop`.
unfoldable next_pop : ℕ → Bool → Samples → Option Samples × Frames → List Samples × Frames
next_pop fuel no_resend silence p = elim p.0 [
  | none ↦ ([], p.1)
  | some f ↦ (f ∷ (pop_loop fuel no_resend silence p.1).0, (pop_loop fuel no_resend silence p.1).1)
]

pop_loop-pop_all :
    (fuel : ℕ) (no_resend : Bool) (silence : Samples) (frames : Frames)
    → length frames < fuel
    → pop_loop fuel no_resend silence frames ≡ pop_all no_resend silence frames
unfolding pop_loop pop_all pop next_pop
pop_loop-pop_all zero no_resend silence frames h = absurd (omega arith)
pop_loop-pop_all (suc fuel) no_resend silence [] h = refl
pop_loop-pop_all (suc fuel) no_resend silence (some f ∷ rest) h =
    rw (pop_loop-pop_all fuel no_resend silence rest (omega arith)) refl
pop_loop-pop_all (suc fuel) no_resend silence (none ∷ rest) h =
    elim (Bool-cases (not no_resend && ltb (length rest) 31)) [
      | inl e ↦
          let waits : pop no_resend silence (none ∷ rest) ≡ (none, none ∷ rest) =
            rw (e, pop) refl in
          ap (next_pop fuel no_resend silence) waits ∙ sym (rw (e, pop_all) refl)
      | inr e ↦
          let given : pop no_resend silence (none ∷ rest) ≡ (some silence, rest) =
            rw (e, pop) refl in
          ap (next_pop fuel no_resend silence) given
          ∙ ap (λ p. (silence ∷ p.0, p.1))
              (pop_loop-pop_all fuel no_resend silence rest (omega arith))
          ∙ sym (rw (e, pop_all) refl)
    ]

pop-pop_all :
    (no_resend : Bool) (silence : Samples) (frames : Frames)
    → (pop no_resend silence (pop_all no_resend silence frames).1).0 ≡ none
unfolding pop pop_all
pop-pop_all no_resend silence [] = refl
pop-pop_all no_resend silence (some f ∷ rest) = pop-pop_all no_resend silence rest
pop-pop_all no_resend silence (none ∷ rest) =
    elim (Bool-cases (not no_resend && ltb (length rest) 31)) [
      | inl e ↦ rw (e, pop_all) (rw (e, pop) refl)
      | inr e ↦ rw (e, pop_all) (pop-pop_all no_resend silence rest)
    ]

module _ {D : Type 0} where
  silence_of-dequeue :
      (no_resend : Bool) (b : RaopBuffer D) → silence_of (dequeue no_resend b).1 ≡ silence_of b
  silence_of-dequeue no_resend b = elim (Bool-cases (is_due b && not (must_wait no_resend b))) [
    | inl e ↦ rw (dequeue_tests no_resend b, e) refl
    | inr e ↦ rw (dequeue_tests no_resend b, e) refl
  ]

  drain-pop_loop :
      (fuel : ℕ) (no_resend : Bool) (b : RaopBuffer D)
      → IsWellFormed b
      → let (out, b') = drain fuel no_resend b in
        (out, contents b') ≡ pop_loop fuel no_resend (silence_of b) (contents b)
  unfolding drain pop_loop next_pop
  drain-pop_loop zero no_resend b v = refl
  drain-pop_loop (suc fuel) no_resend b v =
      let b' = (dequeue no_resend b).1 in
      let round = ap (next_pop fuel no_resend (silence_of b)) (dequeue_refines no_resend b v) in
      elim (Option-cases (dequeue no_resend b).0) [
        | inl e ↦
            rw (e, drain)
              (ap (λ o. next_pop fuel no_resend (silence_of b) (o, contents b')) (sym e) ∙ round)
        | inr (f, e) ↦
            let rest =
              drain-pop_loop fuel no_resend b' (dequeue-IsWellFormed no_resend b v)
              ∙ ap (λ s. pop_loop fuel no_resend s (contents b'))
                  (silence_of-dequeue no_resend b) in
            rw (e, drain)
              (ap (λ p. (f ∷ p.0, p.1)) rest
                ∙ ap (λ o. next_pop fuel no_resend (silence_of b) (o, contents b')) (sym e)
                ∙ round)
      ]

  length-contents : (b : RaopBuffer D) → IsWellFormed b → length (contents b) ≤ 32
  unfolding contents
  length-contents b v = elim (Bool-cases b.is_empty) [
    | inl e ↦ rw e (omega arith)
    | inr e ↦ rw e (omega (arith, v.window, length-tabulate (held b) (frame_at b)))
  ]

  -- The inner loop of both transports, with the fuel of 33 rounds, plays all frames that are due in the
  -- abstract view of a well-formed buffer, and leaves the view without them.
  pub drain_refines :
      (no_resend : Bool) (b : RaopBuffer D)
      → IsWellFormed b
      → let (out, b') = drain 33 no_resend b in
        (out, contents b') ≡ pop_all no_resend (silence_of b) (contents b)
  drain_refines no_resend b v =
      drain-pop_loop 33 no_resend b v
      ∙ pop_loop-pop_all 33 no_resend (silence_of b) (contents b)
          (omega (arith, length-contents b v))

  drain-IsWellFormed :
      (fuel : ℕ) (no_resend : Bool) (b : RaopBuffer D)
      → IsWellFormed b
      → IsWellFormed (drain fuel no_resend b).1
  unfolding drain
  drain-IsWellFormed zero no_resend b v = v
  drain-IsWellFormed (suc fuel) no_resend b v =
      let v' = dequeue-IsWellFormed no_resend b v in
      elim (Option-cases (dequeue no_resend b).0) [
        | inl e ↦ rw (e, drain) v'
        | inr (f, e) ↦ rw (e, drain) (drain-IsWellFormed fuel no_resend (dequeue no_resend b).1 v')
      ]

  silence_of-drain :
      (fuel : ℕ) (no_resend : Bool) (b : RaopBuffer D)
      → silence_of (drain fuel no_resend b).1 ≡ silence_of b
  unfolding drain
  silence_of-drain zero no_resend b = refl
  silence_of-drain (suc fuel) no_resend b =
      let b' = (dequeue no_resend b).1 in
      elim (Option-cases (dequeue no_resend b).0) [
        | inl e ↦ rw (e, drain) (silence_of-dequeue no_resend b)
        | inr (f, e) ↦
            rw (e, drain) (silence_of-drain fuel no_resend b' ∙ silence_of-dequeue no_resend b)
      ]

  -- Nothing is due any more when the inner loop of 33 rounds has ended on a well-formed buffer: it ended
  -- because `dequeue` had no frame, and not because of the fuel.
  pub dequeue-drain :
      (no_resend : Bool) (b : RaopBuffer D)
      → IsWellFormed b
      → (dequeue no_resend (drain 33 no_resend b).1).0 ≡ none
  dequeue-drain no_resend b v =
      let b' = (drain 33 no_resend b).1 in
      ap (λ p. p.0) (dequeue_refines no_resend b' (drain-IsWellFormed 33 no_resend b v))
      ∙ ap (λ s. (pop no_resend s (contents b')).0) (silence_of-drain 33 no_resend b)
      ∙ ap (λ p. (pop no_resend (silence_of b) p.1).0) (drain_refines no_resend b v)
      ∙ pop-pop_all no_resend (silence_of b) (contents b)

  pub play_due-IsWellFormed :
      (no_resend : Bool) (s : RtpLoop D)
      → IsWellFormed s.buffer
      → IsWellFormed (play_due no_resend s).buffer
  unfolding play_due
  play_due-IsWellFormed no_resend s v = drain-IsWellFormed 33 no_resend s.buffer v
