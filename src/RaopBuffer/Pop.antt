-- ===== src/RaopBuffer/Pop.antt =====
-- raop/buffer.rs: `dequeue` and the contents of the buffer.
use shairplay_rust.Base.{
  ℕ, suc, ◌-◌, ◌%◌, ◌≤◌, ◌<◌, min, Bool, true, false, not, ◌&&◌, none, some, List, [], ◌∷◌, length,
  take, drop, replicate, ltb, ◌≡◌, ◌≢◌, refl, ap, ◌∙◌, arith, Bool-cases, inl, inr, if◌then◌else◌,
  get_or-set_ne, take-append_exact, length-replicate,
}
use shairplay_rust.Base.Words.{ℤ, pos}
use shairplay_rust.RaopBuffer.{
  RaopBuffer, blank, clear_entry, wrapping_add, dequeue, delivered, fill_zero, entry_at, seqnum_cmp,
}
use shairplay_rust.RaopBuffer.Invariant.{IsWellFormed, held}
use shairplay_rust.RaopBuffer.Dequeue.{
  due as window_length, advanced, is_due, must_wait, first_slot, out_entry, dequeue_tests,
  is_due-held, held_advance,
}
use shairplay_rust.RaopBuffer.Contents.{
  Samples, tabulate, tabulate_ext, tabulate_cons, length-tabulate, pop, frame_in, frame_of_seq,
  frame_at, contents,
}

take-fill_zero :
    (size : ℕ) (out : List ℤ)
    → size ≤ length out
    → take size (fill_zero size out) ≡ replicate size (pos 0)
unfolding fill_zero
take-fill_zero size out h = rw (within size (length out) h) (
    take-append_exact size (replicate size (pos 0)) (drop size out) (length-replicate size (pos 0)))
  where
    within : (m n : ℕ) → m ≤ n → min m n ≡ m
    within m n p = omega arith

module _ {D : Type 0} where
  -- The silence that stands for a gap.
  abbrev pub silence_of : RaopBuffer D → Samples
  silence_of b = replicate (min b.silence_samples b.frame_capacity) (pos 0)

  -- The slot of the first number holds that number, if any.
  first_frame :
      (b : RaopBuffer D)
      → IsWellFormed b
      → (entry_at b (first_slot b)).available ≡ true
      → (entry_at b (first_slot b)).seqnum ≡ b.first_seqnum
  first_frame b v h = ground (arith, v.good (first_slot b) (omega arith))

  frame_at_zero :
      (b : RaopBuffer D)
      → IsWellFormed b
      → frame_at b 0 ≡ (
          let e = entry_at b (first_slot b) in
          if e.available then some (take e.audio_buffer_len e.audio_buffer) else none)
  frame_at_zero b v = ap (frame_of_seq b) start ∙ ground (arith, first_frame b v)
    where
      start : wrapping_add b.first_seqnum 0 ≡ b.first_seqnum
      start = omega (arith, v.first_u16)

  -- Behind the first number the advanced buffer holds what it held.
  frame_at-advanced :
      (b : RaopBuffer D) (i : ℕ)
      → IsWellFormed b
      → suc i < held b
      → frame_at (advanced b) i ≡ frame_at b (suc i)
  frame_at-advanced b i v h =
      ap (frame_of_seq (advanced b)) same
      ∙ ap (λ e. frame_in e s)
          (get_or-set_ne b.entries (first_slot b) (s % 32) (clear_entry (out_entry b))
            (blank b.frame_capacity) other)
    where
      s : ℕ
      s = wrapping_add b.first_seqnum (suc i)

      same : wrapping_add (wrapping_add b.first_seqnum 1) i ≡ s
      same = omega (arith, v.first_u16)

      other : first_slot b ≢ s % 32
      other = omega (arith, v.first_u16, v.window)

  not_due-contents : (b : RaopBuffer D) → IsWellFormed b → is_due b ≡ false → contents b ≡ []
  unfolding is_due contents tabulate seqnum_cmp
  not_due-contents b v h = elim (Bool-cases b.is_empty) [
    | inl e ↦ rw e
    | inr e ↦ rw (e, none_held e)
  ]
    where
      none_held : b.is_empty ≡ false → held b ≡ 0
      none_held e = ground (arith, v.first_u16, v.last_u16, v.window)

  -- What is due, oldest first.
  due-contents :
      (b : RaopBuffer D)
      → IsWellFormed b
      → is_due b ≡ true
      → contents b ≡ frame_at b 0 ∷ tabulate (held b - 1) (λ i. frame_at b (suc i))
  unfolding contents is_due
  due-contents b v h = rw (not_empty) (tabulate_cons (held b) (frame_at b) (is_due-held b v h))
    where
      not_empty : b.is_empty ≡ false
      not_empty = ground arith

  pub contents_nonempty :
      (b : RaopBuffer D) → b.is_empty ≡ false → contents b ≡ tabulate (held b) (frame_at b)
  unfolding contents
  contents_nonempty b h = rw h

  advanced-contents :
      (b : RaopBuffer D)
      → IsWellFormed b
      → is_due b ≡ true
      → contents (advanced b) ≡ tabulate (held b - 1) (λ i. frame_at b (suc i))
  unfolding is_due
  advanced-contents b v h =
      contents_nonempty (advanced b) not_empty
      ∙ ap (λ n. tabulate n (frame_at (advanced b))) shorter
      ∙ tabulate_ext (held b - 1) (frame_at (advanced b)) (λ i. frame_at b (suc i))
          (λ i lt. frame_at-advanced b i v (omega arith))
    where
      not_empty : b.is_empty ≡ false
      not_empty = ground arith

      shorter : held (advanced b) ≡ held b - 1
      shorter = held_advance b.first_seqnum b.last_seqnum v.first_u16 v.last_u16 (is_due-held b v h)

  -- What goes out, and whether it is waited for.
  out_frame :
      (no_resend : Bool) (b : RaopBuffer D)
      → (entry_at b (first_slot b)).available ≡ true
      → let e = entry_at b (first_slot b) in
        (must_wait no_resend b ≡ false)
        × (take (out_entry b).audio_buffer_len (out_entry b).audio_buffer
            ≡ take e.audio_buffer_len e.audio_buffer)
  unfolding must_wait delivered
  out_frame no_resend b here = ground arith

  out_gap :
      (no_resend : Bool) (b : RaopBuffer D)
      → IsWellFormed b
      → is_due b ≡ true
      → (entry_at b (first_slot b)).available ≡ false
      → (must_wait no_resend b ≡ (not no_resend && ltb (held b) 32))
        × (take (out_entry b).audio_buffer_len (out_entry b).audio_buffer ≡ silence_of b)
  unfolding must_wait delivered is_due
  out_gap no_resend b v due gap = ground (
    arith,
    take-fill_zero (min b.silence_samples b.frame_capacity)
        (entry_at b (first_slot b)).audio_buffer,
    v.good (first_slot b) (omega arith),
    window_length b.first_seqnum b.last_seqnum v.first_u16 v.last_u16,
  )

  -- A frame that is there goes out at once.
  pop_frame :
      (no_resend : Bool) (b : RaopBuffer D)
      → IsWellFormed b
      → is_due b ≡ true
      → (entry_at b (first_slot b)).available ≡ true
      → let (out, b') = dequeue no_resend b in
        (out, contents b') ≡ pop no_resend (silence_of b) (contents b)
  unfolding pop
  pop_frame no_resend b v due here = ground (
    arith,
    dequeue_tests no_resend b,
    out_frame no_resend b here,
    due-contents b v due,
    frame_at_zero b v,
    advanced-contents b v due,
  )

  -- A gap is waited for, or silence goes out.
  pop_gap :
      (no_resend : Bool) (b : RaopBuffer D)
      → IsWellFormed b
      → is_due b ≡ true
      → (entry_at b (first_slot b)).available ≡ false
      → let (out, b') = dequeue no_resend b in
        (out, contents b') ≡ pop no_resend (silence_of b) (contents b)
  unfolding pop
  pop_gap no_resend b v due here = ground (
    arith,
    dequeue_tests no_resend b,
    out_gap no_resend b v due here,
    due-contents b v due,
    frame_at_zero b v,
    advanced-contents b v due,
    length-tabulate (held b - 1) (λ (i : ℕ). frame_at b (suc i)),
    is_due-held b v due,
  )

  -- `dequeue` gives what `pop` gives on the contents of a well-formed buffer, and leaves the contents
  -- that `pop` leaves.
  pub dequeue_refines :
      (no_resend : Bool) (b : RaopBuffer D)
      → IsWellFormed b
      → let (out, b') = dequeue no_resend b in
        (out, contents b') ≡ pop no_resend (silence_of b) (contents b)
  dequeue_refines no_resend b v = elim (Bool-cases (is_due b)) [
    | inl due ↦ elim (Bool-cases (entry_at b (first_slot b)).available) [
      | inl here ↦ pop_frame no_resend b v due here
      | inr gap ↦ pop_gap no_resend b v due gap
    ]
    | inr nothing ↦
        rw (dequeue_tests no_resend b, nothing, not_due-contents b v nothing) (unfold pop in refl)
  ]
