-- ===== src/RaopBuffer/Stored.antt =====
-- raop/buffer.rs: the frames of the window when a slot is cleared, filled, and the window widened.
use native.Mathlib.Decide.{ℕ_discrete, dec_lt}
use shairplay_rust.Base.{
  ℕ, suc, ◌+◌, ◌%◌, ◌^◌, ◌≤◌, ◌<◌, max, true, false, Option, none, List, [], ◌∷◌, length, get_or,
  take, ◌≡◌, ◌≢◌, ap, sym, ◌∙◌, arith, Bool-cases, inl, inr, get_or-set_ne, get_or-set_self,
}
use shairplay_rust.Base.Words.{ℤ}
use shairplay_rust.RaopBuffer.{
  RaopBuffer, BufferEntry, blank, clear_entry, wrapping_sub, wrapping_add, entry_at, put_entry,
  filled, widen, seqnum_cmp,
}
use shairplay_rust.RaopBuffer.Decode.{Codec}
use shairplay_rust.RaopBuffer.Invariant.{IsWellFormed, held, offset}
use shairplay_rust.RaopBuffer.Widen.{IsNear, widen_window, widen_keeps}
use shairplay_rust.RaopBuffer.Queue.{is_duplicate, cleared}
use shairplay_rust.RaopBuffer.Contents.{
  Samples, tabulate, tabulate_ext, placed, is_some_at, is_some_at-tabulate, frame_in, frame_of_seq,
  frame_at, contents,
}
use shairplay_rust.RaopBuffer.Pop.{contents_nonempty}

-- Two numbers of 32 in a row that share a slot are the same.
same_slot :
    (first i seqnum : ℕ)
    → first < 2 ^ 16
    → seqnum < 2 ^ 16
    → i < 32
    → wrapping_sub seqnum first < 32
    → seqnum % 32 ≡ wrapping_add first i % 32
    → i ≡ wrapping_sub seqnum first
same_slot first i seqnum hf hs hi hd e = omega arith

at_offset :
    (first seqnum : ℕ)
    → first < 2 ^ 16
    → seqnum < 2 ^ 16
    → wrapping_add first (wrapping_sub seqnum first) ≡ seqnum
at_offset first seqnum hf hs = omega arith

placed_inside :
    (d n i : ℕ) (f : Samples) (g : ℕ → Option Samples) → i ≢ d → i < n → g i ≡ placed d f n g i
placed_inside d n i f g ne lt = ground arith

placed_outside :
    (d n i : ℕ) (f : Samples) (g : ℕ → Option Samples)
    → i ≢ d
    → n ≤ i
    → g i ≡ none
    → g i ≡ placed d f n g i
placed_outside d n i f g ne ge h = ground arith

module _ {D : Type 0} where
  -- A slot other than that of `seqnum` is read as before.
  frame-put_ne :
      (b : RaopBuffer D) (idx : ℕ) (e : BufferEntry) (s : ℕ)
      → idx ≢ s % 32
      → frame_of_seq (put_entry b idx e) s ≡ frame_of_seq b s
  frame-put_ne b idx e s ne =
      ap (λ r. frame_in r s) (get_or-set_ne b.entries idx (s % 32) e (blank b.frame_capacity) ne)

  pub frame-put_self :
      (b : RaopBuffer D) (e : BufferEntry) (s : ℕ)
      → length b.entries ≡ 32
      → frame_of_seq (put_entry b (s % 32) e) s ≡ frame_in e s
  frame-put_self b e s len =
      ap (λ r. frame_in r s)
        (get_or-set_self b.entries (s % 32) e (blank b.frame_capacity) (omega arith))

  not_duplicate :
      (b : RaopBuffer D) (seqnum : ℕ)
      → IsWellFormed b
      → seqnum < 2 ^ 16
      → is_duplicate b seqnum ≡ false
      → frame_of_seq b seqnum ≡ none
  unfolding seqnum_cmp
  not_duplicate b seqnum v hs h = ground (arith, v.good (seqnum % 32) (omega arith))

  pub duplicate :
      (b : RaopBuffer D) (seqnum : ℕ)
      → IsWellFormed b
      → seqnum < 2 ^ 16
      → b.is_empty ≡ false
      → offset b seqnum < 32
      → is_some_at (offset b seqnum) (contents b) ≡ is_duplicate b seqnum
  unfolding seqnum_cmp
  duplicate b seqnum v hs full near =
      ap (is_some_at (offset b seqnum)) (contents_nonempty b full)
      ∙ is_some_at-tabulate (offset b seqnum) (held b) (frame_at b)
      ∙ ground (
        arith,
        v.good (seqnum % 32) (omega arith),
        ap (frame_of_seq b) (at_offset b.first_seqnum seqnum v.first_u16 hs),
      )

  -- Clearing the slot of a number that it does not hold loses nothing.
  frame-cleared :
      (b : RaopBuffer D) (seqnum i : ℕ)
      → IsWellFormed b
      → seqnum < 2 ^ 16
      → offset b seqnum < 32
      → i < held b
      → is_duplicate b seqnum ≡ false
      → frame_at (cleared b seqnum) i ≡ frame_at b i
  frame-cleared b seqnum i v hs near hi h =
      elim (ℕ_discrete (seqnum % 32) (wrapping_add b.first_seqnum i % 32)) [
        | yes e ↦
            here (same_slot b.first_seqnum i seqnum v.first_u16 hs (omega (arith, v.window)) near e)
        | no ne ↦
            frame-put_ne b (seqnum % 32) (clear_entry (entry_at b (seqnum % 32)))
              (wrapping_add b.first_seqnum i) ne
      ]
    where
      at_seqnum : i ≡ offset b seqnum → wrapping_add b.first_seqnum i ≡ seqnum
      at_seqnum e = omega (arith, at_offset b.first_seqnum seqnum v.first_u16 hs)

      here : i ≡ offset b seqnum → frame_at (cleared b seqnum) i ≡ frame_at b i
      here e =
          ap (frame_of_seq (cleared b seqnum)) (at_seqnum e)
          ∙ frame-put_self b (clear_entry (entry_at b (seqnum % 32))) seqnum v.slots
          ∙ sym (ap (frame_of_seq b) (at_seqnum e) ∙ not_duplicate b seqnum v hs h)

  pub contents_empty : (b : RaopBuffer D) → b.is_empty ≡ true → contents b ≡ []
  unfolding contents
  contents_empty b h = rw h

  pub contents-cleared :
      (b : RaopBuffer D) (seqnum : ℕ) (codec : Codec D)
      → IsWellFormed b
      → seqnum < 2 ^ 16
      → IsNear b seqnum
      → is_duplicate b seqnum ≡ false
      → contents (record (cleared b seqnum) { codec = codec }) ≡ contents b
  contents-cleared b seqnum codec v hs near h = elim (Bool-cases b.is_empty) [
    | inl e ↦ contents_empty b1 e ∙ sym (contents_empty b e)
    | inr full ↦
        contents_nonempty b1 full
        ∙ tabulate_ext (held b) (frame_at b1) (frame_at b)
            (λ i lt. frame-cleared b seqnum i v hs (ground arith) lt h)
        ∙ sym (contents_nonempty b full)
  ]
    where
      b1 : RaopBuffer D
      b1 = record (cleared b seqnum) { codec = codec }

  -- Nothing lies behind the window.
  frame-beyond :
      (b : RaopBuffer D) (i : ℕ) → IsWellFormed b → i < 32 → held b ≤ i → frame_at b i ≡ none
  frame-beyond b i v lt h =
      ground (arith, v.good (wrapping_add b.first_seqnum i % 32) (omega arith), v.first_u16)

  -- The frames of the window after a packet was stored.
  pub frame-stored :
      (b : RaopBuffer D) (e : BufferEntry) (bytes : List ℕ) (seqnum : ℕ) (samples : List ℤ)
      (n i : ℕ)
      → IsWellFormed b
      → seqnum < 2 ^ 16
      → b.is_empty ≡ false
      → offset b seqnum < 32
      → i < max (held b) (suc (offset b seqnum))
      → frame_at (put_entry b (seqnum % 32) (filled e bytes seqnum samples n)) i
        ≡ placed (offset b seqnum) (take n samples) (held b) (frame_at b) i
  frame-stored b e bytes seqnum samples n i v hs full near hi =
      elim (ℕ_discrete (seqnum % 32) (wrapping_add b.first_seqnum i % 32)) [
        | yes p ↦
            here (same_slot b.first_seqnum i seqnum v.first_u16 hs (omega (arith, v.window)) near p)
        | no ne ↦
            frame-put_ne b (seqnum % 32) entry (wrapping_add b.first_seqnum i) ne
            ∙ elsewhere (differs ne)
      ]
    where
      entry : BufferEntry
      entry = filled e bytes seqnum samples n

      here :
          i ≡ offset b seqnum
          → frame_at (put_entry b (seqnum % 32) entry) i
            ≡ placed (offset b seqnum) (take n samples) (held b) (frame_at b) i
      here p =
          ap (frame_of_seq (put_entry b (seqnum % 32) entry))
            (omega (arith, at_offset b.first_seqnum seqnum v.first_u16 hs))
          ∙ frame-put_self b entry seqnum v.slots
          ∙ ground arith

      differs : seqnum % 32 ≢ wrapping_add b.first_seqnum i % 32 → i ≢ offset b seqnum
      differs ne p = ne (omega (arith, at_offset b.first_seqnum seqnum v.first_u16 hs))

      elsewhere :
          i ≢ offset b seqnum
          → frame_at b i ≡ placed (offset b seqnum) (take n samples) (held b) (frame_at b) i
      elsewhere ne = elim (dec_lt i (held b)) [
        | yes lt ↦ placed_inside (offset b seqnum) (held b) i (take n samples) (frame_at b) ne lt
        | no ge ↦
            placed_outside (offset b seqnum) (held b) i (take n samples) (frame_at b) ne
              (omega arith) (frame-beyond b i v (omega (arith, v.window)) (omega arith))
      ]

  frame_at_eq :
      (x y : RaopBuffer D) (i : ℕ)
      → x.entries ≡ y.entries
      → x.frame_capacity ≡ y.frame_capacity
      → x.first_seqnum ≡ y.first_seqnum
      → frame_at x i ≡ frame_at y i
  frame_at_eq x y i p q r =
      λ j. frame_in (get_or (p j) (wrapping_add (r j) i % 32) (blank (q j))) (wrapping_add (r j) i)

  pub widen-contents :
      (b : RaopBuffer D) (seqnum : ℕ)
      → b.first_seqnum < 2 ^ 16
      → b.last_seqnum < 2 ^ 16
      → seqnum < 2 ^ 16
      → held b ≤ 32
      → b.is_empty ≡ false
      → offset b seqnum < 32
      → contents (widen seqnum b) ≡ tabulate (max (held b) (suc (offset b seqnum))) (frame_at b)
  widen-contents b seqnum hf hl hs hh full near =
      contents_nonempty b' keeps.2
      ∙ ap (λ n. tabulate n (frame_at b')) (omega (arith, count))
      ∙ tabulate_ext (max (held b) (suc (offset b seqnum))) (frame_at b') (frame_at b)
          (λ i lt. frame_at_eq b' b i keeps.0 keeps.1 start)
    where
      b' : RaopBuffer D
      b' = widen seqnum b

      keeps :
          (b'.entries ≡ b.entries)
          × (b'.frame_capacity ≡ b.frame_capacity)
          × (b'.is_empty ≡ false)
          × (b'.codec ≡ b.codec)
          × (b'.silence_samples ≡ b.silence_samples)
      keeps = widen_keeps seqnum b

      start : b'.first_seqnum ≡ b.first_seqnum
      start = ground (arith, widen_window seqnum b hf hl hs hh (inr near))

      count : held b' ≡ max (held b) (offset b seqnum + 1)
      count = ground (arith, widen_window seqnum b hf hl hs hh (inr near))

  pub widen-contents_empty :
      (b : RaopBuffer D) (seqnum : ℕ)
      → b.first_seqnum < 2 ^ 16
      → b.last_seqnum < 2 ^ 16
      → seqnum < 2 ^ 16
      → held b ≤ 32
      → b.is_empty ≡ true
      → contents (widen seqnum b) ≡ frame_of_seq b seqnum ∷ []
  unfolding tabulate
  widen-contents_empty b seqnum hf hl hs hh e =
      contents_nonempty b' keeps.2
      ∙ ap (λ n. tabulate n (frame_at b')) count
      ∙ ap (λ f. f ∷ [])
          (λ j. frame_in (get_or (keeps.0 j) (start j % 32) (blank (keeps.1 j))) (start j))
    where
      b' : RaopBuffer D
      b' = widen seqnum b

      keeps :
          (b'.entries ≡ b.entries)
          × (b'.frame_capacity ≡ b.frame_capacity)
          × (b'.is_empty ≡ false)
          × (b'.codec ≡ b.codec)
          × (b'.silence_samples ≡ b.silence_samples)
      keeps = widen_keeps seqnum b

      start : wrapping_add b'.first_seqnum 0 ≡ seqnum
      start = ground (arith, widen_window seqnum b hf hl hs hh (inl e))

      count : held b' ≡ 1
      count = ground (arith, widen_window seqnum b hf hl hs hh (inl e))
